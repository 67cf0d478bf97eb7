-- ===== src/Message/External.antt =====
-- What sending and changing messages uses of code that is not modelled: text/template,
-- net/mail, the validator of structs, and the senders that call other services by HTTP and SMTP
-- (`sendEmail`, `sendSMS`, `sendFeishuMessage`, `sendDingTalkMessage`, `sendThirdPartyMessage` and
-- their second versions in src/restful/services/messages.go).
use messenger_service_go.Prelude.{String, Bool, Option, List}
use messenger_service_go.Prelude.Maps.{Map}
use messenger_service_go.Go.Exec.{Exec}
use messenger_service_go.Models.{ObjectId, Time, Configuration, Message}
use messenger_service_go.Backend.{Backend}
use messenger_service_go.World.{World}

-- What parsing and executing a template ends with.
pub data Rendered : Type 0 where
  parse_error execute_error : Rendered
  rendered : String → Rendered

pub data Channel : Type 0 where
  third_party email sms feishu ding_talk : Channel

pub record External (B : Backend) : Type 0 where
  pub render : String → Map String → Rendered
  -- whether `mail.ParseAddress` has no error
  pub parses_address : String → Bool
  -- the fields that the tags of `Message` refuse, if any
  pub invalid_fields : Message → Option (Map String)
  -- a sender; it may change the targets of the message
  pub deliver : Channel → Message → Configuration → Exec (World B) Message
  -- a sender of the second version, which also returns the targets that it failed to reach
  pub deliver_v2 : Channel → Message → Configuration → Exec (World B) (Message × List String)

-- What `time.Now` and `primitive.NewObjectID` return in one call: the message's id and that of its
-- linked copy.
pub record Env : Type 0 where
  pub now : Time
  pub id : ObjectId
  pub linkage_id : ObjectId
