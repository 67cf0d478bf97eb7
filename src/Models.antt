-- ===== src/Models.antt =====
-- The documents of the service: src/restful/models and the models of
-- src/restful/services/{configuration,messages,templates}.go.
use messenger_service_go.Prelude.{ℕ, String, Bool, Option, List, []}
use messenger_service_go.Prelude.Maps.{Map}

-- A `primitive.ObjectID` is 12 bytes, here the number that they write; `primitive.NilObjectID` is 0.
abbrev pub ObjectId : Type 0
ObjectId = ℕ

-- A `time.Time`, as its nanoseconds.
abbrev pub Time : Type 0
Time = ℕ

pub record Policy : Type 0 where
  pub kafka : String
  pub http : String

-- `Query` and `Body` are JSON objects that no code of the service looks into.
pub record ActionTrigger : Type 0 where
  pub type : String
  pub url : String
  pub method : String
  pub query : Option (Map String)
  pub body : Option (Map String)

pub record ActionModel : Type 0 where
  pub name : String
  pub tips : String
  pub action : ActionTrigger
  pub next_action : String

pub record CustomEmailConfiguration : Type 0 where
  pub email_account : String
  pub email_password : String

pub record Huawei : Type 0 where
  pub channel : String
  pub signature : String
  pub template_id : String

pub record CustomSmsConfiguration : Type 0 where
  pub huawei : Huawei

pub record CustomFeishuConfiguration : Type 0 where
  pub app_id : String
  pub app_secret : String
  pub type : String

pub record CustomDingTalkConfiguration : Type 0 where
  pub suite_id : String
  pub app_id : String
  pub mini_app_id : String
  pub suite_key : String
  pub suite_secret : String
  pub template_id : String
  pub agent_id : String

pub record Configuration : Type 0 where
  pub id : ObjectId
  pub class_id : String
  pub parent_id : String
  pub app_id : String
  pub name : String
  pub persist : Bool
  pub states : List String
  pub type : String
  pub mode : String
  pub status_callbacks : Policy
  pub actions : List ActionModel
  pub custom_email_configuration : CustomEmailConfiguration
  pub custom_sms_configuration : CustomSmsConfiguration
  pub custom_feishu_configuration : CustomFeishuConfiguration
  pub custom_ding_talk_configuration : CustomDingTalkConfiguration
  pub created_at : Time
  pub updated_at : Time

-- These two are without `CompanyData`, a map that the code here leaves nil.
pub record FeishuConfigData : Type 0 where
  pub app_id : String
  pub app_secret : String
  pub app_type : String
  pub app_ticket : String
  pub tenant_access_token : String
  pub tenant_key : String

pub record DingTalkConfigData : Type 0 where
  pub app_id : String
  pub suite_key : String
  pub suite_secret : String
  pub suite_ticket : String
  pub suite_id : String
  pub auth_corp_id : String
  pub access_token : String
  pub agent_id : String

-- A slice of a request that may be nil is an option: `none` is the nil slice.
pub record CreateConfigurationRequest : Type 0 where
  pub class_id : String
  pub parent_id : String
  pub app_id : String
  pub name : String
  pub persist : Bool
  pub states : Option (List String)
  pub type : String
  pub mode : String
  pub status_callbacks : Policy
  pub actions : Option (List ActionModel)
  pub custom_email_configuration : CustomEmailConfiguration
  pub custom_sms_configuration : CustomSmsConfiguration
  pub custom_feishu_configuration : CustomFeishuConfiguration
  pub custom_ding_talk_configuration : CustomDingTalkConfiguration

pub record UpdateConfigurationRequest : Type 0 where
  pub class_id : String
  pub app_id : String
  pub name : String
  pub persist : Bool
  pub states : Option (List String)
  pub type : String
  pub mode : String
  pub status_callbacks : Policy
  pub actions : Option (List ActionModel)
  pub custom_email_configuration : CustomEmailConfiguration
  pub custom_sms_configuration : CustomSmsConfiguration
  pub custom_feishu_configuration : CustomFeishuConfiguration
  pub custom_ding_talk_configuration : CustomDingTalkConfiguration

pub record CustomEmailRequest : Type 0 where
  pub subject : String
  pub body_type : String
  pub cc : List String
  pub bcc : List String
  pub attachments : List String

pub record CustomSmsRequest : Type 0 where
  pub template_params : List String

pub record CustomFeishuRequest : Type 0 where
  pub receive_id_type : String
  pub msg_type : String
  pub company_id : String

pub record CustomDingtalkRequest : Type 0 where
  pub company_id : String

-- `StatusSync` is a Go map that may be nil: `none` is the nil map.
pub record Message : Type 0 where
  pub id : ObjectId
  pub linkage_id : ObjectId
  pub app_id : String
  pub open_id : String
  pub class_id : String
  pub subclass_id : String
  pub message_template_id : String
  pub params : List String
  pub content : String
  pub source : String
  pub status : String
  pub target : List String
  pub status_sync : Option (Map String)
  pub created_at : Time
  pub updated_at : Time
  pub custom_email_request : CustomEmailRequest
  pub custom_sms_request : CustomSmsRequest
  pub custom_feishu_request : CustomFeishuRequest
  pub custom_dingtalk_request : CustomDingtalkRequest
  pub actions : List ActionModel

pub record MessageStatus : Type 0 where
  pub status : String
  pub open_id : String

pub record CustomFeishuRequestV2 : Type 0 where
  pub msg_type : String

pub record SendMessageV2Request : Type 0 where
  pub class_id : String
  pub subclass_id : String
  pub message_template_id : String
  pub params : List String
  pub content : String
  pub source : String
  pub targets : List String
  pub custom_email_request : CustomEmailRequest
  pub custom_sms_request : CustomSmsRequest
  pub custom_feishu_request_v2 : CustomFeishuRequestV2

pub record SendMessageV2Response : Type 0 where
  pub message_id : String
  pub failed_targets : List String

pub record Template : Type 0 where
  pub id : ObjectId
  pub app_id : String
  pub message_template_id : String
  pub name : String
  pub type : String
  pub content : String
  pub params : List String
  pub created_by : String
  pub language : String
  pub created_at : Time
  pub updated_at : Time

-- What a scene is sent with: its class, its template and its targets.
pub record SceneRelation : Type 0 where
  pub scene_id : String
  pub template_id : String
  pub config_id : String
  pub source : String
  pub target : List String
  pub custom_email_request : CustomEmailRequest
  pub custom_sms_request : CustomSmsRequest
  pub custom_feishu_request : CustomFeishuRequest
  pub custom_dingtalk_request : CustomDingtalkRequest
  pub app_id : String
  pub instance_id : String
  pub tenant_id : String
  pub created_by : String
  pub update_by : String
  pub created_at : Time
  pub updated_at : Time

abbrev pub no_email_request : CustomEmailRequest
no_email_request = record { subject = ""; body_type = ""; cc = []; bcc = []; attachments = [] }

abbrev pub no_feishu_request : CustomFeishuRequest
no_feishu_request = record { receive_id_type = ""; msg_type = ""; company_id = "" }
