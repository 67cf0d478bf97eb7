-- ===== src/Configuration/Customs.antt =====
-- The custom configurations of a class: the parts of `validateCreateConfiguration` and
-- `validateUpdateConfiguration` of src/restful/services/configuration.go that choose them by the
-- mode. `MarshalBinary` fails on no application's data, so its error paths are left out.
use messenger_service_go.Prelude.{String, ◌==◌, Bool, not, ◌||◌, ◌&&◌, if◌then◌else◌}
use messenger_service_go.Go.{Result, ok, ◌>>=◌}
use messenger_service_go.Models.{
  Configuration, CustomEmailConfiguration, CustomSmsConfiguration, CustomFeishuConfiguration,
  CustomDingTalkConfiguration, FeishuConfigData, DingTalkConfigData,
}
use messenger_service_go.Configuration.Settings.{Settings, encrypt}

-- The four custom configurations of a class or of a request.
pub record Customs : Type 0 where
  pub email : CustomEmailConfiguration
  pub sms : CustomSmsConfiguration
  pub feishu : CustomFeishuConfiguration
  pub ding_talk : CustomDingTalkConfiguration

abbrev pub no_customs : Customs
no_customs = record {
  email = record { email_account = ""; email_password = "" };
  sms = record { huawei = record { channel = ""; signature = ""; template_id = "" } };
  feishu = record { app_id = ""; app_secret = ""; type = "" };
  ding_talk = record {
    suite_id = "";
    app_id = "";
    mini_app_id = "";
    suite_key = "";
    suite_secret = "";
    template_id = "";
    agent_id = "";
  };
}

abbrev pub customs_of : Configuration → Customs
customs_of c = record {
  email = c.custom_email_configuration;
  sms = c.custom_sms_configuration;
  feishu = c.custom_feishu_configuration;
  ding_talk = c.custom_ding_talk_configuration;
}

-- The tests of a custom configuration for a field that is not given.
abbrev pub email_lacks : CustomEmailConfiguration → Bool
email_lacks c = c.email_account == "" || c.email_password == ""

abbrev pub sms_lacks : CustomSmsConfiguration → Bool
sms_lacks c = c.huawei.channel == "" || c.huawei.signature == "" || c.huawei.template_id == ""

abbrev pub feishu_lacks : CustomFeishuConfiguration → Bool
feishu_lacks c = c.app_id == "" || c.app_secret == ""

abbrev pub ding_talk_lacks : CustomDingTalkConfiguration → Bool
ding_talk_lacks c =
    c.suite_id == ""
    || c.suite_key == ""
    || c.suite_secret == ""
    || c.app_id == ""
    || c.mini_app_id == ""
    || c.template_id == ""
    || c.agent_id == ""

-- The data of an application as Redis keeps them.
abbrev pub feishu_config : String → String → String → FeishuConfigData
feishu_config app_id app_secret type = record {
  app_id = app_id;
  app_secret = app_secret;
  app_type = if type == "" then "store" else type;
  app_ticket = "";
  tenant_access_token = "";
  tenant_key = "";
}

abbrev pub ding_talk_config : String → String → String → String → DingTalkConfigData
ding_talk_config app_id suite_key suite_secret suite_id = record {
  app_id = app_id;
  suite_key = suite_key;
  suite_secret = suite_secret;
  suite_ticket = "";
  suite_id = suite_id;
  auth_corp_id = "";
  access_token = "";
  agent_id = "";
}

module _ (S : Settings) where
  unfoldable pub encrypt_email : CustomEmailConfiguration → Result CustomEmailConfiguration
  encrypt_email c =
      encrypt S c.email_password >>= λ password. ok (record c { email_password = password })

  unfoldable pub encrypt_feishu : CustomFeishuConfiguration → Result CustomFeishuConfiguration
  encrypt_feishu c = encrypt S c.app_id >>= λ app_id. encrypt S c.app_secret >>= λ app_secret.
      ok (record c { app_id = app_id; app_secret = app_secret })

  unfoldable pub encrypt_ding_talk :
      CustomDingTalkConfiguration → Result CustomDingTalkConfiguration
  encrypt_ding_talk c = encrypt S c.suite_key >>= λ suite_key.
      encrypt S c.suite_secret >>= λ suite_secret.
      ok (record c { suite_key = suite_key; suite_secret = suite_secret })

  -- The customs that an update leaves in the class: `given` are those of the request, `kept` those
  -- of the class. Only a request with a mode changes them, and for "dingtalk" only one that gives
  -- no field.
  unfoldable pub update_customs : String → Customs → Customs → Result Customs
  unfolding encrypt_email encrypt_feishu encrypt_ding_talk
  update_customs mode given kept =
      if mode == "email"
      then (if not (given.email.email_account == "") && not (given.email.email_password == "")
          then (encrypt_email given.email >>= λ email. ok (record no_customs { email = email }))
          else ok kept)
      else if mode == "sms"
      then (if sms_lacks given.sms then ok kept else ok (record kept { sms = given.sms }))
      else if mode == "feishu"
      then (if feishu_lacks given.feishu
          then ok kept
          else (encrypt_feishu given.feishu >>= λ feishu.
              ok (record kept { feishu = record feishu { type = kept.feishu.type } })))
      else if mode == "dingtalk"
      then (if given.ding_talk.suite_id == ""
            && given.ding_talk.suite_key == ""
            && given.ding_talk.suite_secret == ""
            && given.ding_talk.app_id == ""
            && given.ding_talk.mini_app_id == ""
            && given.ding_talk.template_id == ""
            && given.ding_talk.agent_id == ""
          then (encrypt_ding_talk given.ding_talk >>= λ ding_talk.
              ok (record kept { ding_talk = ding_talk }))
          else ok kept)
      else ok kept

  -- A custom configuration of a class with a parent: what is not whole is the parent's.
  unfoldable pub child_email : Customs → Customs → Result CustomEmailConfiguration
  unfolding encrypt_email
  child_email parent given =
      if email_lacks given.email then ok parent.email else encrypt_email given.email

  unfoldable pub child_feishu : Customs → Customs → Result CustomFeishuConfiguration
  unfolding encrypt_feishu
  child_feishu parent given =
      if feishu_lacks given.feishu then ok parent.feishu else encrypt_feishu given.feishu

  unfoldable pub child_ding_talk : Customs → Customs → Result CustomDingTalkConfiguration
  unfolding encrypt_ding_talk
  child_ding_talk parent given =
      if ding_talk_lacks given.ding_talk
      then ok parent.ding_talk
      else encrypt_ding_talk given.ding_talk

  -- A custom configuration of a class without a parent: what is not whole is the settings'.
  abbrev pub root_email : Customs → CustomEmailConfiguration
  root_email given = if email_lacks given.email then S.email else given.email

  abbrev pub root_sms : Customs → CustomSmsConfiguration
  root_sms given = if sms_lacks given.sms then S.sms else given.sms

  abbrev pub root_feishu : Customs → CustomFeishuConfiguration
  root_feishu given = if feishu_lacks given.feishu then S.feishu else given.feishu

  abbrev pub root_ding_talk : Customs → CustomDingTalkConfiguration
  root_ding_talk given = if ding_talk_lacks given.ding_talk then S.ding_talk else given.ding_talk
