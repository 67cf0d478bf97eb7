-- ===== src/Configuration/Register.antt =====
-- What the classes keep in Redis: the applications of Feishu and DingTalk, and the users of a
-- listening class (src/restful/services/configuration.go). `MarshalBinary` fails on no such data, so
-- its error paths are left out.
use messenger_service_go.Prelude.{String, ◌==◌, [], if◌then◌else◌}
use messenger_service_go.Go.{internal}
use messenger_service_go.Go.Exec.{Exec, pure, lift, ◌>>=◌, ◌>>◌}
use messenger_service_go.Common.{create_error}
use messenger_service_go.Models.{Configuration, FeishuConfigData, DingTalkConfigData}
use messenger_service_go.Backend.{
  Backend, user_list_key, user_map_json, feishu_applications_key, ding_talk_applications_key,
  feishu_json, ding_talk_json, Reply, found, missing, failed,
}
use messenger_service_go.World.{World, write, reads}
use messenger_service_go.Configuration.Settings.{Settings}
use messenger_service_go.Configuration.Customs.{
  Customs, no_customs, sms_lacks, feishu_config, ding_talk_config, encrypt_email, encrypt_feishu,
  encrypt_ding_talk, child_email, child_feishu, child_ding_talk, root_email, root_sms, root_feishu,
  root_ding_talk,
}

module _ (B : Backend) where
  -- Only an application that Redis does not know is written; an error of the reading is passed over.
  unfoldable pub feishu_registered : FeishuConfigData → Reply → Exec (World B) (Unit {0})
  feishu_registered config missing =
      write B (create_error internal 1001)
        (B.redis_set (feishu_applications_key config.app_id) (feishu_json config))
  feishu_registered config (found v) = pure tt
  feishu_registered config failed = pure tt

  unfoldable pub register_feishu : FeishuConfigData → Exec (World B) (Unit {0})
  unfolding feishu_registered
  register_feishu config = do
    val ← reads B (B.redis_get (feishu_applications_key config.app_id))
    feishu_registered config val

  unfoldable pub ding_talk_registered : DingTalkConfigData → Reply → Exec (World B) (Unit {0})
  ding_talk_registered config missing =
      write B (create_error internal 1001)
        (B.redis_set (ding_talk_applications_key config.app_id) (ding_talk_json config))
  ding_talk_registered config (found v) = pure tt
  ding_talk_registered config failed = pure tt

  unfoldable pub register_ding_talk : DingTalkConfigData → Exec (World B) (Unit {0})
  unfolding ding_talk_registered
  register_ding_talk config = do
    val ← reads B (B.redis_get (ding_talk_applications_key config.app_id))
    ding_talk_registered config val

  unfoldable pub register_listening_configuration : Configuration → Exec (World B) (Unit {0})
  register_listening_configuration class =
      write B (create_error internal 1001)
        (B.redis_set (user_list_key class.class_id) (user_map_json []))

  unfoldable pub unregister_listening_configuration : Configuration → Exec (World B) (Unit {0})
  unregister_listening_configuration class =
      write B (create_error internal 1001) (B.redis_del (user_list_key class.class_id))

  module _ (S : Settings) where
    -- The Feishu part for a class with a parent: the application that is registered has the id and
    -- the secret of the request, though they be "", and the type of the chosen configuration.
    unfoldable pub child_feishu_app : Customs → Customs → Exec (World B) Customs
    unfolding child_feishu register_feishu
    child_feishu_app parent given = do
      feishu ← lift (child_feishu S parent given)
      register_feishu (feishu_config given.feishu.app_id given.feishu.app_secret feishu.type)
      pure (record no_customs { feishu = feishu })

    -- The DingTalk part, which is registered under the suite's id.
    unfoldable pub child_ding_talk_app : Customs → Customs → Exec (World B) Customs
    unfolding child_ding_talk register_ding_talk
    child_ding_talk_app parent given = do
      ding_talk ← lift (child_ding_talk S parent given)
      register_ding_talk (
          ding_talk_config ding_talk.suite_id given.ding_talk.suite_key given.ding_talk.suite_secret
            ding_talk.suite_id)
      pure (record no_customs { ding_talk = ding_talk })

    unfoldable pub child_third_party : Customs → Customs → Exec (World B) Customs
    unfolding child_feishu_app child_ding_talk_app
    child_third_party parent given = do
      first ← child_feishu_app parent given
      second ← child_ding_talk_app parent given
      pure (record first { ding_talk = second.ding_talk })

    -- The customs of a class with a parent, by its mode.
    unfoldable pub child_customs : String → Customs → Customs → Exec (World B) Customs
    unfolding child_email child_feishu_app child_ding_talk_app child_third_party
    child_customs mode parent given =
        if mode == "email"
        then (do
          email ← lift (child_email S parent given)
          pure (record no_customs { email = email }))
        else if mode == "sms"
        then pure
            (record no_customs { sms = if sms_lacks given.sms then parent.sms else given.sms })
        else if mode == "third-party"
        then child_third_party parent given
        else if mode == "feishu"
        then child_feishu_app parent given
        else if mode == "dingtalk"
        then child_ding_talk_app parent given
        else pure no_customs

    -- The same parts for a class without a parent. DingTalk is registered under the id of the
    -- application.
    unfoldable pub root_feishu_app : Customs → Exec (World B) Customs
    unfolding register_feishu encrypt_feishu
    root_feishu_app given = do
      feishu ← lift (encrypt_feishu S (root_feishu S given))
      register_feishu
          (feishu_config (root_feishu S given).app_id (root_feishu S given).app_secret feishu.type)
      pure (record no_customs { feishu = feishu })

    unfoldable pub root_ding_talk_app : Customs → Exec (World B) Customs
    unfolding register_ding_talk encrypt_ding_talk
    root_ding_talk_app given = do
      ding_talk ← lift (encrypt_ding_talk S (root_ding_talk S given))
      register_ding_talk (
          ding_talk_config ding_talk.app_id (root_ding_talk S given).suite_key
            (root_ding_talk S given).suite_secret ding_talk.suite_id)
      pure (record no_customs { ding_talk = ding_talk })

    unfoldable pub root_third_party : Customs → Exec (World B) Customs
    unfolding root_feishu_app root_ding_talk_app
    root_third_party given = do
      first ← root_feishu_app given
      second ← root_ding_talk_app given
      pure (record first { ding_talk = second.ding_talk })

    unfoldable pub root_customs : String → Customs → Exec (World B) Customs
    unfolding encrypt_email root_feishu_app root_ding_talk_app root_third_party
    root_customs mode given =
        if mode == "email"
        then (do
          email ← lift (encrypt_email S (root_email S given))
          pure (record no_customs { email = email }))
        else if mode == "sms"
        then pure (record no_customs { sms = root_sms S given })
        else if mode == "third-party"
        then root_third_party given
        else if mode == "feishu"
        then root_feishu_app given
        else if mode == "dingtalk"
        then root_ding_talk_app given
        else pure no_customs
