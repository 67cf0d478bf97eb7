-- ===== src/Scenes/Sending.antt =====
-- Sending by a scene: `SendMessageByScene` of src/restful/services/messages.go and `getSceneRelation` of
-- src/restful/services/scenes.go.
use messenger_service_go.Prelude.{◌≡◌, String, Option, none, some, List, [], arith}
use messenger_service_go.Go.{err, not_found}
use messenger_service_go.Go.Exec.{Exec, ◌>>=◌}
use messenger_service_go.Common.{create_error}
use messenger_service_go.Models.{
  SceneRelation, SendMessageV2Request, SendMessageV2Response, no_email_request, no_feishu_request,
}
use messenger_service_go.Backend.{Backend}
use messenger_service_go.World.{World, reads}
use messenger_service_go.Message.External.{External, Env}
use messenger_service_go.Message.Validate.{
  no_sms_request, no_dingtalk_request, validate_send_message_v2,
}
use messenger_service_go.Message.Store.{get_configuration_by_class_id}
use messenger_service_go.Message.Send.{send_message_v2_request}

module _ (B : Backend) (X : External B) where
  -- `find_relation` is `FindOne` by the scene's and the application's id. What it does not find is
  -- read as a relation whose fields are all zero, since the error of the decoding is dropped.
  module _ (find_relation : String → String → B.State → Option SceneRelation) where
    abbrev pub no_relation : SceneRelation
    no_relation = record {
      scene_id = "";
      template_id = "";
      config_id = "";
      source = "";
      target = [];
      custom_email_request = no_email_request;
      custom_sms_request = no_sms_request;
      custom_feishu_request = no_feishu_request;
      custom_dingtalk_request = no_dingtalk_request;
      app_id = "";
      instance_id = "";
      tenant_id = "";
      created_by = "";
      update_by = "";
      created_at = 0;
      updated_at = 0;
    }

    abbrev pub found_or_zero : Option SceneRelation → SceneRelation
    found_or_zero none = no_relation
    found_or_zero (some relation) = relation

    unfoldable pub get_scene_relation : String → String → Exec (World B) SceneRelation
    get_scene_relation scene_id app_id =
        reads B (λ s. found_or_zero (find_relation scene_id app_id s))

    -- The request that a relation stands for.
    unfoldable pub scene_request : SceneRelation → List String → SendMessageV2Request
    scene_request relation args = record {
      class_id = relation.config_id;
      subclass_id = "";
      message_template_id = relation.template_id;
      params = args;
      content = "";
      source = relation.source;
      targets = relation.target;
      custom_email_request = relation.custom_email_request;
      custom_sms_request = record { template_params = args };
      custom_feishu_request_v2 = record { msg_type = relation.custom_feishu_request.msg_type };
    }

    unfoldable pub send_message_by_scene :
        Env → String → String → List String → Exec (World B) SendMessageV2Response
    unfolding get_scene_relation scene_request
    send_message_by_scene env scene_id app_id args = do
      relation ← get_scene_relation scene_id app_id
      send_message_v2_request B X env (scene_request relation args)

    -- Sending by a scene that is not there ends, though the code means to answer nothing, in the
    -- error that the class of a message is not found, if no class has the class id "". It changes
    -- nothing.
    pub unknown_scene_refused :
        (env : Env) (scene_id app_id : String) (args : List String) (w : World B)
        → find_relation scene_id app_id w.state ≡ none
        → B.find_configuration "" w.state ≡ none
        → send_message_by_scene env scene_id app_id args w
          ≡ (err (create_error not_found 100112), w)
    unfolding send_message_by_scene get_scene_relation scene_request send_message_v2_request
        validate_send_message_v2 get_configuration_by_class_id
    unknown_scene_refused env scene_id app_id args w n c = ground (arith, n, c)
