-- ===== src/Configuration/Settings.antt =====
-- What the operations on classes use of other code: the settings that src/configs reads from the
-- environment, the validator of structs, and the cipher and the texts' bytes of the encryption.
use messenger_service_go.Prelude.{ℕ, String, Option, List}
use messenger_service_go.Prelude.Maps.{Map}
use messenger_service_go.Go.{Result}
use messenger_service_go.Crypto.{Cipher}
use messenger_service_go.Crypto.Base64.{Codec, aes_encrypt_base64}
use messenger_service_go.Models.{
  CustomEmailConfiguration, CustomSmsConfiguration, CustomFeishuConfiguration,
  CustomDingTalkConfiguration, CreateConfigurationRequest, UpdateConfigurationRequest,
}

pub record Settings : Type 0 where
  -- `configs.EmailAccount` and `EmailPassword`; the settings of Huawei, Feishu and DingTalk
  pub email : CustomEmailConfiguration
  pub sms : CustomSmsConfiguration
  pub feishu : CustomFeishuConfiguration
  pub ding_talk : CustomDingTalkConfiguration
  pub secret_key : String
  pub new_cipher : List ℕ → Option Cipher
  pub codec : Codec
  -- the fields that the tags of a request refuse, if any
  pub invalid_create : CreateConfigurationRequest → Option (Map String)
  pub invalid_update : UpdateConfigurationRequest → Option (Map String)

-- `AES_EncryptBase64([]byte(text), []byte(configs.SecretKey))`
abbrev pub encrypt : Settings → String → Result String
encrypt S text =
    aes_encrypt_base64 S.new_cipher S.codec (S.codec.bytes_of text) (S.codec.bytes_of S.secret_key)
