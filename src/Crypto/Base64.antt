-- ===== src/Crypto/Base64.antt =====
-- `AES_EncryptBase64` and `AES_DecryptBase64` of src/restful/services/common.go. encoding/base64 and the
-- bytes of a text are parameters.
use messenger_service_go.Prelude.{ℕ, String, ◌≡◌, arith, Option, none, some, List}
use messenger_service_go.Go.{Error, Result, ok, err, panic, internal}
use messenger_service_go.Common.{create_error}
use messenger_service_go.Crypto.{
  Outcome, bytes, failure, crash, Cipher, IsCipher, aes_encrypt, aes_decrypt,
}
use messenger_service_go.Crypto.Laws.{aes_decrypt-aes_encrypt}

pub record Codec : Type 0 where
  -- `base64.StdEncoding`
  pub encode_to_string : List ℕ → String
  pub decode_string : String → Option (List ℕ)
  -- `[]byte(text)`
  pub bytes_of : String → List ℕ

pub record IsCodec (c : Codec) : Type 0 where
  pub decoded : (xs : List ℕ) → c.decode_string (c.encode_to_string xs) ≡ some xs

-- How a decryption ends; `cipher_error` is an error that `CreateError` has not made.
pub data Decrypted : Type 0 where
  decrypted : List ℕ → Decrypted
  refused : Error → Decrypted
  cipher_error : Decrypted

module _ (new_cipher : List ℕ → Option Cipher) (codec : Codec) where
  abbrev encoded : Outcome → Result String
  encoded (bytes res) = ok (codec.encode_to_string res)
  encoded failure = err (create_error internal 1000)
  encoded crash = panic

  unfoldable pub aes_encrypt_base64 : List ℕ → List ℕ → Result String
  aes_encrypt_base64 data' key = encoded (aes_encrypt new_cipher data' key)

  abbrev ended : Outcome → Decrypted
  ended (bytes res) = decrypted res
  ended failure = cipher_error
  ended crash = cipher_error

  unfoldable pub aes_decrypt_base64 : String → List ℕ → Decrypted
  aes_decrypt_base64 data' key = elim (codec.decode_string data') [
    | none ↦ refused (create_error internal 1000)
    | some data_byte ↦ ended (aes_decrypt new_cipher data_byte key)
  ]

  -- With a key that `aes.NewCipher` accepts, the Base64 form of the encryption is a text, and its
  -- decryption with the same key gives the bytes back.
  pub aes_decrypt_base64-aes_encrypt_base64 :
      (xs key : List ℕ) (c : Cipher)
      → IsCodec codec
      → new_cipher key ≡ some c
      → IsCipher c
      → (text : String) × (aes_encrypt_base64 xs key ≡ ok text)
        × (aes_decrypt_base64 text key ≡ decrypted xs)
  unfolding aes_encrypt_base64 aes_decrypt_base64
  aes_decrypt_base64-aes_encrypt_base64 xs key c l e i =
      let (ys, p, q) = aes_decrypt-aes_encrypt new_cipher xs key c e i in
      (codec.encode_to_string ys, ground (arith, p), ground (arith, q, l.decoded ys))
