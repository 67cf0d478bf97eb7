-- ===== src/Crypto/Laws.antt =====
-- What is encrypted is decrypted again.
use messenger_service_go.Prelude.{◌≡◌, ℕ, arith, Option, some, List}
use messenger_service_go.Crypto.{
  bytes, pkcs7_padding, Cipher, IsCipher, initial_vector, crypt_blocks, aes_encrypt, aes_decrypt,
}
use messenger_service_go.Crypto.Padding.{pkcs7_unpadding-pkcs7_padding, pkcs7_padding-length}

module _ (new_cipher : List ℕ → Option Cipher) where
  -- With a key that `aes.NewCipher` accepts, encryption succeeds and decryption with the same key
  -- gives the bytes back.
  pub aes_decrypt-aes_encrypt :
      (xs key : List ℕ) (c : Cipher)
      → new_cipher key ≡ some c
      → IsCipher c
      → (ys : List ℕ) × (aes_encrypt new_cipher xs key ≡ bytes ys)
        × (aes_decrypt new_cipher ys key ≡ bytes xs)
  unfolding aes_encrypt aes_decrypt crypt_blocks
  aes_decrypt-aes_encrypt xs key c e l =
      let padded = pkcs7_padding xs 16 in
      let whole = pkcs7_padding-length xs in
      (
        c.encrypt (initial_vector key) padded,
        ground (arith, e, whole),
        ground (
          arith,
          e,
          whole,
          l.same_length (initial_vector key) padded,
          l.undone (initial_vector key) padded whole,
          (pkcs7_unpadding-pkcs7_padding xs 16 (omega arith) (omega arith)).0,
        ),
      )
