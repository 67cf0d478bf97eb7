-- ===== src/Crypto.antt =====
-- The padding and the AES-CBC encryption of src/restful/services/common.go (`pkcs7Padding`,
-- `pkcs7UnPadding`, `AES_Encrypt`, `AES_Decrypt`). A byte is a number; `byte(n)` is n modulo 256. The
-- cipher is a parameter.
pub mod Padding
pub mod Laws
pub mod Base64
use messenger_service_go.Prelude.{
  ℕ, ◌≡◌, eqb, zero, suc, ◌+◌, ◌-◌, ◌%◌, ◌^◌, ltb, Option, none, some, List, [], ◌∷◌, ◌++◌, length,
  get_elem?, take, replicate, if◌then◌else◌,
}

-- How the functions end: with bytes, with an error, or by a panic.
pub data Outcome : Type 0 where
  bytes : List ℕ → Outcome
  failure crash : Outcome

unfoldable pub pkcs7_padding : List ℕ → ℕ → List ℕ
pkcs7_padding data' block_size =
    let padding = block_size - length data' % block_size in
    data' ++ replicate padding (padding % 2 ^ 8)

-- `data[:(length - unPadding)]`: a negative bound panics.
unfoldable pub cut : List ℕ → ℕ → Outcome
cut data' unpadding =
    if ltb (length data') unpadding then crash else bytes (take (length data' - unpadding) data')

unfoldable pub pkcs7_unpadding : List ℕ → Outcome
unfolding cut
pkcs7_unpadding data' = elim (get_elem? data' (length data' - 1)) [
  | none ↦ failure
  | some unpadding ↦ cut data' unpadding
]

-- What `aes.NewCipher` gives for a key of 16, 24 or 32 bytes, and `cipher.NewCBCEncrypter` and
-- `cipher.NewCBCDecrypter` make of it: functions of the initial vector and of whole blocks of 16 bytes.
pub record Cipher : Type 0 where
  pub encrypt : List ℕ → List ℕ → List ℕ
  pub decrypt : List ℕ → List ℕ → List ℕ

-- Decryption with the same initial vector undoes encryption, which keeps the length.
pub record IsCipher (c : Cipher) : Type 0 where
  pub undone :
      (iv data' : List ℕ) → length data' % 16 ≡ 0 → c.decrypt iv (c.encrypt iv data') ≡ data'
  pub same_length : (iv data' : List ℕ) → length (c.encrypt iv data') ≡ length data'

-- `CryptBlocks` panics on a part of a block.
unfoldable pub crypt_blocks : (List ℕ → List ℕ) → List ℕ → Outcome
crypt_blocks f data' = if eqb (length data' % 16) 0 then bytes (f data') else crash

abbrev pub unpadding_of : Outcome → Outcome
unpadding_of (bytes data') = pkcs7_unpadding data'
unpadding_of failure = failure
unpadding_of crash = crash

-- The deferred `recover`: a panic is an error.
abbrev pub recovered : Outcome → Outcome
recovered (bytes data') = bytes data'
recovered failure = failure
recovered crash = failure

-- `key[:blockSize]`
abbrev pub initial_vector : List ℕ → List ℕ
initial_vector key = take 16 key

module _ (new_cipher : List ℕ → Option Cipher) where
  unfoldable pub aes_encrypt : List ℕ → List ℕ → Outcome
  unfolding crypt_blocks pkcs7_padding
  aes_encrypt data' key = elim (new_cipher key) [
    | none ↦ failure
    | some c ↦ crypt_blocks (c.encrypt (initial_vector key)) (pkcs7_padding data' 16)
  ]

  unfoldable pub aes_decrypt : List ℕ → List ℕ → Outcome
  unfolding crypt_blocks pkcs7_unpadding
  aes_decrypt data' key = elim (new_cipher key) [
    | none ↦ failure
    | some c ↦ recovered (unpadding_of (crypt_blocks (c.decrypt (initial_vector key)) data'))
  ]
