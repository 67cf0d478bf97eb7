-- ===== src/Tests/Crypto.antt =====
-- Tests of the padding and the encryption.
use messenger_service_go.Prelude.{
  ◌≡◌, refl, ℕ, ◌+◌, ◌≤◌, ◌<◌, arith, Option, some, List, [], ◌∷◌, length,
}
use messenger_service_go.Crypto.{bytes, pkcs7_padding, pkcs7_unpadding, Cipher, IsCipher}
use messenger_service_go.Crypto.Padding.{pkcs7_unpadding-pkcs7_padding}

abbrev pub three : List ℕ
three = 7 ∷ 8 ∷ 255 ∷ []

abbrev pub plain : Cipher
plain = record { encrypt = λ iv xs. xs; decrypt = λ iv xs. xs }

pub plain-IsCipher : IsCipher plain
plain-IsCipher = record { undone = λ iv xs h. refl; same_length = λ iv xs. refl }

abbrev pub new_plain : List ℕ → Option Cipher
new_plain key = some plain

pkcs7_unpadding-pkcs7_padding_example :
    (pkcs7_unpadding (pkcs7_padding three 4) ≡ bytes three)
    × (length three < length (pkcs7_padding three 4))
    × (length (pkcs7_padding three 4) ≤ length three + 4)
pkcs7_unpadding-pkcs7_padding_example =
    pkcs7_unpadding-pkcs7_padding three 4 (omega arith) (omega arith)
