-- ===== src/Tests/Base64.antt =====
-- Tests of the Base64 forms, on a codec that writes a number as so many x and a comma.
use Prim.Native.Nat.{zero, suc}
use messenger_service_go.Prelude.{
  ◌≡◌, refl, ℕ, ◌+◌, String, ◌==◌, arith, Option, none, some, List, [], ◌∷◌, if◌then◌else◌,
}
use messenger_service_go.Go.{ok}
use messenger_service_go.Crypto.Base64.{
  Codec, IsCodec, decrypted, aes_encrypt_base64, aes_decrypt_base64,
  aes_decrypt_base64-aes_encrypt_base64,
}
use messenger_service_go.Tests.Crypto.{three, plain, plain-IsCipher, new_plain}

unfoldable pub letters : ℕ → String → String
letters zero rest = String.◌∷◌ "," rest
letters (suc n) rest = String.◌∷◌ "x" (letters n rest)

unfoldable pub written : List ℕ → String
unfolding letters
written [] = ""
written (n ∷ xs) = letters n (written xs)

abbrev pub before : ℕ → Option (List ℕ) → Option (List ℕ)
before n none = none
before n (some xs) = some (n ∷ xs)

unfoldable pub read : String → ℕ → Option (List ℕ)
read String.[] seen = some []
read (String.◌∷◌ c rest) seen =
    let ended = read rest 0 in
    let longer = read rest (suc seen) in
    if String.◌∷◌ c String.[] == "," then before seen ended else longer

read-letters :
    (n seen : ℕ) (rest : String) → read (letters n rest) seen ≡ before (n + seen) (read rest 0)
unfolding read letters
read-letters zero seen rest = ground arith
read-letters (suc n) seen rest = ground (arith, read-letters n (suc seen) rest)

abbrev pub commas : Codec
commas = record {
  encode_to_string = written;
  decode_string = λ text. read text 0;
  bytes_of = λ text. 1 ∷ [];
}

read-written : (xs : List ℕ) → read (written xs) 0 ≡ some xs
unfolding written read
read-written [] = refl
read-written (n ∷ xs) = ground (arith, read-letters n 0 (written xs), read-written xs)

commas-IsCodec : IsCodec commas
commas-IsCodec = record { decoded = read-written }

aes_decrypt_base64-aes_encrypt_base64_example :
    (text : String) × (aes_encrypt_base64 new_plain commas three (1 ∷ []) ≡ ok text)
    × (aes_decrypt_base64 new_plain commas text (1 ∷ []) ≡ decrypted three)
aes_decrypt_base64-aes_encrypt_base64_example =
    aes_decrypt_base64-aes_encrypt_base64 new_plain commas three (1 ∷ []) plain commas-IsCodec refl
      plain-IsCipher
