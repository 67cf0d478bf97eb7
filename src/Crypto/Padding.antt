-- ===== src/Crypto/Padding.antt =====
-- What is padded is unpadded again.
use native.Mathlib.Nat.{mod-lt}
use messenger_service_go.Prelude.{
  ◌≡◌, refl, ap, ◌∙◌, ℕ, zero, suc, ◌+◌, ◌-◌, ◌%◌, ◌^◌, ◌≤◌, ◌<◌, arith, some, List, [], ◌∷◌, ◌++◌,
  length, get_elem?, take, replicate, length-append, take-append, length-replicate,
}
use messenger_service_go.Crypto.{bytes, pkcs7_padding, pkcs7_unpadding, cut}

get_elem?-suc : (y : ℕ) (ys : List ℕ) (i j : ℕ) → i ≡ suc j → get_elem? (y ∷ ys) i ≡ get_elem? ys j
get_elem?-suc y ys i j e = ap (get_elem? (y ∷ ys)) e

last-replicate :
    (xs : List ℕ) (n x i : ℕ) → i ≡ length xs + n → get_elem? (xs ++ replicate (suc n) x) i ≡ some x
last-replicate [] zero x i e = ap (get_elem? (x ∷ [])) {y = 0} (omega arith)
last-replicate [] (suc n) x i e =
    get_elem?-suc x (replicate (suc n) x) i n (omega arith) ∙ last-replicate [] n x n (omega arith)
last-replicate (y ∷ xs) n x i e =
    get_elem?-suc y (xs ++ replicate (suc n) x) i (length xs + n) (omega arith)
    ∙ last-replicate xs n x (length xs + n) refl

cut-append : (xs ys : List ℕ) (n : ℕ) → length ys ≡ n → cut (xs ++ ys) n ≡ bytes xs
unfolding cut
cut-append xs ys n h =
    let len = length-append xs ys in
    let shown : take (length (xs ++ ys) - n) (xs ++ ys) ≡ xs =
      ap (λ (k : ℕ). take k (xs ++ ys)) {y = length xs} (omega (arith, len, h))
      ∙ take-append xs ys in
    ground (arith, len, h, shown)

unpadded :
    (xs : List ℕ) (n : ℕ)
    → suc n < 256
    → pkcs7_unpadding (xs ++ replicate (suc n) (suc n)) ≡ bytes xs
unfolding pkcs7_unpadding
unpadded xs n h =
    let len = length-append xs (replicate (suc n) (suc n)) in
    let last =
      last-replicate xs n (suc n) (length (xs ++ replicate (suc n) (suc n)) - 1)
        (omega (arith, len, length-replicate (suc n) (suc n))) in
    ground (
      arith,
      last,
      cut-append xs (replicate (suc n) (suc n)) (suc n) (length-replicate (suc n) (suc n)),
    )

unpadded_of :
    (xs : List ℕ) (p : ℕ)
    → 0 < p
    → p < 256
    → pkcs7_unpadding (xs ++ replicate p (p % 2 ^ 8)) ≡ bytes xs
unpadded_of xs zero h k = absurd (omega arith)
unpadded_of xs (suc n) h k =
    ap (λ (x : ℕ). pkcs7_unpadding (xs ++ replicate (suc n) x)) {y = suc n} (omega arith)
    ∙ unpadded xs n k

-- For a block size from 1 to 255, bytes that were padded are unpadded to what they were, and the
-- padding adds at least one byte and at most a block.
pub pkcs7_unpadding-pkcs7_padding :
    (xs : List ℕ) (block_size : ℕ)
    → 0 < block_size
    → block_size < 256
    → (pkcs7_unpadding (pkcs7_padding xs block_size) ≡ bytes xs)
      × (length xs < length (pkcs7_padding xs block_size))
      × (length (pkcs7_padding xs block_size) ≤ length xs + block_size)
unfolding pkcs7_padding
pkcs7_unpadding-pkcs7_padding xs bs h k =
    let rest = mod-lt (length xs) h in
    let p = bs - length xs % bs in
    let len = length-append xs (replicate p (p % 2 ^ 8)) in
    let rep = length-replicate p (p % 2 ^ 8) in
    (
      unpadded_of xs p (omega (arith, rest)) (omega (arith, k)),
      omega (arith, rest, len, rep),
      omega (arith, rest, len, rep),
    )

-- Padding to the block size 16 of AES gives whole blocks.
pub pkcs7_padding-length : (xs : List ℕ) → length (pkcs7_padding xs 16) % 16 ≡ 0
unfolding pkcs7_padding
pkcs7_padding-length xs =
    let p = 16 - length xs % 16 in
    omega (arith, length-append xs (replicate p (p % 2 ^ 8)), length-replicate p (p % 2 ^ 8))
