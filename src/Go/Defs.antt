-- ===== src/Go/Defs.antt =====
-- How Go functions end: with a value, with an error that `CreateError` made, or by a panic. The
-- codes are those of google.golang.org/grpc/codes and of net/http that the service uses.
use Prim.Native.Nat.{ℕ}
use Prim.Native.String.{String}
use messenger_service_go.Prelude.Maps.{Map}

pub data Code : Type 0 where
  invalid_argument not_found already_exists permission_denied internal bad_request : Code

pub record Error : Type 0 where
  pub code : Code
  pub number : ℕ
  pub message : String
  pub args : Map String

pub data Result {ℓ} (A : Type ℓ) : Type ℓ where
  panic : Result A
  err : Error → Result A
  ok : A → Result A

infixl 5 ◌>>=◌ ◌>>◌
abbrev pub ◌>>=◌ {ℓ κ} : {A : Type ℓ} {B : Type κ} → Result A → (A → Result B) → Result B
panic >>= rest = panic
err e >>= rest = err e
ok a >>= rest = rest a

abbrev pub ◌>>◌ {ℓ} : {B : Type ℓ} → Result (Unit {0}) → Result B → Result B
first >> rest = first >>= λ _. rest
