-- ===== src/Go/Results.antt =====
-- The parts of a sequence of results that succeeds.
use mathlib.Core.Path.{◌≡◌, refl}
use native.Mathlib.Omega.{arith}
use messenger_service_go.Go.Defs.{Result, ok, err, panic, ◌>>=◌}

pub chain-ok {ℓ κ} :
    {A : Type ℓ} {C : Type κ} (a : Result A) (f : A → Result C) {c : C}
    → (a >>= f) ≡ ok c
    → (x : A) × (a ≡ ok x) × (f x ≡ ok c)
chain-ok (ok x) f e = (x, refl, e)
chain-ok (err r) f e = absurd (ground (arith, e))
chain-ok panic f e = absurd (ground (arith, e))
