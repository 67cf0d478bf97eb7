-- ===== src/Go/Exec.antt =====
-- Actions that change a state and end as in `Go`. What was written before an error or a panic
-- stays written, so the state comes back beside every result.
use mathlib.Core.Path.{◌≡◌, refl}
use native.Mathlib.Omega.{arith}
use messenger_service_go.Go.Defs.{Error, Result, ok, err, panic}

abbrev pub Exec {ℓ κ} : Type ℓ → Type κ → Type (ℓ ⊔ κ)
Exec S A = S → Result A × S

module _ {ℓ κ} {S : Type ℓ} {A : Type κ} where
  abbrev pub pure : A → Exec S A
  pure a s = (ok a, s)

  abbrev pub fail : Error → Exec S A
  fail e s = (err e, s)

  abbrev pub lift : Result A → Exec S A
  lift r s = (r, s)

module _ {ℓ κ μ} {S : Type ℓ} {A : Type κ} {B : Type μ} where
  abbrev pub after : Result A → (A → Exec S B) → Exec S B
  after panic rest s = (panic, s)
  after (err e) rest s = (err e, s)
  after (ok a) rest s = rest a s

  infixl 5 ◌>>=◌
  abbrev pub ◌>>=◌ : Exec S A → (A → Exec S B) → Exec S B
  ◌>>=◌ first rest s = let (end, now) = first s in after end rest now

  -- A sequence that succeeds has a first part that succeeds, and so does the rest after it.
  pub bind-ok :
      (a : Exec S A) (f : A → Exec S B) (s : S) {b : B} {s' : S}
      → (a >>= f) s ≡ (ok b, s')
      → (x : A) × (t : S) × (a s ≡ (ok x, t)) × (f x t ≡ (ok b, s'))
  bind-ok a f s {b} {s'} e = go (a s) refl
    where
      go :
          (r : Result A × S)
          → a s ≡ r
          → (x : A) × (t : S) × (a s ≡ (ok x, t)) × (f x t ≡ (ok b, s'))
      go (ok x, t) p = (x, t, p, ground (arith, e, p))
      go (err x, t) p = absurd (ground (arith, e, p))
      go (panic, t) p = absurd (ground (arith, e, p))

infixl 5 ◌>>◌
abbrev pub ◌>>◌ {ℓ κ} : {S : Type ℓ} {B : Type κ} → Exec S (Unit {0}) → Exec S B → Exec S B
first >> rest = first >>= λ _. rest
