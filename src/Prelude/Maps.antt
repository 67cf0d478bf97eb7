-- ===== src/Prelude/Maps.antt =====
-- Go maps with text keys, as association lists in the order of insertion.
use mathlib.Core.Path.{◌≡◌, ap}
use mathlib.Core.List.{List, [], ◌∷◌}
use mathlib.Core.Option.{Option, none, some}
use native.Mathlib.Omega.{arith}
use Prim.Native.String.{String}
use text.Mathlib.Text.{◌==◌}
use text.Mathlib.TextEquality.{eq_iff}
use mathlib.Core.Bool.{true, false}
use messenger_service_go.Prelude.Tests.{if◌then◌else◌}

abbrev pub Map {ℓ} : Type ℓ → Type ℓ
Map V = List (String × V)

-- Equal keys compare alike.
same_key :
    (key other found : String)
    → ((key == other) ≡ true → (found == key) ≡ (found == other))
      × ((found == key) ≡ true → (found == other) ≡ (key == other))
same_key key other found = (
  λ e. ap (λ (u : String). found == u) ((eq_iff key other).0 e),
  λ e. ap (λ (u : String). u == other) ((eq_iff found key).0 e),
)

module _ {ℓ} {V : Type ℓ} where
  unfoldable pub lookup : String → Map V → Option V
  lookup key [] = none
  lookup key ((found, x) ∷ entries) =
      let later = lookup key entries in elim (found == key) [ true ↦ some x | false ↦ later ]

  -- `m[k] = v`
  unfoldable pub insert : String → V → Map V → Map V
  insert key x [] = (key, x) ∷ []
  insert key x ((found, y) ∷ entries) =
      let later = insert key x entries in
      elim (found == key) [ true ↦ (key, x) ∷ entries | false ↦ (found, y) ∷ later ]

  -- `delete(m, k)`
  unfoldable pub erase : String → Map V → Map V
  erase key [] = []
  erase key ((found, y) ∷ entries) =
      let later = erase key entries in
      elim (found == key) [ true ↦ later | false ↦ (found, y) ∷ later ]

  pub lookup-insert :
      (key other : String) (x : V) (entries : Map V)
      → lookup other (insert key x entries)
        ≡ (if key == other then some x else lookup other entries)
  unfolding insert lookup
  lookup-insert key other x [] = ground arith
  lookup-insert key other x ((found, y) ∷ entries) =
      ground (arith, same_key key other found, lookup-insert key other x entries)

  pub lookup-erase :
      (key other : String) (entries : Map V)
      → lookup other (erase key entries) ≡ (if key == other then none else lookup other entries)
  unfolding erase lookup
  lookup-erase key other [] = ground arith
  lookup-erase key other ((found, y) ∷ entries) =
      ground (arith, same_key key other found, lookup-erase key other entries)
