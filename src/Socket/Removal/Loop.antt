-- ===== src/Socket/Removal/Loop.antt =====
-- The rounds of the removal for one receiver: the inner loop over the targets.
use messenger_service_go.Prelude.{
  ℕ, zero, suc, ◌+◌, ◌-◌, ◌≤◌, String, ◌==◌, eq_iff, ◌≡◌, refl, true, false, ◌||◌, Option, none,
  some, List, [], ◌∷◌, ◌++◌, length, get_elem?, take, drop, leb, arith, if◌then◌else◌,
  length-append, take-append, inl, inr, Bool-cases, Option-cases,
}
use mathlib.Core.Path.{subst}
use mathlib.Core.List.{append_assoc}
use messenger_service_go.Common.{contains}
use messenger_service_go.Socket.Removal.{Slice, remove_at, remove_step, remove_loop}

-- What is left of a list without the items of another.
unfoldable pub without : List String → List String → List String
without removed [] = []
without removed (x ∷ xs) =
    let rest = without removed xs in if contains removed x then rest else x ∷ rest

abbrev pub Distinct : List String → Type 0
Distinct [] = Unit
Distinct (x ∷ xs) = (contains xs x ≡ false) × Distinct xs

-- A slice with one more item in front.
abbrev push : String → Slice → Slice
push p s = record { array = p ∷ s.array; len = suc s.len }

abbrev push? : String → Option Slice → Option Slice
push? p none = none
push? p (some s) = some (push p s)

cut : ℕ → ℕ → List String → List String
cut i n a = take i a ++ (take (n - (i + 1)) (drop (i + 1) a) ++ drop (n - 1) a)

cut-suc :
    (i n : ℕ) (p : String) (a : List String)
    → i + 1 ≤ n
    → cut (suc i) (suc n) (p ∷ a) ≡ p ∷ cut i n a
unfolding cut
cut-suc i n p a h =
    let e₁ : suc i + 1 ≡ suc (i + 1) = omega arith in
    let e₂ : suc n - suc (i + 1) ≡ n - (i + 1) = omega arith in
    let e₃ : suc n - 1 ≡ suc (n - 1) = omega arith in rw e₁ (rw e₂ (rw e₃))

remove_at-push :
    (p : String) (i : ℕ) (s : Slice) → remove_at (suc i) (push p s) ≡ push? p (remove_at i s)
unfolding remove_at cut
remove_at-push p i s = elim (Bool-cases (leb (i + 1) s.len)) [
  | inl h ↦
      let h' : leb (suc i + 1) (suc s.len) ≡ true = ground arith in
      rw (h', h) (ground (arith, cut-suc i s.len p s.array))
  | inr h ↦ let h' : leb (suc i + 1) (suc s.len) ≡ false = ground arith in rw (h', h)
]

remove_step-push :
    (r p : String) (i : ℕ) (s : Slice)
    → remove_step r (suc i) (push p s) ≡ push? p (remove_step r i s)
unfolding remove_step
remove_step-push r p i s = ground (arith, remove_at-push p i s)

pub remove_loop-push :
    (r p : String) (k i : ℕ) (s : Slice)
    → remove_loop r k (suc i) (push p s) ≡ push? p (remove_loop r k i s)
unfolding remove_loop
remove_loop-push r p zero i s = refl
remove_loop-push r p (suc k) i s = elim (Option-cases (remove_step r i s)) [
  | inl e ↦ ground (arith, remove_step-push r p i s, e)
  | inr (s', e) ↦ ground (arith, remove_step-push r p i s, e, remove_loop-push r p k (suc i) s')
]

-- The items that the loop reads in its rounds, if it changes nothing, are not the receiver.
abbrev ReadsFree : String → ℕ → ℕ → List String → Type 0
ReadsFree r zero i a = Unit
ReadsFree r (suc k) i a =
    (x : String) × (get_elem? a i ≡ some x) × ((x == r) ≡ false) × ReadsFree r k (suc i) a

remove_loop_free :
    (r : String) (k i : ℕ) (s : Slice) → ReadsFree r k i s.array → remove_loop r k i s ≡ some s
unfolding remove_loop remove_step
remove_loop_free r zero i s h = refl
remove_loop_free r (suc k) i s (x, g, ne, h) =
    ground (arith, g, ne, remove_loop_free r k (suc i) s h)

ReadsFree-shift :
    (r p : String) (k i : ℕ) (a : List String) → ReadsFree r k i a → ReadsFree r k (suc i) (p ∷ a)
ReadsFree-shift r p zero i a h = tt
ReadsFree-shift r p (suc k) i a (x, g, ne, h) = (x, g, ne, ReadsFree-shift r p k (suc i) a h)

ReadsFree-contains :
    (r : String) (xs ys : List String)
    → contains xs r ≡ false
    → ReadsFree r (length xs) 0 (xs ++ ys)
unfolding contains
ReadsFree-contains r [] ys h = tt
ReadsFree-contains r (x ∷ xs) ys h = (
  x,
  refl,
  ground arith,
  ReadsFree-shift r x (length xs) 0 (xs ++ ys) (ReadsFree-contains r xs ys (ground arith)),
)

abbrev last : String → List String → String
last x [] = x
last x (y ∷ ys) = last y ys

drop-last : (x : String) (xs j : List String) → drop (length xs) (x ∷ (xs ++ j)) ≡ last x xs ∷ j
drop-last x [] j = refl
drop-last x (y ∷ ys) j = drop-last y ys j

without-free : (r : String) (xs : List String) → contains xs r ≡ false → without (r ∷ []) xs ≡ xs
unfolding without contains
without-free r [] h = refl
without-free r (x ∷ xs) h = ground (arith, without-free r xs (ground arith), eq_iff r x, eq_iff x r)

contains-last :
    (r x : String) (xs : List String)
    → (x == r) ≡ false
    → contains xs r ≡ false
    → (last x xs == r) ≡ false
unfolding contains
contains-last r x [] n h = n
contains-last r x (y ∷ ys) n h = contains-last r y ys (ground arith) (ground arith)

contains-append_one :
    (r z : String) (xs : List String) → contains (xs ++ (z ∷ [])) r ≡ (contains xs r || z == r)
unfolding contains
contains-append_one r z [] = ground arith
contains-append_one r z (x ∷ xs) = ground (arith, contains-append_one r z xs)

ReadsFree-tail :
    (r z : String) (rest j : List String)
    → contains rest r ≡ false
    → ReadsFree r (length rest) 1 (rest ++ (last z rest ∷ j))
unfolding contains
ReadsFree-tail r z [] j h = tt
ReadsFree-tail r z (p ∷ ps) j h =
    ReadsFree-shift r p (suc (length ps)) 0 (ps ++ (l ∷ j))
      (rw len at (rw app at (ReadsFree-contains r (ps ++ (l ∷ [])) j free)))
  where
    l : String
    l = last p ps

    len : length (ps ++ (l ∷ [])) ≡ suc (length ps)
    len = omega (arith, length-append ps (l ∷ []))

    app : (ps ++ (l ∷ [])) ++ j ≡ ps ++ (l ∷ j)
    app = append_assoc ps (l ∷ []) j

    free : contains (ps ++ (l ∷ [])) r ≡ false
    free = rw contains-append_one (ground (arith, contains-last r p ps))

remove_at_head :
    (r : String) (rest j : List String)
    → remove_at 0 (record { array = r ∷ (rest ++ j); len = suc (length rest) })
      ≡ some (record { array = rest ++ (last r rest ∷ j); len = length rest })
unfolding remove_at
remove_at_head r rest j =
    let e₁ : suc (length rest) - 1 ≡ length rest = omega arith in
    let e₂ : leb 1 (suc (length rest)) ≡ true = ground arith in
    rw e₂ (rw e₁ (rw (take-append rest j) (rw (drop-last r rest j))))

remove_loop_hit :
    (r x : String) (xs j : List String)
    → (x == r) ≡ true
    → contains xs r ≡ false
    → remove_loop r (suc (length xs)) 0 (record { array = x ∷ (xs ++ j); len = suc (length xs) })
      ≡ some (record { array = xs ++ (last x xs ∷ j); len = length xs })
unfolding remove_loop remove_step
remove_loop_hit r x xs j e h = ground (
  arith,
  e,
  remove_at_head x xs j,
  remove_loop_free r (length xs) 1 (record { array = xs ++ (last x xs ∷ j); len = length xs })
      (ReadsFree-tail r x xs j h),
)

remove_loop_miss :
    (r x : String) (xs j : List String)
    → (x == r) ≡ false
    → remove_loop r (suc (length xs)) 0 (record { array = x ∷ (xs ++ j); len = suc (length xs) })
      ≡ push? x (remove_loop r (length xs) 0 (record { array = xs ++ j; len = length xs }))
unfolding remove_loop remove_step
remove_loop_miss r x xs j e =
    ground
      (arith, e, remove_loop-push r x (length xs) 0 (record { array = xs ++ j; len = length xs }))

-- The inner loop over the targets that it shows: of distinct ones it removes the receiver, and it
-- leaves some array behind what it shows.
pub remove_loop_lem :
    (r : String) (xs j : List String)
    → Distinct xs
    → (j' : List String) × (remove_loop r
          (length xs)
          0
          (record { array = xs ++ j; len = length xs })
        ≡ some (record { array = without (r ∷ []) xs ++ j'; len = length (without (r ∷ []) xs) }))
unfolding without contains
remove_loop_lem r [] j d = (j, unfold remove_loop in refl)
remove_loop_lem r (x ∷ xs) j d = elim (Bool-cases (x == r)) [
  | inl e ↦
      let free : contains xs r ≡ false =
        subst (λ (y : String). contains xs y ≡ false) ((eq_iff x r).0 e) d.0 in
      (
        last x xs ∷ j,
        ground (
          arith,
          remove_loop_hit r x xs j e free,
          without-free r xs free,
          eq_iff r x,
          eq_iff x r,
        ),
      )
  | inr n ↦
      let (j', ih) = remove_loop_lem r xs j d.1 in
      (j', ground (arith, remove_loop_miss r x xs j n, ih, eq_iff r x, eq_iff x r))
]
