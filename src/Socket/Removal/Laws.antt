-- ===== src/Socket/Removal/Laws.antt =====
-- When the removal works: on targets that are pairwise distinct it leaves those that were not
-- reached; on a last target that stands twice it panics.
use messenger_service_go.Prelude.{
  String, eq_refl, ◌≡◌, ◌≢◌, refl, ap, false, none, some, List, [], ◌∷◌, ◌++◌, length, ltb, arith,
  if◌then◌else◌, take-append, take-length, inl, inr, Bool-cases,
}
use mathlib.Core.List.{append-nil}
use messenger_service_go.Common.{contains}
use messenger_service_go.Socket.Removal.{
  Slice, view, slice_of, remove_at, remove_step, remove_loop, remove_all, remove_success,
}
unfoldable pub use messenger_service_go.Socket.Removal.Loop.{without}
pub use messenger_service_go.Socket.Removal.Loop.{Distinct}
use messenger_service_go.Socket.Removal.Loop.{remove_loop-push, remove_loop_lem}

without-without :
    (r : String) (rs xs : List String) → without rs (without (r ∷ []) xs) ≡ without (r ∷ rs) xs
unfolding without contains
without-without r rs [] = refl
without-without r rs (x ∷ xs) = ground (arith, without-without r rs xs)

contains-without :
    (removed xs : List String) (y : String)
    → contains xs y ≡ false
    → contains (without removed xs) y ≡ false
unfolding without contains
contains-without removed [] y h = refl
contains-without removed (x ∷ xs) y h = ground (arith, contains-without removed xs y (ground arith))

without-Distinct : (removed xs : List String) → Distinct xs → Distinct (without removed xs)
unfolding without
without-Distinct removed [] d = tt
without-Distinct removed (x ∷ xs) d = elim (Bool-cases (contains removed x)) [
  | inl e ↦ rw e (without-Distinct removed xs d.1)
  | inr e ↦ rw e (contains-without removed xs x d.0, without-Distinct removed xs d.1)
]

without-nil : (xs : List String) → without [] xs ≡ xs
unfolding without contains
without-nil [] = refl
without-nil (x ∷ xs) = ap (λ (l : List String). x ∷ l) (without-nil xs)

remove_all_lem :
    (rs xs j : List String)
    → Distinct xs
    → (j' : List String) × (remove_all rs (record { array = xs ++ j; len = length xs })
        ≡ some (record { array = without rs xs ++ j'; len = length (without rs xs) }))
unfolding remove_all
remove_all_lem [] xs j d = (j, rw without-nil)
remove_all_lem (r ∷ rs) xs j d =
    let (j₁, e₁) = remove_loop_lem r xs j d in
    let (j₂, e₂) = remove_all_lem rs (without (r ∷ []) xs) j₁ (without-Distinct (r ∷ []) xs d) in
    (j₂, rw (← without-without r rs xs) (ground (arith, e₁, e₂)))

-- From targets that are pairwise distinct the removal never panics, and what it leaves to see is
-- the targets that were not reached, in their order, if two or more were reached. If one was
-- reached, it stays among the targets.
pub remove_success_lem :
    (success target : List String)
    → Distinct target
    → (s : Slice) × (remove_success success (slice_of target) ≡ some s)
      × (view s ≡ (if ltb 1 (length success) then without success target else target))
unfolding remove_success
remove_success_lem success target d = elim (Bool-cases (ltb 1 (length success))) [
  | inl e ↦
      let (j, r) = remove_all_lem success target [] d in
      (
        record { array = without success target ++ j; len = length (without success target) },
        rw e (rw append-nil at r),
        rw e (take-append (without success target) j),
      )
  | inr e ↦ (slice_of target, rw e, rw e (take-length target))
]

remove_loop_twice :
    (r : String) (pre : List String)
    → contains pre r ≡ false
    → (let t = pre ++ (r ∷ r ∷ []) in remove_loop r (length t) 0 (slice_of t) ≡ none)
unfolding contains remove_loop remove_step remove_at
remove_loop_twice r [] h = ground (arith, eq_refl r)
remove_loop_twice r (p ∷ pre) h = ground (
  arith,
  remove_loop_twice r pre (ground arith),
  remove_loop-push r p (length (pre ++ (r ∷ r ∷ []))) 0 (slice_of (pre ++ (r ∷ r ∷ []))),
)

-- A user that stands twice at the end of the targets, and not before, and is reached makes the
-- removal panic, whatever other receivers come after.
pub remove_success_twice :
    (r : String) (pre success : List String)
    → contains pre r ≡ false
    → success ≢ []
    → remove_success (r ∷ success) (slice_of (pre ++ (r ∷ r ∷ []))) ≡ none
unfolding remove_success remove_all
remove_success_twice r pre [] h n = absurd (n refl)
remove_success_twice r pre (u ∷ success) h n = ground (arith, remove_loop_twice r pre h)
