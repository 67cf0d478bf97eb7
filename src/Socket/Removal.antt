-- ===== src/Socket/Removal.antt =====
-- The removal of the receivers that a message has reached, at the end of `redirectMessageToSockets`
-- (src/restful/services/messages.go). It shifts the array under `message.Target` while a `range`
-- reads it, so a slice is modelled as an array and the length of the part that it shows.
pub mod Loop
pub mod Laws
use messenger_service_go.Prelude.{
  ℕ, zero, suc, ◌+◌, ◌-◌, String, ◌==◌, Option, none, some, List, [], ◌∷◌, ◌++◌, length, get_elem?,
  take, drop, ltb, leb, if◌then◌else◌,
}

-- A `[]string` that begins at the start of its array; its capacity is the array's length.
pub record Slice : Type 0 where
  pub array : List String
  pub len : ℕ

abbrev pub view : Slice → List String
view s = take s.len s.array

abbrev pub slice_of : List String → Slice
slice_of xs = record { array = xs; len = length xs }

-- `append(s[:i], s[i+1:]...)`: out of bounds it panics (`none`); else the part behind `i` moves one
-- place down in the array, whose last places keep what they hold.
unfoldable pub remove_at : ℕ → Slice → Option Slice
remove_at i s =
    if leb (i + 1) s.len
    then some (record {
      array =
          take i s.array
          ++ (take (s.len - (i + 1)) (drop (i + 1) s.array) ++ drop (s.len - 1) s.array);
      len = s.len - 1;
    })
    else none

-- The body of the inner loop, at the index `i`; `target` is read from the array as it is now.
unfoldable pub remove_step : String → ℕ → Slice → Option Slice
unfolding remove_at
remove_step receiver i s = elim (get_elem? s.array i) [
  | none ↦ none
  | some target ↦ if target == receiver then remove_at i s else some s
]

-- The inner loop: `range` has fixed the number of rounds before the first.
unfoldable pub remove_loop : String → ℕ → ℕ → Slice → Option Slice
remove_loop receiver zero i s = some s
remove_loop receiver (suc rounds) i s = elim (remove_step receiver i s) [
  | none ↦ none
  | some s' ↦ remove_loop receiver rounds (suc i) s'
]

-- The outer loop over the receivers.
unfoldable pub remove_all : List String → Slice → Option Slice
remove_all [] s = some s
remove_all (receiver ∷ success) s = elim (remove_loop receiver s.len 0 s) [
  | none ↦ none
  | some s' ↦ remove_all success s'
]

unfoldable pub remove_success : List String → Slice → Option Slice
remove_success success s = if ltb 1 (length success) then remove_all success s else some s
