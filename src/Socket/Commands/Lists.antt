-- ===== src/Socket/Commands/Lists.antt =====
-- The lists of a connection under the commands of its client.
use mathlib.Core.Path.{subst}
use messenger_service_go.Prelude.{
  ◌≡◌, refl, ap, sym, ◌∙◌, ◌<>◌, String, ◌==◌, ==-symm, true, false, Bool-cases, inl, inr, List, [],
  ◌∷◌, ◌++◌, arith,
}
use messenger_service_go.Common.{contains}
use messenger_service_go.Socket.Server.{Frame, Connection}
use messenger_service_go.Socket.Removal.Laws.{Distinct}
use messenger_service_go.Socket.Commands.{
  create_error_message, create_system_message, connection_modes, queue, queue_open, remove_first,
  black_listed, not_black_listed, white_listed, not_white_listed, change_filtering_mode,
}
use messenger_service_go.Socket.Commands.Silence.{contains-append}

-- No list has an item twice, and the mode is one of the two.
pub record IsWellFormed (c : Connection) : Type 0 where
  pub black_distinct : Distinct c.black_list
  pub white_distinct : Distinct c.white_list
  pub channels_distinct : Distinct c.channels
  pub mode_known : contains connection_modes c.mode ≡ true

pub append-Distinct :
    (xs : List String) (k : String)
    → Distinct xs
    → contains xs k ≡ false
    → Distinct (xs ++ (k ∷ []))
append-Distinct [] k d h = (unfold contains in refl, tt)
append-Distinct (x ∷ xs) k d h =
    let p : ((x == k) ≡ false) × (contains xs k ≡ false) = unfold contains in ground (arith, h) in
    let q : contains (k ∷ []) x ≡ (k == x) = unfold contains in ground arith in
    (
      ground (arith, contains-append xs (k ∷ []) x, d.0, p, q, ==-symm x k),
      append-Distinct xs k d.1 p.1,
    )

contains-remove_first :
    (xs : List String) (k y : String)
    → contains xs y ≡ false
    → contains (remove_first k xs) y ≡ false
unfolding remove_first contains
contains-remove_first [] k y h = refl
contains-remove_first (x ∷ xs) k y h = ground (arith, h, contains-remove_first xs k y)

pub remove_first-Distinct :
    (xs : List String) (k : String) → Distinct xs → Distinct (remove_first k xs)
unfolding remove_first
remove_first-Distinct [] k d = tt
remove_first-Distinct (x ∷ xs) k d = elim (Bool-cases (x == k)) [
  | inl e ↦ rw e d.1
  | inr e ↦ rw e (contains-remove_first xs k x d.0, remove_first-Distinct xs k d.1)
]

pub queue-IsWellFormed : (f : Frame) (c : Connection) → IsWellFormed c → IsWellFormed (queue f c)
unfolding queue
queue-IsWellFormed f c v = record {
  black_distinct = v.black_distinct;
  white_distinct = v.white_distinct;
  channels_distinct = v.channels_distinct;
  mode_known = v.mode_known;
}

queue_open-fields :
    (f : Frame) (c : Connection)
    → ((queue_open f c).black_list ≡ c.black_list)
      × ((queue_open f c).white_list ≡ c.white_list)
      × ((queue_open f c).channels ≡ c.channels)
      × ((queue_open f c).mode ≡ c.mode)
unfolding queue_open queue
queue_open-fields f c = (ground arith, ground arith, ground arith, ground arith)

pub queue_open-IsWellFormed :
    (f : Frame) (c : Connection) → IsWellFormed c → IsWellFormed (queue_open f c)
queue_open-IsWellFormed f c v =
    let (black, white, channels, mode) = queue_open-fields f c in
    record {
      black_distinct = subst Distinct (sym black) v.black_distinct;
      white_distinct = subst Distinct (sym white) v.white_distinct;
      channels_distinct = subst Distinct (sym channels) v.channels_distinct;
      mode_known = ap (contains connection_modes) mode ∙ v.mode_known;
    }

pub black_listed-IsWellFormed :
    (k : String) (c : Connection) → IsWellFormed c → IsWellFormed (black_listed k c)
unfolding black_listed
black_listed-IsWellFormed k c v = elim (Bool-cases (contains c.black_list k)) [
  | inl e ↦ rw e (queue_open-IsWellFormed _ c v)
  | inr e ↦ rw e (
      queue_open-IsWellFormed (create_system_message "success" "Configuration added to blacklist")
        (record c { black_list = c.black_list ++ (k ∷ []) })
        (record {
          black_distinct = append-Distinct c.black_list k v.black_distinct e;
          white_distinct = v.white_distinct;
          channels_distinct = v.channels_distinct;
          mode_known = v.mode_known;
        }))
]

pub not_black_listed-IsWellFormed :
    (k : String) (c : Connection) → IsWellFormed c → IsWellFormed (not_black_listed k c)
unfolding not_black_listed
not_black_listed-IsWellFormed k c v = elim (Bool-cases (contains c.black_list k)) [
  | inr e ↦ rw e (queue_open-IsWellFormed _ c v)
  | inl e ↦ rw e (
      queue-IsWellFormed _ _ (record {
        black_distinct = remove_first-Distinct c.black_list k v.black_distinct;
        white_distinct = v.white_distinct;
        channels_distinct = v.channels_distinct;
        mode_known = v.mode_known;
      }))
]

pub white_listed-IsWellFormed :
    (k : String) (c : Connection) → IsWellFormed c → IsWellFormed (white_listed k c)
unfolding white_listed
white_listed-IsWellFormed k c v = elim (Bool-cases (contains c.white_list k)) [
  | inl e ↦ rw e (queue_open-IsWellFormed _ c v)
  | inr e ↦ rw e (
      queue-IsWellFormed _ _ (record {
        black_distinct = v.black_distinct;
        white_distinct = append-Distinct c.white_list k v.white_distinct e;
        channels_distinct = v.channels_distinct;
        mode_known = v.mode_known;
      }))
]

pub not_white_listed-IsWellFormed :
    (k : String) (c : Connection) → IsWellFormed c → IsWellFormed (not_white_listed k c)
unfolding not_white_listed
not_white_listed-IsWellFormed k c v = elim (Bool-cases (contains c.white_list k)) [
  | inr e ↦ rw e (queue_open-IsWellFormed _ c v)
  | inl e ↦ rw e (
      queue-IsWellFormed _ _ (record {
        black_distinct = v.black_distinct;
        white_distinct = remove_first-Distinct c.white_list k v.white_distinct;
        channels_distinct = v.channels_distinct;
        mode_known = v.mode_known;
      }))
]

pub change_filtering_mode-IsWellFormed :
    (k : String) (c : Connection) → IsWellFormed c → IsWellFormed (change_filtering_mode k c)
unfolding change_filtering_mode
change_filtering_mode-IsWellFormed k c v = elim (Bool-cases (contains connection_modes k)) [
  | inr e ↦ rw e (queue_open-IsWellFormed (create_error_message "Invalid mode") c v)
  | inl e ↦ rw e (
      queue_open-IsWellFormed (create_system_message "success" ("Filtering mode changed to " <> k))
        (record c { mode = k })
        (record {
          black_distinct = v.black_distinct;
          white_distinct = v.white_distinct;
          channels_distinct = v.channels_distinct;
          mode_known = e;
        }))
]
