-- ===== src/Configuration/Safety.antt =====
-- What sending may rely on of the classes that requests have made.
use messenger_service_go.Prelude.{◌≡◌, refl, String, true, some, List, [], ◌∷◌, arith}
use messenger_service_go.Go.{ok}
use messenger_service_go.Common.{contains}
use messenger_service_go.Models.{Configuration, Message}
use messenger_service_go.Backend.{Backend, IsLawful}
use messenger_service_go.World.{World}
use messenger_service_go.Message.Status.{set_default_message_status}
use messenger_service_go.Message.Status.Default.{set_default_message_status_lem}
use messenger_service_go.Configuration.Settings.{Settings}
use messenger_service_go.Configuration.Validate.{message_modes, message_types}
use messenger_service_go.Configuration.Kept.{AllValid}
use messenger_service_go.Configuration.Effects.{classes, first_class-ClassIsValid}
use messenger_service_go.Configuration.Histories.{ClassRequest, handle, handle_all}
use messenger_service_go.Configuration.Validity.{handle-AllValid}

has_first :
    (states : List String) (s : String)
    → contains states s ≡ true
    → (first : String) × (rest : List String) × (states ≡ first ∷ rest)
unfolding contains
has_first [] s e = absurd (ground (arith, e))
has_first (first ∷ rest) s e = (first, rest, refl)

module _ (B : Backend) (L : IsLawful B) (S : Settings) where
  -- However many requests to create, update and delete classes are handled, and however each of them
  -- ends: if the stored classes were valid, so they are.
  pub handle_all-AllValid :
      (rs : List ClassRequest) (w : World B)
      → AllValid (classes B L w)
      → AllValid (classes B L (handle_all B S rs w))
  handle_all-AllValid [] w valid = valid
  handle_all-AllValid (r ∷ rs) w valid =
      handle_all-AllValid rs (handle B S r w) (handle-AllValid B L S r w valid)

  -- A class that is found after any requests, from classes that were valid, can be sent by: its mode
  -- and its type are known, "deleted" is one of its states, and the default status of any message is
  -- set without a panic.
  pub found_class_is_usable :
      (rs : List ClassRequest) (w : World B) (k : String) (c : Configuration)
      → AllValid (classes B L w)
      → B.find_configuration k (handle_all B S rs w).state ≡ some c
      → (contains message_modes c.mode ≡ true)
        × (contains message_types c.type ≡ true)
        × (contains c.states "deleted" ≡ true)
        × ((m : Message) → (m' : Message) × (set_default_message_status m c ≡ ok m'))
  found_class_is_usable rs w k c valid_all e =
      let after = handle_all B S rs w in
      let valid =
        first_class-ClassIsValid k (classes B L after) {c = c} (handle_all-AllValid rs w valid_all)
          (L.find_configuration-catalog k {c = c} {s = after.state} e).0 in
      let (first, rest, states) = has_first c.states "deleted" valid.states_hold_deleted in
      (
        valid.known_mode,
        valid.known_type,
        valid.states_hold_deleted,
        λ m.
            let (m', set, _, _, _) = set_default_message_status_lem m c first rest states in
            (m', set),
      )
