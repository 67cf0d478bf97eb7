-- ===== src/Configuration/Valid.antt =====
-- What the validation of a request to create or to update a class gives is a valid class.
use messenger_service_go.Prelude.{
  ◌≡◌, ◌⊎◌, inl, inr, String, ◌==◌, true, Bool-cases, Option, none, some, List, All, arith,
}
use messenger_service_go.Go.{Result, ok, ◌>>=◌}
use messenger_service_go.Go.Results.{chain-ok}
use messenger_service_go.Common.{contains}
use messenger_service_go.Models.{ActionModel, Configuration}
use messenger_service_go.Configuration.Validate.{
  message_types, message_modes, validate_states_containing_deleted, validate_message_type,
  validate_message_mode, validate_actions,
}
use messenger_service_go.Configuration.Actions.{ActionIsValid, validate_actions_iff}
use messenger_service_go.Configuration.Inherit.{
  Fields, fields_of, resolve_fields, text_or, slice_or,
}
use messenger_service_go.Configuration.Kept.{ClassIsValid}

pub text_or_ok :
    (check : String → Result (Unit {0})) (parents given : String) {t : String}
    → text_or check parents given ≡ ok t
    → (t ≡ parents) ⊎ (check t ≡ ok tt)
unfolding text_or
text_or_ok check parents given {t} e = elim (Bool-cases (given == "")) [
  | inl p ↦ inl (ground (arith, e, p))
  | inr p ↦
      let (u, checked, same) = chain-ok (check given) (λ _. ok given) (rw p at e) in
      inr (ground (arith, checked, same))
]

slice_or_ok {ℓ} :
    {A : Type ℓ} (check : List A → Result (Unit {0})) (parents : List A) (given : Option (List A))
    {t : List A}
    → slice_or check parents given ≡ ok t
    → (t ≡ parents) ⊎ (check t ≡ ok tt)
unfolding slice_or
slice_or_ok check parents none e = inl (ground (arith, e))
slice_or_ok check parents (some given) e =
    let (u, checked, same) = chain-ok (check given) (λ _. ok given) e in
    inr (ground (arith, checked, same))

pub states_pass :
    (xs : List String)
    → validate_states_containing_deleted xs ≡ ok tt
    → contains xs "deleted" ≡ true
unfolding validate_states_containing_deleted
states_pass xs e = ground (arith, e)

pub type_passes : (t : String) → validate_message_type t ≡ ok tt → contains message_types t ≡ true
unfolding validate_message_type
type_passes t e = ground (arith, e)

pub mode_passes : (t : String) → validate_message_mode t ≡ ok tt → contains message_modes t ≡ true
unfolding validate_message_mode
mode_passes t e = ground (arith, e)

-- The four fields of a class that the validators accept.
abbrev pub FieldsAreValid : Fields → Type 0
FieldsAreValid f =
    (contains f.states "deleted" ≡ true)
    × (contains message_types f.type ≡ true)
    × (contains message_modes f.mode ≡ true)
    × All (ActionIsValid f.actions) f.actions

pub ClassIsValid-FieldsAreValid :
    {c : Configuration} → ClassIsValid c → FieldsAreValid (fields_of c)
ClassIsValid-FieldsAreValid v = (v.states_hold_deleted, v.known_type, v.known_mode, v.valid_actions)

pub FieldsAreValid-ClassIsValid :
    {c : Configuration} → FieldsAreValid (fields_of c) → ClassIsValid c
FieldsAreValid-ClassIsValid (s, t, m, a) = record {
  states_hold_deleted = s;
  known_type = t;
  known_mode = m;
  valid_actions = a;
}

module _ (old : Fields) (given_states : Option (List String)) (given_type given_mode : String)
    (given_actions : Option (List ActionModel)) where
  resolve_fields_parts :
      {f : Fields}
      → resolve_fields old given_states given_type given_mode given_actions ≡ ok f
      → (slice_or validate_states_containing_deleted old.states given_states ≡ ok f.states)
        × (text_or validate_message_type old.type given_type ≡ ok f.type)
        × (text_or validate_message_mode old.mode given_mode ≡ ok f.mode)
        × (slice_or validate_actions old.actions given_actions ≡ ok f.actions)
  unfolding resolve_fields
  resolve_fields_parts {f} e =
      let (states, e1, f1) =
        chain-ok (slice_or validate_states_containing_deleted old.states given_states)
          (λ states. text_or validate_message_type old.type given_type >>= λ type.
            text_or validate_message_mode old.mode given_mode >>= λ mode.
            slice_or validate_actions old.actions given_actions >>= λ actions.
            ok (record { states = states; type = type; mode = mode; actions = actions }))
          e in
      let (type, e2, f2) =
        chain-ok (text_or validate_message_type old.type given_type)
          (λ type. text_or validate_message_mode old.mode given_mode >>= λ mode.
            slice_or validate_actions old.actions given_actions >>= λ actions.
            ok (record { states = states; type = type; mode = mode; actions = actions }))
          f1 in
      let (mode, e3, f3) =
        chain-ok (text_or validate_message_mode old.mode given_mode)
          (λ mode. slice_or validate_actions old.actions given_actions >>= λ actions.
            ok (record { states = states; type = type; mode = mode; actions = actions }))
          f2 in
      let (actions, e4, f4) =
        chain-ok (slice_or validate_actions old.actions given_actions)
          (λ actions. ok (record { states = states; type = type; mode = mode; actions = actions }))
          f3 in
      (
        ground (arith, e1, f4),
        ground (arith, e2, f4),
        ground (arith, e3, f4),
        ground (arith, e4, f4),
      )

  -- Fields that are resolved from valid ones are valid.
  pub resolve_fields-FieldsAreValid :
      {f : Fields}
      → FieldsAreValid old
      → resolve_fields old given_states given_type given_mode given_actions ≡ ok f
      → FieldsAreValid f
  resolve_fields-FieldsAreValid {f} (s, t, m, a) e =
      let (es, et, em, ea) = resolve_fields_parts {f = f} e in
      (
        elim (slice_or_ok validate_states_containing_deleted old.states given_states es) [
          | inl p ↦ ground (arith, p, s)
          | inr p ↦ states_pass f.states p
        ],
        elim (text_or_ok validate_message_type old.type given_type et) [
          | inl p ↦ ground (arith, p, t)
          | inr p ↦ type_passes f.type p
        ],
        elim (text_or_ok validate_message_mode old.mode given_mode em) [
          | inl p ↦ ground (arith, p, m)
          | inr p ↦ mode_passes f.mode p
        ],
        elim (slice_or_ok validate_actions old.actions given_actions ea) [
          | inl p ↦ rw p a
          | inr p ↦ (validate_actions_iff f.actions).0 p
        ],
      )
