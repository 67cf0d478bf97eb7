-- ===== src/Configuration/Creation.antt =====
-- The steps of a creation that succeeds: `CreateConfiguration` of src/restful/services/configuration.go.
use messenger_service_go.Prelude.{
  ◌≡◌, refl, ◌==◌, not, false, none, some, [], ◌∷◌, ◌++◌, arith, if◌then◌else◌, Bool-cases,
  Option-cases, inl, inr,
}
use messenger_service_go.Go.{ok, internal}
use messenger_service_go.Go.Results.{chain-ok}
use messenger_service_go.Go.Exec.{Exec, pure, lift, ◌>>=◌, bind-ok}
use messenger_service_go.Common.{create_error}
use messenger_service_go.Models.{ObjectId, Time, Configuration, CreateConfigurationRequest}
use messenger_service_go.Backend.{Backend, IsLawful, bson_configuration, first_class, has_class}
use messenger_service_go.World.{World, write_ok}
use messenger_service_go.Configuration.Settings.{Settings}
use messenger_service_go.Configuration.Customs.{customs_of}
use messenger_service_go.Configuration.Register.{
  child_customs, root_customs, register_listening_configuration,
}
use messenger_service_go.Configuration.Inherit.{
  fields_of, resolve_fields, inherited, given_customs, inherit, check_root, new_configuration,
  refuse_fields,
}
use messenger_service_go.Configuration.Create.{
  check_class_id_exists, get_configuration_parent_id, insert_one_configuration,
  create_configuration, validate_child, validate_root, validate_create_configuration,
  create_configuration_request,
}
use messenger_service_go.Configuration.Kept.{ClassIsValid, AllValid}
use messenger_service_go.Configuration.Validated.{inherit-ClassIsValid, check_root-ClassIsValid}
use messenger_service_go.Configuration.Frame.{if_listening-KeepsCatalog}
use messenger_service_go.Configuration.Effects.{
  classes, first_class-ClassIsValid, validate_create-KeepsCatalog,
}

inherit-class_id :
    (parent : Configuration) (request : CreateConfigurationRequest)
    {whole : CreateConfigurationRequest}
    → inherit parent request ≡ ok whole
    → whole.class_id ≡ request.class_id
unfolding inherit inherited
inherit-class_id parent request {whole} e =
    let (fields, e1, e2) =
      chain-ok
        (resolve_fields (fields_of parent) request.states request.type request.mode request.actions)
        (λ fields. ok (inherited parent request fields)) e in
    ground (arith, e2)

module _ (B : Backend) (L : IsLawful B) where
  -- An insertion that succeeds has put the class, under a new id, at the end.
  create_configuration_ok :
      (c : Configuration) (w : World B) {w' : World B}
      → create_configuration B c w ≡ (ok tt, w')
      → (classes B L w' ≡ classes B L w ++ (bson_configuration c ∷ []))
        × (has_class c.id (classes B L w) ≡ false)
  unfolding create_configuration insert_one_configuration
  create_configuration_ok c w {w'} e =
      let first = if c.mode == "listening" then register_listening_configuration B c else pure tt in
      let (_, v, e1, f1) = bind-ok first (λ _. insert_one_configuration B c) w e in
      let kept : B.catalog v.state ≡ B.catalog w.state =
        ground (arith, e1, (if_listening-KeepsCatalog B L c).0 w) in
      let (ins, same) =
        write_ok B (create_error internal 1001) (B.insert_configuration c) v {w' = w'} f1 in
      (
        ground (arith, kept, L.catalog-insert_configuration c ins),
        ground (arith, kept, L.has_class-insert_configuration c ins),
      )

  module _ (S : Settings) (id : ObjectId) (now : Time) (request : CreateConfigurationRequest) where
    validate_child_ok :
        (w : World B) {c : Configuration} {w' : World B}
        → validate_child B S id now request w ≡ (ok c, w')
        → (c.class_id ≡ request.class_id)
          × (c.id ≡ id)
          × (AllValid (classes B L w) → ClassIsValid c)
    unfolding validate_child get_configuration_parent_id new_configuration
    validate_child_ok w {c} e =
        let (parent, w1, e1, f1) =
          bind-ok (get_configuration_parent_id B request.parent_id)
            (λ parent. lift (inherit parent request) >>= λ whole.
              child_customs B S whole.mode (customs_of parent) (given_customs request)
              >>= λ customs. pure (new_configuration id now whole customs))
            w e in
        let (whole, w2, e2, f2) =
          bind-ok (lift (inherit parent request))
            (λ whole.
              child_customs B S whole.mode (customs_of parent) (given_customs request)
              >>= λ customs. pure (new_configuration id now whole customs))
            w1 f1 in
        let (customs, w3, e3, f3) =
          bind-ok (child_customs B S whole.mode (customs_of parent) (given_customs request))
            (λ customs. pure (new_configuration id now whole customs)) w2 f2 in
        let same : c ≡ new_configuration id now whole customs = ground (arith, f3) in
        let resolved : inherit parent request ≡ ok whole = ground (arith, e2) in
        let at_parent : B.find_configuration request.parent_id w.state ≡ some parent =
          elim (Option-cases (B.find_configuration request.parent_id w.state)) [
            | inl p ↦ absurd (ground (arith, e1, p))
            | inr (d, p) ↦ ground (arith, e1, p)
          ] in
        let listed : first_class request.parent_id (classes B L w) ≡ some parent =
          (L.find_configuration-catalog request.parent_id {c = parent} {s = w.state} at_parent).0 in
        let named : whole.class_id ≡ request.class_id =
          inherit-class_id parent request {whole = whole} resolved in
        rw same (
          named,
          refl,
          λ kept.
              inherit-ClassIsValid parent request id now customs
                (first_class-ClassIsValid request.parent_id (classes B L w) kept listed) resolved,
        )

    validate_root_ok :
        (w : World B) {c : Configuration} {w' : World B}
        → validate_root B S id now request w ≡ (ok c, w')
        → (c.class_id ≡ request.class_id) × (c.id ≡ id) × ClassIsValid c
    unfolding validate_root new_configuration
    validate_root_ok w {c} e =
        let (_, w1, e1, f1) =
          bind-ok (lift (check_root request))
            (λ _. root_customs B S request.mode (given_customs request) >>= λ customs.
              pure (new_configuration id now request customs))
            w e in
        let (customs, w2, e2, f2) =
          bind-ok (root_customs B S request.mode (given_customs request))
            (λ customs. pure (new_configuration id now request customs)) w1 f1 in
        let same : c ≡ new_configuration id now request customs = ground (arith, f2) in
        rw same (refl, refl, check_root-ClassIsValid request id now customs (ground (arith, e1)))

    validate_create_ok :
        (w : World B) {c : Configuration} {w' : World B}
        → validate_create_configuration B S id now request w ≡ (ok c, w')
        → (c.class_id ≡ request.class_id)
          × (B.find_configuration request.class_id w.state ≡ none)
          × (AllValid (classes B L w) → ClassIsValid c)
    unfolding validate_create_configuration check_class_id_exists
    validate_create_ok w {c} {w'} e =
        let rest : Exec (World B) Configuration =
          if not (request.parent_id == "0")
          then validate_child B S id now request
          else validate_root B S id now request in
        let (_, w1, e1, f1) = bind-ok (check_class_id_exists B request.class_id) (λ _. rest) w e in
        let fresh : B.find_configuration request.class_id w.state ≡ none =
          elim (Option-cases (B.find_configuration request.class_id w.state)) [
            | inl p ↦ p
            | inr (d, p) ↦ absurd (ground (arith, e1, p))
          ] in
        let here : w1 ≡ w = ground (arith, e1, fresh) in
        elim (Bool-cases (request.parent_id == "0")) [
          | inl p ↦
              let (a, b, v) = validate_root_ok w {c = c} {w' = w'} (ground (arith, f1, here, p)) in
              (a, fresh, λ kept. v)
          | inr p ↦
              let (a, b, v) = validate_child_ok w {c = c} {w' = w'} (ground (arith, f1, here, p)) in
              (a, fresh, v)
        ]

    create_split :
        (w : World B) {c : Configuration} {w' : World B}
        → create_configuration_request B S id now request w ≡ (ok c, w')
        → (v : World B) × (validate_create_configuration B S id now request w ≡ (ok c, v))
          × (create_configuration B c v ≡ (ok tt, w'))
    unfolding create_configuration_request
    create_split w {c} {w'} e =
        let (_, w1, e1, f1) =
          bind-ok (lift (refuse_fields (S.invalid_create request)))
            (λ _. validate_create_configuration B S id now request >>= λ class.
              create_configuration B class >>= λ _. pure class)
            w e in
        let (class, w2, e2, f2) =
          bind-ok (validate_create_configuration B S id now request)
            (λ class. create_configuration B class >>= λ _. pure class) w1 f1 in
        let (_, w3, e3, f3) = bind-ok (create_configuration B class) (λ _. pure class) w2 f2 in
        (w2, ground (arith, e1, e2, f3), ground (arith, e3, f3))

    pub create_written :
        (w : World B) {c : Configuration} {w' : World B}
        → create_configuration_request B S id now request w ≡ (ok c, w')
        → AllValid (classes B L w)
        → (c.class_id ≡ request.class_id)
          × (B.find_configuration request.class_id w.state ≡ none)
          × ClassIsValid c
          × (has_class c.id (classes B L w) ≡ false)
          × (classes B L w' ≡ classes B L w ++ (bson_configuration c ∷ []))
    create_written w {c} {w'} e valid_all =
        let (v, e1, e2) = create_split w {c = c} {w' = w'} e in
        let (named, fresh, valid) = validate_create_ok w {c = c} {w' = v} e1 in
        let same : B.catalog v.state ≡ B.catalog w.state =
          ground (arith, e1, validate_create-KeepsCatalog B L S id now request w) in
        let (added, new_id) = create_configuration_ok c v {w' = w'} e2 in
        (named, fresh, valid valid_all, ground (arith, new_id, same), ground (arith, added, same))
