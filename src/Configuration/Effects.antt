-- ===== src/Configuration/Effects.antt =====
-- What the operations on classes leave in the collections, however they end.
use messenger_service_go.Prelude.{
  ◌≡◌, refl, inl, inr, String, ◌==◌, not, true, false, Bool, Option, none, some, List, [], ◌∷◌,
  arith, if◌then◌else◌, Bool-cases, Option-cases,
}
use messenger_service_go.Go.{Error, Result, ok, err, panic, internal}
use messenger_service_go.Go.Exec.{Exec, pure, lift, ◌>>=◌}
use messenger_service_go.Common.{create_error}
use messenger_service_go.Models.{ObjectId, Time, Configuration, CreateConfigurationRequest}
use messenger_service_go.Backend.{Backend, IsLawful, first_class}
use messenger_service_go.World.{World, write}
use messenger_service_go.Configuration.Settings.{Settings}
use messenger_service_go.Configuration.Customs.{customs_of}
use messenger_service_go.Configuration.Register.{
  child_customs, root_customs, register_listening_configuration,
}
use messenger_service_go.Configuration.Inherit.{
  given_customs, inherit, check_root, new_configuration, refuse_fields,
}
use messenger_service_go.Configuration.Create.{
  check_class_id_exists, get_configuration_parent_id, insert_one_configuration,
  create_configuration, validate_child, validate_root, validate_create_configuration,
  create_configuration_request,
}
use messenger_service_go.Configuration.Kept.{ClassIsValid, AllValid}
use messenger_service_go.Configuration.Frame.{
  KeepsCatalog, bind-KeepsCatalog, if_listening-KeepsCatalog, child_customs-KeepsCatalog,
  root_customs-KeepsCatalog,
}

-- A class that is found among valid ones is valid.
pub first_class-ClassIsValid :
    (k : String) (cs : List Configuration) {c : Configuration}
    → AllValid cs
    → first_class k cs ≡ some c
    → ClassIsValid c
unfolding first_class
first_class-ClassIsValid k [] kept e = absurd (ground (arith, e))
first_class-ClassIsValid k (d ∷ cs) {c} (v, kept) e = elim (Bool-cases (d.class_id == k)) [
  | inl p ↦ let same : c ≡ d = ground (arith, e, p) in rw same v
  | inr p ↦ first_class-ClassIsValid k cs {c = c} kept (ground (arith, e, p))
]

module _ (B : Backend) (L : IsLawful B) where
  abbrev pub classes : World B → List Configuration
  classes w = (B.catalog w.state).configurations

  -- The reading of a class id does not fail: what it finds is the first class of that id.
  abbrev pub Answers : String → World B → Type 0
  Answers k w = B.find_configuration k w.state ≡ first_class k (classes w)

  -- A class id under which no class is stored finds none.
  pub unlisted_none :
      (k : String) (w : World B)
      → first_class k (classes w) ≡ none
      → B.find_configuration k w.state ≡ none
  unlisted_none k w e = elim (Option-cases (B.find_configuration k w.state)) [
    | inl p ↦ p
    | inr (d, p) ↦
        absurd (ground (arith, e, (L.find_configuration-catalog k {c = d} {s = w.state} p).0))
  ]

  abbrev pub fails {ℓ} : {A : Type ℓ} → Result A → Bool
  fails (ok x) = false
  fails (err e) = true
  fails panic = true

  -- An action that fails leaves the collections as they were.
  abbrev pub FailureKeeps {ℓ} : {A : Type ℓ} → Exec (World B) A → Type 0
  FailureKeeps a =
      (w : World B) → fails (a w).0 ≡ true → B.catalog ((a w).1).state ≡ B.catalog w.state

  pub bind-FailureKeeps {ℓ κ} :
      {A : Type ℓ} {C : Type κ} (a : Exec (World B) A) (f : A → Exec (World B) C)
      → KeepsCatalog B L a
      → ((x : A) → FailureKeeps (f x))
      → FailureKeeps (a >>= f)
  bind-FailureKeeps {A = A} a f ka kf w = go (a w) refl
    where
      go :
          (p : Result A × World B)
          → a w ≡ p
          → fails ((a >>= f) w).0 ≡ true
          → B.catalog (((a >>= f) w).1).state ≡ B.catalog w.state
      go (ok x, v) e n = ground (arith, e, ka w, kf x v, n)
      go (err r, v) e n = ground (arith, e, ka w)
      go (panic, v) e n = ground (arith, e, ka w)

  pub pure-FailureKeeps {ℓ κ} :
      {A : Type ℓ} {C : Type κ} (a : Exec (World B) A) (g : A → C)
      → FailureKeeps a
      → FailureKeeps (a >>= λ x. pure (g x))
  pure-FailureKeeps {A = A} a g ka w = go (a w) refl
    where
      go :
          (p : Result A × World B)
          → a w ≡ p
          → fails ((a >>= λ x. pure (g x)) w).0 ≡ true
          → B.catalog (((a >>= λ x. pure (g x)) w).1).state ≡ B.catalog w.state
      go (ok x, v) e n = absurd (ground (arith, e, n))
      go (err r, v) e n = ground (arith, e, ka w)
      go (panic, v) e n = ground (arith, e, ka w)

  pub write-FailureKeeps : (e : Error) (f : B.State → Option B.State) → FailureKeeps (write B e f)
  write-FailureKeeps e f w n = elim (Option-cases (f w.state)) [
    | inl p ↦ ground (arith, p)
    | inr (s, p) ↦ absurd (ground (arith, p, n))
  ]

  get_parent-KeepsCatalog : (k : String) → KeepsCatalog B L (get_configuration_parent_id B k)
  unfolding get_configuration_parent_id
  get_parent-KeepsCatalog k w = ground arith

  check_class_id-KeepsCatalog : (k : String) → KeepsCatalog B L (check_class_id_exists B k)
  unfolding check_class_id_exists
  check_class_id-KeepsCatalog k w = ground arith

  pub create_configuration-FailureKeeps :
      (c : Configuration) → FailureKeeps (create_configuration B c)
  unfolding create_configuration insert_one_configuration
  create_configuration-FailureKeeps c =
      bind-FailureKeeps
        (if c.mode == "listening" then register_listening_configuration B c else pure tt)
        (λ _. insert_one_configuration B c) (if_listening-KeepsCatalog B L c).0
        (λ _. write-FailureKeeps (create_error internal 1001) (B.insert_configuration c))

  module _ (S : Settings) (id : ObjectId) (now : Time) (request : CreateConfigurationRequest) where
    validate_child-KeepsCatalog : KeepsCatalog B L (validate_child B S id now request)
    unfolding validate_child
    validate_child-KeepsCatalog =
        bind-KeepsCatalog B L (get_configuration_parent_id B request.parent_id)
          (λ parent. lift (inherit parent request) >>= λ whole.
            child_customs B S whole.mode (customs_of parent) (given_customs request) >>= λ customs.
            pure (new_configuration id now whole customs))
          (get_parent-KeepsCatalog request.parent_id)
          (λ parent.
            bind-KeepsCatalog B L (lift (inherit parent request))
              (λ whole.
                child_customs B S whole.mode (customs_of parent) (given_customs request)
                >>= λ customs. pure (new_configuration id now whole customs))
              (λ w. refl)
              (λ whole.
                bind-KeepsCatalog B L
                  (child_customs B S whole.mode (customs_of parent) (given_customs request))
                  (λ customs. pure (new_configuration id now whole customs))
                  (child_customs-KeepsCatalog B L S whole.mode (customs_of parent)
                    (given_customs request))
                  (λ customs w. refl)))

    validate_root-KeepsCatalog : KeepsCatalog B L (validate_root B S id now request)
    unfolding validate_root
    validate_root-KeepsCatalog =
        bind-KeepsCatalog B L (lift (check_root request))
          (λ _. root_customs B S request.mode (given_customs request) >>= λ customs.
            pure (new_configuration id now request customs))
          (λ w. refl)
          (λ _.
            bind-KeepsCatalog B L (root_customs B S request.mode (given_customs request))
              (λ customs. pure (new_configuration id now request customs))
              (root_customs-KeepsCatalog B L S request.mode (given_customs request))
              (λ customs w. refl))

    pub validate_create-KeepsCatalog :
        KeepsCatalog B L (validate_create_configuration B S id now request)
    unfolding validate_create_configuration
    validate_create-KeepsCatalog =
        bind-KeepsCatalog B L (check_class_id_exists B request.class_id)
          (λ _.
            if not (request.parent_id == "0")
            then validate_child B S id now request
            else validate_root B S id now request)
          (check_class_id-KeepsCatalog request.class_id)
          (λ _ w. ground (arith, validate_child-KeepsCatalog w, validate_root-KeepsCatalog w))

    -- A creation that fails leaves the collections as they were.
    pub create-FailureKeeps : FailureKeeps (create_configuration_request B S id now request)
    unfolding create_configuration_request
    create-FailureKeeps =
        bind-FailureKeeps (lift (refuse_fields (S.invalid_create request)))
          (λ _. validate_create_configuration B S id now request >>= λ class.
            create_configuration B class >>= λ _. pure class)
          (λ w. refl)
          (λ _.
            bind-FailureKeeps (validate_create_configuration B S id now request)
              (λ class. create_configuration B class >>= λ _. pure class)
              validate_create-KeepsCatalog
              (λ class.
                pure-FailureKeeps (create_configuration B class) (λ _. class)
                  (create_configuration-FailureKeeps class)))
