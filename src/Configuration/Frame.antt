-- ===== src/Configuration/Frame.antt =====
-- The actions on a class that write to Redis only leave the collections as they are.
use messenger_service_go.Prelude.{
  ◌≡◌, refl, String, ◌==◌, [], arith, if◌then◌else◌, Option-cases, inl, inr,
}
use messenger_service_go.Go.{Error, Result, ok, err, panic, internal}
use messenger_service_go.Go.Exec.{Exec, pure, lift, ◌>>=◌}
use messenger_service_go.Common.{create_error}
use messenger_service_go.Models.{Configuration, FeishuConfigData, DingTalkConfigData}
use messenger_service_go.Backend.{
  Backend, IsLawful, Key, Value, Reply, found, missing, failed, user_list_key, user_map_json,
  feishu_applications_key, ding_talk_applications_key, feishu_json, ding_talk_json,
}
use messenger_service_go.World.{World, write}
use messenger_service_go.Configuration.Settings.{Settings}
use messenger_service_go.Configuration.Customs.{
  Customs, no_customs, feishu_config, ding_talk_config, child_email, child_feishu, child_ding_talk,
  encrypt_email, encrypt_feishu, encrypt_ding_talk, root_email, root_feishu, root_ding_talk,
}
use messenger_service_go.Configuration.Register.{
  feishu_registered, register_feishu, ding_talk_registered, register_ding_talk,
  register_listening_configuration, unregister_listening_configuration, child_feishu_app,
  child_ding_talk_app, child_third_party, child_customs, root_feishu_app, root_ding_talk_app,
  root_third_party, root_customs,
}

module _ (B : Backend) (L : IsLawful B) where
  abbrev pub KeepsCatalog {ℓ} : {A : Type ℓ} → Exec (World B) A → Type 0
  KeepsCatalog a = (w : World B) → B.catalog ((a w).1).state ≡ B.catalog w.state

  pub bind-KeepsCatalog {ℓ κ} :
      {A : Type ℓ} {C : Type κ} (a : Exec (World B) A) (f : A → Exec (World B) C)
      → KeepsCatalog a
      → ((x : A) → KeepsCatalog (f x))
      → KeepsCatalog (a >>= f)
  bind-KeepsCatalog {A = A} a f ka kf w = go (a w) refl
    where
      go :
          (p : Result A × World B) → a w ≡ p → B.catalog (((a >>= f) w).1).state ≡ B.catalog w.state
      go (ok x, v) e = ground (arith, e, ka w, kf x v)
      go (err r, v) e = ground (arith, e, ka w)
      go (panic, v) e = ground (arith, e, ka w)

  set-KeepsCatalog : (e : Error) (k : Key) (v : Value) → KeepsCatalog (write B e (B.redis_set k v))
  set-KeepsCatalog e k v w = elim (Option-cases (B.redis_set k v w.state)) [
    | inl p ↦ ground (arith, p)
    | inr (s, p) ↦ ground (arith, p, L.catalog-set k v p)
  ]

  del-KeepsCatalog : (e : Error) (k : Key) → KeepsCatalog (write B e (B.redis_del k))
  del-KeepsCatalog e k w = elim (Option-cases (B.redis_del k w.state)) [
    | inl p ↦ ground (arith, p)
    | inr (s, p) ↦ ground (arith, p, L.catalog-del k p)
  ]

  register_listening-KeepsCatalog :
      (c : Configuration) → KeepsCatalog (register_listening_configuration B c)
  unfolding register_listening_configuration
  register_listening-KeepsCatalog c =
      set-KeepsCatalog (create_error internal 1001) (user_list_key c.class_id) (user_map_json [])

  unregister_listening-KeepsCatalog :
      (c : Configuration) → KeepsCatalog (unregister_listening_configuration B c)
  unfolding unregister_listening_configuration
  unregister_listening-KeepsCatalog c =
      del-KeepsCatalog (create_error internal 1001) (user_list_key c.class_id)

  -- What is done for listening classes only.
  pub if_listening-KeepsCatalog :
      (c : Configuration)
      → KeepsCatalog
          (if c.mode == "listening" then register_listening_configuration B c else pure tt)
        × KeepsCatalog
            (if c.mode == "listening" then unregister_listening_configuration B c else pure tt)
  if_listening-KeepsCatalog c = (
    λ w. ground (arith, register_listening-KeepsCatalog c w),
    λ w. ground (arith, unregister_listening-KeepsCatalog c w),
  )

  feishu_registered-KeepsCatalog :
      (d : FeishuConfigData) (r : Reply) → KeepsCatalog (feishu_registered B d r)
  unfolding feishu_registered
  feishu_registered-KeepsCatalog d missing w =
      set-KeepsCatalog (create_error internal 1001) (feishu_applications_key d.app_id)
        (feishu_json d) w
  feishu_registered-KeepsCatalog d (found v) w = refl
  feishu_registered-KeepsCatalog d failed w = refl

  register_feishu-KeepsCatalog : (d : FeishuConfigData) → KeepsCatalog (register_feishu B d)
  unfolding register_feishu
  register_feishu-KeepsCatalog d w =
      feishu_registered-KeepsCatalog d (B.redis_get (feishu_applications_key d.app_id) w.state) w

  ding_talk_registered-KeepsCatalog :
      (d : DingTalkConfigData) (r : Reply) → KeepsCatalog (ding_talk_registered B d r)
  unfolding ding_talk_registered
  ding_talk_registered-KeepsCatalog d missing w =
      set-KeepsCatalog (create_error internal 1001) (ding_talk_applications_key d.app_id)
        (ding_talk_json d) w
  ding_talk_registered-KeepsCatalog d (found v) w = refl
  ding_talk_registered-KeepsCatalog d failed w = refl

  register_ding_talk-KeepsCatalog : (d : DingTalkConfigData) → KeepsCatalog (register_ding_talk B d)
  unfolding register_ding_talk
  register_ding_talk-KeepsCatalog d w =
      ding_talk_registered-KeepsCatalog d
        (B.redis_get (ding_talk_applications_key d.app_id) w.state) w

  -- A result, an action on it that keeps the collections, and a value.
  step-KeepsCatalog {ℓ κ} :
      {A : Type ℓ} {C : Type κ} (r : Result A) (f : A → Exec (World B) (Unit {0})) (g : A → C)
      → ((x : A) → KeepsCatalog (f x))
      → KeepsCatalog (lift r >>= λ x. f x >>= λ _. pure (g x))
  step-KeepsCatalog r f g k =
      bind-KeepsCatalog (lift r) (λ x. f x >>= λ _. pure (g x)) (λ w. refl)
        (λ x. bind-KeepsCatalog (f x) (λ _. pure (g x)) (k x) (λ _ w. refl))

  module _ (S : Settings) where
    child_feishu_app-KeepsCatalog :
        (parent given : Customs) → KeepsCatalog (child_feishu_app B S parent given)
    unfolding child_feishu_app
    child_feishu_app-KeepsCatalog parent given =
        step-KeepsCatalog (child_feishu S parent given)
          (λ f.
            register_feishu B (feishu_config given.feishu.app_id given.feishu.app_secret f.type))
          (λ f. record no_customs { feishu = f })
          (λ f.
            register_feishu-KeepsCatalog
              (feishu_config given.feishu.app_id given.feishu.app_secret f.type))

    child_ding_talk_app-KeepsCatalog :
        (parent given : Customs) → KeepsCatalog (child_ding_talk_app B S parent given)
    unfolding child_ding_talk_app
    child_ding_talk_app-KeepsCatalog parent given =
        step-KeepsCatalog (child_ding_talk S parent given)
          (λ d. register_ding_talk B (
            ding_talk_config d.suite_id given.ding_talk.suite_key given.ding_talk.suite_secret
              d.suite_id))
          (λ d. record no_customs { ding_talk = d })
          (λ d. register_ding_talk-KeepsCatalog (
            ding_talk_config d.suite_id given.ding_talk.suite_key given.ding_talk.suite_secret
              d.suite_id))

    child_third_party-KeepsCatalog :
        (parent given : Customs) → KeepsCatalog (child_third_party B S parent given)
    unfolding child_third_party
    child_third_party-KeepsCatalog parent given =
        bind-KeepsCatalog (child_feishu_app B S parent given)
          (λ first. child_ding_talk_app B S parent given >>= λ second.
            pure (record first { ding_talk = second.ding_talk }))
          (child_feishu_app-KeepsCatalog parent given)
          (λ first.
            bind-KeepsCatalog (child_ding_talk_app B S parent given)
              (λ second. pure (record first { ding_talk = second.ding_talk }))
              (child_ding_talk_app-KeepsCatalog parent given) (λ second w. refl))

    pub child_customs-KeepsCatalog :
        (mode : String) (parent given : Customs)
        → KeepsCatalog (child_customs B S mode parent given)
    unfolding child_customs
    child_customs-KeepsCatalog mode parent given w = ground (
      arith,
      bind-KeepsCatalog (lift (child_email S parent given))
          (λ email. pure (record no_customs { email = email })) (λ w. refl) (λ _ w. refl) w,
      child_third_party-KeepsCatalog parent given w,
      child_feishu_app-KeepsCatalog parent given w,
      child_ding_talk_app-KeepsCatalog parent given w,
    )

    root_feishu_app-KeepsCatalog : (given : Customs) → KeepsCatalog (root_feishu_app B S given)
    unfolding root_feishu_app
    root_feishu_app-KeepsCatalog given =
        let raw = root_feishu S given in
        step-KeepsCatalog (encrypt_feishu S raw)
          (λ f. register_feishu B (feishu_config raw.app_id raw.app_secret f.type))
          (λ f. record no_customs { feishu = f })
          (λ f. register_feishu-KeepsCatalog (feishu_config raw.app_id raw.app_secret f.type))

    root_ding_talk_app-KeepsCatalog :
        (given : Customs) → KeepsCatalog (root_ding_talk_app B S given)
    unfolding root_ding_talk_app
    root_ding_talk_app-KeepsCatalog given =
        let raw = root_ding_talk S given in
        step-KeepsCatalog (encrypt_ding_talk S raw)
          (λ d.
            register_ding_talk B
              (ding_talk_config d.app_id raw.suite_key raw.suite_secret d.suite_id))
          (λ d. record no_customs { ding_talk = d })
          (λ d.
            register_ding_talk-KeepsCatalog
              (ding_talk_config d.app_id raw.suite_key raw.suite_secret d.suite_id))

    root_third_party-KeepsCatalog : (given : Customs) → KeepsCatalog (root_third_party B S given)
    unfolding root_third_party
    root_third_party-KeepsCatalog given =
        bind-KeepsCatalog (root_feishu_app B S given)
          (λ first. root_ding_talk_app B S given >>= λ second.
            pure (record first { ding_talk = second.ding_talk }))
          (root_feishu_app-KeepsCatalog given)
          (λ first.
            bind-KeepsCatalog (root_ding_talk_app B S given)
              (λ second. pure (record first { ding_talk = second.ding_talk }))
              (root_ding_talk_app-KeepsCatalog given) (λ second w. refl))

    pub root_customs-KeepsCatalog :
        (mode : String) (given : Customs) → KeepsCatalog (root_customs B S mode given)
    unfolding root_customs
    root_customs-KeepsCatalog mode given w = ground (
      arith,
      bind-KeepsCatalog (lift (encrypt_email S (root_email S given)))
          (λ email. pure (record no_customs { email = email })) (λ w. refl) (λ _ w. refl) w,
      root_third_party-KeepsCatalog given w,
      root_feishu_app-KeepsCatalog given w,
      root_ding_talk_app-KeepsCatalog given w,
    )
