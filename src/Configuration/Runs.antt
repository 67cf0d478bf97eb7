-- ===== src/Configuration/Runs.antt =====
-- The deletion of a class, and any sequence of requests on classes
-- (src/restful/services/configuration.go).
use messenger_service_go.Prelude.{
  ◌≡◌, refl, ◌⊎◌, String, ◌==◌, true, none, eq_refl, arith, if◌then◌else◌, Option-cases, inl, inr,
}
use messenger_service_go.Go.{Result, ok, err, panic}
use messenger_service_go.Models.{Configuration}
use messenger_service_go.Backend.{Backend, IsLawful, first_class, drop_class_at}
use messenger_service_go.World.{World}
use messenger_service_go.Message.Store.{get_configuration_by_class_id}
use messenger_service_go.Configuration.Create.{
  delete_one_configuration, delete_configuration, delete_configuration_request,
}
use messenger_service_go.Configuration.Kept.{Kept, Kept-subst, drop-Kept}
use messenger_service_go.Configuration.View.{first_class-drop_found}
use messenger_service_go.Configuration.Frame.{if_listening-KeepsCatalog}
use messenger_service_go.Configuration.Effects.{classes, fails, unlisted_none}
use messenger_service_go.Configuration.Changed.{get_class_ok, get_class-KeepsCatalog}

module _ (B : Backend) (L : IsLawful B) where
  pub delete_configuration_cases :
      (c : Configuration) (w : World B)
      → ((fails B L (delete_configuration B c w).0 ≡ true)
          × (B.catalog ((delete_configuration B c w).1).state ≡ B.catalog w.state))
        ⊎ (classes B L (delete_configuration B c w).1 ≡ drop_class_at c.id (classes B L w))
  unfolding delete_configuration delete_one_configuration
  delete_configuration_cases c w = elim (Option-cases (B.delete_configuration c.id w.state)) [
    | inl p ↦ inl (ground (arith, p), ground (arith, p))
    | inr (s, p) ↦ inr (
        ground (
          arith,
          p,
          L.catalog-delete_configuration c.id p,
          (if_listening-KeepsCatalog B L c).1 (record w { state = s }),
        ))
  ]

  -- A deletion of a class, among classes that are valid and share no id and no class id. Unless it
  -- fails and leaves the collections as they were, no class is stored under the class id afterwards,
  -- and it finds nothing; under every other class id what was there before is stored; and the classes
  -- stay so. The second may happen though the call fails: where Redis fails to forget the users of a
  -- listening class.
  pub deleted_is_gone :
      (id : String) (w : World B)
      → Kept (classes B L w)
      → (let (end, w') = delete_configuration_request B id w in
          ((fails B L end ≡ true) × (B.catalog w'.state ≡ B.catalog w.state))
          ⊎ (((k : String)
                → first_class k (classes B L w')
                  ≡ (if id == k then none else first_class k (classes B L w)))
              × (B.find_configuration id w'.state ≡ none)
              × Kept (classes B L w')))
  unfolding delete_configuration_request
  deleted_is_gone id w kept = go (get_configuration_by_class_id B id w) refl
    where
      go :
          (p : Result Configuration × World B)
          → get_configuration_by_class_id B id w ≡ p
          → (let (end, w') = delete_configuration_request B id w in
              ((fails B L end ≡ true) × (B.catalog w'.state ≡ B.catalog w.state))
              ⊎ (((k : String)
                    → first_class k (classes B L w')
                      ≡ (if id == k then none else first_class k (classes B L w)))
                  × (B.find_configuration id w'.state ≡ none)
                  × Kept (classes B L w')))
      go (err e, v) q = inl (ground (arith, q), ground (arith, q, get_class-KeepsCatalog B L id w))
      go (panic, v) q = inl (ground (arith, q), ground (arith, q, get_class-KeepsCatalog B L id w))
      go (ok c, v) q =
          let (at, here, listed) = get_class_ok B L id w {c = c} {v = v} q in
          elim (delete_configuration_cases c v) [
            | inl (f, same) ↦ inl (ground (arith, q, f), ground (arith, q, here, same))
            | inr gone ↦
                let w' = (delete_configuration_request B id w).1 in
                let now_stored : classes B L w' ≡ drop_class_at c.id (classes B L w) =
                  ground (arith, q, here, gone) in
                inr (
                  λ k. ground (
                    arith,
                    now_stored,
                    first_class-drop_found id (classes B L w) k {c = c} kept listed,
                  ),
                  unlisted_none B L id w' (
                      ground (
                        arith,
                        now_stored,
                        first_class-drop_found id (classes B L w) id {c = c} kept listed,
                        eq_refl id,
                      )),
                  Kept-subst now_stored (drop-Kept c.id (classes B L w) kept),
                )
          ]
