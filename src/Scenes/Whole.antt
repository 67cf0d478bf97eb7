-- ===== src/Scenes/Whole.antt =====
-- How a whole `copySceneRelation` of src/restful/services/scenes.go ends.
use mathlib.Core.Path.{subst}
use messenger_service_go.Prelude.{
  ◌≡◌, refl, sym, ◌⊎◌, inl, inr, ℕ, String, true, List, [], map, take, arith,
}
use messenger_service_go.Go.{Error, Result, ok, err, internal}
use messenger_service_go.Common.{create_error}
use messenger_service_go.Models.{ObjectId, Configuration, Template, SceneRelation}
use messenger_service_go.Backend.{bson_configuration, bson_template}
use messenger_service_go.Scenes.Collection.{
  Collection, IsCollection, Cursor, documents, find_error, decode_error, of_app, without_app,
  of_app-without_app, take_nil,
}
use messenger_service_go.Scenes.Copy.{
  class_copies, template_copies, relation_copies, bson_relation, All3, wipe, read_app, existing,
  copies, insert_classes, insert_templates, insert_relations, insert_all, copy_scene_relation,
}
use messenger_service_go.Scenes.Copied.{Wiped, Added}

module _ (CC : Collection Configuration) (CT : Collection Template) (CR : Collection SceneRelation)
    (LC : IsCollection (λ c. c.app_id) bson_configuration CC)
    (LT : IsCollection (λ t. t.app_id) bson_template CT)
    (LR : IsCollection (λ r. r.app_id) bson_relation CR) where
  abbrev classes_of : String → All3 CC CT CR → List Configuration
  classes_of a s = of_app (λ c. c.app_id) a (CC.contents s.classes)

  abbrev templates_of : String → All3 CC CT CR → List Template
  templates_of a s = of_app (λ t. t.app_id) a (CT.contents s.templates)

  abbrev relations_of : String → All3 CC CT CR → List SceneRelation
  relations_of a s = of_app (λ r. r.app_id) a (CR.contents s.relations)

  -- What is read of an application: so many of its first classes, templates and scenes.
  abbrev pub first_of :
      ℕ → ℕ → ℕ → String → All3 CC CT CR → List Configuration × List Template × List SceneRelation
  first_of p q r a s =
      (take p (classes_of a s), take q (templates_of a s), take r (relations_of a s))

  read_app_cases :
      (a : String) (s : All3 CC CT CR)
      → ((p q r : ℕ) × (read_app CC CT CR a s ≡ (ok (first_of p q r a s), s)))
        ⊎ ((e : Error) × (read_app CC CT CR a s ≡ (err e, s)))
  unfolding read_app
  read_app_cases a s =
      go (CC.find a s.classes) (CT.find a s.templates) (CR.find a s.relations) refl refl refl
    where
      go :
          (p : Cursor Configuration) (q : Cursor Template) (r : Cursor SceneRelation)
          → CC.find a s.classes ≡ p
          → CT.find a s.templates ≡ q
          → CR.find a s.relations ≡ r
          → ((p q r : ℕ) × (read_app CC CT CR a s ≡ (ok (first_of p q r a s), s)))
            ⊎ ((e : Error) × (read_app CC CT CR a s ≡ (err e, s)))
      go (documents cs) (documents ts) (documents rs) e f g =
          let (p, c) = LC.find_contents a s.classes cs e in
          let (q, t) = LT.find_contents a s.templates ts f in
          let (r, h) = LR.find_contents a s.relations rs g in
          inl (p, q, r, ground (arith, e, f, g, c, t, h))
      go find_error q r e f g = inr (create_error internal 1001, ground (arith, e))
      go decode_error q r e f g = inr (create_error internal 1000, ground (arith, e))
      go (documents cs) find_error r e f g = inr (create_error internal 1001, ground (arith, e, f))
      go (documents cs) decode_error r e f g =
          inr (create_error internal 1000, ground (arith, e, f))
      go (documents cs) (documents ts) find_error e f g =
          inr (create_error internal 1001, ground (arith, e, f, g))
      go (documents cs) (documents ts) decode_error e f g =
          inr (create_error internal 1000, ground (arith, e, f, g))

  nothing_copied :
      (class_ids template_ids : ℕ → ObjectId) (a : String) (s : All3 CC CT CR) (p q r : ℕ)
      → (classes_of a s ≡ []) × (templates_of a s ≡ []) × (relations_of a s ≡ [])
      → insert_all CC CT CR a
          (
            class_copies [] a class_ids 0 (take p (classes_of a s)),
            template_copies [] a template_ids 0 (take q (templates_of a s)),
            relation_copies [] a (take r (relations_of a s)),
          )
          s
        ≡ (ok tt, s)
  unfolding insert_all insert_classes insert_templates insert_relations class_copies template_copies
      relation_copies
  nothing_copied class_ids template_ids a s p q r (c, t, u) = rw c (
      rw t (
        rw u (
          rw (take_nil (λ (c : Configuration). c.app_id) p) (
            rw (take_nil (λ (t : Template). t.app_id) q)
              (rw (take_nil (λ (r : SceneRelation). r.app_id) r) refl)))))

  -- Every document of the application is gone, and the others' are the same.
  abbrev pub Emptied : String → All3 CC CT CR → All3 CC CT CR → Type 0
  Emptied a s s' =
      (CC.contents s'.classes ≡ without_app (λ c. c.app_id) a (CC.contents s.classes))
      × (CT.contents s'.templates ≡ without_app (λ t. t.app_id) a (CT.contents s.templates))
      × (CR.contents s'.relations ≡ without_app (λ r. r.app_id) a (CR.contents s.relations))

  module _ (class_ids template_ids : ℕ → ObjectId) (old new : String) (s : All3 CC CT CR) where
    -- The copies to add, of what was read of the new application and of the old one.
    abbrev pub AddedCopies :
        List Configuration × List Template × List SceneRelation
        → List Configuration × List Template × List SceneRelation
        → All3 CC CT CR
        → Type 0
    AddedCopies (cs, ts, rs) (ds, us, qs) s' =
        Added CC CT CR LC LT LR (class_copies (map (λ c. c.class_id) cs) new class_ids 0 ds)
          (template_copies (map (λ t. t.message_template_id) ts) new template_ids 0 us)
          (relation_copies (map (λ r. r.scene_id) rs) new qs) s s'

    abbrev pub CopyEnd : Result (Unit {0}) × All3 CC CT CR → Type 0
    CopyEnd (end, s') =
        ((end ≡ ok tt)
          × ((p q r i j k : ℕ) × AddedCopies (first_of p q r new s) (first_of i j k old s) s'))
        ⊎ ((end ≡ err (create_error internal 1001)) × Wiped CC CT CR LC LT LR new s s')
        ⊎ ((e : Error) × (end ≡ err e) × (s' ≡ s))

  -- A copy of an application to itself with the deletion loses it, if the three deletions succeed:
  -- nothing is left of the application, the others' documents stay, and the end is no error unless a
  -- search or a decoding fails, of what the deletions left.
  pub self_copy_loses :
      (class_ids template_ids : ℕ → ObjectId) (a : String) (s gone : All3 CC CT CR)
      → CC.delete_many a s.classes ≡ (true, gone.classes)
      → CT.delete_many a s.templates ≡ (true, gone.templates)
      → CR.delete_many a s.relations ≡ (true, gone.relations)
      → (let (end, s') = copy_scene_relation CC CT CR class_ids template_ids a a true s in
          Emptied a s s'
          × ((end ≡ ok tt)
              ⊎ ((e : Error) × (end ≡ err e) × (read_app CC CT CR a gone ≡ (err e, gone)))))
  unfolding copy_scene_relation existing copies wipe
  self_copy_loses class_ids template_ids a s gone dc dt dr =
      let run = copy_scene_relation CC CT CR class_ids template_ids a a true s in
      let left : wipe CC CT CR a s ≡ gone = ground (arith, dc, dt, dr) in
      let c = LC.deleted a s.classes gone.classes dc in
      let t = LT.deleted a s.templates gone.templates dt in
      let r = LR.deleted a s.relations gone.relations dr in
      let none_of : (classes_of a gone ≡ [])
          × (templates_of a gone ≡ [])
          × (relations_of a gone ≡ []) =
        (
          ground (arith, c, of_app-without_app (λ c. c.app_id) a (CC.contents s.classes)),
          ground (arith, t, of_app-without_app (λ t. t.app_id) a (CT.contents s.templates)),
          ground (arith, r, of_app-without_app (λ r. r.app_id) a (CR.contents s.relations)),
        ) in
      elim (read_app_cases a gone) [
        | inr (e, x) ↦
            let there : run ≡ (err e, gone) = ground (arith, x, left) in
            (subst (λ p. Emptied a s p.1) (sym there) (c, t, r), inr (e, ground (arith, there), x))
        | inl (i, j, k, x) ↦
            let there : run ≡ (ok tt, gone) =
              ground (arith, x, left, nothing_copied class_ids template_ids a gone i j k none_of) in
            (subst (λ p. Emptied a s p.1) (sym there) (c, t, r), inl (ground (arith, there)))
      ]
