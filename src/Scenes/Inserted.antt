-- ===== src/Scenes/Inserted.antt =====
-- How the insertions of `copySceneRelation` of src/restful/services/scenes.go end.
use messenger_service_go.Prelude.{
  ◌≡◌, refl, inl, inr, String, Bool, true, false, List, [], ◌∷◌, ◌++◌, map, arith,
}
use messenger_service_go.Models.{Configuration, Template, SceneRelation}
use messenger_service_go.Backend.{bson_configuration, bson_template}
use messenger_service_go.Scenes.Collection.{
  Collection, IsCollection, AllOf, append_nil, without_app-added, inserted-others, stored-AllOf,
}
use messenger_service_go.Scenes.Copy.{
  bson_relation, All3, wipe, insert_classes, insert_templates, insert_relations, insert_all,
}
use messenger_service_go.Scenes.Copied.{class_app, template_app, relation_app, InsertEnd}

module _ (CC : Collection Configuration) (CT : Collection Template) (CR : Collection SceneRelation)
    (LC : IsCollection (λ c. c.app_id) bson_configuration CC)
    (LT : IsCollection (λ t. t.app_id) bson_template CT)
    (LR : IsCollection (λ r. r.app_id) bson_relation CR) where
  insert_classes_end :
      (a : String) (xs : List Configuration) (s : All3 CC CT CR)
      → AllOf (λ c. c.app_id) a xs
      → InsertEnd CC CT CR LC LT LR a xs [] [] s (insert_classes CC CT CR a xs s)
  unfolding insert_classes wipe
  insert_classes_end a [] s h = inl (
    refl,
    (
      ground (arith, append_nil (λ c. c.app_id) (CC.contents s.classes)),
      ground (arith, append_nil (λ t. t.app_id) (CT.contents s.templates)),
      ground (arith, append_nil (λ r. r.app_id) (CR.contents s.relations)),
    ),
  )
  insert_classes_end a (c ∷ xs) s h = go (CC.insert_many (c ∷ xs) s.classes) refl
    where
      go :
          (p : Bool × CC.State)
          → CC.insert_many (c ∷ xs) s.classes ≡ p
          → InsertEnd CC CT CR LC LT LR a (c ∷ xs) [] [] s (insert_classes CC CT CR a (c ∷ xs) s)
      go (true, u) e = inl (
        ground (arith, e),
        (
          ground (arith, e, LC.inserted (c ∷ xs) s.classes u e),
          ground (arith, e, append_nil (λ t. t.app_id) (CT.contents s.templates)),
          ground (arith, e, append_nil (λ r. r.app_id) (CR.contents s.relations)),
        ),
      )
      go (false, u) e = inr (
        ground (arith, e),
        (
          record s { classes = u },
          (
            inserted-others (λ c. c.app_id) bson_configuration CC LC a (c ∷ xs) class_app h
                s.classes u false e,
            refl,
            refl,
          ),
          ground (arith, e),
        ),
      )

  insert_templates_end :
      (a : String) (xs : List Template) (s : All3 CC CT CR)
      → AllOf (λ t. t.app_id) a xs
      → InsertEnd CC CT CR LC LT LR a [] xs [] s (insert_templates CC CT CR a xs s)
  unfolding insert_templates wipe
  insert_templates_end a [] s h = inl (
    refl,
    (
      ground (arith, append_nil (λ c. c.app_id) (CC.contents s.classes)),
      ground (arith, append_nil (λ t. t.app_id) (CT.contents s.templates)),
      ground (arith, append_nil (λ r. r.app_id) (CR.contents s.relations)),
    ),
  )
  insert_templates_end a (t ∷ xs) s h = go (CT.insert_many (t ∷ xs) s.templates) refl
    where
      go :
          (p : Bool × CT.State)
          → CT.insert_many (t ∷ xs) s.templates ≡ p
          → InsertEnd CC CT CR LC LT LR a [] (t ∷ xs) [] s (insert_templates CC CT CR a (t ∷ xs) s)
      go (true, u) e = inl (
        ground (arith, e),
        (
          ground (arith, e, append_nil (λ c. c.app_id) (CC.contents s.classes)),
          ground (arith, e, LT.inserted (t ∷ xs) s.templates u e),
          ground (arith, e, append_nil (λ r. r.app_id) (CR.contents s.relations)),
        ),
      )
      go (false, u) e = inr (
        ground (arith, e),
        (
          record s { templates = u },
          (
            refl,
            inserted-others (λ t. t.app_id) bson_template CT LT a (t ∷ xs) template_app h
                s.templates u false e,
            refl,
          ),
          ground (arith, e),
        ),
      )

  insert_relations_end :
      (a : String) (xs : List SceneRelation) (s : All3 CC CT CR)
      → AllOf (λ r. r.app_id) a xs
      → InsertEnd CC CT CR LC LT LR a [] [] xs s (insert_relations CC CT CR a xs s)
  unfolding insert_relations wipe
  insert_relations_end a [] s h = inl (
    refl,
    (
      ground (arith, append_nil (λ c. c.app_id) (CC.contents s.classes)),
      ground (arith, append_nil (λ t. t.app_id) (CT.contents s.templates)),
      ground (arith, append_nil (λ r. r.app_id) (CR.contents s.relations)),
    ),
  )
  insert_relations_end a (r ∷ xs) s h = go (CR.insert_many (r ∷ xs) s.relations) refl
    where
      go :
          (p : Bool × CR.State)
          → CR.insert_many (r ∷ xs) s.relations ≡ p
          → InsertEnd CC CT CR LC LT LR a [] [] (r ∷ xs) s (insert_relations CC CT CR a (r ∷ xs) s)
      go (true, u) e = inl (
        ground (arith, e),
        (
          ground (arith, e, append_nil (λ c. c.app_id) (CC.contents s.classes)),
          ground (arith, e, append_nil (λ t. t.app_id) (CT.contents s.templates)),
          ground (arith, e, LR.inserted (r ∷ xs) s.relations u e),
        ),
      )
      go (false, u) e = inr (
        ground (arith, e),
        (
          record s { relations = u },
          (
            refl,
            refl,
            inserted-others (λ r. r.app_id) bson_relation CR LR a (r ∷ xs) relation_app h
                s.relations u false e,
          ),
          ground (arith, e),
        ),
      )

  -- Copies that are inserted are all added, or else the deletions of the application's documents are
  -- made.
  pub insert_all_end :
      (a : String) (cs : List Configuration) (ts : List Template) (rs : List SceneRelation)
      (s : All3 CC CT CR)
      → AllOf (λ c. c.app_id) a cs
      → AllOf (λ t. t.app_id) a ts
      → AllOf (λ r. r.app_id) a rs
      → InsertEnd CC CT CR LC LT LR a cs ts rs s (insert_all CC CT CR a (cs, ts, rs) s)
  unfolding insert_all
  insert_all_end a cs ts rs s hc ht hr =
      let s1 = (insert_classes CC CT CR a cs s).1 in
      let s2 = (insert_templates CC CT CR a ts s1).1 in
      let wc =
        without_app-added (λ c. c.app_id) a (CC.contents s.classes) (map bson_configuration cs)
          (stored-AllOf (λ c. c.app_id) bson_configuration a cs class_app hc) in
      let wt =
        without_app-added (λ t. t.app_id) a (CT.contents s.templates) (map bson_template ts)
          (stored-AllOf (λ t. t.app_id) bson_template a ts template_app ht) in
      let nc = append_nil (λ c. c.app_id) (CC.contents s.classes ++ map bson_configuration cs) in
      let nt = append_nil (λ t. t.app_id) (CT.contents s.templates) in
      let nr = append_nil (λ r. r.app_id) (CR.contents s.relations) in
      let nt2 = append_nil (λ t. t.app_id) (CT.contents s.templates ++ map bson_template ts) in
      elim (insert_classes_end a cs s hc) [
        | inr (e1, (u, (c1, t1, r1), d1)) ↦
            inr (ground (arith, e1), (u, (c1, t1, r1), ground (arith, e1, d1)))
        | inl (e1, (c1, t1, r1)) ↦ elim (insert_templates_end a ts s1 ht) [
          | inr (e2, (u, (c2, t2, r2), d2)) ↦ inr (
            ground (arith, e1, e2),
            (
              u,
              (ground (arith, c1, c2, wc), ground (arith, t1, t2, nt), ground (arith, r1, r2, nr)),
              ground (arith, e1, d2),
            ),
          )
          | inl (e2, (c2, t2, r2)) ↦ elim (insert_relations_end a rs s2 hr) [
            | inr (e3, (u, (c3, t3, r3), d3)) ↦ inr (
              ground (arith, e1, e2, e3),
              (
                u,
                (
                  ground (arith, c1, c2, c3, wc, nc),
                  ground (arith, t1, t2, t3, wt, nt),
                  ground (arith, r1, r2, r3, nr),
                ),
                ground (arith, e1, e2, d3),
              ),
            )
            | inl (e3, (c3, t3, r3)) ↦ inl (
              ground (arith, e1, e2, e3),
              (
                ground (arith, e1, e2, e3, c1, c2, c3, nc),
                ground (arith, e1, e2, e3, t1, t2, t3, nt, nt2),
                ground (arith, e1, e2, e3, r1, r2, r3, nr),
              ),
            )
          ]
        ]
      ]
