-- ===== src/Scenes/Collection.antt =====
-- A collection of MongoDB as `copySceneRelation` uses it: by the application of its documents.
use messenger_service_go.Prelude.{
  ◌≡◌, refl, ap, String, ◌==◌, eq_iff, Bool, true, false, ℕ, List, [], ◌∷◌, ◌++◌, map, take, suc,
  zero, All, arith, if◌then◌else◌,
}

-- What `Find`, the loop over `cursor.Next` and the decoding of every document come to. The code does
-- not look at `cursor.Err`: where the reading stops by an error, it goes on with what was read.
pub data Cursor (A : Type 0) : Type 0 where
  documents : List A → Cursor A
  find_error decode_error : Cursor A

pub record Collection (A : Type 0) : Type 1 where
  pub State : Type 0
  -- `Find` by the field appId
  pub find : String → State → Cursor A
  -- `InsertMany`, and whether it has no error
  pub insert_many : List A → State → Bool × State
  -- `DeleteMany` by the field appId, and whether it has no error
  pub delete_many : String → State → Bool × State
  pub contents : State → List A

module _ {A : Type 0} (app : A → String) where
  -- The documents of an application, and the others.
  unfoldable pub of_app : String → List A → List A
  of_app a [] = []
  of_app a (x ∷ xs) = let rest = of_app a xs in if app x == a then x ∷ rest else rest

  unfoldable pub without_app : String → List A → List A
  without_app a [] = []
  without_app a (x ∷ xs) = let rest = without_app a xs in if app x == a then rest else x ∷ rest

  -- `stored` is what a document is after its insertion and decoding. An insertion is ordered: one
  -- that fails has inserted the documents before the first that was refused. What is read are the
  -- documents of the application, or the first of them.
  pub record IsCollection (stored : A → A) (C : Collection A) : Type 0 where
    pub find_contents :
        (a : String) (s : C.State) (xs : List A)
        → C.find a s ≡ documents xs
        → (n : ℕ) × (xs ≡ take n (of_app a (C.contents s)))
    pub inserted :
        (xs : List A) (s s' : C.State)
        → C.insert_many xs s ≡ (true, s')
        → C.contents s' ≡ C.contents s ++ map stored xs
    pub inserted_some :
        (xs : List A) (s s' : C.State)
        → C.insert_many xs s ≡ (false, s')
        → (n : ℕ) × (C.contents s' ≡ C.contents s ++ map stored (take n xs))
    pub deleted :
        (a : String) (s s' : C.State)
        → C.delete_many a s ≡ (true, s')
        → C.contents s' ≡ without_app a (C.contents s)

  pub without_app-append :
      (a : String) (xs ys : List A)
      → without_app a (xs ++ ys) ≡ without_app a xs ++ without_app a ys
  unfolding without_app
  without_app-append a [] ys = refl
  without_app-append a (x ∷ xs) ys = ground (arith, without_app-append a xs ys)

  pub of_app-append :
      (a : String) (xs ys : List A) → of_app a (xs ++ ys) ≡ of_app a xs ++ of_app a ys
  unfolding of_app
  of_app-append a [] ys = refl
  of_app-append a (x ∷ xs) ys = ground (arith, of_app-append a xs ys)

  pub of_app-without_app : (a : String) (xs : List A) → of_app a (without_app a xs) ≡ []
  unfolding of_app without_app
  of_app-without_app a [] = refl
  of_app-without_app a (x ∷ xs) = ground (arith, of_app-without_app a xs)

  -- Documents of one application only.
  abbrev pub AllOf : String → List A → Type 0
  AllOf a xs = All (λ x. (app x == a) ≡ true) xs

  pub without_app-AllOf : (a : String) (xs : List A) → AllOf a xs → without_app a xs ≡ []
  unfolding without_app
  without_app-AllOf a [] h = refl
  without_app-AllOf a (x ∷ xs) (h, hs) = ground (arith, h, without_app-AllOf a xs hs)

  pub of_app-other : (a b : String) (xs : List A) → (a == b) ≡ false → AllOf b xs → of_app a xs ≡ []
  unfolding of_app
  of_app-other a b [] n h = refl
  of_app-other a b (x ∷ xs) n (h, hs) =
      ground (arith, h, n, of_app-other a b xs n hs, eq_iff (app x) a, eq_iff (app x) b, eq_iff a b)

  pub of_app-same : (a : String) (xs : List A) → AllOf a xs → of_app a xs ≡ xs
  unfolding of_app
  of_app-same a [] h = refl
  of_app-same a (x ∷ xs) (h, hs) = ground (arith, h, of_app-same a xs hs)

  -- What is stored of documents of one application is of it.
  pub stored-AllOf :
      (stored : A → A) (a : String) (xs : List A)
      → ((x : A) → app (stored x) ≡ app x)
      → AllOf a xs
      → AllOf a (map stored xs)
  stored-AllOf stored a [] same h = tt
  stored-AllOf stored a (x ∷ xs) same (h, hs) =
      (ground (arith, h, same x), stored-AllOf stored a xs same hs)

  pub take-AllOf : (a : String) (n : ℕ) (xs : List A) → AllOf a xs → AllOf a (take n xs)
  take-AllOf a zero xs h = tt
  take-AllOf a (suc n) [] h = tt
  take-AllOf a (suc n) (x ∷ xs) (h, hs) = (h, take-AllOf a n xs hs)

  pub append_nil : (xs : List A) → xs ++ [] ≡ xs
  append_nil [] = refl
  append_nil (x ∷ xs) = ap (λ t. x ∷ t) (append_nil xs)

  -- Documents of an application that were added go with the others.
  pub without_app-added :
      (a : String) (xs ys : List A) → AllOf a ys → without_app a (xs ++ ys) ≡ without_app a xs
  without_app-added a xs ys h =
      ground
        (arith, without_app-append a xs ys, without_app-AllOf a ys h, append_nil (without_app a xs))

  -- An insertion of documents of the application, failed or not, leaves the others' documents.
  pub inserted-others :
      (stored : A → A) (C : Collection A) (L : IsCollection stored C) (a : String) (xs : List A)
      → ((x : A) → app (stored x) ≡ app x)
      → AllOf a xs
      → (s s' : C.State) (done : Bool) → C.insert_many xs s ≡ (done, s')
      → without_app a (C.contents s') ≡ without_app a (C.contents s)
  inserted-others stored C L a xs same h s s' true e = ground (
    arith,
    L.inserted xs s s' e,
    without_app-added a (C.contents s) (map stored xs) (stored-AllOf stored a xs same h),
  )
  inserted-others stored C L a xs same h s s' false e =
      let (n, some_in) = L.inserted_some xs s s' e in
      ground (
        arith,
        some_in,
        without_app-added a (C.contents s) (map stored (take n xs))
            (stored-AllOf stored a (take n xs) same (take-AllOf a n xs h)),
      )

  pub take_nil : (n : ℕ) → take {A = A} n [] ≡ []
  take_nil zero = refl
  take_nil (suc n) = refl
