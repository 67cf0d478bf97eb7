-- ===== src/Scenes/Requests.antt =====
-- The validators of requests on scenes and the pages of queries: src/restful/services/scenes.go.
use messenger_service_go.Prelude.{
  ltb, ℕ, ◌+◌, ◌-◌, ◌/◌, ◌%◌, ◌^◌, ◌≡◌, refl, eqb, String, ◌==◌, eq_iff, ◌≢◌, Option, none, some,
  List, [], ◌∷◌, arith, if◌then◌else◌, ◌↔◌, All, differ,
}
use messenger_service_go.Go.{Result, ok, err, invalid_argument}
use messenger_service_go.Common.{create_error}

-- The fields of the four requests that the validators look at.
pub record SceneCreate : Type 0 where
  pub name : String
  pub describe : String
  pub app_id : String
  pub instance_id : String
  pub tenant_id : String
  pub created_by : String

pub record SceneUpdate : Type 0 where
  pub id : String
  pub app_id : String
  pub instance_id : String
  pub tenant_id : String
  pub update_by : String

pub record SceneRelationCreate : Type 0 where
  pub scene_id : String
  pub template_id : String
  pub config_id : String
  pub source : String
  pub target : Option (List String)
  pub app_id : String
  pub created_by : String

pub record SceneRelationUpdate : Type 0 where
  pub scene_id : String
  pub app_id : String
  pub update_by : String

-- The first text that is "" is refused, always by one error.
unfoldable pub refuse_empty : List String → Result (Unit {0})
refuse_empty [] = ok tt
refuse_empty (text ∷ texts) =
    let rest = refuse_empty texts in
    if text == "" then err (create_error invalid_argument 100202) else rest

unfoldable pub validate_create_scene : SceneCreate → Result (Unit {0})
unfolding refuse_empty
validate_create_scene scene = refuse_empty (
    scene.name ∷ scene.describe ∷ scene.app_id ∷ scene.instance_id ∷ scene.tenant_id
    ∷ scene.created_by ∷ [])

unfoldable pub validate_update_scene : SceneUpdate → Result (Unit {0})
unfolding refuse_empty
validate_update_scene scene =
    refuse_empty
      (scene.id ∷ scene.app_id ∷ scene.instance_id ∷ scene.tenant_id ∷ scene.update_by ∷ [])

-- A text that is "" for the nil slice only.
unfoldable pub target_text : Option (List String) → String
target_text none = ""
target_text (some target) = "target"

abbrev pub relation_fields : SceneRelationCreate → List String
relation_fields scene =
    scene.scene_id
    ∷ scene.template_id
    ∷ scene.config_id
    ∷ scene.source
    ∷ target_text scene.target
    ∷ scene.created_by
    ∷ []

-- The application's id is not looked at; the targets may be empty, but not nil.
unfoldable pub validate_create_scene_relation : SceneRelationCreate → Result (Unit {0})
unfolding refuse_empty target_text
validate_create_scene_relation scene = refuse_empty (relation_fields scene)

unfoldable pub validate_update_scene_relation : SceneRelationUpdate → Result (Unit {0})
unfolding refuse_empty
validate_update_scene_relation update =
    refuse_empty (update.scene_id ∷ update.app_id ∷ update.update_by ∷ [])

pub data ℤ : Type 0 where
  pos : ℕ → ℤ
  negsuc : ℕ → ℤ

-- The conversion to an int32: the lowest 32 bits, as a number with a sign. `negsuc n` is - n - 1.
unfoldable pub int32 : ℕ → ℤ
int32 n =
    let bits = n % 2 ^ 32 in if ltb bits (2 ^ 31) then pos bits else negsuc (2 ^ 32 - 1 - bits)

-- `PageVO`
pub record Page : Type 0 where
  pub page_num : ℤ
  pub page_size : ℤ
  pub total_page : ℤ
  pub total : ℕ

abbrev pub or_default : ℕ → Option ℕ → ℕ
or_default n none = n
or_default n (some m) = m

-- The page of `queryScenePage` and `querySceneRelationPage`, for a skip and a limit that are not
-- negative; `counter` is how many documents match. The addition of 1 wraps.
unfoldable pub page_of : Option ℕ → Option ℕ → ℕ → Page
unfolding int32
page_of skip limit counter =
    let skip' = or_default 0 skip in
    let limit' = or_default 10 limit in
    if eqb limit' 0
    then record { page_num = pos 1; page_size = int32 limit'; total_page = pos 1; total = counter }
    else record {
      page_num = int32 (skip' / limit' % 2 ^ 32 + 1);
      page_size = int32 limit';
      total_page = int32 (counter / limit');
      total = counter;
    }

refuse_empty_iff : (texts : List String) → (refuse_empty texts ≡ ok tt) ↔ All (λ t. t ≢ "") texts
unfolding refuse_empty
refuse_empty_iff [] = ground arith
refuse_empty_iff (t ∷ texts) = ground (arith, refuse_empty_iff texts, eq_iff t "")

refuse_empty_error :
    (texts : List String)
    → refuse_empty texts ≢ ok tt
    → refuse_empty texts ≡ err (create_error invalid_argument 100202)
unfolding refuse_empty
refuse_empty_error [] n = absurd (n refl)
refuse_empty_error (t ∷ texts) n = ground (arith, refuse_empty_error texts, n)

target_text_iff : (target : Option (List String)) → (target_text target ≡ "") ↔ (target ≡ none)
unfolding target_text
target_text_iff none = (λ e. refl, λ e. refl)
target_text_iff (some target) =
    (λ e. absurd (differ "target" "" refl e), λ e. absurd (ground (arith, e)))

-- A request to relate a scene is accepted exactly if its scene, its template, its class, its source
-- and its creator are not "", and its targets are not nil; its application may be "". Otherwise the
-- error is 100202, whose text is about the type of a template.
pub validate_create_scene_relation_iff :
    (scene : SceneRelationCreate)
    → ((validate_create_scene_relation scene ≡ ok tt) ↔ (
        (scene.scene_id ≢ "")
        × (scene.template_id ≢ "")
        × (scene.config_id ≢ "")
        × (scene.source ≢ "")
        × (scene.target ≢ none)
        × (scene.created_by ≢ "")))
      × (validate_create_scene_relation scene ≢ ok tt
          → validate_create_scene_relation scene ≡ err (create_error invalid_argument 100202))
      × ((create_error invalid_argument 100202).message
          ≡ "Type must be one of the following: greeting, reminder, announcement.")
unfolding validate_create_scene_relation create_error
validate_create_scene_relation_iff scene = (
  ground (arith, refuse_empty_iff (relation_fields scene), target_text_iff scene.target),
  refuse_empty_error (relation_fields scene),
  refl,
)
