-- ===== src/ApiSpec/Document.antt =====
-- galaxy_ng/app/utils/apispec/id_fix.py: the document, its operations and the whole script. The
-- paths of a document are an object, and operation ids are texts; what else a document holds is
-- carried along as it is.
use galaxy_ng.Prelude.{
  is_nil, Text, codes, text_eq, Bool, List, [], ◌∷◌, ◌++◌, map, Option, none, some, if◌then◌else◌,
}
use galaxy_ng.ApiSpec.Transform.{transform_operation_id}
use galaxy_ng.ApiSpec.Unique.{Transformed, Named, ensure_unique_ids, max_id_length}

pub record Operation : Type 0 where
  pub operation_id : Option Text
  pub deprecated : Bool
  pub other : Text

-- A value of an object that the code asks to be an object itself.
pub data Member : Type 0 where
  operation : Operation → Member
  other_value : Text → Member

pub data PathItem : Type 0 where
  item : List (Text × Member) → PathItem
  not_item : Text → PathItem

pub record Spec : Type 0 where
  pub paths : List (Text × PathItem)
  pub other : Text

abbrev pub get {ℓ} : {A : Type ℓ} → Text → List (Text × A) → Option A
get k [] = none
get k ((j, a) ∷ m) = if text_eq j k then some a else get k m

abbrev pub set_existing {ℓ} : {A : Type ℓ} → Text → (A → A) → List (Text × A) → List (Text × A)
set_existing k f [] = []
set_existing k f ((j, a) ∷ m) = if text_eq j k then (j, f a) ∷ m else (j, a) ∷ set_existing k f m

abbrev pub http_methods : List Text
http_methods =
    codes "get"
    ∷ codes "post"
    ∷ codes "put"
    ∷ codes "patch"
    ∷ codes "delete"
    ∷ codes "head"
    ∷ codes "options"
    ∷ []

-- The id and the mark of one operation, as `operations` holds them.
pub record Extracted : Type 0 where
  pub method : Text
  pub operation_id : Text
  pub deprecated : Bool

abbrev pub operation_at : Option Member → Option Operation
operation_at (some (operation o)) = some o
operation_at (some (other_value v)) = none
operation_at none = none

abbrev extract_one : Text → Option Operation → List Extracted
extract_one method none = []
extract_one method (some o) = elim o.operation_id [
  | none ↦ []
  | some i ↦ record { method = method; operation_id = i; deprecated = o.deprecated } ∷ []
]

unfoldable pub extract_methods : List Text → List (Text × Member) → List Extracted
extract_methods [] members = []
extract_methods (m ∷ ms) members =
    extract_one m (operation_at (get m members)) ++ extract_methods ms members

unfoldable pub extract_operations : List (Text × PathItem) → List (Text × List Extracted)
extract_operations [] = []
extract_operations ((path, not_item v) ∷ paths) = extract_operations paths
extract_operations ((path, item members) ∷ paths) =
    (path, extract_methods http_methods members) ∷ extract_operations paths

abbrev transform_methods : List Text → Text → List Extracted → List Named
transform_methods noise_order path =
    map (λ e.
      (e.method, transform_operation_id noise_order path e.method e.operation_id e.deprecated))

-- A path without an operation gets no entry.
unfoldable pub transform_all_operations : List Text → List (Text × List Extracted) → Transformed
transform_all_operations noise_order [] = []
transform_all_operations noise_order ((path, []) ∷ rest) = transform_all_operations noise_order rest
transform_all_operations noise_order ((path, e ∷ es) ∷ rest) =
    (path, transform_methods noise_order path (e ∷ es)) ∷ transform_all_operations noise_order rest

-- Only operations are given ids, so other values are never changed.
abbrev with_id : Text → Member → Member
with_id new_id (operation o) = operation (record o { operation_id = some new_id })
with_id new_id (other_value v) = other_value v

abbrev apply_methods : List Named → List (Text × Member) → List (Text × Member)
apply_methods [] members = members
apply_methods ((method, new_id) ∷ ms) members =
    apply_methods ms (set_existing method (with_id new_id) members)

abbrev apply_item : List Named → PathItem → PathItem
apply_item ms (item members) = item (apply_methods ms members)
apply_item ms (not_item v) = not_item v

abbrev apply_paths : Transformed → List (Text × PathItem) → List (Text × PathItem)
apply_paths [] paths = paths
apply_paths ((path, ms) ∷ rest) paths = apply_paths rest (set_existing path (apply_item ms) paths)

unfoldable pub apply_transformed_ids : Spec → Transformed → Spec
apply_transformed_ids spec transformed = record spec { paths = apply_paths transformed spec.paths }

-- An error names the id that is there twice and the second and the first place of it.
pub record Duplicate : Type 0 where
  pub op_id : Text
  pub path : Text
  pub method : Text
  pub first_place : Text

abbrev pub Places : Type 0
Places = List (Text × Text)

abbrev pub place : Text → Text → Text
place path method = path ++ b':' ∷ method

-- The errors of one operation, and the places after it.
unfoldable pub validate_operation : Text → Text → Option Text → Places → List Duplicate × Places
validate_operation path method none seen = ([], seen)
validate_operation path method (some i) seen = if is_nil i then ([], seen) else elim (get i seen) [
  | none ↦ ([], (i, place path method) ∷ seen)
  | some p ↦ (record { op_id = i; path = path; method = method; first_place = p } ∷ [], seen)
]

abbrev pub id_of : Option Operation → Option Text
id_of none = none
id_of (some o) = o.operation_id

unfoldable pub validate_methods :
    Text → List Text → List (Text × Member) → Places → List Duplicate × Places
unfolding validate_operation
validate_methods path [] members seen = ([], seen)
validate_methods path (m ∷ ms) members seen =
    let here = validate_operation path m (id_of (operation_at (get m members))) seen in
    let rest = validate_methods path ms members here.1 in (here.0 ++ rest.0, rest.1)

unfoldable pub validate_paths : List (Text × PathItem) → Places → List Duplicate
unfolding validate_methods
validate_paths [] seen = []
validate_paths ((path, not_item v) ∷ paths) seen = validate_paths paths seen
validate_paths ((path, item members) ∷ paths) seen =
    let here = validate_methods path http_methods members seen in
    here.0 ++ validate_paths paths here.1

abbrev pub validate_spec : Spec → List Duplicate
validate_spec spec = validate_paths spec.paths []

-- The script on a document that is read: the errors, or the document that is printed.
pub data ScriptEnd : Type 0 where
  failed : List Duplicate → ScriptEnd
  printed : Spec → ScriptEnd

unfoldable pub renamed : List Text → Spec → Spec
renamed noise_order spec = apply_transformed_ids spec (
    ensure_unique_ids max_id_length
      (transform_all_operations noise_order (extract_operations spec.paths)))

abbrev pub outcome_of : Spec → List Duplicate → ScriptEnd
outcome_of spec [] = printed spec
outcome_of spec (e ∷ es) = failed (e ∷ es)

unfoldable pub main : List Text → Spec → ScriptEnd
unfolding renamed
main noise_order spec =
    outcome_of (renamed noise_order spec) (validate_spec (renamed noise_order spec))
