-- ===== src/ApiSpec/Examples.antt =====
-- galaxy_ng/app/utils/apispec/id_fix.py: tests of the functions, and the theorems at concrete
-- documents.
use galaxy_ng.Prelude.{
  ◌≡◌, ◌≢◌, refl, Text, codes, true, false, [], ◌∷◌, All, some, lower, lower_code, arith,
}
use galaxy_ng.Names.Digits.{numeral, digit_code}
use galaxy_ng.ApiSpec.Paths.{
  normalize_path_segment, extract_version, has_ui_segment, has_pulp_segment, extract_feature_area,
  get_action_from_path, path_ends_with_id, extract_path_parameters, get_last_path_fragment,
  get_http_action_suffix, get_transfer_action_suffix, get_disambiguation_suffix,
}
use galaxy_ng.ApiSpec.Transform.{
  marker_parts, fallback, built_id, transform_operation_id, deprecated_prefix,
}
use galaxy_ng.ApiSpec.Unique.{
  Transformed, ids_of, disambiguated, disambiguate, number_id, number_methods, number_paths,
  ensure_unique_ids,
}
use galaxy_ng.ApiSpec.Document.{
  operation, other_value, item, not_item, Spec, extract_methods, extract_operations,
  transform_all_operations, apply_transformed_ids, validate_operation, validate_methods,
  validate_paths, renamed, main, printed,
}
use galaxy_ng.ApiSpec.Bounds.{IsShort, disambiguate-IsShort}
use galaxy_ng.ApiSpec.Distinct.{Distinct, Apart, number_paths-Distinct}
use galaxy_ng.ApiSpec.Words.{transform_operation_id_lem}
use galaxy_ng.ApiSpec.Validate.{spec_ids, main-Distinct}

abbrev index_path : Text
index_path = codes "/api/galaxy/pulp/v3/plugin/ansible/{path}/index/{name}/"

api_code : Unit {0}
unfolding normalize_path_segment extract_version has_ui_segment has_pulp_segment
    extract_feature_area get_action_from_path path_ends_with_id extract_path_parameters
    get_last_path_fragment get_http_action_suffix get_transfer_action_suffix
    get_disambiguation_suffix marker_parts fallback built_id transform_operation_id disambiguated
    disambiguate number_id number_methods number_paths ensure_unique_ids extract_methods
    extract_operations transform_all_operations apply_transformed_ids validate_operation
    validate_methods validate_paths renamed main lower lower_code numeral digit_code
api_code = tt

path_runs :
    (extract_path_parameters index_path ≡ codes "path" ∷ codes "name" ∷ [])
    × (get_last_path_fragment index_path ≡ codes "index")
    × (path_ends_with_id index_path ≡ true)
    × (extract_version index_path ≡ some (codes "v3"))
    × (extract_feature_area index_path ≡ codes "ansible" ∷ codes "index" ∷ [])
unfolding api_code
path_runs = (refl, refl, refl, refl, refl)

-- Parameters before the version shift the place where the feature area starts.
shifted_start : extract_feature_area (codes "/{a}/{b}/v3/x/y/") ≡ codes "y" ∷ []
unfolding api_code
shifted_start = refl

id_of_index :
    transform_operation_id [] index_path (codes "get") (codes "old") true
    ≡ codes "deprecated_pulp_v3_ansible_index_get"
unfolding api_code
id_of_index = refl

abbrev three_paths : Transformed
three_paths =
    (codes "/x/", (codes "get", codes "a") ∷ (codes "post", codes "a_2") ∷ [])
    ∷ (codes "/y/{id}/", (codes "get", codes "a") ∷ [])
    ∷ []

told_apart :
    ids_of (ensure_unique_ids 64 three_paths) ≡ codes "a_x" ∷ codes "a_2" ∷ codes "a_id" ∷ []
unfolding api_code
told_apart = refl

-- Where the length leaves no room for suffixes, the numbers give an id that is taken.
not_unique : ids_of (ensure_unique_ids 1 three_paths) ≡ codes "a" ∷ codes "a_2" ∷ codes "a_2" ∷ []
unfolding api_code
not_unique = refl

disambiguate-IsShort_example :
    All (IsShort 4) (ids_of (disambiguate 4 (codes "a" ∷ codes "a_2" ∷ codes "a" ∷ []) three_paths))
disambiguate-IsShort_example =
    disambiguate-IsShort 4 (codes "a" ∷ codes "a_2" ∷ codes "a" ∷ []) three_paths
      (omega arith, (omega arith, (omega arith, tt)))

abbrev twice : Transformed
twice = (codes "/x/", (codes "get", codes "a") ∷ (codes "post", codes "a") ∷ []) ∷ []

a-Apart : Apart (codes "a") (codes "a")
a-Apart n = (λ e. cc, λ e. cc)

number_paths-Distinct_example : Distinct (ids_of (number_paths [] twice))
number_paths-Distinct_example = number_paths-Distinct twice ((a-Apart, tt), (tt, tt))

transform_operation_id_lem_example :
    (transform_operation_id [] index_path (codes "get") (codes "old") true
      ≡ deprecated_prefix true (built_id index_path (codes "get") (codes "old")))
    × (transform_operation_id [] index_path (codes "get") (codes "old") true ≢ [])
transform_operation_id_lem_example =
    transform_operation_id_lem [] index_path (codes "get") (codes "old") true

abbrev small_spec : Spec
small_spec = record {
  paths =
      (
        codes "/api/v3/x/",
        item (
            (
              codes "get",
              operation
                  (record { operation_id = some (codes "i"); deprecated = false; other = [] }),
            )
            ∷ (codes "summary", other_value (codes "s"))
            ∷ (
              codes "post",
              operation (record { operation_id = some (codes "i"); deprecated = true; other = [] }),
            )
            ∷ []),
      )
      ∷ (codes "x-note", not_item (codes "n"))
      ∷ [];
  other = codes "3.0";
}

small_ids : spec_ids (renamed [] small_spec) ≡ codes "v3_x_get" ∷ codes "deprecated_v3_x_post" ∷ []
unfolding api_code
small_ids = refl

small_printed : main [] small_spec ≡ printed (renamed [] small_spec)
unfolding api_code
small_printed = refl

main-Distinct_example : Distinct (spec_ids (renamed [] small_spec))
main-Distinct_example = main-Distinct [] small_spec (renamed [] small_spec) small_printed
