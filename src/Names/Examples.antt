-- ===== src/Names/Examples.antt =====
-- Names and uuids at concrete inputs.
use galaxy_ng.Prelude.{
  ℕ, ◌<◌, ◌≡◌, refl, Text, codes, Bool, true, false, not, ◌&&◌, List, [], ◌∷◌, all, some, arith,
}
use galaxy_ng.Names.Digits.{digit_code, digit_value, numeral, read}
use galaxy_ng.Names.Uuid.{uuid_to_int, int_to_uuid, padded, without_dashes, uuid_to_int-int_to_uuid}
use galaxy_ng.Names.Namespaces.{
  is_wanted, starts_with_letter, has_double, is_taken, IsDocumentedRegexp, map_v3_namespace,
  validate_namespace_name, generate_v3_namespace_from_attributes, transform_namespace_name,
  generate_available_namespace_name,
}
use galaxy_ng.Names.Available.{candidate, generate_available_namespace_name_lem}

names_code : Unit {0}
unfolding digit_code digit_value numeral read uuid_to_int int_to_uuid padded without_dashes
    map_v3_namespace transform_namespace_name validate_namespace_name
    generate_v3_namespace_from_attributes
names_code = tt

uuid_of_255 : int_to_uuid 255 ≡ codes "00000000-0000-0000-0000-0000000000ff"
unfolding names_code
uuid_of_255 = refl

upper_case_uuid : uuid_to_int (codes "00000000-0000-0000-0000-0000000000FF") ≡ some 255
unfolding names_code
upper_case_uuid = refl

abbrev regexp : Text → Bool
regexp name = starts_with_letter name && all is_wanted name && not (has_double name)

regexp-IsDocumentedRegexp : IsDocumentedRegexp regexp
regexp-IsDocumentedRegexp name = refl

-- A name that no rule makes valid: two dashes become two underscores.
two_dashes : generate_v3_namespace_from_attributes regexp (codes "Foo--Bar") ≡ codes "foo__bar"
unfolding names_code
two_dashes = refl

starts_with_number : map_v3_namespace (codes "1nan-Test") ≡ codes "gh_1nan_test"
unfolding names_code
starts_with_number = refl

uuid_to_int-int_to_uuid_example : uuid_to_int (int_to_uuid 255) ≡ some 255
uuid_to_int-int_to_uuid_example = uuid_to_int-int_to_uuid 255

abbrev two_names : List Text
two_names = codes "ann0" ∷ codes "bob" ∷ []

generate_available_namespace_name_lem_example :
    (k : ℕ) × (generate_available_namespace_name 3 two_names (codes "ann") 0
      ≡ some (candidate (codes "ann") k))
    × (is_taken two_names (candidate (codes "ann") k) ≡ false)
    × ((j : ℕ) → j < k → is_taken two_names (candidate (codes "ann") j) ≡ true)
generate_available_namespace_name_lem_example =
    generate_available_namespace_name_lem 3 two_names (codes "ann") (omega arith)
