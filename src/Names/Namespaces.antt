-- ===== src/Names/Namespaces.antt =====
-- galaxy_ng/app/utils/namespaces.py. The table of namespaces is a list of their names, and
-- NAME_REGEXP of galaxy_importer is the parameter `name_regexp`.
use galaxy_ng.Prelude.{
  ℕ, zero, suc, ◌≤◌, ◌≡◌, refl, sym, ap, ◌∙◌, Text, codes, text_eq, lower, starts_with, ltb, leb,
  ◌==◌, Bool, true, false, not, ◌&&◌, ◌||◌, List, [], ◌∷◌, ◌++◌, map, any, all, keep, length,
  Option, none, some, if◌then◌else◌, Bool-cases, inl, inr, arith,
}
use galaxy_ng.Names.Digits.{str}

abbrev underscored : ℕ → ℕ
underscored c = if c == b'-' then b'_' else c

unfoldable pub transform_namespace_name : Text → Text
unfolding lower
transform_namespace_name name = lower (map underscored name)

abbrev pub is_letter : ℕ → Bool
is_letter c = leb b'a' c && leb c b'z'

abbrev pub is_number : ℕ → Bool
is_number c = leb b'0' c && leb c b'9'

-- `[a-z0-9_]`
abbrev pub is_wanted : ℕ → Bool
is_wanted c = is_letter c || is_number c || c == b'_'

abbrev pub lstrip_underscores : Text → Text
lstrip_underscores [] = []
lstrip_underscores (c ∷ s) = if c == b'_' then lstrip_underscores s else c ∷ s

abbrev no_start : Text → Bool
no_start [] = false
no_start (c ∷ s) = is_number c || c == b'_'

abbrev prefixed : Text → Text
prefixed name =
    if no_start name || leb (length name) 2 then codes "gh_" ++ lstrip_underscores name else name

unfoldable pub map_v3_namespace : Text → Text
unfolding lower
map_v3_namespace v1_namespace = prefixed (keep is_wanted (map underscored (lower v1_namespace)))

module _ (name_regexp : Text → Bool) where
  unfoldable pub validate_namespace_name : Text → Bool
  validate_namespace_name name =
      name_regexp name && not (ltb (length name) 2) && not (starts_with (codes "_") name)

  unfoldable pub generate_v3_namespace_from_attributes : Text → Text
  generate_v3_namespace_from_attributes username =
      if validate_namespace_name username
      then username
      else if validate_namespace_name (transform_namespace_name username)
      then transform_namespace_name username
      else map_v3_namespace username

abbrev pub is_taken : List Text → Text → Bool
is_taken table name = any (λ n. text_eq n name) table

-- The loop from a counter on; `none` is the end of the fuel.
unfoldable pub generate_available_namespace_name : ℕ → List Text → Text → ℕ → Option Text
generate_available_namespace_name zero table login counter = none
generate_available_namespace_name (suc fuel) table login counter =
    let again = generate_available_namespace_name fuel table login (suc counter) in
    let name = transform_namespace_name login ++ str counter in
    if is_taken table name then again else some name

abbrev pub starts_with_letter : Text → Bool
starts_with_letter [] = false
starts_with_letter (c ∷ s) = is_letter c

-- Two underscores in a row.
abbrev pub has_double : Text → Bool
has_double [] = false
has_double (c ∷ s) = starts_with (codes "__") (c ∷ s) || has_double s

-- The regular expression as the source quotes it: letters, numbers and underscores, a letter first,
-- and no two underscores in a row.
abbrev pub IsDocumentedRegexp : (Text → Bool) → Type 0
IsDocumentedRegexp name_regexp =
    (name : Text)
    → name_regexp name ≡ (starts_with_letter name && all is_wanted name && not (has_double name))

all-keep : (s : Text) → all is_wanted (keep is_wanted s) ≡ true
all-keep [] = refl
all-keep (c ∷ s) = elim (Bool-cases (is_wanted c)) [
  | inl e ↦ rw (e, e) (all-keep s)
  | inr e ↦ rw e (all-keep s)
]

all-lstrip : (s : Text) → all is_wanted s ≡ true → all is_wanted (lstrip_underscores s) ≡ true
all-lstrip [] h = refl
all-lstrip (c ∷ s) h = ground (arith, all-lstrip s)

-- What `map_v3_namespace` gives: letters, numbers and underscores, a letter first, at least three.
abbrev pub IsMapped : Text → Type 0
IsMapped name = (all is_wanted name ≡ true) × (starts_with_letter name ≡ true) × (3 ≤ length name)

prefixed-IsMapped : (s : Text) → all is_wanted s ≡ true → IsMapped (prefixed s)
prefixed-IsMapped [] h = (refl, refl, omega arith)
prefixed-IsMapped (c ∷ s) h = elim (Bool-cases (no_start (c ∷ s) || leb (length (c ∷ s)) 2)) [
  | inl e ↦ rw e (all-lstrip (c ∷ s) h, refl, omega arith)
  | inr e ↦ rw e (h, ground arith, ground arith)
]

-- Whatever the name of a v1 namespace is, the name that it is mapped to holds only lower case
-- letters, numbers and underscores, starts with a letter, and has at least three characters.
pub map_v3_namespace-IsMapped : (name : Text) → IsMapped (map_v3_namespace name)
unfolding map_v3_namespace
map_v3_namespace-IsMapped name =
    prefixed-IsMapped (keep is_wanted (map underscored (lower name)))
      (all-keep (map underscored (lower name)))

module _ (name_regexp : Text → Bool) (documented : IsDocumentedRegexp name_regexp) where
  -- Names that start with a letter do not start with an underscore.
  letter_no_underscore :
      (name : Text) → starts_with_letter name ≡ true → starts_with (codes "_") name ≡ false
  letter_no_underscore [] h = refl
  letter_no_underscore (c ∷ s) h = ground arith

  valid_mapped :
      (name : Text)
      → IsMapped name
      → validate_namespace_name name_regexp name ≡ not (has_double name)
  unfolding validate_namespace_name
  valid_mapped name (wanted, letter, long) =
      ground (arith, documented name, letter_no_underscore name letter)

  valid_no_double :
      (name : Text) → validate_namespace_name name_regexp name ≡ true → has_double name ≡ false
  unfolding validate_namespace_name
  valid_no_double name h = ground (arith, documented name)

  -- The name that a user's namespace gets is a valid one exactly if it holds no two underscores in
  -- a row, for a regular expression as the source quotes it.
  pub validate-generate :
      (username : Text)
      → validate_namespace_name name_regexp
          (generate_v3_namespace_from_attributes name_regexp username)
        ≡ not (has_double (generate_v3_namespace_from_attributes name_regexp username))
  unfolding generate_v3_namespace_from_attributes
  validate-generate username = elim (Bool-cases (validate_namespace_name name_regexp username)) [
    | inl e ↦ rw e (e ∙ sym (ap not (valid_no_double username e)))
    | inr e ↦
        elim (Bool-cases
          (validate_namespace_name name_regexp (transform_namespace_name username))) [
            | inl e' ↦
                rw (e, e')
                  (e' ∙ sym (ap not (valid_no_double (transform_namespace_name username) e')))
            | inr e' ↦
                rw (e, e')
                  (valid_mapped (map_v3_namespace username) (map_v3_namespace-IsMapped username))
          ]
  ]
