-- ===== src/ApiSpec/Unique.antt =====
-- galaxy_ng/app/utils/apispec/id_fix.py: ensure_unique_ids. Ids are kept as the source keeps them,
-- for each path a list of methods with their ids, in the order of the dictionaries.
use galaxy_ng.Prelude.{
  is_nil, ℕ, ◌+◌, ◌-◌, Text, text_eq, leb, ltb, List, [], ◌∷◌, ◌++◌, length, take, keep, map,
  Option, none, some, if◌then◌else◌,
}
use galaxy_ng.Names.Digits.{str}
use galaxy_ng.ApiSpec.Paths.{get_disambiguation_suffix}

-- A method with its id.
abbrev pub Named : Type 0
Named = Text × Text

abbrev pub Transformed : Type 0
Transformed = List (Text × List Named)

abbrev pub names_of : List Named → List Text
names_of [] = []
names_of ((method, op_id) ∷ ms) = op_id ∷ names_of ms

abbrev pub ids_of : Transformed → List Text
ids_of [] = []
ids_of ((path, methods) ∷ rest) = names_of methods ++ ids_of rest

-- How many places of `id_locations` an id has.
abbrev pub occurrences : Text → List Text → ℕ
occurrences op_id ids = length (keep (text_eq op_id) ids)

abbrev pub suffixed : ℕ → Text → Text → Text
suffixed max_length op_id suffix =
    if leb (length (op_id ++ b'_' ∷ suffix)) max_length
    then op_id ++ b'_' ∷ suffix
    else if ltb 0 (max_length - length op_id - 1)
    then op_id ++ b'_' ∷ take (max_length - length op_id - 1) suffix
    else op_id

-- The id of one operation after the first step.
unfoldable pub disambiguated : ℕ → List Text → Text → Text → Text
disambiguated max_length ids path op_id =
    if ltb 1 (occurrences op_id ids)
    then (if is_nil (get_disambiguation_suffix path)
        then op_id
        else suffixed max_length op_id (get_disambiguation_suffix path))
    else op_id

abbrev pub disambiguate_methods : ℕ → List Text → Text → List Named → List Named
disambiguate_methods max_length ids path = map (λ m. (m.0, disambiguated max_length ids path m.1))

unfoldable pub disambiguate : ℕ → List Text → Transformed → Transformed
disambiguate max_length ids = map (λ e. (e.0, disambiguate_methods max_length ids e.0 e.1))

-- The dictionary `seen`.
abbrev pub Seen : Type 0
Seen = List (Text × ℕ)

abbrev pub seen_count : Text → Seen → Option ℕ
seen_count k [] = none
seen_count k ((j, n) ∷ seen) = if text_eq j k then some n else seen_count k seen

abbrev pub set_seen : Text → ℕ → Seen → Seen
set_seen k n [] = (k, n) ∷ []
set_seen k n ((j, m) ∷ seen) = if text_eq j k then (j, n) ∷ seen else (j, m) ∷ set_seen k n seen

-- One round of the second loop: the id that is given and the dictionary after it.
unfoldable pub number_id : Seen → Text → Text × Seen
number_id seen op_id = elim (seen_count op_id seen) [
  | none ↦ (op_id, set_seen op_id 1 seen)
  | some n ↦ (op_id ++ b'_' ∷ str (n + 1), set_seen op_id (n + 1) seen)
]

unfoldable pub number_methods : Seen → List Named → List Named × Seen
unfolding number_id
number_methods seen [] = ([], seen)
number_methods seen ((method, op_id) ∷ ms) =
    let given = number_id seen op_id in
    let rest = number_methods given.1 ms in ((method, given.0) ∷ rest.0, rest.1)

unfoldable pub number_paths : Seen → Transformed → Transformed
unfolding number_methods
number_paths seen [] = []
number_paths seen ((path, methods) ∷ rest) =
    let named = number_methods seen methods in (path, named.0) ∷ number_paths named.1 rest

abbrev pub max_id_length : ℕ
max_id_length = 64

unfoldable pub ensure_unique_ids : ℕ → Transformed → Transformed
unfolding disambiguate number_paths
ensure_unique_ids max_length transformed =
    number_paths [] (disambiguate max_length (ids_of transformed) transformed)
