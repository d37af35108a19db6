-- ===== src/ApiSpec/Paths.antt =====
-- galaxy_ng/app/utils/apispec/id_fix.py: what is read off a path.
use galaxy_ng.Prelude.{
  is_nil, contains, ℕ, zero, suc, ◌+◌, ◌==◌, Text, codes, lower, text_eq, Bool, false, not, ◌&&◌,
  ◌||◌, List, [], ◌∷◌, map, any, keep, drop, Option, none, some, starts_with, if◌then◌else◌,
}
use galaxy_ng.Hostname.Split.{split_on, rstrip, strip_of}
use galaxy_ng.ApiSpec.Texts.{
  pieces, literals, parameters, is_parameter, digits, after_digits, is_underscore, dashes_replaced,
  join, last, reversed,
}

abbrev pub noise_words : List Text
noise_words =
    codes "api" ∷ codes "galaxy" ∷ codes "plugin" ∷ codes "pulp_ansible" ∷ codes "default" ∷ []

abbrev pub among : List Text → Text → Bool
among ws w = any (text_eq w) ws

-- The test `s.lower() not in NOISE_WORDS`.
abbrev pub is_meaningful : Text → Bool
is_meaningful w = not (among noise_words (lower w))

unfoldable pub normalize_path_segment : Text → Text
normalize_path_segment s = strip_of is_underscore (dashes_replaced (literals (pieces s)))

-- `re.search(r"/(v\d+)/", path)`
abbrev version_here : Text → Option Text
version_here (a ∷ v ∷ s) =
    if a == b'/' && v == b'v' && not (is_nil (digits s)) && starts_with (codes "/") (after_digits s)
    then some (v ∷ digits s)
    else none
version_here _ = none

unfoldable pub extract_version : Text → Option Text
extract_version [] = none
extract_version (c ∷ s) =
    let later = extract_version s in elim (version_here (c ∷ s)) [ none ↦ later | some v ↦ some v ]

unfoldable pub has_ui_segment : Text → Bool
has_ui_segment path =
    contains (codes "/_ui/") path || contains (codes "_ui_") path || contains (codes "/_ui_") path

unfoldable pub has_pulp_segment : Text → Bool
has_pulp_segment path = contains (codes "/pulp/") path || starts_with (codes "pulp/") path

abbrev pub nonempty : List Text → List Text
nonempty = keep (λ s. not (is_nil s))

-- `re.match(r"v\d+$", seg)`: the dollar also matches before a last line end.
abbrev is_version : Text → Bool
is_version [] = false
is_version (v ∷ s) =
    v == b'v'
    && not (is_nil (digits s))
    && (is_nil (after_digits s) || text_eq (after_digits s) (10 ∷ []))

abbrev is_marker : Text → Bool
is_marker s = is_version s || text_eq s (codes "plugin") || text_eq s (codes "_ui")

-- The loop that finds the start behind the last marker; `i` is the place of the first segment.
abbrev pub start_index : ℕ → ℕ → List Text → ℕ
start_index start i [] = start
start_index start i (s ∷ ss) = start_index (if is_marker s then i + 1 else start) (i + 1) ss

abbrev pub get_elem? {ℓ} : {A : Type ℓ} → List A → ℕ → Option A
get_elem? [] i = none
get_elem? (x ∷ xs) zero = some x
get_elem? (x ∷ xs) (suc i) = get_elem? xs i

abbrev pub meaningful_word : Option Text → Option Text
meaningful_word none = none
meaningful_word (some w) = if not (is_nil w) && is_meaningful w then some w else none

-- `for i in range(start - 1, -1, -1)`
abbrev pub last_meaningful : ℕ → List Text → Option Text
last_meaningful zero ws = none
last_meaningful (suc i) ws =
    let earlier = last_meaningful i ws in
    elim (meaningful_word (get_elem? ws i)) [ none ↦ earlier | some w ↦ some w ]

abbrev pub or_fallback : ℕ → List Text → List Text → List Text
or_fallback start ws (f ∷ fs) = f ∷ fs
or_fallback start ws [] = elim (last_meaningful start ws) [
  | none ↦ codes "root" ∷ []
  | some w ↦ w ∷ []
]

-- The start is counted on all segments, and used on those that are not empty after normalization.
unfoldable pub extract_feature_area : Text → List Text
extract_feature_area path =
    let segments = nonempty (split_on b'/' path) in
    let normalized = nonempty (map normalize_path_segment segments) in
    let start = start_index 0 0 segments in
    or_fallback start normalized (keep is_meaningful (drop start normalized))

abbrev pub path_actions : List Text
path_actions =
    codes "sync"
    ∷ codes "sign"
    ∷ codes "download"
    ∷ codes "upload"
    ∷ codes "rebuild"
    ∷ codes "curate"
    ∷ codes "index"
    ∷ codes "avatar"
    ∷ []

-- `[s for s in path.rstrip("/").split("/") if s]`
abbrev pub path_segments : Text → List Text
path_segments path = nonempty (split_on b'/' (rstrip (λ c. c == b'/') path))

abbrev action_word : Text → Text
action_word s = strip_of is_underscore (literals (pieces (dashes_replaced (lower s))))

unfoldable pub get_action_from_path : Text → Option Text
get_action_from_path path = elim (last (path_segments path)) [
  | none ↦ none
  | some s ↦ if among path_actions (action_word s) then some (action_word s) else none
]

unfoldable pub path_ends_with_id : Text → Bool
path_ends_with_id path = elim (last (path_segments path)) [
  | none ↦ false
  | some s ↦ is_parameter (pieces s)
]

unfoldable pub extract_path_parameters : Text → List Text
extract_path_parameters path = parameters (pieces path)

abbrev first_fragment : List Text → Text
first_fragment [] = []
first_fragment (s ∷ ss) =
    let earlier = first_fragment ss in
    if is_parameter (pieces s) then earlier else lower (dashes_replaced s)

unfoldable pub get_last_path_fragment : Text → Text
get_last_path_fragment path = first_fragment (reversed (path_segments path))

unfoldable pub get_http_action_suffix : Text → Text → Text
get_http_action_suffix method path = elim (get_action_from_path path) [ none ↦ method | some a ↦ a ]

unfoldable pub get_transfer_action_suffix : Text → Text → Option Text
get_transfer_action_suffix path current_id =
    if contains (codes "upload") (lower path) || contains (codes "upload") (lower current_id)
    then some (codes "upload")
    else if contains (codes "download") (lower path)
        || contains (codes "download") (lower current_id)
    then some (codes "download")
    else none

unfoldable pub get_disambiguation_suffix : Text → Text
unfolding extract_path_parameters
get_disambiguation_suffix path = elim (extract_path_parameters path) [
  | [] ↦ get_last_path_fragment path
  | p ∷ ps ↦ join (map (λ q. lower (dashes_replaced q)) (p ∷ ps))
]
