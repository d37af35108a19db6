-- ===== src/RoleImport/Versions.antt =====
-- The versions of a role: normalize_versions and compute_all_versions of galaxy_ng/app/api/v1/tasks.py,
-- parse_version_tag and sort_versions of galaxy_ng/app/api/v1/utils.py.
use galaxy_ng.Prelude.{
  ℕ, ◌+◌, Text, codes, text_eq, lower, is_nil, Bool, true, false, not, ◌&&◌, List, [], ◌∷◌, ◌++◌,
  all, any, keep, map, Option, none, some, if◌then◌else◌,
}

pub data VersionId : Type 0 where
  number : ℕ → VersionId
  uuid : Text → VersionId

-- A version as a dictionary; a key that is missing is none. The other keys are kept together.
pub record Version : Type 0 where
  pub id : Option VersionId
  pub upstream_id : Option ℕ
  pub tag : Option Text
  pub name : Option Text
  pub version : Option Text
  pub other : Text

-- A tag of the repository: its name, and the date and the hash of its commit as one text.
pub record Tag : Type 0 where
  pub name : Text
  pub commit : Text

-- What libraries do. `fresh` gives the uuids of a run; `has_number` says that LooseVersion finds a
-- number in a text; `semantic` is the text of a semantic version, none for the ValueError; `sort`
-- sorts versions by the LooseVersion of the text beside each, none for a TypeError or AttributeError.
pub record VersionLibraries : Type 0 where
  pub fresh : ℕ → Text
  pub has_number : Text → Bool
  pub semantic : Text → Option Text
  pub sort : List (Text × Version) → Option (List Version)

abbrev pub is_filled : Option Text → Bool
is_filled none = false
is_filled (some t) = not (is_nil t)

abbrev pub first_text : Option Text → Option Text → Option Text
first_text a b = if is_filled a then a else b

-- Integer ids become uuids; the number counts the uuids of the run.
unfoldable pub with_uuids : VersionLibraries → ℕ → List Version → List Version
with_uuids lib n [] = []
with_uuids lib n (v ∷ vs) = elim v.id [
  | none ↦ v ∷ with_uuids lib n vs
  | some (uuid u) ↦ v ∷ with_uuids lib n vs
  | some (number i) ↦
      record v { id = some (uuid (lib.fresh n)); upstream_id = some i } ∷ with_uuids lib (n + 1) vs
]

-- The tag of a version; without a tag and a name the key version must be there.
abbrev pub with_tag : Version → Option Version
with_tag v =
    if is_filled v.tag
    then some v
    else if is_filled v.name
    then some (record v { tag = v.name })
    else elim v.version [ none ↦ none | some t ↦ some (record v { tag = some t }) ]

unfoldable pub with_tags : List Version → Option (List Version)
with_tags [] = some []
with_tags (v ∷ vs) = elim (with_tag v) [
  | none ↦ none
  | some w ↦ elim (with_tags vs) [ none ↦ none | some ws ↦ some (w ∷ ws) ]
]

abbrev pub tag_text : Option Text → Text
tag_text none = []
tag_text (some t) = t

abbrev pub is_versioned : VersionLibraries → Version → Bool
is_versioned lib v = is_filled v.tag && lib.has_number (lower (tag_text v.tag))

-- None is the KeyError. What `remove` takes out in the source are all versions that fail the test.
unfoldable pub normalize_versions : VersionLibraries → List Version → Option (List Version)
unfolding with_uuids with_tags
normalize_versions lib vs = elim (with_tags (with_uuids lib 0 vs)) [
  | none ↦ none
  | some ws ↦ some (keep (is_versioned lib) ws)
]

abbrev without_v : Text → Text
without_v [] = []
without_v (c ∷ s) = if text_eq (lower (c ∷ [])) (codes "v") then s else c ∷ s

unfoldable pub parse_version_tag : VersionLibraries → Text → Option Text
parse_version_tag lib value = if is_nil value then none else lib.semantic (without_v value)

abbrev pub or_unsorted : List Version → Option (List Version) → List Version
or_unsorted vs none = vs
or_unsorted vs (some sorted) = sorted

-- The text that a version is sorted by.
abbrev pub get_version_tag : Version → Text
get_version_tag v =
    if is_filled v.version then tag_text v.version else tag_text (first_text v.tag v.name)

abbrev pub keyed : Version → Text × Version
keyed v = (lower (get_version_tag v), v)

-- What cannot be sorted stays as it is.
unfoldable pub sort_versions : VersionLibraries → List Version → List Version
sort_versions lib vs = or_unsorted vs (lib.sort (map keyed vs))

-- The name that a version has among the tags.
abbrev pub version_name : Version → Text
version_name v = tag_text (first_text v.tag v.name)

abbrev pub in_tags : Text → List Text → Bool
in_tags t = any (λ u. text_eq u t)

abbrev pub new_version : VersionLibraries → ℕ → Text → Tag → Text → Version
new_version lib n now t v = record {
  id = some (uuid (lib.fresh n));
  upstream_id = none;
  tag = some t.name;
  name = none;
  version = some v;
  other = now ++ t.commit;
}

-- A tag without a semantic version, or with an entry, is passed over.
abbrev pub with_new :
    Option Text → Bool → (Text → Version) → List Version → List Version → List Version
with_new none known new rest more = rest
with_new (some v) true new rest more = rest
with_new (some v) false new rest more = new v ∷ more

-- The versions that tags add: those with a semantic version and no entry yet.
unfoldable pub new_versions : VersionLibraries → ℕ → Text → List Text → List Tag → List Version
new_versions lib n now current [] = []
new_versions lib n now current (t ∷ ts) =
    with_new (parse_version_tag lib t.name) (in_tags t.name current) (new_version lib n now t)
      (new_versions lib n now current ts) (new_versions lib (n + 1) now current ts)

abbrev pub tag_names : List Tag → List Text
tag_names = map (λ (t : Tag). t.name)

abbrev pub reconciled : VersionLibraries → Text → List Version → List Tag → List Version
reconciled lib now versions tags =
    keep (λ v. in_tags (version_name v) (tag_names tags))
      (versions ++ new_versions lib 0 now (map version_name versions) tags)

abbrev pub has_version : Version → Bool
has_version v = elim v.version [ none ↦ false | some t ↦ true ]

-- The line that is logged reads the key version of every version.
abbrev pub logged : Bool → List Version → Option (List Version)
logged true vs = some vs
logged false vs = none

abbrev pub completed :
    VersionLibraries → Text → List Tag → Option (List Version) → Option (List Version)
completed lib now tags none = none
completed lib now tags (some versions) =
    let sorted = sort_versions lib (reconciled lib now versions tags) in
    logged (all has_version sorted) sorted

-- None is the KeyError of the normalization, or of what is logged at the end.
unfoldable pub compute_all_versions :
    VersionLibraries → Text → List Version → List Tag → Option (List Version)
unfolding normalize_versions new_versions sort_versions
compute_all_versions lib now old tags = completed lib now tags (normalize_versions lib old)
