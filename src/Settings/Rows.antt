-- ===== src/Settings/Rows.antt =====
-- galaxy_ng/app/models/config.py: the rows of the table `Setting` and the queries on them.
-- The newest row stands first. What dynaconf and the database do is the parameter `Backend`.
use galaxy_ng.Prelude.{
  ℕ, Text, text_eq, upper, codes, starts_with, Bool, not, leb, List, [], ◌∷◌, map, keep, Option,
  none, some, if◌then◌else◌, ltb, ◌≡◌,
}

pub record Row : Type 0 where
  pub key : Text
  pub value : Text
  pub user : Option ℕ
  pub version : ℕ
  pub is_secret : Bool

-- `upperfy` and the validators are dynaconf's. `fold` is the case folding by which the database
-- compares in `iexact` and in `Lower`.
pub record Backend : Type 0 where
  pub upperfy : Text → Text
  pub fold : Text → Text
  pub validates : List (Text × Text) → Text → Text → Bool

-- Documented behaviour: `upperfy` changes only the case of a key.
abbrev pub UpperfyKeepsKey : Backend → Type 0
UpperfyKeepsKey b = (k : Text) → b.fold (b.upperfy k) ≡ b.fold k

-- A plain queryset compares keys as they are.
abbrev pub exact_keys : Backend → Backend
exact_keys b = record b { fold = λ k. k }

module _ (b : Backend) where
  abbrev pub same_key : Text → Text → Bool
  same_key j k = text_eq (b.fold j) (b.fold k)

  -- `SettingsManager.filter(key=...)`, case insensitive.
  unfoldable pub filter_key : Text → List Row → List Row
  filter_key k = keep (λ r. same_key r.key k)

-- `latest("version")`; `none` stands for DoesNotExist.
unfoldable pub latest : List Row → Option Row
latest [] = none
latest (r ∷ rs) = elim (latest rs) [
  | none ↦ some r
  | some s ↦ if ltb r.version s.version then some s else some r
]

unfoldable pub insert_row : Row → List Row → List Row
insert_row r [] = r ∷ []
insert_row r (s ∷ ss) =
    let rest = insert_row r ss in if leb s.version r.version then r ∷ s ∷ ss else s ∷ rest

-- `order_by("-version")`
unfoldable pub order_by_version : List Row → List Row
unfolding insert_row
order_by_version [] = []
order_by_version (r ∷ rs) = insert_row r (order_by_version rs)

module _ (b : Backend) where
  unfoldable pub get_setting_from_db : Text → List Row → Option Row
  get_setting_from_db k rows = latest (filter_key b k rows)

  -- `distinct("key_lower")`: of each key the row that comes first.
  unfoldable pub distinct_on_key : List Row → List Row
  distinct_on_key [] = []
  distinct_on_key (r ∷ rs) = r ∷ keep (λ s. not (same_key b s.key r.key)) (distinct_on_key rs)

  -- The order of the keys is left open, since `as_dict` forgets it.
  unfoldable pub get_all : List Row → List Row
  unfolding distinct_on_key order_by_version
  get_all rows = distinct_on_key (order_by_version rows)

  unfoldable pub as_dict : List Row → List (Text × Text)
  as_dict rows = map (λ s. (s.key, s.value)) (get_all rows)

-- 'FOO__BAR' -> 'FOO'
abbrev first_level : Text → Text
first_level [] = []
first_level (c ∷ s) = if starts_with (codes "__") (c ∷ s) then [] else c ∷ first_level s

unfoldable pub base_key : Text → Text
unfolding upper
base_key k = upper (first_level k)

-- `_hook_validate`, 1: True and False are stored in lower case.
unfoldable pub stored_value : Text → Text
stored_value v =
    if text_eq v (codes "True")
    then codes "true"
    else if text_eq v (codes "False")
    then codes "false"
    else v
