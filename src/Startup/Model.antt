-- ===== src/Startup/Model.antt =====
-- galaxy_ng/app/dynaconf_hooks.py: the settings, and the dictionary that the hook adds to them. Texts
-- are lists of code points where the code reads their characters, and native texts where they are
-- only compared.
use galaxy_ng.Prelude.{
  ◌≡◌, refl, arith, str_eq_iff, codes, String, str_eq, Bool, List, [], ◌∷◌, any, Option, none, some,
  if◌then◌else◌,
}
use galaxy_ng.Json.{Value, null, text, arr, obj, Items, nil, cons, Members, end, field}

-- Settings are read by name. `name_list` reads those that are lists of names of classes, backends
-- or applications, and `value_of` all others; what is not set is none. `presets` is the get of
-- AUTHENTICATION_BACKEND_PRESETS_DATA.
pub record Settings : Type 0 where
  pub value_of : String → Option Value
  pub name_list : String → Option (List String)
  pub presets : Value → Option (List String)

-- What the hook sets: a document, a list of names, or an object of a library.
pub data Entry : Type 0 where
  value : Value → Entry
  names : List String → Entry
  made : String → List Value → Entry

abbrev pub Data : Type 0
Data = List (String × Entry)

abbrev pub entry_at : String → Data → Option Entry
entry_at k [] = none
entry_at k ((j, e) ∷ d) = let rest = entry_at k d in if str_eq j k then some e else rest

-- `data[k] = e`
abbrev pub set : String → Entry → Data → Data
set k e [] = (k, e) ∷ []
set k e ((j, f) ∷ d) = let rest = set k e d in if str_eq j k then (j, e) ∷ d else (j, f) ∷ rest

-- `data.update(more)`
abbrev pub update : Data → Data → Data
update d [] = d
update d ((k, e) ∷ more) = update (set k e d) more

abbrev pub or_value : Value → Option Value → Value
or_value d none = d
or_value d (some v) = v

-- `settings.get(k, default=d)`
abbrev pub setting_or : Settings → String → Value → Value
setting_or s k d = or_value d (s.value_of k)

abbrev pub setting_of : Settings → String → Value
setting_of s k = setting_or s k null

abbrev pub or_names : Option (List String) → List String → List String
or_names none d = d
or_names (some l) d = l

abbrev pub names_or : Settings → String → List String → List String
names_or s k d = or_names (s.name_list k) d

-- The list of names under a key of the dictionary.
abbrev pub listed : Option Entry → Option (List String)
listed (some (names l)) = some l
listed _ = none

abbrev pub mem : String → List String → Bool
mem x = any (λ y. str_eq y x)

-- The text of a value in an f-string.
abbrev pub word : String → Value
word s = text (codes s)

abbrev pub words : List String → Items
words [] = nil
words (s ∷ ss) = cons (word s) (words ss)

abbrev pub list : List String → Value
list ss = arr (words ss)

abbrev pub dict : List (String × Value) → Members
dict [] = end
dict ((k, v) ∷ m) = field (codes k) v (dict m)

abbrev pub table : List (String × Value) → Value
table m = obj (dict m)

pub entry_at-set :
    (k j : String) (e : Entry) (d : Data)
    → entry_at k (set j e d) ≡ (if str_eq j k then some e else entry_at k d)
entry_at-set k j e [] = refl
entry_at-set k j e ((i, f) ∷ d) =
    ground (arith, str_eq_iff j k, str_eq_iff i j, str_eq_iff i k, entry_at-set k j e d)
