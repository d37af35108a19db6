-- ===== src/Settings/Dict.antt =====
-- galaxy_ng/app/models/config.py and galaxy_ng/app/tasks/settings_cache.py: the dictionary of the
-- latest values, and the cached copy of it.
use galaxy_ng.Prelude.{
  ℕ, ◌≤◌, All, ltb, Text, List, [], ◌∷◌, first, Option, none, some, if◌then◌else◌,
}
use galaxy_ng.Settings.Rows.{Row, Backend, same_key}

-- Versions that do not rise, and a bound on them.
abbrev AtMost : ℕ → List Row → Type 0
AtMost n = All (λ s. s.version ≤ n)

abbrev Ordered : List Row → Type 0
Ordered [] = Unit
Ordered (r ∷ rs) = AtMost r.version rs × Ordered rs

-- The newer of a row and what was found behind it.
abbrev newer : Row → Option Row → Option Row
newer r o = elim o [ none ↦ some r | some s ↦ if ltb r.version s.version then some s else some r ]

abbrev pub entry_of : Option Row → Option (Text × Text)
entry_of none = none
entry_of (some r) = some (r.key, r.value)

module _ (b : Backend) where
  -- The entry of a dictionary under a key, in any case.
  abbrev pub entry : Text → List (Text × Text) → Option (Text × Text)
  entry k = first (λ e. same_key b e.0 k)
