-- ===== src/Startup/Storage.antt =====
-- galaxy_ng/app/dynaconf_hooks.py: the two settings that name the storage backend.
use galaxy_ng.Prelude.{
  ◌≡◌, refl, Text, codes, text_eq, text_eq_iff, text_eq_refl, is_nil, Bool, false, not, ◌&&◌, ◌||◌,
  [], ◌∷◌, Option, none, some, if◌then◌else◌, arith,
}
use galaxy_ng.Json.{Value, text, obj, Members, end, find_field, set_field}
use galaxy_ng.Startup.Model.{word, table}

unfoldable pub pulp_default : Text
pulp_default = codes "pulpcore.app.models.storage.FileSystem"

-- An empty text counts as none.
abbrev pub has_text : Option Text → Bool
has_text none = false
has_text (some t) = not (is_nil t)

abbrev pub effective : Option Text → Text
effective none = pulp_default
effective (some t) = if is_nil t then pulp_default else t

abbrev is_default : Option Text → Bool
is_default none = false
is_default (some t) = text_eq t pulp_default

abbrev both : Option Text → Option (Text × Text)
both none = none
both (some t) = some (t, t)

unfoldable pub resolve_storage_backend : Option Text → Option Text → Option (Text × Text)
resolve_storage_backend sb dfs =
    if not (has_text sb) && not (has_text dfs)
    then none
    else if text_eq (effective sb) (effective dfs)
    then none
    else if has_text dfs && (not (is_default dfs) && (not (has_text sb) || is_default sb))
    then both dfs
    else if has_text sb && (not (is_default sb) && (not (has_text dfs) || is_default dfs))
    then both sb
    else if has_text sb
    then both sb
    else both dfs

abbrev pub text_value : Option Value → Option Text
text_value (some (text t)) = some t
text_value _ = none

-- STORAGES and its parts are objects.
abbrev pub members_of : Option Value → Members
members_of (some (obj fs)) = fs
members_of _ = end

abbrev pub backend_of : Members → Option Text
backend_of storages =
    text_value (find_field (codes "BACKEND") (members_of (find_field (codes "default") storages)))

abbrev set_default : Text → Value → Members → Members
set_default k v fs = elim (find_field k fs) [ none ↦ set_field k v fs | some w ↦ fs ]

-- The backend is set; the other keys stay, and the static files get a storage if they had none.
unfoldable pub with_backend : Text → Members → Members
with_backend b storages =
    set_default (codes "staticfiles")
      (table (("BACKEND", word "django.contrib.staticfiles.storage.StaticFilesStorage") ∷ []))
      (set_field (codes "default")
        (obj (
          set_field (codes "BACKEND") (text b)
            (members_of (find_field (codes "default") storages))))
        storages)

-- The one that is not the default, and that of STORAGES if both are not.
abbrev pub preferred : Option Text → Option Text → Text
preferred sb dfs = if text_eq (effective sb) pulp_default then effective dfs else effective sb

-- The two settings for the storage are made equal exactly where they differ, an empty one counting
-- as the default: the one that is not the default counts, and that of STORAGES if neither is.
pub resolve_storage_backend_lem :
    (sb dfs : Option Text)
    → resolve_storage_backend sb dfs ≡ (
        if text_eq (effective sb) (effective dfs)
        then none
        else some (preferred sb dfs, preferred sb dfs))
unfolding resolve_storage_backend
resolve_storage_backend_lem none none = rw (text_eq_refl pulp_default) refl
resolve_storage_backend_lem none (some []) = rw (text_eq_refl pulp_default) refl
resolve_storage_backend_lem (some []) none = rw (text_eq_refl pulp_default) refl
resolve_storage_backend_lem (some []) (some []) = rw (text_eq_refl pulp_default) refl
resolve_storage_backend_lem none (some (c ∷ t)) = ground (
  arith,
  text_eq_refl pulp_default,
  text_eq_iff pulp_default (c ∷ t),
  text_eq_iff (c ∷ t) pulp_default,
)
resolve_storage_backend_lem (some []) (some (c ∷ t)) = ground (
  arith,
  text_eq_refl pulp_default,
  text_eq_iff pulp_default (c ∷ t),
  text_eq_iff (c ∷ t) pulp_default,
)
resolve_storage_backend_lem (some (c ∷ s)) none =
    ground (arith, text_eq_refl pulp_default, text_eq_iff (c ∷ s) pulp_default)
resolve_storage_backend_lem (some (c ∷ s)) (some []) =
    ground (arith, text_eq_refl pulp_default, text_eq_iff (c ∷ s) pulp_default)
resolve_storage_backend_lem (some (c ∷ s)) (some (d ∷ t)) = ground (
  arith,
  text_eq_iff (c ∷ s) pulp_default,
  text_eq_iff (d ∷ t) pulp_default,
  text_eq_iff (c ∷ s) (d ∷ t),
)
