-- ===== src/Startup/Paths.antt =====
-- galaxy_ng/app/dynaconf_hooks.py: the functions for CORS, paths, passwords and renderers.
use galaxy_ng.Prelude.{
  ℕ, zero, suc, ◌==◌, Text, codes, ends_with, starts_with, Bool, true, false, not, ◌&&◌, ◌||◌, [],
  ◌∷◌, ◌++◌, length, drop, Option, none, some, if◌then◌else◌,
}
use galaxy_ng.Hostname.Split.{strip_of}
use galaxy_ng.Json.{
  Value, flag, num, text, arr, obj, Items, nil, cons, Members, find_field, set_field, is_true,
}
use galaxy_ng.Startup.Model.{Settings, value, names, Data, setting_of, setting_or, names_or, word}
use galaxy_ng.Startup.Logging.{Env}

-- In a development environment only.
unfoldable pub configure_cors : Env → Settings → Data
configure_cors env s = elim (env "DEV_SOURCE_PATH") [
  | none ↦ []
  | some path ↦
      if is_true (setting_or s "GALAXY_ENABLE_CORS" (flag false))
      then (
        "MIDDLEWARE",
        names ("galaxy_ng.app.common.openapi.AllowCorsMiddleware" ∷ names_or s "MIDDLEWARE" []),
      )
        ∷ []
      else []
]

unfoldable pub configure_pulp_ansible : Settings → Data
configure_pulp_ansible s =
    ("ANSIBLE_URL_NAMESPACE", value (word "galaxy:api:v3:"))
    ∷ (
      "ANSIBLE_DEFAULT_DISTRIBUTION_PATH",
      value (setting_or s "GALAXY_API_DEFAULT_DISTRIBUTION_BASE_PATH" (word "published")),
    )
    ∷ []

-- `int(v)` of a number or a flag. Texts of digits are left out.
abbrev whole_number : Value → Option ℕ
whole_number (num n) = some n
whole_number (flag b) = some (if b then 1 else 0)
whole_number v = none

abbrev set_option : ℕ → Members → Option Value → Option Value
set_option n fs (some (obj options)) =
    some
      (obj (set_field (codes "OPTIONS") (obj (set_field (codes "min_length") (num n) options)) fs))
set_option n fs _ = none

abbrev set_named : ℕ → Members → Option Value → Option Value
set_named n fs (some (text t)) =
    if ends_with (codes "MinimumLengthValidator") t
    then set_option n fs (find_field (codes "OPTIONS") fs)
    else some (obj fs)
set_named n fs _ = none

-- One validator; none is the exception where a key is missing or holds something else.
unfoldable pub set_min_length : ℕ → Value → Option Value
set_min_length n (obj fs) = set_named n fs (find_field (codes "NAME") fs)
set_min_length n v = none

unfoldable pub set_min_lengths : ℕ → Items → Option Items
unfolding set_min_length
set_min_lengths n nil = some nil
set_min_lengths n (cons v vs) = elim (set_min_length n v) [
  | none ↦ none
  | some w ↦ elim (set_min_lengths n vs) [ none ↦ none | some ws ↦ some (cons w ws) ]
]

abbrev validators_of : ℕ → Option Value → Option Data
validators_of n (some (arr vs)) = elim (set_min_lengths n vs) [
  | none ↦ none
  | some ws ↦ some (("AUTH_PASSWORD_VALIDATORS", value (arr ws)) ∷ [])
]
validators_of n _ = none

unfoldable pub configure_password_validators : Settings → Option Data
unfolding set_min_lengths
configure_password_validators s =
    elim (whole_number (setting_or s "GALAXY_MINIMUM_PASSWORD_LENGTH" (num 9))) [
      | none ↦ none
      | some n ↦ validators_of n (s.value_of "AUTH_PASSWORD_VALIDATORS")
    ]

-- Without a prefix the strip of None is an AttributeError, here none.
unfoldable pub configure_api_base_path : Settings → Option Data
configure_api_base_path s = elim (s.value_of "GALAXY_API_PATH_PREFIX") [
  | some (text t) ↦
      some (("API_ROOT", value (text (b'/' ∷ strip_of (λ c. c == b'/') t ++ codes "/pulp/"))) ∷ [])
  | some _ ↦ none
  | none ↦ none
]

-- `(-dev|-stage)*`: whatever it takes, what follows starts with no minus sign of either word.
abbrev after_stages : ℕ → Text → Text
after_stages zero s = s
after_stages (suc fuel) s =
    let after_dev = after_stages fuel (drop 4 s) in
    let after_stage = after_stages fuel (drop 6 s) in
    if starts_with (codes "-dev") s
    then after_dev
    else if starts_with (codes "-stage") s
    then after_stage
    else s

-- `.word`, where the dot is any character but a line end.
abbrev after_any : Text → Text → Option Text
after_any w [] = none
after_any w (c ∷ s) = if not (c == 10) && starts_with w s then some (drop (length w) s) else none

abbrev is_domain : Text → Bool
is_domain s = elim (after_any (codes "ansible") s) [
  | none ↦ false
  | some r ↦ elim (after_any (codes "com") r) [ none ↦ false | some t ↦ true ]
]

-- `re.search(r'galaxy(-dev|-stage)*.ansible.com', s)`; each word takes a character, so the length
-- of the text is enough fuel.
abbrev is_community_host : Text → Bool
is_community_host [] = false
is_community_host (c ∷ s) =
    (starts_with (codes "galaxy") (c ∷ s) && is_domain (after_stages (length s) (drop 6 (c ∷ s))))
    || is_community_host s

-- The setting_of, or an empty text: it is a text where it is true.
abbrev origin_text : Value → Text
origin_text (text t) = t
origin_text v = []

unfoldable pub configure_renderers : Settings → Data
configure_renderers s =
    if is_community_host (origin_text (setting_of s "CONTENT_ORIGIN"))
    then (
      "REST_FRAMEWORK__DEFAULT_RENDERER_CLASSES",
      names (
          names_or s "REST_FRAMEWORK__DEFAULT_RENDERER_CLASSES" []
          ++ "galaxy_ng.app.renderers.CustomBrowsableAPIRenderer" ∷ []),
    )
      ∷ []
    else []

unfoldable pub configure_legacy_roles : Settings → Data
configure_legacy_roles s =
    (
      "GALAXY_FEATURE_FLAGS__legacy_roles",
      value (setting_or s "GALAXY_ENABLE_LEGACY_ROLES" (flag false)),
    )
    ∷ []
