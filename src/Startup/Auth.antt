-- ===== src/Startup/Auth.antt =====
-- galaxy_ng/app/dynaconf_hooks.py: the classes and backends of authentication.
use galaxy_ng.Prelude.{
  ◌≡◌, refl, inl, inr, Bool-cases, ℕ, String, str_eq, ltb, Bool, true, false, not, ◌&&◌, List, [],
  ◌∷◌, ◌++◌, length, keep, Option, none, some, if◌then◌else◌,
}
use galaxy_ng.Json.{flag, is_true}
use galaxy_ng.Startup.Model.{
  Settings, Entry, value, names, Data, entry_at, set, setting_of, or_names, names_or, listed, mem,
}

abbrev pub session_class : String
session_class = "galaxy_ng.app.auth.session.SessionAuthentication"

abbrev pub insert_missing : String → List String → List String
insert_missing c l = if mem c l then l else c ∷ l

-- `l.remove(x)`: the first one goes.
abbrev pub remove_first : String → List String → List String
remove_first x [] = []
remove_first x (y ∷ l) = let rest = remove_first x l in if str_eq y x then l else y ∷ rest

-- The class of sessions comes first, unless the list is empty.
unfoldable pub session_first : List String → List String
session_first [] = []
session_first (c ∷ l) =
    if str_eq c session_class then c ∷ l else session_class ∷ remove_first session_class (c ∷ l)

abbrev pub keycloak_class : String
keycloak_class = "galaxy_ng.app.auth.keycloak.KeycloakBasicAuth"

abbrev pub with_keycloak : Bool → List String → List String
with_keycloak false l = l
with_keycloak true l =
    insert_missing keycloak_class
      (insert_missing "galaxy_ng.app.auth.token_auth.ExpiringTokenAuthentication" l)

-- The value True, and no other one.
abbrev pub is_flag : Option Entry → Bool
is_flag (some (value (flag b))) = b
is_flag _ = false

abbrev pub classes_of : Settings → Option Entry → List String
classes_of s none = names_or s "GALAXY_AUTHENTICATION_CLASSES" []
classes_of s (some e) = or_names (listed (some e)) []

abbrev pub set_classes : List String → Data → Data
set_classes l d = set "REST_FRAMEWORK__DEFAULT_AUTHENTICATION_CLASSES" (names l) (
    set "GALAXY_AUTHENTICATION_CLASSES" (names l)
      (set "ANSIBLE_AUTHENTICATION_CLASSES" (names l) d))

abbrev pub set_unless_empty : List String → Data → Data
set_unless_empty [] d = d
set_unless_empty (c ∷ l) d = set_classes (c ∷ l) d

unfoldable pub configure_authentication_classes : Settings → Data → Data
unfolding session_first
configure_authentication_classes s d =
    let classes = classes_of s (entry_at "GALAXY_AUTHENTICATION_CLASSES" d) in
    let keycloak = is_flag (entry_at "GALAXY_AUTH_KEYCLOAK_ENABLED" d) in
    set_unless_empty (session_first (with_keycloak keycloak classes)) d

-- `l.extend([x for x in more if x not in l])`
abbrev pub extend_missing : List String → List String → List String
extend_missing l more = l ++ keep (λ x. not (mem x l)) more

abbrev pub extend_some : List String → Option (List String) → List String
extend_some l none = l
extend_some l (some more) = extend_missing l more

abbrev pub append_missing : String → List String → List String
append_missing x l = if mem x l then l else l ++ x ∷ []

abbrev pub count : String → List String → ℕ
count x l = length (keep (λ y. str_eq y x) l)

abbrev pub merge_mark : String
merge_mark = "dynaconf_merge"

abbrev pub merge_once : List String → List String
merge_once l =
    if ltb 1 (count merge_mark l)
    then keep (λ x. not (str_eq x merge_mark)) l ++ merge_mark ∷ []
    else l

abbrev pub prefix_backend : String
prefix_backend = "ansible_base.lib.backends.prefixed_user_auth.PrefixedUserAuthBackend"

-- The list before its marks are merged.
unfoldable pub gathered_backends : Settings → Data → List String
gathered_backends s d = append_missing prefix_backend (
    extend_some
      (extend_some (names_or s "AUTHENTICATION_BACKENDS" [])
        (listed (entry_at "AUTHENTICATION_BACKENDS" d)))
      (s.presets (setting_of s "AUTHENTICATION_BACKEND_PRESET")))

unfoldable pub configure_authentication_backends : Settings → Data → Data
unfolding gathered_backends
configure_authentication_backends s d =
    let backends = merge_once (gathered_backends s d) in
    if ltb 0 (length backends) then set "AUTHENTICATION_BACKENDS" (names backends) d else d

abbrev github_classes : List String
github_classes =
    session_class ∷ "rest_framework.authentication.TokenAuthentication"
    ∷ "rest_framework.authentication.BasicAuthentication" ∷ []

abbrev pub redirect_step : String
redirect_step =
    "ansible_base.resource_registry.utils.service_backed_sso_pipeline.redirect_to_resource_server"

abbrev github_pipeline : List String
github_pipeline =
    "social_core.pipeline.social_auth.social_details"
    ∷ "social_core.pipeline.social_auth.social_uid"
    ∷ "social_core.pipeline.social_auth.auth_allowed"
    ∷ "social_core.pipeline.social_auth.social_user" ∷ "galaxy_ng.social.pipeline.user.get_username"
    ∷ "galaxy_ng.social.pipeline.user.create_user"
    ∷ "social_core.pipeline.social_auth.associate_user"
    ∷ "social_core.pipeline.social_auth.load_extra_data" ∷ "social_core.pipeline.user.user_details"
    ∷ redirect_step ∷ []

-- The three lists of backends are one object.
abbrev github_data : List String → Data
github_data backends =
    ("INSTALLED_APPS", names ("social_django" ∷ "dynaconf_merge_unique" ∷ []))
    ∷ ("GALAXY_FEATURE_FLAGS__external_authentication", value (flag true))
    ∷ ("AUTHENTICATION_BACKENDS", names backends)
    ∷ ("DEFAULT_AUTHENTICATION_BACKENDS", names backends)
    ∷ ("GALAXY_AUTHENTICATION_BACKENDS", names backends)
    ∷ ("DEFAULT_AUTHENTICATION_CLASSES", names github_classes)
    ∷ ("GALAXY_AUTHENTICATION_CLASSES", names github_classes)
    ∷ ("REST_FRAMEWORK_AUTHENTICATION_CLASSES", names github_classes)
    ∷ ("SOCIAL_AUTH_PIPELINE", names github_pipeline)
    ∷ []

abbrev pub all_true : Settings → List String → Bool
all_true s [] = true
all_true s (k ∷ ks) = is_true (setting_of s k) && all_true s ks

-- The backends with the two that are added to them.
abbrev github_backends : List String → List String
github_backends l = l ++ "galaxy_ng.social.GalaxyNGOAuth2" ∷ merge_mark ∷ []

abbrev has_github : Settings → Bool
has_github s = all_true s ("SOCIAL_AUTH_GITHUB_KEY" ∷ "SOCIAL_AUTH_GITHUB_SECRET" ∷ [])

unfoldable pub configure_socialauth : Settings → Data
configure_socialauth s =
    if has_github s
    then github_data (github_backends (names_or s "AUTHENTICATION_BACKENDS" []))
    else []

abbrev grown : Settings → String → Option (List String)
grown s k =
    if str_eq k "AUTHENTICATION_BACKENDS"
    then (elim (s.name_list k) [ none ↦ none | some l ↦ some (github_backends l) ])
    else s.name_list k

-- The settings afterwards: a list of backends that they hold is the object that has grown.
unfoldable pub after_socialauth : Settings → Settings
after_socialauth s = if has_github s then record s { name_list = grown s } else s

pub after_socialauth-value_of :
    (s : Settings) (k : String) → (after_socialauth s).value_of k ≡ s.value_of k
unfolding after_socialauth
after_socialauth-value_of s k = elim (Bool-cases (has_github s)) [
  | inl present ↦ rw present refl
  | inr absent ↦ rw absent refl
]
