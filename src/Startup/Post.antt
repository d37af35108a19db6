-- ===== src/Startup/Post.antt =====
-- galaxy_ng/app/dynaconf_hooks.py: post, which composes the functions, and what it calls last.
use galaxy_ng.Prelude.{
  String, str_eq, Text, Bool, true, false, List, [], ◌∷◌, keep, Option, none, some, if◌then◌else◌,
}
use galaxy_ng.Json.{Value, null, flag, text, obj, Members, end, field, is_true}
use galaxy_ng.Startup.Model.{
  Settings, Entry, value, names, made, Data, entry_at, set, update, setting_of, names_or,
}
use galaxy_ng.Startup.Auth.{
  configure_authentication_classes, configure_authentication_backends, configure_socialauth,
  after_socialauth, set_classes,
}
use galaxy_ng.Startup.Logging.{Env, configure_logging}
use galaxy_ng.Startup.Paths.{
  configure_cors, configure_pulp_ansible, configure_password_validators, configure_api_base_path,
  configure_renderers, configure_legacy_roles,
}
use galaxy_ng.Startup.Keycloak.{configure_keycloak}
use galaxy_ng.Startup.Ldap.{Ldap, configure_ldap}
use galaxy_ng.Startup.Storage.{
  resolve_storage_backend, text_value, members_of, backend_of, with_backend, has_text,
}

-- A validator of dynaconf that `validate` registers.
pub data Validator : Type 0 where
  equal_when : String → Value → String → Value → Validator
  is_in : String → List String → Validator

-- What dynaconf, DAB and ldap do: `dab` is what django-ansible-base adds to the settings and to the
-- data of the hook; `check` is the verdict of all validators, with those that are registered here.
pub record Libraries : Type 0 where
  pub ldap : Ldap
  pub env : Env
  pub dab : Settings → Data → Data
  pub check : List Validator → Settings → Bool
  pub preset_names : List String
  pub has_hooking : Bool
  pub module_scope : String → Bool

infixl 5 ◌>>=◌
abbrev pub ◌>>=◌ : {A B : Type 0} → Option A → (A → Option B) → Option B
none >>= f = none
some a >>= f = f a

abbrev pub hooks_of : Libraries → List String → Data
hooks_of lib [] = []
hooks_of lib (h ∷ hs) =
    if lib.has_hooking
    then ("_registered_hooks", names (keep lib.module_scope (h ∷ hs))) ∷ []
    else []

-- The names of hooks that the module has; the others go to the log.
unfoldable pub configure_dynamic_settings : Libraries → Settings → Data
configure_dynamic_settings lib s = hooks_of lib (names_or s "DYNACONF_AFTER_GET_HOOKS" [])

abbrev validators : Libraries → List Validator
validators lib =
    equal_when "GALAXY_REQUIRE_SIGNATURE_FOR_APPROVAL" (flag false)
      "GALAXY_REQUIRE_CONTENT_APPROVAL" (flag false)
    ∷ is_in "AUTHENTICATION_BACKEND_PRESET" ("local" ∷ "custom" ∷ lib.preset_names)
    ∷ []

abbrev set_values : Value → Value → Settings → String → Option Value
set_values storages dfs s k =
    if str_eq k "STORAGES"
    then some storages
    else if str_eq k "DEFAULT_FILE_STORAGE"
    then some dfs
    else s.value_of k

abbrev synced : Option (Text × Text) → Members → Settings → Settings
synced none storages s = s
synced (some (b, dfs)) storages s = record s {
  value_of = set_values (obj (with_backend b storages)) (text dfs) s;
}

-- The settings with the backend that both names agree on.
unfoldable pub synced_settings : Settings → Settings
unfolding with_backend
synced_settings s =
    let storages = members_of (s.value_of "STORAGES") in
    synced
      (resolve_storage_backend (backend_of storages)
        (text_value (s.value_of "DEFAULT_FILE_STORAGE")))
      storages s

-- The settings afterwards; none is the ValidationError.
unfoldable pub validate : Libraries → Settings → Option Settings
unfolding synced_settings
validate lib s =
    if lib.check (validators lib) (synced_settings s) then some (synced_settings s) else none

abbrev pub cli_of : Option Entry → Data → Option Data
cli_of none d = none
cli_of (some e) d = some (set "CLI_DYNACONF" (made "CLI_DYNACONF" []) d)

-- Without the DAB settings the CLI cannot be made.
unfoldable pub configure_dynaconf_cli : Data → Option Data
configure_dynaconf_cli d = cli_of (entry_at "DAB_DYNACONF" d) d

-- The data of the hooks before DAB.
unfoldable pub hooked : Libraries → Settings → Option Data
hooked lib s = do
  validated ← configure_password_validators s
  rooted ← configure_api_base_path s
  let start : Data = ("dynaconf_merge", value (flag false)) ∷ []
  some (
      update
        (update
          (update
            (update
              (update
                (update
                  (update
                    (update
                      (update (update start (configure_ldap lib.ldap s))
                        (configure_logging lib.env s))
                      (configure_keycloak s))
                    (configure_socialauth s))
                  (configure_cors lib.env s))
                (configure_pulp_ansible s))
              (configure_renderers s))
            validated)
          rooted)
        (configure_legacy_roles s))

abbrev pub jwt_only : List String
jwt_only = "ansible_base.jwt_consumer.hub.auth.HubJWTAuth" ∷ []

abbrev pub is_set : Option Value → Bool
is_set none = false
is_set (some null) = false
is_set (some v) = true

-- What a resource server changes.
unfoldable pub connected : Settings → Data → Data
connected s d =
    set "IS_CONNECTED_TO_RESOURCE_SERVER"
      (value (flag (is_set (s.value_of "RESOURCE_SERVER__URL"))))
      (if is_true (setting_of s "RESOURCE_SERVER__URL") then set_classes jwt_only d else d)

abbrev value_at : Option Entry → Option Value
value_at (some (value v)) = some v
value_at _ = none

abbrev first_given : Option Text → Option Text → Option Text
first_given a b = if has_text a then a else b

-- `data.get(k) or settings.get(k)` of the storages.
abbrev pub storages_of : Settings → Data → Members
storages_of s d = elim (members_of (value_at (entry_at "STORAGES" d))) [
  | end ↦ members_of (s.value_of "STORAGES")
  | field k v fs ↦ field k v fs
]

abbrev pub set_storages : Option (Text × Text) → Members → Data → Data
set_storages none storages d = d
set_storages (some (b, dfs)) storages d =
    set "DEFAULT_FILE_STORAGE" (value (text dfs))
      (set "STORAGES" (value (obj (with_backend b storages))) d)

unfoldable pub with_storage : Settings → Data → Data
with_storage s d =
    let sb =
      first_given (backend_of (members_of (value_at (entry_at "STORAGES" d))))
        (text_value (s.value_of "STORAGES.default.BACKEND")) in
    let dfs =
      first_given (text_value (value_at (entry_at "DEFAULT_FILE_STORAGE" d)))
        (text_value (s.value_of "DEFAULT_FILE_STORAGE")) in
    set_storages (resolve_storage_backend sb dfs) (storages_of s d) d

-- The dictionary before the hooks for reading settings. The functions for authentication change it in
-- place. The storages that are changed in place are those of the dictionary, to which DAB copies all
-- settings.
unfoldable pub data_after_dab : Libraries → Settings → Data → Data
unfolding connected with_storage
data_after_dab lib s base =
    let merged = update base (lib.dab s base) in
    let authenticated =
      configure_authentication_classes s (configure_authentication_backends s merged) in
    with_storage s (connected s authenticated)

unfoldable pub with_dynamic : Libraries → Bool → Settings → Data → Data
unfolding configure_dynamic_settings
with_dynamic lib run_dynamic s d =
    if run_dynamic then update d (configure_dynamic_settings lib s) else d

-- The dictionary and the settings at the end of the hook; none is an exception.
unfoldable pub post : Libraries → Bool → Bool → Settings → Option (Data × Settings)
unfolding hooked data_after_dab with_dynamic
post lib run_dynamic run_validate s = do
  base ← hooked lib s
  let grown = after_socialauth s
  final ← (if run_validate then validate lib grown else some grown)
  result ←
      configure_dynaconf_cli (with_dynamic lib run_dynamic grown (data_after_dab lib grown base))
  some (result, final)
