-- ===== src/Startup/Examples.antt =====
-- galaxy_ng/app/dynaconf_hooks.py: tests of the functions, and the theorems at concrete settings.
use galaxy_ng.Prelude.{
  ◌≤◌, ◌≡◌, refl, String, str_eq, codes, text_eq, true, List, [], ◌∷◌, Option, none, some,
  if◌then◌else◌,
}
use galaxy_ng.Names.Digits.{numeral, digit_code}
use galaxy_ng.Json.{Value, flag, num, arr, nil, cons}
use galaxy_ng.Startup.Model.{Settings, Entry, value, names, made, Data, entry_at, mem, word, table}
use galaxy_ng.Startup.Auth.{
  session_first, configure_authentication_classes, gathered_backends,
  configure_authentication_backends, configure_socialauth, after_socialauth, is_flag, count,
  merge_mark,
}
use galaxy_ng.Startup.Logging.{configure_logging}
use galaxy_ng.Startup.Paths.{
  configure_cors, configure_pulp_ansible, set_min_length, set_min_lengths,
  configure_password_validators, configure_api_base_path, configure_renderers,
  configure_legacy_roles,
}
use galaxy_ng.Startup.Keycloak.{configure_keycloak, with_setting}
use galaxy_ng.Startup.Ldap.{Ldap, configure_ldap}
use galaxy_ng.Startup.Storage.{
  pulp_default, resolve_storage_backend, with_backend, effective, preferred,
  resolve_storage_backend_lem,
}
use galaxy_ng.Startup.Post.{
  Libraries, configure_dynamic_settings, synced_settings, validate, configure_dynaconf_cli, hooked,
  connected, with_storage, data_after_dab, with_dynamic, post,
}
use galaxy_ng.Startup.Classes.{IsConfigured, configure_authentication_classes-IsConfigured}
use galaxy_ng.Startup.Backends.{is_named, configure_authentication_backends_lem}
use galaxy_ng.Startup.Connected.{IsJwtOnly, post-IsJwtOnly}

startup_code : Unit {0}
unfolding session_first configure_authentication_classes gathered_backends
    configure_authentication_backends configure_socialauth after_socialauth configure_logging
    configure_cors configure_pulp_ansible set_min_length set_min_lengths
    configure_password_validators configure_api_base_path configure_renderers configure_legacy_roles
    configure_keycloak configure_ldap pulp_default resolve_storage_backend with_backend
    configure_dynamic_settings synced_settings validate configure_dynaconf_cli hooked connected
    with_storage data_after_dab with_dynamic post numeral digit_code
startup_code = tt

abbrev lookup : List (String × Value) → String → Option Value
lookup [] k = none
lookup ((j, v) ∷ m) k = if str_eq j k then some v else lookup m k

abbrev minimum : Value
minimum = table (
    ("NAME", word "django.MinimumLengthValidator")
    ∷ ("OPTIONS", table (("min_length", num 8) ∷ []))
    ∷ [])

-- Behind a resource server, with GitHub and with storage on S3.
abbrev behind : Settings
behind = record {
  value_of = lookup (
      ("GALAXY_API_PATH_PREFIX", word "/api/galaxy/")
      ∷ ("AUTH_PASSWORD_VALIDATORS", arr (cons minimum nil))
      ∷ ("RESOURCE_SERVER__URL", word "https://gateway")
      ∷ ("SOCIAL_AUTH_GITHUB_KEY", word "k")
      ∷ ("SOCIAL_AUTH_GITHUB_SECRET", word "s")
      ∷ ("CONTENT_ORIGIN", word "https://galaxy-dev.ansible.com")
      ∷ ("DEFAULT_FILE_STORAGE", word "s3")
      ∷ []);
  name_list = λ k. if str_eq k "AUTHENTICATION_BACKENDS" then some ("django" ∷ []) else none;
  presets = λ v. none;
}

abbrev no_ldap : Ldap
no_ldap = record {
  scope_base = num 0;
  scope_onelevel = num 1;
  scope_subtree = num 2;
  opt_x_tls_require_cert = num 3;
  opt_x_tls_never = num 4;
  opt_referrals = num 5;
  loads = λ t. none;
}

abbrev libraries : Libraries
libraries = record {
  ldap = no_ldap;
  env = λ k. none;
  dab = λ s d. ("DAB_DYNACONF", made "DAB" []) ∷ [];
  check = λ vs s. true;
  preset_names = [];
  has_hooking = true;
  module_scope = λ k. str_eq k "read_settings_from_cache_or_db";
}

abbrev at : String → Option (Data × Settings) → Option Entry
at k none = none
at k (some (d, s)) = entry_at k d

api_root : at "API_ROOT" (post libraries true true behind) ≡ some (value (word "/api/galaxy/pulp/"))
unfolding startup_code
api_root = refl

backends_run :
    at "AUTHENTICATION_BACKENDS" (post libraries true true behind)
    ≡ some (
        names (
          "django" ∷ "galaxy_ng.social.GalaxyNGOAuth2" ∷ "dynaconf_merge"
          ∷ "ansible_base.lib.backends.prefixed_user_auth.PrefixedUserAuthBackend" ∷ []))
unfolding startup_code
backends_run = refl

-- An empty address connects, and leaves the classes as they were.
empty_address :
    (at "IS_CONNECTED_TO_RESOURCE_SERVER"
        (post libraries true true (with_setting "RESOURCE_SERVER__URL" (word "") behind))
      ≡ some (value (flag true)))
    × (at "ANSIBLE_AUTHENTICATION_CLASSES"
          (post libraries true true (with_setting "RESOURCE_SERVER__URL" (word "") behind))
        ≡ some (
            names (
              "galaxy_ng.app.auth.session.SessionAuthentication"
              ∷ "rest_framework.authentication.TokenAuthentication"
              ∷ "rest_framework.authentication.BasicAuthentication" ∷ [])))
unfolding startup_code
empty_address = (refl, refl)

abbrev result : Option (Data × Settings) → Data × Settings
result none = ([], behind)
result (some p) = p

post_returns :
    post libraries true true behind
    ≡ some
        ((result (post libraries true true behind)).0, (result (post libraries true true behind)).1)
unfolding startup_code
post_returns = refl

post-IsJwtOnly_example : IsJwtOnly (result (post libraries true true behind)).0
post-IsJwtOnly_example =
    post-IsJwtOnly libraries true true behind (result (post libraries true true behind)).1
      (result (post libraries true true behind)).0 refl post_returns

resolve_storage_backend_lem_example :
    resolve_storage_backend
      (some (codes "pulpcore.app.models.storage.FileSystem"))
      (some (codes "s3"))
    ≡ (if text_eq
          (effective (some (codes "pulpcore.app.models.storage.FileSystem")))
          (effective (some (codes "s3")))
        then none
        else some (
          preferred (some (codes "pulpcore.app.models.storage.FileSystem")) (some (codes "s3")),
          preferred (some (codes "pulpcore.app.models.storage.FileSystem")) (some (codes "s3")),
        ))
resolve_storage_backend_lem_example =
    resolve_storage_backend_lem (some (codes "pulpcore.app.models.storage.FileSystem"))
      (some (codes "s3"))

abbrev with_classes : Data
with_classes =
    ("GALAXY_AUTHENTICATION_CLASSES", names ("token" ∷ "basic" ∷ []))
    ∷ ("GALAXY_AUTH_KEYCLOAK_ENABLED", value (flag true))
    ∷ ("AUTHENTICATION_BACKENDS", names ("dynaconf_merge" ∷ "dynaconf_merge" ∷ []))
    ∷ []

configure_authentication_classes-IsConfigured_example :
    IsConfigured
      (is_flag (entry_at "GALAXY_AUTH_KEYCLOAK_ENABLED" with_classes))
      "basic"
      (configure_authentication_classes behind with_classes)
configure_authentication_classes-IsConfigured_example =
    configure_authentication_classes-IsConfigured behind with_classes "basic" refl

configure_authentication_backends_lem_example :
    (out : List String) × (entry_at "AUTHENTICATION_BACKENDS"
        (configure_authentication_backends behind with_classes)
      ≡ some (names out))
    × (mem "django" out ≡ is_named behind with_classes "django")
    × (count merge_mark out ≤ 1)
configure_authentication_backends_lem_example =
    configure_authentication_backends_lem behind with_classes "django"
