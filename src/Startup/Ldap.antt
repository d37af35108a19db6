-- ===== src/Startup/Ldap.antt =====
-- galaxy_ng/app/dynaconf_hooks.py: configure_ldap. The constants of the module ldap and the parser of
-- json are parameters.
use galaxy_ng.Prelude.{
  String, Text, codes, text_eq, Bool, true, false, List, [], ◌∷◌, ◌++◌, Option, none, some,
  if◌then◌else◌,
}
use galaxy_ng.Json.{Value, null, flag, num, text, obj, end, is_true}
use galaxy_ng.Startup.Model.{Settings, value, made, Data, setting_of, setting_or, word, list, table}
use galaxy_ng.Startup.Auth.{all_true}

pub record Ldap : Type 0 where
  pub scope_base : Value
  pub scope_onelevel : Value
  pub scope_subtree : Value
  pub opt_x_tls_require_cert : Value
  pub opt_x_tls_never : Value
  pub opt_referrals : Value
  pub loads : Text → Option Value

abbrev ldap_keys : List String
ldap_keys =
    "AUTH_LDAP_SERVER_URI" ∷ "AUTH_LDAP_BIND_DN" ∷ "AUTH_LDAP_BIND_PASSWORD"
    ∷ "AUTH_LDAP_USER_SEARCH_BASE_DN" ∷ "AUTH_LDAP_USER_SEARCH_SCOPE"
    ∷ "AUTH_LDAP_USER_SEARCH_FILTER" ∷ "AUTH_LDAP_GROUP_SEARCH_BASE_DN"
    ∷ "AUTH_LDAP_GROUP_SEARCH_SCOPE" ∷ "AUTH_LDAP_GROUP_SEARCH_FILTER" ∷ []

abbrev scope_of : Ldap → Value → Value
scope_of l (text t) =
    if text_eq t (codes "BASE")
    then l.scope_base
    else if text_eq t (codes "ONELEVEL")
    then l.scope_onelevel
    else l.scope_subtree
scope_of l v = l.scope_subtree

-- Options with one more: their keys are numbers, so they are kept apart from the documents.
abbrev with_option : Bool → Value → Value → Value → String → Data
with_option true options k v name = (name, made "options" (options ∷ k ∷ v ∷ [])) ∷ []
with_option false options k v name = (name, value options) ∷ []

abbrev search : Ldap → Settings → String → String → String → String → Data
search l s name base scope filter =
    if is_true (setting_of s name)
    then []
    else (
      name,
      made "LDAPSearch"
          (setting_of s base ∷ scope_of l (setting_of s scope) ∷ setting_of s filter ∷ []),
    )
      ∷ []

abbrev group_type : Settings → Data
group_type s =
    let classpath =
      setting_or s "AUTH_LDAP_GROUP_TYPE_CLASS" (word "django_auth_ldap.config:GroupOfNamesType") in
    let params =
      setting_or s "AUTH_LDAP_GROUP_TYPE_PARAMS" (table (("name_attr", word "cn") ∷ [])) in
    if is_true classpath
    then ("AUTH_LDAP_GROUP_TYPE", made "group_type" (classpath ∷ params ∷ [])) ∷ []
    else []

-- A map that is given as a text is parsed, and empty where that fails.
abbrev attr_map : Ldap → Value → Data
attr_map l (text t) = elim (l.loads t) [
  | none ↦ ("AUTH_LDAP_USER_ATTR_MAP", value (obj end)) ∷ []
  | some v ↦ ("AUTH_LDAP_USER_ATTR_MAP", value v) ∷ []
]
attr_map l v = []

abbrev ldap_logging : Value
ldap_logging = table (
    ("dynaconf_merge", flag true)
    ∷ ("version", num 1)
    ∷ ("disable_existing_loggers", flag false)
    ∷ ("handlers", table (("console", table (("class", word "logging.StreamHandler") ∷ [])) ∷ []))
    ∷ (
      "loggers",
      table (
          (
            "django_auth_ldap",
            table (("level", word "DEBUG") ∷ ("handlers", list ("console" ∷ [])) ∷ []),
          )
          ∷ []),
    )
    ∷ [])

abbrev if_set : Settings → String → Data → Data
if_set s k d = if is_true (setting_of s k) then d else []

abbrev ldap_data : Ldap → Settings → Data
ldap_data l s =
    ("GALAXY_AUTH_LDAP_ENABLED", value (flag true))
    ∷ (with_option (is_true (setting_of s "GALAXY_LDAP_SELF_SIGNED_CERT"))
          (setting_or s "AUTH_LDAP_GLOBAL_OPTIONS" (obj end)) l.opt_x_tls_require_cert
          l.opt_x_tls_never "AUTH_LDAP_GLOBAL_OPTIONS"
        ++ (search l s "AUTH_LDAP_USER_SEARCH" "AUTH_LDAP_USER_SEARCH_BASE_DN"
              "AUTH_LDAP_USER_SEARCH_SCOPE" "AUTH_LDAP_USER_SEARCH_FILTER"
            ++ (search l s "AUTH_LDAP_GROUP_SEARCH" "AUTH_LDAP_GROUP_SEARCH_BASE_DN"
                  "AUTH_LDAP_GROUP_SEARCH_SCOPE" "AUTH_LDAP_GROUP_SEARCH_FILTER"
                ++ (group_type s
                    ++ (attr_map l (setting_or s "AUTH_LDAP_USER_ATTR_MAP" (obj end))
                        ++ (if_set s "GALAXY_LDAP_LOGGING" (("LOGGING", value ldap_logging) ∷ [])
                            ++ (with_option (is_true (setting_of s "GALAXY_LDAP_DISABLE_REFERRALS"))
                                  (setting_or s "AUTH_LDAP_CONNECTION_OPTIONS" (obj end))
                                  l.opt_referrals (num 0) "AUTH_LDAP_CONNECTION_OPTIONS"
                                ++ if_set s "GALAXY_LDAP_MIRROR_ONLY_EXISTING_GROUPS" (
                                    ("AUTH_LDAP_MIRROR_GROUPS", value (flag true))
                                    ∷ ("AUTH_LDAP_MIRROR_GROUPS_EXCEPT", value null)
                                    ∷ []))))))))

unfoldable pub configure_ldap : Ldap → Settings → Data
configure_ldap l s = if all_true s ldap_keys then ldap_data l s else []
