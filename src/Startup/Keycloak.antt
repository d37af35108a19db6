-- ===== src/Startup/Keycloak.antt =====
-- galaxy_ng/app/dynaconf_hooks.py: configure_keycloak. The parts of urls are texts, numbers, flags or
-- None.
use galaxy_ng.Prelude.{
  ◌≡◌, refl, String, str_eq, Text, codes, ends_with, is_nil, true, ◌||◌, List, [], ◌∷◌, ◌++◌, some,
  if◌then◌else◌,
}
use galaxy_ng.Names.Digits.{str}
use galaxy_ng.Json.{Value, null, flag, num, text, arr, obj, nil, cons, is_true}
use galaxy_ng.Startup.Model.{
  Settings, value, names, Data, setting_of, setting_or, word, list, table,
}
use galaxy_ng.Startup.Auth.{all_true, redirect_step}

abbrev pub shown : Value → Text
shown null = codes "None"
shown (flag b) = if b then codes "True" else codes "False"
shown (num n) = str n
shown (text t) = t
shown (arr vs) = []
shown (obj fs) = []

abbrev keycloak_keys : List String
keycloak_keys =
    "SOCIAL_AUTH_KEYCLOAK_KEY" ∷ "SOCIAL_AUTH_KEYCLOAK_SECRET" ∷ "SOCIAL_AUTH_KEYCLOAK_PUBLIC_KEY"
    ∷ "KEYCLOAK_HOST" ∷ "KEYCLOAK_PORT" ∷ "KEYCLOAK_REALM" ∷ []

-- `f"{protocol}://{host}:{port}"`
abbrev keycloak_url : Settings → Value → Text
keycloak_url s host =
    shown (setting_of s "KEYCLOAK_PROTOCOL")
    ++ (codes "://" ++ (shown host ++ (b':' ∷ shown (setting_of s "KEYCLOAK_PORT"))))

abbrev in_realm : Settings → Text → Text → Text
in_realm s base end_point =
    base
    ++ (codes "/auth/realms/"
        ++ (shown (setting_of s "KEYCLOAK_REALM")
            ++ (codes "/protocol/openid-connect/" ++ end_point)))

-- The loopback host, if there is one, answers the authorization.
abbrev authorization_url : Settings → Value → Text
authorization_url s loopback =
    in_realm s
      (keycloak_url s (if is_true loopback then loopback else setting_of s "KEYCLOAK_HOST"))
      (codes "auth/")

abbrev role_claim : Settings → Value
role_claim s = setting_or s "KEYCLOAK_GROUP_TOKEN_CLAIM" (word "client_roles")

abbrev keycloak_pipeline : List String
keycloak_pipeline =
    "social_core.pipeline.social_auth.social_details"
    ∷ "social_core.pipeline.social_auth.social_uid" ∷ "social_core.pipeline.social_auth.social_user"
    ∷ "social_core.pipeline.user.get_username"
    ∷ "social_core.pipeline.social_auth.associate_by_email"
    ∷ "social_core.pipeline.user.create_user" ∷ "social_core.pipeline.social_auth.associate_user"
    ∷ "social_core.pipeline.social_auth.load_extra_data" ∷ "social_core.pipeline.user.user_details"
    ∷ "galaxy_ng.app.pipelines.user_role" ∷ "galaxy_ng.app.pipelines.user_group" ∷ redirect_step
    ∷ []

-- `os.path.join(base, "templates")`
abbrev templates_dir : Text → Text
templates_dir base =
    if is_nil base || ends_with (codes "/") base
    then base ++ codes "templates"
    else base ++ codes "/templates"

abbrev templates : Settings → Value
templates s = arr (
    cons
      (table (
        ("BACKEND", word "django.template.backends.django.DjangoTemplates")
        ∷ ("DIRS", arr (cons (text (templates_dir (shown (setting_of s "BASE_DIR")))) nil))
        ∷ ("APP_DIRS", flag true)
        ∷ (
          "OPTIONS",
          table (
              (
                "context_processors",
                list (
                    "django.template.context_processors.debug"
                    ∷ "django.template.context_processors.request"
                    ∷ "django.contrib.auth.context_processors.auth"
                    ∷ "django.contrib.messages.context_processors.messages"
                    ∷ "social_django.context_processors.backends"
                    ∷ "social_django.context_processors.login_redirect" ∷ []),
              )
              ∷ []),
        )
        ∷ []))
      nil)

abbrev pair : Value → Value → Value
pair a b = arr (cons a (cons b nil))

abbrev keycloak_data : Settings → Data
keycloak_data s =
    let loopback = setting_of s "KEYCLOAK_HOST_LOOPBACK" in
    let url = keycloak_url s (setting_of s "KEYCLOAK_HOST") in
    ("GALAXY_AUTH_KEYCLOAK_ENABLED", value (flag true))
    ∷ ("KEYCLOAK_ADMIN_ROLE", value (setting_or s "KEYCLOAK_ADMIN_ROLE" (word "hubadmin")))
    ∷ (
      "KEYCLOAK_GROUP_TOKEN_CLAIM",
      value (setting_or s "KEYCLOAK_GROUP_TOKEN_CLAIM" (word "group")),
    )
    ∷ ("KEYCLOAK_ROLE_TOKEN_CLAIM", value (role_claim s))
    ∷ ("KEYCLOAK_HOST_LOOPBACK", value loopback)
    ∷ ("KEYCLOAK_URL", value (text url))
    ∷ ("SOCIAL_AUTH_KEYCLOAK_AUTHORIZATION_URL", value (text (authorization_url s loopback)))
    ∷ ("SOCIAL_AUTH_KEYCLOAK_ACCESS_TOKEN_URL", value (text (in_realm s url (codes "token/"))))
    ∷ (
      "SOCIAL_AUTH_LOGIN_REDIRECT_URL",
      value (setting_or s "SOCIAL_AUTH_LOGIN_REDIRECT_URL" (word "/ui/")),
    )
    ∷ ("SOCIAL_AUTH_JSONFIELD_ENABLED", value (flag true))
    ∷ ("SOCIAL_AUTH_URL_NAMESPACE", value (word "social"))
    ∷ (
      "SOCIAL_AUTH_KEYCLOAK_EXTRA_DATA",
      value (
          arr (
            cons (pair (word "refresh_token") (word "refresh_token"))
              (cons (pair (role_claim s) (role_claim s)) nil))),
    )
    ∷ ("SOCIAL_AUTH_PIPELINE", names keycloak_pipeline)
    ∷ ("GALAXY_FEATURE_FLAGS__external_authentication", value (flag true))
    ∷ (
      "INSTALLED_APPS",
      names ("automated_logging" ∷ "social_django" ∷ "dynaconf_merge_unique" ∷ []),
    )
    ∷ (
      "AUTHENTICATION_BACKENDS",
      names ("social_core.backends.keycloak.KeycloakOAuth2" ∷ "dynaconf_merge" ∷ []),
    )
    ∷ ("GALAXY_TOKEN_EXPIRATION", value (setting_or s "GALAXY_TOKEN_EXPIRATION" (num 1440)))
    ∷ ("TEMPLATES", value (templates s))
    ∷ []

unfoldable pub configure_keycloak : Settings → Data
configure_keycloak s = if all_true s keycloak_keys then keycloak_data s else []

-- The settings with another value for one key.
abbrev pub with_setting : String → Value → Settings → Settings
with_setting k v s = record s { value_of = λ j. if str_eq j k then some v else s.value_of j }

-- The setting for the claim of roles is not read.
pub keycloak_role_claim_ignored :
    (v : Value) (s : Settings)
    → configure_keycloak (with_setting "KEYCLOAK_ROLE_TOKEN_CLAIM" v s) ≡ configure_keycloak s
unfolding configure_keycloak
keycloak_role_claim_ignored v s = refl
