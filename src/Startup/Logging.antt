-- ===== src/Startup/Logging.antt =====
-- galaxy_ng/app/dynaconf_hooks.py: the functions for logs, CORS, paths, passwords and renderers.
use galaxy_ng.Prelude.{String, Text, true, false, [], ◌∷◌, Option, none, some, if◌then◌else◌}
use galaxy_ng.Json.{Value, null, flag, num, text, is_true}
use galaxy_ng.Startup.Model.{Settings, value, names, Data, setting_or, word, list, table}

-- The environment of the process.
abbrev pub Env : Type 0
Env = String → Option Text

abbrev env_or : Env → String → Value → Value
env_or env k d = elim (env k) [ none ↦ d | some t ↦ text t ]

abbrev access_log : Value
access_log = table (
    ("version", num 1)
    ∷ ("disable_existing_loggers", flag false)
    ∷ (
      "formatters",
      table (
          (
            "automated_logging",
            table (("format", word "%(asctime)s: %(levelname)s: %(message)s") ∷ []),
          )
          ∷ []),
    )
    ∷ (
      "handlers",
      table (
          (
            "automated_logging",
            table (
                ("level", word "INFO")
                ∷ ("class", word "logging.handlers.WatchedFileHandler")
                ∷ ("filename", word "/var/log/galaxy_api_access.log")
                ∷ ("formatter", word "automated_logging")
                ∷ []),
          )
          ∷ []),
    )
    ∷ (
      "loggers",
      table (
          (
            "automated_logging",
            table (
                ("handlers", list ("automated_logging" ∷ []))
                ∷ ("level", word "INFO")
                ∷ ("propagate", flag false)
                ∷ []),
          )
          ∷ []),
    )
    ∷ ("dynaconf_merge", flag true)
    ∷ [])

abbrev log_globals : Value
log_globals = table (
    (
      "exclude",
      table (
          (
            "applications",
            list (
                "plain:contenttypes" ∷ "plain:admin" ∷ "plain:basehttp" ∷ "glob:session*"
                ∷ "plain:migrations" ∷ []),
          )
          ∷ []),
    )
    ∷ [])

abbrev log_model : Value
log_model = table (
    ("detailed_message", flag true)
    ∷ (
      "exclude",
      table (
          ("applications", list [])
          ∷ ("fields", list [])
          ∷ ("models", list [])
          ∷ ("unknown", flag false)
          ∷ []),
    )
    ∷ ("loglevel", num 20)
    ∷ ("mask", list [])
    ∷ ("max_age", null)
    ∷ ("performance", flag false)
    ∷ ("snapshot", flag false)
    ∷ ("user_mirror", flag false)
    ∷ [])

abbrev log_request : Value
log_request = table (
    (
      "data",
      table (
          ("content_types", list ("application/json" ∷ []))
          ∷ ("enabled", list [])
          ∷ ("ignore", list [])
          ∷ (
            "mask",
            list (
                "ca_cert" ∷ "client_cert" ∷ "client_key" ∷ "email" ∷ "password" ∷ "proxy_url"
                ∷ "proxy_username" ∷ "proxy_password" ∷ "token" ∷ "username" ∷ []),
          )
          ∷ ("query", flag true)
          ∷ []),
    )
    ∷ (
      "exclude",
      table (
          ("applications", list [])
          ∷ ("methods", list [])
          ∷ ("status", list [])
          ∷ ("unknown", flag false)
          ∷ []),
    )
    ∷ ("ip", flag true)
    ∷ ("loglevel", num 20)
    ∷ ("max_age", null)
    ∷ [])

abbrev log_unspecified : Value
log_unspecified = table (
    (
      "exclude",
      table (("applications", list []) ∷ ("files", list []) ∷ ("unknown", flag false) ∷ []),
    )
    ∷ ("loglevel", num 20)
    ∷ ("max_age", null)
    ∷ [])

abbrev automated_logging : Value
automated_logging = table (
    ("globals", log_globals)
    ∷ ("model", log_model)
    ∷ ("modules", list ("request" ∷ "unspecified" ∷ "model" ∷ []))
    ∷ ("request", log_request)
    ∷ ("unspecified", log_unspecified)
    ∷ [])

abbrev logging_of : Value → Data
logging_of enabled =
    ("GALAXY_ENABLE_API_ACCESS_LOG", value enabled)
    ∷ (if is_true enabled
        then ("INSTALLED_APPS", names ("automated_logging" ∷ "dynaconf_merge_unique" ∷ []))
          ∷ (
            "MIDDLEWARE",
            names
                ("automated_logging.middleware.AutomatedLoggingMiddleware" ∷ "dynaconf_merge" ∷ []),
          )
          ∷ ("LOGGING", value access_log)
          ∷ ("AUTOMATED_LOGGING", value automated_logging)
          ∷ []
        else [])

unfoldable pub configure_logging : Env → Settings → Data
configure_logging env s = logging_of (
    setting_or s "GALAXY_ENABLE_API_ACCESS_LOG"
      (env_or env "GALAXY_ENABLE_API_ACCESS_LOG" (flag false)))
