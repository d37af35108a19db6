-- ===== src/Settings/Cache.antt =====
-- galaxy_ng/app/tasks/settings_cache.py: the Redis locks and the cached copy of the settings.
-- The connection is not configured, or it holds its data and answers some calls with an error.
use galaxy_ng.Prelude.{
  ℕ, ◌+◌, Text, text_eq, Bool, false, List, [], ◌∷◌, ◌++◌, Option, none, some, if◌then◌else◌, codes,
}

-- `faulty` says which calls end in a connection error, and `calls` counts them.
pub record Redis : Type 0 where
  pub locks : List (Text × Text)
  pub cached : List (Text × Text)
  pub calls : ℕ
  pub faulty : ℕ → Bool

pub data Conn : Type 0 where
  unset : Conn
  live : Redis → Conn

-- What `acquire_lock` answers: None, the wrapper's default 0, a token, or False.
pub data Reply : Type 0 where
  nothing zero_default refused : Reply
  token : Text → Reply

abbrev counted {ℓ} : {A : Type ℓ} → A × Redis → A × Conn
counted (a, r) = (a, live (record r { calls = r.calls + 1 }))

-- `connection_error_wrapper`: with no connection, or on a connection error, the default. An error is
-- taken to come before the first command of a body, and leaves the data as they are.
abbrev pub connection_error_wrapper {ℓ} : {A : Type ℓ} → A → (Redis → A × Redis) → Conn → A × Conn
connection_error_wrapper default body unset = (default, unset)
connection_error_wrapper default body (live r) =
    counted (if r.faulty r.calls then (default, r) else body r)

abbrev pub lookup_text : Text → List (Text × Text) → Option Text
lookup_text k [] = none
lookup_text k ((j, v) ∷ m) = if text_eq j k then some v else lookup_text k m

abbrev pub remove_text : Text → List (Text × Text) → List (Text × Text)
remove_text k [] = []
remove_text k ((j, v) ∷ m) = if text_eq j k then remove_text k m else (j, v) ∷ remove_text k m

abbrev pub lock_key : Text → Text
lock_key name = codes "GALAXY_SETTINGS_LOCK_" ++ name

-- `conn.set(LOCK_KEY, token, nx=True)` and the answer.
abbrev set_if_absent : Text → Text → Option Text → Redis → Reply × Redis
set_if_absent key t none r = (token t, record r { locks = (key, t) ∷ r.locks })
set_if_absent key t (some holder) r = (refused, r)

unfoldable pub acquire_lock : Text → Text → Conn → Reply × Conn
acquire_lock lock_name t =
    connection_error_wrapper zero_default
      λ r. set_if_absent (lock_key lock_name) t (lookup_text (lock_key lock_name) r.locks) r

-- `lock == token`, for the stored text and the answer that `acquire_lock` gave.
abbrev pub holds_token : Option Text → Reply → Bool
holds_token (some held) (token t) = text_eq held t
holds_token _ _ = false

unfoldable pub release_lock : Text → Reply → Conn → Conn
release_lock lock_name reply conn =
    (connection_error_wrapper {0} tt
      (λ r. (
        tt,
        if holds_token (lookup_text (lock_key lock_name) r.locks) reply
            then record r { locks = remove_text (lock_key lock_name) r.locks }
            else r,
      ))
      conn).1

-- The old hash is deleted, and an empty dictionary writes none.
unfoldable pub update_setting_cache : List (Text × Text) → Conn → Conn
update_setting_cache fresh conn =
    (connection_error_wrapper {0} tt (λ r. (tt, record r { cached = fresh })) conn).1

unfoldable pub get_settings_from_cache : Conn → List (Text × Text)
get_settings_from_cache conn = (connection_error_wrapper [] (λ r. (r.cached, r)) conn).0
