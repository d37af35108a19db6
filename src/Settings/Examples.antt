-- ===== src/Settings/Examples.antt =====
-- Dynamic settings at concrete inputs: a database that folds to lower case, and two keys.
use galaxy_ng.Prelude.{
  ℕ, zero, suc, ◌==◌, false, ◌≤◌, ◌≡◌, refl, Text, codes, lower, upper, lower_code, upper_code,
  true, false, [], ◌∷◌, length, none, some, arith,
}
use mathlib.Core.Path.{ap₂}
use galaxy_ng.Settings.Cache.{
  Redis, live, acquire_lock, release_lock, update_setting_cache, get_settings_from_cache,
}
use galaxy_ng.Settings.Rows.{
  Row, Backend, exact_keys, UpperfyKeepsKey, filter_key, latest, get_setting_from_db, as_dict,
  distinct_on_key, insert_row, order_by_version, get_all, base_key, stored_value,
}
use galaxy_ng.Settings.Manager.{
  World, not_allowed, returned, raised, in_schema, acquire_attempts, next_version, prune,
  delete_rows, save_new, new_row, create_locked, create, set_value_in_db, delete_latest_version,
  settings_data,
}
use galaxy_ng.Settings.Reads.{set_value-get_setting, set_value-length}
use galaxy_ng.Settings.History.{IsHistory}
use galaxy_ng.Settings.Undo.{delete_latest-set_value}
use galaxy_ng.Settings.Coherence.{
  delete_latest-IsFresh, set_value-IsFresh, lock_token, left_token, lock_token-set_value,
}

settings_code : Unit {0}
unfolding set_value_in_db create create_locked acquire_attempts acquire_lock release_lock
    update_setting_cache save_new new_row next_version prune delete_rows latest in_schema base_key
    stored_value filter_key get_setting_from_db distinct_on_key insert_row order_by_version get_all
    as_dict lower upper lower_code upper_code delete_latest_version settings_data
    get_settings_from_cache
settings_code = tt

abbrev sample_backend : Backend
sample_backend = record { upperfy = upper; fold = lower; validates = λ data_now k v. true }

lower-upper_code : (c : ℕ) → lower_code (upper_code c) ≡ lower_code c
unfolding lower_code upper_code
lower-upper_code c = ground arith

upper_keeps : UpperfyKeepsKey sample_backend
unfolding lower upper
upper_keeps [] = refl
upper_keeps (c ∷ s) = ap₂ ◌∷◌ (lower-upper_code c) (upper_keeps s)

abbrev uuids : ℕ → Text
uuids n = n ∷ []

abbrev redis : Redis
redis = record { locks = []; cached = []; calls = 0; faulty = λ n. false }

abbrev start : World
start = record { rows = []; conn = live redis }

abbrev put : Text → Text → World → World
put k v w = (set_value_in_db sample_backend uuids k v none false w).1

-- The key is stored in upper case and the value in lower case.
abbrev foo_row : Row
foo_row = record {
  key = codes "FOO";
  value = codes "true";
  user = none;
  version = 1;
  is_secret = false;
}

put_foo : set_value_in_db sample_backend uuids (codes "foo") (codes "True") none false start ≡ (
  returned foo_row,
  record {
    rows = foo_row ∷ [];
    conn = live (record {
      locks = [];
      cached = (codes "FOO", codes "true") ∷ [];
      calls = 3;
      faulty = λ n. false;
    });
  },
)
unfolding settings_code
put_foo = refl

put_unknown :
    (set_value_in_db sample_backend uuids (codes "baz") (codes "1") none false start).0
    ≡ raised not_allowed
unfolding settings_code
put_unknown = refl

abbrev puts : ℕ → World → World
puts zero w = w
puts (suc n) w = put (codes "foo") (codes "1") (puts n w)

-- A backend that keeps the case behind the first level, as dynaconf does for names with __.
abbrev keeping_backend : Backend
keeping_backend = record sample_backend { upperfy = λ k. k }

abbrev case_row : ℕ → Row
case_row n = record {
  key = codes "FOO__bar";
  value = codes "old";
  user = none;
  version = n;
  is_secret = false;
}

-- A key in another case starts with version 1, and the older value with the higher version is read.
other_case_test :
    get_setting_from_db keeping_backend
      (codes "FOO__BAR")
      (set_value_in_db keeping_backend uuids
        (codes "FOO__BAR")
        (codes "new")
        none
        false
        (record { rows = case_row 5 ∷ []; conn = live redis })).1.rows
    ≡ some (case_row 5)
unfolding settings_code
other_case_test = refl

-- A connection error that is swallowed while the cache is written: the old value is read on.
stale_test :
    settings_data sample_backend (
      put (codes "foo") (codes "2") (record start {
        conn = live (record redis { cached = (codes "FOO", codes "1") ∷ []; faulty = λ n. n == 2 });
      }))
    ≡ (codes "FOO", codes "1") ∷ []
unfolding settings_code
stale_test = refl

-- Fourteen writes leave eleven versions, one more than MAX_VERSIONS_TO_KEEP.
eleven_kept : length (puts 14 start).rows ≡ 11
unfolding settings_code
eleven_kept = refl

start-valid : (k : Text) → IsHistory (filter_key (exact_keys sample_backend) k start.rows)
unfolding filter_key
start-valid k = tt

set_value-get_setting_example :
    (get_setting_from_db sample_backend (codes "foo") (put (codes "foo") (codes "True") start).rows
      ≡ some foo_row)
    × (foo_row.value ≡ stored_value (codes "True"))
    × (foo_row.version ≡ next_version sample_backend (codes "FOO") start.rows)
unfolding settings_code
set_value-get_setting_example =
    set_value-get_setting sample_backend uuids (codes "foo") (codes "True") none false start
      upper_keeps foo_row start-valid tt refl

set_value-length_example :
    IsHistory (
      filter_key
        (exact_keys sample_backend)
        (codes "foo")
        (put (codes "foo") (codes "1") start).rows)
    × (length (
          filter_key
            (exact_keys sample_backend)
            (codes "foo")
            (put (codes "foo") (codes "1") start).rows)
        ≤ 11)
set_value-length_example =
    set_value-length sample_backend uuids (codes "foo") (codes "1") none false start (codes "foo")
      start-valid

abbrev foo_once : World
foo_once = put (codes "foo") (codes "True") start

delete_latest-set_value_example :
    ((delete_latest_version sample_backend (codes "foo") foo_once).0 ≡ returned tt)
    × ((k : Text)
        → get_setting_from_db sample_backend k
            (delete_latest_version sample_backend (codes "foo") foo_once).1.rows
          ≡ get_setting_from_db sample_backend k start.rows)
unfolding settings_code
delete_latest-set_value_example =
    delete_latest-set_value sample_backend uuids (codes "foo") (codes "True") none false start
      upper_keeps foo_row start-valid tt refl

set_value-IsFresh_example :
    settings_data sample_backend (put (codes "foo") (codes "1") start)
    ≡ as_dict sample_backend (put (codes "foo") (codes "1") start).rows
unfolding settings_code
set_value-IsFresh_example =
    set_value-IsFresh sample_backend uuids (codes "foo") (codes "1") none false start (λ n. refl)
      refl

-- The refused write of an unknown key leaves the lock taken.
lock_token-set_value_example :
    lock_token (codes "BAZ") (put (codes "baz") (codes "1") start)
    ≡ left_token
        (uuids 9)
        (set_value_in_db sample_backend uuids (codes "baz") (codes "1") none false start).0
unfolding settings_code
lock_token-set_value_example =
    lock_token-set_value sample_backend uuids (codes "baz") (codes "1") none false start redis refl
      (λ n. refl) refl

delete_latest-IsFresh_example :
    settings_data sample_backend (delete_latest_version sample_backend (codes "foo") foo_once).1
    ≡ as_dict sample_backend (delete_latest_version sample_backend (codes "foo") foo_once).1.rows
unfolding settings_code
delete_latest-IsFresh_example =
    delete_latest-IsFresh sample_backend (codes "foo") foo_once (λ n. refl) refl
