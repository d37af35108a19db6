-- ===== src/Settings/Locks.antt =====
-- galaxy_ng/app/models/config.py and galaxy_ng/app/tasks/settings_cache.py: the lock of `create`.
use galaxy_ng.Prelude.{
  ℕ, suc, ◌≡◌, ◌≢◌, ◌∙◌, sym, refl, inl, inr, Text, List, ◌∷◌, Option, Option-cases, Bool, true,
  false, if◌then◌else◌, Bool-cases, arith,
}
use galaxy_ng.Settings.Cache.{
  Redis, Conn, unset, live, Reply, nothing, acquire_lock, release_lock, holds_token, remove_text,
  lookup_text, lock_key, get_settings_from_cache,
}
use galaxy_ng.Settings.Rows.{Row, Backend}
use galaxy_ng.Settings.Manager.{
  World, Outcome, returned, raised, acquire_attempts, prune, new_row, save_new, create_locked,
  create, committed, set_value_in_db,
}

pub acquire_lock-ne-nothing : (k t : Text) (conn : Conn) → (acquire_lock k t conn).0 ≢ nothing
unfolding acquire_lock
acquire_lock-ne-nothing k t unset = cc
acquire_lock-ne-nothing k t (live r) = elim (Bool-cases (r.faulty r.calls)) [
  | inl fault ↦ rw fault (cc)
  | inr fine ↦ elim (Option-cases (lookup_text (lock_key k) r.locks)) [
    | inl e ↦ rw (fine, e) (cc)
    | inr (h, e) ↦ rw (fine, e) (cc)
  ]
]

-- The loop leaves with the answer of its first try, whatever the answer is.
pub acquire_attempts_first :
    (n : ℕ) (fresh : ℕ → Text) (k : Text) (conn : Conn)
    → acquire_attempts (suc n) fresh k conn ≡ acquire_lock k (fresh n) conn
unfolding acquire_attempts
acquire_attempts_first n fresh k conn = ground (arith, acquire_lock-ne-nothing k (fresh n) conn)

-- Every call of the connection is answered.
abbrev pub IsAnswered : Conn → Type 0
IsAnswered unset = Unit
IsAnswered (live r) = (n : ℕ) → r.faulty n ≡ false

pub cached_answered :
    (r : Redis) → IsAnswered (live r) → get_settings_from_cache (live r) ≡ r.cached
unfolding get_settings_from_cache
cached_answered r h = rw (h r.calls, get_settings_from_cache) refl

-- The cached settings are not touched by the lock's operations.
pub cached-acquire :
    (k t : Text) (conn : Conn)
    → IsAnswered conn
    → get_settings_from_cache (acquire_lock k t conn).1 ≡ get_settings_from_cache conn
unfolding acquire_lock
cached-acquire k t unset h = refl
cached-acquire k t (live r) h = elim (Option-cases (lookup_text (lock_key k) r.locks)) [
  | inl e ↦ rw (h r.calls, e) (cached_answered _ h ∙ sym (cached_answered r h))
  | inr (s, e) ↦ rw (h r.calls, e) (cached_answered _ h ∙ sym (cached_answered r h))
]

pub IsAnswered-acquire :
    (k t : Text) (conn : Conn) → IsAnswered conn → IsAnswered (acquire_lock k t conn).1
unfolding acquire_lock
IsAnswered-acquire k t unset h = tt
IsAnswered-acquire k t (live r) h = elim (Option-cases (lookup_text (lock_key k) r.locks)) [
  | inl e ↦ rw (h r.calls, e) h
  | inr (s, e) ↦ rw (h r.calls, e) h
]

pub IsAnswered-release :
    (k : Text) (reply : Reply) (conn : Conn)
    → IsAnswered conn
    → IsAnswered (release_lock k reply conn)
unfolding release_lock
IsAnswered-release k reply unset h = tt
IsAnswered-release k reply (live r) h =
    rw (h r.calls) (λ n. go n (holds_token (lookup_text (lock_key k) r.locks) reply))
  where
    go :
        (n : ℕ) (b : Bool)
        → (if b then record r { locks = remove_text (lock_key k) r.locks } else r).faulty n ≡ false
    go n true = h n
    go n false = h n

-- The result and the rows of an operation, without the connection.
abbrev pub stored : Outcome Row × World → Outcome Row × List Row
stored p = (p.0, p.1.rows)

module _ (b : Backend) where
  -- What a write does to the rows, with no lock in sight.
  abbrev pub written : Text → Text → Option ℕ → Bool → List Row → Outcome Row × List Row
  written k value user secret rows = elim (save_new b (new_row b k value user secret rows) rows) [
    | raised e ↦ (raised e, rows)
    | returned new ↦ (returned new, prune b k new.version (new ∷ rows))
  ]

  create_locked-written :
      (k value : Text) (user : Option ℕ) (secret : Bool) (rows : List Row) (lock : Reply)
      (conn : Conn)
      → lock ≢ nothing
      → stored (create_locked b k value user secret rows lock conn)
        ≡ written k value user secret rows
  unfolding create_locked
  create_locked-written k value user secret rows nothing conn h = absurd (h refl)
  create_locked-written k value user secret rows _ conn h = ground arith

  committed_rows : (p : Outcome Row × World) → stored (committed b p) ≡ stored p
  committed_rows (returned r, w) = refl
  committed_rows (raised e, w) = refl

  -- A write stores the same rows and gives the same result whatever state the lock, the cache and
  -- the connection are in.
  pub set_value_in_db-written :
      (fresh : ℕ → Text) (key value : Text) (user : Option ℕ) (secret : Bool) (w : World)
      → stored (set_value_in_db b fresh key value user secret w)
        ≡ written (b.upperfy key) value user secret w.rows
  unfolding set_value_in_db create
  set_value_in_db-written fresh key value user secret w =
      let k = b.upperfy key in
      let got = acquire_lock k (fresh 9) w.conn in
      committed_rows _
      ∙ rw (acquire_attempts_first 9 fresh k w.conn) (
          create_locked-written k value user secret w.rows got.0 got.1
            (acquire_lock-ne-nothing k (fresh 9) w.conn))
