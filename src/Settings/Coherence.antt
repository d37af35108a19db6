-- ===== src/Settings/Coherence.antt =====
-- galaxy_ng/app/models/config.py and galaxy_ng/app/tasks/settings_cache.py: the cached settings
-- and the lock after each operation.
use galaxy_ng.Prelude.{
  ℕ, ◌+◌, ◌≡◌, refl, Bool-cases, ◌∙◌, inl, inr, Text, text_eq_refl, Bool, List, [], ◌∷◌, Option,
  none, some, Option-cases, arith,
}
use galaxy_ng.Settings.Cache.{
  Redis, Conn, unset, live, Reply, nothing, token, lookup_text, remove_text, lock_key, acquire_lock,
  release_lock, update_setting_cache, get_settings_from_cache,
}
use galaxy_ng.Settings.Rows.{Row, Backend, as_dict, get_setting_from_db}
use galaxy_ng.Settings.Manager.{
  World, Outcome, returned, raised, save_new, prune, new_row, create_locked, create, committed,
  update_cache, set_value_in_db, delete_latest_version, settings_data,
}
use galaxy_ng.Settings.Locks.{
  IsAnswered, IsAnswered-acquire, IsAnswered-release, acquire_attempts_first, cached-acquire,
}

module _ (b : Backend) where
  -- What is read through the cache is what the table says.
  abbrev pub IsFresh : World → Type 0
  IsFresh w = settings_data b w ≡ as_dict b w.rows

  updated_cache :
      (d : List (Text × Text)) (rows : List Row) (c : Conn)
      → IsAnswered c
      → as_dict b rows ≡ d
      → settings_data b (record { rows = rows; conn = update_setting_cache d c }) ≡ d
  unfolding settings_data update_setting_cache get_settings_from_cache
  updated_cache d rows unset h e = e
  updated_cache [] rows (live r) h e = rw (h r.calls, h (r.calls + 1)) e
  updated_cache (x ∷ d) rows (live r) h e = rw (h r.calls, h (r.calls + 1)) refl

  update_cache-IsFresh : (w : World) → IsAnswered w.conn → IsFresh (update_cache b w)
  update_cache-IsFresh w h = updated_cache (as_dict b w.rows) w.rows w.conn h refl

  saved-IsFresh :
      (o : Outcome Row) (f : Row → World) (w : World)
      → ((r : Row) → IsAnswered (f r).conn)
      → IsFresh w
      → IsFresh
          (committed b
            (elim o [ returned new ↦ (returned new, f new) | raised e ↦ (raised e, w) ])).1
  saved-IsFresh (returned new) f w a h = update_cache-IsFresh (f new) (a new)
  saved-IsFresh (raised e) f w a h = h

  create_locked-IsFresh :
      (k value : Text) (user : Option ℕ) (secret : Bool) (rows : List Row) (lock : Reply)
      (conn : Conn)
      → IsAnswered conn
      → IsFresh (record { rows = rows; conn = conn })
      → IsFresh (committed b (create_locked b k value user secret rows lock conn)).1
  unfolding create_locked
  create_locked-IsFresh k value user secret rows nothing conn a h = h
  create_locked-IsFresh k value user secret rows other conn a h =
      saved-IsFresh (save_new b (new_row b k value user secret rows) rows) _ _
        (λ r. IsAnswered-release k other conn a) h

  acquired-IsFresh :
      (k t : Text) (w : World)
      → IsAnswered w.conn
      → IsFresh w
      → IsFresh (record w { conn = (acquire_lock k t w.conn).1 })
  unfolding settings_data
  acquired-IsFresh k t w a h = rw (cached-acquire k t w.conn a, settings_data) h

  -- Where every call of the cache is answered, or there is none, a write, also a refused one,
  -- keeps what is read through the cache equal to what the table says.
  pub set_value-IsFresh :
      (fresh : ℕ → Text) (key value : Text) (user : Option ℕ) (secret : Bool) (w : World)
      → IsAnswered w.conn
      → IsFresh w
      → IsFresh (set_value_in_db b fresh key value user secret w).1
  unfolding set_value_in_db create
  set_value-IsFresh fresh key value user secret w a h =
      rw (acquire_attempts_first 9 fresh (b.upperfy key) w.conn) (
        create_locked-IsFresh (b.upperfy key) value user secret w.rows _ _
          (IsAnswered-acquire (b.upperfy key) (fresh 9) w.conn a)
          (acquired-IsFresh (b.upperfy key) (fresh 9) w a h))

  -- Where every call of the cache is answered, or there is none, the deletion of the latest
  -- version, also of a key without one, keeps what is read through the cache equal to what the
  -- table says.
  pub delete_latest-IsFresh :
      (k : Text) (w : World)
      → IsAnswered w.conn
      → IsFresh w
      → IsFresh (delete_latest_version b k w).1
  unfolding delete_latest_version
  delete_latest-IsFresh k w a h = elim (Option-cases (get_setting_from_db b k w.rows)) [
    | inl absent ↦ rw (absent, delete_latest_version) h
    | inr (r, found) ↦ rw (found, delete_latest_version) (update_cache-IsFresh _ a)
  ]

lookup_remove : (k : Text) (m : List (Text × Text)) → lookup_text k (remove_text k m) ≡ none
lookup_remove k [] = refl
lookup_remove k ((j, v) ∷ m) = ground (arith, lookup_remove k m)

-- The token that stands under a lock, `none` if the lock is free or there is no connection.
abbrev pub lock_token : Text → World → Option Text
lock_token k w = elim w.conn [ live s ↦ lookup_text (lock_key k) s.locks | _ ↦ none ]

acquire_free :
    (k t : Text) (r : Redis)
    → IsAnswered (live r)
    → lookup_text (lock_key k) r.locks ≡ none
    → acquire_lock k t (live r)
      ≡ (token t, live (record r { locks = (lock_key k, t) ∷ r.locks; calls = r.calls + 1 }))
unfolding acquire_lock
acquire_free k t r a free = rw (a r.calls, free) refl

release_held :
    (k t : Text) (s : Redis) (rows : List Row)
    → IsAnswered (live s)
    → lookup_text (lock_key k) s.locks ≡ some t
    → lock_token k (record { rows = rows; conn = release_lock k (token t) (live s) }) ≡ none
unfolding release_lock
release_held k t s rows a held =
    rw (a s.calls, held, text_eq_refl t) (lookup_remove (lock_key k) s.locks)

cached_lock :
    (b : Backend) (k : Text) (w : World) → lock_token k (update_cache b w) ≡ lock_token k w
unfolding update_setting_cache
cached_lock b k w = go w.conn
  where
    go :
        (c : Conn)
        → lock_token k (record w { conn = update_setting_cache (as_dict b w.rows) c })
          ≡ lock_token k (record w { conn = c })
    go unset = refl
    go (live r) = elim (Bool-cases (r.faulty r.calls)) [
      | inl fault ↦ rw fault refl
      | inr fine ↦ rw fine refl
    ]

-- What a write with a given result leaves in its lock.
abbrev pub left_token : Text → Outcome Row → Option Text
left_token t (returned new) = none
left_token t (raised e) = some t

lock_token-committed :
    (b : Backend) (k t : Text) (o : Outcome Row) (f : Row → World) (w : World)
    → ((new : Row) → lock_token k (f new) ≡ none)
    → lock_token k w ≡ some t
    → let p =
        committed b (elim o [ returned new ↦ (returned new, f new) | raised e ↦ (raised e, w) ]) in
      lock_token k p.1 ≡ left_token t p.0
lock_token-committed b k t (returned new) f w h own = cached_lock b k (f new) ∙ h new
lock_token-committed b k t (raised e) f w h own = own

module _ (b : Backend) (fresh : ℕ → Text) (key value : Text) (user : Option ℕ) (secret : Bool)
    (w : World) (r : Redis) (is_live : w.conn ≡ live r) (answered : IsAnswered (live r))
    (free : lookup_text (lock_key (b.upperfy key)) r.locks ≡ none) where
  -- With a connection that answers every call and a free lock, a write that succeeds gives its
  -- lock back, and a write that is refused leaves its own token in the lock.
  pub lock_token-set_value :
      let p = set_value_in_db b fresh key value user secret w in
      lock_token (b.upperfy key) p.1 ≡ left_token (fresh 9) p.0
  unfolding set_value_in_db create create_locked
  lock_token-set_value =
      let k = b.upperfy key in
      let held : Redis = record r {
        locks = (lock_key k, fresh 9) ∷ r.locks;
        calls = r.calls + 1;
      } in
      let own : lookup_text (lock_key k) held.locks ≡ some (fresh 9) =
        rw (text_eq_refl (lock_key k)) refl in
      rw
        (acquire_attempts_first 9 fresh k w.conn, is_live, acquire_free k (fresh 9) r answered free)
        (lock_token-committed b k (fresh 9)
          (save_new b (new_row b k value user secret w.rows) w.rows) _ _
          (λ new. release_held k (fresh 9) held (prune b k new.version (new ∷ w.rows)) answered own)
          own)
