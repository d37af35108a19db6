-- ===== src/Settings/Manager.antt =====
-- galaxy_ng/app/models/config.py: the operations of `SettingsManager` and `Setting` that write.
use galaxy_ng.Prelude.{
  ℕ, zero, suc, ◌+◌, ◌-◌, Text, text_eq, codes, Bool, true, not, ◌&&◌, List, [], ◌∷◌, any, keep,
  Option, none, some, if◌then◌else◌, ltb, ◌==◌,
}
use galaxy_ng.Settings.Cache.{
  Conn, Reply, nothing, acquire_lock, release_lock, update_setting_cache, get_settings_from_cache,
}
use galaxy_ng.Settings.Rows.{
  Row, Backend, exact_keys, same_key, get_setting_from_db, as_dict, base_key, stored_value,
}

pub record World : Type 0 where
  pub rows : List Row
  pub conn : Conn

pub data Error : Type 0 where
  no_lock not_allowed invalid does_not_exist : Error

pub data Outcome {ℓ} (A : Type ℓ) : Type ℓ where
  returned : A → Outcome A
  raised : Error → Outcome A

abbrev pub max_versions_to_keep : ℕ
max_versions_to_keep = 10

-- The keys of `DYNAMIC_SETTINGS_SCHEMA`.
abbrev pub schema_keys : List Text
schema_keys =
    codes "GALAXY_REQUIRE_CONTENT_APPROVAL"
    ∷ codes "GALAXY_REQUIRE_SIGNATURE_FOR_APPROVAL"
    ∷ codes "GALAXY_SIGNATURE_UPLOAD_ENABLED"
    ∷ codes "GALAXY_AUTO_SIGN_COLLECTIONS"
    ∷ codes "GALAXY_FEATURE_FLAGS"
    ∷ codes "INSIGHTS_TRACKING_STATE"
    ∷ codes "AUTOMATION_ANALYTICS_URL"
    ∷ codes "REDHAT_USERNAME"
    ∷ codes "REDHAT_PASSWORD"
    ∷ codes "AUTOMATION_ANALYTICS_LAST_GATHERED"
    ∷ codes "AUTOMATION_ANALYTICS_LAST_ENTRIES"
    ∷ codes "FOO"
    ∷ codes "BAR"
    ∷ []

unfoldable pub in_schema : Text → Bool
unfolding base_key
in_schema k = any (text_eq (base_key k)) schema_keys

-- The loop `for __ in range(10)`: only None makes it try again. `fresh` gives the uuid of a try.
unfoldable pub acquire_attempts : ℕ → (ℕ → Text) → Text → Conn → Reply × Conn
acquire_attempts zero fresh k conn = (nothing, conn)
acquire_attempts (suc n) fresh k conn =
    let again = acquire_attempts n fresh k (acquire_lock k (fresh n) conn).1 in
    elim (acquire_lock k (fresh n) conn).0 [
      | nothing ↦ again
      | other ↦ (other, (acquire_lock k (fresh n) conn).1)
    ]

-- A queryset's `delete()`: the rows of a key whose version is hit.
unfoldable pub delete_rows : Backend → Text → (ℕ → Bool) → List Row → List Row
delete_rows b k hit = keep (λ r. not (same_key b r.key k && hit r.version))

module _ (b : Backend) where
  -- `create` asks a plain queryset, which tells keys apart that differ in case.
  unfoldable pub next_version : Text → List Row → ℕ
  next_version k rows = elim (get_setting_from_db (exact_keys b) k rows) [
    | none ↦ 1
    | some r ↦ r.version + 1
  ]

  -- `filter(key=key, version__lt=new.version - MAX_VERSIONS_TO_KEEP).delete()`
  unfoldable pub prune : Text → ℕ → List Row → List Row
  prune k newest = delete_rows (exact_keys b) k (λ v. ltb v (newest - max_versions_to_keep))

  -- The model's `save` with its BEFORE_CREATE hook; what it raises leaves the lock held, and
  -- the transaction takes the rows back.
  unfoldable pub save_new : Row → List Row → Outcome Row
  save_new r rows =
      if in_schema r.key
      then if b.validates (as_dict b rows) r.key r.value then returned r else raised invalid
      else raised not_allowed

  unfoldable pub new_row : Text → Text → Option ℕ → Bool → List Row → Row
  unfolding stored_value
  new_row k value user secret rows = record {
    key = k;
    value = stored_value value;
    user = user;
    version = next_version k rows;
    is_secret = secret;
  }

  -- The rest of `create`, once the loop has left with `lock`.
  unfoldable pub create_locked :
      Text → Text → Option ℕ → Bool → List Row → Reply → Conn → Outcome Row × World
  create_locked k value user secret rows nothing conn =
      (raised no_lock, record { rows = rows; conn = conn })
  create_locked k value user secret rows lock conn =
      elim (save_new (new_row k value user secret rows) rows) [
        | raised e ↦ (raised e, record { rows = rows; conn = conn })
        | returned new ↦ (
          returned new,
          record { rows = prune k new.version (new ∷ rows); conn = release_lock k lock conn },
        )
      ]

  unfoldable pub create : (ℕ → Text) → Text → Text → Option ℕ → Bool → World → Outcome Row × World
  create fresh key value user secret w =
      let k = b.upperfy key in
      let (lock, conn) = acquire_attempts 10 fresh k w.conn in
      create_locked k value user secret w.rows lock conn

  abbrev pub update_cache : World → World
  update_cache w = record w { conn = update_setting_cache (as_dict b w.rows) w.conn }

  -- The hook AFTER_CREATE runs on commit, so only after a row was created.
  abbrev pub committed : Outcome Row × World → Outcome Row × World
  committed (returned r, w) = (returned r, update_cache w)
  committed (raised e, w) = (raised e, w)

  unfoldable pub set_value_in_db :
      (ℕ → Text) → Text → Text → Option ℕ → Bool → World → Outcome Row × World
  set_value_in_db fresh key value user secret w = committed (create fresh key value user secret w)

  unfoldable pub set_secret_in_db :
      (ℕ → Text) → Text → Text → Option ℕ → World → Outcome Row × World
  set_secret_in_db fresh key value user w = set_value_in_db fresh key value user true w

  -- The row that was found is deleted: there is one of its key and version.
  abbrev pub delete_row : Row → List Row → List Row
  delete_row r = delete_rows (exact_keys b) r.key (λ v. v == r.version)

  unfoldable pub delete_latest_version : Text → World → Outcome (Unit {0}) × World
  delete_latest_version k w = elim (get_setting_from_db b k w.rows) [
    | none ↦ (raised does_not_exist, w)
    | some r ↦ (returned tt, update_cache (record w { rows = delete_row r w.rows }))
  ]

  unfoldable pub delete_all_versions : Text → World → World
  delete_all_versions k w = update_cache (record w { rows = delete_rows b k (λ v. true) w.rows })

  unfoldable pub get_value_from_db : Text → World → Outcome Text
  get_value_from_db k w = elim (get_setting_from_db b k w.rows) [
    | none ↦ raised does_not_exist
    | some r ↦ returned r.value
  ]

  -- What `read_settings_from_cache_or_db` of galaxy_ng/app/dynaconf_hooks.py hands to dynaconf.
  unfoldable pub settings_data : World → List (Text × Text)
  settings_data w = elim (get_settings_from_cache w.conn) [
    | [] ↦ as_dict b w.rows
    | entry ∷ rest ↦ entry ∷ rest
  ]
