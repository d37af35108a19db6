-- ===== src/Settings/Undo.antt =====
-- galaxy_ng/app/models/config.py: deleting the latest version takes the last write back.
use galaxy_ng.Prelude.{
  ℕ, ◌+◌, ◌-◌, ltb, ap, text_eq, text_eq_sound, text_eq_refl, ◌≡◌, refl, sym, ◌∙◌, inl, inr, Text,
  Bool, true, false, not, List, [], ◌∷◌, Option, some, ◌==◌, Bool-cases, arith,
}
use mathlib.Core.Path.{subst}
use galaxy_ng.Settings.Rows.{
  Row, Backend, UpperfyKeepsKey, exact_keys, same_key, filter_key, latest, get_setting_from_db,
}
use galaxy_ng.Settings.History.{Falls, Falls-mono, Falls-keep, IsHistory, latest_of_IsHistory}
use galaxy_ng.Settings.Manager.{
  World, returned, next_version, set_value_in_db, delete_rows, delete_row, prune,
  delete_latest_version,
}
use galaxy_ng.Settings.Writes.{
  filter_key-delete, of_versions, near, latest_next, Falls-latest_next, filter_key_same,
}
use galaxy_ng.Settings.Reads.{
  IsValid, IsAlone, IsAlone-delete, after_cases, new_fields, after-IsAlone, get_setting_stored,
  set_value-get_setting, filter_key-after_self,
}

abbrev pub differs : ℕ → ℕ → Bool
differs n v = not (v == n)

differs_of_Falls : (n : ℕ) (xs : List Row) → Falls n xs → of_versions (differs n) xs ≡ xs
differs_of_Falls n [] f = refl
differs_of_Falls n (r ∷ rs) (f, fs) =
    ground (arith, differs_of_Falls n rs (Falls-mono r.version n rs (omega arith) fs))

-- The pruning for the next version keeps the newest row.
latest-near :
    (xs : List Row) → IsHistory xs → latest (of_versions (near (latest_next xs)) xs) ≡ latest xs
unfolding latest_next
latest-near [] h = refl
latest-near (r ∷ rs) (f, a) =
    let next : latest_next (r ∷ rs) ≡ r.version + 1 =
      rw (latest_of_IsHistory r rs f, latest_next) refl in
    let kept : near (r.version + 1) r.version ≡ true = ground arith in
    rw (next, kept)
      (latest_of_IsHistory r _ (Falls-keep _ r.version rs f) ∙ sym (latest_of_IsHistory r rs f))

-- What a new row with the next version leaves of a history once that version is deleted.
undo_history :
    (new : Row) (xs : List Row)
    → IsHistory xs
    → new.version ≡ latest_next xs
    → latest (of_versions (differs new.version) (new ∷ of_versions (near new.version) xs))
      ≡ latest xs
undo_history new xs h e =
    let gone : differs new.version new.version ≡ false = ground arith in
    let below : Falls new.version (of_versions (near new.version) xs) =
      rw e (Falls-keep _ (latest_next xs) xs (Falls-latest_next xs h)) in
    rw (gone, differs_of_Falls new.version _ below)
      (subst (λ n. latest (of_versions (near n) xs) ≡ latest xs) (sym e) (latest-near xs h))

delete_latest_lem :
    (b : Backend) (k : Text) (w : World) (r : Row)
    → get_setting_from_db b k w.rows ≡ some r
    → ((delete_latest_version b k w).0 ≡ returned tt)
      × ((delete_latest_version b k w).1.rows ≡ delete_row b r w.rows)
unfolding delete_latest_version
delete_latest_lem b k w r e =
    (rw (e, delete_latest_version) refl, rw (e, delete_latest_version) refl)

-- A deletion under one key leaves what another one finds in any case.
filter_key-delete_other :
    (b : Backend) (k j : Text) (hit : ℕ → Bool) (rows : List Row)
    → same_key b j k ≡ false
    → filter_key b k (delete_rows (exact_keys b) j hit rows) ≡ filter_key b k rows
unfolding filter_key delete_rows
filter_key-delete_other b k j hit [] other = refl
filter_key-delete_other b k j hit (r ∷ rs) other = elim (Bool-cases (text_eq r.key j)) [
  | inr apart ↦ rw apart (ground (arith, filter_key-delete_other b k j hit rs other))
  | inl same ↦
      let skipped : same_key b r.key k ≡ false =
        ap (λ t. same_key b t k) (text_eq_sound r.key j same) ∙ other in
      ground (arith, same, skipped, filter_key-delete_other b k j hit rs other)
]

module _ (b : Backend) (fresh : ℕ → Text) (key value : Text) (user : Option ℕ) (secret : Bool)
    (w : World) (up : UpperfyKeepsKey b) (new : Row) (valid : IsValid b w.rows)
    (alone : IsAlone b (b.upperfy key) w.rows)
    (done : (set_value_in_db b fresh key value user secret w).0 ≡ returned new) where
  abbrev once : World
  once = (set_value_in_db b fresh key value user secret w).1

  abbrev undone : World
  undone = (delete_latest_version b key once).1

  abbrev its_key : Text
  its_key = b.upperfy key

  new_key : new.key ≡ its_key
  new_key = (new_fields b fresh key value user secret w new done).0

  read_back : get_setting_from_db b key once.rows ≡ some new
  read_back = (set_value-get_setting b fresh key value user secret w up new valid alone done).0

  undone_rows : undone.rows ≡ delete_rows (exact_keys b) its_key (λ v. v == new.version) once.rows
  undone_rows =
      (delete_latest_lem b key once new read_back).1
      ∙ ap (λ k. delete_rows (exact_keys b) k (λ v. v == new.version) once.rows) new_key

  next_is_latest_next : new.version ≡ latest_next (filter_key (exact_keys b) its_key w.rows)
  unfolding next_version latest_next get_setting_from_db
  next_is_latest_next = (new_fields b fresh key value user secret w new done).2

  undone_self :
      latest (filter_key (exact_keys b) its_key undone.rows)
      ≡ latest (filter_key (exact_keys b) its_key w.rows)
  undone_self =
      rw
        (
          undone_rows,
          filter_key-delete (exact_keys b) its_key its_key (λ v. v == new.version) once.rows,
          text_eq_refl its_key,
          filter_key-after_self b fresh key value user secret w new done,
        )
        (undo_history new (filter_key (exact_keys b) its_key w.rows) (valid its_key)
          next_is_latest_next)

  undone-IsAlone : IsAlone b its_key undone.rows
  undone-IsAlone = rw (delete_latest_lem b key once new read_back).1 (
      IsAlone-delete b (exact_keys b) its_key new.key (λ v. v == new.version) once.rows
        (after-IsAlone b fresh key value user secret w new done alone))

  undone_same_key : get_setting_from_db b key undone.rows ≡ get_setting_from_db b key w.rows
  undone_same_key =
      get_setting_stored b fresh key value user secret w up undone.rows undone-IsAlone
      ∙ undone_self
      ∙ sym (get_setting_stored b fresh key value user secret w up w.rows alone)

  filter_key-once :
      (k : Text) → same_key b its_key k ≡ false → filter_key b k once.rows ≡ filter_key b k w.rows
  unfolding prune filter_key
  filter_key-once k other =
      let skipped : same_key b new.key k ≡ false = rw new_key other in
      rw (after_cases b fresh key value user secret w new done).1 (
        filter_key-delete_other b k new.key (λ v. ltb v (new.version - 10)) (new ∷ w.rows) skipped
        ∙ rw skipped refl)

  -- If the versions of every key are well formed, upperfy changes no more than case, and no key of
  -- the table differs from the stored one in case only: deleting the latest version after a write
  -- that succeeded gives every key the setting that it had before the write.
  pub delete_latest-set_value :
      ((delete_latest_version b key once).0 ≡ returned tt)
      × ((k : Text) → get_setting_from_db b k undone.rows ≡ get_setting_from_db b k w.rows)
  unfolding get_setting_from_db
  delete_latest-set_value = (
    (delete_latest_lem b key once new read_back).0,
    λ k. elim (Bool-cases (same_key b key k)) [
      | inl e ↦
          ap latest (sym (filter_key_same b key k undone.rows e))
          ∙ undone_same_key
          ∙ ap latest (filter_key_same b key k w.rows e)
      | inr e ↦
          let other : same_key b its_key k ≡ false = rw (up key) e in
          ap latest (
            ap (filter_key b k) undone_rows
            ∙ filter_key-delete_other b k its_key (λ v. v == new.version) once.rows other
            ∙ filter_key-once k other)
    ],
  )
