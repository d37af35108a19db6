-- ===== src/Settings/Reads.antt =====
-- galaxy_ng/app/models/config.py: what is read back after writes and deletions.
use galaxy_ng.Prelude.{
  ℕ, ◌≤◌, ◌≡◌, ◌∙◌, inl, inr, ap, Text, text_eq_refl, text_eq, sym, refl, [], All, Bool, true,
  false, not, ◌&&◌, List, ◌∷◌, length, Option, some, if◌then◌else◌, arith,
}
use galaxy_ng.Settings.Rows.{
  Row, Backend, UpperfyKeepsKey, exact_keys, latest, same_key, filter_key, get_setting_from_db,
  stored_value,
}
use galaxy_ng.Settings.History.{
  All-keep, IsHistory, IsHistory-keep, IsHistory-length, latest_of_IsHistory,
}
use galaxy_ng.Settings.Manager.{
  World, returned, prune, next_version, new_row, set_value_in_db, delete_rows,
}
use galaxy_ng.Settings.Writes.{
  filter_key-delete, filter_key-prune, of_versions, near, rewritten, new_row_fields,
  set_value_cases, set_value-IsHistory, filter_key_same,
}

-- No key of the table differs from a key in case only.
abbrev pub IsAlone : Backend → Text → List Row → Type 0
IsAlone b k rows = All (λ r. same_key b r.key k ≡ text_eq r.key k) rows

pub filter_key_alone :
    (b : Backend) (k : Text) (rows : List Row)
    → IsAlone b k rows
    → filter_key b k rows ≡ filter_key (exact_keys b) k rows
unfolding filter_key
filter_key_alone b k [] a = refl
filter_key_alone b k (r ∷ rs) (a, more) = rw (a, filter_key_alone b k rs more) refl

pub IsAlone-delete :
    (b c : Backend) (k j : Text) (hit : ℕ → Bool) (rows : List Row)
    → IsAlone b k rows
    → IsAlone b k (delete_rows c j hit rows)
unfolding delete_rows
IsAlone-delete b c k j hit rows alone =
    All-keep (λ r. same_key b r.key k ≡ text_eq r.key k)
      (λ r. not (same_key c r.key j && hit r.version)) rows alone

module _ (b : Backend) where
  abbrev pub IsValid : List Row → Type 0
  IsValid rows = (k : Text) → IsHistory (filter_key (exact_keys b) k rows)

  -- Any deletion leaves the rows of each key a history.
  pub delete_rows-IsValid :
      (j : Text) (hit : ℕ → Bool) (rows : List Row)
      → IsValid rows
      → IsValid (delete_rows (exact_keys b) j hit rows)
  delete_rows-IsValid j hit rows valid k =
      rw (filter_key-delete (exact_keys b) k j hit rows) (go (same_key (exact_keys b) j k))
    where
      go :
          (s : Bool)
          → IsHistory (
              if s
              then of_versions (λ v. not (hit v)) (filter_key (exact_keys b) k rows)
              else filter_key (exact_keys b) k rows)
      go true = IsHistory-keep _ _ (valid k)
      go false = valid k

  module _ (fresh : ℕ → Text) (key value : Text) (user : Option ℕ) (secret : Bool) (w : World) where
    abbrev pub after : World
    after = (set_value_in_db b fresh key value user secret w).1

    pub after_cases :
        (new : Row)
        → (set_value_in_db b fresh key value user secret w).0 ≡ returned new
        → (new ≡ new_row b (b.upperfy key) value user secret w.rows)
          × (after.rows ≡ prune b new.key new.version (new ∷ w.rows))
    after_cases new done = elim (set_value_cases b fresh key value user secret w) [
      | inl (e, failed, _) ↦ absurd (ground arith)
      | inr (saved, rows) ↦
          let is_new : new ≡ new_row b (b.upperfy key) value user secret w.rows = ground arith in
          (is_new, rw is_new rows)
    ]

    -- The rows of any key after a write that succeeded.
    pub filter_key-after :
        (new : Row) (k : Text)
        → (set_value_in_db b fresh key value user secret w).0 ≡ returned new
        → filter_key (exact_keys b) k after.rows ≡ rewritten b k new w.rows
    filter_key-after new k done =
        let (is_new, rows) = after_cases new done in rw rows (filter_key-prune b k new w.rows)

    pub after-IsValid : IsValid w.rows → IsValid after.rows
    after-IsValid valid k = set_value-IsHistory b fresh key value user secret w k valid

    -- Setting a value leaves the rows of every other key as they are, whether the write is refused
    -- or not; keys that differ in case are different here.
    pub set_value-other_key :
        (k : Text)
        → same_key (exact_keys b) (b.upperfy key) k ≡ false
        → filter_key (exact_keys b) k after.rows ≡ filter_key (exact_keys b) k w.rows
    set_value-other_key k other = elim (set_value_cases b fresh key value user secret w) [
      | inl (e, _, same) ↦ rw same
      | inr (saved, _) ↦
          let new = new_row b (b.upperfy key) value user secret w.rows in
          let differs : same_key (exact_keys b) new.key k ≡ false =
            rw (ap (λ r. r.key) (new_row_fields b (b.upperfy key) value user secret w.rows))
              other in
          filter_key-after new k saved ∙ rw differs
    ]

    -- Setting a value keeps the versions of every key, with keys in different case told apart,
    -- strictly falling from the newest row, and at most eleven of them, if they were so before.
    pub set_value-length :
        (k : Text)
        → IsValid w.rows
        → IsHistory (filter_key (exact_keys b) k after.rows)
          × (length (filter_key (exact_keys b) k after.rows) ≤ 11)
    set_value-length k valid = (
      after-IsValid valid k,
      IsHistory-length (filter_key (exact_keys b) k after.rows) (after-IsValid valid k),
    )

    abbrev pub stored_key : Text
    stored_key = b.upperfy key

    pub new_fields :
        (new : Row)
        → (set_value_in_db b fresh key value user secret w).0 ≡ returned new
        → (new.key ≡ stored_key)
          × (new.value ≡ stored_value value)
          × (new.version ≡ next_version b stored_key w.rows)
    new_fields new done =
        let is_new =
          (after_cases new done).0 ∙ new_row_fields b (b.upperfy key) value user secret w.rows in
        (ap (λ r. r.key) is_new, ap (λ r. r.value) is_new, ap (λ r. r.version) is_new)

    pub filter_key-after_self :
        (new : Row)
        → (set_value_in_db b fresh key value user secret w).0 ≡ returned new
        → filter_key (exact_keys b) stored_key after.rows
          ≡ new ∷ of_versions (near new.version) (filter_key (exact_keys b) stored_key w.rows)
    filter_key-after_self new done =
        let same : same_key (exact_keys b) new.key stored_key ≡ true =
          rw (new_fields new done).0 (text_eq_refl stored_key) in
        filter_key-after new stored_key done ∙ rw same

    pub after-IsAlone :
        (new : Row)
        → (set_value_in_db b fresh key value user secret w).0 ≡ returned new
        → IsAlone b stored_key w.rows
        → IsAlone b stored_key after.rows
    unfolding prune
    after-IsAlone new done alone =
        let own : same_key b new.key stored_key ≡ text_eq new.key stored_key =
          rw (new_fields new done).0
            (text_eq_refl (b.fold stored_key) ∙ sym (text_eq_refl stored_key)) in
        rw (after_cases new done).1
          (IsAlone-delete b (exact_keys b) stored_key new.key _ (new ∷ w.rows) (own, alone))

    module _ (up : UpperfyKeepsKey b) where
      -- The key that is stored and the key that was asked for are one to every query that folds.
      pub same-upperfy : same_key b stored_key key ≡ true
      same-upperfy = rw (up key) (text_eq_refl (b.fold key))

      pub get_setting_stored :
          (rows : List Row)
          → IsAlone b stored_key rows
          → get_setting_from_db b key rows ≡ latest (filter_key (exact_keys b) stored_key rows)
      unfolding get_setting_from_db
      get_setting_stored rows alone = ap latest (
          sym (filter_key_same b stored_key key rows same-upperfy)
          ∙ filter_key_alone b stored_key rows alone)

      -- If the versions of every key are well formed, upperfy changes no more than case, and no
      -- key of the table differs from the stored one in case only: a value that is set without an
      -- error is the one that is read back for its key, in its stored form and with the next
      -- version.
      pub set_value-get_setting :
          (new : Row)
          → IsValid w.rows
          → IsAlone b stored_key w.rows
          → (set_value_in_db b fresh key value user secret w).0 ≡ returned new
          → (get_setting_from_db b key after.rows ≡ some new)
            × (new.value ≡ stored_value value)
            × (new.version ≡ next_version b stored_key w.rows)
      set_value-get_setting new valid alone done =
          let all = filter_key-after_self new done in
          let (falls, _) = rw all at (after-IsValid valid stored_key) in
          let (_, value_kept, version_kept) = new_fields new done in
          (
            get_setting_stored after.rows (after-IsAlone new done alone)
                ∙ rw all (latest_of_IsHistory new _ falls),
            value_kept,
            version_kept,
          )
