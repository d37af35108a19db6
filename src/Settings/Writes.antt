-- ===== src/Settings/Writes.antt =====
-- galaxy_ng/app/models/config.py: what a write leaves in the table, for the key and for all others.
use galaxy_ng.Prelude.{
  ℕ, ◌+◌, ◌-◌, ◌≤◌, ◌≡◌, refl, ◌∙◌, ◌⊎◌, inl, inr, Text, text_eq_iff, text_eq_sound, Bool, true,
  not, List, [], ◌∷◌, All, keep, Option, none, some, if◌then◌else◌, ltb, Bool-cases, arith,
}
use galaxy_ng.Settings.Rows.{
  Row, Backend, exact_keys, same_key, filter_key, latest, get_setting_from_db, stored_value,
}
use galaxy_ng.Settings.History.{Falls, IsHistory, latest_of_IsHistory, Falls-keep}
use galaxy_ng.Settings.Locks.{set_value_in_db-written}
use galaxy_ng.Settings.Manager.{
  World, Error, Outcome, returned, raised, next_version, prune, new_row, save_new, set_value_in_db,
  delete_rows,
}

-- Rows of one key, filtered by a test on their versions.
abbrev pub of_versions : (ℕ → Bool) → List Row → List Row
of_versions p = keep (λ r. p r.version)

-- The versions that the pruning for a new version keeps.
abbrev pub near : ℕ → ℕ → Bool
near newest v = not (ltb v (newest - 10))

near_versions : (n : ℕ) (xs : List Row) → All (λ s. n ≤ s.version + 10) (of_versions (near n) xs)
near_versions n [] = tt
near_versions n (r ∷ rs) = elim (Bool-cases (near n r.version)) [
  | inl e ↦ rw e (ground arith, near_versions n rs)
  | inr e ↦ rw e (near_versions n rs)
]

unfoldable pub latest_next : List Row → ℕ
latest_next xs = elim (latest xs) [ none ↦ 1 | some r ↦ r.version + 1 ]

pub Falls-latest_next : (xs : List Row) → IsHistory xs → Falls (latest_next xs) xs
unfolding latest_next
Falls-latest_next [] h = tt
Falls-latest_next (r ∷ rs) (f, a) = rw (latest_of_IsHistory r rs f, latest_next) (omega arith, f)

module _ (b : Backend) where
  pub filter_key-delete :
      (k j : Text) (hit : ℕ → Bool) (rows : List Row)
      → filter_key b k (delete_rows b j hit rows) ≡ (
          if same_key b j k
          then of_versions (λ v. not (hit v)) (filter_key b k rows)
          else filter_key b k rows)
  unfolding filter_key delete_rows
  filter_key-delete k j hit [] = ground arith
  filter_key-delete k j hit (r ∷ rs) = ground (
    arith,
    filter_key-delete k j hit rs,
    text_eq_iff (b.fold r.key) (b.fold j),
    text_eq_iff (b.fold r.key) (b.fold k),
    text_eq_iff (b.fold j) (b.fold k),
  )

  pub filter_key_same :
      (j k : Text) (rows : List Row)
      → same_key b j k ≡ true
      → filter_key b j rows ≡ filter_key b k rows
  unfolding filter_key
  filter_key_same j k rows e = rw (text_eq_sound (b.fold j) (b.fold k) e)

module _ (b : Backend) where
  pub filter_key-prune :
      (k : Text) (new : Row) (rows : List Row)
      → filter_key (exact_keys b) k (prune b new.key new.version (new ∷ rows)) ≡ (
          if same_key (exact_keys b) new.key k
          then new ∷ of_versions (near new.version) (filter_key (exact_keys b) k rows)
          else filter_key (exact_keys b) k rows)
  unfolding prune filter_key
  filter_key-prune k new rows =
      filter_key-delete (exact_keys b) k new.key (λ v. ltb v (new.version - 10)) (new ∷ rows)
      ∙ elim (Bool-cases (same_key (exact_keys b) new.key k)) [
        | inl e ↦ rw e (ground arith)
        | inr e ↦ rw e
      ]

  pub Falls-next_version :
      (k : Text) (rows : List Row)
      → IsHistory (filter_key (exact_keys b) k rows)
      → Falls (next_version b k rows) (filter_key (exact_keys b) k rows)
  unfolding next_version get_setting_from_db latest_next
  Falls-next_version k rows h = Falls-latest_next (filter_key (exact_keys b) k rows) h

  -- What a successful write leaves of one key.
  abbrev pub rewritten : Text → Row → List Row → List Row
  rewritten k new rows =
      if same_key (exact_keys b) new.key k
      then new ∷ of_versions (near new.version) (filter_key (exact_keys b) k rows)
      else filter_key (exact_keys b) k rows

  Outcome-cases {ℓ} :
      {A : Type ℓ} (o : Outcome A) → ((e : Error) × (o ≡ raised e)) ⊎ ((a : A) × (o ≡ returned a))
  Outcome-cases (raised e) = inl (e, refl)
  Outcome-cases (returned a) = inr (a, refl)

  pub new_row_fields :
      (k value : Text) (user : Option ℕ) (secret : Bool) (rows : List Row)
      → new_row b k value user secret rows ≡ record {
        key = k;
        value = stored_value value;
        user = user;
        version = next_version b k rows;
        is_secret = secret;
      }
  unfolding new_row
  new_row_fields k value user secret rows = refl

  save_new-eq-returned :
      (r new : Row) (rows : List Row) → save_new b r rows ≡ returned new → new ≡ r
  unfolding save_new
  save_new-eq-returned r new rows h = ground arith

  module _ (fresh : ℕ → Text) (key value : Text) (user : Option ℕ) (secret : Bool) (w : World) where
    abbrev outcome : Outcome Row × World
    outcome = set_value_in_db b fresh key value user secret w

    abbrev the_row : Row
    the_row = new_row b (b.upperfy key) value user secret w.rows

    -- Either the write was refused and the rows are the old ones, or the new row was stored.
    pub set_value_cases :
        ((e : Error) × (outcome.0 ≡ raised e) × (outcome.1.rows ≡ w.rows))
        ⊎ ((outcome.0 ≡ returned the_row)
            × (outcome.1.rows ≡ prune b the_row.key the_row.version (the_row ∷ w.rows)))
    unfolding new_row
    set_value_cases =
        let same = set_value_in_db-written b fresh key value user secret w in
        elim (Outcome-cases (save_new b the_row w.rows)) [
          | inl (e, failed) ↦ inl (e, ground (arith, same), ground (arith, same))
          | inr (new, saved) ↦
              let is_row = save_new-eq-returned the_row new w.rows saved in
              inr (ground (arith, same), ground (arith, same))
        ]

    pub next-IsHistory :
        (k : Text)
        → ((j : Text) → IsHistory (filter_key (exact_keys b) j w.rows))
        → IsHistory (rewritten k the_row w.rows)
    unfolding new_row
    next-IsHistory k valid = elim (Bool-cases (same_key (exact_keys b) (b.upperfy key) k)) [
      | inl e ↦
          let n = next_version b (b.upperfy key) w.rows in
          rw e (
            Falls-keep (λ r. near n r.version) n (filter_key (exact_keys b) k w.rows)
                (rw (filter_key_same (exact_keys b) (b.upperfy key) k w.rows e) at
                  (Falls-next_version (b.upperfy key) w.rows (valid (b.upperfy key)))),
            near_versions n (filter_key (exact_keys b) k w.rows),
          )
      | inr e ↦ rw e (valid k)
    ]

    -- Every write, also a refused one, leaves the rows of each key a history.
    pub set_value-IsHistory :
        (k : Text)
        → ((j : Text) → IsHistory (filter_key (exact_keys b) j w.rows))
        → IsHistory (filter_key (exact_keys b) k outcome.1.rows)
    set_value-IsHistory k valid = elim set_value_cases [
      | inl (e, _, same) ↦ rw same (valid k)
      | inr (_, stored_rows) ↦
          rw (stored_rows, filter_key-prune k the_row w.rows) (next-IsHistory k valid)
    ]
