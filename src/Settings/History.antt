-- ===== src/Settings/History.antt =====
-- galaxy_ng/app/models/config.py: the versions that are kept of one key.
use galaxy_ng.Prelude.{
  ℕ, ◌+◌, ◌≤◌, ◌<◌, ◌≡◌, refl, ◌⊎◌, inl, inr, Bool, List, [], ◌∷◌, All, keep, length, Option, none,
  some, if◌then◌else◌, ltb, Bool-cases, Option-cases, arith,
}
use galaxy_ng.Settings.Rows.{Row, latest}

-- Strictly falling versions, all below `n`.
abbrev pub Falls : ℕ → List Row → Type 0
Falls n [] = Unit
Falls n (r ∷ rs) = (r.version < n) × Falls r.version rs

-- The rows of one key: strictly falling versions, none more than ten below the newest.
abbrev pub IsHistory : List Row → Type 0
IsHistory [] = Unit
IsHistory (r ∷ rs) = Falls r.version rs × All (λ s. r.version ≤ s.version + 10) rs

pub Falls-mono : (m n : ℕ) (xs : List Row) → m ≤ n → Falls m xs → Falls n xs
Falls-mono m n [] h f = tt
Falls-mono m n (r ∷ rs) h (f, fs) = (omega arith, fs)

pub Falls-keep : (p : Row → Bool) (n : ℕ) (xs : List Row) → Falls n xs → Falls n (keep p xs)
Falls-keep p n [] f = tt
Falls-keep p n (r ∷ rs) (f, fs) = ground (
  arith,
  Falls-keep p r.version rs fs,
  Falls-mono r.version n (keep p rs) (omega arith) (Falls-keep p r.version rs fs),
)

All-lower :
    (m n : ℕ) (xs : List Row)
    → m ≤ n
    → All (λ s. n ≤ s.version + 10) xs
    → All (λ s. m ≤ s.version + 10) xs
All-lower m n [] h a = tt
All-lower m n (r ∷ rs) h (a, as') = (omega arith, All-lower m n rs h as')

pub All-keep {ℓ κ} :
    {A : Type ℓ} (P : A → Type κ) (p : A → Bool) (xs : List A) → All P xs → All P (keep p xs)
All-keep P p [] a = tt
All-keep P p (x ∷ xs) (a, as') = elim (Bool-cases (p x)) [
  | inl e ↦ rw e (a, All-keep P p xs as')
  | inr e ↦ rw e (All-keep P p xs as')
]

IsHistory-tail :
    (n : ℕ) (xs : List Row) → Falls n xs → All (λ s. n ≤ s.version + 10) xs → IsHistory xs
IsHistory-tail n [] f a = tt
IsHistory-tail n (r ∷ rs) (f, fs) (a, as') = (fs, All-lower r.version n rs (omega arith) as')

pub IsHistory-keep : (p : Row → Bool) (xs : List Row) → IsHistory xs → IsHistory (keep p xs)
IsHistory-keep p [] h = tt
IsHistory-keep p (r ∷ rs) (f, a) = elim (Bool-cases (p r)) [
  | inl e ↦ rw e (Falls-keep p r.version rs f, All-keep _ p rs a)
  | inr e ↦ rw e (IsHistory-keep p rs (IsHistory-tail r.version rs f a))
]

length_of_Falls :
    (m n : ℕ) (xs : List Row)
    → Falls n xs
    → All (λ s. m ≤ s.version + 10) xs
    → length xs + m ≤ n + 10 ⊎ (xs ≡ [])
length_of_Falls m n [] f a = inr refl
length_of_Falls m n (r ∷ []) (f, fs) (a, as') = inl (omega arith)
length_of_Falls m n (r ∷ s ∷ rs) (f, fs) (a, as') =
    elim (length_of_Falls m r.version (s ∷ rs) fs as') [
      | inl h ↦ inl (omega arith)
      | inr h ↦ absurd (cc)
    ]

-- At most eleven versions of a key are kept.
pub IsHistory-length : (xs : List Row) → IsHistory xs → length xs ≤ 11
IsHistory-length [] h = omega arith
IsHistory-length (r ∷ rs) (f, a) = elim (length_of_Falls r.version r.version rs f a) [
  | inl h ↦ omega arith
  | inr h ↦ rw h (omega arith)
]

latest_of_Falls :
    (n : ℕ) (xs : List Row) (s : Row) → Falls n xs → latest xs ≡ some s → s.version < n
unfolding latest
latest_of_Falls n [] s f e = cc
latest_of_Falls n (r ∷ rs) s (f, fs) e = elim (Option-cases (latest rs)) [
  | inl none_left ↦ ground arith
  | inr (t, found) ↦ ground (arith, latest_of_Falls r.version rs t fs found)
]

-- The newest row of a history is its first.
pub latest_of_IsHistory : (r : Row) (rs : List Row) → Falls r.version rs → latest (r ∷ rs) ≡ some r
unfolding latest
latest_of_IsHistory r rs f = go (latest rs) (λ s. latest_of_Falls r.version rs s f)
  where
    go :
        (o : Option Row)
        → ((s : Row) → o ≡ some s → s.version < r.version)
        → (elim o [ none ↦ some r | some s ↦ if ltb r.version s.version then some s else some r ])
          ≡ some r
    go none h = refl
    go (some s) h = ground (arith, h s refl)
