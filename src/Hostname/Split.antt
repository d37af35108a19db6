-- ===== src/Hostname/Split.antt =====
-- `split` and `strip` of Python, for a single separator. Blanks are those of ASCII.
use galaxy_ng.Prelude.{
  ℕ, ◌==◌, ==_iff, ◌≡◌, refl, ap, ◌∙◌, inl, inr, Text, leb, Bool, true, false, not, ◌&&◌, ◌||◌,
  List, [], ◌∷◌, ◌++◌, all, Option, none, some, if◌then◌else◌, Bool-cases, arith,
}

abbrev pub cons_first : ℕ → List Text → List Text
cons_first c [] = (c ∷ []) ∷ []
cons_first c (x ∷ xs) = (c ∷ x) ∷ xs

abbrev pub split_on : ℕ → Text → List Text
split_on d [] = [] ∷ []
split_on d (c ∷ s) = let rest = split_on d s in if c == d then [] ∷ rest else cons_first c rest

-- `text.split(d, 1)` where the separator occurs.
abbrev pub cut : ℕ → Text → Option (Text × Text)
cut d [] = none
cut d (c ∷ s) =
    let rest = cut d s in
    if c == d then some ([], s) else elim rest [ none ↦ none | some p ↦ some (c ∷ p.0, p.1) ]

abbrev pub is_blank : ℕ → Bool
is_blank c = c == 32 || (leb 9 c && leb c 13) || (leb 28 c && leb c 31)

abbrev pub is_quote : ℕ → Bool
is_quote c = c == b'"'

abbrev pub lstrip : (ℕ → Bool) → Text → Text
lstrip p [] = []
lstrip p (c ∷ s) = if p c then lstrip p s else c ∷ s

abbrev pub keep_last : (ℕ → Bool) → ℕ → Text → Text
keep_last p c [] = if p c then [] else c ∷ []
keep_last p c (d ∷ r) = c ∷ d ∷ r

abbrev pub rstrip : (ℕ → Bool) → Text → Text
rstrip p [] = []
rstrip p (c ∷ s) = keep_last p c (rstrip p s)

abbrev pub strip_of : (ℕ → Bool) → Text → Text
strip_of p s = rstrip p (lstrip p s)

-- A text without a character.
abbrev pub lacks : ℕ → Text → Bool
lacks d = all (λ c. not (c == d))

cons_first-append :
    (c : ℕ) (d : ℕ) (s : Text) (ys : List Text)
    → cons_first c (split_on d s ++ ys) ≡ cons_first c (split_on d s) ++ ys
cons_first-append c d [] ys = refl
cons_first-append c d (e ∷ s) ys = elim (Bool-cases (e == d)) [
  | inl same ↦ rw same refl
  | inr other ↦ rw other (go (split_on d s))
]
  where
    go :
        (xs : List Text)
        → cons_first c (cons_first e xs ++ ys) ≡ cons_first c (cons_first e xs) ++ ys
    go [] = refl
    go (x ∷ xs) = refl

pub split_on-append : (d : ℕ) (s t : Text) → split_on d (s ++ d ∷ t) ≡ split_on d s ++ split_on d t
split_on-append d [] t = rw ((==_iff d d).1 refl) refl
split_on-append d (c ∷ s) t = elim (Bool-cases (c == d)) [
  | inl same ↦ rw same (ap (λ xs. [] ∷ xs) (split_on-append d s t))
  | inr other ↦
      rw other (ap (cons_first c) (split_on-append d s t) ∙ cons_first-append c d s (split_on d t))
]

pub split_on-whole : (d : ℕ) (s : Text) → lacks d s ≡ true → split_on d s ≡ s ∷ []
split_on-whole d [] h = refl
split_on-whole d (c ∷ s) h = elim (Bool-cases (c == d)) [
  | inl same ↦ absurd (ground arith)
  | inr other ↦ rw other (ap (cons_first c) (split_on-whole d s (ground arith)))
]

rstrip_clean : (p : ℕ → Bool) (s : Text) → all (λ c. not (p c)) s ≡ true → rstrip p s ≡ s
rstrip_clean p [] h = refl
rstrip_clean p (c ∷ s) h = rw (rstrip_clean p s (ground (arith, h))) (go s)
  where
    first_kept : p c ≡ false
    first_kept = ground (arith, h)

    go : (r : Text) → keep_last p c r ≡ c ∷ r
    go [] = rw first_kept refl
    go (d ∷ r) = refl

pub strip_of_clean : (p : ℕ → Bool) (s : Text) → all (λ c. not (p c)) s ≡ true → strip_of p s ≡ s
strip_of_clean p [] h = refl
strip_of_clean p (c ∷ s) h =
    let first_kept : p c ≡ false = ground (arith, h) in rw first_kept (rstrip_clean p (c ∷ s) h)
