-- ===== src/ApiSpec/Distinct.antt =====
-- galaxy_ng/app/utils/apispec/id_fix.py: when the numbers make the ids distinct.
use galaxy_ng.Prelude.{
  ℕ, zero, suc, ◌+◌, ◌/◌, ◌%◌, ◌<◌, ◌≡◌, ◌≢◌, refl, sym, ap, ◌∙◌, Text, text_eq_iff, true, List, [],
  ◌∷◌, ◌++◌, All, Option, some, inl, inr, Bool-cases, ltb, arith,
}
use galaxy_ng.Hostname.Split.{lacks}
use galaxy_ng.Names.Digits.{str, numeral, digit_code, read, read-numeral, ten}
use galaxy_ng.ApiSpec.Unique.{Transformed, ids_of, occurrences, number_paths}
use galaxy_ng.ApiSpec.Numbering.{
  numbered, numbered_all, occurrences_cons, number_paths-numbered_all,
}

abbrev pub Pairwise {ℓ κ} : {A : Type ℓ} → (A → A → Type κ) → List A → Type κ
Pairwise R [] = Unit
Pairwise R (x ∷ xs) = All (R x) xs × Pairwise R xs

abbrev pub Distinct : List Text → Type 0
Distinct = Pairwise (λ (x y : Text). x ≢ y)

-- Neither text is the other one with a number behind it.
abbrev pub Apart : Text → Text → Type 0
Apart x y = (n : ℕ) → (y ≢ x ++ b'_' ∷ str n) × (x ≢ y ++ b'_' ∷ str n)

lacks-append : (d : ℕ) (s t : Text) → lacks d s ≡ true → lacks d t ≡ true → lacks d (s ++ t) ≡ true
lacks-append d [] t hs ht = ht
lacks-append d (c ∷ s) t hs ht = ground (arith, lacks-append d s t)

lacks_not : (d : ℕ) (s t : Text) → lacks d (s ++ d ∷ t) ≢ true
lacks_not d [] t h = ground arith
lacks_not d (c ∷ s) t h = ground (arith, lacks_not d s t)

digit_lacks : (n : ℕ) → n < 10 → lacks b'_' (digit_code n ∷ []) ≡ true
unfolding digit_code
digit_lacks n h = ground arith

numeral-lacks : (fuel n : ℕ) → lacks b'_' (numeral 10 fuel n) ≡ true
unfolding numeral
numeral-lacks zero n = refl
numeral-lacks (suc fuel) n = elim (Bool-cases (ltb n 10)) [
  | inl small ↦ rw small (digit_lacks n (ground arith))
  | inr big ↦ rw big (
      lacks-append b'_' (numeral 10 fuel (n / 10)) (digit_code (n % 10) ∷ [])
        (numeral-lacks fuel (n / 10)) (digit_lacks (n % 10) (omega arith)))
]

some_inj : (m n : ℕ) → ◌≡◌ {A = Option ℕ} (some m) (some n) → m ≡ n
some_inj m n e = cc

str_inj : (m n : ℕ) → str m ≡ str n → m ≡ n
str_inj m n e = some_inj m n (
    sym (read-numeral 10 ten (suc m) m (omega arith))
    ∙ ap (read 10 0) e
    ∙ read-numeral 10 ten (suc n) n (omega arith))

-- Where the separator stands in neither end, the last one divides a text in one way.
last_separator :
    (d : ℕ) (x y s t : Text)
    → lacks d s ≡ true
    → lacks d t ≡ true
    → x ++ d ∷ s ≡ y ++ d ∷ t
    → (x ≡ y) × (s ≡ t)
last_separator d [] [] s t hs ht e = (refl, cc)
last_separator d [] (c ∷ y) s t hs ht e =
    absurd (lacks_not d y t (let e' : s ≡ y ++ d ∷ t = cc in rw (← e') hs))
last_separator d (c ∷ x) [] s t hs ht e =
    absurd (lacks_not d x s (let e' : t ≡ x ++ d ∷ s = cc in rw (← e') ht))
last_separator d (c ∷ x) (b ∷ y) s t hs ht e =
    let tails : x ++ d ∷ s ≡ y ++ d ∷ t = cc in
    let parts = last_separator d x y s t hs ht tails in (cc (parts.0, e), parts.1)

numbered_inj : (x y : Text) (m n : ℕ) → Apart x y → numbered x m ≡ numbered y n → (x ≡ y) × (m ≡ n)
numbered_inj x y zero zero h e = (e, refl)
numbered_inj x y zero (suc n) h e = absurd ((h (suc n + 1)).1 e)
numbered_inj x y (suc m) zero h e = absurd ((h (suc m + 1)).0 (sym e))
numbered_inj x y (suc m) (suc n) h e =
    let parts =
      last_separator b'_' x y (str (suc m + 1)) (str (suc n + 1)) (numeral-lacks _ _)
        (numeral-lacks _ _) e in
    let same = str_inj (suc m + 1) (suc n + 1) parts.1 in (parts.0, omega (arith, same))

later-≢ :
    (i : Text) (m : ℕ) (earlier ids : List Text)
    → m < occurrences i earlier
    → All (Apart i) ids
    → All (λ y. numbered i m ≢ y) (numbered_all earlier ids)
later-≢ i m earlier [] h apart = tt
later-≢ i m earlier (j ∷ ids) h apart = (here, later-≢ i m (j ∷ earlier) ids more apart.1)
  where
    here : numbered i m ≢ numbered j (occurrences j earlier)
    here e =
        let same = numbered_inj i j m (occurrences j earlier) apart.0 e in
        let counts : occurrences i earlier ≡ occurrences j earlier =
          ap (λ k. occurrences k earlier) same.0 in
        absurd (omega (arith, h, same.1, counts))

    more : m < occurrences i (j ∷ earlier)
    more = ground (arith, occurrences_cons i j earlier)

numbered_all-Distinct :
    (earlier ids : List Text) → Pairwise Apart ids → Distinct (numbered_all earlier ids)
numbered_all-Distinct earlier [] h = tt
numbered_all-Distinct earlier (i ∷ ids) h = (
  later-≢ i (occurrences i earlier) (i ∷ earlier) ids
      (ground (arith, occurrences_cons i i earlier, text_eq_iff i i)) h.0,
  numbered_all-Distinct (i ∷ earlier) ids h.1,
)

-- The numbers that equal operation ids get make all ids distinct, if none of the ids is another
-- one with an underscore and a number behind it.
pub number_paths-Distinct :
    (t : Transformed) → Pairwise Apart (ids_of t) → Distinct (ids_of (number_paths [] t))
number_paths-Distinct t h = rw (number_paths-numbered_all t) (numbered_all-Distinct [] (ids_of t) h)
