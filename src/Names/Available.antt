-- ===== src/Names/Available.antt =====
-- galaxy_ng/app/utils/namespaces.py: the search for a free name ends, and finds the first one.
use galaxy_ng.Prelude.{
  ℕ, zero, suc, ◌≤◌, ◌<◌, ◌≡◌, ◌≢◌, refl, sym, ap, ◌∙◌, Text, text_eq, text_eq_sound, true, false,
  not, ◌||◌, List, [], ◌∷◌, ◌++◌, keep, length, some, ◌==◌, ==_iff, if◌then◌else◌, Bool-cases, inl,
  inr, arith,
}
use galaxy_ng.Names.Digits.{str, ten, read, read-numeral}
use galaxy_ng.Names.Namespaces.{
  is_taken, transform_namespace_name, generate_available_namespace_name,
}

-- Numbers with the same numeral are the same.
str_injective : (m n : ℕ) → str m ≡ str n → m ≡ n
str_injective m n e =
    let value_m = read-numeral 10 ten (suc m) m (omega arith) in
    let value_n = read-numeral 10 ten (suc n) n (omega arith) in
    some_injective (sym value_m ∙ ap (read 10 0) e ∙ value_n)
  where
    some_injective : some m ≡ some n → m ≡ n
    some_injective h = ground (arith, h)

append_cancel : (s t u : Text) → s ++ t ≡ s ++ u → t ≡ u
append_cancel [] t u e = e
append_cancel (c ∷ s) t u e = append_cancel s t u (ground (arith, e))

abbrev without : Text → List Text → List Text
without name = keep (λ n. not (text_eq n name))

length-without-le : (name : Text) (t : List Text) → length (without name t) ≤ length t
length-without-le name [] = omega arith
length-without-le name (n ∷ t) = ground (arith, length-without-le name t)

length-without :
    (name : Text) (t : List Text) → is_taken t name ≡ true → length (without name t) < length t
length-without name [] h = absurd (ground arith)
length-without name (n ∷ t) h = elim (Bool-cases (text_eq n name)) [
  | inl e ↦ ground (arith, length-without-le name t)
  | inr e ↦ ground (arith, length-without name t)
]

not_both : (n name other : Text) → name ≢ other → text_eq n name ≡ true → text_eq n other ≡ false
not_both n name other h e = elim (Bool-cases (text_eq n other)) [
  | inl e' ↦ absurd (h (sym (text_eq_sound n name e) ∙ text_eq_sound n other e'))
  | inr e' ↦ e'
]

is_taken-without :
    (name other : Text) (t : List Text)
    → name ≢ other
    → is_taken (without name t) other ≡ is_taken t other
is_taken-without name other [] h = refl
is_taken-without name other (n ∷ t) h = elim (Bool-cases (text_eq n name)) [
  | inl e ↦ rw (e, not_both n name other h e) (is_taken-without name other t h)
  | inr e ↦ rw e (ap (λ b. text_eq n other || b) (is_taken-without name other t h))
]

module _ (login : Text) where
  abbrev pub candidate : ℕ → Text
  candidate k = transform_namespace_name login ++ str k

  candidate_injective : (j k : ℕ) → candidate j ≡ candidate k → j ≡ k
  candidate_injective j k e =
      str_injective j k (append_cancel (transform_namespace_name login) (str j) (str k) e)

  loop_ext :
      (fuel : ℕ) (t t' : List Text) (c : ℕ)
      → ((k : ℕ) → c ≤ k → is_taken t (candidate k) ≡ is_taken t' (candidate k))
      → generate_available_namespace_name fuel t login c
        ≡ generate_available_namespace_name fuel t' login c
  unfolding generate_available_namespace_name
  loop_ext zero t t' c same = refl
  loop_ext (suc fuel) t t' c same =
      let later = loop_ext fuel t t' (suc c) (λ k h. same k (omega arith)) in
      rw (same c (omega arith))
        (ap (λ o. if is_taken t' (candidate c) then o else some (candidate c)) later)

  loop_some :
      (fuel : ℕ) (t : List Text) (c : ℕ)
      → length t < fuel
      → (name : Text) × (generate_available_namespace_name fuel t login c ≡ some name)
  unfolding generate_available_namespace_name
  loop_some zero t c h = absurd (omega arith)
  loop_some (suc fuel) t c h = elim (Bool-cases (is_taken t (candidate c))) [
    | inr free ↦ (candidate c, rw free refl)
    | inl taken ↦
        let t' = without (candidate c) t in
        let shorter = length-without (candidate c) t taken in
        let (name, found) = loop_some fuel t' (suc c) (omega (arith, shorter)) in
        let same = loop_ext fuel t' t (suc c) (λ k later.
          is_taken-without (candidate c) (candidate k) t
            (λ e. absurd (omega (arith, candidate_injective c k e)))) in
        (name, rw taken (sym same ∙ found))
  ]

  from_next :
      (c k : ℕ) (t : List Text) (j : ℕ)
      → is_taken t (candidate c) ≡ true
      → ((i : ℕ) → suc c ≤ i → i < k → is_taken t (candidate i) ≡ true)
      → c ≤ j
      → j < k
      → is_taken t (candidate j) ≡ true
  from_next c k t j taken before low high = elim (Bool-cases (c == j)) [
    | inl same ↦ rw (← (==_iff c j).0 same) taken
    | inr other ↦ before j (ground arith) high
  ]

  loop_first :
      (fuel : ℕ) (t : List Text) (c : ℕ) (name : Text)
      → generate_available_namespace_name fuel t login c ≡ some name
      → (k : ℕ) × (name ≡ candidate k)
        × (is_taken t (candidate k) ≡ false)
        × ((j : ℕ) → c ≤ j → j < k → is_taken t (candidate j) ≡ true)
  unfolding generate_available_namespace_name
  loop_first zero t c name e = cc
  loop_first (suc fuel) t c name e = elim (Bool-cases (is_taken t (candidate c))) [
    | inr free ↦ (c, ground arith, free, λ j low high. absurd (omega arith))
    | inl taken ↦
        let (k, is_name, is_free, before) = loop_first fuel t (suc c) name (ground arith) in
        (k, is_name, is_free, λ j low high. from_next c k t j taken before low high)
  ]

-- With more fuel than there are namespaces the search for a name ends: it gives the login with the
-- smallest number behind it that makes a name no namespace has.
pub generate_available_namespace_name_lem :
    (fuel : ℕ) (table : List Text) (login : Text)
    → length table < fuel
    → (k : ℕ) × (generate_available_namespace_name fuel table login 0 ≡ some (candidate login k))
      × (is_taken table (candidate login k) ≡ false)
      × ((j : ℕ) → j < k → is_taken table (candidate login j) ≡ true)
generate_available_namespace_name_lem fuel table login enough =
    let (name, found) = loop_some login fuel table 0 enough in
    let (k, is_name, is_free, before) = loop_first login fuel table 0 name found in
    (k, found ∙ ap some is_name, is_free, λ j less. before j (omega arith) less)
