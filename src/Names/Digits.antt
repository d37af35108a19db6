-- ===== src/Names/Digits.antt =====
-- The numerals of Python: `str(n)`, `hex(n)` without its prefix, and `int(text, 16)` for texts of
-- digits.
use galaxy_ng.Prelude.{
  ℕ, zero, suc, ◌+◌, ◌-◌, ◌*◌, ◌/◌, ◌%◌, ◌≤◌, ◌<◌, ◌≡◌, refl, ap, ◌∙◌, inl, inr, Text, ltb, leb,
  true, false, ◌&&◌, [], ◌∷◌, ◌++◌, Option, none, some, if◌then◌else◌, Bool-cases, Option-cases,
  arith,
}

unfoldable pub digit_code : ℕ → ℕ
digit_code d = if ltb d 10 then 48 + d else 87 + d

unfoldable pub digit_value : ℕ → Option ℕ
digit_value c =
    if leb 48 c && leb c 57
    then some (c - 48)
    else if leb 97 c && leb c 102
    then some (c - 87)
    else if leb 65 c && leb c 70
    then some (c - 55)
    else none

-- Fuel above the number is enough.
unfoldable pub numeral : ℕ → ℕ → ℕ → Text
numeral base zero n = []
numeral base (suc fuel) n =
    let rest = numeral base fuel (n / base) in
    if ltb n base then digit_code n ∷ [] else rest ++ digit_code (n % base) ∷ []

unfoldable pub read : ℕ → ℕ → Text → Option ℕ
read base acc [] = some acc
read base acc (c ∷ s) = elim (digit_value c) [ none ↦ none | some d ↦ read base (acc * base + d) s ]

abbrev pub str : ℕ → Text
str n = numeral 10 (suc n) n

abbrev pub hex : ℕ → Text
hex n = numeral 16 (suc n) n

-- What the division by the base gives.
pub record IsBase (base : ℕ) : Type 0 where
  pub small : base ≤ 16
  pub joins : (n : ℕ) → n / base * base + n % base ≡ n
  pub shrinks : (n : ℕ) → base ≤ n → n / base < n
  pub digit : (n : ℕ) → n % base < base
  pub positive : 0 < base

pub ten : IsBase 10
ten = record {
  small = omega arith;
  joins = λ n. omega arith;
  shrinks = λ n h. omega arith;
  digit = λ n. omega arith;
  positive = omega arith;
}

pub sixteen : IsBase 16
sixteen = record {
  small = omega arith;
  joins = λ n. omega arith;
  shrinks = λ n h. omega arith;
  digit = λ n. omega arith;
  positive = omega arith;
}

digit_value-digit_code : (d : ℕ) → d < 16 → digit_value (digit_code d) ≡ some d
unfolding digit_value digit_code
digit_value-digit_code d h = ground arith

read-append :
    (base acc : ℕ) (s : Text) (v d : ℕ)
    → d < 16
    → read base acc s ≡ some v
    → read base acc (s ++ digit_code d ∷ []) ≡ some (v * base + d)
unfolding read
read-append base acc [] v d h e =
    rw (digit_value-digit_code d h, read)
      (ap (λ o. elim o as (λ x. Option ℕ) [ none ↦ none | some a ↦ some (a * base + d) ]) e)
read-append base acc (c ∷ s) v d h e = elim (Option-cases (digit_value c)) [
  | inl bad ↦ absurd (ground arith)
  | inr (x, good) ↦ rw (good, read) (read-append base (acc * base + x) s v d h (ground (arith, e)))
]

module _ (base : ℕ) (is_base : IsBase base) where
  small_digit : (n : ℕ) → ltb n base ≡ true → n < 16
  small_digit n small = ground (arith, is_base.small)

  zero_times : (n : ℕ) → 0 * base + n ≡ n
  zero_times n = omega arith

  read_digit : (n : ℕ) → n < 16 → read base 0 (digit_code n ∷ []) ≡ some n
  unfolding read
  read_digit n h = read-append base 0 [] 0 n h refl ∙ ap some (zero_times n)

  smaller : (fuel n : ℕ) → ltb n base ≡ false → n < suc fuel → n / base < fuel
  smaller fuel n big h =
      let up_to : base ≤ n = ground arith in omega (arith, is_base.shrinks n up_to)

  pub read-numeral : (fuel n : ℕ) → n < fuel → read base 0 (numeral base fuel n) ≡ some n
  unfolding numeral
  read-numeral zero n h = absurd (omega arith)
  read-numeral (suc fuel) n h = elim (Bool-cases (ltb n base)) [
    | inl small ↦ rw small (read_digit n (small_digit n small))
    | inr big ↦
        let rest = read-numeral fuel (n / base) (smaller fuel n big h) in
        rw big (
          read-append base 0 (numeral base fuel (n / base)) (n / base) (n % base)
            (omega (arith, is_base.small, is_base.digit n)) rest
          ∙ ap some (is_base.joins n))
  ]
