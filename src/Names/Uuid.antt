-- ===== src/Names/Uuid.antt =====
-- galaxy_ng/app/utils/galaxy.py: uuids as numbers. A text that `int` refuses is `none`; the signs,
-- blanks and underscores that `int` also reads are not modelled.
use galaxy_ng.Prelude.{
  ℕ, zero, suc, ◌-◌, ◌/◌, ◌%◌, ◌<◌, ◌≡◌, refl, sym, ap, ◌∙◌, inl, inr, Text, ltb, ◌==◌, false, not,
  [], ◌∷◌, ◌++◌, keep, take, drop, length, Option, none, some, if◌then◌else◌, Bool-cases, arith,
}
use galaxy_ng.Names.Digits.{hex, read, numeral, sixteen, read-numeral, digit_code, digit_value}

unfoldable pub without_dashes : Text → Text
without_dashes = keep (λ c. not (c == b'-'))

-- `int(text, 16)` refuses a text without digits.
abbrev pub int_of : Text → Option ℕ
int_of [] = none
int_of (c ∷ s) = read 16 0 (c ∷ s)

unfoldable pub uuid_to_int : Text → Option ℕ
uuid_to_int uuid = int_of (without_dashes uuid)

abbrev pub zeros : ℕ → Text
zeros zero = []
zeros (suc n) = b'0' ∷ zeros n

unfoldable pub padded : Text → Text
padded d = if ltb (length d) 32 then zeros (32 - length d) ++ d else d

abbrev pub dash : Text → Text → Text
dash s t = s ++ b'-' ∷ t

-- The slices [0:8], [8:12], [12:16], [16:20] and [20:], joined by dashes.
abbrev pub dashed : Text → Text
dashed d =
    let rest = drop 8 d in
    let rest' = drop 4 rest in
    let rest'' = drop 4 rest' in
    dash (take 8 d)
      (dash (take 4 rest) (dash (take 4 rest') (dash (take 4 rest'') (drop 4 rest''))))

unfoldable pub int_to_uuid : ℕ → Text
unfolding padded
int_to_uuid n = dashed (padded (hex n))

without_dashes-append :
    (s t : Text) → without_dashes (s ++ t) ≡ without_dashes s ++ without_dashes t
unfolding without_dashes
without_dashes-append [] t = refl
without_dashes-append (c ∷ s) t = ground (arith, without_dashes-append s t)

take-drop : (n : ℕ) (s : Text) → take n s ++ drop n s ≡ s
take-drop zero s = refl
take-drop (suc n) [] = refl
take-drop (suc n) (c ∷ s) = ap (λ t. c ∷ t) (take-drop n s)

without_dashes-dash :
    (n : ℕ) (s t : Text)
    → without_dashes t ≡ without_dashes (drop n s)
    → without_dashes (dash (take n s) t) ≡ without_dashes s
unfolding without_dashes
without_dashes-dash n s t e =
    without_dashes-append (take n s) (b'-' ∷ t)
    ∙ ap (λ u. without_dashes (take n s) ++ u) e
    ∙ sym (without_dashes-append (take n s) (drop n s))
    ∙ ap without_dashes (take-drop n s)

-- Dashing changes no other character.
without_dashes-dashed : (d : Text) → without_dashes (dashed d) ≡ without_dashes d
without_dashes-dashed d =
    let d2 = drop 4 (drop 8 d) in
    without_dashes-dash 8 d _ (
      without_dashes-dash 4 (drop 8 d) _
        (without_dashes-dash 4 d2 _ (without_dashes-dash 4 (drop 4 d2) _ refl)))

no_dash_digit : (d : ℕ) → d < 16 → (digit_code d == b'-') ≡ false
unfolding digit_code
no_dash_digit d h = ground arith

kept : (c : ℕ) → (c == b'-') ≡ false → without_dashes (c ∷ []) ≡ c ∷ []
unfolding without_dashes
kept c h = rw h refl

without_dashes-numeral : (fuel n : ℕ) → without_dashes (numeral 16 fuel n) ≡ numeral 16 fuel n
unfolding without_dashes numeral
without_dashes-numeral zero n = refl
without_dashes-numeral (suc fuel) n = elim (Bool-cases (ltb n 16)) [
  | inl small ↦ rw (small, no_dash_digit n (ground arith)) refl
  | inr big ↦
      let last = no_dash_digit (n % 16) (omega arith) in
      rw (big, without_dashes-append (numeral 16 fuel (n / 16)) (digit_code (n % 16) ∷ []))
        (ap (λ t. t ++ without_dashes (digit_code (n % 16) ∷ []))
            (without_dashes-numeral fuel (n / 16))
          ∙ ap (λ t. numeral 16 fuel (n / 16) ++ t) (kept (digit_code (n % 16)) last))
]

without_dashes-zeros :
    (n : ℕ) (s : Text) → without_dashes (zeros n ++ s) ≡ zeros n ++ without_dashes s
unfolding without_dashes
without_dashes-zeros zero s = refl
without_dashes-zeros (suc n) s = ap (λ t. b'0' ∷ t) (without_dashes-zeros n s)

read-zeros : (n : ℕ) (s : Text) → read 16 0 (zeros n ++ s) ≡ read 16 0 s
unfolding read digit_value
read-zeros zero s = refl
read-zeros (suc n) s = read-zeros n s

-- The number of a text that ends in a digit is read.
int_of-append : (s : Text) (c : ℕ) → int_of (s ++ c ∷ []) ≡ read 16 0 (s ++ c ∷ [])
int_of-append [] c = refl
int_of-append (d ∷ s) c = refl

int_of-zeros : (n : ℕ) (s : Text) → int_of s ≡ read 16 0 s → int_of (zeros n ++ s) ≡ read 16 0 s
int_of-zeros zero s e = e
int_of-zeros (suc n) s e = read-zeros (suc n) s

int_of-numeral :
    (fuel n : ℕ) → int_of (numeral 16 (suc fuel) n) ≡ read 16 0 (numeral 16 (suc fuel) n)
unfolding numeral
int_of-numeral fuel n = elim (Bool-cases (ltb n 16)) [
  | inl small ↦ rw small refl
  | inr big ↦ rw big (int_of-append (numeral 16 fuel (n / 16)) (digit_code (n % 16)))
]

int_of-padded : (n : ℕ) → int_of (padded (hex n)) ≡ some n
unfolding padded
int_of-padded n =
    let whole = int_of-numeral n n in
    let value = read-numeral 16 sixteen (suc n) n (omega arith) in
    elim (Bool-cases (ltb (length (hex n)) 32)) [
      | inl short ↦ rw short (int_of-zeros (32 - length (hex n)) (hex n) whole ∙ value)
      | inr long ↦ rw long (whole ∙ value)
    ]

without_dashes-padded : (n : ℕ) → without_dashes (padded (hex n)) ≡ padded (hex n)
unfolding padded
without_dashes-padded n =
    let same = without_dashes-numeral (suc n) n in
    elim (Bool-cases (ltb (length (hex n)) 32)) [
      | inl short ↦ rw short (
          without_dashes-zeros (32 - length (hex n)) (hex n)
          ∙ ap (λ t. zeros (32 - length (hex n)) ++ t) same)
      | inr long ↦ rw long same
    ]

-- A number that is written as a uuid is read back from it, whatever its size.
pub uuid_to_int-int_to_uuid : (n : ℕ) → uuid_to_int (int_to_uuid n) ≡ some n
unfolding uuid_to_int int_to_uuid
uuid_to_int-int_to_uuid n =
    ap int_of (without_dashes-dashed (padded (hex n)) ∙ without_dashes-padded n) ∙ int_of-padded n
