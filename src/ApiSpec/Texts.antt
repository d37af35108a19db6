-- ===== src/ApiSpec/Texts.antt =====
-- The patterns and the text operations of galaxy_ng/app/utils/apispec/id_fix.py.
use galaxy_ng.Prelude.{
  ℕ, ◌==◌, Text, leb, Bool, true, false, ◌&&◌, List, [], ◌∷◌, ◌++◌, Option, none, some,
  if◌then◌else◌,
}

-- What `\{[^}]+\}` finds in a text, from the left: parameters, and the other characters.
pub data Piece : Type 0 where
  char : ℕ → Piece
  parameter : Text → Piece

abbrev pub chars : Text → List Piece
chars [] = []
chars (c ∷ s) = char c ∷ chars s

-- The state is what was read since an open brace.
abbrev pub scan : Option Text → Text → List Piece
scan none [] = []
scan (some b) [] = char b'{' ∷ chars b
scan none (c ∷ s) =
    let outer = scan none s in
    let opened = scan (some []) s in if c == b'{' then opened else char c ∷ outer
scan (some []) (c ∷ s) =
    let outer = scan none s in
    let more = scan (some (c ∷ [])) s in if c == b'}' then char b'{' ∷ char c ∷ outer else more
scan (some (d ∷ b)) (c ∷ s) =
    let outer = scan none s in
    let more = scan (some (d ∷ b ++ c ∷ [])) s in
    if c == b'}' then parameter (d ∷ b) ∷ outer else more

abbrev pub pieces : Text → List Piece
pieces = scan none

-- `TEMPLATE_PATTERN.sub("", s)`
abbrev pub literals : List Piece → Text
literals [] = []
literals (char c ∷ ps) = c ∷ literals ps
literals (parameter b ∷ ps) = literals ps

-- `PARAM_EXTRACT_PATTERN.findall(s)`
abbrev pub parameters : List Piece → List Text
parameters [] = []
parameters (char c ∷ ps) = parameters ps
parameters (parameter b ∷ ps) = b ∷ parameters ps

-- `TEMPLATE_PATTERN.fullmatch(s)`
abbrev pub is_parameter : List Piece → Bool
is_parameter (parameter b ∷ []) = true
is_parameter (parameter b ∷ p ∷ ps) = false
is_parameter (char c ∷ ps) = false
is_parameter [] = false

abbrev pub is_digit : ℕ → Bool
is_digit c = leb b'0' c && leb c b'9'

abbrev pub digits : Text → Text
digits [] = []
digits (c ∷ s) = let rest = digits s in if is_digit c then c ∷ rest else []

abbrev pub after_digits : Text → Text
after_digits [] = []
after_digits (c ∷ s) = let rest = after_digits s in if is_digit c then rest else c ∷ s

-- `"_".join(words)`
abbrev pub join : List Text → Text
join [] = []
join (w ∷ []) = w
join (w ∷ v ∷ ws) = w ++ b'_' ∷ join (v ∷ ws)

abbrev pub is_underscore : ℕ → Bool
is_underscore c = c == b'_'

abbrev pub push_underscore : ℕ → Text → Text
push_underscore c [] = c ∷ []
push_underscore c (d ∷ s) = if is_underscore c && is_underscore d then d ∷ s else c ∷ d ∷ s

-- `re.sub(r"_+", "_", s)`
abbrev pub collapse : Text → Text
collapse [] = []
collapse (c ∷ s) = push_underscore c (collapse s)

-- `s.replace("-", "_")`
abbrev pub dashes_replaced : Text → Text
dashes_replaced [] = []
dashes_replaced (c ∷ s) = (if c == b'-' then b'_' else c) ∷ dashes_replaced s

abbrev pub last {ℓ} : {A : Type ℓ} → List A → Option A
last [] = none
last (x ∷ []) = some x
last (x ∷ y ∷ xs) = last (y ∷ xs)

abbrev pub reverse_onto {ℓ} : {A : Type ℓ} → List A → List A → List A
reverse_onto acc [] = acc
reverse_onto acc (x ∷ xs) = reverse_onto (x ∷ acc) xs

abbrev pub reversed {ℓ} : {A : Type ℓ} → List A → List A
reversed = reverse_onto []
