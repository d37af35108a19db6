-- ===== src/Prelude/Texts.antt =====
-- Python texts as lists of code points: equality, case, prefixes, splitting.
-- Case mapping is that of ASCII letters.
use Prim.Native.Nat.{ℕ, zero, suc, ◌+◌, ◌-◌}
use Prim.Native.Char.{code}
use Prim.Native.String.{String}
use mathlib.Core.Path.{◌≡◌, refl}
use mathlib.Core.Logic.{◌↔◌}
use mathlib.Core.Bool.{Bool, true, false, ◌&&◌, ◌||◌}
use mathlib.Core.List.{List, [], ◌∷◌, ◌++◌, map}
use native.Mathlib.Omega.{arith}
use galaxy_ng.Prelude.Tests.{◌==◌, leb, if◌then◌else◌}
use galaxy_ng.Prelude.Lists.{length}

abbrev pub Text : Type 0
Text = List ℕ

abbrev pub codes : String → Text
codes String.[] = []
codes (String.◌∷◌ c s) = code c ∷ codes s

abbrev pub text_eq : Text → Text → Bool
text_eq [] [] = true
text_eq [] (d ∷ t) = false
text_eq (c ∷ s) [] = false
text_eq (c ∷ s) (d ∷ t) = c == d && text_eq s t

pub text_eq_sound : (s t : Text) → text_eq s t ≡ true → s ≡ t
text_eq_sound [] [] h = refl
text_eq_sound [] (d ∷ t) h = cc
text_eq_sound (c ∷ s) [] h = cc
text_eq_sound (c ∷ s) (d ∷ t) h = ground (arith, text_eq_sound s t)

pub text_eq_refl : (s : Text) → text_eq s s ≡ true
text_eq_refl [] = refl
text_eq_refl (c ∷ s) = ground (arith, text_eq_refl s)

pub text_eq_iff : (s t : Text) → (text_eq s t ≡ true) ↔ (s ≡ t)
text_eq_iff s t = (text_eq_sound s t, λ e. rw e (text_eq_refl t))

unfoldable pub lower_code : ℕ → ℕ
lower_code c = if leb b'A' c && leb c b'Z' then c + 32 else c

unfoldable pub upper_code : ℕ → ℕ
upper_code c = if leb b'a' c && leb c b'z' then c - 32 else c

unfoldable pub lower : Text → Text
unfolding lower_code
lower = map lower_code

unfoldable pub upper : Text → Text
unfolding upper_code
upper = map upper_code

abbrev pub starts_with : Text → Text → Bool
starts_with [] s = true
starts_with (p ∷ ps) [] = false
starts_with (p ∷ ps) (c ∷ s) = p == c && starts_with ps s

abbrev pub is_nil {ℓ} : {A : Type ℓ} → List A → Bool
is_nil [] = true
is_nil (x ∷ xs) = false

-- `t in s`
abbrev pub contains : Text → Text → Bool
contains t [] = is_nil t
contains t (c ∷ s) = starts_with t (c ∷ s) || contains t s

abbrev pub ends_with : Text → Text → Bool
ends_with t [] = is_nil t
ends_with t (c ∷ s) = text_eq t (c ∷ s) || ends_with t s

-- `s.replace(old, new)` for an `old` with a character: `skip` characters of a match are left over.
abbrev pub replace : Text → Text → ℕ → Text → Text
replace old new skip [] = []
replace old new (suc skip) (c ∷ s) = replace old new skip s
replace old new zero (c ∷ s) =
    let matched = replace old new (length old - 1) s in
    let rest = replace old new zero s in
    if starts_with old (c ∷ s) then new ++ matched else c ∷ rest
