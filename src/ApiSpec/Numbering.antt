-- ===== src/ApiSpec/Numbering.antt =====
-- galaxy_ng/app/utils/apispec/id_fix.py: the numbers that equal ids get, and when they make ids
-- distinct.
use galaxy_ng.Prelude.{
  ℕ, zero, suc, ◌+◌, ◌≡◌, refl, sym, ap, ◌∙◌, Text, text_eq, text_eq_iff, List, [], ◌∷◌, ◌++◌,
  Option, none, some, if◌then◌else◌, arith,
}
use galaxy_ng.Names.Digits.{str}
use galaxy_ng.ApiSpec.Unique.{
  Transformed, Named, Seen, names_of, ids_of, occurrences, seen_count, set_seen, number_id,
  number_methods, number_paths,
}

-- An id with the number of its earlier occurrences.
abbrev pub numbered : Text → ℕ → Text
numbered op_id zero = op_id
numbered op_id (suc n) = op_id ++ b'_' ∷ str (suc n + 1)

-- Each id with the number of times that it stands before, in `earlier` or in the list.
abbrev pub numbered_all : List Text → List Text → List Text
numbered_all earlier [] = []
numbered_all earlier (i ∷ ids) = numbered i (occurrences i earlier) ∷ numbered_all (i ∷ earlier) ids

abbrev count_of : ℕ → Option ℕ
count_of zero = none
count_of (suc n) = some (suc n)

-- What the dictionary holds after some ids.
abbrev Counts : Seen → List Text → Type 0
Counts seen earlier = (k : Text) → seen_count k seen ≡ count_of (occurrences k earlier)

seen_count-set_seen :
    (k j : Text) (n : ℕ) (seen : Seen)
    → seen_count k (set_seen j n seen) ≡ (if text_eq j k then some n else seen_count k seen)
seen_count-set_seen k j n [] = refl
seen_count-set_seen k j n ((i, m) ∷ seen) =
    ground
      (arith, text_eq_iff j k, text_eq_iff i j, text_eq_iff i k, seen_count-set_seen k j n seen)

pub occurrences_cons :
    (k i : Text) (earlier : List Text)
    → occurrences k (i ∷ earlier)
      ≡ (if text_eq i k then suc (occurrences k earlier) else occurrences k earlier)
occurrences_cons k i earlier = ground (arith, text_eq_iff i k, text_eq_iff k i)

given_id :
    (seen : Seen) (i : Text) (n : ℕ)
    → seen_count i seen ≡ count_of n
    → (number_id seen i).0 ≡ numbered i n
unfolding number_id
given_id seen i zero e = ground (arith, e)
given_id seen i (suc n) e = ground (arith, e)

count_kept :
    (seen : Seen) (i k : Text) (n : ℕ)
    → seen_count i seen ≡ count_of n
    → seen_count k (number_id seen i).1 ≡ (if text_eq i k then some (suc n) else seen_count k seen)
unfolding number_id
count_kept seen i k zero e = ground (arith, e, seen_count-set_seen k i 1 seen)
count_kept seen i k (suc n) e = ground (arith, e, seen_count-set_seen k i (suc n + 1) seen)

number_id-Counts :
    (seen : Seen) (earlier : List Text) (i : Text)
    → Counts seen earlier
    → Counts (number_id seen i).1 (i ∷ earlier)
number_id-Counts seen earlier i h k = ground (
  arith,
  count_kept seen i k (occurrences i earlier) (h i),
  occurrences_cons k i earlier,
  text_eq_iff i k,
  h k,
)

abbrev pushed : List Text → List Text → List Text
pushed earlier [] = earlier
pushed earlier (i ∷ ids) = pushed (i ∷ earlier) ids

numbered_all-append :
    (earlier xs ys : List Text)
    → numbered_all earlier (xs ++ ys)
      ≡ numbered_all earlier xs ++ numbered_all (pushed earlier xs) ys
numbered_all-append earlier [] ys = refl
numbered_all-append earlier (x ∷ xs) ys =
    ap (λ r. numbered x (occurrences x earlier) ∷ r) (numbered_all-append (x ∷ earlier) xs ys)

methods_numbered :
    (seen : Seen) (earlier : List Text) (ms : List Named)
    → Counts seen earlier
    → (names_of (number_methods seen ms).0 ≡ numbered_all earlier (names_of ms))
      × Counts (number_methods seen ms).1 (pushed earlier (names_of ms))
unfolding number_methods
methods_numbered seen earlier [] h = (refl, h)
methods_numbered seen earlier ((method, i) ∷ ms) h =
    let rest =
      methods_numbered (number_id seen i).1 (i ∷ earlier) ms (number_id-Counts seen earlier i h) in
    (cc (rest.0, given_id seen i (occurrences i earlier) (h i)), rest.1)

paths_numbered :
    (seen : Seen) (earlier : List Text) (t : Transformed)
    → Counts seen earlier
    → ids_of (number_paths seen t) ≡ numbered_all earlier (ids_of t)
unfolding number_paths
paths_numbered seen earlier [] h = refl
paths_numbered seen earlier ((path, ms) ∷ t) h =
    let here = methods_numbered seen earlier ms h in
    let rest = paths_numbered (number_methods seen ms).1 (pushed earlier (names_of ms)) t here.1 in
    ap (λ a. a ++ ids_of (number_paths (number_methods seen ms).1 t)) here.0
    ∙ ap (λ b. numbered_all earlier (names_of ms) ++ b) rest
    ∙ sym (numbered_all-append earlier (names_of ms) (ids_of t))

-- Each id gets the number of its earlier occurrences.
pub number_paths-numbered_all :
    (t : Transformed) → ids_of (number_paths [] t) ≡ numbered_all [] (ids_of t)
number_paths-numbered_all t = paths_numbered [] [] t (λ k. refl)
