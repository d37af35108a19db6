-- ===== src/ApiSpec/Words.antt =====
-- galaxy_ng/app/utils/apispec/id_fix.py: the words of a new id, and that there is one.
use galaxy_ng.Prelude.{
  is_nil, ℕ, zero, suc, ◌≡◌, refl, sym, ap, ◌∙◌, Text, text_eq, text_eq_iff, Bool, true, false, not,
  ◌||◌, ◌≢◌, List, [], ◌∷◌, ◌++◌, any, all, keep, drop, map, Option, none, some, ◌⊎◌, inl, inr,
  Bool-cases, Option-cases, arith,
}
use galaxy_ng.Hostname.Split.{lstrip, rstrip, strip_of, keep_last, split_on}
use galaxy_ng.ApiSpec.Texts.{
  pieces, literals, dashes_replaced, collapse, push_underscore, is_underscore, join,
}
use galaxy_ng.ApiSpec.Paths.{
  normalize_path_segment, nonempty, start_index, get_elem?, meaningful_word, last_meaningful,
  or_fallback, is_meaningful, extract_feature_area, get_http_action_suffix,
  get_transfer_action_suffix,
}
use galaxy_ng.ApiSpec.Transform.{
  deduplicate_onto, deduplicate_words, marker_parts, needed_action, add_action, add_transfer, clean,
  built_id, deprecated_prefix, transform_operation_id,
}

module _ (p : ℕ → Bool) where
  abbrev outside : Text → Bool
  outside = any (λ c. not (p c))

  lstrip_cases : (s : Text) → (lstrip p s ≡ []) ⊎ (outside (lstrip p s) ≡ true)
  lstrip_cases [] = inl refl
  lstrip_cases (c ∷ s) = ground (arith, lstrip_cases s)

  outside-lstrip : (s : Text) → outside (lstrip p s) ≡ outside s
  outside-lstrip [] = refl
  outside-lstrip (c ∷ s) = ground (arith, outside-lstrip s)

  outside-keep_last : (c : ℕ) (s : Text) → outside (keep_last p c s) ≡ outside (c ∷ s)
  outside-keep_last c [] = ground arith
  outside-keep_last c (d ∷ s) = refl

  outside-rstrip : (s : Text) → outside (rstrip p s) ≡ outside s
  outside-rstrip [] = refl
  outside-rstrip (c ∷ s) =
      outside-keep_last c (rstrip p s) ∙ ap (λ b. not (p c) || b) (outside-rstrip s)

  outside-strip_of : (s : Text) → outside (strip_of p s) ≡ outside s
  outside-strip_of s = outside-rstrip (lstrip p s) ∙ outside-lstrip s

  outside_of_stripped : (s : Text) → is_nil (strip_of p s) ≡ false → outside (strip_of p s) ≡ true
  outside_of_stripped s h = elim (lstrip_cases s) [
    | inl empty ↦ absurd (ground (arith, ap (rstrip p) empty, h))
    | inr found ↦ outside-rstrip (lstrip p s) ∙ found
  ]

-- A text with a character that is no underscore.
abbrev solid : Text → Bool
solid = any (λ c. not (is_underscore c))

any-append {ℓ} :
    {A : Type ℓ} (q : A → Bool) (xs ys : List A) → any q (xs ++ ys) ≡ (any q xs || any q ys)
any-append q [] ys = refl
any-append q (x ∷ xs) ys = ground (arith, any-append q xs ys)

normalized_solid :
    (segments : List Text) → all solid (nonempty (map normalize_path_segment segments)) ≡ true
unfolding normalize_path_segment
normalized_solid [] = refl
normalized_solid (s ∷ ss) = elim (Bool-cases (is_nil (normalize_path_segment s))) [
  | inl empty ↦ rw empty (normalized_solid ss)
  | inr full ↦ rw full (
      rw (outside_of_stripped is_underscore (dashes_replaced (literals (pieces s))) full)
        (normalized_solid ss))
]

all-drop {ℓ} :
    {A : Type ℓ} (q : A → Bool) (n : ℕ) (xs : List A) → all q xs ≡ true → all q (drop n xs) ≡ true
all-drop q zero xs h = h
all-drop q (suc n) [] h = refl
all-drop q (suc n) (x ∷ xs) h = all-drop q n xs (ground (arith, h))

all-keep {ℓ} :
    {A : Type ℓ} (q r : A → Bool) (xs : List A) → all q xs ≡ true → all q (keep r xs) ≡ true
all-keep q r [] h = refl
all-keep q r (x ∷ xs) h = ground (arith, h, all-keep q r xs)

get_elem?-all :
    (q : Text → Bool) (ws : List Text) (i : ℕ) (w : Text)
    → all q ws ≡ true
    → get_elem? ws i ≡ some w
    → q w ≡ true
get_elem?-all q [] i w h e = absurd cc
get_elem?-all q (v ∷ ws) zero w h e = ground (arith, h, e)
get_elem?-all q (v ∷ ws) (suc i) w h e = get_elem?-all q ws i w (ground (arith, h)) e

meaningful_word_same : (o : Option Text) (w : Text) → meaningful_word o ≡ some w → o ≡ some w
meaningful_word_same none w e = absurd cc
meaningful_word_same (some v) w e = ground (arith, e)

last_meaningful-solid :
    (n : ℕ) (ws : List Text) (w : Text)
    → all solid ws ≡ true
    → last_meaningful n ws ≡ some w
    → solid w ≡ true
last_meaningful-solid zero ws w h e = absurd cc
last_meaningful-solid (suc n) ws w h e = elim (Option-cases (meaningful_word (get_elem? ws n))) [
  | inl nothing ↦ last_meaningful-solid n ws w h (ground (arith, nothing, e))
  | inr (v, found) ↦
      get_elem?-all solid ws n w h
        (meaningful_word_same (get_elem? ws n) w (ground (arith, found, e)))
]

or_fallback-solid :
    (start : ℕ) (ws fs : List Text)
    → all solid ws ≡ true
    → all solid fs ≡ true
    → any solid (or_fallback start ws fs) ≡ true
or_fallback-solid start ws (f ∷ fs) hw hf = ground (arith, hf)
or_fallback-solid start ws [] hw hf = elim (Option-cases (last_meaningful start ws)) [
  | inl nothing ↦ ground (arith, nothing)
  | inr (w, found) ↦ ground (arith, found, last_meaningful-solid start ws w hw found)
]

extract_feature_area-solid : (path : Text) → any solid (extract_feature_area path) ≡ true
unfolding extract_feature_area
extract_feature_area-solid path =
    let segments = nonempty (split_on b'/' path) in
    let normalized = nonempty (map normalize_path_segment segments) in
    let start = start_index 0 0 segments in
    let good = normalized_solid segments in
    or_fallback-solid start normalized (keep is_meaningful (drop start normalized)) good
      (all-keep solid is_meaningful (drop start normalized) (all-drop solid start normalized good))

any-deduplicate_onto :
    (w : Text) (ws : List Text) → any solid (w ∷ deduplicate_onto w ws) ≡ any solid (w ∷ ws)
any-deduplicate_onto w [] = refl
any-deduplicate_onto w (v ∷ ws) = elim (Bool-cases (text_eq v w)) [
  | inl same ↦ ground (arith, same, any-deduplicate_onto v ws, ap solid ((text_eq_iff v w).0 same))
  | inr other ↦ ground (arith, any-deduplicate_onto v ws)
]

any-deduplicate_words : (ws : List Text) → any solid (deduplicate_words ws) ≡ any solid ws
any-deduplicate_words [] = refl
any-deduplicate_words (w ∷ ws) = any-deduplicate_onto w ws

solid-join : (ws : List Text) → solid (join ws) ≡ any solid ws
solid-join [] = refl
solid-join (w ∷ []) = ground arith
solid-join (w ∷ v ∷ ws) =
    any-append _ w (b'_' ∷ join (v ∷ ws)) ∙ ap (λ b. solid w || b) (solid-join (v ∷ ws))

solid-push_underscore : (c : ℕ) (s : Text) → solid (push_underscore c s) ≡ solid (c ∷ s)
solid-push_underscore c [] = refl
solid-push_underscore c (d ∷ s) = ground arith

solid-collapse : (s : Text) → solid (collapse s) ≡ solid s
solid-collapse [] = refl
solid-collapse (c ∷ s) =
    solid-push_underscore c (collapse s) ∙ ap (λ b. not (is_underscore c) || b) (solid-collapse s)

solid-clean : (s : Text) → solid (clean s) ≡ solid s
solid-clean s = outside-strip_of is_underscore (collapse s) ∙ solid-collapse s

solid_extended : (s t : Text) → solid s ≡ true → solid (s ++ t) ≡ true
solid_extended s t h = ground (arith, any-append (λ c. not (is_underscore c)) s t)

solid-add_action : (a s : Text) → solid s ≡ true → solid (add_action a s) ≡ true
solid-add_action a [] h = absurd cc
solid-add_action a (c ∷ s) h = ground (arith, solid_extended (c ∷ s) (b'_' ∷ a))

solid-add_transfer : (t : Option Text) (s : Text) → solid s ≡ true → solid (add_transfer t s) ≡ true
solid-add_transfer none s h = h
solid-add_transfer (some t) s h = ground (arith, solid_extended s (b'_' ∷ t))

words_solid : (path : Text) → any solid (marker_parts path ++ extract_feature_area path) ≡ true
words_solid path =
    any-append solid (marker_parts path) (extract_feature_area path)
    ∙ rw (extract_feature_area-solid path) (or_true (any solid (marker_parts path)))
  where
    or_true : (b : Bool) → (b || true) ≡ true
    or_true true = refl
    or_true false = refl

built_id-solid : (path method current_id : Text) → solid (built_id path method current_id) ≡ true
unfolding built_id
built_id-solid path method current_id =
    let words = marker_parts path ++ extract_feature_area path in
    let action = needed_action (get_http_action_suffix method path) words in
    let first_id = join (deduplicate_words words) in
    let acted = add_action action first_id in
    let start =
      solid-join (deduplicate_words words) ∙ any-deduplicate_words words ∙ words_solid path in
    solid-clean (add_transfer (get_transfer_action_suffix path current_id) acted)
    ∙ solid-add_transfer (get_transfer_action_suffix path current_id) acted
        (solid-add_action action first_id start)

prefixed_solid : (d : Bool) (s : Text) → solid s ≡ true → is_nil (deprecated_prefix d s) ≡ false
prefixed_solid true s h = refl
prefixed_solid false [] h = absurd cc
prefixed_solid false (c ∷ s) h = refl

full_not_empty : (s : Text) → is_nil s ≡ false → s ≢ []
full_not_empty [] h e = cc
full_not_empty (c ∷ s) h e = cc

-- The new id of an operation is never empty, whatever its path and its method are: the fallback on
-- the current id, which depends on the order of a set, is not used.
pub transform_operation_id_lem :
    (noise_order : List Text) (path method current_id : Text) (d : Bool)
    → (transform_operation_id noise_order path method current_id d
        ≡ deprecated_prefix d (built_id path method current_id))
      × (transform_operation_id noise_order path method current_id d ≢ [])
unfolding transform_operation_id
transform_operation_id_lem noise_order path method current_id d =
    (same, λ e. full_not_empty new_id full (sym same ∙ e))
  where
    new_id : Text
    new_id = deprecated_prefix d (built_id path method current_id)

    full : is_nil new_id ≡ false
    full =
        prefixed_solid d (built_id path method current_id) (built_id-solid path method current_id)

    same : transform_operation_id noise_order path method current_id d ≡ new_id
    same = rw full refl
