-- ===== src/Hostname/Forwarded.antt =====
-- galaxy_ng/app/dynaconf_hooks.py: what is found in headers.
use galaxy_ng.Prelude.{
  ◌≡◌, refl, sym, ap, ◌∙◌, inl, inr, Text, text_eq, text_eq_sound, codes, List, [], ◌∷◌, ◌++◌,
  Option, none, some, if◌then◌else◌, Bool-cases, Option-cases, arith,
}
use galaxy_ng.Hostname.Split.{split_on, cut, is_blank, strip_of, split_on-append}
use galaxy_ng.Hostname.Hook.{
  given, Found, nothing_found, add_key, read_param, read_params, read_entries,
  parse_forwarded_header,
}

-- What was found first counts, if it is not empty; a later empty value replaces nothing but None.
abbrev pub prefer : Option Text → Option Text → Option Text
prefer a none = a
prefer a (some b) = if given a then a else some b

abbrev pub merge : Found → Found → Found
merge a b = record { proto = prefer a.proto b.proto; host = prefer a.host b.host }

prefer-none : (a : Option Text) → prefer none a ≡ a
prefer-none none = refl
prefer-none (some b) = refl

prefer_assoc : (a b c : Option Text) → prefer (prefer a b) c ≡ prefer a (prefer b c)
prefer_assoc a b none = refl
prefer_assoc a none (some c) = refl
prefer_assoc a (some b) (some c) = elim (Bool-cases (given a)) [
  | inl e ↦ elim (Bool-cases (given (some b))) [ inl f ↦ ground arith | inr f ↦ ground arith ]
  | inr e ↦ elim (Bool-cases (given (some b))) [ inl f ↦ ground arith | inr f ↦ ground arith ]
]

add_key-merge :
    (f : Found) (key value : Text) → add_key f key value ≡ merge f (add_key nothing_found key value)
unfolding add_key
add_key-merge f key value = elim (Bool-cases (text_eq key (codes "proto"))) [
  | inl e ↦ rw (text_eq_sound key (codes "proto") e) (ground arith)
  | inr e ↦ ground arith
]

read_param-merge : (f : Found) (p : Text) → read_param f p ≡ merge f (read_param nothing_found p)
unfolding read_param
read_param-merge f p = elim (Option-cases (cut b'=' (strip_of is_blank p))) [
  | inl e ↦ rw (e, read_param) refl
  | inr (kv, e) ↦ rw (e, read_param) (add_key-merge f _ _)
]

merge_assoc : (a b c : Found) → merge (merge a b) c ≡ merge a (merge b c)
merge_assoc a b c =
    ground (arith, prefer_assoc a.proto b.proto c.proto, prefer_assoc a.host b.host c.host)

merge_nothing : (a : Found) → merge nothing_found a ≡ a
merge_nothing a = ground (arith, prefer-none a.proto, prefer-none a.host)

-- A pass over a list that merges each item into what was found starts as well from nothing.
module _ (step : Found → Text → Found) (pass : Found → List Text → Found)
    (pass_nil : (f : Found) → pass f [] ≡ f)
    (pass_cons : (f : Found) (x : Text) (xs : List Text) → pass f (x ∷ xs) ≡ pass (step f x) xs)
    (step-merge : (f : Found) (x : Text) → step f x ≡ merge f (step nothing_found x)) where
  pass-merge : (f : Found) (xs : List Text) → pass f xs ≡ merge f (pass nothing_found xs)
  pass-merge f [] = pass_nil f ∙ sym (ap (merge f) (pass_nil nothing_found))
  pass-merge f (x ∷ xs) =
      pass_cons f x xs
      ∙ pass-merge (step f x) xs
      ∙ ap (λ g. merge g (pass nothing_found xs)) (step-merge f x)
      ∙ merge_assoc f (step nothing_found x) (pass nothing_found xs)
      ∙ ap (merge f) (sym (pass_cons nothing_found x xs ∙ pass-merge (step nothing_found x) xs))

  pass-append :
      (xs ys : List Text)
      → pass nothing_found (xs ++ ys) ≡ merge (pass nothing_found xs) (pass nothing_found ys)
  pass-append [] ys =
      sym (ap (λ g. merge g (pass nothing_found ys)) (pass_nil nothing_found) ∙ merge_nothing _)
  pass-append (x ∷ xs) ys =
      pass_cons nothing_found x (xs ++ ys)
      ∙ pass-merge (step nothing_found x) (xs ++ ys)
      ∙ ap (merge (step nothing_found x)) (pass-append xs ys)
      ∙ sym (merge_assoc (step nothing_found x) (pass nothing_found xs) (pass nothing_found ys))
      ∙ ap (λ g. merge g (pass nothing_found ys))
          (sym (pass_cons nothing_found x xs ∙ pass-merge (step nothing_found x) xs))

params-merge :
    (f : Found) (ps : List Text) → read_params f ps ≡ merge f (read_params nothing_found ps)
unfolding read_params
params-merge = pass-merge read_param read_params (λ f. refl) (λ f x xs. refl) read_param-merge

abbrev read_entry : Found → Text → Found
read_entry f entry = read_params f (split_on b';' (strip_of is_blank entry))

entries-append :
    (xs ys : List Text)
    → read_entries nothing_found (xs ++ ys)
      ≡ merge (read_entries nothing_found xs) (read_entries nothing_found ys)
unfolding read_entries
entries-append =
    pass-append read_entry read_entries (λ f. refl) (λ f x xs. refl) (λ f x. params-merge f _)

-- A Forwarded header of two parts with a comma between them is read as its parts are: the first
-- protocol and the first host that are not empty count.
pub parse_forwarded_header-append :
    (s t : Text)
    → parse_forwarded_header (s ++ b',' ∷ t)
      ≡ merge (parse_forwarded_header s) (parse_forwarded_header t)
unfolding parse_forwarded_header
parse_forwarded_header-append s t =
    ap (read_entries nothing_found) (split_on-append b',' s t)
    ∙ entries-append (split_on b',' s) (split_on b',' t)
