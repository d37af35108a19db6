-- ===== src/Hostname/RoundTrip.antt =====
-- galaxy_ng/app/dynaconf_hooks.py: a Forwarded header that is written with a protocol and a host.
use galaxy_ng.Prelude.{
  ℕ, ◌==◌, ◌≡◌, refl, ap, ◌∙◌, Text, codes, lower, lower_code, Bool, true, false, not, ◌||◌, [],
  ◌∷◌, ◌++◌, all, none, some, arith,
}
use galaxy_ng.Hostname.Split.{
  split_on, cut, is_blank, is_quote, strip_of, split_on-append, split_on-whole, lacks,
  strip_of_clean,
}
use galaxy_ng.Hostname.Hook.{
  Found, nothing_found, add_key, read_param, read_params, read_entries, parse_forwarded_header,
}

-- A character that neither separates nor is stripped.
abbrev pub is_plain : ℕ → Bool
is_plain c = not (c == b',' || (c == b';' || (is_blank c || is_quote c)))

all_weaken :
    (f g : ℕ → Bool) (s : Text)
    → ((c : ℕ) → f c ≡ true → g c ≡ true)
    → all f s ≡ true
    → all g s ≡ true
all_weaken f g [] h e = refl
all_weaken f g (c ∷ s) h e = ground (arith, h c, all_weaken f g s h)

all_both : (f : ℕ → Bool) (s t : Text) → all f s ≡ true → all f t ≡ true → all f (s ++ t) ≡ true
all_both f [] t e e' = e'
all_both f (c ∷ s) t e e' = ground (arith, all_both f s t)

plain_lacks : (d : ℕ) (s : Text) → is_plain d ≡ false → all is_plain s ≡ true → lacks d s ≡ true
plain_lacks d s special e = all_weaken is_plain (λ c. not (c == d)) s (λ c f. ground arith) e

plain_no_blank : (s : Text) → all is_plain s ≡ true → all (λ c. not (is_blank c)) s ≡ true
plain_no_blank s e = all_weaken is_plain (λ c. not (is_blank c)) s (λ c f. ground arith) e

plain_no_quote : (s : Text) → all is_plain s ≡ true → all (λ c. not (is_quote c)) s ≡ true
plain_no_quote s e = all_weaken is_plain (λ c. not (is_quote c)) s (λ c f. ground arith) e

-- `proto=<p>;host=<h>`
abbrev pub written_header : Text → Text → Text
written_header p h = (codes "proto=" ++ p) ++ b';' ∷ (codes "host=" ++ h)

stripped_value : (s : Text) → all is_plain s ≡ true → strip_of is_quote (strip_of is_blank s) ≡ s
stripped_value s e =
    ap (strip_of is_quote) (strip_of_clean is_blank s (plain_no_blank s e))
    ∙ strip_of_clean is_quote s (plain_no_quote s e)

read_param-cut :
    (f : Found) (param key value : Text)
    → cut b'=' (strip_of is_blank param) ≡ some (key, value)
    → read_param f param
      ≡ add_key f (lower (strip_of is_blank key)) (strip_of is_quote (strip_of is_blank value))
unfolding read_param
read_param-cut f param key value e = rw (e, read_param) refl

read_proto :
    (p : Text)
    → all is_plain p ≡ true
    → read_param nothing_found (codes "proto=" ++ p) ≡ record { proto = some p; host = none }
unfolding add_key lower lower_code
read_proto p e =
    read_param-cut nothing_found (codes "proto=" ++ p) (codes "proto") p
      (ap (cut b'=') (strip_of_clean is_blank (codes "proto=" ++ p) (plain_no_blank p e)))
    ∙ ap (add_key nothing_found (codes "proto")) (stripped_value p e)

read_host :
    (f : Found) (h : Text)
    → all is_plain h ≡ true
    → f.host ≡ none
    → read_param f (codes "host=" ++ h) ≡ record f { host = some h }
unfolding add_key lower lower_code
read_host f h e none_yet =
    read_param-cut f (codes "host=" ++ h) (codes "host") h
      (ap (cut b'=') (strip_of_clean is_blank (codes "host=" ++ h) (plain_no_blank h e)))
    ∙ ap (add_key f (codes "host")) (stripped_value h e)
    ∙ rw none_yet refl

header_parts :
    (p h : Text)
    → all is_plain p ≡ true
    → all is_plain h ≡ true
    → split_on b';' (written_header p h) ≡ (codes "proto=" ++ p) ∷ (codes "host=" ++ h) ∷ []
header_parts p h e e' =
    split_on-append b';' (codes "proto=" ++ p) (codes "host=" ++ h)
    ∙ ap (λ xs. xs ++ split_on b';' (codes "host=" ++ h))
        (split_on-whole b';' (codes "proto=" ++ p) (plain_lacks b';' p refl e))
    ∙ ap (λ ys. (codes "proto=" ++ p) ∷ ys)
        (split_on-whole b';' (codes "host=" ++ h) (plain_lacks b';' h refl e'))

whole_header :
    (f : ℕ → Bool) (p h : Text)
    → all f p ≡ true
    → all f (b';' ∷ (codes "host=" ++ h)) ≡ true
    → all f (p ++ b';' ∷ (codes "host=" ++ h)) ≡ true
whole_header f p h e e' = all_both f p (b';' ∷ (codes "host=" ++ h)) e e'

-- A Forwarded header that is written with a protocol and a host is read as these two, if they hold
-- no comma, no semicolon, no blank and no quotation mark.
pub parse_forwarded_header-written_header :
    (p h : Text)
    → all is_plain p ≡ true
    → all is_plain h ≡ true
    → parse_forwarded_header (written_header p h) ≡ record { proto = some p; host = some h }
unfolding parse_forwarded_header read_entries read_params
parse_forwarded_header-written_header p h e e' =
    let one = split_on-whole b',' (written_header p h) (
      whole_header (λ c. not (c == b',')) p h (plain_lacks b',' p refl e)
        (plain_lacks b',' h refl e')) in
    let clean =
      strip_of_clean is_blank (written_header p h)
        (whole_header (λ c. not (is_blank c)) p h (plain_no_blank p e) (plain_no_blank h e')) in
    ap (read_entries nothing_found) one
    ∙ ap (λ t. read_params nothing_found (split_on b';' t)) clean
    ∙ ap (read_params nothing_found) (header_parts p h e e')
    ∙ ap (λ f. read_param f (codes "host=" ++ h)) (read_proto p e)
    ∙ read_host (record { proto = some p; host = none }) h e' refl
