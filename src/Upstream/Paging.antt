-- ===== src/Upstream/Paging.antt =====
-- galaxy_ng/app/utils/galaxy.py: paginated_results on pages that come to an end.
use galaxy_ng.Prelude.{
  ℕ, zero, suc, ◌+◌, ◌==◌, ◌≤◌, ◌≡◌, refl, sym, ap, ◌∙◌, ltb, Text, true, false, Option, none, some,
  is_nil, starts_with, codes, [], ◌∷◌, ◌++◌, arith,
}
use galaxy_ng.Json.{Value, null, text, arr, obj, Items, nil, cons, append_items, end, field}
use galaxy_ng.Upstream.Run.{Response, Session, Run, ok, pure}
use galaxy_ng.Upstream.Fetch.{base_of, next_page, read_page, pages_loop, paginated_results}
use galaxy_ng.Upstream.Tries.{asked_once, safe_fetch_answered}

append_items_assoc :
    (a b c : Items) → append_items (append_items a b) c ≡ append_items a (append_items b c)
append_items_assoc nil b c = refl
append_items_assoc (cons v a) b c = ap (cons v) (append_items_assoc a b c)

append_items_nil : (a : Items) → append_items a nil ≡ a
append_items_nil nil = refl
append_items_nil (cons v a) = ap (cons v) (append_items_nil a)

starts_with-append : (a b : Text) → starts_with a (a ++ b) ≡ true
starts_with-append [] b = refl
starts_with-append (c ∷ a) b = ground (arith, starts_with-append a b)

starts_with-two : (a b c : Text) → starts_with (a ++ b) (a ++ (b ++ c)) ≡ true
starts_with-two [] b c = starts_with-append b c
starts_with-two (x ∷ a) b c = ground (arith, starts_with-two a b c)

append_given : (a b : Text) → is_nil b ≡ false → is_nil (a ++ b) ≡ false
append_given [] b h = h
append_given (c ∷ a) b h = refl

module _ (answer : Text → Response) (base : Text) where
  -- What the code makes of the page at a url.
  abbrev IsPage : Text → Items → Option Text → Type 0
  IsPage url more next = (s : Session) → read_page base (answer url) s ≡ ok (more, next) s

  -- The document of a page, with its results and its link to the next page.
  abbrev pub page : Items → Value → Option Value
  page more next = some (obj (field (codes "results") (arr more) (field (codes "next") next end)))

  -- The page of a path of the API version 1.
  abbrev pub v1_url : Text → Text
  v1_url path = base ++ (codes "/api/v1" ++ path)

  -- A page that is there.
  abbrev pub IsFound : Text → Type 0
  IsFound url = (ltb (answer url).status 500 ≡ true) × (((answer url).status == 404) ≡ false)

  -- The pages from a url on, and all of their results: they end at a missing page or at one that has
  -- null for the next page. The next page of another one is given by its whole url, or by its path
  -- behind /api/v1. A chain of n pages has the index n.
  pub data Chain : ℕ → Text → Items → Type 0 where
    missing : {url : Text} → ((answer url).status ≡ 404) → Chain 1 url nil
    last_page :
        {url : Text} {more : Items}
        → IsFound url
        → ((answer url).document ≡ page more null)
        → Chain 1 url more
    url_page :
        (url path : Text) {more rest : Items} {n : ℕ}
        → IsFound url
        → ((answer url).document ≡ page more (text (v1_url path)))
        → Chain n (v1_url path) rest
        → Chain (suc n) url (append_items more rest)
    path_page :
        (url path : Text) {more rest : Items} {n : ℕ}
        → IsFound url
        → ((answer url).document ≡ page more (text path))
        → (is_nil path ≡ false)
        → (starts_with (base ++ codes "/api/v1") path ≡ false)
        → Chain n (v1_url path) rest
        → Chain (suc n) url (append_items more rest)

  last-IsPage :
      (url : Text) (more : Items) → (answer url).document ≡ page more null → IsPage url more none
  unfolding read_page next_page
  last-IsPage url more e s = rw e refl

  path-IsPage :
      (url path : Text) (more : Items)
      → (answer url).document ≡ page more (text path)
      → is_nil path ≡ false
      → starts_with (base ++ codes "/api/v1") path ≡ false
      → IsPage url more (some (v1_url path))
  unfolding read_page next_page
  path-IsPage url path more e given other s =
      rw (e, given, other, starts_with-append base (codes "/api/v1" ++ path)) refl

  url-IsPage :
      (url path : Text) (more : Items)
      → (answer url).document ≡ page more (text (v1_url path))
      → IsPage url more (some (v1_url path))
  unfolding read_page next_page
  url-IsPage url path more e s =
      rw
        (
          e,
          append_given base (codes "/api/v1" ++ path) refl,
          starts_with-two base (codes "/api/v1") path,
          starts_with-append base (codes "/api/v1" ++ path),
        )
        refl

  -- A session after n requests.
  abbrev pub asked : ℕ → Session → Session
  asked n s = record s { requests = s.requests + n }

  missing_round :
      (fuel : ℕ) (url : Text) (results : Items) (s : Session)
      → ((answer url).status ≡ 404)
      → pages_loop (λ n. answer) base (suc fuel) url results s ≡ ok results (asked_once s)
  unfolding pages_loop
  missing_round fuel url results s h = rw (safe_fetch_answered answer url s (rw h refl), h) refl

  page_round :
      (fuel : ℕ) (url : Text) (results more : Items) (next : Option Text) (s : Session)
      → (ltb (answer url).status 500 ≡ true)
      → (((answer url).status == 404) ≡ false)
      → IsPage url more next
      → pages_loop (λ n. answer) base (suc fuel) url results s
        ≡ (elim next as (λ o. Run Items) [
          | none ↦ pure (append_items results more)
          | some u ↦ pages_loop (λ n. answer) base fuel u (append_items results more)
        ])
            (asked_once s)
  unfolding pages_loop
  page_round fuel url results more next s live here page =
      rw (safe_fetch_answered answer url s live, here, page (asked_once s)) refl

  -- A page with a next one, and the chain behind it.
  linked_round :
      {n : ℕ} (url u : Text) {more rest : Items} (fuel : ℕ) (results : Items) (s : Session)
      → n ≤ fuel
      → IsFound url
      → IsPage url more (some u)
      → ((rs : Items) (t : Session)
          → pages_loop (λ n. answer) base fuel u rs t ≡ ok (append_items rs rest) (asked n t))
      → pages_loop (λ n. answer) base (suc fuel) url results s
        ≡ ok (append_items results (append_items more rest)) (asked (suc n) s)
  linked_round {n} url u {more} {rest} fuel results s h found is_page again =
      page_round fuel url results more (some u) s found.0 found.1 is_page
      ∙ again (append_items results more) (asked_once s)
      ∙ ap (λ r. ok r (asked n (asked_once s))) (append_items_assoc results more rest)
      ∙ ap (λ k. ok (append_items results (append_items more rest)) (record s { requests = k }))
          (moved s.requests n)
    where
      moved : (a b : ℕ) → a + 1 + b ≡ a + suc b
      moved a b = omega arith

  pages_loop-Chain :
      (fuel : ℕ) {n : ℕ} {url : Text} {total : Items} (results : Items) (s : Session)
      → n ≤ fuel
      → Chain n url total
      → pages_loop (λ n. answer) base fuel url results s
        ≡ ok (append_items results total) (asked n s)
  pages_loop-Chain zero results s h (missing gone) = absurd (omega (arith, h))
  pages_loop-Chain zero results s h (last_page found doc) = absurd (omega (arith, h))
  pages_loop-Chain zero results s h (url_page url path found doc rest) = absurd (omega (arith, h))
  pages_loop-Chain zero results s h (path_page url path found doc g o rest) =
      absurd (omega (arith, h))
  pages_loop-Chain (suc fuel) results s h (missing {url} gone) =
      missing_round fuel url results s gone
      ∙ ap (λ r. ok r (asked_once s)) (sym (append_items_nil results))
  pages_loop-Chain (suc fuel) results s h (last_page {url} {more} found doc) =
      page_round fuel url results more none s found.0 found.1 (last-IsPage url more doc)
  pages_loop-Chain (suc fuel) results s h (url_page url path {more} {rest} {n} found doc chain) =
      linked_round url (v1_url path) fuel results s (omega (arith, h)) found
        (url-IsPage url path more doc) (λ rs t. pages_loop-Chain fuel rs t (omega (arith, h)) chain)
  pages_loop-Chain (suc fuel) results s h
        (path_page url path {more} {rest} {n} found doc g o chain) =
      linked_round url (v1_url path) fuel results s (omega (arith, h)) found
        (path-IsPage url path more doc g o)
        (λ rs t. pages_loop-Chain fuel rs t (omega (arith, h)) chain)

-- Where every page of a server names the next one by its whole url below /api/v1 or by a path to
-- put behind /api/v1, which is not empty and does not begin with that url, and the pages come to
-- an end after n of them, at a missing page or at one with null for the next one: all results are
-- returned in their order after n requests, if the fuel is n or more and the url is not empty.
pub paginated_results-Chain :
    (answer : Text → Response) (n fuel : ℕ) (url : Text) (total : Items) (s : Session)
    → is_nil url ≡ false
    → n ≤ fuel
    → Chain answer (base_of url) n url total
    → paginated_results (λ k. answer) fuel url s ≡ ok total (asked answer (base_of url) n s)
unfolding paginated_results
paginated_results-Chain answer n fuel url total s given enough chain =
    rw given (pages_loop-Chain answer (base_of url) fuel nil s enough chain)
