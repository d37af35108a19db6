-- ===== src/Upstream/Stuck.antt =====
-- galaxy_ng/app/utils/galaxy.py: what happens where a server cannot give the first page.
use galaxy_ng.Prelude.{
  ℕ, zero, suc, ◌+◌, ◌-◌, ◌*◌, ◌/◌, ◌<◌, ◌==◌, ◌≡◌, refl, ap, ◌∙◌, inl, inr, ltb, leb, Text, codes,
  starts_with, contains, replace, Bool, true, false, ◌&&◌, Option, [], ◌∷◌, ◌++◌, Bool-cases, arith,
}
use galaxy_ng.Hostname.Split.{rstrip, lacks}
use galaxy_ng.Names.Digits.{str, numeral, digit_code}
use galaxy_ng.Upstream.Run.{Response, Server, Session, Step, ok, fail, exhausted}
use galaxy_ng.Upstream.Fetch.{safe_fetch}
use galaxy_ng.Upstream.Owners.{skip_page}
use galaxy_ng.Upstream.Roles.{role_pages}
use galaxy_ng.Upstream.Tries.{safe_fetch-IsFetched}

starts_with-slash :
    (p x t : Text) → lacks b'/' p ≡ true → starts_with p (x ++ b'/' ∷ t) ≡ starts_with p x
starts_with-slash [] x t h = refl
starts_with-slash (c ∷ p) [] t h = ground (arith, h)
starts_with-slash (c ∷ p) (d ∷ x) t h =
    ap (λ b. c == d && b) (starts_with-slash p x t (ground (arith, h)))

starts_with_more : (p d s : Text) → starts_with p s ≡ false → starts_with (p ++ d) s ≡ false
starts_with_more [] d s h = absurd cc
starts_with_more (c ∷ p) d [] h = refl
starts_with_more (c ∷ p) d (e ∷ s) h = ground (arith, h, starts_with_more p d s)

contains-append : (p x y : Text) → contains p y ≡ true → contains p (x ++ y) ≡ true
contains-append p [] y h = h
contains-append p (c ∷ x) y h = ground (arith, contains-append p x y h)

-- Before a slash nothing is replaced where no start of the text occurs.
replace-slash :
    (p d new x t : Text)
    → lacks b'/' p ≡ true
    → contains p x ≡ false
    → replace (p ++ d) new 0 (x ++ b'/' ∷ t) ≡ x ++ replace (p ++ d) new 0 (b'/' ∷ t)
replace-slash p d new [] t hp hx = refl
replace-slash p d new (c ∷ x) t hp hx =
    let here : starts_with (p ++ d) (c ∷ (x ++ b'/' ∷ t)) ≡ false =
      starts_with_more p d (c ∷ (x ++ b'/' ∷ t))
        (starts_with-slash p (c ∷ x) t hp ∙ ground (arith, hx)) in
    rw here (ap (λ r. c ∷ r) (replace-slash p d new x t hp (ground (arith, hx))))

digit_no_brace : (n : ℕ) (t : Text) → n < 10 → starts_with (digit_code n ∷ []) (b'{' ∷ t) ≡ false
unfolding digit_code
digit_no_brace n t h = ground arith

numeral_no_brace :
    (fuel n : ℕ) (t : Text) → n < fuel → starts_with (numeral 10 fuel n) (b'{' ∷ t) ≡ false
unfolding numeral
numeral_no_brace zero n t h = absurd (omega arith)
numeral_no_brace (suc fuel) n t h = elim (Bool-cases (ltb n 10)) [
  | inl small ↦ rw small (digit_no_brace n t (ground (arith, small)))
  | inr big ↦
      let less : n / 10 < fuel = ground (arith, big) in
      rw big (
        starts_with_more (numeral 10 fuel (n / 10)) _ (b'{' ∷ t)
          (numeral_no_brace fuel (n / 10) t less))
]

abbrev literal : Text
literal = codes "/?page={pagenum + 1}"

-- The text behind the url is left as it is, whatever the number of the page is.
skip_page-literal :
    (k : ℕ) (x : Text)
    → contains (codes "page=") x ≡ false
    → skip_page literal k (x ++ literal) ≡ x ++ literal
unfolding skip_page
skip_page-literal k x h = rw (contains-append (codes "page=") x literal refl) (
    replace-slash (codes "page=") (str k) (codes "page=" ++ str (k + 1)) x
      (codes "?page={pagenum + 1}") refl h
    ∙ ap (λ r. x ++ r) (rw (numeral_no_brace (suc k) k (codes "pagenum + 1}") (omega arith)) refl))

module _ (server : Server) (fuel : ℕ) (base : Text) (limit : Option ℕ) (get_versions : Bool) where
  -- The server has an internal error at this url, whenever it is asked.
  abbrev pub IsBroken : Text → Type 0
  IsBroken url = (n : ℕ) → leb 500 (server n url).status ≡ true

  abbrev pages : ℕ → ℕ → ℕ → Text → Session → Step (Unit {0})
  pages = role_pages server fuel base limit get_versions

  broken_fetch :
      (url : Text) (s : Session)
      → IsBroken url
      → (r : Response) × (t : Session) × (safe_fetch server url s ≡ ok r t)
        × (leb 500 r.status ≡ true)
        × (t.requests ≡ s.requests + 5)
        × (t.sent ≡ s.sent)
  broken_fetch url s broken =
      let (r, t, runs, fetched) = safe_fetch-IsFetched server url s in
      let n = t.requests - 1 in
      let same : r ≡ server n url = fetched.final n (omega (arith, fetched.asked)) in
      let bad : leb 500 r.status ≡ true = rw same (broken n) in
      (
        r,
        t,
        runs,
        bad,
        elim fetched.settled [ inl good ↦ absurd (ground (arith, bad, good)) | inr five ↦ five ],
        fetched.same_sent,
      )

  broken_round :
      (rounds pagenum count : ℕ) (url : Text) (s : Session)
      → IsBroken url
      → (t : Session) × (pages (suc rounds) pagenum count url s
          ≡ pages rounds (pagenum + 1) count (skip_page literal pagenum url) t)
        × (t.requests ≡ s.requests + 5)
        × (t.sent ≡ s.sent)
  unfolding role_pages
  broken_round rounds pagenum count url s broken =
      let (r, t, runs, bad, five, kept) = broken_fetch url s broken in
      (t, rw (runs, bad) refl, five, kept)

  literal_rounds :
      (rounds pagenum count : ℕ) (x : Text) (s : Session)
      → contains (codes "page=") x ≡ false
      → IsBroken (x ++ literal)
      → (t : Session) × (pages rounds pagenum count (x ++ literal) s ≡ fail exhausted t)
        × (t.requests ≡ s.requests + 5 * rounds)
        × (t.sent ≡ s.sent)
  unfolding role_pages
  literal_rounds zero pagenum count x s plain broken = (s, refl, omega arith, refl)
  literal_rounds (suc rounds) pagenum count x s plain broken =
      let (t, runs, five, kept) = broken_round rounds pagenum count (x ++ literal) s broken in
      let (u, stops, asked, still) = literal_rounds rounds (pagenum + 1) count x t plain broken in
      (
        u,
        runs
            ∙ ap (λ url. pages rounds (pagenum + 1) count url t) (skip_page-literal pagenum x plain)
            ∙ stops,
        omega (arith, five, asked),
        still ∙ kept,
      )

  -- If a server has an internal error at the first page and at the url that the code asks instead,
  -- the import of roles does not end: however many rounds it gets, it makes five requests in each
  -- and sends nothing, if the url has no page number.
  pub role_pages_stuck :
      (rounds pagenum count : ℕ) (url : Text) (s : Session)
      → contains (codes "page=") url ≡ false
      → contains (codes "page=") (rstrip (λ c. c == b'/') url) ≡ false
      → IsBroken url
      → IsBroken (rstrip (λ c. c == b'/') url ++ codes "/?page={pagenum + 1}")
      → (t : Session) × (role_pages server fuel base limit get_versions
            (suc rounds)
            pagenum
            count
            url
            s
          ≡ fail exhausted t)
        × (t.requests ≡ s.requests + 5 * suc rounds)
        × (t.sent ≡ s.sent)
  unfolding skip_page
  role_pages_stuck rounds pagenum count url s plain plain' broken broken' =
      let (t, runs, five, kept) = broken_round rounds pagenum count url s broken in
      let x = rstrip (λ c. c == b'/') url in
      let (u, stops, asked, still) = literal_rounds rounds (pagenum + 1) count x t plain' broken' in
      let skipped : skip_page literal pagenum url ≡ x ++ literal = rw plain refl in
      (
        u,
        runs ∙ ap (λ v. pages rounds (pagenum + 1) count v t) skipped ∙ stops,
        omega (arith, five, asked),
        still ∙ kept,
      )
