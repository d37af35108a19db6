-- ===== src/Upstream/Fetch.antt =====
-- galaxy_ng/app/utils/galaxy.py: safe_fetch and paginated_results.
use galaxy_ng.Prelude.{
  ℕ, zero, suc, ◌+◌, ◌==◌, Text, codes, lower, ltb, leb, starts_with, is_nil, Bool, false, ◌&&◌,
  ◌||◌, [], ◌∷◌, ◌++◌, all, Option, none, some, if◌then◌else◌,
}
use galaxy_ng.Hostname.Split.{cut}
use galaxy_ng.Json.{Value, null, text, obj, Items, nil, find_field, is_true, append_items}
use galaxy_ng.Upstream.Run.{
  Response, Server, type_error, attribute_error, exhausted, Run, pure, raise, ◌>>=◌, ◌>>◌, get_key,
  items_of, text_of, json,
}

-- `requests.get(url)` of a server that answers.
unfoldable pub request : Server → Text → Run Response
request server url w = pure (server w.requests url) (record w { requests = w.requests + 1 })

abbrev pub sleep : ℕ → Run (Unit {0})
sleep n w = pure tt (record w { slept = w.slept + n })

-- The loop with its counter. The fuel is one more than the tries that the counter leaves.
unfoldable pub fetch_loop : Server → Text → ℕ → ℕ → Run Response
unfolding request
fetch_loop server url zero counter = raise exhausted
fetch_loop server url (suc fuel) counter = do
  rr ← request server url
  let again = sleep 60 >> fetch_loop server url fuel (counter + 1)
  if ltb rr.status 500 then pure rr else if leb 5 (counter + 1) then pure rr else again

unfoldable pub safe_fetch : Server → Text → Run Response
unfolding fetch_loop
safe_fetch server url = fetch_loop server url 5 0

abbrev is_scheme_char : ℕ → Bool
is_scheme_char c =
    (leb b'a' c && leb c b'z')
    || (leb b'A' c && leb c b'Z')
    || (leb b'0' c && leb c b'9')
    || c == b'+'
    || c == b'-'
    || c == b'.'

abbrev is_scheme : Text → Bool
is_scheme [] = false
is_scheme (c ∷ s) =
    ((leb b'a' c && leb c b'z') || (leb b'A' c && leb c b'Z')) && all is_scheme_char s

-- The scheme of a url, and what is behind it.
abbrev pub split_scheme : Text → Text × Text
split_scheme url = elim (cut b':' url) [
  | none ↦ ([], url)
  | some (s, rest) ↦ if is_scheme s then (lower s, rest) else ([], url)
]

abbrev until_path : Text → Text
until_path [] = []
until_path (c ∷ s) =
    let rest = until_path s in if c == b'/' || c == b'?' || c == b'#' then [] else c ∷ rest

abbrev netloc : Text → Text
netloc (a ∷ b ∷ s) = if a == b'/' && b == b'/' then until_path s else []
netloc s = []

-- `parsed.scheme + '://' + parsed.netloc`
unfoldable pub base_of : Text → Text
base_of url = let parts = split_scheme url in parts.0 ++ (codes "://" ++ netloc parts.1)

-- The url of the next page as the document gives it; None is no text.
abbrev pub raw_next : Text → Value → Run Value
raw_next base (obj fs) = elim (find_field (codes "next") fs) [
  | some v ↦ pure v
  | none ↦ do
    link ← get_key (codes "next_link") (obj fs)
    let joined = do t ← text_of link; pure (text (base ++ t))
    if is_true link then joined else pure null
]
raw_next base v = raise type_error

abbrev pub absolute : Text → Text → Text
absolute base url =
    let long =
      if starts_with (base ++ codes "/api/v1") url then url else base ++ (codes "/api/v1" ++ url) in
    if starts_with base long then long else base ++ long

abbrev pub url_of : Value → Run Text
url_of (text t) = pure t
url_of v = raise attribute_error

-- The next url, or none at the last page. A `next` that is true without being a text has no
-- `startswith`.
unfoldable pub next_page : Text → Value → Run (Option Text)
next_page base ds = do
  v ← raw_next base ds
  let joined = do t ← url_of v; pure (some (absolute base t))
  if is_true v then joined else pure none

-- What a page holds, and the url of the next one.
unfoldable pub read_page : Text → Response → Run (Items × Option Text)
unfolding next_page
read_page base rr = do
  ds ← json rr
  rs ← get_key (codes "results") ds
  more ← items_of rs
  next ← next_page base ds
  pure (more, next)

unfoldable pub pages_loop : Server → Text → ℕ → Text → Items → Run Items
unfolding safe_fetch read_page
pages_loop server base zero url results = raise exhausted
pages_loop server base (suc fuel) url results = do
  rr ← safe_fetch server url
  let go_on : Run Items = do
    page ← read_page base rr
    elim page.1 [
      | none ↦ pure (append_items results page.0)
      | some u ↦ pages_loop server base fuel u (append_items results page.0)
    ]
  if rr.status == 404 then pure results else go_on

-- An empty url asks for nothing.
unfoldable pub paginated_results : Server → ℕ → Text → Run Items
unfolding pages_loop
paginated_results server fuel url =
    if is_nil url then pure nil else pages_loop server (base_of url) fuel url nil
