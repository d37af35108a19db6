-- ===== src/Upstream/Roles.antt =====
-- galaxy_ng/app/utils/galaxy.py: upstream_role_iterator.
use galaxy_ng.Prelude.{
  ℕ, zero, suc, ◌+◌, ◌==◌, Text, codes, lower, text_eq, leb, is_nil, starts_with, contains, Bool,
  true, false, not, ◌||◌, List, [], ◌∷◌, ◌++◌, Option, none, some, if◌then◌else◌,
}
use galaxy_ng.Hostname.Split.{is_blank, rstrip, strip_of}
use galaxy_ng.Names.Digits.{str}
use galaxy_ng.Json.{Value, text, obj, Items, nil, find_field, is_true}
use galaxy_ng.Upstream.Run.{
  Response, Server, sent_content, exhausted, Run, pure, raise, send, ◌>>=◌, ◌>>◌, get_key,
  get_or_none, items_of, id_string, json,
}
use galaxy_ng.Upstream.Fetch.{safe_fetch, base_of, paginated_results, url_of}
use galaxy_ng.Upstream.Owners.{
  get_namespace_owners_details, set_owners, skip_page, is_reached, for_results, namespace_in,
  set_cached,
}
use galaxy_ng.Upstream.Namespaces.{start_of}

-- An empty text counts as none.
abbrev pub is_given : Option Text → Bool
is_given none = false
is_given (some t) = not (is_nil t)

abbrev parameter_of : Text → Option Text → List Text
parameter_of key none = []
parameter_of key (some t) = if is_nil t then [] else (key ++ t) ∷ []

-- `'&'.join(params)`
abbrev query_of : List Text → Text
query_of [] = []
query_of (p ∷ []) = p
query_of (p ∷ q ∷ ps) = p ++ b'&' ∷ query_of (q ∷ ps)

-- A repository alone gives a query without a parameter.
abbrev roles_query : Text → Option Text → Option Text → Option Text → Text
roles_query base github_user github_repo role_name =
    if is_given github_user || is_given github_repo || is_given role_name
    then base
      ++ (codes "/api/v1/roles/?"
          ++ query_of (
              parameter_of (codes "owner__username=") github_user
              ++ parameter_of (codes "name=") role_name))
    else base ++ codes "/api/v1/roles/"

unfoldable pub with_start : ℕ → Text → Text
with_start start url =
    if start == 0
    then url
    else if contains (codes "?") url
    then url ++ (codes "&page=" ++ str start)
    else rstrip (λ c. c == b'/') url ++ (codes "/?page=" ++ str start)

-- The data of a role, or none where it is skipped: a missing page, a body that is no document, or
-- one that says so. Every exception of the reading skips the role.
abbrev found_role : Option Value → Option Value
found_role none = none
found_role (some (obj fs)) = elim (find_field (codes "detail") fs) [
  | none ↦ some (obj fs)
  | some (text t) ↦
      if text_eq (strip_of is_blank (lower t)) (codes "not found") then none else some (obj fs)
  | some _ ↦ none
]
found_role (some v) = none

abbrev pub role_of : Response → Option Value
role_of r = if r.status == 404 then none else found_role r.document

module _ (server : Server) (fuel : ℕ) (base : Text) where
  abbrev pub namespace_url : Value → Run Text
  namespace_url ns_id = do
    i ← id_string ns_id
    pure (base ++ (codes "/api/v1/namespaces/" ++ (i ++ codes "/")))

  -- The owners are written into the namespace that the cache holds.
  abbrev pub keep_namespace : Value → Value → Run Value
  keep_namespace ns_id data_of = do
    owners ← get_namespace_owners_details server fuel base ns_id
    n ← set_owners owners data_of
    set_cached ns_id n
    pure n

  -- A namespace, or none where its page is no document.
  unfoldable pub upstream_namespace : Value → Run (Option Value)
  upstream_namespace ns_id w = elim (namespace_in ns_id w.cache) [
    | some n ↦ pure (some n) w
    | none ↦
        (do
          u ← namespace_url ns_id
          r ← safe_fetch server u
          elim r.document [
            | none ↦ pure none
            | some d ↦ do n ← keep_namespace ns_id d; pure (some n)
          ])
          w
  ]

  -- One result: whether a role was sent.
  unfoldable pub role_result : Bool → Value → Run Bool
  unfolding upstream_namespace
  role_result get_versions rdata = do
    remote_id ← get_key (codes "id") rdata
    i ← id_string remote_id
    let role_url : Text = base ++ (codes "/api/v1/roles/" ++ (i ++ codes "/"))
    role_page ← safe_fetch server role_url
    let sent : Value → Run Bool = λ role_data. (do
      summary ← get_key (codes "summary_fields") role_data
      namespace ← get_key (codes "namespace") summary
      ns_id ← get_key (codes "id") namespace
      found ← upstream_namespace ns_id
      let versions : Run Items =
          if get_versions
          then paginated_results server fuel (role_url ++ codes "versions")
          else pure nil
      let complete : Value → Run Bool =
          λ n. (do vs ← versions; send (sent_content n role_data vs); pure true)
      elim found [ none ↦ pure false | some n ↦ complete n ])
    elim (role_of role_page) [ none ↦ pure false | some d ↦ sent d ]

abbrev next_link : Value → Run (Option Text)
next_link ds = do
  next ← get_or_none (codes "next") ds
  link ← get_or_none (codes "next_link") ds
  let from : Value → Run (Option Text) = λ v. (do t ← url_of v; pure (some t))
  if is_true next then from next else if is_true link then from link else pure none

abbrev pub based : Text → Text → Text
based base url =
    if starts_with base url
    then url
    else if starts_with (codes "/api/v1") url
    then base ++ url
    else base ++ (codes "/api/v1" ++ url)

module _ (server : Server) (fuel : ℕ) (base : Text) (limit : Option ℕ) (get_versions : Bool) where
  -- What is done with a page that was read; `go_on` is the next round.
  abbrev read_roles : ℕ → Response → (ℕ → Text → Run (Unit {0})) → Run (Unit {0})
  read_roles count page go_on = do
    ds ← json page
    rs ← get_key (codes "results") ds
    items ← items_of rs
    sent ← for_results (role_result server fuel base get_versions) limit count items
    let follow : Run (Unit {0}) = do
      next ← next_link ds
      elim next [ none ↦ pure tt | some u ↦ go_on sent (based base u) ]
    if is_reached limit sent then pure tt else follow

  unfoldable pub role_pages : ℕ → ℕ → ℕ → Text → Run (Unit {0})
  unfolding role_result
  role_pages zero pagenum count url = raise exhausted
  role_pages (suc rounds) pagenum count url = do
    page ← safe_fetch server url
    let skip =
        role_pages rounds (pagenum + 1) count (skip_page (codes "/?page={pagenum + 1}") pagenum url)
    let read = read_roles count page (λ n u. role_pages rounds (pagenum + 1) n u)
    if leb 500 page.status then skip else read

-- The page number starts at zero, also with a start page.
unfoldable pub upstream_role_iterator :
    Server
    → ℕ
    → ℕ
    → Option Text
    → Option ℕ
    → Option Text
    → Option Text
    → Option Text
    → Bool
    → Option ℕ
    → Run (Unit {0})
unfolding role_pages with_start
upstream_role_iterator server rounds fuel baseurl limit user repo name get_versions start_page =
    let base = base_of (if is_given baseurl then or_nothing baseurl else default_url) in
    let url = with_start (start_of start_page) (roles_query base user repo name) in
    role_pages server fuel base limit get_versions rounds 0 0 url
  where
    default_url : Text
    default_url = codes "https://galaxy.ansible.com/api/v1/roles"

    or_nothing : Option Text → Text
    or_nothing none = []
    or_nothing (some u) = u
