-- ===== src/Upstream/Collections.antt =====
-- galaxy_ng/app/utils/galaxy.py: upstream_collection_iterator.
use galaxy_ng.Prelude.{
  [], ◌∷◌, ℕ, zero, suc, ◌+◌, ◌==◌, Text, codes, text_eq, leb, Bool, true, false, not, ◌&&◌, ◌++◌,
  Option, none, some, if◌then◌else◌,
}
use galaxy_ng.Json.{Value, null, text, Items, nil, cons, is_true}
use galaxy_ng.Upstream.Run.{
  Server, sent_content, exhausted, unsupported, Run, pure, raise, send, ◌>>=◌, ◌>>◌, get_key,
  get_or_none, items_of, text_of, json, Response,
}
use galaxy_ng.Upstream.Fetch.{safe_fetch, base_of, paginated_results}
use galaxy_ng.Upstream.Owners.{
  join_base, find_namespace, skip_page, is_reached, for_results, namespace_in,
}
use galaxy_ng.Upstream.Roles.{is_given, namespace_url, keep_namespace}

abbrev named : Text → Value → Bool
named name (text t) = text_eq t name
named name v = false

-- `limit and count >= limit`: a limit of zero is none.
abbrev stops : Option ℕ → ℕ → Bool
stops none count = false
stops (some limit) count = not (limit == 0) && leb limit count

module _ (server : Server) (fuel : ℕ) (baseurl base : Text) where
  -- A namespace whose page is no document ends the run.
  unfoldable pub collection_namespace : Value → Run Value
  collection_namespace ns_id w = elim (namespace_in ns_id w.cache) [
    | some n ↦ pure n w
    | none ↦
        (do
          u ← namespace_url server fuel base ns_id
          r ← safe_fetch server u
          d ← json r
          keep_namespace server fuel base ns_id d)
          w
  ]

  abbrev pub owner_id : Value → Run Value
  owner_id cdata = do namespace ← get_key (codes "namespace") cdata; get_key (codes "id") namespace

  abbrev versions_at : Value → Run Items
  versions_at v = do u ← text_of v; paginated_results server fuel u

  abbrev searched_versions : Text → Value → Run Items
  searched_versions name cdata = do
    collection ← get_key (codes "name") cdata
    c ← text_of collection
    paginated_results server fuel
        (baseurl ++ (codes "/api/v2/collections/" ++ (name ++ (b'/' ∷ c ++ codes "/versions/"))))

  -- The results of a search, with the number of those that were sent before.
  unfoldable pub search_results : Text → Option ℕ → Bool → ℕ → Items → Run (Unit {0})
  unfolding collection_namespace
  search_results name limit get_versions count nil = pure tt
  search_results name limit get_versions count (cons cdata more) = do
    namespace ← get_key (codes "namespace") cdata
    found ← get_key (codes "name") namespace
    let skip = search_results name limit get_versions count more
    let rest = search_results name limit get_versions (count + 1) more
    let sent : Run (Unit {0}) = do
      ns_id ← get_key (codes "id") namespace
      n ← collection_namespace ns_id
      vs ← (if get_versions then searched_versions name cdata else pure nil)
      send (sent_content n cdata vs)
      rest
    if named name found then (if stops limit count then pure tt else sent) else skip

  unfoldable pub of_namespace : Text → Option ℕ → Bool → Run (Unit {0})
  unfolding find_namespace search_results
  of_namespace name limit get_versions = do
    found ← find_namespace server fuel (some baseurl) (some name) null
    ns_id ← get_key (codes "id") found.1
    page ← safe_fetch server (
        baseurl
        ++ (codes "/api/internal/ui/search/?keywords="
            ++ (name ++ codes "&order_by=-relevance&type=collection")))
    ds ← json page
    collection ← get_key (codes "collection") ds
    results ← get_key (codes "results") collection
    items ← items_of results
    search_results name limit get_versions 0 items

  -- The versions of one collection are read whatever `get_versions` is.
  unfoldable pub of_name : Text → Text → Run (Unit {0})
  unfolding collection_namespace
  of_name namespace name = do
    r ←
        safe_fetch server
          (base ++ (codes "/api/v2/collections/" ++ (namespace ++ (b'/' ∷ name ++ codes "/"))))
    cdata ← json r
    link ← get_key (codes "versions_url") cdata
    vs ← versions_at link
    ns_id ← owner_id cdata
    n ← collection_namespace ns_id
    send (sent_content n cdata vs)

  unfoldable pub collection_result : Bool → Value → Run Bool
  unfolding collection_namespace
  collection_result get_versions cdata = do
    ns_id ← owner_id cdata
    n ← collection_namespace ns_id
    let linked : Run Items = do link ← get_key (codes "versions_url") cdata; versions_at link
    vs ← (if get_versions then linked else pure nil)
    send (sent_content n cdata vs)
    pure true

module _ (server : Server) (fuel : ℕ) (baseurl base : Text) (limit : Option ℕ)
    (get_versions : Bool) where
  abbrev read_collections : ℕ → Response → (ℕ → Text → Run (Unit {0})) → Run (Unit {0})
  read_collections count page go_on = do
    ds ← json page
    rs ← get_key (codes "results") ds
    items ← items_of rs
    let step = collection_result server fuel baseurl base get_versions
    sent ← for_results step limit count items
    link ← get_or_none (codes "next_link") ds
    let follow : Run (Unit {0}) = do u ← join_base base link; go_on sent u
    if is_reached limit sent then pure tt else if is_true link then follow else pure tt

  unfoldable pub collection_pages : ℕ → ℕ → ℕ → Text → Run (Unit {0})
  unfolding collection_result
  collection_pages zero pagenum count url = raise exhausted
  collection_pages (suc rounds) pagenum count url = do
    page ← safe_fetch server url
    let skip =
        collection_pages rounds (pagenum + 1) count
          (skip_page (codes "/?page={pagenum+1}") pagenum url)
    let read = read_collections count page (λ n u. collection_pages rounds (pagenum + 1) n u)
    if leb 500 page.status then skip else read

abbrev text_or_empty : Option Text → Text
text_or_empty none = []
text_or_empty (some t) = t

-- The start page is not used.
unfoldable pub upstream_collection_iterator :
    Server → ℕ → ℕ → Option Text → Option ℕ → Option Text → Option Text → Bool → Run (Unit {0})
unfolding collection_pages of_name of_namespace
upstream_collection_iterator server rounds fuel baseurl limit namespace name get_versions =
    let url = if is_given baseurl then text_or_empty baseurl else default_url in
    let base = base_of url in
    if is_given namespace
    then (if is_given name
        then of_name server fuel url base (text_or_empty namespace) (text_or_empty name)
        else of_namespace server fuel url base (text_or_empty namespace) limit get_versions)
    else if is_given name
    then raise unsupported
    else collection_pages server fuel url base limit get_versions rounds 0 0
        (base ++ codes "/api/v2/collections/")
  where
    default_url : Text
    default_url = codes "https://galaxy.ansible.com/api/v2/collections"
