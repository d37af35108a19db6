-- ===== src/Upstream/Namespaces.antt =====
-- galaxy_ng/app/utils/galaxy.py: upstream_namespace_iterator. What a generator sends is kept in the
-- session.
use galaxy_ng.Prelude.{
  ℕ, zero, suc, ◌+◌, ◌==◌, Text, codes, leb, is_nil, ends_with, Bool, true, false, not, ◌&&◌, ◌++◌,
  Option, none, some, if◌then◌else◌,
}
use galaxy_ng.Hostname.Split.{is_blank, rstrip}
use galaxy_ng.Names.Digits.{str}
use galaxy_ng.Json.{Value, is_true}
use galaxy_ng.Upstream.Run.{
  Server, sent_namespace, exhausted, Run, pure, raise, send, ◌>>=◌, ◌>>◌, get_key, get_or_none,
  items_of, json,
}
use galaxy_ng.Upstream.Fetch.{safe_fetch, base_of}
use galaxy_ng.Upstream.Owners.{
  join_base, get_namespace_owners_details, set_owners, skip_page, is_reached, for_results,
}

abbrev namespaces_path : Text
namespaces_path = codes "/api/v1/namespaces"

abbrev with_path : Text → Text
with_path url =
    if ends_with namespaces_path (rstrip is_blank url)
    then url
    else rstrip is_blank url ++ namespaces_path

abbrev namespaces_url : Option Text → Text
namespaces_url none = codes "https://galaxy.ansible.com/api/v1/namespaces"
namespaces_url (some u) =
    if is_nil u then codes "https://galaxy.ansible.com/api/v1/namespaces" else with_path u

-- A start page of zero is none.
abbrev pub start_of : Option ℕ → ℕ
start_of none = 0
start_of (some n) = n

-- One result: whether a namespace was sent.
unfoldable pub namespace_result : Server → ℕ → Text → Bool → Value → Value → Run Bool
namespace_result server fuel base require_content total ndata = do
  summary ← get_key (codes "summary_fields") ndata
  counts ← get_key (codes "content_counts") summary
  let sent : Run Bool = do
    ns_id ← get_key (codes "id") ndata
    owners ← get_namespace_owners_details server fuel base ns_id
    n ← set_owners owners ndata
    send (sent_namespace total n)
    pure true
  if not (is_true counts) && require_content then pure false else sent

module _ (server : Server) (fuel : ℕ) (base : Text) (limit : Option ℕ)
    (require_content : Bool) where
  unfoldable pub namespace_pages : ℕ → ℕ → ℕ → Text → Run (Unit {0})
  unfolding namespace_result
  namespace_pages zero pagenum count url = raise exhausted
  namespace_pages (suc rounds) pagenum count url = do
    page ← safe_fetch server url
    let skip =
        namespace_pages rounds (pagenum + 1) count
          (skip_page (codes "/?page={pagenum + 1}") pagenum url)
    let read : Run (Unit {0}) = do
      ds ← json page
      total ← get_key (codes "count") ds
      rs ← get_key (codes "results") ds
      items ← items_of rs
      sent ← for_results (namespace_result server fuel base require_content total) limit count items
      link ← get_or_none (codes "next_link") ds
      let follow : Run (Unit {0}) = do
        u ← join_base base link
        namespace_pages rounds (pagenum + 1) sent u
      if is_reached limit sent then pure tt else if is_true link then follow else pure tt
    if leb 500 page.status then skip else read

unfoldable pub upstream_namespace_iterator :
    Server → ℕ → ℕ → Option Text → Option ℕ → Option ℕ → Bool → Run (Unit {0})
unfolding namespace_pages
upstream_namespace_iterator server rounds fuel baseurl limit start_page require_content =
    let url = namespaces_url baseurl in
    let start = start_of start_page in
    let first_url = if start == 0 then url else url ++ (codes "?page=" ++ str start) in
    namespace_pages server fuel (base_of url) limit require_content rounds start 0 first_url
