-- ===== src/Upstream/Examples.antt =====
-- galaxy_ng/app/utils/galaxy.py: tests of the functions, and the theorems at concrete servers.
use galaxy_ng.Prelude.{
  String, length, ℕ, suc, ◌+◌, ◌*◌, ◌==◌, ◌≡◌, refl, Text, codes, lower, lower_code, text_eq, true,
  false, none, some, [], ◌∷◌, if◌then◌else◌, arith,
}
use galaxy_ng.Names.Digits.{numeral, digit_code}
use galaxy_ng.Json.{Value, null, flag, num, text, arr, obj, nil, cons, Members, end, field}
use galaxy_ng.Upstream.Run.{Response, Server, Session, ok, fail, exhausted, sent_namespace}
use galaxy_ng.Upstream.Fetch.{
  request, fetch_loop, safe_fetch, base_of, next_page, read_page, pages_loop, paginated_results,
}
use galaxy_ng.Upstream.Owners.{
  owners_next, owners_loop, owners_url, get_namespace_owners_details, set_owners, all_owners,
  namespace_info, find_namespace, skip_page, for_results,
}
use galaxy_ng.Upstream.Namespaces.{namespace_result, namespace_pages, upstream_namespace_iterator}
use galaxy_ng.Upstream.Roles.{
  with_start, upstream_namespace, role_result, role_pages, upstream_role_iterator,
}
use galaxy_ng.Upstream.Collections.{
  collection_namespace, search_results, of_namespace, of_name, collection_result, collection_pages,
  upstream_collection_iterator,
}
use galaxy_ng.Upstream.Tries.{IsFetched, safe_fetch-IsFetched}
use galaxy_ng.Upstream.Paging.{Chain, path_page, last_page, asked, paginated_results-Chain}
use galaxy_ng.Upstream.Stuck.{role_pages_stuck}

upstream_code : Unit {0}
unfolding request fetch_loop safe_fetch base_of next_page read_page pages_loop paginated_results
    owners_next owners_loop owners_url get_namespace_owners_details set_owners all_owners
    namespace_info find_namespace skip_page for_results namespace_result namespace_pages
    upstream_namespace_iterator with_start upstream_namespace role_result role_pages
    upstream_role_iterator collection_namespace search_results of_namespace of_name
    collection_result collection_pages upstream_collection_iterator numeral digit_code lower
    lower_code
upstream_code = tt

abbrev fresh : Session
fresh = record { requests = 0; slept = 0; cache = []; sent = [] }

abbrev entry : String → Value → Members → Members
entry k v fs = field (codes k) v fs

abbrev found : Value → Response
found v = record { status = 200; document = some v }

abbrev broken : Response
broken = record { status = 500; document = none }

abbrev gone : Response
gone = record { status = 404; document = none }

abbrev first_pages : Text
first_pages = codes "http://g/api/v1/x"

abbrev first_document : Value
first_document = obj (
    entry "results" (arr (cons (num 1) (cons (num 2) nil)))
      (entry "next_link" (text (codes "/api/v1/x?page=2")) end))

abbrev second_document : Value
second_document = obj (entry "results" (arr (cons (num 3) nil)) (entry "next" null end))

abbrev two_pages : Text → Response
two_pages url =
    if text_eq url first_pages
    then found first_document
    else if text_eq url (codes "http://g/api/v1/x?page=2")
    then found second_document
    else gone

-- The second request is answered.
abbrev flaky : Server
flaky n url = if n == 0 then broken else two_pages url

all_pages :
    paginated_results flaky 5 first_pages fresh
    ≡ ok
        (cons (num 1) (cons (num 2) (cons (num 3) nil)))
        (record fresh { requests = 3; slept = 60 })
unfolding upstream_code
all_pages = refl

-- A next page below another version of the interface leads to a url that no server has.
v2_pages :
    next_page
      (codes "http://g")
      (obj (entry "next" (text (codes "http://g/api/v2/y/?page=2")) end))
      fresh
    ≡ ok (some (codes "http://g/api/v1http://g/api/v2/y/?page=2")) fresh
unfolding upstream_code
v2_pages = refl

safe_fetch-IsFetched_example :
    (r : Response) × (t : Session) × (safe_fetch flaky first_pages fresh ≡ ok r t)
    × IsFetched flaky first_pages 5 fresh t r
safe_fetch-IsFetched_example = safe_fetch-IsFetched flaky first_pages fresh

-- The first page gives the path of the second one behind /api/v1.
abbrev v1_pages : Text → Response
v1_pages url =
    if text_eq url first_pages
    then found (
        obj (
          entry "results" (arr (cons (num 1) (cons (num 2) nil)))
            (entry "next" (text (codes "/x?page=2")) end)))
    else two_pages url

v1_pages-Chain :
    Chain v1_pages
      (base_of first_pages)
      2
      first_pages
      (cons (num 1) (cons (num 2) (cons (num 3) nil)))
unfolding upstream_code
v1_pages-Chain =
    path_page first_pages (codes "/x?page=2") (refl, refl) refl refl refl
      (last_page (refl, refl) refl)

paginated_results-Chain_example :
    paginated_results (λ k. v1_pages) 2 first_pages fresh
    ≡ ok
        (cons (num 1) (cons (num 2) (cons (num 3) nil)))
        (asked v1_pages (base_of first_pages) 2 fresh)
paginated_results-Chain_example =
    paginated_results-Chain v1_pages 2 2 first_pages
      (cons (num 1) (cons (num 2) (cons (num 3) nil))) fresh refl (omega arith) v1_pages-Chain

abbrev no_server : Server
no_server n url = broken

role_pages_stuck_example :
    (t : Session) × (role_pages no_server 9
        (codes "http://g")
        none
        true
        (suc 6)
        0
        0
        (codes "http://g/r/")
        fresh
      ≡ fail exhausted t)
    × (t.requests ≡ fresh.requests + 5 * suc 6)
    × (t.sent ≡ fresh.sent)
role_pages_stuck_example =
    role_pages_stuck no_server 9 (codes "http://g") none true 6 0 0 (codes "http://g/r/") fresh refl
      refl (λ n. refl) (λ n. refl)

abbrev namespace_document : Value
namespace_document =
    obj (
      entry "id" (num 7)
        (entry "summary_fields" (obj (entry "content_counts" (flag true) end)) end))

-- One page with one namespace that has one owner.
abbrev one_namespace : Server
one_namespace n url =
    if text_eq url (codes "http://g/api/v1/namespaces")
    then found
        (obj (entry "count" (num 1) (entry "results" (arr (cons namespace_document nil)) end)))
    else if text_eq url (codes "http://g/api/v1/namespaces/7/owners/")
    then found (arr (cons (text (codes "ada")) nil))
    else gone

namespaces_run :
    upstream_namespace_iterator one_namespace 3 3 (some (codes "http://g")) none none true fresh
    ≡ ok tt (record fresh {
      requests = 2;
      sent =
          sent_namespace (num 1) (
            obj (
              entry "id" (num 7) (
                entry "summary_fields"
                  (obj (
                    entry "content_counts"
                      (flag true)
                      (entry "owners" (arr (cons (text (codes "ada")) nil)) end)))
                  end)))
          ∷ [];
    })
unfolding upstream_code
namespaces_run = refl

abbrev role_document : Value
role_document = obj (
    entry "id" (num 3)
      (entry "summary_fields" (obj (entry "namespace" (obj (entry "id" (num 7) end)) end)) end))

abbrev one_role : Server
one_role n url =
    if text_eq url (codes "http://g/api/v1/roles/?owner__username=ada&page=2")
    then found (obj (entry "results" (arr (cons role_document nil)) end))
    else if text_eq url (codes "http://g/api/v1/roles/3/")
    then found role_document
    else if text_eq url (codes "http://g/api/v1/namespaces/7/")
    then found namespace_document
    else one_namespace n url

-- Four requests: the page, the role, its namespace and the owners.
roles_run :
    elim (upstream_role_iterator one_role 3 3
        (some (codes "http://g"))
        (some 1)
        (some (codes "ada"))
        none
        none
        false
        (some 2)
        fresh)
      as (λ x. ℕ × ℕ) [ ok a t ↦ (t.requests, length t.sent) | fail e t ↦ (0, 0) ]
    ≡ (4, 1)
unfolding upstream_code
roles_run = refl
