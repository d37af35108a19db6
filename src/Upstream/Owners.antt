-- ===== src/Upstream/Owners.antt =====
-- galaxy_ng/app/utils/galaxy.py: the owners of a namespace, find_namespace, and what the iterators
-- share.
use galaxy_ng.Prelude.{
  ℕ, zero, suc, ◌+◌, ◌==◌, Text, codes, leb, is_nil, contains, replace, Bool, true, false, List, [],
  ◌∷◌, ◌++◌, Option, none, some, if◌then◌else◌,
}
use galaxy_ng.Hostname.Split.{rstrip}
use galaxy_ng.Names.Digits.{str}
use galaxy_ng.Json.{
  Value, arr, obj, Items, nil, cons, Members, end, find_field, set_field, is_true, append_items,
  same_id,
}
use galaxy_ng.Upstream.Run.{
  Server, type_error, key_error, index_error, value_error, exhausted, Run, pure, raise, ◌>>=◌,
  get_key, get_or_none, items_of, text_of, id_string, json,
}
use galaxy_ng.Upstream.Fetch.{safe_fetch, base_of}

abbrev pub join_base : Text → Value → Run Text
join_base base v = do t ← text_of v; pure (base ++ t)

abbrev linked : Text → Option Value → Run (Option Text)
linked base none = raise key_error
linked base (some v) =
    let joined = (do u ← join_base base v; pure (some u)) in if is_true v then joined else pure none

abbrev fields_of : Value → Members
fields_of (obj fs) = fs
fields_of v = end

-- The url of the next owners of an old galaxy, or none at the last page.
unfoldable pub owners_next : Text → Value → Run (Option Text)
owners_next base o = do
  next ← get_or_none (codes "next") o
  if is_true next then linked base (find_field (codes "next_link") (fields_of o)) else pure none

abbrev pub is_object : Value → Bool
is_object (obj fs) = true
is_object v = false

unfoldable pub owners_loop : Server → Text → ℕ → Text → Items → Run Items
unfolding safe_fetch owners_next
owners_loop server base zero url owners = raise exhausted
owners_loop server base (suc fuel) url owners = do
  rr ← safe_fetch server url
  o ← json rr
  let old_galaxy : Run Items = do
    rs ← get_key (codes "results") o
    more ← items_of rs
    next ← owners_next base o
    elim next [
      | none ↦ pure (append_items owners more)
      | some u ↦ owners_loop server base fuel u (append_items owners more)
    ]
  let new_galaxy : Run Items = do more ← items_of o; pure (append_items owners more)
  if is_object o then old_galaxy else new_galaxy

unfoldable pub owners_url : Text → Value → Run Text
owners_url base ns_id = do
  i ← id_string ns_id
  pure (base ++ (codes "/api/v1/namespaces/" ++ (i ++ codes "/owners/")))

unfoldable pub get_namespace_owners_details : Server → ℕ → Text → Value → Run Items
unfolding owners_loop owners_url
get_namespace_owners_details server fuel base ns_id = do
  u ← owners_url base ns_id
  owners_loop server base fuel u nil

-- `v['summary_fields']['owners'] = owners`
unfoldable pub set_owners : Items → Value → Run Value
set_owners owners (obj fs) = elim (find_field (codes "summary_fields") fs) [
  | none ↦ raise key_error
  | some (obj summary) ↦ pure (
      obj (
        set_field (codes "summary_fields") (obj (set_field (codes "owners") (arr owners) summary))
          fs))
  | some _ ↦ raise type_error
]
set_owners owners v = raise type_error

-- The loop of find_namespace, which reads the next link without a test.
unfoldable pub all_owners : Server → Text → ℕ → Text → Items → Run Items
unfolding safe_fetch
all_owners server base zero url owners = raise exhausted
all_owners server base (suc fuel) url owners = do
  rr ← safe_fetch server url
  o ← json rr
  rs ← get_key (codes "results") o
  more ← items_of rs
  next ← get_or_none (codes "next") o
  let follow : Run Items = do
    link ← get_key (codes "next_link") o
    u ← join_base base link
    all_owners server base fuel u (append_items owners more)
  if is_true next then follow else pure (append_items owners more)

abbrev first_item : Items → Run Value
first_item nil = raise index_error
first_item (cons v vs) = pure v

abbrev or_default : Text → Option Text → Text
or_default d none = d
or_default d (some u) = if is_nil u then d else u

abbrev galaxy_url : Text
galaxy_url = codes "https://galaxy.ansible.com"

-- The row of a namespace by its name or by its id.
unfoldable pub namespace_info : Server → Text → Option Text → Value → Run (Value × Value)
unfolding safe_fetch
namespace_info server url name id =
    let by_name : Text → Run (Value × Value) = λ n. (do
      rr ← safe_fetch server (url ++ (codes "/?name=" ++ n))
      ds ← json rr
      rs ← get_key (codes "results") ds
      items ← items_of rs
      info ← first_item items
      ns_name ← get_key (codes "name") info
      pure (ns_name, info)) in
    let by_id : Run (Value × Value) = (do
      i ← id_string id
      rr ← safe_fetch server (url ++ (b'/' ∷ i ++ codes "/"))
      ds ← json rr
      ns_name ← get_key (codes "name") ds
      pure (ns_name, ds)) in
    let without_name = if is_true id then by_id else raise value_error in
    elim name [ none ↦ without_name | some n ↦ if is_nil n then without_name else by_name n ]

unfoldable pub find_namespace : Server → ℕ → Option Text → Option Text → Value → Run (Value × Value)
unfolding namespace_info owners_url all_owners set_owners
find_namespace server fuel baseurl name id = do
  let url : Text = or_default galaxy_url baseurl ++ codes "/api/v1/namespaces"
  found ← namespace_info server url name id
  ns_id ← get_key (codes "id") found.1
  u ← owners_url (base_of url) ns_id
  owners ← all_owners server (base_of url) fuel u nil
  info ← set_owners owners found.1
  pure (found.0, info)

-- The url that is asked after a server error. The last part of a url without a page is the text of
-- the source, which is no f-string.
unfoldable pub skip_page : Text → ℕ → Text → Text
skip_page literal pagenum url =
    if contains (codes "page=") url
    then replace (codes "page=" ++ str pagenum) (codes "page=" ++ str (pagenum + 1)) 0 url
    else rstrip (λ c. c == b'/') url ++ literal

abbrev pub is_reached : Option ℕ → ℕ → Bool
is_reached none count = false
is_reached (some limit) count = leb limit count

-- The loop over the results of a page: it ends early where a result that is sent reaches the limit.
unfoldable pub for_results : (Value → Run Bool) → Option ℕ → ℕ → Items → Run ℕ
for_results step limit count nil = pure count
for_results step limit count (cons v vs) = do
  was_sent ← step v
  let rest = for_results step limit count vs
  let counted = for_results step limit (count + 1) vs
  if was_sent then (if is_reached limit (count + 1) then pure (count + 1) else counted) else rest

abbrev pub namespace_in : Value → List (Value × Value) → Option Value
namespace_in k [] = none
namespace_in k ((j, v) ∷ m) = if same_id j k then some v else namespace_in k m

abbrev pub set_cached : Value → Value → Run (Unit {0})
set_cached k v w = pure tt (record w { cache = (k, v) ∷ w.cache })
