-- ===== src/Namespaces/Model.antt =====
-- galaxy_ng/app/models/namespace.py and the handlers of collections and namespace metadata in
-- galaxy_ng/app/signals/handlers.py. The hash of the fields is the parameter `sha`.
use galaxy_ng.Prelude.{
  Text, text_eq, Bool, true, false, not, ◌||◌, List, [], ◌∷◌, ◌++◌, map, first, Option, none, some,
  if◌then◌else◌,
}

-- `AnsibleNamespaceMetadata` of pulp.
pub record Metadata : Type 0 where
  pub meta_name : Text
  pub company : Text
  pub email : Text
  pub description : Text
  pub resources : Text
  pub links : List (Text × Text)
  pub avatar_sha256 : Option Text
  pub metadata_sha256 : Text

pub record NamespaceRow : Type 0 where
  pub name : Text
  pub company : Text
  pub email : Text
  pub description : Text
  pub resources : Text
  pub links : List (Text × Text)
  pub last_created_pulp_metadata : Option Metadata

-- The dictionary that is hashed.
pub record Fields : Type 0 where
  pub name : Text
  pub company : Text
  pub email : Text
  pub description : Text
  pub resources : Text
  pub links : List (Text × Text)
  pub avatar_sha256 : Option Text

unfoldable pub hashed_fields : NamespaceRow → Fields
hashed_fields ns = record {
  name = ns.name;
  company = ns.company;
  email = ns.email;
  description = ns.description;
  resources = ns.resources;
  links = ns.links;
  avatar_sha256 = elim ns.last_created_pulp_metadata [ none ↦ none | some m ↦ m.avatar_sha256 ];
}

abbrev pub namespace_named : Text → List NamespaceRow → Option NamespaceRow
namespace_named name = first (λ r. text_eq r.name name)

abbrev pub new_namespace : Text → NamespaceRow
new_namespace name = record {
  name = name;
  company = [];
  email = [];
  description = [];
  resources = [];
  links = [];
  last_created_pulp_metadata = none;
}

-- `Namespace.objects.get_or_create(name=...)`: the namespace, whether it is new, and the table.
unfoldable pub get_or_create : Text → List NamespaceRow → NamespaceRow × (Bool × List NamespaceRow)
get_or_create name db = elim (namespace_named name db) [
  | some ns ↦ (ns, (false, db))
  | none ↦ (new_namespace name, (true, db ++ new_namespace name ∷ []))
]

unfoldable pub save : NamespaceRow → List NamespaceRow → List NamespaceRow
save ns = map (λ r. if text_eq r.name ns.name then ns else r)

-- `set_links` replaces the links by those of the list.
abbrev pub set_links : List (Text × Text) → NamespaceRow → NamespaceRow
set_links links ns = record ns { links = links }

-- `_update_metadata`, up to the call of `save`.
unfoldable pub updated : Metadata → NamespaceRow → NamespaceRow
updated m ns = set_links m.links (record ns {
  last_created_pulp_metadata = some m;
  company = m.company;
  email = m.email;
  description = m.description;
  resources = m.resources;
})

unfoldable pub create_namespace_if_not_present : Text → List NamespaceRow → List NamespaceRow
create_namespace_if_not_present collection_namespace db =
    (get_or_create collection_namespace db).1.1

abbrev pub is_missing_metadata : Option Metadata → Bool
is_missing_metadata none = true
is_missing_metadata (some m) = false

unfoldable pub associate_namespace_metadata :
    (Fields → Text) → Metadata → List NamespaceRow → List NamespaceRow
associate_namespace_metadata sha m db =
    let (ns, (created, db')) = get_or_create m.meta_name db in
    if created
      || is_missing_metadata ns.last_created_pulp_metadata
      || not (text_eq (sha (hashed_fields ns)) m.metadata_sha256)
    then save (updated m ns) db'
    else db'
