-- ===== src/RoleImport/Samples.antt =====
-- galaxy_ng/app/utils/legacy.py: tests of process_namespace, and the theorems at a concrete namespace.
use galaxy_ng.Prelude.{
  String, ◌≡◌, refl, Text, codes, lower, lower_code, Bool, true, false, List, [], ◌∷◌, all, map,
  none, some,
}
use galaxy_ng.Names.Digits.{numeral, digit_code}
use galaxy_ng.Names.Namespaces.{
  generate_v3_namespace_from_attributes, validate_namespace_name, transform_namespace_name,
  map_v3_namespace,
}
use galaxy_ng.RoleImport.Model.{LegacyNamespaceRow, find_legacy, bare}
use galaxy_ng.RoleImport.Providers.{
  SyncTables, NamespaceInfo, blank_provider, save_provider, set_email, add_owners, update_provider,
  process_namespace,
}
use galaxy_ng.RoleImport.Bound.{is_short, is_short-process_namespace}
use galaxy_ng.RoleImport.Kept.{find_legacy-process_namespace}

provider_code : Unit {0}
unfolding save_provider set_email add_owners update_provider process_namespace
    generate_v3_namespace_from_attributes validate_namespace_name transform_namespace_name
    map_v3_namespace numeral digit_code lower lower_code
provider_code = tt

abbrev always : Text → Bool
always t = true

abbrev urls : Text → List Text
urls t = t ∷ []

abbrev long_text : Text
long_text = codes "0123456789012345678901234567890123456789012345678901234567890123456789"

abbrev upstream_info : NamespaceInfo
upstream_info = record {
  avatar_url = codes "http://a.png";
  company = some long_text;
  email = none;
  description = some (codes "roles");
  owners =
      record { github_id = some 5; username = codes "ann" }
      ∷ record { github_id = none; username = codes "bob" }
      ∷ [];
}

abbrev some_tables : SyncTables
some_tables = record {
  legacy = record { name = codes "ann"; provider = some (codes "ann") } ∷ bare (codes "old") ∷ [];
  v3 = record (blank_provider (codes "ann")) { description = codes "mine" } ∷ [];
  users = record { username = codes "carl"; email = codes "bob@localhost" } ∷ [];
}

abbrev after_sync : String → SyncTables
after_sync name = process_namespace always urls (codes name) upstream_info false some_tables

-- A field that is there stays, a long one is cut, an owner is found by the email or made anew.
ann_test :
    (after_sync "ann").v3
    ≡ record {
      name = codes "ann";
      avatar_url = codes "http://a.png";
      company = codes "012345678901234567890123456789012345678901234567890123456789";
      email = [];
      description = codes "mine";
      owners = codes "ann" ∷ codes "carl" ∷ [];
    }
      ∷ []
unfolding provider_code
ann_test = refl

users_test :
    (after_sync "ann").users
    ≡ record { username = codes "carl"; email = codes "bob@localhost" }
      ∷ record { username = codes "ann"; email = codes "5@GALAXY.GITHUB.UNVERIFIED.COM" }
      ∷ []
unfolding provider_code
users_test = refl

-- A namespace without a provider gets one, as does one that is new.
bound_test :
    map (λ (n : LegacyNamespaceRow). n.provider) (after_sync "old").legacy
    ≡ some (codes "ann") ∷ some (codes "old") ∷ []
unfolding provider_code
bound_test = refl

new_test :
    map (λ (n : LegacyNamespaceRow). n.provider) (after_sync "new").legacy
    ≡ some (codes "ann") ∷ none ∷ some (codes "new") ∷ []
unfolding provider_code
new_test = refl

is_short-process_namespace_example :
    all is_short (process_namespace always urls (codes "old") upstream_info false some_tables).v3
    ≡ true
is_short-process_namespace_example =
    is_short-process_namespace always urls (codes "old") upstream_info false some_tables refl

find_legacy-process_namespace_example :
    find_legacy
      (codes "ann")
      (process_namespace always urls (codes "old") upstream_info true some_tables).legacy
    ≡ some (record { name = codes "ann"; provider = some (codes "ann") })
find_legacy-process_namespace_example =
    find_legacy-process_namespace always urls (codes "old") (codes "ann") (codes "ann")
      upstream_info true (record { name = codes "ann"; provider = some (codes "ann") }) some_tables
      refl refl
