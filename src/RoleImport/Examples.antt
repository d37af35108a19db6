-- ===== src/RoleImport/Examples.antt =====
-- galaxy_ng/app/api/v1/tasks.py: tests of the import of a role, and the theorems at a concrete import.
use galaxy_ng.Prelude.{
  String, if◌then◌else◌, sym, ap, ◌∙◌, ◌≡◌, refl, Text, codes, text_eq, lower, lower_code, true,
  false, List, [], ◌∷◌, any, all, map, not, Option, none, some,
}
use galaxy_ng.RoleImport.Versions.{
  Version, Tag, VersionLibraries, uuid, number, parse_version_tag, sort_versions, new_versions,
  with_uuids, with_tags, normalize_versions, version_name, in_tags, tag_names, compute_all_versions,
  keyed,
}
use galaxy_ng.RoleImport.Tags.{IsSort, is_covered, compute_all_versions_lem}
use galaxy_ng.RoleImport.Model.{
  LegacyNamespaceRow, LegacyRoleRow, Db, permission_denied, no_namespace, attribute_error,
  bad_reference, Outcome, ok, fail, get_or_create_legacy, get_or_create_v3, set_provider,
}
use galaxy_ng.RoleImport.Services.{
  Commit, GitRepo, Loaded, Services, ImportRequest, find_real_role, do_git_checkout,
}
use galaxy_ng.RoleImport.Destination.{
  base_namespace, with_owner, other_namespace, destination, role_name_of,
}
use galaxy_ng.RoleImport.Import.{get_or_create_role, role_row, store_role, legacy_role_import}
use galaxy_ng.RoleImport.Allowed.{rows, Same, legacy_role_import-Same}

import_code : Unit {0}
unfolding parse_version_tag sort_versions new_versions with_uuids with_tags normalize_versions
    compute_all_versions get_or_create_legacy get_or_create_v3 set_provider find_real_role
    do_git_checkout base_namespace with_owner other_namespace destination role_name_of
    get_or_create_role role_row store_role legacy_role_import lower lower_code
import_code = tt

abbrev second : List (Text × Version) → List Version
second = map (λ p. p.1)

-- Every text is a semantic version here, and the sort keeps the order.
abbrev libraries : VersionLibraries
libraries = record {
  fresh = λ n. codes "new";
  has_number = λ t. not (text_eq t (codes "devel"));
  semantic = λ t. if text_eq t (codes "devel") then none else some t;
  sort = λ ps. some (second ps);
}

abbrev tag_named : String → Tag
tag_named t = record { name = codes t; commit = [] }

abbrev old_version : String → Version
old_version t = record {
  id = some (number 7);
  upstream_id = none;
  tag = none;
  name = some (codes t);
  version = some (codes t);
  other = [];
}

abbrev old_versions : List Version
old_versions = old_version "1.0" ∷ old_version "devel" ∷ old_version "0.9" ∷ []

abbrev repo_tags : List Tag
repo_tags = tag_named "1.0" ∷ tag_named "v2.0" ∷ tag_named "devel" ∷ []

abbrev kept : Version
kept = record {
  id = some (uuid (codes "new"));
  upstream_id = some 7;
  tag = some (codes "1.0");
  name = some (codes "1.0");
  version = some (codes "1.0");
  other = [];
}

abbrev added : Version
added = record {
  id = some (uuid (codes "new"));
  upstream_id = none;
  tag = some (codes "v2.0");
  name = none;
  version = some (codes "2.0");
  other = codes "now";
}

versions_test :
    compute_all_versions libraries (codes "now") old_versions repo_tags ≡ some (kept ∷ added ∷ [])
unfolding import_code
versions_test = refl

-- A version without the key version passes the normalization and fails where it is logged.
unlogged_test :
    compute_all_versions libraries
      (codes "now")
      (record (old_version "1.0") { version = none } ∷ [])
      repo_tags
    ≡ none
unfolding import_code
unlogged_test = refl

some_same : (a b : List Version) → ◌≡◌ {A = Option (List Version)} (some a) (some b) → a ≡ b
some_same a b e = cc

second-keyed : (vs : List Version) → second (map keyed vs) ≡ vs
second-keyed [] = refl
second-keyed (v ∷ vs) = ap (λ ws. v ∷ ws) (second-keyed vs)

libraries-IsSort : IsSort libraries
libraries-IsSort = record {
  same = λ vs ws e q. ap (any q) (sym (some_same (second (map keyed vs)) ws e) ∙ second-keyed vs);
}

compute_all_versions_lem_example :
    (all (is_covered libraries (kept ∷ added ∷ [])) repo_tags ≡ true)
    × (any (λ w. not (in_tags (version_name w) (tag_names repo_tags))) (kept ∷ added ∷ []) ≡ false)
unfolding import_code
compute_all_versions_lem_example =
    compute_all_versions_lem libraries (codes "now") old_versions (kept ∷ added ∷ []) repo_tags
      libraries-IsSort refl

abbrev commit : Commit
commit = record { hexsha = codes "c0"; message = [] }

abbrev repository : GitRepo
repository = record {
  branches = codes "main" ∷ codes "next" ∷ [];
  tags = repo_tags;
  active_branch = codes "main";
  head = λ ref. some commit;
}

abbrev loaded : Option Text → Loaded
loaded namespace = record {
  namespace = namespace;
  role_name = none;
  issue_tracker_url = none;
  description = none;
  license = none;
  min_ansible_version = none;
  min_ansible_container_version = none;
  readme = [];
}

-- The v3 namespace of the name `ours` belongs to the user 1.
abbrev services : Option Text → Services
services namespace = record {
  clone = λ url. some repository;
  load = λ repo n. some (loaded namespace);
  owners = λ p. if text_eq p (codes "ours") then 1 ∷ [] else [];
  now = codes "now";
  versions = libraries;
  name_regexp = λ t. true;
}

abbrev by_user : String → ImportRequest
by_user user = record {
  request_username = codes user;
  github_user = codes "ours";
  github_repo = codes "ansible-role-web";
  github_reference = none;
  alternate_namespace_name = none;
  alternate_role_name = none;
  alternate_clone_url = none;
  superuser_can_create_namespaces = true;
}

abbrev namespace_of : String → LegacyNamespaceRow
namespace_of n = record { name = codes n; provider = some (codes n) }

abbrev rows_before : Db
rows_before = record {
  users =
      record { id = 1; username = codes "ann"; is_superuser = false }
      ∷ record { id = 2; username = codes "root"; is_superuser = true }
      ∷ [];
  legacy = namespace_of "ours" ∷ namespace_of "theirs" ∷ [];
  v3 = codes "ours" ∷ codes "theirs" ∷ [];
  roles = [];
}

-- Where a role goes, and how an import fails.
abbrev goes_to : Outcome LegacyRoleRow → Text × Text
goes_to (ok r d) = (r.namespace, r.name)
goes_to (fail f d) = ([], [])

import_test :
    goes_to (legacy_role_import (services none) (by_user "ann") rows_before)
    ≡ (codes "ours", codes "web")
unfolding import_code
import_test = refl

denied_test :
    legacy_role_import (services (some (codes "theirs"))) (by_user "ann") rows_before
    ≡ fail permission_denied rows_before
unfolding import_code
denied_test = refl

superuser_test :
    goes_to (legacy_role_import (services (some (codes "theirs"))) (by_user "root") rows_before)
    ≡ (codes "theirs", codes "web")
unfolding import_code
superuser_test = refl

unknown_user_test :
    legacy_role_import (services (some (codes "theirs"))) (by_user "nobody") rows_before
    ≡ fail attribute_error rows_before
unfolding import_code
unknown_user_test = refl

no_namespace_test :
    legacy_role_import
      (services none)
      (record (by_user "ann") { github_user = codes "new" })
      rows_before
    ≡ fail no_namespace rows_before
unfolding import_code
no_namespace_test = refl

reference_test :
    legacy_role_import
      (services none)
      (record (by_user "ann") { github_reference = some (codes "gone") })
      rows_before
    ≡ fail bad_reference rows_before
unfolding import_code
reference_test = refl

legacy_role_import-Same_example :
    Same rows_before (rows (legacy_role_import (services none) (by_user "ann") rows_before))
legacy_role_import-Same_example =
    legacy_role_import-Same (services none) (by_user "ann") rows_before refl
