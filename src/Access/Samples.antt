-- ===== src/Access/Samples.antt =====
-- Conditions at concrete inputs: a site with two repositories, one of them private.
use galaxy_ng.Prelude.{◌≡◌, ◌↔◌, refl, String, true, false, ◌||◌, [], ◌∷◌, keep, Option, none, some}
use galaxy_ng.Access.Model.{repository, Perms, Repo, Site, returned, get_distro, ◌>>=◌}
use galaxy_ng.Access.Conditions.Collections.{
  can_create_collection, v3_can_view_repo_content, repo_at,
}
use galaxy_ng.Access.Conditions.Repositories.{
  has_ansible_repo_perms, is_not_protected_base_path, is_protected, CopyMove, Remote, Viewer,
  one_of, scope_by_view_repository_permissions,
}
use galaxy_ng.Access.Conditions.Legacy.{
  User, LegacyNamespace, namespaces, is_namespace_owner, related_namespace,
}
use galaxy_ng.Access.Selection.{Listed}
use galaxy_ng.Access.Laws.Upload.{MayUpload, can_create_collection_iff}
use galaxy_ng.Access.Laws.Moves.{ByRoles, detail, scope-eq-detail}
use galaxy_ng.Access.Laws.Owners.{owner_answer, is_namespace_owner_lem}

access_code : Unit {0}
unfolding get_distro repo_at v3_can_view_repo_content is_not_protected_base_path is_protected
access_code = tt

abbrev staging : Repo
staging = record { pk = 1; private = false; pipeline = some "staging" }

abbrev secret : Repo
secret = record { pk = 2; private = true; pipeline = none }

abbrev site : Site
site = record {
  namespaces = "acme" ∷ [];
  distros =
      record { base_path = "inbound"; repo = some staging }
      ∷ record { base_path = "hidden"; repo = some secret }
      ∷ [];
  github_key = none;
  github_secret = none;
  require_signature = true;
  unauthenticated_download = false;
  unauthenticated_access = false;
  resource_server = false;
  entitlement_required = "insights";
}

abbrev no_perms : Perms
no_perms = record { model = λ p. false; object = λ p t. false }

abbrev all_perms : Perms
all_perms = record { model = λ p. true; object = λ p t. true }

can_create_collection_iff_example :
    (can_create_collection site all_perms "acme" "inbound" ≡ returned true)
    ↔ MayUpload site all_perms "acme" "inbound"
can_create_collection_iff_example = can_create_collection_iff site all_perms "acme" "inbound"

abbrev unsigned : CopyMove
unsigned = record {
  signing_service = none;
  destinations = record { pk = 3; private = false; pipeline = some "approved" } ∷ [];
  signed_versions = (9, false) ∷ [];
}

abbrev reader : Viewer
reader = record { is_anonymous = false; user_roles = 2 ∷ []; group_roles = [] }

abbrev reader_perms : Perms
reader_perms = record {
  model = λ p. false;
  object = λ p t. elim t [ repository pk ↦ one_of pk (2 ∷ []) || false | _ ↦ false ];
}

reader-ByRoles : ByRoles reader_perms reader
reader-ByRoles pk = refl

scope-eq-detail_example :
    scope_by_view_repository_permissions (λ r. some r) reader_perms reader (staging ∷ secret ∷ [])
    ≡ keep
        (λ item.
          has_ansible_repo_perms reader_perms (detail (some item)) "ansible.view_ansiblerepository")
        (staging ∷ secret ∷ [])
scope-eq-detail_example =
    scope-eq-detail (λ r. some r) reader_perms reader (staging ∷ secret ∷ []) reader-ByRoles

abbrev community_remote : Remote
community_remote = record { url = "https://galaxy.ansible.com/api/"; requirements_file = none }

abbrev the_remote : String → Option Remote
the_remote href = some community_remote

abbrev owner : User
owner = record { pk = 4; username = "ann"; is_superuser = false }

abbrev legacy : LegacyNamespace
legacy = record {
  pk = 8;
  legacy_name = "ann";
  v3_namespace = some (record { name = "ann"; group_members = []; users = 4 ∷ [] });
}

is_namespace_owner_lem_example : is_namespace_owner (legacy ∷ []) [] owner (namespaces 8) ≡ (
    related_namespace (legacy ∷ []) [] (namespaces 8) >>= λ found.
    owner_answer owner found.0 found.1)
is_namespace_owner_lem_example = is_namespace_owner_lem (legacy ∷ []) [] owner (namespaces 8) refl

abbrev a_synclist : Listed
a_synclist = record { pk = 5; base_path = "1234-synclist"; repo = some staging }
