-- ===== src/RoleImport/Import.antt =====
-- galaxy_ng/app/api/v1/tasks.py: legacy_role_import. The log of the import and the row of the task are
-- left out.
use galaxy_ng.Prelude.{
  ℕ, ◌==◌, Text, codes, text_eq, Bool, ◌&&◌, List, [], ◌∷◌, ◌++◌, first, length, Option, none, some,
  if◌then◌else◌,
}
use galaxy_ng.RoleImport.Versions.{Version, is_filled, tag_text, compute_all_versions}
use galaxy_ng.RoleImport.Model.{
  LegacyNamespaceRow, RoleMetadata, LegacyRoleRow, UserRow, ImportFailure, key_error, loader_failed,
  ok, Import, pure, raise, ◌>>=◌,
}
use galaxy_ng.RoleImport.Services.{
  Commit, GitRepo, Loaded, Services, ImportRequest, RealRole, find_real_role, github_url, Checkout,
  checked_out, refused, do_git_checkout,
}
use galaxy_ng.RoleImport.Destination.{
  find_user, base_namespace, with_owner, destination, role_name_of,
}

abbrev no_metadata : RoleMetadata
no_metadata = record {
  github_user = none;
  github_repo = none;
  clone_url = [];
  github_reference = [];
  commit = [];
  commit_message = [];
  issue_tracker_url = [];
  description = [];
  license = [];
  min_ansible_version = [];
  min_ansible_container_version = [];
  readme = [];
  versions = [];
}

abbrev pub new_role : ℕ → Text → Text → LegacyRoleRow
new_role id namespace name = record {
  id = id;
  namespace = namespace;
  name = name;
  full_metadata = no_metadata;
}

abbrev pub is_role : Text → Text → LegacyRoleRow → Bool
is_role namespace name r = text_eq r.namespace namespace && text_eq r.name name

abbrev pub role_or_new : Option LegacyRoleRow → Text → Text → Import LegacyRoleRow
role_or_new (some r) namespace name d = ok r d
role_or_new none namespace name d =
    ok (new_role (length d.roles) namespace name)
      (record d { roles = d.roles ++ new_role (length d.roles) namespace name ∷ [] })

-- `LegacyRole.objects.get_or_create(namespace=namespace, name=name)`
unfoldable pub get_or_create_role : Text → Text → Import LegacyRoleRow
get_or_create_role namespace name d =
    role_or_new (first (is_role namespace name) d.roles) namespace name d

-- The role that was found counts only if it has the name of the loaded one.
abbrev pub kept_role : Text → Option LegacyRoleRow → Option LegacyRoleRow
kept_role name none = none
kept_role name (some r) = if text_eq r.name name then some r else none

unfoldable pub role_row : Text → Text → Option LegacyRoleRow → Import LegacyRoleRow
unfolding get_or_create_role
role_row namespace name none = get_or_create_role namespace name
role_row namespace name (some r) = pure r

abbrev or_text : Option Text → Text → Text
or_text o t = if is_filled o then tag_text o else t

-- What the import writes, with the versions that it computed.
abbrev new_metadata : RealRole → Loaded → Text → Text → Commit → List Version → RoleMetadata
new_metadata real loaded url ref commit versions = record {
  github_user = some real.github_user;
  github_repo = some real.github_repo;
  clone_url = url;
  github_reference = ref;
  commit = commit.hexsha;
  commit_message = commit.message;
  issue_tracker_url = or_text loaded.issue_tracker_url (url ++ codes "/issues");
  description = or_text loaded.description [];
  license = or_text loaded.license [];
  min_ansible_version = or_text loaded.min_ansible_version [];
  min_ansible_container_version = or_text loaded.min_ansible_container_version [];
  readme = loaded.readme;
  versions = versions;
}

abbrev save_role : LegacyRoleRow → List LegacyRoleRow → List LegacyRoleRow
save_role r [] = []
save_role r (s ∷ rs) = (if s.id == r.id then r else s) ∷ save_role r rs

abbrev pub saved : LegacyRoleRow → Import LegacyRoleRow
saved r d = ok r (record d { roles = save_role r d.roles })

abbrev pub needed :
    {A : Type 0} → ImportFailure → Option A → (A → Import LegacyRoleRow) → Import LegacyRoleRow
needed f none k = raise f
needed f (some a) k = k a

module _ (svc : Services) (req : ImportRequest) where
  -- The import behind the checkout.
  unfoldable pub store_role :
      Option UserRow
      → RealRole
      → LegacyNamespaceRow
      → Text
      → GitRepo
      → Text
      → Commit
      → Import LegacyRoleRow
  unfolding destination role_name_of role_row
  store_role user real n url repo ref commit = needed loader_failed (svc.load repo n.name) λ loaded.
      (do
        dest ← destination svc req user n real.role loaded
        let name : Text = role_name_of svc req loaded
        role ← role_row dest.0.name name (kept_role name dest.1)
        needed key_error
            (compute_all_versions svc.versions svc.now role.full_metadata.versions repo.tags)
            λ versions. saved (record role {
              name = name;
              full_metadata = new_metadata real loaded url ref commit versions;
            }))

  abbrev pub given_reference : Option Text
  given_reference = if is_filled req.github_reference then req.github_reference else none

  -- The url of the clone: the parameter, that of the role that was found, or that of the request.
  abbrev pub clone_url_of : RealRole → Text
  clone_url_of real =
      if is_filled req.alternate_clone_url
      then tag_text req.alternate_clone_url
      else elim real.clone_url [ none ↦ github_url req.github_user req.github_repo | some u ↦ u ]

  abbrev pub with_checkout :
      Option UserRow → RealRole → LegacyNamespaceRow → Text → Checkout → Import LegacyRoleRow
  with_checkout user real n url (refused f) = raise f
  with_checkout user real n url (checked_out repo ref commit) =
      store_role user real n url repo ref commit

  unfoldable pub legacy_role_import : Import LegacyRoleRow
  unfolding base_namespace with_owner find_real_role do_git_checkout store_role
  legacy_role_import d =
      (do
        let user = find_user svc req d
        let real = find_real_role req.github_user req.github_repo d.roles
        base ← base_namespace svc req user real.namespace_name
        n ← with_owner svc req user base
        with_checkout user real n (clone_url_of real)
            (do_git_checkout svc (clone_url_of real) given_reference))
        d
