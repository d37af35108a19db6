-- ===== src/RoleImport/Services.antt =====
-- galaxy_ng/app/api/v1/tasks.py: what an import of a role uses, find_real_role and do_git_checkout.
use galaxy_ng.Prelude.{
  ℕ, Text, codes, text_eq, is_nil, Bool, false, not, ◌&&◌, ◌||◌, List, ◌∷◌, ◌++◌, first, Option,
  none, some, if◌then◌else◌,
}
use galaxy_ng.Upstream.Fetch.{split_scheme}
use galaxy_ng.RoleImport.Versions.{Tag, VersionLibraries, is_filled, tag_text, in_tags, tag_names}
use galaxy_ng.RoleImport.Model.{LegacyRoleRow, ImportFailure, clone_failed, bad_reference}

pub record Commit : Type 0 where
  pub hexsha : Text
  pub message : Text

-- A clone: `head` is the last commit after the checkout of a reference, or without one; none is a
-- checkout that fails.
pub record GitRepo : Type 0 where
  pub branches : List Text
  pub tags : List Tag
  pub active_branch : Text
  pub head : Option Text → Option Commit

-- What galaxy_importer finds in a role.
pub record Loaded : Type 0 where
  pub namespace : Option Text
  pub role_name : Option Text
  pub issue_tracker_url : Option Text
  pub description : Option Text
  pub license : Option Text
  pub min_ansible_version : Option Text
  pub min_ansible_container_version : Option Text
  pub readme : Text

-- What an import uses: git, galaxy_importer, the owners of a v3 namespace, the time and the libraries
-- for versions and for names.
pub record Services : Type 0 where
  pub clone : Text → Option GitRepo
  pub load : GitRepo → Text → Option Loaded
  pub owners : Text → List ℕ
  pub now : Text
  pub versions : VersionLibraries
  pub name_regexp : Text → Bool

pub record ImportRequest : Type 0 where
  pub request_username : Text
  pub github_user : Text
  pub github_repo : Text
  pub github_reference : Option Text
  pub alternate_namespace_name : Option Text
  pub alternate_role_name : Option Text
  pub alternate_clone_url : Option Text
  pub superuser_can_create_namespaces : Bool

pub record RealRole : Type 0 where
  pub role : Option LegacyRoleRow
  pub namespace_name : Text
  pub github_user : Text
  pub github_repo : Text
  pub clone_url : Option Text

abbrev same_text : Option Text → Text → Bool
same_text none t = false
same_text (some s) t = text_eq s t

abbrev pub github_url : Text → Text → Text
github_url user repo = codes "https://github.com/" ++ (user ++ b'/' ∷ repo)

-- The parts of a role that was found; its metadata has the user and the repository as they are asked.
abbrev pub real_of : Text → Text → Option LegacyRoleRow → RealRole
real_of user repo none = record {
  role = none;
  namespace_name = user;
  github_user = user;
  github_repo = repo;
  clone_url = none;
}
real_of user repo (some r) = record {
  role = some r;
  namespace_name = r.namespace;
  github_user =
      if is_filled r.full_metadata.github_user then tag_text r.full_metadata.github_user else user;
  github_repo =
      if is_filled r.full_metadata.github_repo then tag_text r.full_metadata.github_repo else repo;
  clone_url =
      if is_filled r.full_metadata.github_user || is_filled r.full_metadata.github_repo
      then some (
          github_url
            (if is_filled r.full_metadata.github_user
              then tag_text r.full_metadata.github_user
              else user)
            (if is_filled r.full_metadata.github_repo
              then tag_text r.full_metadata.github_repo
              else repo))
      else none;
}

unfoldable pub find_real_role : Text → Text → List LegacyRoleRow → RealRole
find_real_role user repo roles = real_of user repo (
    first
      (λ r.
        same_text r.full_metadata.github_user user && same_text r.full_metadata.github_repo repo)
      roles)

pub data Checkout : Type 0 where
  checked_out : GitRepo → Text → Commit → Checkout
  refused : ImportFailure → Checkout

abbrev with_commit : GitRepo → Text → Option Commit → Checkout
with_commit repo ref none = refused clone_failed
with_commit repo ref (some c) = checked_out repo ref c

-- A branch that is not the active one, or a tag, is checked out.
abbrev at_reference : GitRepo → Option Text → Checkout
at_reference repo none = with_commit repo repo.active_branch (repo.head none)
at_reference repo (some ref) =
    if in_tags ref repo.branches
    then with_commit repo ref
        (repo.head (if text_eq ref repo.active_branch then none else some ref))
    else if in_tags ref (tag_names repo.tags)
    then with_commit repo ref (repo.head (some ref))
    else refused bad_reference

abbrev of_clone : Option GitRepo → Option Text → Checkout
of_clone none ref = refused clone_failed
of_clone (some repo) ref = at_reference repo ref

-- Other schemes than http and https are refused.
unfoldable pub do_git_checkout : Services → Text → Option Text → Checkout
do_git_checkout svc url ref =
    let scheme = (split_scheme url).0 in
    if not (is_nil scheme) && not (text_eq scheme (codes "http") || text_eq scheme (codes "https"))
    then refused bad_reference
    else of_clone (svc.clone url) ref
