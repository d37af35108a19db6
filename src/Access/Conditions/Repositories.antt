-- ===== src/Access/Conditions/Repositories.antt =====
-- galaxy_ng/app/access_control/access_policy.py: the conditions on repositories, distributions,
-- remotes and users, and the scoping of lists by the repositories that a user may see.
use text.Mathlib.Text.{find?}
use galaxy_ng.Prelude.{
  ℕ, ◌==◌, String, str_eq, Bool, true, false, not, ◌&&◌, ◌||◌, List, [], ◌∷◌, ◌++◌, any, all, keep,
  is_some, Option, none, some, if◌then◌else◌,
}
use galaxy_ng.Access.Model.{
  attribute_error, validation_error, Result, returned, raised, ◌>>=◌, found_or, repository,
  other_object, Perms, has_model_or_object_permissions, Repo, Distro, Site, get_distro, truthy,
}

-- What `view.get_object()` gives: a repository, or an object with a repository field.
pub data RepoObject : Type 0 where
  a_repo : Repo → RepoObject
  related : Option Repo → RepoObject

-- `object` is missing where the view cannot be asked for it, so that its parent is taken.
pub record RepoView : Type 0 where
  pub object : Option RepoObject
  pub parent : RepoObject

abbrev repo_of : RepoObject → Option Repo
repo_of (a_repo r) = some r
repo_of (related r) = r

abbrev object_or_parent : RepoView → RepoObject
object_or_parent view = elim view.object [ none ↦ view.parent | some obj ↦ obj ]

unfoldable pub has_ansible_repo_perms : Perms → RepoView → String → Bool
has_ansible_repo_perms u view permission =
    if u.model permission then true else elim (repo_of (object_or_parent view)) [
      | none ↦ false
      | some repo ↦
          if str_eq permission "ansible.view_ansiblerepository" && not repo.private
          then true
          else u.object permission (repository repo.pk)
    ]

abbrev may_on_all : Perms → String → List Repo → Bool
may_on_all u permission = all (λ r. u.object permission (repository r.pk))

-- `repos_to_check and all(...)`
abbrev checked : Perms → String → List Repo → Bool
checked u permission [] = false
checked u permission (r ∷ rs) = may_on_all u permission (r ∷ rs)

abbrev source_repos : RepoObject → List Repo
source_repos (a_repo r) = r ∷ []
source_repos (related r) = []

-- `destinations` is missing where the serializer refuses the request.
unfoldable pub can_copy_or_move : Perms → RepoObject → Option (List Repo) → String → Result Bool
can_copy_or_move u obj destinations permission =
    if u.model permission
    then returned true
    else found_or validation_error destinations >>= λ dests.
        returned (checked u permission (source_repos obj ++ dests))

-- The repository behind a path of the view, `none` where any step fails.
abbrev pub repo_by_path : Site → Option String → Option Repo
repo_by_path site none = none
repo_by_path site (some path) = elim (get_distro site path) [ none ↦ none | some d ↦ d.repo ]

unfoldable pub v3_can_copy_or_move : Site → Perms → Option String → Option String → String → Bool
v3_can_copy_or_move site u source_path dest_path permission =
    if u.model permission then true else elim (repo_by_path site source_path) [
      | none ↦ false
      | some src ↦ elim (repo_by_path site dest_path) [
        | none ↦ false
        | some dest ↦
            u.object permission (repository src.pk) && u.object permission (repository dest.pk)
      ]
    ]

-- `concrete` is the key of the object, or of its concrete object where it is a proxy.
unfoldable pub has_concrete_perms : Perms → ℕ → String → Bool
has_concrete_perms u concrete permission =
    has_model_or_object_permissions u permission (other_object concrete)

-- The validated data of a copy or move; the collection versions stand with whether the latest
-- version of the repository holds a signature of them.
pub record CopyMove : Type 0 where
  pub signing_service : Option String
  pub destinations : List Repo
  pub signed_versions : List (ℕ × Bool)

abbrev pub is_approved : Repo → Bool
is_approved repo = elim repo.pipeline [ none ↦ false | some p ↦ str_eq p "approved" ]

unfoldable pub signatures_not_required_for_repo : Site → Option CopyMove → Result Bool
signatures_not_required_for_repo site request =
    if not site.require_signature
    then returned true
    else found_or validation_error request >>= λ data_.
        if is_some data_.signing_service || not (any is_approved data_.destinations)
        then returned true
        else if all (λ cv. cv.1) data_.signed_versions
        then returned true
        else raised validation_error

abbrev pub protected_base_paths : List String
protected_base_paths =
    "rh-certified" ∷ "validated" ∷ "community" ∷ "published" ∷ "staging" ∷ "rejected" ∷ []

unfoldable pub is_protected : String → Bool
is_protected path = any (λ p. str_eq p path) protected_base_paths

abbrev pub serves : ℕ → Distro → Bool
serves pk d = elim d.repo [ none ↦ false | some r ↦ r.pk == pk ]

pub data BaseObject : Type 0 where
  base_repo : ℕ → BaseObject
  base_distro : String → BaseObject
  base_other : BaseObject

unfoldable pub is_not_protected_base_path : Site → BaseObject → Bool
is_not_protected_base_path site (base_repo pk) =
    not (any (λ d. serves pk d && is_protected d.base_path) site.distros)
is_not_protected_base_path site (base_distro path) = not (is_protected path)
is_not_protected_base_path site base_other = true

pub record Remote : Type 0 where
  pub url : String
  pub requirements_file : Option String

abbrev pub community_domains : List String
community_domains =
    "galaxy.ansible.com" ∷ "galaxy-dev.ansible.com" ∷ "galaxy-qa.ansible.com"
    ∷ "beta-galaxy.ansible.com" ∷ []

unfoldable pub is_community : String → Bool
is_community url = any (λ domain. is_some (find? url domain)) community_domains

abbrev check_remote : Remote → Result Bool
check_remote remote =
    if not (truthy remote.requirements_file) && is_community remote.url
    then raised validation_error
    else returned true

-- `requested` is the href of the payload, and `find` the lookup by its key. Where the row is
-- missing the exception is suppressed and the href stays in the place of the remote.
unfoldable pub require_requirements_yaml :
    (String → Option Remote) → Option String → Option Remote → Result Bool
require_requirements_yaml find requested own =
    if truthy requested
    then elim requested [
      | none ↦ returned true
      | some href ↦ found_or attribute_error (find href) >>= check_remote
    ]
    else found_or attribute_error own >>= check_remote

unfoldable pub is_local_resource_management_disabled : Site → Bool
is_local_resource_management_disabled site = site.resource_server

unfoldable pub user_is_superuser : Bool → Bool → Bool
user_is_superuser swagger_fake_view is_superuser = if swagger_fake_view then false else is_superuser

unfoldable pub is_current_user : Bool → ℕ → ℕ → Bool
is_current_user swagger_fake_view user obj = if swagger_fake_view then false else user == obj

-- An item of a list with its repository, if it has one. A role grants a permission on objects.
pub record Viewer : Type 0 where
  pub is_anonymous : Bool
  pub user_roles : List ℕ
  pub group_roles : List ℕ

abbrev pub one_of : ℕ → List ℕ → Bool
one_of k = any (λ j. j == k)

-- The filter: a public repository, or a role on it of a user who is not anonymous. `user_roles` and
-- `group_roles` are the keys of the repositories on which a role of the user, or of one of the
-- user's groups, has the permission `view_ansiblerepository`.
abbrev pub is_listed : Viewer → Option Repo → Bool
is_listed v none = false
is_listed v (some r) =
    not r.private || (not v.is_anonymous && (one_of r.pk v.user_roles || one_of r.pk v.group_roles))

unfoldable pub scope_by_view_repository_permissions {ℓ} :
    {A : Type ℓ} → (A → Option Repo) → Perms → Viewer → List A → List A
scope_by_view_repository_permissions repo_of_item u v qs =
    if u.model "ansible.view_ansiblerepository"
    then qs
    else keep (λ item. is_listed v (repo_of_item item)) qs
