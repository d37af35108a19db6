-- ===== src/Access/Conditions/Collections.antt =====
-- galaxy_ng/app/access_control/access_policy.py: the conditions on collections and namespaces.
use galaxy_ng.Prelude.{
  String, str_eq, Bool, true, false, ◌&&◌, ◌||◌, List, [], ◌∷◌, Option, none, some, if◌then◌else◌,
}
use galaxy_ng.Access.Model.{
  not_found, does_not_exist, attribute_error, unsuitable, Result, returned, raised, ◌>>=◌, found_or,
  namespace, repository, collection, Perms, has_model_or_object_permissions, Repo, Collection, Site,
  get_distro, get_namespace, truthy,
}

-- The repository of a distribution that is looked up by its path, for `.repository.cast()`.
unfoldable pub repo_at : Site → String → Result Repo
repo_at site path = do
  distro ← found_or does_not_exist (get_distro site path)
  found_or attribute_error distro.repo

-- `path` is what the keyword arguments of the view give.
unfoldable pub v3_can_view_repo_content : Site → Perms → Option String → Result Bool
v3_can_view_repo_content site u none = returned true
v3_can_view_repo_content site u (some path) =
    if str_eq path ""
    then returned true
    else repo_at site path >>= λ repo.
        if repo.private
        then returned (
            u.model "ansible.view_ansiblerepository"
            || u.object "ansible.view_ansiblerepository" (repository repo.pk))
        else returned true

pub data ViewObject : Type 0 where
  a_collection a_collection_version : Collection → ViewObject
  another_model : ViewObject

abbrev collection_of : ViewObject → Result Collection
collection_of (a_collection c) = returned c
collection_of (a_collection_version c) = returned c
collection_of another_model = raised unsuitable

-- The checks on the objects, once the namespace of the collection is looked up.
abbrev object_deletes : Perms → Collection → Option String → Result Bool
object_deletes u c found = found_or does_not_exist found >>= λ ns. returned (
    u.object "galaxy.change_namespace" (namespace ns)
    || u.object "ansible.delete_collection" (collection c.pk))

unfoldable pub v3_can_destroy_collections : Site → Perms → ViewObject → Result Bool
v3_can_destroy_collections site u obj =
    if u.model "galaxy.change_namespace" || u.model "ansible.delete_collection"
    then returned true
    else (collection_of obj >>= λ c. object_deletes u c (get_namespace site c.namespace_name))

unfoldable pub v3_can_view_users : Site → Perms → Bool
v3_can_view_users site u =
    if truthy site.github_key && truthy site.github_secret then true else u.model "galaxy.view_user"

unfoldable pub can_update_collection : Site → Perms → Bool → Collection → Result Bool
can_update_collection site u swagger_fake_view c =
    if swagger_fake_view
    then returned false
    else found_or does_not_exist (get_namespace site c.namespace_name) >>= λ ns.
        returned (has_model_or_object_permissions u "galaxy.upload_to_namespace" (namespace ns))

-- The pipeline label of the repository decides: staging, no label, or any other.
abbrev by_pipeline : Perms → Repo → Option String → Bool
by_pipeline u repo none =
    has_model_or_object_permissions u "ansible.modify_ansible_repo_content" (repository repo.pk)
by_pipeline u repo (some pipeline) = str_eq pipeline "staging"

-- `upload_repo` with DoesNotExist turned into NotFound.
abbrev or_not_found {ℓ} : {A : Type ℓ} → Result A → Result A
or_not_found (raised does_not_exist) = raised not_found
or_not_found r = r

unfoldable pub can_create_collection : Site → Perms → String → String → Result Bool
can_create_collection site u filename_namespace path =
    found_or not_found (get_namespace site filename_namespace) >>= λ ns.
    if has_model_or_object_permissions u "galaxy.upload_to_namespace" (namespace ns)
    then (or_not_found (repo_at site path) >>= λ repo. returned (by_pipeline u repo repo.pipeline))
    else returned false

-- `requested` is the namespace of the payload; the repository comes from the view.
unfoldable pub can_sign_collections : Site → Perms → Repo → Option String → Result Bool
can_sign_collections site u repo requested =
    let can_modify_repo = u.object "ansible.modify_ansible_repo_content" (repository repo.pk) in
    elim requested [
      | none ↦ returned can_modify_repo
      | some name ↦
          if str_eq name ""
          then returned can_modify_repo
          else found_or not_found (get_namespace site name) >>= λ ns. returned (
              can_modify_repo
              && has_model_or_object_permissions u "galaxy.upload_to_namespace" (namespace ns))
    ]

unfoldable pub unauthenticated_collection_download_enabled : Site → Bool
unauthenticated_collection_download_enabled site = site.unauthenticated_download

unfoldable pub unauthenticated_collection_access_enabled : Site → Bool
unauthenticated_collection_access_enabled site = site.unauthenticated_access

-- `request.auth` where it is a dictionary with an identity: the entitlements, by name, and the
-- user part of the identity with its flag.
pub record Identity : Type 0 where
  pub entitlements : List (String × Option Bool)
  pub is_org_admin : Option Bool

abbrev pub get_flag : String → List (String × Option Bool) → Bool
get_flag k [] = false
get_flag k ((j, flag) ∷ m) =
    if str_eq j k then elim flag [ none ↦ false | some b ↦ b ] else get_flag k m

unfoldable pub has_rh_entitlements : Site → Option Identity → Bool
has_rh_entitlements site none = false
has_rh_entitlements site (some x) = get_flag site.entitlement_required x.entitlements

unfoldable pub is_org_admin : Option Identity → Bool
is_org_admin none = false
is_org_admin (some x) = elim x.is_org_admin [ none ↦ false | some b ↦ b ]
