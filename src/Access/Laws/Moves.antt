-- ===== src/Access/Laws/Moves.antt =====
-- galaxy_ng/app/access_control/access_policy.py: copies and moves, protected paths, remotes, and the
-- agreement of lists and details on private repositories.
use galaxy_ng.Prelude.{
  ℕ, ◌≡◌, refl, sym, ap, keep_ext, keep_all, String, true, false, not, ◌&&◌, ◌||◌, List, [], ◌∷◌,
  any, keep, Option, none, some, if◌then◌else◌, Bool-cases, arith, inl, inr,
}
use mathlib.Core.List.{Memᴰ}
use galaxy_ng.Access.Model.{
  attribute_error, validation_error, returned, raised, repository, Perms, Repo, Distro, Site,
  truthy,
}
use galaxy_ng.Access.Conditions.Repositories.{
  RepoView, a_repo, related, has_ansible_repo_perms, can_copy_or_move, v3_can_copy_or_move,
  repo_by_path, is_not_protected_base_path, base_repo, base_distro, is_protected, serves, Remote,
  is_community, require_requirements_yaml, Viewer, one_of, is_listed,
  scope_by_view_repository_permissions,
}

-- On the repositories that the paths of the v3 endpoint lead to, its check for copies and moves
-- answers what the check of the repository endpoint answers for the first with the second as
-- destination.
pub v3_copy-eq-copy :
    (site : Site) (u : Perms) (source dest : String) (src dst : Repo) (p : String)
    → repo_by_path site (some source) ≡ some src
    → repo_by_path site (some dest) ≡ some dst
    → can_copy_or_move u (a_repo src) (some (dst ∷ [])) p
      ≡ returned (v3_can_copy_or_move site u (some source) (some dest) p)
unfolding can_copy_or_move v3_can_copy_or_move
v3_copy-eq-copy site u source dest src dst p hs hd = ground arith

not_protected :
    (pk : ℕ) (d : Distro) (ds : List Distro)
    → any (λ e. serves pk e && is_protected e.base_path) ds ≡ false
    → Memᴰ d ds
    → serves pk d ≡ true
    → is_protected d.base_path ≡ false
not_protected pk d [] h m s = elim m [ ]
not_protected pk d (e ∷ ds) h (Memᴰ.head p) s = rw p (ground (arith, ap (serves pk) p))
not_protected pk d (e ∷ ds) h (Memᴰ.tail m) s = not_protected pk d ds (ground arith) m s

-- A repository that may be deleted is served by no distribution with a protected path.
pub is_not_protected_repo :
    (site : Site) (pk : ℕ) (d : Distro)
    → is_not_protected_base_path site (base_repo pk) ≡ true
    → Memᴰ d site.distros
    → serves pk d ≡ true
    → is_not_protected_base_path site (base_distro d.base_path) ≡ true
unfolding is_not_protected_base_path
is_not_protected_repo site pk d h m s =
    ground (arith, not_protected pk d site.distros (ground arith) m s)

-- The detail view of an item with a repository.
abbrev pub detail : Option Repo → RepoView
detail o = record { object = some (related o); parent = related none }

-- Object permissions come from the roles of the user and of the user's groups.
abbrev pub ByRoles : Perms → Viewer → Type 0
ByRoles u v =
    (pk : ℕ)
    → u.object "ansible.view_ansiblerepository" (repository pk)
      ≡ (not v.is_anonymous && (one_of pk v.user_roles || one_of pk v.group_roles))

detail_global :
    (u : Perms) (o : Option Repo)
    → u.model "ansible.view_ansiblerepository" ≡ true
    → has_ansible_repo_perms u (detail o) "ansible.view_ansiblerepository" ≡ true
unfolding has_ansible_repo_perms
detail_global u o e = rw e refl

listed-eq-detail :
    (u : Perms) (v : Viewer) (o : Option Repo)
    → ByRoles u v
    → u.model "ansible.view_ansiblerepository" ≡ false
    → is_listed v o ≡ has_ansible_repo_perms u (detail o) "ansible.view_ansiblerepository"
unfolding has_ansible_repo_perms
listed-eq-detail u v none roles e = ground arith
listed-eq-detail u v (some r) roles e = ground (arith, roles r.pk)

-- The list of items with a repository shows exactly the items whose detail view lets the user
-- pass, if object permissions come from the roles of the user and of the user's groups.
pub scope-eq-detail {ℓ} :
    {A : Type ℓ} (repo_of_item : A → Option Repo) (u : Perms) (v : Viewer) (qs : List A)
    → ByRoles u v
    → scope_by_view_repository_permissions repo_of_item u v qs
      ≡ keep
          (λ item.
            has_ansible_repo_perms u (detail (repo_of_item item)) "ansible.view_ansiblerepository")
          qs
unfolding scope_by_view_repository_permissions
scope-eq-detail repo_of_item u v qs roles =
    elim (Bool-cases (u.model "ansible.view_ansiblerepository")) [
      | inl e ↦ rw e (sym (keep_all _ qs (λ item. detail_global u (repo_of_item item) e)))
      | inr e ↦ rw e (keep_ext _ _ qs (λ item. listed-eq-detail u v (repo_of_item item) roles e))
    ]

-- The remote that a sync uses: that of the payload if one is named, else that of the repository.
abbrev pub remote_in_force :
    (String → Option Remote) → Option String → Option Remote → Option Remote
remote_in_force find none own = own
remote_in_force find (some href) own = if truthy (some href) then find href else own

-- A sync passes exactly if the remote in force exists and names a requirements file or does not
-- lead to a community domain; a remote that does not exist is an AttributeError, and every other
-- remote is a validation error.
pub require_requirements_yaml_lem :
    (find : String → Option Remote) (requested : Option String) (own : Option Remote)
    → require_requirements_yaml find requested own ≡ elim (remote_in_force find requested own) [
      | none ↦ raised attribute_error
      | some r ↦
          if truthy r.requirements_file || not (is_community r.url)
          then returned true
          else raised validation_error
    ]
unfolding require_requirements_yaml
require_requirements_yaml_lem find none own = ground arith
require_requirements_yaml_lem find (some href) own = ground arith
