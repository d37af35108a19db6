-- ===== src/Access/Selection.antt =====
-- galaxy_ng/app/access_control/access_policy.py: the policy that a view is judged by, and the scoping
-- of lists. The functions that `getattr` finds are the two of the class.
use galaxy_ng.Prelude.{
  ℕ, ◌≡◌, refl, ◌∙◌, String, str_eq, codes, starts_with, ends_with, Bool, false, not, ◌&&◌, ◌||◌,
  List, [], ◌∷◌, keep, keep_ext, Option, none, some, if◌then◌else◌, Bool-cases, inl, inr, arith,
}
use galaxy_ng.Access.Statement.{ViewsetPolicy, plain, allow}
use galaxy_ng.Access.Engine.{
  Caller, Conditions, Engine, IsDocumented, decide_lem, principal_matches, action_matches, applies,
  some_allow, some_deny,
}
use galaxy_ng.Access.Policies.{Mode, find_policy, get_pulp_access_policy, pulp_viewsets}
use galaxy_ng.Access.Model.{Perms, Repo}
use galaxy_ng.Access.Conditions.Containers.{joined}
use galaxy_ng.Access.Conditions.Repositories.{
  Viewer, one_of, is_listed, scope_by_view_repository_permissions,
}

-- A view: the NAME of its policy class, the url patterns of itself and of its parent, and the policy
-- that its class has by default. A view without a pattern has no `urlpattern`.
pub record View : Type 0 where
  pub policy_name : Option String
  pub urlpattern : Option String
  pub parent_urlpattern : Option String
  pub default_access_policy : Option ViewsetPolicy

-- `os.path.join(a, b)`
unfoldable pub path_join : String → String → String
path_join a b =
    if starts_with (codes "/") (codes b)
    then b
    else if str_eq a "" || ends_with (codes "/") (codes a)
    then joined a b
    else joined a (joined "/" b)

unfoldable pub get_view_urlpattern : View → Option String
get_view_urlpattern view = elim view.urlpattern [
  | none ↦ none
  | some own ↦ elim view.parent_urlpattern [
    | none ↦ some own
    | some parent ↦ some (path_join parent own)
  ]
]

-- Behind the table of overrides: the default of the view, or the admins alone.
unfoldable pub without_override : View → ViewsetPolicy
without_override view = elim view.default_access_policy [
  | some policy ↦ policy
  | none ↦ plain (allow ("*" ∷ []) "admin" [] ∷ [])
]

abbrev pub override_of : View → Option ViewsetPolicy
override_of view = elim (get_view_urlpattern view) [
  | none ↦ none
  | some pattern ↦ find_policy pattern pulp_viewsets
]

unfoldable pub pulp_view_policy : View → ViewsetPolicy
pulp_view_policy view = elim (override_of view) [
  | some policy ↦ policy
  | none ↦ without_override view
]

unfoldable pub get_access_policy : Mode → View → Option ViewsetPolicy
get_access_policy mode view = elim view.policy_name [
  | none ↦ some (pulp_view_policy view)
  | some name ↦
      if str_eq name ""
      then some (pulp_view_policy view)
      else get_pulp_access_policy mode name (some [])
]

-- A distribution in a list.
pub record Listed : Type 0 where
  pub pk : ℕ
  pub base_path : String
  pub repo : Option Repo

unfoldable pub is_synclist : Listed → Bool
is_synclist d = ends_with (codes "-synclist") (codes d.base_path)

-- `mine` holds the distributions of the synclists that the user may view.
unfoldable pub scope_synclist_distributions : Perms → Viewer → List ℕ → List Listed → List Listed
scope_synclist_distributions u v mine qs =
    let scope = scope_by_view_repository_permissions (λ d. d.repo) u v in
    if u.model "galaxy.view_synclist"
    then scope qs
    else scope (keep (λ d. not (is_synclist d && not (one_of d.pk mine))) qs)

unfoldable pub scope_queryset :
    Mode → View → String → Perms → Viewer → List ℕ → List Listed → List Listed
scope_queryset mode view action u v mine qs = elim (get_access_policy mode view) [
  | none ↦ qs
  | some policy ↦ if not (str_eq action "list") then qs else elim policy.queryset_scoping [
    | none ↦ qs
    | some scoping ↦
        if str_eq scoping.function "scope_by_view_repository_permissions"
        then scope_by_view_repository_permissions (λ d. d.repo) u v qs
        else if str_eq scoping.function "scope_synclist_distributions"
        then scope_synclist_distributions u v mine qs
        else qs
  ]
]

-- A pulp view that the table of overrides does not list and that has no default policy lets
-- exactly the admins pass, at every action and whatever the conditions are, for every engine that
-- is as documented.
pub decide-last_resort :
    (e : Engine) (mode : Mode) (view : View) (caller : Caller) (action : String)
    (holds : Conditions)
    → IsDocumented e
    → view.policy_name ≡ none
    → override_of view ≡ none
    → view.default_access_policy ≡ none
    → (policy : ViewsetPolicy) × (get_access_policy mode view ≡ some policy)
      × (e.decide policy.statements caller action holds ≡ caller.is_admin)
unfolding get_access_policy pulp_view_policy without_override some_allow some_deny applies
    principal_matches action_matches
decide-last_resort e mode view caller action holds doc unnamed listed no_default = (
  plain (allow ("*" ∷ []) "admin" [] ∷ []),
  ground (arith, unnamed, listed, no_default),
  decide_lem e doc (allow ("*" ∷ []) "admin" [] ∷ []) caller action holds ∙ ground arith,
)

keep-keep :
    (p q : Listed → Bool) (ds : List Listed) → keep p (keep q ds) ≡ keep (λ d. p d && q d) ds
keep-keep p q [] = refl
keep-keep p q (d ∷ ds) = elim (Bool-cases (q d)) [
  | inl e ↦ ground (arith, keep-keep p q ds)
  | inr e ↦ ground (arith, keep-keep p q ds)
]

-- A user who may view no synclists in general and no repositories in general is shown exactly the
-- distributions that are no synclist's, or that of a synclist of the user's own, and whose
-- repository is public or one on which a role of the user counts.
pub scope_synclist_lem :
    (u : Perms) (v : Viewer) (mine : List ℕ) (qs : List Listed)
    → u.model "galaxy.view_synclist" ≡ false
    → u.model "ansible.view_ansiblerepository" ≡ false
    → scope_synclist_distributions u v mine qs
      ≡ keep (λ d. is_listed v d.repo && (not (is_synclist d) || one_of d.pk mine)) qs
unfolding scope_synclist_distributions scope_by_view_repository_permissions
scope_synclist_lem u v mine qs no_synclist no_repo =
    rw (no_synclist, no_repo)
      (keep-keep (λ d. is_listed v d.repo) (λ d. not (is_synclist d && not (one_of d.pk mine))) qs
        ∙ keep_ext _ _ qs (λ d. ground arith))
