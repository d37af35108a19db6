-- ===== src/Access/Examples.antt =====
-- Policies at concrete inputs: an engine that does what the documentation says.
use galaxy_ng.Prelude.{
  ℕ, ◌<◌, str_eq, str_eq_iff, inl, inr, Bool-cases, ◌≡◌, ◌↔◌, refl, String, true, false, not, ◌&&◌,
  List, [], ◌∷◌, ◌++◌, is_some, none, some, if◌then◌else◌, arith,
}
use galaxy_ng.Access.Statement.{LockedRole}
use galaxy_ng.Access.Engine.{
  Caller, Conditions, Engine, IsDocumented, some_allow, some_deny, action_matches,
}
use galaxy_ng.Access.Policies.{find_policy, standalone, insights, view_statements}
use galaxy_ng.Access.Policy.Standalone.{standalone_statements}
use galaxy_ng.Access.Policy.Insights.{insights_overrides}
use galaxy_ng.Access.Entitlement.{entitlement, statements_or_none, decide-insights}
use galaxy_ng.Access.Surface.{
  nobody, nothing_holds, anonymous_surface, surface_of, decide-anonymous,
}
use galaxy_ng.Access.LockedRoles.{process_permissions, has, Inherits}
use galaxy_ng.Access.RoleTotal.{IsRanked, process_permissions_total}
use galaxy_ng.Access.Selection.{View, get_view_urlpattern, path_join, override_of}
use galaxy_ng.Access.Policies.{pulp_viewsets}

abbrev engine : Engine
engine = record {
  decide = λ ss caller action holds.
      some_allow caller action holds ss && not (some_deny caller action holds ss);
}

engine-IsDocumented : IsDocumented engine
engine-IsDocumented = record {
  denied_by_deny = λ ss caller action holds h. ground (arith, h);
  denied_by_default = λ ss caller action holds h. ground (arith, h);
  allowed = λ ss caller action holds h k. ground (arith, h, k);
}

abbrev somebody : Caller
somebody = record { is_anonymous = false; is_admin = false }

abbrev everything_holds : Conditions
everything_holds c = true

decide-insights_example :
    engine.decide (view_statements insights "NamespaceViewSet") somebody "list" everything_holds ≡ (
      engine.decide
        (statements_or_none
          (find_policy "NamespaceViewSet" (insights_overrides ++ standalone_statements)))
        somebody
        "list"
        everything_holds
      && everything_holds entitlement)
decide-insights_example =
    decide-insights engine "NamespaceViewSet" somebody "list" everything_holds engine-IsDocumented

decide-anonymous_example :
    let (opened, closed) = surface_of (find_policy "LoginView" anonymous_surface) in
    engine.decide (view_statements standalone "LoginView") nobody "post" nothing_holds
    ≡ (action_matches "post" opened && not (action_matches "post" closed))
decide-anonymous_example = decide-anonymous engine "LoginView" "post" engine-IsDocumented

abbrev viewer : LockedRole
viewer = record { permissions = "view" ∷ []; inherit_from = [] }

abbrev editor : LockedRole
editor = record { permissions = "edit" ∷ []; inherit_from = "viewer" ∷ [] }

abbrev two_roles : List (String × LockedRole)
two_roles = ("viewer", viewer) ∷ ("editor", editor) ∷ []

abbrev depth : String → ℕ
depth role = if str_eq role "viewer" then 0 else 1

two_roles_child_of :
    (role child : String) (r : LockedRole)
    → find_policy role two_roles ≡ some r
    → has child r.inherit_from ≡ true
    → (c : LockedRole) × (find_policy child two_roles ≡ some c) × (depth child < depth role)
two_roles_child_of role child r found listed = elim (Bool-cases (str_eq "viewer" role)) [
  | inl e ↦ absurd (ground arith)
  | inr e ↦ elim (Bool-cases (str_eq "editor" role)) [
    | inr e' ↦ absurd (ground arith)
    | inl e' ↦
        let parent : str_eq "viewer" child ≡ true = ground arith in
        rw (← (str_eq_iff "viewer" child).0 parent, ← (str_eq_iff "editor" role).0 e')
          (viewer, refl, omega arith)
  ]
]

two_roles-IsRanked : IsRanked two_roles depth
two_roles-IsRanked = record { child_of = two_roles_child_of }

process_permissions_total_example :
    (ps : List String) × (process_permissions 2 two_roles "editor" ≡ some ps)
    × ((p : String) → (has p ps ≡ true) ↔ Inherits two_roles p "editor")
process_permissions_total_example =
    process_permissions_total two_roles depth 2 "editor" editor two_roles-IsRanked refl
      (omega arith)

abbrev unknown_view : View
unknown_view = record {
  policy_name = none;
  urlpattern = some "unknown";
  parent_urlpattern = none;
  default_access_policy = none;
}

abbrev versions_view : View
versions_view = record {
  policy_name = none;
  urlpattern = some "versions";
  parent_urlpattern = some "repositories/ansible/ansible";
  default_access_policy = none;
}

-- The pattern of a nested view is joined to that of its parent, and the table lists it.
nested_pattern : is_some (override_of versions_view) ≡ true
unfolding get_view_urlpattern path_join pulp_viewsets
nested_pattern = refl
