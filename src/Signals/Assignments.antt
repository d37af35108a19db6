-- ===== src/Signals/Assignments.antt =====
-- galaxy_ng/app/signals/handlers.py: the handlers of assignments. What DAB's validator says of a role
-- definition at an object, and the names in ANSIBLE_BASE_JWT_MANAGED_ROLES, are parameters.
-- An exception that `give_permission` or `assign_role` raises is not modelled.
use galaxy_ng.Prelude.{
  ℕ, ◌==◌, String, str_eq, Bool, true, false, not, ◌&&◌, ◌||◌, List, [], ◌∷◌, ◌++◌, any, is_some,
  Option, none, some, if◌then◌else◌,
}
use galaxy_ng.Signals.Model.{
  RoleDefinition, Actor, user, team, Entity, the_user, group, Obj, PulpAssignment, DabAssignment,
  Tables, Outcome, calls, attribute_error, Call, set_content_type, give_permission,
  remove_permission, give_global_permission, remove_global_permission, assign_role, remove_role,
  add_to_group, remove_from_group, pulp_to_roledef, roledef_to_pulp, find_roledef, find_role,
  group_of, team_of,
}

module _ (validates : RoleDefinition → Obj → Bool) (jwt_managed : List String) where
  abbrev has_user_assignments : Tables → RoleDefinition → Bool
  has_user_assignments t rd = any (λ a. str_eq a.role_definition rd.name) t.user_assignments

  -- `rd` has no content type yet where this is called, so the type tests behind the first one
  -- do not return.
  unfoldable pub lazy_content_type_correction : Tables → RoleDefinition → Obj → List Call
  lazy_content_type_correction t rd obj =
      if is_some rd.content_type
        || any (λ n. str_eq n rd.name) jwt_managed
        || has_user_assignments t rd
        || not (validates rd obj)
      then []
      else set_content_type rd.name obj.type ∷ []

  unfoldable pub copy_pulp_user_role : Tables → PulpAssignment → List Call
  copy_pulp_user_role t a =
      if str_eq a.role_name "core.task_user_dispatcher"
      then []
      else elim (find_roledef t (pulp_to_roledef a.role_name)) [
        | none ↦ []
        | some rd ↦ elim a.content_object [
          | none ↦ give_global_permission rd.name (user a.entity) ∷ []
          | some obj ↦
              lazy_content_type_correction t rd obj
              ++ give_permission rd.name (user a.entity) obj ∷ []
        ]
      ]

-- Giving to an actor, or taking away, at the object of an assignment or globally.
abbrev give : String → Actor → Option Obj → List Call
give name actor none = give_global_permission name actor ∷ []
give name actor (some obj) = give_permission name actor obj ∷ []

abbrev take_away : String → Actor → Option Obj → List Call
take_away name actor none = remove_global_permission name actor ∷ []
take_away name actor (some obj) = remove_permission name actor obj ∷ []

unfoldable pub delete_pulp_user_role : Tables → PulpAssignment → List Call
delete_pulp_user_role t a = elim (find_roledef t (pulp_to_roledef a.role_name)) [
  | none ↦ []
  | some rd ↦ take_away rd.name (user a.entity) a.content_object
]

unfoldable pub copy_pulp_group_role : Tables → PulpAssignment → List Call
copy_pulp_group_role t a = elim (find_roledef t (pulp_to_roledef a.role_name)) [
  | none ↦ []
  | some rd ↦ elim (team_of t a.entity) [
    | none ↦ []
    | some pk ↦ give rd.name (team pk) a.content_object
  ]
]

unfoldable pub delete_pulp_group_role : Tables → PulpAssignment → List Call
delete_pulp_group_role t a = elim (find_roledef t (pulp_to_roledef a.role_name)) [
  | none ↦ []
  | some rd ↦ elim (team_of t a.entity) [
    | none ↦ []
    | some pk ↦ take_away rd.name (team pk) a.content_object
  ]
]

-- `kwargs["obj"]` of `_get_pulp_role_kwargs`, set where the assignment has an object.
abbrev pub object_of : DabAssignment → Option Obj
object_of a = elim a.object_id [ none ↦ none | some pk ↦ a.content_object ]

-- `_apply_dab_assignment` and `_unapply_dab_assignment`: roles that pulp lacks are skipped.
unfoldable pub apply_dab_assignment : Tables → DabAssignment → Entity → List Call
apply_dab_assignment t a entity = elim (find_role t (roledef_to_pulp a.role_definition)) [
  | none ↦ []
  | some r ↦ assign_role (roledef_to_pulp a.role_definition) entity (object_of a) ∷ []
]

unfoldable pub unapply_dab_assignment : Tables → DabAssignment → Entity → List Call
unapply_dab_assignment t a entity = elim (find_role t (roledef_to_pulp a.role_definition)) [
  | none ↦ []
  | some r ↦ remove_role (roledef_to_pulp a.role_definition) entity (object_of a) ∷ []
]

unfoldable pub is_organization_role : String → Bool
is_organization_role name = str_eq name "Organization Admin" || str_eq name "Organization Member"

unfoldable pub is_team_role : String → Bool
is_team_role name = str_eq name "Team Member" || str_eq name "Team Admin"

-- The call on the group of the team that a team role is assigned on; without a team its group
-- cannot be read.
abbrev on_group : (ℕ → Call) → Option ℕ → Outcome
on_group call none = attribute_error
on_group call (some g) = calls (call g ∷ [])

abbrev team_group : Tables → Option Obj → Option ℕ
team_group t none = none
team_group t (some obj) = group_of t obj.pk

unfoldable pub copy_dab_user_role_assignment : Tables → DabAssignment → Outcome
copy_dab_user_role_assignment t a =
    if is_organization_role a.role_definition
    then calls []
    else if is_team_role a.role_definition
    then on_group (add_to_group a.actor) (team_group t a.content_object)
    else calls (apply_dab_assignment t a (the_user a.actor))

abbrev same_object : Option ℕ → Option ℕ → Bool
same_object none none = true
same_object none (some k) = false
same_object (some j) none = false
same_object (some j) (some k) = j == k

-- Another team role of the same user on the same team.
abbrev pub has_other_team_role : Tables → DabAssignment → Bool
has_other_team_role t a =
    any
      (λ b.
        is_team_role b.role_definition && b.actor == a.actor && same_object b.object_id a.object_id)
      t.user_assignments

unfoldable pub delete_dab_user_role_assignment : Tables → DabAssignment → Outcome
delete_dab_user_role_assignment t a =
    if is_organization_role a.role_definition
    then calls []
    else if is_team_role a.role_definition && is_some a.content_object
    then (if has_other_team_role t a
        then calls []
        else on_group (remove_from_group a.actor) (team_group t a.content_object))
    else calls (unapply_dab_assignment t a (the_user a.actor))

-- The group of the team is the entity; every team has one.
abbrev of_team : (Entity → List Call) → Option ℕ → List Call
of_team f none = []
of_team f (some g) = f (group g)

unfoldable pub copy_dab_team_role_assignment : Tables → DabAssignment → List Call
copy_dab_team_role_assignment t a = of_team (apply_dab_assignment t a) (group_of t a.actor)

unfoldable pub delete_dab_team_role_assignment : Tables → DabAssignment → List Call
delete_dab_team_role_assignment t a = of_team (unapply_dab_assignment t a) (group_of t a.actor)
