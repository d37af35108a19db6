-- ===== src/Signals/Model.antt =====
-- galaxy_ng/app/signals/handlers.py: the rows that the handlers read, the signals that they receive
-- and the calls that they make of the database and of the two role libraries.
use galaxy_ng.Prelude.{
  ℕ, ◌==◌, String, str_eq, Text, codes, ◌++◌, Bool, List, first, Option, none, some, if◌then◌else◌,
}

pub record Permission : Type 0 where
  pub pk : ℕ
  pub app_label : Text
  pub codename : Text

abbrev pub fullname : Permission → Text
fullname p = p.app_label ++ (codes "." ++ p.codename)

-- A content type, and whether it is one of DAB's.
pub record ContentType : Type 0 where
  pub model : String
  pub is_dab : Bool

pub record Role : Type 0 where
  pub name : String
  pub locked : Bool
  pub description : String
  pub content_types : List ContentType
  pub permissions : List Permission

pub record RoleDefinition : Type 0 where
  pub name : String
  pub managed : Bool
  pub description : String
  pub content_type : Option ContentType
  pub permissions : List Permission

pub data Actor : Type 0 where
  user team : ℕ → Actor

pub data Entity : Type 0 where
  the_user group : ℕ → Entity

-- The object of an assignment, with its model.
pub record Obj : Type 0 where
  pub pk : ℕ
  pub type : ContentType

-- A pulp assignment to a user or a group, and a DAB assignment to a user or a team.
pub record PulpAssignment : Type 0 where
  pub role_name : String
  pub entity : ℕ
  pub content_object : Option Obj

pub record DabAssignment : Type 0 where
  pub role_definition : String
  pub actor : ℕ
  pub object_id : Option ℕ
  pub content_object : Option Obj

-- The tables that the handlers query, the permissions of both libraries among them. A team stands
-- with its group.
pub record Tables : Type 0 where
  pub roles : List Role
  pub role_definitions : List RoleDefinition
  pub dab_permissions : List Permission
  pub pulp_permissions : List Permission
  pub teams : List (ℕ × ℕ)
  pub user_assignments : List DabAssignment

pub data Signal : Type 0 where
  role_saved role_deleted : Role → Signal
  role_permissions_changed : Role → (is_pre reverse : Bool) → Signal
  roledef_saved roledef_deleted : RoleDefinition → Signal
  roledef_permissions_changed : RoleDefinition → (is_pre reverse : Bool) → Signal
  user_role_saved user_role_deleted group_role_saved group_role_deleted : PulpAssignment → Signal
  user_assignment_saved user_assignment_deleted : DabAssignment → Signal
  team_assignment_saved team_assignment_deleted : DabAssignment → Signal

pub data Call : Type 0 where
  create_roledef : String → (managed : Bool) → Option ContentType → String → Call
  update_roledef : String → Option Bool → Option (Option ContentType) → Option String → Call
  delete_roledef delete_role : String → Call
  create_role : String → (locked : Bool) → Call
  add_permissions remove_permissions : String → List ℕ → Call
  set_content_type : String → ContentType → Call
  give_permission remove_permission : String → Actor → Obj → Call
  give_global_permission remove_global_permission : String → Actor → Call
  assign_role remove_role : String → Entity → Option Obj → Call
  add_to_group remove_from_group : (member the_group : ℕ) → Call

-- What a handler does: its calls in order, or the RuntimeError of a reversed change, the
-- AttributeError of a missing object or the ValueError of a value of the wrong class, before any call.
pub data Outcome : Type 0 where
  calls : List Call → Outcome
  runtime_error attribute_error value_error : Outcome

-- PULP_TO_ROLEDEF and ROLEDEF_TO_PULP, with the name itself as default.
unfoldable pub pulp_to_roledef : String → String
pulp_to_roledef name = if str_eq name "galaxy.auditor" then "Platform Auditor" else name

unfoldable pub roledef_to_pulp : String → String
roledef_to_pulp name = if str_eq name "Platform Auditor" then "galaxy.auditor" else name

unfoldable pub find_roledef : Tables → String → Option RoleDefinition
find_roledef t name = first (λ rd. str_eq rd.name name) t.role_definitions

unfoldable pub find_role : Tables → String → Option Role
find_role t name = first (λ r. str_eq r.name name) t.roles

-- The group of a team, and the first team of a group.
unfoldable pub group_of : Tables → ℕ → Option ℕ
group_of t team_pk = elim (first (λ p. p.0 == team_pk) t.teams) [ none ↦ none | some p ↦ some p.1 ]

unfoldable pub team_of : Tables → ℕ → Option ℕ
team_of t group_pk = elim (first (λ p. p.1 == group_pk) t.teams) [ none ↦ none | some p ↦ some p.0 ]
