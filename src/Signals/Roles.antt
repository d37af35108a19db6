-- ===== src/Signals/Roles.antt =====
-- galaxy_ng/app/signals/handlers.py: the handlers of roles and role definitions. The descriptions of
-- ROLE_DESCRIPTION are a parameter.
use galaxy_ng.Prelude.{
  String, str_eq, Bool, true, false, not, ◌&&◌, List, [], ◌∷◌, Option, none, some, if◌then◌else◌,
}
use galaxy_ng.Signals.Model.{
  ContentType, Role, RoleDefinition, Tables, Call, create_roledef, update_roledef, delete_roledef,
  create_role, delete_role, Outcome, calls, runtime_error, value_error, pulp_to_roledef,
  roledef_to_pulp, find_roledef, find_role,
}
use galaxy_ng.Signals.Permissions.{copy_permissions_role_to_role}

abbrev pub same_type : ContentType → ContentType → Bool
same_type a b = str_eq a.model b.model

-- One type if all permissions have it; the types stand without repetition.
unfoldable pub pulp_role_to_single_content_type_or_none : Role → Option ContentType
pulp_role_to_single_content_type_or_none r = elim r.content_types [
  | [] ↦ none
  | c ∷ rest ↦ elim rest [ [] ↦ some c | _ ∷ _ ↦ none ]
]

abbrev pub same_bool : Bool → Bool → Bool
same_bool true b = b
same_bool false b = not b

-- `rd.content_type != content_type and isinstance(content_type, DABContentType)`
abbrev pub new_type : Option ContentType → Option ContentType → Option (Option ContentType)
new_type old none = none
new_type none (some c) = if c.is_dab then some (some c) else none
new_type (some o) (some c) = if c.is_dab && not (same_type o c) then some (some c) else none

abbrev pub new_text : String → String → Option String
new_text old new = if str_eq old new then none else some new

abbrev pub new_bool : Bool → Bool → Option Bool
new_bool old new = if same_bool old new then none else some new

-- The fields to save; nothing is saved where no value changed.
abbrev pub update_call :
    String → Option Bool → Option (Option ContentType) → Option String → List Call
update_call name none none none = []
update_call name managed ctype text = update_roledef name managed ctype text ∷ []

module _ (role_description : String → Option String) where
  abbrev pub description_of : Role → String
  description_of r =
      if str_eq r.description ""
      then elim (role_description r.name) [ none ↦ r.name | some d ↦ d ]
      else r.description

  -- A role definition takes a content type of DAB only.
  abbrev pub is_assignable : Option ContentType → Bool
  is_assignable none = true
  is_assignable (some c) = c.is_dab

  unfoldable pub copy_role_to_role_definition : Tables → Role → Outcome
  copy_role_to_role_definition t r =
      let name = pulp_to_roledef r.name in
      let ctype = pulp_role_to_single_content_type_or_none r in
      elim (find_roledef t name) [
        | none ↦
            if is_assignable ctype
            then calls (create_roledef name r.locked ctype (description_of r) ∷ [])
            else value_error
        | some rd ↦ calls (
            update_call name (new_bool rd.managed r.locked) (new_type rd.content_type ctype)
              (new_text rd.description (description_of r)))
      ]

unfoldable pub delete_role_to_role_definition : Tables → Role → List Call
delete_role_to_role_definition t r = elim (find_roledef t (pulp_to_roledef r.name)) [
  | none ↦ []
  | some rd ↦ delete_roledef rd.name ∷ []
]

unfoldable pub copy_permission_role_to_rd : Tables → Role → Bool → Bool → Outcome
copy_permission_role_to_rd t r is_pre reverse =
    if is_pre
    then calls []
    else if reverse
    then runtime_error
    else elim (find_roledef t (pulp_to_roledef r.name)) [
      | none ↦ calls []
      | some rd ↦
          calls
            (copy_permissions_role_to_role rd.name t.dab_permissions r.permissions rd.permissions)
    ]

unfoldable pub copy_role_definition_to_role : Tables → RoleDefinition → List Call
copy_role_definition_to_role t rd = elim (find_role t (roledef_to_pulp rd.name)) [
  | none ↦ create_role (roledef_to_pulp rd.name) rd.managed ∷ []
  | some r ↦ []
]

unfoldable pub delete_role_definition_to_role : Tables → RoleDefinition → List Call
delete_role_definition_to_role t rd = elim (find_role t (roledef_to_pulp rd.name)) [
  | none ↦ []
  | some r ↦ delete_role r.name ∷ []
]

unfoldable pub copy_permission_rd_to_role : Tables → RoleDefinition → Bool → Bool → Outcome
copy_permission_rd_to_role t rd is_pre reverse =
    if is_pre
    then calls []
    else if reverse
    then runtime_error
    else elim (find_role t (roledef_to_pulp rd.name)) [
      | none ↦ calls []
      | some r ↦
          calls
            (copy_permissions_role_to_role r.name t.pulp_permissions rd.permissions r.permissions)
    ]
