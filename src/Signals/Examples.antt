-- ===== src/Signals/Examples.antt =====
-- The signal handlers at concrete inputs: a library that fires the echoes of its own calls.
use galaxy_ng.Prelude.{◌≡◌, refl, String, codes, true, false, List, [], ◌∷◌, Option, none, some}
use galaxy_ng.Signals.Model.{
  value_error, Permission, ContentType, Role, RoleDefinition, Obj, DabAssignment, Tables,
  role_saved, roledef_saved, Call, create_roledef, pulp_to_roledef, roledef_to_pulp, find_role,
  find_roledef, group_of,
}
use galaxy_ng.Signals.Roles.{copy_role_to_role_definition, pulp_role_to_single_content_type_or_none}
use galaxy_ng.Signals.Assignments.{is_team_role, is_organization_role}
use galaxy_ng.Signals.Dispatch.{State, Library, done, dispatch, body, dispatch-no_echo}

signals_code : Unit {0}
unfolding copy_role_to_role_definition pulp_role_to_single_content_type_or_none body find_role
    find_roledef group_of pulp_to_roledef roledef_to_pulp is_team_role is_organization_role
signals_code = tt

abbrev upload : Permission
upload = record { pk = 1; app_label = codes "galaxy"; codename = codes "upload_to_namespace" }

abbrev change : Permission
change = record { pk = 2; app_label = codes "galaxy"; codename = codes "change_namespace" }

abbrev namespace_type : ContentType
namespace_type = record { model = "namespace"; is_dab = true }

abbrev owner_role : Role
owner_role = record {
  name = "galaxy.collection_namespace_owner";
  locked = true;
  description = "";
  content_types = namespace_type ∷ [];
  permissions = upload ∷ change ∷ [];
}

abbrev owner_definition : RoleDefinition
owner_definition = record {
  name = "galaxy.collection_namespace_owner";
  managed = true;
  description = "";
  content_type = none;
  permissions = [];
}

abbrev team_object : Obj
team_object = record { pk = 7; type = record { model = "team"; is_dab = true } }

abbrev on_team : DabAssignment
on_team = record {
  role_definition = "Team Member";
  actor = 3;
  object_id = some 7;
  content_object = some team_object;
}

abbrev tables : Tables
tables = record {
  roles = owner_role ∷ [];
  role_definitions = [];
  dab_permissions = upload ∷ change ∷ [];
  pulp_permissions = [];
  teams = (7, 70) ∷ [];
  user_assignments = [];
}

-- Every call adds the role definition and fires the signal of its save.
abbrev library : Library
library = record {
  perform = λ c t. record t { role_definitions = owner_definition ∷ t.role_definitions };
  fires = λ c t. roledef_saved owner_definition ∷ [];
}

abbrev idle : State
idle = record { tables = tables; flags = record { pulp_action = false; dab_action = false } }

abbrev no_description : String → Option String
no_description name = none

abbrev created : List Call
created =
    create_roledef "galaxy.collection_namespace_owner" true (some namespace_type)
      "galaxy.collection_namespace_owner"
    ∷ []

dispatch-no_echo_example :
    dispatch no_description (λ rd obj. true) [] library 2 idle (role_saved owner_role)
    ≡ done (record idle { tables = record tables { role_definitions = owner_definition ∷ [] } })
unfolding signals_code
dispatch-no_echo_example =
    dispatch-no_echo no_description (λ rd obj. true) [] library 0 idle (role_saved owner_role)
      created refl (cc) refl

-- A role whose content type is none of DAB's cannot be copied to a new definition.
foreign_type_test :
    copy_role_to_role_definition no_description tables
      (record owner_role { content_types = record namespace_type { is_dab = false } ∷ [] })
    ≡ value_error
unfolding signals_code
foreign_type_test = refl
