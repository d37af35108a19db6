-- ===== src/Access/Policy/Core.antt =====
-- galaxy_ng/app/access_control/statements/pulp.py: PULP_CORE_VIEWSETS.
use galaxy_ng.Prelude.{String, List, [], ◌∷◌}
use galaxy_ng.Access.Statement.{Statement, ViewsetPolicy, plain, allow, deny}
use galaxy_ng.Access.Policy.Shared.{group_statements, group_role_statements, user_statements}

abbrev pub groups_users_view_statements : List Statement
groups_users_view_statements =
    allow ("*" ∷ []) "admin" []
    ∷ deny ("create" ∷ "destroy" ∷ []) "*" ("is_local_resource_management_disabled" ∷ [])
    ∷ []

abbrev pub roles_view_statements : List Statement
roles_view_statements = allow ("list" ∷ []) "authenticated" [] ∷ allow ("*" ∷ []) "admin" [] ∷ []

abbrev pub tasks_view_statements : List Statement
tasks_view_statements =
    allow ("list" ∷ "retrieve" ∷ []) "authenticated" []
    ∷ allow ("my_permissions" ∷ []) "authenticated" []
    ∷ allow ("destroy" ∷ "purge" ∷ []) "authenticated"
        ("has_model_or_domain_or_obj_perms:core.delete_task" ∷ [])
    ∷ allow ("update" ∷ "partial_update" ∷ []) "authenticated"
        ("has_model_or_domain_or_obj_perms:core.change_task" ∷ [])
    ∷ []

abbrev pub signing_services_view_statements : List Statement
signing_services_view_statements =
    allow ("list" ∷ "retrieve" ∷ []) "authenticated" [] ∷ allow ("*" ∷ []) "admin" [] ∷ []

abbrev pub pulp_core_viewsets : List (String × ViewsetPolicy)
pulp_core_viewsets =
    ("groups/roles", plain group_role_statements)
    ∷ ("groups", plain group_statements)
    ∷ ("groups/users", plain groups_users_view_statements)
    ∷ ("users", plain user_statements)
    ∷ ("roles", plain roles_view_statements)
    ∷ ("tasks", plain tasks_view_statements)
    ∷ ("signing-services", plain signing_services_view_statements)
    ∷ []
