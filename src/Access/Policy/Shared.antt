-- ===== src/Access/Policy/Shared.antt =====
-- galaxy_ng/app/access_control/statements/standalone.py: the statement lists that several views
-- share. A single action or condition is a list of one.
use galaxy_ng.Prelude.{List, [], ◌∷◌, ◌++◌}
use galaxy_ng.Access.Statement.{Statement, allow, deny}

abbrev pub collection_statements : List Statement
collection_statements =
    allow ("list" ∷ []) "authenticated" ("v3_can_view_repo_content" ∷ [])
    ∷ allow ("list" ∷ []) "anonymous"
        ("unauthenticated_collection_access_enabled" ∷ "v3_can_view_repo_content" ∷ [])
    ∷ allow ("retrieve" ∷ []) "authenticated" ("v3_can_view_repo_content" ∷ [])
    ∷ allow ("retrieve" ∷ []) "anonymous"
        ("unauthenticated_collection_access_enabled" ∷ "v3_can_view_repo_content" ∷ [])
    ∷ allow ("destroy" ∷ []) "authenticated" ("v3_can_destroy_collections" ∷ [])
    ∷ allow ("download" ∷ []) "authenticated" ("v3_can_view_repo_content" ∷ [])
    ∷ allow ("download" ∷ []) "anonymous"
        ("unauthenticated_collection_download_enabled" ∷ "v3_can_view_repo_content" ∷ [])
    ∷ allow ("create" ∷ []) "authenticated"
        ("can_create_collection" ∷ "v3_can_view_repo_content" ∷ [])
    ∷ allow ("update" ∷ []) "authenticated"
        ("can_update_collection" ∷ "v3_can_view_repo_content" ∷ [])
    ∷ allow ("copy_content" ∷ "move_content" ∷ []) "authenticated" (
        "v3_can_copy_or_move:ansible.modify_ansible_repo_content" ∷ "v3_can_view_repo_content" ∷ [])
    ∷ allow ("sign" ∷ []) "authenticated" ("can_sign_collections" ∷ "v3_can_view_repo_content" ∷ [])
    ∷ []

abbrev pub group_role_statements : List Statement
group_role_statements =
    allow ("list" ∷ "retrieve" ∷ []) "authenticated" []
    ∷ allow ("destroy" ∷ []) "authenticated" ("has_model_perms:galaxy.delete_group" ∷ [])
    ∷ allow ("create" ∷ []) "authenticated" ("has_model_perms:galaxy.add_group" ∷ [])
    ∷ allow ("update" ∷ "partial_update" ∷ []) "authenticated"
        ("has_model_perms:galaxy.update_group" ∷ [])
    ∷ []

abbrev pub group_statements : List Statement
group_statements =
    group_role_statements
    ++ (deny ("create" ∷ "destroy" ∷ "update" ∷ "partial_update" ∷ []) "*"
          ("is_local_resource_management_disabled" ∷ [])
        ∷ [])

abbrev pub user_statements : List Statement
user_statements =
    allow ("list" ∷ []) "authenticated" ("v3_can_view_users" ∷ [])
    ∷ allow ("retrieve" ∷ []) "authenticated" ("v3_can_view_users" ∷ [])
    ∷ deny ("destroy" ∷ []) "*" ("user_is_superuser" ∷ [])
    ∷ deny ("destroy" ∷ []) "*" ("is_current_user" ∷ [])
    ∷ allow ("destroy" ∷ []) "*" ("has_model_perms:galaxy.delete_user" ∷ [])
    ∷ allow ("create" ∷ []) "authenticated" ("has_model_perms:galaxy.add_user" ∷ [])
    ∷ allow ("update" ∷ "partial_update" ∷ []) "authenticated"
        ("has_model_perms:galaxy.change_user" ∷ [])
    ∷ deny ("create" ∷ "destroy" ∷ "update" ∷ "partial_update" ∷ []) "*"
        ("is_local_resource_management_disabled" ∷ [])
    ∷ []

abbrev pub deny_all : List Statement
deny_all = deny ("*" ∷ []) "*" [] ∷ []

abbrev pub read_only : List Statement
read_only = allow ("list" ∷ "retrieve" ∷ []) "authenticated" [] ∷ []
