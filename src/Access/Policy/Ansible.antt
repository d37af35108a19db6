-- ===== src/Access/Policy/Ansible.antt =====
-- galaxy_ng/app/access_control/statements/pulp.py: PULP_ANSIBLE_VIEWSETS.
use galaxy_ng.Prelude.{String, List, [], ◌∷◌, some, none, false}
use galaxy_ng.Access.Statement.{Statement, ViewsetPolicy, plain, allow}
use galaxy_ng.Access.Policy.Shared.{collection_statements, deny_all}

abbrev pub pulp_ansible_v3_collections_imports_view_statements : List Statement
pulp_ansible_v3_collections_imports_view_statements =
    allow ("retrieve" ∷ []) "authenticated" [] ∷ []

abbrev pub pulp_ansible_v3_search_collection_versions_view_statements : List Statement
pulp_ansible_v3_search_collection_versions_view_statements =
    allow ("list" ∷ []) "authenticated" []
    ∷ allow ("list" ∷ []) "anonymous" ("unauthenticated_collection_access_enabled" ∷ [])
    ∷ []

abbrev pub content_ansible_namespaces_view_statements : List Statement
content_ansible_namespaces_view_statements =
    allow ("list" ∷ "retrieve" ∷ []) "authenticated" [] ∷ allow ("avatar" ∷ []) "*" [] ∷ []

abbrev pub repositories_ansible_ansible_view_statements : List Statement
repositories_ansible_ansible_view_statements =
    allow ("list" ∷ []) "authenticated" []
    ∷ allow ("retrieve" ∷ "my_permissions" ∷ []) "authenticated"
        ("has_ansible_repo_perms:ansible.view_ansiblerepository" ∷ [])
    ∷ allow ("list" ∷ []) "anonymous" ("unauthenticated_collection_access_enabled" ∷ [])
    ∷ allow ("retrieve" ∷ "my_permissions" ∷ []) "anonymous" (
        "unauthenticated_collection_access_enabled"
        ∷ "has_ansible_repo_perms:ansible.view_ansiblerepository" ∷ [])
    ∷ allow ("create" ∷ []) "authenticated" ("has_model_perms:ansible.add_ansiblerepository" ∷ [])
    ∷ allow ("copy_collection_version" ∷ "move_collection_version" ∷ []) "authenticated" (
        "can_copy_or_move:ansible.modify_ansible_repo_content" ∷ "signatures_not_required_for_repo"
        ∷ [])
    ∷ allow ("copy_collection_version" ∷ "move_collection_version" ∷ "modify" ∷ "sign" ∷ [])
        "authenticated" ("has_ansible_repo_perms:ansible.modify_ansible_repo_content" ∷ [])
    ∷ allow ("sync" ∷ []) "authenticated" (
        "has_ansible_repo_perms:ansible.modify_ansible_repo_content" ∷ "require_requirements_yaml"
        ∷ [])
    ∷ allow ("sign" ∷ []) "authenticated"
        ("has_ansible_repo_perms:ansible.sign_ansiblerepository" ∷ [])
    ∷ allow ("update" ∷ "partial_update" ∷ "sync" ∷ "rebuild_metadata" ∷ "mark" ∷ "unmark" ∷ [])
        "authenticated" ("has_ansible_repo_perms:ansible.change_ansiblerepository" ∷ [])
    ∷ allow ("destroy" ∷ []) "authenticated" (
        "has_ansible_repo_perms:ansible.delete_ansiblerepository" ∷ "is_not_protected_base_path"
        ∷ [])
    ∷ allow ("list_roles" ∷ "add_role" ∷ "remove_role" ∷ []) "authenticated"
        ("has_ansible_repo_perms:ansible.manage_roles_ansiblerepository" ∷ [])
    ∷ []

abbrev pub distributions_ansible_ansible_view_statements : List Statement
distributions_ansible_ansible_view_statements =
    allow ("retrieve" ∷ []) "authenticated"
      ("has_ansible_repo_perms:ansible.view_ansiblerepository" ∷ [])
    ∷ allow ("list" ∷ []) "authenticated" []
    ∷ allow ("list" ∷ []) "anonymous" ("unauthenticated_collection_access_enabled" ∷ [])
    ∷ allow ("retrieve" ∷ []) "anonymous" (
        "unauthenticated_collection_access_enabled"
        ∷ "has_ansible_repo_perms:ansible.view_ansiblerepository" ∷ [])
    ∷ allow ("create" ∷ []) "authenticated" ("has_model_perms:ansible.add_ansiblerepository" ∷ [])
    ∷ allow ("update" ∷ "partial_update" ∷ []) "authenticated" (
        "has_ansible_repo_perms:ansible.change_ansiblerepository" ∷ "is_not_protected_base_path"
        ∷ [])
    ∷ allow ("destroy" ∷ []) "authenticated" (
        "has_ansible_repo_perms:ansible.delete_ansiblerepository" ∷ "is_not_protected_base_path"
        ∷ [])
    ∷ []

abbrev pub repositories_ansible_ansible_versions_view_statements : List Statement
repositories_ansible_ansible_versions_view_statements =
    allow ("list" ∷ []) "authenticated"
      ("has_ansible_repo_perms:ansible.view_ansiblerepository" ∷ [])
    ∷ allow ("retrieve" ∷ []) "authenticated"
        ("has_ansible_repo_perms:ansible.view_ansiblerepository" ∷ [])
    ∷ allow ("list" ∷ []) "anonymous" ("unauthenticated_collection_access_enabled" ∷ [])
    ∷ allow ("retrieve" ∷ []) "anonymous" (
        "unauthenticated_collection_access_enabled"
        ∷ "has_ansible_repo_perms:ansible.view_ansiblerepository" ∷ [])
    ∷ allow ("create" ∷ []) "authenticated"
        ("has_ansible_repo_perms:ansible.add_ansiblerepository" ∷ [])
    ∷ allow ("rebuild_metadata" ∷ "repair" ∷ []) "authenticated"
        ("has_ansible_repo_perms:ansible.change_ansiblerepository" ∷ [])
    ∷ allow ("destroy" ∷ []) "authenticated"
        ("has_ansible_repo_perms:ansible.delete_ansiblerepository" ∷ [])
    ∷ []

abbrev pub remotes_ansible_collection_view_statements : List Statement
remotes_ansible_collection_view_statements =
    allow ("retrieve" ∷ "my_permissions" ∷ []) "authenticated"
      ("has_model_or_obj_perms:ansible.view_collectionremote" ∷ [])
    ∷ allow ("list" ∷ []) "authenticated" ("has_model_perms:ansible.view_collectionremote" ∷ [])
    ∷ allow ("create" ∷ []) "authenticated" ("has_model_perms:ansible.add_collectionremote" ∷ [])
    ∷ allow ("update" ∷ "partial_update" ∷ []) "authenticated"
        ("has_model_or_obj_perms:ansible.change_collectionremote" ∷ [])
    ∷ allow ("destroy" ∷ []) "authenticated"
        ("has_model_or_obj_perms:ansible.delete_collectionremote" ∷ [])
    ∷ allow ("list_roles" ∷ "add_role" ∷ "remove_role" ∷ []) "authenticated"
        ("has_model_or_obj_perms:ansible.manage_roles_collectionremote" ∷ [])
    ∷ []

abbrev pub content_ansible_collection_versions_view_statements : List Statement
content_ansible_collection_versions_view_statements =
    allow ("list" ∷ "retrieve" ∷ []) "authenticated" []
    ∷ allow ("list" ∷ "retrieve" ∷ []) "anonymous"
        ("unauthenticated_collection_access_enabled" ∷ [])
    ∷ allow ("create" ∷ []) "authenticated" []
    ∷ allow ("*" ∷ []) "admin" []
    ∷ []

abbrev pub pulp_ansible_v3_legacy_redirected_viewset_view_statements : List Statement
pulp_ansible_v3_legacy_redirected_viewset_view_statements =
    allow ("*" ∷ []) "authenticated" [] ∷ allow ("*" ∷ []) "anonymous" [] ∷ []

abbrev pub pulp_ansible_viewsets : List (String × ViewsetPolicy)
pulp_ansible_viewsets =
    ("pulp_ansible/v3/collections", plain collection_statements)
    ∷ ("pulp_ansible/v3/collection-versions", plain collection_statements)
    ∷ ("pulp_ansible/v3/collection-versions/docs", plain collection_statements)
    ∷ ("pulp_ansible/v3/repo-metadata", plain collection_statements)
    ∷ (
      "pulp_ansible/v3/collections/imports",
      plain pulp_ansible_v3_collections_imports_view_statements,
    )
    ∷ (
      "pulp_ansible/v3/search/collection_versions",
      record {
        statements = pulp_ansible_v3_search_collection_versions_view_statements;
        creation_hooks = none;
        queryset_scoping = some (record {
          function = "scope_by_view_repository_permissions";
          field_name = some "repository";
          is_generic = some false;
        });
      },
    )
    ∷ ("content/ansible/namespaces", plain content_ansible_namespaces_view_statements)
    ∷ (
      "repositories/ansible/ansible",
      record {
        statements = repositories_ansible_ansible_view_statements;
        creation_hooks = none;
        queryset_scoping = some (record {
          function = "scope_by_view_repository_permissions";
          field_name = none;
          is_generic = some false;
        });
      },
    )
    ∷ (
      "distributions/ansible/ansible",
      record {
        statements = distributions_ansible_ansible_view_statements;
        creation_hooks = none;
        queryset_scoping = some (record {
          function = "scope_synclist_distributions";
          field_name = none;
          is_generic = none;
        });
      },
    )
    ∷ (
      "repositories/ansible/ansible/versions",
      plain repositories_ansible_ansible_versions_view_statements,
    )
    ∷ ("remotes/ansible/collection", plain remotes_ansible_collection_view_statements)
    ∷ (
      "content/ansible/collection_versions",
      plain content_ansible_collection_versions_view_statements,
    )
    ∷ ("pulp_ansible/v3/collection-versions/all", plain deny_all)
    ∷ ("pulp_ansible/v3/collections/all", plain deny_all)
    ∷ ("pulp_ansible/v3/collections/upload", plain deny_all)
    ∷ ("pulp_ansible/v3/collections/download", plain deny_all)
    ∷ (
      "pulp_ansible/v3/legacy-redirected-viewset",
      plain pulp_ansible_v3_legacy_redirected_viewset_view_statements,
    )
    ∷ []
