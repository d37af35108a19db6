-- ===== src/Access/Policy/Container.antt =====
-- galaxy_ng/app/access_control/statements/pulp.py: PULP_CONTAINER_VIEWSETS.
use galaxy_ng.Prelude.{String, List, [], ◌∷◌, some, none}
use galaxy_ng.Access.Statement.{Statement, ViewsetPolicy, allow, allow_if}

abbrev pub distributions_container_container_view_statements : List Statement
distributions_container_container_view_statements =
    allow ("list" ∷ []) "authenticated" []
    ∷ allow ("catalog" ∷ []) "authenticated" []
    ∷ allow ("create" ∷ []) "authenticated"
        ("has_model_perms:container.add_containerdistribution" ∷ [])
    ∷ allow ("retrieve" ∷ []) "authenticated"
        ("has_namespace_or_obj_perms:container.view_containerdistribution" ∷ [])
    ∷ allow_if ("pull" ∷ []) "authenticated" ("not is_private" ∷ [])
    ∷ allow ("pull" ∷ []) "authenticated"
        ("has_namespace_or_obj_perms:container.pull_containerdistribution" ∷ [])
    ∷ allow ("update" ∷ "partial_update" ∷ []) "authenticated"
        ("has_namespace_or_obj_perms:container.change_containerdistribution" ∷ [])
    ∷ allow ("push" ∷ []) "authenticated"
        ("has_namespace_or_obj_perms:container.push_containerdistribution" ∷ "obj_exists" ∷ [])
    ∷ allow ("push" ∷ []) "authenticated" (
        "has_namespace_or_obj_perms:container.add_containerdistribution"
        ∷ "has_namespace_or_obj_perms:container.push_containerdistribution" ∷ [])
    ∷ allow ("destroy" ∷ []) "authenticated" (
        "has_namespace_or_obj_perms:container.delete_containerdistribution"
        ∷ "has_namespace_or_obj_perms:container.view_containerdistribution" ∷ [])
    ∷ []

abbrev pub pulp_container_namespaces_view_statements : List Statement
pulp_container_namespaces_view_statements =
    allow ("list" ∷ "my_permissions" ∷ []) "authenticated" []
    ∷ allow ("create" ∷ []) "authenticated"
        ("has_model_perms:container.add_containernamespace" ∷ [])
    ∷ allow ("retrieve" ∷ []) "authenticated"
        ("has_model_or_obj_perms:container.view_containernamespace" ∷ [])
    ∷ allow ("destroy" ∷ []) "authenticated" (
        "has_model_or_obj_perms:container.delete_containernamespace"
        ∷ "has_model_or_obj_perms:container.view_containernamespace" ∷ [])
    ∷ allow ("create_distribution" ∷ []) "authenticated"
        ("has_model_or_obj_perms:container.namespace_add_containerdistribution" ∷ [])
    ∷ allow ("view_distribution" ∷ []) "authenticated"
        ("has_model_or_obj_perms:container.namespace_view_containerdistribution" ∷ [])
    ∷ allow ("list_roles" ∷ "add_role" ∷ "remove_role" ∷ []) "authenticated"
        ("has_model_or_obj_perms:container.manage_roles_containernamespace" ∷ [])
    ∷ []

abbrev pub repositories_container_container_push_view_statements : List Statement
repositories_container_container_push_view_statements =
    allow ("list" ∷ []) "authenticated" []
    ∷ allow ("retrieve" ∷ []) "authenticated"
        ("has_namespace_or_obj_perms:container.view_containerpushrepository" ∷ [])
    ∷ allow ("tag" ∷ "untag" ∷ "remove_image" ∷ "sign" ∷ "remove_signatures" ∷ []) "authenticated"
        ("has_namespace_or_obj_perms:container.modify_content_containerpushrepository" ∷ [])
    ∷ allow_if ("update" ∷ "partial_update" ∷ []) "authenticated" (
        "has_namespace_obj_perms:container.namespace_change_containerpushrepository or has_distribution_perms:container.change_containerdistribution"
        ∷ [])
    ∷ []

abbrev pub pulp_container_viewsets : List (String × ViewsetPolicy)
pulp_container_viewsets =
    (
      "distributions/container/container",
      record {
        statements = distributions_container_container_view_statements;
        creation_hooks = some ([]);
        queryset_scoping = none;
      },
    )
    ∷ (
      "pulp_container/namespaces",
      record {
        statements = pulp_container_namespaces_view_statements;
        creation_hooks = some (
            ("add_roles_for_object_creator", "galaxy.execution_environment_namespace_owner" ∷ [])
            ∷ []);
        queryset_scoping = none;
      },
    )
    ∷ (
      "repositories/container/container-push",
      record {
        statements = repositories_container_container_push_view_statements;
        creation_hooks = some ([]);
        queryset_scoping = none;
      },
    )
    ∷ []
