-- ===== src/Access/Policy/Standalone.antt =====
-- galaxy_ng/app/access_control/statements/standalone.py and legacy.py: the policies by view name.
use galaxy_ng.Prelude.{String, List, [], ◌∷◌}
use galaxy_ng.Access.Statement.{Statement, allow, deny}
use galaxy_ng.Access.Policy.Shared.{
  collection_statements, group_statements, user_statements, deny_all,
}

abbrev pub app_root_view_set_statements : List Statement
app_root_view_set_statements = allow ("retrieve" ∷ []) "*" [] ∷ []

abbrev pub ai_deny_index_view_statements : List Statement
ai_deny_index_view_statements =
    allow ("ai-deny-index-list" ∷ []) "*" []
    ∷ allow ("ai-deny-index-add" ∷ "ai-deny-index-delete" ∷ []) "authenticated"
        ("can_edit_ai_deny_index" ∷ [])
    ∷ []

abbrev pub namespace_view_set_statements : List Statement
namespace_view_set_statements =
    allow ("list" ∷ "retrieve" ∷ []) "authenticated" []
    ∷ allow ("list" ∷ "retrieve" ∷ []) "anonymous"
        ("unauthenticated_collection_access_enabled" ∷ [])
    ∷ allow ("destroy" ∷ []) "authenticated" ("has_model_or_obj_perms:galaxy.delete_namespace" ∷ [])
    ∷ allow ("create" ∷ []) "authenticated" ("has_model_perms:galaxy.add_namespace" ∷ [])
    ∷ allow ("update" ∷ "partial_update" ∷ []) "authenticated"
        ("has_model_or_obj_perms:galaxy.change_namespace" ∷ [])
    ∷ []

abbrev pub collection_remote_view_set_statements : List Statement
collection_remote_view_set_statements =
    allow ("list" ∷ "retrieve" ∷ []) "authenticated" []
    ∷ allow ("sync" ∷ "update" ∷ "partial_update" ∷ []) "authenticated"
        ("has_model_perms:ansible.change_collectionremote" ∷ [])
    ∷ []

abbrev pub my_user_view_set_statements : List Statement
my_user_view_set_statements =
    allow ("retrieve" ∷ []) "anonymous" ("unauthenticated_collection_access_enabled" ∷ [])
    ∷ allow ("retrieve" ∷ "update" ∷ "partial_update" ∷ []) "authenticated" ("is_current_user" ∷ [])
    ∷ deny ("create" ∷ "destroy" ∷ "update" ∷ "partial_update" ∷ []) "*"
        ("is_local_resource_management_disabled" ∷ [])
    ∷ []

abbrev pub task_view_set_statements : List Statement
task_view_set_statements = allow ("list" ∷ "retrieve" ∷ []) "authenticated" [] ∷ []

abbrev pub tag_view_set_statements : List Statement
tag_view_set_statements = allow ("list" ∷ "retrieve" ∷ []) "authenticated" [] ∷ []

abbrev pub login_view_statements : List Statement
login_view_statements = allow ("*" ∷ []) "*" [] ∷ []

abbrev pub logout_view_statements : List Statement
logout_view_statements = allow ("*" ∷ []) "*" [] ∷ []

abbrev pub token_view_statements : List Statement
token_view_statements = allow ("*" ∷ []) "authenticated" [] ∷ []

abbrev pub distribution_view_set_statements : List Statement
distribution_view_set_statements = allow ("list" ∷ "retrieve" ∷ []) "authenticated" [] ∷ []

abbrev pub my_distribution_view_set_statements : List Statement
my_distribution_view_set_statements = allow ("list" ∷ "retrieve" ∷ []) "authenticated" [] ∷ []

abbrev pub container_repository_view_set_statements : List Statement
container_repository_view_set_statements =
    allow ("list" ∷ "retrieve" ∷ []) "authenticated" []
    ∷ allow ("destroy" ∷ []) "authenticated"
        ("has_model_perms:container.delete_containerrepository" ∷ [])
    ∷ []

abbrev pub container_readme_viewset_statements : List Statement
container_readme_viewset_statements =
    allow ("retrieve" ∷ []) "authenticated" []
    ∷ allow ("update" ∷ []) "authenticated"
        ("has_container_namespace_perms:container.namespace_change_containerdistribution" ∷ [])
    ∷ []

abbrev pub container_registry_remote_view_set_statements : List Statement
container_registry_remote_view_set_statements =
    allow ("destroy" ∷ []) "authenticated"
      ("has_model_perms:galaxy.delete_containerregistryremote" ∷ [])
    ∷ allow ("list" ∷ "retrieve" ∷ []) "authenticated" []
    ∷ allow ("create" ∷ []) "authenticated"
        ("has_model_perms:galaxy.add_containerregistryremote" ∷ [])
    ∷ allow ("sync" ∷ "update" ∷ "index_execution_environments" ∷ []) "authenticated"
        ("has_model_perms:galaxy.change_containerregistryremote" ∷ [])
    ∷ []

abbrev pub container_remote_view_set_statements : List Statement
container_remote_view_set_statements =
    allow ("create" ∷ []) "authenticated" ("has_model_perms:container.add_containernamespace" ∷ [])
    ∷ allow ("list" ∷ "retrieve" ∷ []) "authenticated" []
    ∷ allow ("update" ∷ []) "authenticated"
        ("has_distro_permission:container.change_containerdistribution" ∷ [])
    ∷ allow ("sync" ∷ []) "authenticated"
        ("has_distro_permission:container.change_containerdistribution" ∷ [])
    ∷ []

abbrev pub legacy_statements : List Statement
legacy_statements =
    allow ("get" ∷ "get_task" ∷ "list" ∷ "retrieve" ∷ []) "*" []
    ∷ allow ("create" ∷ "delete" ∷ "delete_by_url_params" ∷ "destroy" ∷ "update" ∷ [])
        "authenticated" ("is_namespace_owner" ∷ [])
    ∷ []

abbrev pub standalone_statements : List (String × List Statement)
standalone_statements =
    ("CollectionViewSet", collection_statements)
    ∷ ("AppRootViewSet", app_root_view_set_statements)
    ∷ ("AIDenyIndexView", ai_deny_index_view_statements)
    ∷ ("NamespaceViewSet", namespace_view_set_statements)
    ∷ ("CollectionRemoteViewSet", collection_remote_view_set_statements)
    ∷ ("UserViewSet", user_statements)
    ∷ ("MyUserViewSet", my_user_view_set_statements)
    ∷ ("SyncListViewSet", deny_all)
    ∷ ("MySyncListViewSet", deny_all)
    ∷ ("TaskViewSet", task_view_set_statements)
    ∷ ("TagViewSet", tag_view_set_statements)
    ∷ ("LoginView", login_view_statements)
    ∷ ("LogoutView", logout_view_statements)
    ∷ ("TokenView", token_view_statements)
    ∷ ("GroupViewSet", group_statements)
    ∷ ("DistributionViewSet", distribution_view_set_statements)
    ∷ ("MyDistributionViewSet", my_distribution_view_set_statements)
    ∷ ("ContainerRepositoryViewSet", container_repository_view_set_statements)
    ∷ ("ContainerReadmeViewset", container_readme_viewset_statements)
    ∷ ("ContainerRegistryRemoteViewSet", container_registry_remote_view_set_statements)
    ∷ ("ContainerRemoteViewSet", container_remote_view_set_statements)
    ∷ ("LegacyAccessPolicy", legacy_statements)
    ∷ []
