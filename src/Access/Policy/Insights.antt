-- ===== src/Access/Policy/Insights.antt =====
-- galaxy_ng/app/access_control/statements/insights.py: the policies that differ from standalone.
use galaxy_ng.Prelude.{String, List, [], ◌∷◌}
use galaxy_ng.Access.Statement.{Statement, allow, deny}
use galaxy_ng.Access.Policy.Shared.{deny_all}

abbrev pub signature_upload_statements : List Statement
signature_upload_statements =
    allow ("list" ∷ "retrieve" ∷ "create" ∷ []) "authenticated"
      ("has_model_perms:ansible.modify_ansible_repo_content" ∷ [])
    ∷ []

abbrev pub insights_user_view_set_statements : List Statement
insights_user_view_set_statements =
    allow ("list" ∷ "retrieve" ∷ []) "authenticated" ("has_model_perms:galaxy.view_user" ∷ [])
    ∷ allow ("update" ∷ "partial_update" ∷ []) "authenticated"
        ("has_model_perms:galaxy.change_user" ∷ [])
    ∷ deny ("create" ∷ "destroy" ∷ []) "*" []
    ∷ []

abbrev pub insights_my_user_view_set_statements : List Statement
insights_my_user_view_set_statements =
    allow ("retrieve" ∷ []) "authenticated" ("is_current_user" ∷ []) ∷ []

abbrev pub insights_sync_list_view_set_statements : List Statement
insights_sync_list_view_set_statements =
    allow ("list" ∷ []) "authenticated" ("has_model_perms:galaxy.view_synclist" ∷ [])
    ∷ allow ("retrieve" ∷ []) "authenticated" ("has_model_or_obj_perms:galaxy.view_synclist" ∷ [])
    ∷ allow ("destroy" ∷ []) "authenticated" ("has_model_perms:galaxy.delete_synclist" ∷ [])
    ∷ allow ("create" ∷ []) "authenticated" ("has_model_perms:galaxy.add_synclist" ∷ [])
    ∷ allow ("update" ∷ "partial_update" ∷ []) "authenticated"
        ("has_model_perms:galaxy.change_synclist" ∷ [])
    ∷ []

abbrev pub insights_my_sync_list_view_set_statements : List Statement
insights_my_sync_list_view_set_statements =
    allow ("retrieve" ∷ "list" ∷ "update" ∷ "partial_update" ∷ "curate" ∷ []) "authenticated"
      ("is_org_admin" ∷ [])
    ∷ []

abbrev pub insights_group_view_set_statements : List Statement
insights_group_view_set_statements = allow ("list" ∷ "retrieve" ∷ []) "authenticated" [] ∷ []

abbrev pub insights_my_distribution_view_set_statements : List Statement
insights_my_distribution_view_set_statements =
    allow ("list" ∷ "retrieve" ∷ []) "authenticated" [] ∷ []

abbrev pub insights_landing_page_view_set_statements : List Statement
insights_landing_page_view_set_statements = allow ("retrieve" ∷ []) "authenticated" [] ∷ []

-- The keys that the literal sets over the copy of the standalone table.
abbrev pub insights_overrides : List (String × List Statement)
insights_overrides =
    ("content/ansible/collection_signatures", signature_upload_statements)
    ∷ ("AIDenyIndexView", deny_all)
    ∷ ("contentguards/core/rbac", deny_all)
    ∷ ("content/container/blobs", deny_all)
    ∷ ("remotes/container/container", deny_all)
    ∷ ("repositories/container/container", deny_all)
    ∷ ("content/container/manifests", deny_all)
    ∷ ("content/container/tags", deny_all)
    ∷ ("LegacyAccessPolicy", deny_all)
    ∷ ("UserViewSet", insights_user_view_set_statements)
    ∷ ("MyUserViewSet", insights_my_user_view_set_statements)
    ∷ ("SyncListViewSet", insights_sync_list_view_set_statements)
    ∷ ("MySyncListViewSet", insights_my_sync_list_view_set_statements)
    ∷ ("GroupViewSet", insights_group_view_set_statements)
    ∷ ("DistributionViewSet", deny_all)
    ∷ ("MyDistributionViewSet", insights_my_distribution_view_set_statements)
    ∷ ("ContainerRepositoryViewSet", deny_all)
    ∷ ("ContainerReadmeViewset", deny_all)
    ∷ ("ContainerRegistryRemoteViewSet", deny_all)
    ∷ ("ContainerRemoteViewSet", deny_all)
    ∷ ("LandingPageViewSet", insights_landing_page_view_set_statements)
    ∷ []
