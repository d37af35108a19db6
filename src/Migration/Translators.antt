-- ===== src/Migration/Translators.antt =====
-- galaxy_ng/app/migrations/0029_move_perms_to_roles.py: the two tables from sets of permissions to roles.
use galaxy_ng.Prelude.{String, List, [], ◌∷◌}

-- The label of an app and the name of a permission.
pub record Perm : Type 0 where
  pub label : String
  pub codename : String

-- A set of permissions, and the locked role that stands for it.
pub record TranslatorEntry : Type 0 where
  pub permissions : List Perm
  pub rolename : String

abbrev pub container_perm : String → Perm
container_perm c = record { label = "container"; codename = c }

abbrev pub galaxy_perm : String → Perm
galaxy_perm c = record { label = "galaxy"; codename = c }

abbrev pub ansible_perm : String → Perm
ansible_perm c = record { label = "ansible"; codename = c }

abbrev pub core_perm : String → Perm
core_perm c = record { label = "core"; codename = c }

abbrev pub object_permission_translator : List TranslatorEntry
object_permission_translator =
    record {
      permissions =
          container_perm "change_containernamespace"
          ∷ container_perm "namespace_push_containerdistribution"
          ∷ container_perm "namespace_change_containerdistribution"
          ∷ container_perm "namespace_modify_content_containerpushrepository"
          ∷ container_perm "namespace_add_containerdistribution"
          ∷ [];
      rolename = "galaxy.execution_environment_namespace_owner";
    }
    ∷ record {
      permissions =
          container_perm "namespace_push_containerdistribution"
          ∷ container_perm "namespace_change_containerdistribution"
          ∷ container_perm "namespace_modify_content_containerpushrepository"
          ∷ [];
      rolename = "galaxy.execution_environment_collaborator";
    }
    ∷ record {
      permissions = galaxy_perm "change_namespace" ∷ galaxy_perm "upload_to_namespace" ∷ [];
      rolename = "galaxy.collection_namespace_owner";
    }
    ∷ record {
      permissions =
          galaxy_perm "add_synclist"
          ∷ galaxy_perm "change_synclist"
          ∷ galaxy_perm "delete_synclist"
          ∷ galaxy_perm "view_synclist"
          ∷ [];
      rolename = "galaxy.synclist_owner";
    }
    ∷ []

abbrev pub global_permission_translator : List TranslatorEntry
global_permission_translator =
    record {
      permissions =
          galaxy_perm "add_namespace"
          ∷ galaxy_perm "change_namespace"
          ∷ galaxy_perm "delete_namespace"
          ∷ galaxy_perm "upload_to_namespace"
          ∷ ansible_perm "delete_collection"
          ∷ ansible_perm "change_collectionremote"
          ∷ ansible_perm "view_collectionremote"
          ∷ ansible_perm "modify_ansible_repo_content"
          ∷ container_perm "delete_containerrepository"
          ∷ container_perm "namespace_change_containerdistribution"
          ∷ container_perm "namespace_modify_content_containerpushrepository"
          ∷ container_perm "namespace_push_containerdistribution"
          ∷ container_perm "add_containernamespace"
          ∷ container_perm "change_containernamespace"
          ∷ container_perm "manage_roles_containernamespace"
          ∷ galaxy_perm "add_containerregistryremote"
          ∷ galaxy_perm "change_containerregistryremote"
          ∷ galaxy_perm "delete_containerregistryremote"
          ∷ [];
      rolename = "galaxy.content_admin";
    }
    ∷ record {
      permissions =
          galaxy_perm "add_namespace"
          ∷ galaxy_perm "change_namespace"
          ∷ galaxy_perm "delete_namespace"
          ∷ galaxy_perm "upload_to_namespace"
          ∷ ansible_perm "delete_collection"
          ∷ ansible_perm "change_collectionremote"
          ∷ ansible_perm "view_collectionremote"
          ∷ ansible_perm "modify_ansible_repo_content"
          ∷ [];
      rolename = "galaxy.collection_admin";
    }
    ∷ record {
      permissions =
          galaxy_perm "add_namespace"
          ∷ galaxy_perm "change_namespace"
          ∷ galaxy_perm "upload_to_namespace"
          ∷ [];
      rolename = "galaxy.collection_publisher";
    }
    ∷ record {
      permissions =
          ansible_perm "change_collectionremote"
          ∷ ansible_perm "view_collectionremote"
          ∷ ansible_perm "modify_ansible_repo_content"
          ∷ [];
      rolename = "galaxy.collection_curator";
    }
    ∷ record {
      permissions = galaxy_perm "change_namespace" ∷ galaxy_perm "upload_to_namespace" ∷ [];
      rolename = "galaxy.collection_namespace_owner";
    }
    ∷ record {
      permissions =
          container_perm "delete_containerrepository"
          ∷ container_perm "namespace_change_containerdistribution"
          ∷ container_perm "namespace_modify_content_containerpushrepository"
          ∷ container_perm "namespace_push_containerdistribution"
          ∷ container_perm "add_containernamespace"
          ∷ container_perm "change_containernamespace"
          ∷ container_perm "manage_roles_containernamespace"
          ∷ galaxy_perm "add_containerregistryremote"
          ∷ galaxy_perm "change_containerregistryremote"
          ∷ galaxy_perm "delete_containerregistryremote"
          ∷ [];
      rolename = "galaxy.execution_environment_admin";
    }
    ∷ record {
      permissions =
          container_perm "namespace_change_containerdistribution"
          ∷ container_perm "namespace_modify_content_containerpushrepository"
          ∷ container_perm "namespace_push_containerdistribution"
          ∷ container_perm "add_containernamespace"
          ∷ container_perm "change_containernamespace"
          ∷ [];
      rolename = "galaxy.execution_environment_publisher";
    }
    ∷ record {
      permissions =
          container_perm "change_containernamespace"
          ∷ container_perm "namespace_push_containerdistribution"
          ∷ container_perm "namespace_change_containerdistribution"
          ∷ container_perm "namespace_modify_content_containerpushrepository"
          ∷ container_perm "manage_roles_containernamespace"
          ∷ [];
      rolename = "galaxy.execution_environment_namespace_owner";
    }
    ∷ record {
      permissions =
          container_perm "namespace_push_containerdistribution"
          ∷ container_perm "namespace_change_containerdistribution"
          ∷ container_perm "namespace_modify_content_containerpushrepository"
          ∷ [];
      rolename = "galaxy.execution_environment_collaborator";
    }
    ∷ record {
      permissions =
          galaxy_perm "view_group"
          ∷ galaxy_perm "delete_group"
          ∷ galaxy_perm "add_group"
          ∷ galaxy_perm "change_group"
          ∷ [];
      rolename = "galaxy.group_admin";
    }
    ∷ record {
      permissions =
          galaxy_perm "view_user"
          ∷ galaxy_perm "delete_user"
          ∷ galaxy_perm "add_user"
          ∷ galaxy_perm "change_user"
          ∷ [];
      rolename = "galaxy.user_admin";
    }
    ∷ record {
      permissions =
          galaxy_perm "add_synclist"
          ∷ galaxy_perm "change_synclist"
          ∷ galaxy_perm "delete_synclist"
          ∷ galaxy_perm "view_synclist"
          ∷ [];
      rolename = "galaxy.synclist_owner";
    }
    ∷ record {
      permissions = core_perm "change_task" ∷ core_perm "delete_task" ∷ core_perm "view_task" ∷ [];
      rolename = "galaxy.task_admin";
    }
    ∷ []
