-- ===== src/Access/Policy/Roles.antt =====
-- galaxy_ng/app/access_control/statements/roles.py: the table of locked roles. The descriptions are
-- left out.
use galaxy_ng.Prelude.{String, List, [], ◌∷◌}
use galaxy_ng.Access.Statement.{LockedRole}

abbrev pub locked_roles_table : List (String × LockedRole)
locked_roles_table =
    (
      "galaxy.content_admin",
      record {
        permissions = [];
        inherit_from = "galaxy.collection_admin" ∷ "galaxy.execution_environment_admin" ∷ [];
      },
    )
    ∷ (
      "galaxy.collection_admin",
      record {
        permissions =
            "ansible.delete_collection" ∷ "ansible.repair_ansiblerepository"
            ∷ "galaxy.delete_namespace" ∷ [];
        inherit_from = "galaxy.collection_publisher" ∷ "galaxy.collection_curator" ∷ [];
      },
    )
    ∷ (
      "galaxy.collection_publisher",
      record {
        permissions = "galaxy.add_namespace" ∷ [];
        inherit_from = "galaxy.collection_namespace_owner" ∷ [];
      },
    )
    ∷ (
      "galaxy.collection_curator",
      record {
        permissions = [];
        inherit_from = "galaxy.ansible_repository_owner" ∷ "galaxy.collection_remote_owner" ∷ [];
      },
    )
    ∷ (
      "galaxy.collection_remote_owner",
      record {
        permissions =
            "ansible.view_collectionremote" ∷ "ansible.add_collectionremote"
            ∷ "ansible.change_collectionremote" ∷ "ansible.delete_collectionremote"
            ∷ "ansible.manage_roles_collectionremote" ∷ [];
        inherit_from = [];
      },
    )
    ∷ (
      "galaxy.ansible_repository_owner",
      record {
        permissions =
            "ansible.modify_ansible_repo_content" ∷ "ansible.view_ansiblerepository"
            ∷ "ansible.add_ansiblerepository" ∷ "ansible.change_ansiblerepository"
            ∷ "ansible.delete_ansiblerepository" ∷ "ansible.repair_ansiblerepository"
            ∷ "ansible.sign_ansiblerepository" ∷ "ansible.manage_roles_ansiblerepository" ∷ [];
        inherit_from = [];
      },
    )
    ∷ (
      "galaxy.collection_namespace_owner",
      record {
        permissions = "galaxy.change_namespace" ∷ "galaxy.upload_to_namespace" ∷ [];
        inherit_from = [];
      },
    )
    ∷ (
      "galaxy.execution_environment_admin",
      record {
        permissions =
            "container.delete_containerrepository" ∷ "galaxy.add_containerregistryremote"
            ∷ "galaxy.change_containerregistryremote" ∷ "galaxy.delete_containerregistryremote"
            ∷ "container.manage_roles_containernamespace" ∷ [];
        inherit_from = "galaxy.execution_environment_publisher" ∷ [];
      },
    )
    ∷ (
      "galaxy.execution_environment_publisher",
      record {
        permissions = "container.add_containernamespace" ∷ [];
        inherit_from = "galaxy.execution_environment_namespace_owner" ∷ [];
      },
    )
    ∷ (
      "galaxy.execution_environment_namespace_owner",
      record {
        permissions =
            "container.change_containernamespace" ∷ "container.namespace_add_containerdistribution"
            ∷ "container.manage_roles_containernamespace" ∷ "container.view_containernamespace"
            ∷ [];
        inherit_from = "galaxy.execution_environment_collaborator" ∷ [];
      },
    )
    ∷ (
      "galaxy.execution_environment_collaborator",
      record {
        permissions =
            "container.namespace_push_containerdistribution"
            ∷ "container.namespace_change_containerdistribution"
            ∷ "container.namespace_modify_content_containerpushrepository" ∷ [];
        inherit_from = [];
      },
    )
    ∷ (
      "galaxy.group_admin",
      record {
        permissions =
            "galaxy.view_group" ∷ "galaxy.delete_group" ∷ "galaxy.add_group" ∷ "galaxy.change_group"
            ∷ [];
        inherit_from = [];
      },
    )
    ∷ (
      "galaxy.user_admin",
      record {
        permissions =
            "galaxy.view_user" ∷ "galaxy.delete_user" ∷ "galaxy.add_user" ∷ "galaxy.change_user"
            ∷ [];
        inherit_from = [];
      },
    )
    ∷ (
      "galaxy.synclist_owner",
      record {
        permissions =
            "galaxy.add_synclist" ∷ "galaxy.change_synclist" ∷ "galaxy.delete_synclist"
            ∷ "galaxy.view_synclist" ∷ [];
        inherit_from = [];
      },
    )
    ∷ (
      "galaxy.task_admin",
      record {
        permissions = "core.change_task" ∷ "core.delete_task" ∷ "core.view_task" ∷ [];
        inherit_from = [];
      },
    )
    ∷ (
      "galaxy.auditor",
      record {
        permissions =
            "ansible.view_ansiblerepository" ∷ "ansible.view_collectionremote" ∷ "core.view_task"
            ∷ "galaxy.view_group" ∷ "galaxy.view_user" ∷ [];
        inherit_from = [];
      },
    )
    ∷ []
