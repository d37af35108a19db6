-- ===== src/Migration/Examples.antt =====
-- galaxy_ng/app/migrations/0029_move_perms_to_roles.py: tests, and the theorems at a concrete group.
use galaxy_ng.Prelude.{ℕ, ◌≡◌, refl, codes, List, [], ◌∷◌, ◌++◌, any, keep, map, none, some}
use galaxy_ng.Migration.Translators.{
  Perm, galaxy_perm, object_permission_translator, global_permission_translator,
}
use galaxy_ng.Migration.Roles.{
  has_perm, as_set, single, migrated_name, translated, get_roles_from_permissions, RoleAssignment,
  get_global_group_permissions, ObjectPermission, add_permission, objects_with_perms, object_supers,
  object_roles, get_object_group_permissions, Group, is_migrated, roles_of_group, migrate_groups,
  migrate_group_permissions_to_roles, add_object_roles, add_object_role_for_users_with_permission,
}
use galaxy_ng.Migration.Preserved.{stands_for, get_roles_from_permissions_lem}
use galaxy_ng.Migration.Batches.{all_roles, migrate_group_permissions_to_roles_lem}

migration_code : Unit {0}
unfolding as_set translated get_roles_from_permissions get_global_group_permissions add_permission
    objects_with_perms object_roles get_object_group_permissions roles_of_group migrate_groups
    migrate_group_permissions_to_roles add_object_roles add_object_role_for_users_with_permission
migration_code = tt

-- The group of the docstring: the permission on collections is left over as well.
abbrev example_perms : List Perm
example_perms =
    galaxy_perm "change_namespace"
    ∷ galaxy_perm "upload_to_namespace"
    ∷ galaxy_perm "delete_collection"
    ∷ galaxy_perm "view_group"
    ∷ galaxy_perm "view_user"
    ∷ []

docstring_test :
    map migrated_name (get_roles_from_permissions example_perms global_permission_translator [])
    ≡ codes "galaxy.collection_namespace_owner"
      ∷ codes "_permission:galaxy.delete_collection"
      ∷ codes "_permission:galaxy.view_group"
      ∷ codes "_permission:galaxy.view_user"
      ∷ []
unfolding migration_code
docstring_test = refl

-- On an object one permission stands for the whole role.
super_test :
    map migrated_name (
      get_roles_from_permissions
        (galaxy_perm "change_namespace" ∷ [])
        object_permission_translator
        object_supers)
    ≡ codes "galaxy.collection_namespace_owner" ∷ []
unfolding migration_code
super_test = refl

abbrev permission_table : List (ℕ × Perm)
permission_table = (1, galaxy_perm "change_namespace") ∷ (2, galaxy_perm "view_synclist") ∷ []

abbrev guardian_rows : List ObjectPermission
guardian_rows =
    record { object_pk = 7; content_type = 3; permission = 1; holder = 5 }
    ∷ record { object_pk = 8; content_type = 4; permission = 2; holder = 5 }
    ∷ record { object_pk = 7; content_type = 3; permission = 2; holder = 6 }
    ∷ record { object_pk = 7; content_type = 3; permission = 2; holder = 5 }
    ∷ []

abbrev some_groups : List Group
some_groups =
    record { pk = 4; name = "system:partner-engineers"; permissions = example_perms }
    ∷ record { pk = 5; name = "owners"; permissions = galaxy_perm "view_user" ∷ [] }
    ∷ []

abbrev shown_assignment : RoleAssignment → List ℕ
shown_assignment a = codes "" ++ a.holder ∷ elim a.object [ none ↦ [] | some o ↦ o.0 ∷ o.1 ∷ [] ]

groups_test :
    map shown_assignment
      (migrate_group_permissions_to_roles permission_table
        (some guardian_rows)
        some_groups
        []).created
    ≡ (5 ∷ []) ∷ (5 ∷ 3 ∷ 7 ∷ []) ∷ (5 ∷ 3 ∷ 7 ∷ []) ∷ (5 ∷ 4 ∷ 8 ∷ []) ∷ []
unfolding migration_code
groups_test = refl

users_test :
    map shown_assignment
      (add_object_role_for_users_with_permission
        (single (galaxy_perm "change_namespace"))
        1
        guardian_rows
        []).created
    ≡ (5 ∷ 3 ∷ 7 ∷ []) ∷ []
unfolding migration_code
users_test = refl

get_roles_from_permissions_lem_example :
    any
      (stands_for (galaxy_perm "view_user"))
      (get_roles_from_permissions example_perms global_permission_translator [])
    ≡ has_perm (galaxy_perm "view_user") example_perms
get_roles_from_permissions_lem_example =
    get_roles_from_permissions_lem (galaxy_perm "view_user") global_permission_translator
      example_perms

migrate_group_permissions_to_roles_lem_example :
    migrate_group_permissions_to_roles permission_table (some guardian_rows) some_groups []
    ≡ record {
      created =
          [] ++ all_roles permission_table (some guardian_rows) (keep is_migrated some_groups);
      waiting = [];
    }
migrate_group_permissions_to_roles_lem_example =
    migrate_group_permissions_to_roles_lem permission_table (some guardian_rows) some_groups []
