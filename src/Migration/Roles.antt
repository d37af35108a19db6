-- ===== src/Migration/Roles.antt =====
-- galaxy_ng/app/migrations/0029_move_perms_to_roles.py: the roles of groups and users. A set of Python is
-- a list without repetitions, and a role that is made twice is there once.
use galaxy_ng.Prelude.{
  ℕ, ◌==◌, String, str_eq, Text, codes, Bool, true, false, not, ◌&&◌, ◌||◌, ltb, List, [], ◌∷◌,
  ◌++◌, any, all, keep, map, first, length, Option, none, some, if◌then◌else◌,
}
use galaxy_ng.Migration.Translators.{
  Perm, TranslatorEntry, container_perm, galaxy_perm, object_permission_translator,
  global_permission_translator,
}

abbrev pub same_perm : Perm → Perm → Bool
same_perm p q = str_eq p.label q.label && str_eq p.codename q.codename

abbrev pub has_perm : Perm → List Perm → Bool
has_perm p = any (λ q. same_perm q p)

-- `permissions - role_perms`
abbrev pub minus_perms : List Perm → List Perm → List Perm
minus_perms ps role_perms = keep (λ p. not (has_perm p role_perms)) ps

unfoldable pub as_set : List Perm → List Perm
as_set [] = []
as_set (p ∷ ps) = let rest = as_set ps in if has_perm p rest then rest else p ∷ rest

-- A role: a locked one of a table, or the one that is made for a permission.
pub data MigratedRole : Type 0 where
  locked : TranslatorEntry → MigratedRole
  single : Perm → MigratedRole

abbrev pub migrated_name : MigratedRole → Text
migrated_name (locked e) = codes e.rolename
migrated_name (single p) =
    codes "_permission:" ++ (codes p.label ++ (codes "." ++ codes p.codename))

abbrev pub SuperPermissions : Type 0
SuperPermissions = List (String × Perm)

abbrev pub has_super : Option (String × Perm) → List Perm → Bool
has_super none ps = false
has_super (some s) ps = has_perm s.1 ps

abbrev pub is_role_given : SuperPermissions → List Perm → TranslatorEntry → Bool
is_role_given supers ps e =
    all (λ p. has_perm p ps) e.permissions
    || has_super (first (λ s. str_eq s.0 e.rolename) supers) ps

abbrev pub left_over : Bool → TranslatorEntry → List Perm → List Perm
left_over given e ps = if given then minus_perms ps e.permissions else ps

abbrev pub with_role : Bool → TranslatorEntry → List MigratedRole → List MigratedRole
with_role given e roles = if given then locked e ∷ roles else roles

unfoldable pub translated : SuperPermissions → List TranslatorEntry → List Perm → List MigratedRole
translated supers [] ps = map single ps
translated supers (e ∷ es) ps =
    let rest = translated supers es (left_over (is_role_given supers ps e) e ps) in
    with_role (is_role_given supers ps e) e rest

unfoldable pub get_roles_from_permissions :
    List Perm → List TranslatorEntry → SuperPermissions → List MigratedRole
unfolding as_set translated
get_roles_from_permissions perms translator supers = translated supers translator (as_set perms)

-- The role of a group or a user, on an object (its content type and its key) or on none.
pub record RoleAssignment : Type 0 where
  pub holder : ℕ
  pub role : MigratedRole
  pub object : Option (ℕ × ℕ)

unfoldable pub get_global_group_permissions : ℕ → List Perm → List RoleAssignment
unfolding get_roles_from_permissions
get_global_group_permissions group [] = []
get_global_group_permissions group (p ∷ ps) =
    map (λ r. record { holder = group; role = r; object = none })
      (get_roles_from_permissions (p ∷ ps) global_permission_translator [])

-- A row of a table of guardian.
pub record ObjectPermission : Type 0 where
  pub object_pk : ℕ
  pub content_type : ℕ
  pub permission : ℕ
  pub holder : ℕ

abbrev pub same_target : ℕ × ℕ → ℕ × ℕ → Bool
same_target a b = a.0 == b.0 && a.1 == b.1

-- The dictionary from objects to the permissions on them.
unfoldable pub add_permission : ℕ × ℕ → ℕ → List ((ℕ × ℕ) × List ℕ) → List ((ℕ × ℕ) × List ℕ)
add_permission key i [] = (key, i ∷ []) ∷ []
add_permission key i (e ∷ es) =
    let rest = add_permission key i es in
    if same_target e.0 key then (e.0, e.1 ++ i ∷ []) ∷ es else e ∷ rest

unfoldable pub objects_with_perms :
    List ObjectPermission → List ((ℕ × ℕ) × List ℕ) → List ((ℕ × ℕ) × List ℕ)
unfolding add_permission
objects_with_perms [] d = d
objects_with_perms (r ∷ rs) d =
    objects_with_perms rs (add_permission (r.content_type, r.object_pk) r.permission d)

-- `Permission.objects.filter(pk__in=perm_list)`
abbrev pub permissions_of : List (ℕ × Perm) → List ℕ → List Perm
permissions_of table ids = map (λ r. r.1) (keep (λ r. any (λ i. i == r.0) ids) table)

abbrev pub object_supers : SuperPermissions
object_supers =
    ("galaxy.execution_environment_namespace_owner", container_perm "change_containernamespace")
    ∷ ("galaxy.collection_namespace_owner", galaxy_perm "change_namespace")
    ∷ []

unfoldable pub object_roles : List (ℕ × Perm) → ℕ → List ((ℕ × ℕ) × List ℕ) → List RoleAssignment
unfolding get_roles_from_permissions
object_roles table group [] = []
object_roles table group (e ∷ es) =
    map (λ r. record { holder = group; role = r; object = some e.0 })
      (get_roles_from_permissions (permissions_of table e.1) object_permission_translator
        object_supers)
    ++ object_roles table group es

unfoldable pub get_object_group_permissions :
    List (ℕ × Perm) → List ObjectPermission → ℕ → List RoleAssignment
unfolding objects_with_perms object_roles
get_object_group_permissions table rows group =
    object_roles table group (objects_with_perms (keep (λ r. r.holder == group) rows) [])

-- What is in the database, and the list that waits.
pub record Batch : Type 0 where
  pub created : List RoleAssignment
  pub waiting : List RoleAssignment

abbrev pub batch_create : Bool → Batch → Batch
batch_create flush b =
    if ltb 1000 (length b.waiting) || flush
    then record { created = b.created ++ b.waiting; waiting = [] }
    else b

abbrev pub extend : List RoleAssignment → Batch → Batch
extend roles b = record b { waiting = b.waiting ++ roles }

pub record Group : Type 0 where
  pub pk : ℕ
  pub name : String
  pub permissions : List Perm

abbrev pub is_migrated : Group → Bool
is_migrated g = not (str_eq g.name "system:partner-engineers")

-- The roles of a group; guardian's rows are none where its table is missing.
unfoldable pub roles_of_group :
    List (ℕ × Perm) → Option (List ObjectPermission) → Group → List RoleAssignment
unfolding get_global_group_permissions get_object_group_permissions
roles_of_group table none g = get_global_group_permissions g.pk g.permissions
roles_of_group table (some rows) g =
    get_global_group_permissions g.pk g.permissions ++ get_object_group_permissions table rows g.pk

unfoldable pub migrate_groups :
    List (ℕ × Perm) → Option (List ObjectPermission) → List Group → Batch → Batch
unfolding roles_of_group
migrate_groups table guardian [] b = batch_create true b
migrate_groups table guardian (g ∷ gs) b =
    migrate_groups table guardian gs
      (batch_create false (extend (roles_of_group table guardian g) b))

unfoldable pub migrate_group_permissions_to_roles :
    List (ℕ × Perm) → Option (List ObjectPermission) → List Group → List RoleAssignment → Batch
unfolding migrate_groups
migrate_group_permissions_to_roles table guardian groups created =
    migrate_groups table guardian (keep is_migrated groups)
      (record { created = created; waiting = [] })

-- The role goes to the users with the permission, on the objects that they have it on.
unfoldable pub add_object_roles : MigratedRole → List ObjectPermission → Batch → Batch
add_object_roles role [] b = batch_create true b
add_object_roles role (r ∷ rs) b =
    let assignment : RoleAssignment = record {
      holder = r.holder;
      role = role;
      object = some (r.content_type, r.object_pk);
    } in
    add_object_roles role rs (batch_create false (extend (assignment ∷ []) b))

unfoldable pub add_object_role_for_users_with_permission :
    MigratedRole → ℕ → List ObjectPermission → List RoleAssignment → Batch
unfolding add_object_roles
add_object_role_for_users_with_permission role permission rows created =
    add_object_roles role (keep (λ r. r.permission == permission) rows)
      (record { created = created; waiting = [] })
