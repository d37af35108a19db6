-- ===== src/Migration/Batches.antt =====
-- galaxy_ng/app/migrations/0029_move_perms_to_roles.py: the batches.
use galaxy_ng.Prelude.{
  ℕ, ◌≡◌, refl, sym, ap, ◌∙◌, inl, inr, Bool, true, false, ◌||◌, ltb, List, [], ◌∷◌, ◌++◌, keep,
  length, append_assoc, Option, Bool-cases,
}
use galaxy_ng.Migration.Translators.{Perm}
use galaxy_ng.Migration.Roles.{
  RoleAssignment, ObjectPermission, Batch, batch_create, extend, Group, is_migrated, roles_of_group,
  migrate_groups, migrate_group_permissions_to_roles,
}

-- The roles of all groups, one after the other.
abbrev pub all_roles :
    List (ℕ × Perm) → Option (List ObjectPermission) → List Group → List RoleAssignment
all_roles table guardian [] = []
all_roles table guardian (g ∷ gs) = roles_of_group table guardian g ++ all_roles table guardian gs

append_nil : (xs : List RoleAssignment) → xs ++ [] ≡ xs
append_nil [] = refl
append_nil (x ∷ xs) = ap (λ l. x ∷ l) (append_nil xs)

-- What is created and what waits, in this order, whether a batch is written or not.
content : Batch → List RoleAssignment
content b = b.created ++ b.waiting

content-batch_create : (flush : Bool) (b : Batch) → content (batch_create flush b) ≡ content b
unfolding content
content-batch_create flush b = elim (Bool-cases (ltb 1000 (length b.waiting) || flush)) [
  | inl write ↦ rw write (append_nil (b.created ++ b.waiting))
  | inr wait ↦ rw wait refl
]

content-extend :
    (roles : List RoleAssignment) (b : Batch) → content (extend roles b) ≡ content b ++ roles
unfolding content
content-extend roles b = sym (append_assoc b.created b.waiting roles)

flushed : (b : Batch) → batch_create true b ≡ record { created = content b; waiting = [] }
unfolding content
flushed b = elim (Bool-cases (ltb 1000 (length b.waiting))) [
  | inl write ↦ rw write refl
  | inr wait ↦ rw wait refl
]

migrate_groups_lem :
    (table : List (ℕ × Perm)) (guardian : Option (List ObjectPermission)) (gs : List Group)
    (b : Batch)
    → migrate_groups table guardian gs b
      ≡ record { created = content b ++ all_roles table guardian gs; waiting = [] }
unfolding migrate_groups
migrate_groups_lem table guardian [] b =
    flushed b ∙ ap (λ l. record { created = l; waiting = [] }) (sym (append_nil (content b)))
migrate_groups_lem table guardian (g ∷ gs) b =
    let roles = roles_of_group table guardian g in
    let more = all_roles table guardian gs in
    migrate_groups_lem table guardian gs (batch_create false (extend roles b))
    ∙ ap (λ l. record { created = l ++ more; waiting = [] })
        (content-batch_create false (extend roles b) ∙ content-extend roles b)
    ∙ ap (λ l. record { created = l; waiting = [] }) (append_assoc (content b) roles more)

-- The batches of the migration of groups lose, repeat and reorder nothing, however many roles
-- there are: behind the roles that were there it creates those of each group that it is for, and
-- nothing waits.
pub migrate_group_permissions_to_roles_lem :
    (table : List (ℕ × Perm)) (guardian : Option (List ObjectPermission)) (gs : List Group)
    (created : List RoleAssignment)
    → migrate_group_permissions_to_roles table guardian gs created
      ≡ record { created = created ++ all_roles table guardian (keep is_migrated gs); waiting = [] }
unfolding migrate_group_permissions_to_roles content
migrate_group_permissions_to_roles_lem table guardian gs created =
    migrate_groups_lem table guardian (keep is_migrated gs)
      (record { created = created; waiting = [] })
    ∙ ap
        (λ l. record {
          created = l ++ all_roles table guardian (keep is_migrated gs);
          waiting = [];
        })
        (append_nil created)
