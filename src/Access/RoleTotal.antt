-- ===== src/Access/RoleTotal.antt =====
-- galaxy_ng/app/access_control/statements/roles.py: the recursion over the inheritance ends.
use galaxy_ng.Prelude.{
  ℕ, zero, suc, ◌≡◌, ◌↔◌, ◌<◌, refl, String, str_eq_refl, true, List, [], ◌∷◌, ◌++◌, Option, some,
  arith,
}
use galaxy_ng.Access.Statement.{LockedRole}
use galaxy_ng.Access.Policies.{find_policy}
use galaxy_ng.Access.LockedRoles.{
  RoleTable, has, union_of, process_permissions, Inherits, process_permissions_iff,
}

-- Every child that a role names is in the table and has a smaller rank.
pub record IsRanked (roles : RoleTable) (rank : String → ℕ) : Type 0 where
  pub child_of :
      (role child : String) (r : LockedRole)
      → find_policy role roles ≡ some r
      → has child r.inherit_from ≡ true
      → (c : LockedRole) × (find_policy child roles ≡ some c) × (rank child < rank role)

union_step :
    (f : String → Option (List String)) (c : String) (cs xs ys : List String)
    → f c ≡ some xs
    → union_of f cs ≡ some ys
    → union_of f (c ∷ cs) ≡ some (xs ++ ys)
unfolding union_of
union_step f c cs xs ys found rest = ground arith

union_some :
    (f : String → Option (List String)) (cs : List String)
    → ((c : String) → has c cs ≡ true → (ps : List String) × (f c ≡ some ps))
    → (ps : List String) × (union_of f cs ≡ some ps)
unfolding union_of
union_some f [] each = ([], refl)
union_some f (c ∷ cs) each =
    let (xs, found) = each c (ground (arith, str_eq_refl c)) in
    let (ys, rest) = union_some f cs (λ d listed. each d (ground (arith, listed))) in
    (xs ++ ys, union_step f c cs xs ys found rest)

process_step :
    (roles : RoleTable) (fuel : ℕ) (role : String) (r : LockedRole) (ps : List String)
    → find_policy role roles ≡ some r
    → union_of (process_permissions fuel roles) r.inherit_from ≡ some ps
    → process_permissions (suc fuel) roles role ≡ some (ps ++ r.permissions)
unfolding process_permissions
process_step roles fuel role r ps found union = ground arith

process_some :
    (roles : RoleTable) (rank : String → ℕ) (ranked : IsRanked roles rank) (fuel : ℕ)
    (role : String) (r : LockedRole)
    → find_policy role roles ≡ some r
    → rank role < fuel
    → (ps : List String) × (process_permissions fuel roles role ≡ some ps)
unfolding process_permissions
process_some roles rank ranked zero role r found less = absurd (omega arith)
process_some roles rank ranked (suc fuel) role r found less =
    let (ps, union) = union_some (process_permissions fuel roles) r.inherit_from (λ child listed.
      let (c, known, lower) = ranked.child_of role child r found listed in
      process_some roles rank ranked fuel child c known (omega arith)) in
    (ps ++ r.permissions, process_step roles fuel role r ps found union)

-- In a table in which the children of a role are roles of a smaller rank, the permissions of every
-- role are computed with fuel above its rank, and they are exactly those that the role has itself
-- or inherits, at any depth.
pub process_permissions_total :
    (roles : RoleTable) (rank : String → ℕ) (fuel : ℕ) (role : String) (r : LockedRole)
    → IsRanked roles rank
    → find_policy role roles ≡ some r
    → rank role < fuel
    → (ps : List String) × (process_permissions fuel roles role ≡ some ps)
      × ((p : String) → (has p ps ≡ true) ↔ Inherits roles p role)
process_permissions_total roles rank fuel role r ranked found less =
    let (ps, done) = process_some roles rank ranked fuel role r found less in
    (ps, done, λ p. process_permissions_iff roles fuel role p ps done)
