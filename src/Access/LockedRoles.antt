-- ===== src/Access/LockedRoles.antt =====
-- galaxy_ng/app/access_control/statements/roles.py: the permissions of a locked role are its own and
-- those that it inherits. The recursion takes fuel; sixteen suffice for the table.
use galaxy_ng.Prelude.{
  ℕ, zero, suc, ◌≡◌, ◌↔◌, refl, sym, inl, inr, String, str_eq, str_eq_iff, Bool, true, ◌||◌, List,
  [], ◌∷◌, ◌++◌, map, any, all, Option, none, some, Bool-cases, Option-cases, arith, is_some,
  str_eq_refl,
}
use galaxy_ng.Access.Statement.{LockedRole}
use galaxy_ng.Access.Policies.{find_policy}
use galaxy_ng.Access.Policy.Roles.{locked_roles_table}

abbrev pub RoleTable : Type 0
RoleTable = List (String × LockedRole)

abbrev pub has : String → List String → Bool
has p = any (λ q. str_eq q p)

-- The union over the children, `none` as soon as one of them fails.
unfoldable pub union_of : (String → Option (List String)) → List String → Option (List String)
union_of f [] = some []
union_of f (child ∷ rest) = elim (f child) [
  | none ↦ none
  | some ps ↦ elim (union_of f rest) [ none ↦ none | some qs ↦ some (ps ++ qs) ]
]

-- `_process_permissions`; `none` is a KeyError or the end of the fuel.
unfoldable pub process_permissions : ℕ → RoleTable → String → Option (List String)
process_permissions zero roles role = none
process_permissions (suc fuel) roles role = elim (find_policy role roles) [
  | none ↦ none
  | some r ↦ elim (union_of (process_permissions fuel roles) r.inherit_from) [
    | none ↦ none
    | some ps ↦ some (ps ++ r.permissions)
  ]
]

abbrev pub role_fuel : ℕ
role_fuel = 16

-- `_process_locked_roles` over the table: each role with its permissions.
unfoldable pub locked_roles : List (String × Option (List String))
locked_roles =
    map (λ r. (r.0, process_permissions role_fuel locked_roles_table r.0)) locked_roles_table

-- Every role of the table is processed: no name is missing and no inheritance is cyclic.
locked_roles_complete : all (λ r. is_some r.1) locked_roles ≡ true
unfolding locked_roles process_permissions union_of
locked_roles_complete = refl

-- A role inherits a permission from itself or through one of its children.
pub data Inherits (roles : RoleTable) (p : String) : String → Type 0 where
  own :
      {role : String} {r : LockedRole}
      → find_policy role roles ≡ some r
      → has p r.permissions ≡ true
      → Inherits roles p role
  through :
      {role child : String} {r : LockedRole}
      → find_policy role roles ≡ some r
      → has child r.inherit_from ≡ true
      → Inherits roles p child
      → Inherits roles p role

has-append : (p : String) (xs ys : List String) → has p (xs ++ ys) ≡ (has p xs || has p ys)
has-append p [] ys = refl
has-append p (x ∷ xs) ys = ground (arith, has-append p xs ys)

module _ (roles : RoleTable) (p : String) where
  -- The soundness of a function for one role gives that of the union.
  union_sound :
      (f : String → Option (List String))
      → ((c : String) (ps : List String) → f c ≡ some ps → has p ps ≡ true → Inherits roles p c)
      → (cs ps : List String) → union_of f cs ≡ some ps
      → has p ps ≡ true
      → (c : String) × (has c cs ≡ true) × Inherits roles p c
  unfolding union_of
  union_sound f sound [] ps e h = absurd (ground arith)
  union_sound f sound (c ∷ cs) ps e h = elim (Option-cases (f c)) [
    | inl failed ↦ absurd (ground arith)
    | inr (xs, found) ↦ elim (Option-cases (union_of f cs)) [
      | inl failed ↦ absurd (ground arith)
      | inr (ys, rest) ↦ elim (Bool-cases (has p xs)) [
        | inl here ↦ (c, rw (str_eq_refl c) refl, sound c xs found here)
        | inr there ↦
            let (d, listed, inherits) =
              union_sound f sound cs ys rest (ground (arith, has-append p xs ys)) in
            (d, ground arith, inherits)
      ]
    ]
  ]

  pub process_sound :
      (fuel : ℕ) (role : String) (ps : List String)
      → process_permissions fuel roles role ≡ some ps
      → has p ps ≡ true
      → Inherits roles p role
  unfolding process_permissions
  process_sound zero role ps e h = cc
  process_sound (suc fuel) role ps e h = elim (Option-cases (find_policy role roles)) [
    | inl missing ↦ absurd (ground arith)
    | inr (r, found) ↦
        elim (Option-cases (union_of (process_permissions fuel roles) r.inherit_from)) [
          | inl failed ↦ absurd (ground arith)
          | inr (xs, union) ↦ elim (Bool-cases (has p r.permissions)) [
            | inl mine ↦ own found mine
            | inr other ↦
                let (c, listed, inherits) =
                  union_sound (process_permissions fuel roles) (process_sound fuel) r.inherit_from
                    xs union (ground (arith, has-append p xs r.permissions)) in
                through found listed inherits
          ]
        ]
  ]

  union_member :
      (f : String → Option (List String)) (cs ps : List String) (c : String)
      → union_of f cs ≡ some ps
      → has c cs ≡ true
      → (xs : List String) × (f c ≡ some xs) × (has p xs ≡ true → has p ps ≡ true)
  unfolding union_of
  union_member f [] ps c e h = absurd (ground arith)
  union_member f (d ∷ cs) ps c e h = elim (Option-cases (f d)) [
    | inl failed ↦ absurd (ground arith)
    | inr (xs, found) ↦ elim (Option-cases (union_of f cs)) [
      | inl failed ↦ absurd (ground arith)
      | inr (ys, rest) ↦ elim (Bool-cases (str_eq d c)) [
        | inl e' ↦ (
          xs,
          rw (sym ((str_eq_iff d c).0 e')) found,
          λ in_xs. ground (arith, has-append p xs ys),
        )
        | inr ne ↦
            let (zs, of_c, kept) = union_member f cs ys c rest (ground arith) in
            (zs, of_c, λ in_zs. ground (arith, has-append p xs ys, kept in_zs))
      ]
    ]
  ]

  pub process_complete :
      (fuel : ℕ) (role : String) (ps : List String)
      → Inherits roles p role
      → process_permissions fuel roles role ≡ some ps
      → has p ps ≡ true
  unfolding process_permissions
  process_complete zero role ps i e = cc
  process_complete (suc fuel) role ps (own {r = r} found mine) e =
      elim (Option-cases (union_of (process_permissions fuel roles) r.inherit_from)) [
        | inl failed ↦ absurd (ground arith)
        | inr (xs, union) ↦ ground (arith, has-append p xs r.permissions)
      ]
  process_complete (suc fuel) role ps (through {child = c} {r = r} found listed i) e =
      elim (Option-cases (union_of (process_permissions fuel roles) r.inherit_from)) [
        | inl failed ↦ absurd (ground arith)
        | inr (xs, union) ↦
            let (zs, of_c, kept) =
              union_member (process_permissions fuel roles) r.inherit_from xs c union listed in
            ground (arith, has-append p xs r.permissions, kept (process_complete fuel c zs i of_c))
      ]

-- Where the permissions of a role are computed, they are exactly those that the role has itself
-- or inherits, at any depth.
pub process_permissions_iff :
    (roles : RoleTable) (fuel : ℕ) (role p : String) (ps : List String)
    → process_permissions fuel roles role ≡ some ps
    → (has p ps ≡ true) ↔ Inherits roles p role
process_permissions_iff roles fuel role p ps e =
    (process_sound roles p fuel role ps e, λ i. process_complete roles p fuel role ps i e)
