-- ===== src/Migration/Preserved.antt =====
-- galaxy_ng/app/migrations/0029_move_perms_to_roles.py: what the roles of a set of permissions give.
use galaxy_ng.Prelude.{
  str_eq, str_eq_iff, ◌≡◌, refl, sym, ap, ◌∙◌, inl, inr, Bool, true, false, not, ◌&&◌, ◌||◌, List,
  [], ◌∷◌, any, all, map, Bool-cases, and_left, and_right,
}
use galaxy_ng.Migration.Translators.{Perm, TranslatorEntry}
use galaxy_ng.Migration.Roles.{
  same_perm, has_perm, minus_perms, as_set, MigratedRole, locked, single, SuperPermissions,
  is_role_given, left_over, with_role, translated, get_roles_from_permissions,
}

-- A locked role stands for the permissions of its row in the table, and the role that is made for a
-- permission for that one. What a locked role gives is set later on, by another hook.
abbrev pub stands_for : Perm → MigratedRole → Bool
stands_for p (locked e) = has_perm p e.permissions
stands_for p (single q) = same_perm q p

and_false : (b : Bool) → (b && false) ≡ false
and_false true = refl
and_false false = refl

same_perm_eq : (p q : Perm) → same_perm p q ≡ true → p ≡ q
same_perm_eq p q h =
    let labels = (str_eq_iff p.label q.label).0 (and_left (str_eq p.label q.label) _ h) in
    let names = (str_eq_iff p.codename q.codename).0 (and_right (str_eq p.label q.label) _ h) in
    ap (λ l. record { label = l; codename = p.codename }) labels
    ∙ ap (λ c. record { label = q.label; codename = c }) names

has_same : (p q : Perm) (ps : List Perm) → same_perm p q ≡ true → has_perm p ps ≡ has_perm q ps
has_same p q ps h = ap (λ r. has_perm r ps) (same_perm_eq p q h)

any-single : (p : Perm) (ps : List Perm) → any (stands_for p) (map single ps) ≡ has_perm p ps
any-single p [] = refl
any-single p (q ∷ ps) = ap (λ b. same_perm q p || b) (any-single p ps)

-- A permission that is taken away does not count, and one that is not does.
other_than :
    (p q : Perm) (rs : List Perm) (b : Bool)
    → has_perm q rs ≡ true
    → ((same_perm q p || b) && not (has_perm p rs)) ≡ (b && not (has_perm p rs))
other_than p q rs b taken = elim (Bool-cases (same_perm q p)) [
  | inl same ↦
      let gone : has_perm p rs ≡ true = sym (has_same q p rs same) ∙ taken in
      rw gone (and_false (same_perm q p || b) ∙ sym (and_false b))
  | inr other ↦ rw other refl
]

with_free :
    (p q : Perm) (rs : List Perm) (b : Bool)
    → has_perm q rs ≡ false
    → (same_perm q p || (b && not (has_perm p rs))) ≡ ((same_perm q p || b) && not (has_perm p rs))
with_free p q rs b free = elim (Bool-cases (same_perm q p)) [
  | inl same ↦
      let kept : has_perm p rs ≡ false = sym (has_same q p rs same) ∙ free in rw (same, kept) refl
  | inr other ↦ rw other refl
]

has_perm-minus_perms :
    (p : Perm) (ps rs : List Perm)
    → has_perm p (minus_perms ps rs) ≡ (has_perm p ps && not (has_perm p rs))
has_perm-minus_perms p [] rs = refl
has_perm-minus_perms p (q ∷ ps) rs = elim (Bool-cases (has_perm q rs)) [
  | inl taken ↦
      rw taken (has_perm-minus_perms p ps rs ∙ sym (other_than p q rs (has_perm p ps) taken))
  | inr free ↦ rw free (
      ap (λ b. same_perm q p || b) (has_perm-minus_perms p ps rs)
      ∙ with_free p q rs (has_perm p ps) free)
]

known :
    (p q : Perm) (ps : List Perm)
    → has_perm q ps ≡ true
    → (same_perm q p || has_perm p ps) ≡ has_perm p ps
known p q ps there = elim (Bool-cases (same_perm q p)) [
  | inl same ↦ rw same (sym (sym (has_same q p ps same) ∙ there))
  | inr other ↦ rw other refl
]

has_perm-as_set : (p : Perm) (ps : List Perm) → has_perm p (as_set ps) ≡ has_perm p ps
unfolding as_set
has_perm-as_set p [] = refl
has_perm-as_set p (q ∷ ps) = elim (Bool-cases (has_perm q (as_set ps))) [
  | inl there ↦
      rw there (has_perm-as_set p ps ∙ sym (known p q ps (sym (has_perm-as_set q ps) ∙ there)))
  | inr new ↦ rw new (ap (λ b. same_perm q p || b) (has_perm-as_set p ps))
]

all_has :
    (p : Perm) (rs ps : List Perm)
    → all (λ r. has_perm r ps) rs ≡ true
    → has_perm p rs ≡ true
    → has_perm p ps ≡ true
all_has p [] ps h k = absurd cc
all_has p (r ∷ rs) ps h k = elim (Bool-cases (same_perm r p)) [
  | inl same ↦ sym (has_same r p ps same) ∙ and_left (has_perm r ps) (all (λ x. has_perm x ps) rs) h
  | inr other ↦
      all_has p rs ps (and_right (has_perm r ps) (all (λ x. has_perm x ps) rs) h) (rw other at k)
]

-- What is given is given by the role of an entry, or by the roles for what the entry leaves.
kept_or_given :
    (given : Bool) (p : Perm) (e : TranslatorEntry) (ps : List Perm)
    → has_perm p ps ≡ true
    → (given && has_perm p e.permissions) ≡ false
    → has_perm p (left_over given e ps) ≡ true
kept_or_given false p e ps h k = h
kept_or_given true p e ps h k = has_perm-minus_perms p ps e.permissions ∙ rw (h, k) refl

any-with_role :
    (given : Bool) (p : Perm) (e : TranslatorEntry) (roles : List MigratedRole)
    → any (stands_for p) (with_role given e roles)
      ≡ ((given && has_perm p e.permissions) || any (stands_for p) roles)
any-with_role true p e roles = refl
any-with_role false p e roles = refl

or_true : (b : Bool) → (b || true) ≡ true
or_true true = refl
or_true false = refl

translated_keeps :
    (supers : SuperPermissions) (p : Perm) (es : List TranslatorEntry) (ps : List Perm)
    → has_perm p ps ≡ true
    → any (stands_for p) (translated supers es ps) ≡ true
unfolding translated
translated_keeps supers p [] ps h = any-single p ps ∙ h
translated_keeps supers p (e ∷ es) ps h =
    let given = is_role_given supers ps e in
    let rest = translated supers es (left_over given e ps) in
    any-with_role given p e rest ∙ elim (Bool-cases (given && has_perm p e.permissions)) [
      | inl here ↦ rw here refl
      | inr later ↦
          rw
            (translated_keeps supers p es (left_over given e ps)
              (kept_or_given given p e ps h later))
            (or_true (given && has_perm p e.permissions))
    ]

left_over_within :
    (given : Bool) (p : Perm) (e : TranslatorEntry) (ps : List Perm)
    → has_perm p ps ≡ false
    → has_perm p (left_over given e ps) ≡ false
left_over_within false p e ps h = h
left_over_within true p e ps h = has_perm-minus_perms p ps e.permissions ∙ rw h refl

given_within :
    (p : Perm) (e : TranslatorEntry) (ps : List Perm)
    → has_perm p ps ≡ false
    → (is_role_given [] ps e && has_perm p e.permissions) ≡ false
given_within p e ps h = elim (Bool-cases (all (λ r. has_perm r ps) e.permissions)) [
  | inr no_role ↦ rw no_role refl
  | inl role ↦ elim (Bool-cases (has_perm p e.permissions)) [
    | inr other ↦ rw (role, other) refl
    | inl here ↦ let there = all_has p e.permissions ps role here in absurd cc
  ]
]

translated_within :
    (p : Perm) (es : List TranslatorEntry) (ps : List Perm)
    → has_perm p ps ≡ false
    → any (stands_for p) (translated [] es ps) ≡ false
unfolding translated
translated_within p [] ps h = any-single p ps ∙ h
translated_within p (e ∷ es) ps h =
    let given = is_role_given [] ps e in
    any-with_role given p e (translated [] es (left_over given e ps))
    ∙ rw
        (
          given_within p e ps h,
          translated_within p es (left_over given e ps) (left_over_within given p e ps h),
        )
        refl

-- Whatever table of roles is used, and whatever permissions stand for a whole role, no permission is
-- lost: one of the roles stands for each of them.
get_roles_from_permissions-has_perm :
    (supers : SuperPermissions) (p : Perm) (table : List TranslatorEntry) (ps : List Perm)
    → has_perm p ps ≡ true
    → any (stands_for p) (get_roles_from_permissions ps table supers) ≡ true
unfolding get_roles_from_permissions
get_roles_from_permissions-has_perm supers p table ps h =
    translated_keeps supers p table (as_set ps) (has_perm-as_set p ps ∙ h)

-- Where no permission is enough for a whole role, the permissions that the new roles stand for, a
-- locked role for its row of the table and another role for the permission it is made for, are
-- exactly those that they were made from, whatever the table is.
pub get_roles_from_permissions_lem :
    (p : Perm) (table : List TranslatorEntry) (ps : List Perm)
    → any (stands_for p) (get_roles_from_permissions ps table []) ≡ has_perm p ps
unfolding get_roles_from_permissions
get_roles_from_permissions_lem p table ps = elim (Bool-cases (has_perm p ps)) [
  | inl there ↦ get_roles_from_permissions-has_perm [] p table ps there ∙ sym there
  | inr absent ↦ translated_within p table (as_set ps) (has_perm-as_set p ps ∙ absent) ∙ sym absent
]
