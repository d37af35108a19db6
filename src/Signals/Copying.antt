-- ===== src/Signals/Copying.antt =====
-- galaxy_ng/app/signals/handlers.py: what `copy_permissions_role_to_role` adds and removes.
use galaxy_ng.Prelude.{
  ◌==◌, ◌≡◌, refl, ap, Text, text_eq, text_eq_sound, codes, Bool, true, false, not, ◌&&◌, ◌||◌,
  List, [], ◌∷◌, ◌++◌, map, any, keep, keep_ext, All, Bool-cases, inl, inr, arith,
}
use galaxy_ng.Signals.Model.{Permission, fullname}
use galaxy_ng.Signals.Permissions.{in_names, minus, pks, ids_to_add, ids_to_remove}

in_names_same : (n x : Text) (ys : List Text) → text_eq n x ≡ true → in_names n ys ≡ in_names x ys
in_names_same n x ys e = rw (text_eq_sound n x e)

in_names-minus :
    (n : Text) (xs ys : List Text)
    → in_names n (minus xs ys) ≡ (in_names n xs && not (in_names n ys))
in_names-minus n [] ys = refl
in_names-minus n (x ∷ xs) ys = elim (Bool-cases (text_eq x n)) [
  | inl e ↦ ground (arith, in_names-minus n xs ys, in_names_same x n ys e)
  | inr e ↦ ground (arith, in_names-minus n xs ys)
]

abbrev pub has_dot : Text → Bool
has_dot = any (λ c. c == b'.')

has_dot-append : (s t : Text) → has_dot (s ++ t) ≡ (has_dot s || has_dot t)
has_dot-append [] t = refl
has_dot-append (c ∷ s) t = ground (arith, has_dot-append s t)

has_dot-fullname : (p : Permission) → has_dot (fullname p) ≡ true
has_dot-fullname p = ground (arith, has_dot-append p.app_label (codes "." ++ p.codename))

-- No full name is a name without a dot.
in_names-fullnames :
    (c : Text) (ps : List Permission) → has_dot c ≡ false → in_names c (map fullname ps) ≡ false
in_names-fullnames c [] h = refl
in_names-fullnames c (p ∷ ps) h = elim (Bool-cases (text_eq (fullname p) c)) [
  | inr e ↦ rw e (in_names-fullnames c ps h)
  | inl e ↦
      let dotted = rw (text_eq_sound (fullname p) c e) at (has_dot-fullname p) in
      absurd (ground (arith, dotted))
]

removes_none :
    (names : List Text) (table : List Permission)
    → All (λ p. in_names p.codename names ≡ false) table
    → pks (keep (λ p. in_names p.codename names) table) ≡ []
removes_none names [] h = refl
removes_none names (p ∷ ps) (h, hs) = rw h (removes_none names ps hs)

removed_names :
    (table a b : List Permission)
    → All (λ p. has_dot p.codename ≡ false) table
    → All (λ p. in_names p.codename (minus (map fullname b) (map fullname a)) ≡ false) table
removed_names [] a b h = tt
removed_names (p ∷ ps) a b (h, hs) = (
  ground (
    arith,
    in_names-minus p.codename (map fullname b) (map fullname a),
    in_names-fullnames p.codename b h,
  ),
  removed_names ps a b hs,
)

-- Copying adds exactly the permissions of the destination's table whose full names the source has
-- and the destination lacks; where no code name holds a dot it removes nothing, whatever the
-- destination has beyond the source.
pub copy_permissions_effect :
    (table a b : List Permission)
    → All (λ p. has_dot p.codename ≡ false) table
    → (ids_to_add table a b
        ≡ pks (
            keep
              (λ p.
                in_names (fullname p) (map fullname a)
                && not (in_names (fullname p) (map fullname b)))
              table))
      × (ids_to_remove table a b ≡ [])
unfolding ids_to_add ids_to_remove
copy_permissions_effect table a b h = (
  ap pks (keep_ext _ _ table (λ p. in_names-minus (fullname p) (map fullname a) (map fullname b))),
  removes_none (minus (map fullname b) (map fullname a)) table (removed_names table a b h),
)
