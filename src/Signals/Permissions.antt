-- ===== src/Signals/Permissions.antt =====
-- galaxy_ng/app/signals/handlers.py: `copy_permissions_role_to_role`.
use galaxy_ng.Prelude.{ℕ, Text, text_eq, Bool, not, List, [], ◌∷◌, ◌++◌, map, any, keep, String}
use galaxy_ng.Signals.Model.{Permission, fullname, Call, add_permissions, remove_permissions}

abbrev pub in_names : Text → List Text → Bool
in_names name = any (λ n. text_eq n name)

abbrev pub minus : List Text → List Text → List Text
minus xs ys = keep (λ x. not (in_names x ys)) xs

abbrev pub pks : List Permission → List ℕ
pks = map (λ p. p.pk)

-- The permissions of the destination's table to add: by their full names.
unfoldable pub ids_to_add : List Permission → List Permission → List Permission → List ℕ
ids_to_add table a b =
    pks (keep (λ p. in_names (fullname p) (minus (map fullname a) (map fullname b))) table)

-- The permissions to remove: the filter compares the code names alone.
unfoldable pub ids_to_remove : List Permission → List Permission → List Permission → List ℕ
ids_to_remove table a b =
    pks (keep (λ p. in_names p.codename (minus (map fullname b) (map fullname a))) table)

abbrev unless_empty : (List ℕ → Call) → List Text → List ℕ → List Call
unless_empty call [] ids = []
unless_empty call (n ∷ ns) ids = call ids ∷ []

unfoldable pub copy_permissions_role_to_role :
    String → List Permission → List Permission → List Permission → List Call
copy_permissions_role_to_role name table a b =
    unless_empty (add_permissions name) (minus (map fullname a) (map fullname b))
      (ids_to_add table a b)
    ++ unless_empty (remove_permissions name) (minus (map fullname b) (map fullname a))
        (ids_to_remove table a b)
