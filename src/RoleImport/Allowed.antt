-- ===== src/RoleImport/Allowed.antt =====
-- galaxy_ng/app/api/v1/tasks.py: who an import lets change namespaces.
use galaxy_ng.Prelude.{◌≡◌, refl, ◌∙◌, Text, text_eq, Bool, true, false, first, Option, none, some}
use galaxy_ng.RoleImport.Versions.{compute_all_versions}
use galaxy_ng.RoleImport.Model.{
  LegacyNamespaceRow, LegacyRoleRow, UserRow, Db, ImportFailure, no_namespace, permission_denied,
  loader_failed, key_error, Outcome, ok, fail, Import, after, pure, find_legacy,
  get_or_create_legacy,
}
use galaxy_ng.RoleImport.Services.{
  Services, ImportRequest, RealRole, Loaded, GitRepo, Commit, Checkout, checked_out, refused,
  find_real_role, do_git_checkout,
}
use galaxy_ng.RoleImport.Destination.{
  find_user, creating, base_or_new, base_namespace, owned, with_owner, is_owner, use_as,
  used_or_new, other_namespace, stay_or_move, destination, destination_name, role_name_of,
}
use galaxy_ng.RoleImport.Import.{
  is_role, role_or_new, get_or_create_role, kept_role, role_row, needed, store_role, with_checkout,
  clone_url_of, given_reference, legacy_role_import,
}

abbrev pub is_super : Option UserRow → Bool
is_super none = false
is_super (some u) = u.is_superuser

-- The rows behind an import, also where it fails.
abbrev pub rows : {A : Type 0} → Outcome A → Db
rows (ok a d) = d
rows (fail f d) = d

-- The same namespaces of both kinds.
abbrev pub Same : Db → Db → Type 0
Same d e = (e.legacy ≡ d.legacy) × (e.v3 ≡ d.v3)

abbrev Keeps : {A : Type 0} → Import A → Type 0
Keeps m = (d : Db) → Same d (rows (m d))

after-Same :
    {A B : Type 0} (o : Outcome A) (f : A → Import B) (d : Db)
    → Same d (rows o)
    → ((a : A) → Keeps (f a))
    → Same d (rows (after o f))
after-Same (ok a c) f d s k = let next = k a c in (next.0 ∙ s.0, next.1 ∙ s.1)
after-Same (fail x c) f d s k = s

get_or_create_legacy-found :
    (name : Text) (n : LegacyNamespaceRow) (d : Db)
    → find_legacy name d.legacy ≡ some n
    → get_or_create_legacy name d ≡ ok n d
unfolding get_or_create_legacy
get_or_create_legacy-found name n d h = rw h refl

role_row-Keeps :
    (namespace name : Text) (o : Option LegacyRoleRow) → Keeps (role_row namespace name o)
unfolding role_row get_or_create_role
role_row-Keeps namespace name (some r) d = (refl, refl)
role_row-Keeps namespace name none d = go (first (is_role namespace name) d.roles)
  where
    go : (o : Option LegacyRoleRow) → Same d (rows (role_or_new o namespace name d))
    go (some r) = (refl, refl)
    go none = (refl, refl)

needed-Keeps :
    {A : Type 0} (f : ImportFailure) (o : Option A) (k : A → Import LegacyRoleRow)
    → ((a : A) → Keeps (k a))
    → Keeps (needed f o k)
needed-Keeps f none k h d = (refl, refl)
needed-Keeps f (some a) k h d = h a d

module _ (svc : Services) (req : ImportRequest) (user : Option UserRow) where
  creating-Keeps :
      {A : Type 0} (f : ImportFailure) (k : Import A)
      → is_super user ≡ false
      → Keeps (creating svc req user f k)
  creating-Keeps f k plain d = go user plain
    where
      go : (o : Option UserRow) → is_super o ≡ false → Same d (rows (creating svc req o f k d))
      go none h = (refl, refl)
      go (some u) h = rw h (refl, refl)

  base_namespace-Keeps :
      (name : Text) → is_super user ≡ false → Keeps (base_namespace svc req user name)
  unfolding base_namespace
  base_namespace-Keeps name plain d = go (find_legacy name d.legacy)
    where
      go : (o : Option LegacyNamespaceRow) → Same d (rows (base_or_new svc req user o name d))
      go (some n) = (refl, refl)
      go none = creating-Keeps no_namespace (get_or_create_legacy name) plain d

  with_owner-Keeps :
      (n : LegacyNamespaceRow) → is_super user ≡ false → Keeps (with_owner svc req user n)
  unfolding with_owner
  with_owner-Keeps n plain d = go n.provider
    where
      go : (o : Option Text) → Same d (rows (owned svc req user n o d))
      go (some p) = (refl, refl)
      go none = creating-Keeps no_namespace _ plain d

  use_as-then :
      {B : Type 0} (owner : Bool) (k : Unit {0} → Import B) (d : Db)
      → is_super user ≡ false
      → Same d (rows (k tt d))
      → Same d (rows (after (use_as svc req owner user d) k))
  use_as-then owner k d plain s = go owner user plain
    where
      go :
          (b : Bool) (o : Option UserRow)
          → is_super o ≡ false
          → Same d (rows (after (use_as svc req b o d) k))
      go true o h = s
      go false none h = (refl, refl)
      go false (some u) h = rw h (refl, refl)

  other_namespace-Keeps :
      (name : Text) → is_super user ≡ false → Keeps (other_namespace svc req user name)
  unfolding other_namespace
  other_namespace-Keeps name plain d = go (find_legacy name d.legacy) refl
    where
      go :
          (o : Option LegacyNamespaceRow)
          → find_legacy name d.legacy ≡ o
          → Same d (rows (used_or_new svc req user o name d))
      go (some n) found =
          use_as-then (is_owner svc req user n.provider) (λ _. get_or_create_legacy name) d plain
            (rw (get_or_create_legacy-found name n d found) (refl, refl))
      go none absent = creating-Keeps permission_denied (get_or_create_legacy name) plain d

  destination-Keeps :
      (n : LegacyNamespaceRow) (role : Option LegacyRoleRow) (loaded : Loaded)
      → is_super user ≡ false
      → Keeps (destination svc req user n role loaded)
  unfolding destination
  destination-Keeps n role loaded plain d = go (text_eq n.name name)
    where
      name : Text
      name = destination_name svc req n.name loaded

      go : (b : Bool) → Same d (rows (stay_or_move svc req b user n role name d))
      go true = (refl, refl)
      go false =
          after-Same (other_namespace svc req user name d) (λ m. pure (m, none)) d
            (other_namespace-Keeps name plain d) (λ m c. (refl, refl))

  store_role-Keeps :
      (real : RealRole) (n : LegacyNamespaceRow) (url : Text) (repo : GitRepo) (ref : Text)
      (commit : Commit)
      → is_super user ≡ false
      → Keeps (store_role svc req user real n url repo ref commit)
  unfolding store_role
  store_role-Keeps real n url repo ref commit plain =
      needed-Keeps loader_failed (svc.load repo n.name) _ λ loaded d.
        after-Same (destination svc req user n real.role loaded d) _ d
          (destination-Keeps n real.role loaded plain d)
          λ dest c.
            after-Same
              (role_row dest.0.name (role_name_of svc req loaded)
                (kept_role (role_name_of svc req loaded) dest.1) c)
              _ c (role_row-Keeps dest.0.name (role_name_of svc req loaded) _ c)
              λ role.
                needed-Keeps key_error
                  (compute_all_versions svc.versions svc.now role.full_metadata.versions repo.tags)
                  _ (λ versions b. (refl, refl))

  with_checkout-Keeps :
      (real : RealRole) (n : LegacyNamespaceRow) (url : Text) (o : Checkout)
      → is_super user ≡ false
      → Keeps (with_checkout svc req user real n url o)
  with_checkout-Keeps real n url (refused f) plain d = (refl, refl)
  with_checkout-Keeps real n url (checked_out repo ref commit) plain d =
      store_role-Keeps real n url repo ref commit plain d

-- An import for a user who is not a superuser, or for a user that does not exist, creates no
-- namespace of either kind and gives no namespace a new provider, whether the import succeeds or
-- fails.
pub legacy_role_import-Same :
    (svc : Services) (req : ImportRequest) (d : Db)
    → is_super (find_user svc req d) ≡ false
    → Same d (rows (legacy_role_import svc req d))
unfolding legacy_role_import
legacy_role_import-Same svc req d plain =
    let user = find_user svc req d in
    let real = find_real_role req.github_user req.github_repo d.roles in
    after-Same (base_namespace svc req user real.namespace_name d) _ d
      (base_namespace-Keeps svc req user real.namespace_name plain d)
      λ base c.
        after-Same (with_owner svc req user base c) _ c (with_owner-Keeps svc req user base plain c)
          λ n.
            with_checkout-Keeps svc req user real n (clone_url_of svc req real)
              (do_git_checkout svc (clone_url_of svc req real) (given_reference svc req)) plain
