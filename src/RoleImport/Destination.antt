-- ===== src/RoleImport/Destination.antt =====
-- galaxy_ng/app/api/v1/tasks.py: the namespaces and the name of an imported role.
use galaxy_ng.Prelude.{
  true, false, ◌==◌, Text, codes, text_eq, replace, Bool, false, ◌&&◌, [], any, first, Option, none,
  some, if◌then◌else◌,
}
use galaxy_ng.Names.Namespaces.{generate_v3_namespace_from_attributes}
use galaxy_ng.RoleImport.Versions.{is_filled, tag_text}
use galaxy_ng.RoleImport.Model.{
  attribute_error, LegacyNamespaceRow, LegacyRoleRow, UserRow, Db, ImportFailure, no_namespace,
  permission_denied, Import, pure, raise, ◌>>=◌, ◌>>◌, find_legacy, get_or_create_legacy,
  get_or_create_v3, set_provider,
}
use galaxy_ng.RoleImport.Services.{Loaded, Services, ImportRequest}

module _ (svc : Services) (req : ImportRequest) where
  abbrev pub find_user : Db → Option UserRow
  find_user d = first (λ u. text_eq u.username req.request_username) d.users

  abbrev pub creating_as : {A : Type 0} → Bool → ImportFailure → Import A → Import A
  creating_as true refusal k = k
  creating_as false refusal k = raise refusal

  -- Only a superuser creates namespaces, and only where the caller allows it.
  abbrev pub creating : {A : Type 0} → Option UserRow → ImportFailure → Import A → Import A
  creating none refusal k = raise attribute_error
  creating (some u) refusal k =
      creating_as (u.is_superuser && req.superuser_can_create_namespaces) refusal k

  abbrev pub base_or_new :
      Option UserRow → Option LegacyNamespaceRow → Text → Import LegacyNamespaceRow
  base_or_new user (some n) name = pure n
  base_or_new user none name = creating user no_namespace (get_or_create_legacy name)

  unfoldable pub base_namespace : Option UserRow → Text → Import LegacyNamespaceRow
  unfolding get_or_create_legacy
  base_namespace user name d = base_or_new user (find_legacy name d.legacy) name d

  abbrev pub owned : Option UserRow → LegacyNamespaceRow → Option Text → Import LegacyNamespaceRow
  owned user n (some p) = pure n
  owned user n none = creating user no_namespace (
      get_or_create_v3 (generate_v3_namespace_from_attributes svc.name_regexp n.name) >>= λ p.
      set_provider n p)

  unfoldable pub with_owner : Option UserRow → LegacyNamespaceRow → Import LegacyNamespaceRow
  unfolding get_or_create_v3 set_provider
  with_owner user n = owned user n n.provider

  abbrev pub is_owner : Option UserRow → Option Text → Bool
  is_owner none p = false
  is_owner (some u) none = false
  is_owner (some u) (some p) = any (λ i. i == u.id) (svc.owners p)

  -- The name of the namespace that the role goes to.
  abbrev pub destination_name : Text → Loaded → Text
  destination_name name loaded =
      if is_filled req.alternate_namespace_name
      then tag_text req.alternate_namespace_name
      else if is_filled loaded.namespace
      then tag_text loaded.namespace
      else name

  abbrev pub use_as : Bool → Option UserRow → Import (Unit {0})
  use_as true user = pure tt
  use_as false none = raise attribute_error
  use_as false (some u) = if u.is_superuser then pure tt else raise permission_denied

  -- An owner of the provider, or a superuser, may use a namespace that is there.
  abbrev pub may_use : Option UserRow → LegacyNamespaceRow → Import (Unit {0})
  may_use user n = use_as (is_owner user n.provider) user

  abbrev pub used_or_new :
      Option UserRow → Option LegacyNamespaceRow → Text → Import LegacyNamespaceRow
  used_or_new user (some n) name = may_use user n >> get_or_create_legacy name
  used_or_new user none name = creating user permission_denied (get_or_create_legacy name)

  unfoldable pub other_namespace : Option UserRow → Text → Import LegacyNamespaceRow
  unfolding get_or_create_legacy
  other_namespace user name d = used_or_new user (find_legacy name d.legacy) name d

  abbrev pub stay_or_move :
      Bool
      → Option UserRow
      → LegacyNamespaceRow
      → Option LegacyRoleRow
      → Text
      → Import (LegacyNamespaceRow × Option LegacyRoleRow)
  stay_or_move true user n role name = pure (n, role)
  stay_or_move false user n role name = other_namespace user name >>= λ m. pure (m, none)

  -- The namespace of the role, and the role that was found if the namespace stays.
  unfoldable pub destination :
      Option UserRow
      → LegacyNamespaceRow
      → Option LegacyRoleRow
      → Loaded
      → Import (LegacyNamespaceRow × Option LegacyRoleRow)
  unfolding other_namespace
  destination user n role loaded =
      stay_or_move (text_eq n.name (destination_name n.name loaded)) user n role
        (destination_name n.name loaded)

  -- The name of the role, by an order of precedence.
  unfoldable pub role_name_of : Loaded → Text
  role_name_of loaded =
      if is_filled req.alternate_role_name
      then tag_text req.alternate_role_name
      else if is_filled loaded.role_name
      then tag_text loaded.role_name
      else replace (codes "ansible-role-") [] 0 req.github_repo
