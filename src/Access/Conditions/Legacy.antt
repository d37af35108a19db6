-- ===== src/Access/Conditions/Legacy.antt =====
-- galaxy_ng/app/access_control/access_policy.py: the owners of legacy namespaces, and
-- `get_v3_namespace_owners` of galaxy_ng/app/utils/rbac.py.
use galaxy_ng.Prelude.{
  ℕ, ◌==◌, String, str_eq, Bool, true, false, not, ◌&&◌, List, [], ◌∷◌, ◌++◌, first, Option, none,
  some, if◌then◌else◌,
}
use galaxy_ng.Access.Model.{
  attribute_error, key_error, Result, returned, raised, ◌>>=◌, found_or, namespace, Perms,
  has_model_or_object_permissions,
}
use galaxy_ng.Access.Conditions.Repositories.{one_of}

pub record User : Type 0 where
  pub pk : ℕ
  pub username : String
  pub is_superuser : Bool

-- A v3 namespace: the members of the groups with a role on it, and the users with a role on it.
pub record Namespace : Type 0 where
  pub name : String
  pub group_members : List (List ℕ)
  pub users : List ℕ

pub record LegacyNamespace : Type 0 where
  pub pk : ℕ
  pub legacy_name : String
  pub v3_namespace : Option Namespace

pub record LegacyRole : Type 0 where
  pub role_pk : ℕ
  pub role_namespace : LegacyNamespace

abbrev pub concat {ℓ} : {A : Type ℓ} → List (List A) → List A
concat [] = []
concat (xs ∷ xss) = xs ++ concat xss

-- `if owner not in unique_owners: unique_owners.append(owner)`
abbrev pub unique_from : List ℕ → List ℕ → List ℕ
unique_from seen [] = seen
unique_from seen (x ∷ xs) = unique_from (if one_of x seen then seen else seen ++ x ∷ []) xs

unfoldable pub get_v3_namespace_owners : Namespace → List ℕ
get_v3_namespace_owners ns = unique_from [] (concat ns.group_members ++ ns.users)

-- The branch of the path, with what it reads from the request.
pub data Endpoint : Type 0 where
  imports removerole : (github_user : Option String) → Endpoint
  roles : (role_id : ℕ) → Endpoint
  namespaces : (ns_id : ℕ) → Endpoint
  ai_deny_index : (reference : String) → Endpoint
  other_path : Endpoint

abbrev pub own_name : User → Option String → Bool
own_name user none = false
own_name user (some name) = not (str_eq name "") && str_eq user.username name

-- The v3 namespace decides; without a legacy namespace its field cannot be read.
abbrev pub owner_by_v3 : User → Option LegacyNamespace → Result Bool
owner_by_v3 user none = raised attribute_error
owner_by_v3 user (some n) = elim n.v3_namespace [
  | none ↦ returned false
  | some v3 ↦ returned (one_of user.pk (get_v3_namespace_owners v3))
]

abbrev pub is_missing : Option LegacyNamespace → Bool
is_missing none = true
is_missing (some n) = false

pub data DenyIndexObject : Type 0 where
  v3_object : String → DenyIndexObject
  legacy_object : LegacyNamespace → DenyIndexObject
  unknown_object : DenyIndexObject

module _ (table : List LegacyNamespace) (role_table : List LegacyRole) where
  abbrev pub by_name : String → Option LegacyNamespace
  by_name name = first (λ n. str_eq n.legacy_name name) table

  -- The namespace and the GitHub user of the request; a missing role has no namespace to read.
  unfoldable pub related_namespace : Endpoint → Result (Option LegacyNamespace × Option String)
  related_namespace (imports user) =
      found_or key_error user >>= λ name. returned (by_name name, some name)
  related_namespace (removerole user) =
      found_or key_error user >>= λ name. returned (by_name name, some name)
  related_namespace (roles role_id) =
      found_or attribute_error (first (λ r. r.role_pk == role_id) role_table) >>= λ r.
      returned (some r.role_namespace, none)
  related_namespace (namespaces ns_id) = returned (first (λ n. n.pk == ns_id) table, none)
  related_namespace (ai_deny_index reference) = returned (by_name reference, none)
  related_namespace other_path = returned (none, none)

  unfoldable pub is_namespace_owner : User → Endpoint → Result Bool
  is_namespace_owner user endpoint =
      if user.is_superuser
      then returned true
      else related_namespace endpoint >>= λ found.
          if is_missing found.0 && own_name user found.1
          then returned true
          else owner_by_v3 user found.0

  unfoldable pub can_edit_ai_deny_index : Perms → User → Endpoint → DenyIndexObject → Result Bool
  can_edit_ai_deny_index u user endpoint (v3_object name) =
      returned (has_model_or_object_permissions u "galaxy.change_namespace" (namespace name))
  can_edit_ai_deny_index u user endpoint (legacy_object n) = is_namespace_owner user endpoint
  can_edit_ai_deny_index u user endpoint unknown_object = returned false
