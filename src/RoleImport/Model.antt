-- ===== src/RoleImport/Model.antt =====
-- The rows that the import of roles reads and writes: galaxy_ng/app/api/v1/models.py. A name stands
-- for its row, as names of namespaces are unique.
use galaxy_ng.Prelude.{
  ℕ, Text, text_eq, Bool, List, [], ◌∷◌, ◌++◌, any, first, Option, none, some, if◌then◌else◌,
}
use galaxy_ng.RoleImport.Versions.{Version}

-- A standalone namespace with the v3 namespace that owns it, its provider.
pub record LegacyNamespaceRow : Type 0 where
  pub name : Text
  pub provider : Option Text

-- What an import writes, without the dates, tags, dependencies, platforms, the html of the readme and
-- the two copies of the reference.
pub record RoleMetadata : Type 0 where
  pub github_user : Option Text
  pub github_repo : Option Text
  pub clone_url : Text
  pub github_reference : Text
  pub commit : Text
  pub commit_message : Text
  pub issue_tracker_url : Text
  pub description : Text
  pub license : Text
  pub min_ansible_version : Text
  pub min_ansible_container_version : Text
  pub readme : Text
  pub versions : List Version

pub record LegacyRoleRow : Type 0 where
  pub id : ℕ
  pub namespace : Text
  pub name : Text
  pub full_metadata : RoleMetadata

pub record UserRow : Type 0 where
  pub id : ℕ
  pub username : Text
  pub is_superuser : Bool

-- The rows; roles in the order of their creation.
pub record Db : Type 0 where
  pub users : List UserRow
  pub legacy : List LegacyNamespaceRow
  pub v3 : List Text
  pub roles : List LegacyRoleRow

pub data ImportFailure : Type 0 where
  no_namespace permission_denied attribute_error key_error clone_failed bad_reference
        loader_failed :
      ImportFailure

-- An import changes rows one after the other, also before it fails.
pub data Outcome (A : Type 0) : Type 0 where
  ok : A → Db → Outcome A
  fail : ImportFailure → Db → Outcome A

abbrev pub Import : Type 0 → Type 0
Import A = Db → Outcome A

abbrev pub pure : {A : Type 0} → A → Import A
pure a d = ok a d

abbrev pub raise : {A : Type 0} → ImportFailure → Import A
raise f d = fail f d

abbrev pub after : {A B : Type 0} → Outcome A → (A → Import B) → Outcome B
after (ok a d) f = f a d
after (fail e d) f = fail e d

infixl 5 ◌>>=◌ ◌>>◌
abbrev pub ◌>>=◌ : {A B : Type 0} → Import A → (A → Import B) → Import B
(m >>= f) d = after (m d) f

abbrev pub ◌>>◌ : {A B : Type 0} → Import A → Import B → Import B
m >> k = m >>= λ _. k

abbrev pub find_legacy : Text → List LegacyNamespaceRow → Option LegacyNamespaceRow
find_legacy name = first (λ n. text_eq n.name name)

-- A namespace without a provider.
abbrev pub bare : Text → LegacyNamespaceRow
bare name = record { name = name; provider = none }

abbrev pub legacy_or_new : Option LegacyNamespaceRow → Text → Import LegacyNamespaceRow
legacy_or_new (some n) name d = ok n d
legacy_or_new none name d = ok (bare name) (record d { legacy = d.legacy ++ bare name ∷ [] })

-- `LegacyNamespace.objects.get_or_create(name=name)`
unfoldable pub get_or_create_legacy : Text → Import LegacyNamespaceRow
get_or_create_legacy name d = legacy_or_new (find_legacy name d.legacy) name d

-- `Namespace.objects.get_or_create(name=name)`
unfoldable pub get_or_create_v3 : Text → Import Text
get_or_create_v3 name d =
    if any (λ n. text_eq n name) d.v3
    then ok name d
    else ok name (record d { v3 = d.v3 ++ name ∷ [] })

abbrev pub with_provider : Text → Text → List LegacyNamespaceRow → List LegacyNamespaceRow
with_provider name p [] = []
with_provider name p (n ∷ ns) =
    (if text_eq n.name name then record n { provider = some p } else n) ∷ with_provider name p ns

-- `namespace.namespace = p; namespace.save()`
unfoldable pub set_provider : LegacyNamespaceRow → Text → Import LegacyNamespaceRow
set_provider n p d =
    ok (record n { provider = some p }) (record d { legacy = with_provider n.name p d.legacy })
