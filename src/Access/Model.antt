-- ===== src/Access/Model.antt =====
-- What the conditions of galaxy_ng/app/access_control/access_policy.py read: the user's permissions,
-- repositories, distributions and collections, and the outcome of a condition.
use galaxy_ng.Prelude.{
  ℕ, String, str_eq, Bool, true, false, ◌||◌, List, Option, none, some, first, if◌then◌else◌, ◌≡◌,
  refl, ◌⊎◌, inl, inr,
}

pub data Error : Type 0 where
  not_found validation_error does_not_exist attribute_error key_error index_error unsuitable : Error

-- A condition returns a value or raises.
pub data Result {ℓ} (A : Type ℓ) : Type ℓ where
  returned : A → Result A
  raised : Error → Result A

infixl 5 ◌>>=◌ ◌>>◌
abbrev pub ◌>>=◌ {ℓ κ} : {A : Type ℓ} {B : Type κ} → Result A → (A → Result B) → Result B
returned a >>= f = f a
raised e >>= f = raised e

abbrev pub ◌>>◌ {ℓ} : {B : Type ℓ} → Result (Unit {0}) → Result B → Result B
m >> k = m >>= λ _. k

-- The result of a lookup, or the exception of a missing row.
abbrev pub found_or {ℓ} : {A : Type ℓ} → Error → Option A → Result A
found_or e none = raised e
found_or e (some a) = returned a

-- What an object-level permission is asked for.
pub data Target : Type 0 where
  namespace : String → Target
  repository collection container_namespace other_object : ℕ → Target

-- `user.has_perm(p)` and `user.has_perm(p, obj)` of the user of the request.
pub record Perms : Type 0 where
  pub model : String → Bool
  pub object : String → Target → Bool

abbrev pub has_model_or_object_permissions : Perms → String → Target → Bool
has_model_or_object_permissions u permission obj = u.model permission || u.object permission obj

pub record Repo : Type 0 where
  pub pk : ℕ
  pub private : Bool
  pub pipeline : Option String

pub record Distro : Type 0 where
  pub base_path : String
  pub repo : Option Repo

pub record Collection : Type 0 where
  pub pk : ℕ
  pub namespace_name : String

-- The tables that the conditions query, and the settings that they read.
pub record Site : Type 0 where
  pub namespaces : List String
  pub distros : List Distro
  pub github_key : Option String
  pub github_secret : Option String
  pub require_signature : Bool
  pub unauthenticated_download : Bool
  pub unauthenticated_access : Bool
  pub resource_server : Bool
  pub entitlement_required : String

-- `AnsibleDistribution.objects.get(base_path=path)`
unfoldable pub get_distro : Site → String → Option Distro
get_distro site path = first (λ d. str_eq d.base_path path) site.distros

-- `models.Namespace.objects.get(name=name)`
unfoldable pub get_namespace : Site → String → Option String
get_namespace site name = first (λ n. str_eq n name) site.namespaces

-- The truth of a text that may be missing.
abbrev pub truthy : Option String → Bool
truthy none = false
truthy (some s) = if str_eq s "" then false else true

pub Result-cases {ℓ} :
    {A : Type ℓ} (r : Result A) → ((a : A) × (r ≡ returned a)) ⊎ ((e : Error) × (r ≡ raised e))
Result-cases (returned a) = inl (a, refl)
Result-cases (raised e) = inr (e, refl)
