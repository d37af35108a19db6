-- ===== src/RoleImport/Providers.antt =====
-- galaxy_ng/app/utils/legacy.py: process_namespace. The keys that the source reads without a default
-- are fields; the id of a matched owner is left out, as the name that is generated does not use it.
use galaxy_ng.Prelude.{
  ℕ, ◌==◌, Text, codes, text_eq, contains, is_nil, leb, Bool, not, ◌&&◌, ◌||◌, List, [], ◌∷◌, ◌++◌,
  any, first, take, length, Option, none, some, if◌then◌else◌,
}
use galaxy_ng.Names.Digits.{str}
use galaxy_ng.Names.Namespaces.{generate_v3_namespace_from_attributes}
use galaxy_ng.RoleImport.Versions.{is_filled, tag_text}
use galaxy_ng.RoleImport.Model.{LegacyNamespaceRow, find_legacy, bare, with_provider}

-- A v3 namespace, with the usernames of its owners.
pub record Provider : Type 0 where
  pub name : Text
  pub avatar_url : Text
  pub company : Text
  pub email : Text
  pub description : Text
  pub owners : List Text

pub record Account : Type 0 where
  pub username : Text
  pub email : Text

pub record SyncTables : Type 0 where
  pub legacy : List LegacyNamespaceRow
  pub v3 : List Provider
  pub users : List Account

pub record OwnerInfo : Type 0 where
  pub github_id : Option ℕ
  pub username : Text

-- What the upstream galaxy says of a namespace.
pub record NamespaceInfo : Type 0 where
  pub avatar_url : Text
  pub company : Option Text
  pub email : Option Text
  pub description : Option Text
  pub owners : List OwnerInfo

-- The first group of each match of the pattern for urls is the parameter `findall`.
abbrev pub sanitize_avatar_url : (Text → List Text) → Text → Option Text
sanitize_avatar_url findall url = first (contains (codes "http")) (findall url)

abbrev pub blank_provider : Text → Provider
blank_provider name = record {
  name = name;
  avatar_url = [];
  company = [];
  email = [];
  description = [];
  owners = [];
}

abbrev pub provider_or_blank : Text → Option Provider → Provider
provider_or_blank name none = blank_provider name
provider_or_blank name (some p) = p

abbrev pub find_provider : Text → List Provider → Option Provider
find_provider name = first (λ (p : Provider). text_eq p.name name)

abbrev pub added_provider : Text → Option Provider → List Provider → List Provider
added_provider name none ps = ps ++ blank_provider name ∷ []
added_provider name (some p) ps = ps

abbrev pub added_legacy :
    Text → Option LegacyNamespaceRow → List LegacyNamespaceRow → List LegacyNamespaceRow
added_legacy name none ns = ns ++ bare name ∷ []
added_legacy name (some n) ns = ns

abbrev pub limited : Text → Text
limited t = if leb 60 (length t) then take 60 t else t

-- A field is set where upstream has a text and it is empty here, or by force.
abbrev pub filled : Bool → (Text → Text) → Option Text → Text → Text
filled force f new old = if is_filled new && (is_nil old || force) then f (tag_text new) else old

abbrev pub avatar_or : Option Text → Text → Text
avatar_or none old = old
avatar_or (some url) old = url

abbrev pub avatar : (Text → List Text) → Bool → Text → Text → Text
avatar findall force new old =
    if not (is_nil new) && (is_nil old || force)
    then avatar_or (sanitize_avatar_url findall new) old
    else old

abbrev pub updated_provider : (Text → List Text) → Bool → NamespaceInfo → Provider → Provider
updated_provider findall force info p = record p {
  avatar_url = avatar findall force info.avatar_url p.avatar_url;
  company = filled force limited info.company p.company;
  email = filled force (λ t. t) info.email p.email;
  description = filled force limited info.description p.description;
}

-- The row of a provider; one without changes is saved as it is.
unfoldable pub save_provider : Provider → List Provider → List Provider
save_provider p [] = []
save_provider p (q ∷ qs) = (if text_eq q.name p.name then p else q) ∷ save_provider p qs

abbrev pub unverified_email : OwnerInfo → Text
unverified_email o = elim o.github_id [
  | none ↦ o.username ++ codes "@localhost"
  | some i ↦
      if i == 0
      then o.username ++ codes "@localhost"
      else str i ++ codes "@GALAXY.GITHUB.UNVERIFIED.COM"
]

abbrev pub has_username : Text → Account → Bool
has_username t a = text_eq a.username t

abbrev pub matching_owner : Text → List Account → Option Account
matching_owner email users = elim (first (has_username email) users) [
  | some a ↦ some a
  | none ↦ first (λ (a : Account). text_eq a.email email) users
]

unfoldable pub set_email : Text → Text → List Account → List Account
set_email username email [] = []
set_email username email (a ∷ users) =
    (if text_eq a.username username then record a { email = email } else a)
    ∷ set_email username email users

abbrev pub with_email : Account → Text → List Account → List Account
with_email a email users = if is_nil a.email then set_email a.username email users else users

abbrev pub created_or_found : Option Account → Text → Text → List Account → List Account
created_or_found none username email users =
    users ++ record { username = username; email = email } ∷ []
created_or_found (some a) username email users = with_email a email users

-- The username of an owner, and the accounts behind it.
abbrev pub account_of : Option Account → OwnerInfo → Text → List Account → Text × List Account
account_of (some a) o email users = (a.username, with_email a email users)
account_of none o email users =
    (o.username, created_or_found (first (has_username o.username) users) o.username email users)

abbrev pub is_among : Text → List Text → Bool
is_among t = any (λ u. text_eq u t)

-- A role that is assigned twice is there once.
abbrev pub assign_owner : Text → List Text → List Text
assign_owner u owners = if is_among u owners then owners else owners ++ u ∷ []

abbrev pub add_owner : List Text → Text → List Text → List Text
add_owner current u owners = if is_among u current then owners else assign_owner u owners

unfoldable pub add_owners :
    List Text → List OwnerInfo → List Account × List Text → List Account × List Text
add_owners current [] s = s
add_owners current (o ∷ os) s =
    let found = account_of (matching_owner (unverified_email o) s.0) o (unverified_email o) s.0 in
    add_owners current os (found.1, add_owner current found.0 s.1)

module _ (name_regexp : Text → Bool) (findall : Text → List Text) where
  -- The rows behind the processing for a provider that is there.
  unfoldable pub update_provider : NamespaceInfo → Bool → Provider → SyncTables → SyncTables
  unfolding add_owners save_provider
  update_provider info force p t =
      let q = updated_provider findall force info p in
      let s = add_owners p.owners info.owners (t.users, p.owners) in
      record t { v3 = save_provider (record q { owners = s.1 }) t.v3; users = s.0 }

  -- A namespace that has a provider keeps it; another one gets the provider of the generated name.
  abbrev pub bind_provider : Text → Option Text → SyncTables → Text × SyncTables
  bind_provider name (some p) t = (p, t)
  bind_provider name none t =
      let p = generate_v3_namespace_from_attributes name_regexp name in
      (
        p,
        record t {
          legacy = with_provider name p t.legacy;
          v3 = added_provider p (find_provider p t.v3) t.v3;
        },
      )

  abbrev pub legacy_row : Text → Option LegacyNamespaceRow → LegacyNamespaceRow
  legacy_row name none = bare name
  legacy_row name (some n) = n

  unfoldable pub process_namespace : Text → NamespaceInfo → Bool → SyncTables → SyncTables
  unfolding update_provider
  process_namespace name info force t =
      let found = find_legacy name t.legacy in
      let row = legacy_row name found in
      let bound =
        bind_provider name row.provider (record t { legacy = added_legacy name found t.legacy }) in
      update_provider info force (provider_or_blank bound.0 (find_provider bound.0 bound.1.v3))
        bound.1
