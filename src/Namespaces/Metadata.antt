-- ===== src/Namespaces/Metadata.antt =====
-- galaxy_ng/app/signals/handlers.py: a namespace after its metadata was saved.
use mathlib.Core.Path.{subst}
use galaxy_ng.Prelude.{
  ◌≡◌, refl, sym, ap, ◌∙◌, inl, inr, Text, text_eq, text_eq_sound, text_eq_refl, false, not, ◌||◌,
  List, [], ◌∷◌, ◌++◌, none, some, if◌then◌else◌, Bool-cases, Option-cases, arith,
}
use galaxy_ng.Namespaces.Model.{
  Metadata, NamespaceRow, Fields, hashed_fields, namespace_named, new_namespace, get_or_create,
  save, updated, create_namespace_if_not_present, is_missing_metadata, associate_namespace_metadata,
}

-- What pulp hashes of its metadata.
abbrev pub metadata_fields : Metadata → Fields
metadata_fields m = record {
  name = m.meta_name;
  company = m.company;
  email = m.email;
  description = m.description;
  resources = m.resources;
  links = m.links;
  avatar_sha256 = m.avatar_sha256;
}

find_name :
    (name : Text) (db : List NamespaceRow) (r : NamespaceRow)
    → namespace_named name db ≡ some r
    → r.name ≡ name
find_name name [] r e = cc
find_name name (s ∷ db) r e = elim (Bool-cases (text_eq s.name name)) [
  | inl here ↦ ground (arith, text_eq_sound s.name name here)
  | inr other ↦ find_name name db r (ground arith)
]

find_append :
    (name : Text) (db : List NamespaceRow)
    → namespace_named name db ≡ none
    → namespace_named name (db ++ new_namespace name ∷ []) ≡ some (new_namespace name)
find_append name [] e = rw (text_eq_refl name) refl
find_append name (s ∷ db) e = elim (Bool-cases (text_eq s.name name)) [
  | inl here ↦ absurd (ground arith)
  | inr other ↦ rw other (find_append name db (ground arith))
]

find_save :
    (ns r : NamespaceRow) (db : List NamespaceRow)
    → namespace_named ns.name db ≡ some r
    → namespace_named ns.name (save ns db) ≡ some ns
unfolding save
find_save ns r [] e = cc
find_save ns r (s ∷ db) e = elim (Bool-cases (text_eq s.name ns.name)) [
  | inl here ↦ rw (here, text_eq_refl ns.name) refl
  | inr other ↦ rw (other, other) (find_save ns r db (ground arith))
]

-- `get_or_create` gives the row that the table holds under the name afterwards.
get_or_create_lem :
    (name : Text) (db : List NamespaceRow)
    → let (ns, (created, db')) = get_or_create name db in
      (namespace_named name db' ≡ some ns) × (ns.name ≡ name)
unfolding get_or_create
get_or_create_lem name db = elim (Option-cases (namespace_named name db)) [
  | inl missing ↦ rw (missing, get_or_create) (find_append name db missing, refl)
  | inr (r, found) ↦ rw (found, get_or_create) (found, find_name name db r found)
]

updated_name : (m : Metadata) (ns : NamespaceRow) → (updated m ns).name ≡ ns.name
unfolding updated
updated_name m ns = refl

updated_has :
    (m : Metadata) (ns : NamespaceRow)
    → is_missing_metadata (updated m ns).last_created_pulp_metadata ≡ false
unfolding updated
updated_has m ns = refl

hashed_fields-updated :
    (m : Metadata) (ns : NamespaceRow)
    → ns.name ≡ m.meta_name
    → hashed_fields (updated m ns) ≡ metadata_fields m
unfolding hashed_fields updated
hashed_fields-updated m ns e = ap (λ n. record (metadata_fields m) { name = n }) e

saved :
    (name : Text) (ns r : NamespaceRow) (db : List NamespaceRow)
    → ns.name ≡ name
    → namespace_named name db ≡ some r
    → namespace_named name (save ns db) ≡ some ns
saved name ns r db named found =
    subst (λ n. namespace_named n db ≡ some r → namespace_named n (save ns db) ≡ some ns) named
      (find_save ns r db) found

associated :
    (sha : Fields → Text) (m : Metadata) (db : List NamespaceRow)
    → m.metadata_sha256 ≡ sha (metadata_fields m)
    → (ns : NamespaceRow) × (namespace_named m.meta_name (associate_namespace_metadata sha m db)
        ≡ some ns)
      × (sha (hashed_fields ns) ≡ m.metadata_sha256)
      × (is_missing_metadata ns.last_created_pulp_metadata ≡ false)
unfolding associate_namespace_metadata
associated sha m db own =
    let (ns, (created, db')) = get_or_create m.meta_name db in
    let (found, named) = get_or_create_lem m.meta_name db in
    elim (Bool-cases (
      created
      || is_missing_metadata ns.last_created_pulp_metadata
      || not (text_eq (sha (hashed_fields ns)) m.metadata_sha256))) [
        | inl update ↦ (
          updated m ns,
          rw update (saved m.meta_name (updated m ns) ns db' (updated_name m ns ∙ named) found),
          ap sha (hashed_fields-updated m ns named) ∙ sym own,
          updated_has m ns,
        )
        | inr leave ↦ (
          ns,
          rw leave found,
          text_eq_sound (sha (hashed_fields ns)) m.metadata_sha256 (ground arith),
          ground arith,
        )
      ]

unchanged :
    (sha : Fields → Text) (m : Metadata) (db : List NamespaceRow) (ns : NamespaceRow)
    → namespace_named m.meta_name db ≡ some ns
    → is_missing_metadata ns.last_created_pulp_metadata ≡ false
    → sha (hashed_fields ns) ≡ m.metadata_sha256
    → associate_namespace_metadata sha m db ≡ db
unfolding associate_namespace_metadata get_or_create
unchanged sha m db ns found has_it same =
    rw (found, get_or_create) (rw (has_it, same, text_eq_refl m.metadata_sha256) refl)

module _ (sha : Fields → Text) (m : Metadata) (db : List NamespaceRow) where
  -- After the metadata of a namespace was saved there is a namespace of its name, and the hash of
  -- the namespace's fields is that of the metadata, if the metadata has the hash of its own
  -- fields.
  pub associate_namespace_metadata_lem :
      m.metadata_sha256 ≡ sha (metadata_fields m)
      → (ns : NamespaceRow) × (namespace_named m.meta_name (associate_namespace_metadata sha m db)
          ≡ some ns)
        × (sha (hashed_fields ns) ≡ m.metadata_sha256)
  associate_namespace_metadata_lem own =
      let (ns, found, same, has_it) = associated sha m db own in (ns, found, same)

  -- Saving the same metadata again changes nothing, if the metadata has the hash of its own
  -- fields.
  pub associate-associate :
      m.metadata_sha256 ≡ sha (metadata_fields m)
      → associate_namespace_metadata sha m (associate_namespace_metadata sha m db)
        ≡ associate_namespace_metadata sha m db
  associate-associate own =
      let (ns, found, same, has_it) = associated sha m db own in
      unchanged sha m (associate_namespace_metadata sha m db) ns found has_it same

find_append_other :
    (name other : Text) (db : List NamespaceRow)
    → text_eq name other ≡ false
    → namespace_named other (db ++ new_namespace name ∷ []) ≡ namespace_named other db
find_append_other name other [] e = rw e refl
find_append_other name other (s ∷ db) e =
    ap (λ o. if text_eq s.name other then some s else o) (find_append_other name other db e)

find_save_other :
    (ns : NamespaceRow) (other : Text) (db : List NamespaceRow)
    → text_eq ns.name other ≡ false
    → namespace_named other (save ns db) ≡ namespace_named other db
unfolding save
find_save_other ns other [] e = refl
find_save_other ns other (s ∷ db) e = elim (Bool-cases (text_eq s.name ns.name)) [
  | inl same ↦
      let unlike : text_eq s.name other ≡ false = rw (text_eq_sound s.name ns.name same) e in
      rw (same, e, unlike) (find_save_other ns other db e)
  | inr differs ↦
      rw differs
        (ap (λ o. if text_eq s.name other then some s else o) (find_save_other ns other db e))
]

get_or_create_other :
    (name other : Text) (db : List NamespaceRow)
    → text_eq name other ≡ false
    → namespace_named other (get_or_create name db).1.1 ≡ namespace_named other db
unfolding get_or_create
get_or_create_other name other db e = elim (Option-cases (namespace_named name db)) [
  | inl missing ↦ rw (missing, get_or_create) (find_append_other name other db e)
  | inr (r, found) ↦ rw (found, get_or_create) refl
]

-- Saving the metadata of one namespace, or a collection of it, leaves the namespaces of all other
-- names as they were.
pub associate-other_name :
    (sha : Fields → Text) (m : Metadata) (other : Text) (db : List NamespaceRow)
    → text_eq m.meta_name other ≡ false
    → (namespace_named other (associate_namespace_metadata sha m db) ≡ namespace_named other db)
      × (namespace_named other (create_namespace_if_not_present m.meta_name db)
          ≡ namespace_named other db)
unfolding associate_namespace_metadata create_namespace_if_not_present
associate-other_name sha m other db e =
    let (ns, (created, db')) = get_or_create m.meta_name db in
    let (found, named) = get_or_create_lem m.meta_name db in
    let same = get_or_create_other m.meta_name other db e in
    let unlike : text_eq (updated m ns).name other ≡ false = rw (updated_name m ns ∙ named) e in
    (
      elim (Bool-cases (
          created
          || is_missing_metadata ns.last_created_pulp_metadata
          || not (text_eq (sha (hashed_fields ns)) m.metadata_sha256))) [
            | inl update ↦ rw update (find_save_other (updated m ns) other db' unlike ∙ same)
            | inr leave ↦ rw leave same
          ],
      same,
    )
