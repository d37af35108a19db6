-- ===== src/Namespaces/Examples.antt =====
-- Namespaces and metadata at concrete inputs.
use galaxy_ng.Prelude.{◌≡◌, refl, Text, codes, List, [], ◌∷◌, ◌++◌, none, some}
use galaxy_ng.Namespaces.Model.{
  Metadata, NamespaceRow, Fields, hashed_fields, namespace_named, new_namespace, get_or_create,
  save, updated, create_namespace_if_not_present, associate_namespace_metadata,
}
use galaxy_ng.Namespaces.Metadata.{associate_namespace_metadata_lem}

namespaces_code : Unit {0}
unfolding hashed_fields get_or_create save updated create_namespace_if_not_present
    associate_namespace_metadata
namespaces_code = tt

-- A hash that tells the company and the e-mail.
abbrev sha : Fields → Text
sha f = f.company ++ f.email

abbrev acme : Metadata
acme = record {
  meta_name = codes "acme";
  company = codes "Acme";
  email = codes "a@b";
  description = [];
  resources = [];
  links = (codes "home", codes "http://acme") ∷ [];
  avatar_sha256 = none;
  metadata_sha256 = codes "Acmea@b";
}

abbrev db : List NamespaceRow
db = new_namespace (codes "acme") ∷ new_namespace (codes "other") ∷ []

updated_row :
    namespace_named (codes "acme") (associate_namespace_metadata sha acme db)
    ≡ some (updated acme (new_namespace (codes "acme")))
unfolding namespaces_code
updated_row = refl

associate_namespace_metadata_lem_example :
    (ns : NamespaceRow) × (namespace_named (codes "acme") (associate_namespace_metadata sha acme db)
      ≡ some ns)
    × (sha (hashed_fields ns) ≡ codes "Acmea@b")
associate_namespace_metadata_lem_example = associate_namespace_metadata_lem sha acme db refl
