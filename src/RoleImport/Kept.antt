-- ===== src/RoleImport/Kept.antt =====
-- galaxy_ng/app/utils/legacy.py: providers are kept.
use galaxy_ng.Prelude.{
  ◌≡◌, refl, sym, ap, ◌∙◌, inl, inr, Text, text_eq, Bool, false, List, [], ◌∷◌, ◌++◌, Option, none,
  some, Bool-cases, text_eq_iff,
}
use galaxy_ng.RoleImport.Model.{LegacyNamespaceRow, find_legacy, bare, with_provider}
use galaxy_ng.RoleImport.Providers.{
  SyncTables, NamespaceInfo, added_legacy, update_provider, bind_provider, legacy_row,
  process_namespace,
}

find_legacy-append :
    (x name : Text) (l : List LegacyNamespaceRow) (m : LegacyNamespaceRow)
    → find_legacy x l ≡ some m
    → find_legacy x (l ++ bare name ∷ []) ≡ some m
find_legacy-append x name [] m h = absurd cc
find_legacy-append x name (n ∷ l) m h = elim (Bool-cases (text_eq n.name x)) [
  | inl here ↦ rw here (rw here at h)
  | inr later ↦ rw later (find_legacy-append x name l m (rw later at h))
]

find_legacy-added :
    (x name : Text) (o : Option LegacyNamespaceRow) (l : List LegacyNamespaceRow)
    (m : LegacyNamespaceRow)
    → find_legacy x l ≡ some m
    → find_legacy x (added_legacy name o l) ≡ some m
find_legacy-added x name none l m h = find_legacy-append x name l m h
find_legacy-added x name (some n) l m h = h

find_legacy-with_provider :
    (x name p : Text) (l : List LegacyNamespaceRow)
    → text_eq name x ≡ false
    → find_legacy x (with_provider name p l) ≡ find_legacy x l
find_legacy-with_provider x name p [] h = refl
find_legacy-with_provider x name p (m ∷ l) h = elim (Bool-cases (text_eq m.name name)) [
  | inl same ↦
      let apart : text_eq m.name x ≡ false =
        ap (λ t. text_eq t x) ((text_eq_iff m.name name).0 same) ∙ h in
      rw (same, apart) (find_legacy-with_provider x name p l h)
  | inr other ↦ rw (other, find_legacy-with_provider x name p l h) refl
]

-- A name that is not the one of a namespace with a provider.
other_name :
    (x name p : Text) (o : Option LegacyNamespaceRow) (m : LegacyNamespaceRow)
    (l : List LegacyNamespaceRow)
    → find_legacy x l ≡ some m
    → m.provider ≡ some p
    → find_legacy name l ≡ o
    → ((n : LegacyNamespaceRow) → o ≡ some n → n.provider ≡ none)
    → text_eq name x ≡ false
other_name x name p o m l found has absent free = elim (Bool-cases (text_eq name x)) [
  | inr apart ↦ apart
  | inl same ↦
      let here : o ≡ some m =
        sym absent ∙ ap (λ t. find_legacy t l) ((text_eq_iff name x).0 same) ∙ found in
      let gone : m.provider ≡ none = free m here in absurd cc
]

module _ (name_regexp : Text → Bool) (findall : Text → List Text) where
  bind_kept :
      (x name p : Text) (o : Option LegacyNamespaceRow) (q : Option Text) (m : LegacyNamespaceRow)
      (t : SyncTables)
      → find_legacy x t.legacy ≡ some m
      → m.provider ≡ some p
      → find_legacy name t.legacy ≡ o
      → (legacy_row name_regexp findall name o).provider ≡ q
      → find_legacy x
          (bind_provider name_regexp findall name q
            (record t { legacy = added_legacy name o t.legacy })).1.legacy
        ≡ some m
  bind_kept x name p o (some q) m t found has absent bound =
      find_legacy-added x name o t.legacy m found
  bind_kept x name p o none m t found has absent bound =
      let free : (n : LegacyNamespaceRow) → o ≡ some n → n.provider ≡ none =
        λ n e. sym (ap (λ r. (legacy_row name_regexp findall name r).provider) e) ∙ bound in
      find_legacy-with_provider x name _ (added_legacy name o t.legacy)
        (other_name x name p o m t.legacy found has absent free)
      ∙ find_legacy-added x name o t.legacy m found

-- A standalone namespace that has a provider keeps its row, and so its provider, whichever
-- namespace is processed.
pub find_legacy-process_namespace :
    (name_regexp : Text → Bool) (findall : Text → List Text) (name x p : Text)
    (info : NamespaceInfo) (force : Bool) (m : LegacyNamespaceRow) (t : SyncTables)
    → find_legacy x t.legacy ≡ some m
    → m.provider ≡ some p
    → find_legacy x (process_namespace name_regexp findall name info force t).legacy ≡ some m
unfolding process_namespace update_provider
find_legacy-process_namespace name_regexp findall name x p info force m t found has =
    bind_kept name_regexp findall x name p (find_legacy name t.legacy)
      (legacy_row name_regexp findall name (find_legacy name t.legacy)).provider m t found has refl
      refl
