-- ===== src/RoleImport/Bound.antt =====
-- galaxy_ng/app/utils/legacy.py: the provider of a namespace after its processing.
use galaxy_ng.Prelude.{
  and_left, and_right, ℕ, ◌≤◌, ◌≡◌, refl, inl, inr, Text, text_eq, is_nil, leb, Bool, true, false,
  ◌&&◌, ◌||◌, List, [], ◌∷◌, ◌++◌, all, take, length, length-take-le, Option, none, some,
  Bool-cases, arith,
}
use galaxy_ng.RoleImport.Versions.{is_filled, tag_text}
use galaxy_ng.RoleImport.Model.{find_legacy}
use galaxy_ng.RoleImport.Providers.{
  Provider, SyncTables, NamespaceInfo, provider_or_blank, blank_provider, find_provider,
  added_provider, added_legacy, limited, filled, updated_provider, save_provider, update_provider,
  bind_provider, legacy_row, process_namespace,
}

-- A company and a description of at most sixty characters.
abbrev pub is_short : Provider → Bool
is_short p = leb (length p.company) 60 && leb (length p.description) 60

within : (n : ℕ) → n ≤ 60 → leb n 60 ≡ true
within n h = ground (arith, h)

below : (n : ℕ) → leb 60 n ≡ false → leb n 60 ≡ true
below n h = ground (arith, h)

limited_short : (t : Text) → leb (length (limited t)) 60 ≡ true
limited_short t = elim (Bool-cases (leb 60 (length t))) [
  | inl long ↦ rw long (within (length (take 60 t)) (length-take-le 60 t))
  | inr short ↦ rw short (below (length t) short)
]

filled_short :
    (force : Bool) (new : Option Text) (old : Text)
    → leb (length old) 60 ≡ true
    → leb (length (filled force limited new old)) 60 ≡ true
filled_short force new old h = elim (Bool-cases (is_filled new && (is_nil old || force))) [
  | inl set ↦ rw set (limited_short (tag_text new))
  | inr left ↦ rw left h
]

both_true : (a b : Bool) → a ≡ true → b ≡ true → (a && b) ≡ true
both_true a b ha hb = rw (ha, hb) refl

updated_short :
    (findall : Text → List Text) (force : Bool) (info : NamespaceInfo) (p : Provider)
    → is_short p ≡ true
    → is_short (updated_provider findall force info p) ≡ true
updated_short findall force info p h =
    both_true _ _
      (filled_short force info.company p.company
        (and_left (leb (length p.company) 60) (leb (length p.description) 60) h))
      (filled_short force info.description p.description
        (and_right (leb (length p.company) 60) (leb (length p.description) 60) h))

save_provider_short :
    (p : Provider) (ps : List Provider)
    → is_short p ≡ true
    → all is_short ps ≡ true
    → all is_short (save_provider p ps) ≡ true
unfolding save_provider
save_provider_short p [] hp h = refl
save_provider_short p (q ∷ qs) hp h =
    let rest = save_provider_short p qs hp (and_right (is_short q) (all is_short qs) h) in
    elim (Bool-cases (text_eq q.name p.name)) [
      | inl same ↦ rw (same, hp, rest) refl
      | inr other ↦ rw (other, and_left (is_short q) (all is_short qs) h, rest) refl
    ]

found_short :
    (name : Text) (ps : List Provider)
    → all is_short ps ≡ true
    → is_short (provider_or_blank name (find_provider name ps)) ≡ true
found_short name [] h = refl
found_short name (q ∷ qs) h = elim (Bool-cases (text_eq q.name name)) [
  | inl same ↦ rw same (and_left (is_short q) (all is_short qs) h)
  | inr other ↦ rw other (found_short name qs (and_right (is_short q) (all is_short qs) h))
]

appended_short :
    (name : Text) (ps : List Provider)
    → all is_short ps ≡ true
    → all is_short (ps ++ blank_provider name ∷ []) ≡ true
appended_short name [] h = refl
appended_short name (q ∷ qs) h =
    both_true _ _ (and_left (is_short q) (all is_short qs) h)
      (appended_short name qs (and_right (is_short q) (all is_short qs) h))

added_short :
    (name : Text) (o : Option Provider) (ps : List Provider)
    → all is_short ps ≡ true
    → all is_short (added_provider name o ps) ≡ true
added_short name none ps h = appended_short name ps h
added_short name (some p) ps h = h

module _ (name_regexp : Text → Bool) (findall : Text → List Text) where
  bound_short :
      (name : Text) (o : Option Text) (t : SyncTables)
      → all is_short t.v3 ≡ true
      → all is_short (bind_provider name_regexp findall name o t).1.v3 ≡ true
  bound_short name none t h = added_short _ _ t.v3 h
  bound_short name (some p) t h = h

  update_provider_short :
      (info : NamespaceInfo) (force : Bool) (p : Provider) (t : SyncTables)
      → is_short p ≡ true
      → all is_short t.v3 ≡ true
      → all is_short (update_provider name_regexp findall info force p t).v3 ≡ true
  unfolding update_provider
  update_provider_short info force p t hp h =
      save_provider_short _ t.v3 (updated_short findall force info p hp) h

-- If no v3 namespace has a company or a description of more than sixty characters, none has one
-- after a namespace was processed, however long the texts of upstream are.
pub is_short-process_namespace :
    (name_regexp : Text → Bool) (findall : Text → List Text) (name : Text) (info : NamespaceInfo)
    (force : Bool) (t : SyncTables)
    → all is_short t.v3 ≡ true
    → all is_short (process_namespace name_regexp findall name info force t).v3 ≡ true
unfolding process_namespace
is_short-process_namespace name_regexp findall name info force t h =
    let found = find_legacy name t.legacy in
    let row = legacy_row name_regexp findall name found in
    let bound =
      bind_provider name_regexp findall name row.provider
        (record t { legacy = added_legacy name found t.legacy }) in
    let short =
      bound_short name_regexp findall name row.provider
        (record t { legacy = added_legacy name found t.legacy }) h in
    update_provider_short name_regexp findall info force
      (provider_or_blank bound.0 (find_provider bound.0 bound.1.v3)) bound.1
      (found_short bound.0 bound.1.v3 short) short
