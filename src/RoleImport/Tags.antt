-- ===== src/RoleImport/Tags.antt =====
-- galaxy_ng/app/api/v1/tasks.py: the versions of a role after an import are the tags of its repository.
use mathlib.Core.Path.{subst}
use galaxy_ng.Prelude.{
  any-append, is_some, All, ℕ, ◌+◌, ◌≡◌, refl, sym, ap, ◌∙◌, inl, inr, Text, text_eq, text_eq_iff,
  text_eq_refl, is_nil, Bool, true, false, not, ◌||◌, ◌&&◌, List, [], ◌∷◌, ◌++◌, any, all, keep,
  map, Option, none, some, Bool-cases, arith,
}
use galaxy_ng.RoleImport.Versions.{
  Version, Tag, VersionLibraries, parse_version_tag, sort_versions, version_name, in_tags,
  new_versions, tag_names, reconciled, normalize_versions, compute_all_versions, or_unsorted,
  new_version, with_new, keyed, logged, completed, has_version,
}

-- What is sorted holds the same versions.
pub record IsSort (lib : VersionLibraries) : Type 0 where
  pub same :
      (vs ws : List Version)
      → lib.sort (map keyed vs) ≡ some ws
      → (q : Version → Bool) → any q ws ≡ any q vs

any-keep : (q p : Version → Bool) (l : List Version) → any q (keep p l) ≡ any (λ v. q v && p v) l
any-keep q p [] = refl
any-keep q p (v ∷ l) = ground (arith, any-keep q p l)

any_ext :
    (q p : Version → Bool) (l : List Version) → ((v : Version) → q v ≡ p v) → any q l ≡ any p l
any_ext q p [] h = refl
any_ext q p (v ∷ l) h = ground (arith, h v, any_ext q p l h)

any_never :
    (q : Version → Bool) (l : List Version) → ((v : Version) → q v ≡ false) → any q l ≡ false
any_never q [] h = refl
any_never q (v ∷ l) h = ground (arith, h v, any_never q l h)

any-sort_versions :
    (lib : VersionLibraries) (q : Version → Bool) (vs : List Version)
    → IsSort lib
    → any q (sort_versions lib vs) ≡ any q vs
unfolding sort_versions
any-sort_versions lib q vs h = go (lib.sort (map keyed vs)) refl
  where
    go :
        (o : Option (List Version))
        → lib.sort (map keyed vs) ≡ o
        → any q (or_unsorted vs o) ≡ any q vs
    go none e = refl
    go (some ws) e = h.same vs ws e q

in_tags-names :
    (t : Text) (vs : List Version)
    → in_tags t (map version_name vs) ≡ any (λ v. text_eq (version_name v) t) vs
in_tags-names t [] = refl
in_tags-names t (v ∷ vs) = ap (λ b. text_eq (version_name v) t || b) (in_tags-names t vs)

in_tags_same : (s t : Text) (ts : List Text) → text_eq s t ≡ true → in_tags s ts ≡ in_tags t ts
in_tags_same s t ts h = ap (λ u. in_tags u ts) ((text_eq_iff s t).0 h)

-- A version with the name of a tag.
abbrev pub has_name : Text → Version → Bool
has_name t v = text_eq (version_name v) t

parsed_given :
    (lib : VersionLibraries) (t v : Text) → parse_version_tag lib t ≡ some v → is_nil t ≡ false
unfolding parse_version_tag
parsed_given lib [] v e = absurd cc
parsed_given lib (c ∷ t) v e = refl

any-with_new :
    (q : Version → Bool) (o : Option Text) (known : Bool) (new : Text → Version)
    (rest more : List Version)
    → any q rest ≡ true
    → any q more ≡ true
    → any q (with_new o known new rest more) ≡ true
any-with_new q none known new rest more hr hm = hr
any-with_new q (some v) true new rest more hr hm = hr
any-with_new q (some v) false new rest more hr hm = ground (arith, hm)

has_name-new_version :
    (lib : VersionLibraries) (n : ℕ) (now : Text) (u : Tag) (v : Text)
    → is_nil u.name ≡ false
    → has_name u.name (new_version lib n now u v) ≡ true
has_name-new_version lib n now u v h = ground (arith, h, text_eq_refl u.name)

new_versions-has_name :
    (lib : VersionLibraries) (n : ℕ) (now t v : Text) (current : List Text) (tags : List Tag)
    → in_tags t (tag_names tags) ≡ true
    → parse_version_tag lib t ≡ some v
    → in_tags t current ≡ false
    → any (has_name t) (new_versions lib n now current tags) ≡ true
unfolding new_versions
new_versions-has_name lib n now t v current [] h p fresh = absurd cc
new_versions-has_name lib n now t v current (u ∷ us) h p fresh =
    elim (Bool-cases (text_eq u.name t)) [
      | inl same ↦
          let e : t ≡ u.name = sym ((text_eq_iff u.name t).0 same) in
          let p' : parse_version_tag lib u.name ≡ some v = rw (← e) p in
          let fresh' : in_tags u.name current ≡ false = rw (← e) fresh in
          let found = has_name-new_version lib n now u v (parsed_given lib u.name v p') in
          subst (λ x. any (has_name x) (new_versions lib n now current (u ∷ us)) ≡ true) (sym e)
            (rw (p', fresh') (ground (arith, found)))
      | inr other ↦
          let later : in_tags t (tag_names us) ≡ true = ground (arith, h, other) in
          any-with_new (has_name t) (parse_version_tag lib u.name) (in_tags u.name current)
            (new_version lib n now u) (new_versions lib n now current us)
            (new_versions lib (n + 1) now current us)
            (new_versions-has_name lib n now t v current us later p fresh)
            (new_versions-has_name lib (n + 1) now t v current us later p fresh)
    ]

-- A version that has the name of a tag of the repository survives.
kept_named :
    (t : Text) (names : List Text) (v : Version)
    → in_tags t names ≡ true
    → (has_name t v && in_tags (version_name v) names) ≡ has_name t v
kept_named t names v h = elim (Bool-cases (has_name t v)) [
  | inl same ↦ rw (same, in_tags_same (version_name v) t names same, h) refl
  | inr other ↦ rw other refl
]

reconciled-has_name :
    (lib : VersionLibraries) (now t v : Text) (versions : List Version) (tags : List Tag)
    → in_tags t (tag_names tags) ≡ true
    → parse_version_tag lib t ≡ some v
    → any (has_name t) (reconciled lib now versions tags) ≡ true
reconciled-has_name lib now t v versions tags h p =
    let new = new_versions lib 0 now (map version_name versions) tags in
    let names = tag_names tags in
    any-keep (has_name t) (λ w. in_tags (version_name w) names) (versions ++ new)
    ∙ any_ext (λ w. has_name t w && in_tags (version_name w) names) (has_name t) (versions ++ new)
        (λ w. kept_named t names w h)
    ∙ any-append (has_name t) versions new
    ∙ elim (Bool-cases (any (has_name t) versions)) [
      | inl old ↦ rw old refl
      | inr absent ↦
          rw
            (
              absent,
              new_versions-has_name lib 0 now t v (map version_name versions) tags h p
                  (in_tags-names t versions ∙ absent),
            )
            refl
    ]

or_true : (b : Bool) → (b || true) ≡ true
or_true true = refl
or_true false = refl

and_not : (b : Bool) → (not b && b) ≡ false
and_not true = refl
and_not false = refl

reconciled_only :
    (lib : VersionLibraries) (now : Text) (versions : List Version) (tags : List Tag)
    → any (λ w. not (in_tags (version_name w) (tag_names tags))) (reconciled lib now versions tags)
      ≡ false
reconciled_only lib now versions tags =
    let all = versions ++ new_versions lib 0 now (map version_name versions) tags in
    let p : Version → Bool = λ w. in_tags (version_name w) (tag_names tags) in
    any-keep (λ w. not (p w)) p all ∙ any_never (λ w. not (p w) && p w) all (λ w. and_not (p w))

some_same : (a b : List Version) → ◌≡◌ {A = Option (List Version)} (some a) (some b) → a ≡ b
some_same a b e = cc

-- What a successful run returns.
computed :
    (lib : VersionLibraries) (now : Text) (old out : List Version) (tags : List Tag)
    → compute_all_versions lib now old tags ≡ some out
    → (versions : List Version) × (sort_versions lib (reconciled lib now versions tags) ≡ out)
unfolding compute_all_versions
computed lib now old out tags e = go (normalize_versions lib old) e
  where
    was_logged : (b : Bool) (vs : List Version) → logged b vs ≡ some out → vs ≡ out
    was_logged true vs h = some_same vs out h
    was_logged false vs h = absurd cc

    go :
        (o : Option (List Version))
        → completed lib now tags o ≡ some out
        → (versions : List Version) × (sort_versions lib (reconciled lib now versions tags) ≡ out)
    go none h = absurd cc
    go (some versions) h =
        let sorted = sort_versions lib (reconciled lib now versions tags) in
        (versions, was_logged (all has_version sorted) sorted h)

-- The names of the tags themselves.
own_names : (ts more : List Tag) → All (λ u. in_tags u.name (tag_names (more ++ ts)) ≡ true) ts
own_names [] more = tt
own_names (u ∷ ts) more = (
  named_among u ts more,
  subst (λ l. All (λ v. in_tags v.name (tag_names l) ≡ true) ts) (appended_one u ts more)
      (own_names ts (more ++ u ∷ [])),
)
  where
    named_among :
        (u : Tag) (ts more : List Tag) → in_tags u.name (tag_names (more ++ u ∷ ts)) ≡ true
    named_among u ts [] = rw (text_eq_refl u.name) refl
    named_among u ts (m ∷ more) = rw (named_among u ts more) (or_true (text_eq m.name u.name))

    appended_one : (u : Tag) (ts more : List Tag) → (more ++ u ∷ []) ++ ts ≡ more ++ u ∷ ts
    appended_one u ts [] = refl
    appended_one u ts (m ∷ more) = ap (λ l. m ∷ l) (appended_one u ts more)

abbrev pub is_semantic : VersionLibraries → Tag → Bool
is_semantic lib u = is_some (parse_version_tag lib u.name)

-- A tag has an entry, or is no semantic version.
abbrev pub is_covered : VersionLibraries → List Version → Tag → Bool
is_covered lib out u = not (is_semantic lib u) || any (has_name u.name) out

module _ (lib : VersionLibraries) (now : Text) (old out : List Version) (tags : List Tag)
    (sorts : IsSort lib) (e : compute_all_versions lib now old tags ≡ some out) where
  covered : (u : Tag) → in_tags u.name (tag_names tags) ≡ true → is_covered lib out u ≡ true
  covered u h = go (parse_version_tag lib u.name) refl
    where
      go :
          (o : Option Text)
          → parse_version_tag lib u.name ≡ o
          → (not (is_some o) || any (has_name u.name) out) ≡ true
      go none p = refl
      go (some v) p =
          let (versions, same) = computed lib now old out tags e in
          ap (any (has_name u.name)) (sym same)
          ∙ any-sort_versions lib (has_name u.name) (reconciled lib now versions tags) sorts
          ∙ reconciled-has_name lib now u.name v versions tags h p

  all_covered :
      (ts : List Tag)
      → All (λ u. in_tags u.name (tag_names tags) ≡ true) ts
      → all (is_covered lib out) ts ≡ true
  all_covered [] h = refl
  all_covered (u ∷ ts) (h, more) = rw (covered u h, all_covered ts more) refl

  -- Where the sort of the library keeps the versions: after a successful computation every tag
  -- with a semantic version has an entry, and every entry has the name of a tag of the repository.
  pub compute_all_versions_lem :
      (all (is_covered lib out) tags ≡ true)
      × (any (λ w. not (in_tags (version_name w) (tag_names tags))) out ≡ false)
  compute_all_versions_lem =
      let (versions, same) = computed lib now old out tags e in
      let others : Version → Bool = λ w. not (in_tags (version_name w) (tag_names tags)) in
      (
        all_covered tags (own_names tags []),
        ap (any others) (sym same)
            ∙ any-sort_versions lib others (reconciled lib now versions tags) sorts
            ∙ reconciled_only lib now versions tags,
      )
