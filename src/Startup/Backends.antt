-- ===== src/Startup/Backends.antt =====
-- galaxy_ng/app/dynaconf_hooks.py: which backends of authentication there are.
use galaxy_ng.Prelude.{
  ◌+◌, ◌≤◌, ◌≡◌, refl, ap, ◌∙◌, inl, inr, ltb, String, str_eq, str_eq_iff, str_eq_refl, Bool, true,
  not, ◌&&◌, ◌||◌, List, [], ◌∷◌, ◌++◌, keep, length, Option, none, some, Bool-cases, arith,
}
use galaxy_ng.Startup.Model.{
  Settings, names, Data, entry_at, entry_at-set, mem, names_or, or_names, listed, setting_of,
}
use galaxy_ng.Startup.Auth.{
  extend_missing, extend_some, append_missing, count, merge_mark, merge_once, prefix_backend,
  gathered_backends, configure_authentication_backends,
}

mem-append : (x : String) (a b : List String) → mem x (a ++ b) ≡ (mem x a || mem x b)
mem-append x [] b = refl
mem-append x (y ∷ a) b = ground (arith, mem-append x a b)

mem-keep : (p : String → Bool) (x : String) (l : List String) → mem x (keep p l) ≡ (mem x l && p x)
mem-keep p x [] = refl
mem-keep p x (y ∷ l) = elim (Bool-cases (str_eq y x)) [
  | inl same ↦ ground (arith, same, ap p ((str_eq_iff y x).0 same), mem-keep p x l)
  | inr other ↦ ground (arith, other, mem-keep p x l)
]

mem-extend_missing :
    (x : String) (l more : List String) → mem x (extend_missing l more) ≡ (mem x l || mem x more)
mem-extend_missing x l more =
    mem-append x l (keep (λ y. not (mem y l)) more)
    ∙ ground (arith, mem-keep (λ y. not (mem y l)) x more)

mem-extend_some :
    (x : String) (l : List String) (o : Option (List String))
    → mem x (extend_some l o) ≡ (mem x l || mem x (or_names o []))
mem-extend_some x l none = ground arith
mem-extend_some x l (some more) = mem-extend_missing x l more

mem-append_missing :
    (x y : String) (l : List String) → mem x (append_missing y l) ≡ (mem x l || str_eq y x)
mem-append_missing x y l = ground (arith, mem-append x l (y ∷ []), str_eq_iff y x)

count-mem : (x : String) (l : List String) → ltb 0 (count x l) ≡ mem x l
count-mem x [] = refl
count-mem x (y ∷ l) = ground (arith, count-mem x l)

mem-merge_once : (x : String) (l : List String) → mem x (merge_once l) ≡ mem x l
mem-merge_once x l = ground (
  arith,
  count-mem merge_mark l,
  mem-append x (keep (λ y. not (str_eq y merge_mark)) l) (merge_mark ∷ []),
  mem-keep (λ y. not (str_eq y merge_mark)) x l,
  str_eq_iff merge_mark x,
  str_eq_iff x merge_mark,
)

count-append : (x : String) (a b : List String) → count x (a ++ b) ≡ count x a + count x b
count-append x [] b = omega arith
count-append x (y ∷ a) b = ground (arith, count-append x a b)

count_removed : (x : String) (l : List String) → count x (keep (λ y. not (str_eq y x)) l) ≡ 0
count_removed x [] = refl
count_removed x (y ∷ l) = ground (arith, count_removed x l)

count-merge_once : (l : List String) → count merge_mark (merge_once l) ≤ 1
count-merge_once l = ground (
  arith,
  count-append merge_mark (keep (λ y. not (str_eq y merge_mark)) l) (merge_mark ∷ []),
  count_removed merge_mark l,
)

-- All backends that there are names for: those of the settings, of the hooks, of the preset, and the
-- one for migrated users.
abbrev pub is_named : Settings → Data → String → Bool
is_named s d x =
    ((mem x (names_or s "AUTHENTICATION_BACKENDS" [])
        || mem x (or_names (listed (entry_at "AUTHENTICATION_BACKENDS" d)) []))
      || mem x (or_names (s.presets (setting_of s "AUTHENTICATION_BACKEND_PRESET")) []))
    || str_eq prefix_backend x

mem-gathered_backends :
    (s : Settings) (d : Data) (x : String) → mem x (gathered_backends s d) ≡ is_named s d x
unfolding gathered_backends
mem-gathered_backends s d x =
    let own = names_or s "AUTHENTICATION_BACKENDS" [] in
    let hooks = listed (entry_at "AUTHENTICATION_BACKENDS" d) in
    let preset = s.presets (setting_of s "AUTHENTICATION_BACKEND_PRESET") in
    mem-append_missing x prefix_backend (extend_some (extend_some own hooks) preset)
    ∙ ap (λ b. b || str_eq prefix_backend x)
        (mem-extend_some x (extend_some own hooks) preset
          ∙ ap (λ b. b || mem x (or_names preset [])) (mem-extend_some x own hooks))

nonempty_of_mem : (x : String) (l : List String) → mem x l ≡ true → ltb 0 (length l) ≡ true
nonempty_of_mem x [] h = absurd cc
nonempty_of_mem x (y ∷ l) h = ground arith

-- The authentication backends are exactly those of the settings, of the hooks before, of the
-- preset and the one for migrated users, and the mark for dynaconf's merge is there at most once.
pub configure_authentication_backends_lem :
    (s : Settings) (d : Data) (x : String)
    → (out : List String) × (entry_at "AUTHENTICATION_BACKENDS"
          (configure_authentication_backends s d)
        ≡ some (names out))
      × (mem x out ≡ is_named s d x)
      × (count merge_mark out ≤ 1)
unfolding configure_authentication_backends
configure_authentication_backends_lem s d x = (
  out,
  rw (nonempty_of_mem prefix_backend out (exact prefix_backend ∙ always))
      (entry_at-set "AUTHENTICATION_BACKENDS" "AUTHENTICATION_BACKENDS" (names out) d),
  exact x,
  count-merge_once (gathered_backends s d),
)
  where
    out : List String
    out = merge_once (gathered_backends s d)

    exact : (y : String) → mem y out ≡ is_named s d y
    exact y = mem-merge_once y (gathered_backends s d) ∙ mem-gathered_backends s d y

    always : is_named s d prefix_backend ≡ true
    always = ground (arith, str_eq_refl prefix_backend)
