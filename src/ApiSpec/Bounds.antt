-- ===== src/ApiSpec/Bounds.antt =====
-- galaxy_ng/app/utils/apispec/id_fix.py: how long ids get when equal ones are told apart.
use galaxy_ng.Prelude.{
  ℕ, ◌-◌, ◌≤◌, Text, List, [], ◌∷◌, ◌++◌, length, take, All, length-append, length-take-le, arith,
}
use galaxy_ng.ApiSpec.Paths.{get_disambiguation_suffix}
use galaxy_ng.ApiSpec.Unique.{
  Transformed, Named, ids_of, names_of, suffixed, disambiguated, disambiguate_methods, disambiguate,
}

module _ (max_length : ℕ) where
  abbrev pub IsShort : Text → Type 0
  IsShort op_id = length op_id ≤ max_length

  suffixed-IsShort :
      (op_id suffix : Text) → length op_id ≤ max_length → IsShort (suffixed max_length op_id suffix)
  suffixed-IsShort op_id suffix h =
      let room = max_length - length op_id - 1 in
      ground (arith, length-append op_id (b'_' ∷ take room suffix), length-take-le room suffix)

  disambiguated-IsShort :
      (ids : List Text) (path op_id : Text)
      → length op_id ≤ max_length
      → IsShort (disambiguated max_length ids path op_id)
  unfolding disambiguated
  disambiguated-IsShort ids path op_id h =
      ground (arith, suffixed-IsShort op_id (get_disambiguation_suffix path) h)

  All-append : (xs ys : List Text) → All IsShort xs → All IsShort ys → All IsShort (xs ++ ys)
  All-append [] ys hx hy = hy
  All-append (x ∷ xs) ys hx hy = (hx.0, All-append xs ys hx.1 hy)

  All-left : (xs ys : List Text) → All IsShort (xs ++ ys) → All IsShort xs
  All-left [] ys h = tt
  All-left (x ∷ xs) ys h = (h.0, All-left xs ys h.1)

  All-right : (xs ys : List Text) → All IsShort (xs ++ ys) → All IsShort ys
  All-right [] ys h = h
  All-right (x ∷ xs) ys h = All-right xs ys h.1

  methods-IsShort :
      (ids : List Text) (path : Text) (ms : List Named)
      → All IsShort (names_of ms)
      → All IsShort (names_of (disambiguate_methods max_length ids path ms))
  methods-IsShort ids path [] h = tt
  methods-IsShort ids path ((m, op_id) ∷ ms) h =
      (disambiguated-IsShort ids path op_id h.0, methods-IsShort ids path ms h.1)

  -- Where no operation id is longer than the limit, none is after the suffixes for equal ids are
  -- added, if there is room for them or not.
  pub disambiguate-IsShort :
      (ids : List Text) (t : Transformed)
      → All IsShort (ids_of t)
      → All IsShort (ids_of (disambiguate max_length ids t))
  unfolding disambiguate
  disambiguate-IsShort ids [] h = tt
  disambiguate-IsShort ids ((path, ms) ∷ t) h =
      let names = names_of ms in
      All-append _ _ (methods-IsShort ids path ms (All-left names (ids_of t) h))
        (disambiguate-IsShort ids t (All-right names (ids_of t) h))
