-- ===== src/ApiSpec/Validate.antt =====
-- galaxy_ng/app/utils/apispec/id_fix.py: what validate_spec finds, and what main prints.
use galaxy_ng.Prelude.{
  is_nil, codes, ◌≡◌, ◌≢◌, ◌↔◌, refl, sym, ap, ◌∙◌, Text, text_eq_iff, false, List, [], ◌∷◌, ◌++◌,
  All, Option, none, some, if◌then◌else◌, inl, inr, Bool-cases, Option-cases, arith,
}
use galaxy_ng.ApiSpec.Distinct.{Distinct}
use galaxy_ng.ApiSpec.Document.{
  Member, PathItem, item, not_item, Spec, get, operation_at, id_of, http_methods, Duplicate, Places,
  place, validate_operation, validate_methods, validate_paths, validate_spec, printed, outcome_of,
  renamed, main,
}

-- An operation of the document: its path, its method and its id, if it has one.
record Visited : Type 0 where
  path : Text
  method : Text
  op_id : Option Text

abbrev method_entries : Text → List Text → List (Text × Member) → List Visited
method_entries path [] members = []
method_entries path (m ∷ ms) members =
    record { path = path; method = m; op_id = id_of (operation_at (get m members)) }
    ∷ method_entries path ms members

-- The methods whose operations are looked at.
abbrev checked_methods : List Text
checked_methods =
    codes "get"
    ∷ codes "post"
    ∷ codes "put"
    ∷ codes "patch"
    ∷ codes "delete"
    ∷ codes "head"
    ∷ codes "options"
    ∷ []

abbrev entries : List (Text × PathItem) → List Visited
entries [] = []
entries ((path, not_item v) ∷ paths) = entries paths
entries ((path, item members) ∷ paths) =
    method_entries path checked_methods members ++ entries paths

abbrev add_id : Option Text → List Text → List Text
add_id none ids = ids
add_id (some i) ids = if is_nil i then ids else i ∷ ids

abbrev entry_ids : List Visited → List Text
entry_ids [] = []
entry_ids (e ∷ es) = add_id e.op_id (entry_ids es)

-- The ids of a document, in the order of its paths and methods; an empty id counts as none.
abbrev pub spec_ids : Spec → List Text
spec_ids spec = entry_ids (entries spec.paths)

run : Places → List Visited → List Duplicate × Places
run seen [] = ([], seen)
run seen (e ∷ es) =
    let here = validate_operation e.path e.method e.op_id seen in
    let rest = run here.1 es in (here.0 ++ rest.0, rest.1)

run_methods :
    (path : Text) (ms : List Text) (members : List (Text × Member)) (seen : Places)
    → validate_methods path ms members seen ≡ run seen (method_entries path ms members)
unfolding validate_methods run
run_methods path [] members seen = refl
run_methods path (m ∷ ms) members seen =
    let here = validate_operation path m (id_of (operation_at (get m members))) seen in
    ap (λ rest. (here.0 ++ rest.0, rest.1)) (run_methods path ms members here.1)

++-assoc : (xs ys zs : List Duplicate) → (xs ++ ys) ++ zs ≡ xs ++ (ys ++ zs)
++-assoc [] ys zs = refl
++-assoc (x ∷ xs) ys zs = ap (λ r. x ∷ r) (++-assoc xs ys zs)

run-append :
    (seen : Places) (es fs : List Visited)
    → (run seen (es ++ fs)).0 ≡ (run seen es).0 ++ (run (run seen es).1 fs).0
unfolding run
run-append seen [] fs = refl
run-append seen (e ∷ es) fs =
    let here = validate_operation e.path e.method e.op_id seen in
    cc (run-append here.1 es fs, ++-assoc here.0 (run here.1 es).0 (run (run here.1 es).1 fs).0)

run_paths :
    (paths : List (Text × PathItem)) (seen : Places)
    → validate_paths paths seen ≡ (run seen (entries paths)).0
unfolding validate_paths run
run_paths [] seen = refl
run_paths ((path, not_item v) ∷ paths) seen = run_paths paths seen
run_paths ((path, item members) ∷ paths) seen =
    let es = method_entries path http_methods members in
    ap (λ here. here.0 ++ validate_paths paths here.1) (run_methods path http_methods members seen)
    ∙ ap (λ r. (run seen es).0 ++ r) (run_paths paths (run seen es).1)
    ∙ sym (run-append seen es (entries paths))

abbrev New : Places → List Text → Type 0
New seen = All (λ (j : Text). get j seen ≡ none)

New-cons :
    (i p : Text) (seen : Places) (ids : List Text)
    → New ((i, p) ∷ seen) ids ↔ (All (λ (j : Text). i ≢ j) ids × New seen ids)
New-cons i p seen [] = (λ h. (tt, tt), λ h. tt)
New-cons i p seen (j ∷ ids) = ground (arith, text_eq_iff i j, New-cons i p seen ids)

-- What an operation and those after it say of the ids, from what those after it say.
abbrev IsExact : Places → List Visited → Type 0
IsExact seen es = ((run seen es).0 ≡ []) ↔ (Distinct (entry_ids es) × New seen (entry_ids es))

new_operation :
    (path method i : Text) (seen : Places) (es : List Visited)
    → is_nil i ≡ false
    → get i seen ≡ none
    → IsExact ((i, place path method) ∷ seen) es
    → IsExact seen (record { path = path; method = method; op_id = some i } ∷ es)
unfolding run validate_operation
new_operation path method i seen es full new h =
    let split = New-cons i (place path method) seen (entry_ids es) in
    rw (full, new)
      (
        λ e. let r = h.0 e in (((split.0 r.1).0, r.0), (refl, (split.0 r.1).1)),
        λ d. h.1 (d.0.1, split.1 (d.0.0, d.1.1)),
      )

operation_IsExact :
    (path method : Text) (o : Option Text) (seen : Places) (es : List Visited)
    → ((s : Places) → IsExact s es)
    → IsExact seen (record { path = path; method = method; op_id = o } ∷ es)
unfolding run validate_operation
operation_IsExact path method none seen es h = h seen
operation_IsExact path method (some i) seen es h = elim (Bool-cases (is_nil i)) [
  | inl empty ↦ rw empty (h seen)
  | inr full ↦ elim (Option-cases (get i seen)) [
    | inl new ↦ new_operation path method i seen es full new (h ((i, place path method) ∷ seen))
    | inr (p, old) ↦ rw (full, old) (λ e. absurd cc, λ d. absurd (ground (arith, d.1.0, old)))
  ]
]

run-IsExact : (es : List Visited) (seen : Places) → IsExact seen es
unfolding run
run-IsExact [] seen = (λ h. (tt, tt), λ h. refl)
run-IsExact (e ∷ es) seen = operation_IsExact e.path e.method e.op_id seen es (run-IsExact es)

New-nil : (ids : List Text) → New [] ids
New-nil [] = tt
New-nil (i ∷ ids) = (refl, New-nil ids)

-- There are no errors exactly if no id is there twice.
pub validate_spec_iff : (spec : Spec) → (validate_spec spec ≡ []) ↔ Distinct (spec_ids spec)
validate_spec_iff spec =
    let exact = run-IsExact (entries spec.paths) [] in
    (
      λ e. (exact.0 (sym (run_paths spec.paths []) ∙ e)).0,
      λ d. run_paths spec.paths [] ∙ exact.1 (d, New-nil (spec_ids spec)),
    )

printed_outcome :
    (spec s : Spec) (errors : List Duplicate)
    → outcome_of spec errors ≡ printed s
    → (errors ≡ []) × (spec ≡ s)
printed_outcome spec s [] e = (refl, cc)
printed_outcome spec s (d ∷ ds) e = absurd cc

-- A document that the script prints holds no operation id twice among its operations under get,
-- post, put, patch, delete, head and options, whatever the document is that it read.
pub main-Distinct :
    (noise_order : List Text) (spec s : Spec)
    → main noise_order spec ≡ printed s
    → Distinct (spec_ids s)
unfolding main
main-Distinct noise_order spec s e =
    let new = renamed noise_order spec in
    let parts = printed_outcome new s (validate_spec new) e in
    rw (← parts.1) ((validate_spec_iff new).0 parts.0)
