-- ===== src/Access/Entitlement.antt =====
-- galaxy_ng/app/access_control/statements/insights.py: what `_entitelify` makes of a policy.
use galaxy_ng.Prelude.{
  ◌≡◌, refl, ap, inl, inr, String, str_eq, str_eq_iff, Bool, true, not, ◌&&◌, ◌||◌, List, [], ◌∷◌,
  ◌++◌, map, any, all, Option, none, some, Bool-cases, arith,
}
use galaxy_ng.Access.Statement.{Statement}
use galaxy_ng.Access.Engine.{
  Caller, Conditions, Engine, IsDocumented, applies, is_allow, some_allow, some_deny, decide_lem,
}
use galaxy_ng.Access.Policy.Standalone.{standalone_statements}
use galaxy_ng.Access.Policy.Insights.{insights_overrides}
use galaxy_ng.Access.Policies.{
  Mode, find_policy, entitle, entitelify, insights_statements, insights, get_statements,
  get_pulp_access_policy, view_statements,
}

abbrev pub entitlement : String
entitlement = "has_rh_entitlements"

all-append : (p : String → Bool) (xs ys : List String) → all p (xs ++ ys) ≡ (all p xs && all p ys)
all-append p [] ys = refl
all-append p (x ∷ xs) ys = ground (arith, all-append p xs ys)

all_of_any :
    (p : String → Bool) (k : String) (xs : List String)
    → any (λ c. str_eq c k) xs ≡ true
    → all p xs ≡ (all p xs && p k)
all_of_any p k [] h = cc
all_of_any p k (x ∷ xs) h = elim (Bool-cases (str_eq x k)) [
  | inl e ↦ ground (arith, ap p ((str_eq_iff x k).0 e))
  | inr e ↦ ground (arith, all_of_any p k xs)
]

module _ (caller : Caller) (action : String) (holds : Conditions) where
  effect-entitle : (s : Statement) → (entitle s).effect ≡ s.effect
  unfolding entitle
  effect-entitle s = ground arith

  applies-entitle :
      (s : Statement)
      → applies caller action holds (entitle s)
        ≡ (applies caller action holds s && (not (is_allow s.effect) || holds entitlement))
  unfolding applies entitle
  applies-entitle s = ground (
    arith,
    all-append holds s.condition (entitlement ∷ []),
    all_of_any holds entitlement s.condition,
  )

  some_allow-entitle :
      (ss : List Statement)
      → some_allow caller action holds (map entitle ss)
        ≡ (some_allow caller action holds ss && holds entitlement)
  unfolding some_allow
  some_allow-entitle [] = refl
  some_allow-entitle (s ∷ ss) =
      ground (arith, effect-entitle s, applies-entitle s, some_allow-entitle ss)

  some_deny-entitle :
      (ss : List Statement)
      → some_deny caller action holds (map entitle ss) ≡ some_deny caller action holds ss
  unfolding some_deny
  some_deny-entitle [] = refl
  some_deny-entitle (s ∷ ss) =
      ground (arith, effect-entitle s, applies-entitle s, some_deny-entitle ss)

  -- A request passes a policy of `_entitelify` exactly if it passes the original policy and the
  -- caller is entitled.
  pub decide-entitle :
      (e : Engine)
      → IsDocumented e
      → (ss : List Statement)
      → e.decide (map entitle ss) caller action holds
        ≡ (e.decide ss caller action holds && holds entitlement)
  decide-entitle e doc ss = ground (
    arith,
    decide_lem e doc (map entitle ss) caller action holds,
    decide_lem e doc ss caller action holds,
    some_allow-entitle ss,
    some_deny-entitle ss,
  )

abbrev pub statements_or_none : Option (List Statement) → List Statement
statements_or_none none = []
statements_or_none (some ss) = ss

find-entitelify :
    (k : String) (t : List (String × List Statement))
    → statements_or_none (find_policy k (entitelify t))
      ≡ map entitle (statements_or_none (find_policy k t))
unfolding entitelify
find-entitelify k [] = refl
find-entitelify k ((j, ss) ∷ t) = elim (Bool-cases (str_eq j k)) [
  | inl e ↦ rw e
  | inr e ↦ rw e (find-entitelify k t)
]

pub view_statements_lem :
    (mode : Mode) (name : String)
    → view_statements mode name ≡ statements_or_none (find_policy name (get_statements mode))
unfolding view_statements get_pulp_access_policy
view_statements_lem mode name = ground arith

-- In insights mode a galaxy view lets a request pass exactly if the policy as it is written does
-- and the caller has the required entitlement, whatever the view, the action and the conditions,
-- for every engine that is as documented.
pub decide-insights :
    (e : Engine) (name : String) (caller : Caller) (action : String) (holds : Conditions)
    → IsDocumented e
    → e.decide (view_statements insights name) caller action holds ≡ (
        e.decide
          (statements_or_none (find_policy name (insights_overrides ++ standalone_statements)))
          caller
          action
          holds
        && holds entitlement)
unfolding get_statements insights_statements
decide-insights e name caller action holds doc =
    rw
      (
        view_statements_lem insights name,
        find-entitelify name (insights_overrides ++ standalone_statements),
      )
      (decide-entitle caller action holds e doc _)
