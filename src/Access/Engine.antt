-- ===== src/Access/Engine.antt =====
-- The engine of drf-access-policy, a parameter: its documented behaviour, and what follows for every
-- list of statements.
use galaxy_ng.Prelude.{
  ◌≡◌, inl, inr, String, Bool, true, false, not, ◌&&◌, ◌||◌, List, any, all, Bool-cases, arith,
  str_eq,
}
use galaxy_ng.Access.Statement.{Effect, allows, denies, Statement}

pub record Caller : Type 0 where
  pub is_anonymous : Bool
  pub is_admin : Bool

-- What the policy class answers for a condition, with its argument.
abbrev pub Conditions : Type 0
Conditions = String → Bool

pub record Engine : Type 0 where
  pub decide : List Statement → Caller → String → Conditions → Bool

unfoldable pub principal_matches : Caller → String → Bool
principal_matches caller p =
    str_eq p "*"
    || (str_eq p "authenticated" && not caller.is_anonymous)
    || (str_eq p "anonymous" && caller.is_anonymous)
    || (str_eq p "admin" && caller.is_admin)

unfoldable pub action_matches : String → List String → Bool
action_matches action = any (λ a. str_eq a "*" || str_eq a action)

-- A statement applies if its principal, its action and all of its conditions do.
unfoldable pub applies : Caller → String → Conditions → Statement → Bool
applies caller action holds s =
    principal_matches caller s.principal
    && action_matches action s.action
    && all holds s.condition
    && all holds s.condition_expression

abbrev pub is_allow : Effect → Bool
is_allow allows = true
is_allow denies = false

unfoldable pub some_allow : Caller → String → Conditions → List Statement → Bool
some_allow caller action holds = any (λ s. is_allow s.effect && applies caller action holds s)

unfoldable pub some_deny : Caller → String → Conditions → List Statement → Bool
some_deny caller action holds = any (λ s. not (is_allow s.effect) && applies caller action holds s)

-- Documented behaviour of the engine: a request is denied by default and by any statement that
-- denies it, and allowed where a statement allows it and none denies it.
pub record IsDocumented (e : Engine) : Type 0 where
  pub denied_by_deny :
      (ss : List Statement) (caller : Caller) (action : String) (holds : Conditions)
      → some_deny caller action holds ss ≡ true
      → e.decide ss caller action holds ≡ false
  pub denied_by_default :
      (ss : List Statement) (caller : Caller) (action : String) (holds : Conditions)
      → some_allow caller action holds ss ≡ false
      → e.decide ss caller action holds ≡ false
  pub allowed :
      (ss : List Statement) (caller : Caller) (action : String) (holds : Conditions)
      → some_allow caller action holds ss ≡ true
      → some_deny caller action holds ss ≡ false
      → e.decide ss caller action holds ≡ true

-- The documented behaviour as one equation.
pub decide_lem :
    (e : Engine) (doc : IsDocumented e) (ss : List Statement) (caller : Caller) (action : String)
    (holds : Conditions)
    → e.decide ss caller action holds
      ≡ (some_allow caller action holds ss && not (some_deny caller action holds ss))
decide_lem e doc ss caller action holds = elim (Bool-cases (some_deny caller action holds ss)) [
  | inl d ↦ ground (arith, doc.denied_by_deny ss caller action holds d)
  | inr n ↦ elim (Bool-cases (some_allow caller action holds ss)) [
    | inl a ↦ ground (arith, doc.allowed ss caller action holds a n)
    | inr m ↦ ground (arith, doc.denied_by_default ss caller action holds m)
  ]
]
