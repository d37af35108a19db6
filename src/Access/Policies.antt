-- ===== src/Access/Policies.antt =====
-- galaxy_ng/app/access_control/statements/insights.py (`_entitelify`) and the selection of a policy
-- in galaxy_ng/app/access_control/access_policy.py.
use galaxy_ng.Prelude.{
  String, str_eq, Bool, true, false, List, [], ◌∷◌, ◌++◌, map, any, Option, none, some,
  if◌then◌else◌,
}
use galaxy_ng.Access.Statement.{allows, denies, Statement, ViewsetPolicy, plain}
use galaxy_ng.Access.Policy.Standalone.{standalone_statements}
use galaxy_ng.Access.Policy.Insights.{insights_overrides}
use galaxy_ng.Access.Policy.Container.{pulp_container_viewsets}
use galaxy_ng.Access.Policy.Ansible.{pulp_ansible_viewsets}
use galaxy_ng.Access.Policy.Core.{pulp_core_viewsets}

-- The value of a dictionary that is merged from literals: the last literal stands first here.
abbrev pub find_policy {ℓ} : {A : Type ℓ} → String → List (String × A) → Option A
find_policy k [] = none
find_policy k ((j, a) ∷ m) = if str_eq j k then some a else find_policy k m

-- The body of the loop: no condition, one condition and a list are all lists here.
unfoldable pub entitle : Statement → Statement
entitle s = elim s.effect [
  | denies ↦ s
  | allows ↦
      if any (λ c. str_eq c "has_rh_entitlements") s.condition
      then s
      else record s { condition = s.condition ++ "has_rh_entitlements" ∷ [] }
]

unfoldable pub entitelify : List (String × List Statement) → List (String × List Statement)
entitelify = map (λ v. (v.0, map entitle v.1))

unfoldable pub insights_statements : List (String × List Statement)
insights_statements = entitelify (insights_overrides ++ standalone_statements)

pub data Mode : Type 0 where
  standalone insights : Mode

-- `GalaxyStatements._get_statements`
unfoldable pub get_statements : Mode → List (String × List Statement)
get_statements standalone = standalone_statements
get_statements insights = insights_statements

abbrev is_empty : List Statement → Bool
is_empty [] = true
is_empty (s ∷ ss) = false

-- `statements` is None or a list; without a default an empty one gives no policy.
unfoldable pub get_pulp_access_policy :
    Mode → String → Option (List Statement) → Option ViewsetPolicy
get_pulp_access_policy mode name none = elim (find_policy name (get_statements mode)) [
  | none ↦ none
  | some ss ↦ if is_empty ss then none else some (plain ss)
]
get_pulp_access_policy mode name (some default) = elim (find_policy name (get_statements mode)) [
  | none ↦ some (plain default)
  | some ss ↦ some (plain ss)
]

unfoldable pub pulp_viewsets : List (String × ViewsetPolicy)
pulp_viewsets = pulp_core_viewsets ++ (pulp_ansible_viewsets ++ pulp_container_viewsets)

-- The statements that a galaxy view with a NAME is judged by: `get_access_policy` asks for the
-- policy with the default [].
unfoldable pub view_statements : Mode → String → List Statement
view_statements mode name = elim (get_pulp_access_policy mode name (some [])) [
  | none ↦ []
  | some policy ↦ policy.statements
]
