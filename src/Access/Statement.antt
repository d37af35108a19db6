-- ===== src/Access/Statement.antt =====
-- The statements of galaxy_ng/app/access_control/statements, and the policy of a pulp viewset.
use galaxy_ng.Prelude.{String, Bool, List, [], Option, none}

pub data Effect : Type 0 where
  allows denies : Effect

-- A statement as the dictionaries write it. The engine that reads them is a parameter.
pub record Statement : Type 0 where
  pub action : List String
  pub principal : String
  pub effect : Effect
  pub condition : List String
  pub condition_expression : List String

abbrev pub allow : List String → String → List String → Statement
allow action principal condition = record {
  action = action;
  principal = principal;
  effect = allows;
  condition = condition;
  condition_expression = [];
}

abbrev pub allow_if : List String → String → List String → Statement
allow_if action principal expression = record {
  action = action;
  principal = principal;
  effect = allows;
  condition = [];
  condition_expression = expression;
}

abbrev pub deny : List String → String → List String → Statement
deny action principal condition = record {
  action = action;
  principal = principal;
  effect = denies;
  condition = condition;
  condition_expression = [];
}

pub record Scoping : Type 0 where
  pub function : String
  pub field_name : Option String
  pub is_generic : Option Bool

-- The functions of the creation hooks stand with their roles.
pub record ViewsetPolicy : Type 0 where
  pub statements : List Statement
  pub creation_hooks : Option (List (String × List String))
  pub queryset_scoping : Option Scoping

-- A policy of which only the statements are set.
abbrev pub plain : List Statement → ViewsetPolicy
plain statements = record {
  statements = statements;
  creation_hooks = none;
  queryset_scoping = none;
}

pub record LockedRole : Type 0 where
  pub permissions : List String
  pub inherit_from : List String
