-- ===== src/Resolver/Tests.antt =====
-- A category with three rules, and runs of the resolver on it.
pub mod Runs
pub mod Clauses
use wrap_policy_assignment_s.Base.{
  ◌≡◌, ◌≢◌, refl, Bool, true, Option, none, some, List, [], ◌∷◌, Result, ok, err, arith,
}
use wrap_policy_assignment_s.Base.Int.{ℤ, pos}
use wrap_policy_assignment_s.Base.Text.{Text, codes}
use wrap_policy_assignment_s.Base.Map.{Map}
use wrap_policy_assignment_s.Resolver.Value.{Value, string, int, ClauseOp, op_eq, op_gte}
use wrap_policy_assignment_s.Resolver.Ast.{op_and, Predicate}
use wrap_policy_assignment_s.Resolver.Types.{
  Cardinality, single, many, ResolutionStrategy, priority_rank, explicit_user_choice, additive,
  Source, authored, manual, CategoryConfig, RuleVersion, Assignment,
}
use wrap_policy_assignment_s.Resolver.Facts.{Facts}
use wrap_policy_assignment_s.Resolver.Resolve.{Input, Resolution}
use wrap_policy_assignment_s.Resolver.Selection.{to_assignment}

-- `department = eng`, and a bound on the tenure.
abbrev pub in_eng : Predicate
in_eng = record {
  op = op_and;
  clauses = record { attr = codes "dept"; op = op_eq; value = string (codes "eng") } ∷ [];
}

abbrev pub has_tenure : Predicate
has_tenure = record {
  op = op_and;
  clauses = record { attr = codes "tenure_days"; op = op_gte; value = int (pos 90) } ∷ [];
}

abbrev pub in_ops : Predicate
in_ops = record {
  op = op_and;
  clauses = record { attr = codes "dept"; op = op_eq; value = string (codes "ops") } ∷ [];
}

abbrev pub rule : Text → Source → ℤ → Predicate → RuleVersion
rule id source priority predicate = record {
  rule_id = id;
  rule_version_id = id;
  category_id = codes "pto";
  policy_id = id;
  policy_version_id = codes "1";
  source = source;
  priority = priority;
  created_at = pos 0;
  predicate = predicate;
}

abbrev pub by_team : RuleVersion
by_team = rule (codes "a") authored (pos 10) in_eng

abbrev pub by_hand : RuleVersion
by_hand = rule (codes "b") manual (pos 0) has_tenure

abbrev pub elsewhere : RuleVersion
elsewhere = rule (codes "c") authored (pos 50) in_ops

abbrev pub facts : Facts
facts = record {
  employee_id = codes "e1";
  as_of = codes "2026-03-01";
  attributes = (codes "dept", string (codes "eng")) ∷ (codes "tenure_days", int (pos 400)) ∷ [];
}

abbrev pub input : Cardinality → ResolutionStrategy → Input
input cardinality strategy = record {
  category = record {
    id = codes "pto";
    cardinality = cardinality;
    resolution_strategy = strategy;
    default_priority = pos 0;
    tiebreaker = [];
  };
  date = codes "2026-03-01";
  facts = facts;
  rules = by_team ∷ by_hand ∷ elsewhere ∷ [];
  definitions = none;
}

abbrev pub ranked_input : Input
ranked_input = input single priority_rank

abbrev pub choice_input : Input
choice_input = input single explicit_user_choice

abbrev pub stacked_input : Input
stacked_input = input many additive
