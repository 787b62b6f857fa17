-- ===== src/Api/Readiness.antt =====
-- internal/api/handlers.go: `readinessFor`, which sorts the categories by what is left to do.
pub mod Views
pub mod Partition
use wrap_policy_assignment_s.Base.{
  Bool, true, false, not, List, [], ◌∷◌, ◌++◌, map, keep, Result, ok, err, map_ok,
}
use wrap_policy_assignment_s.Base.Int.{ℤ}
use wrap_policy_assignment_s.Base.Text.{Text}
use wrap_policy_assignment_s.Resolver.Ast.Validate.{mem_text}
use wrap_policy_assignment_s.Resolver.Types.{
  Outcome, assigned, shadowed, no_match, conflict_needs_decision, CategoryConfig, Assignment,
  DecisionOption,
}
use wrap_policy_assignment_s.Resolver.Resolve.{Resolution}
use wrap_policy_assignment_s.Repo.Rules.{source_text}
use wrap_policy_assignment_s.Repo.Store.{
  Store, StoreError, Codec, list_categories, resolve_for_employee,
}

pub record PolicyAssignment : Type 0 where
  pub category_id : Text
  pub policy_id : Text
  pub rule_id : Text
  pub source : Text

pub record DecisionNeeded : Type 0 where
  pub category_id : Text
  pub options : List DecisionOption

-- `ReadinessResponse`; the instant that it prints is left out.
pub record Readiness : Type 0 where
  pub auto_applied : List PolicyAssignment
  pub needs_decision : List DecisionNeeded
  pub manual_required : List Text

-- The two lists while they grow, and the map `resolved`.
pub record Checklist : Type 0 where
  pub resolved : List Text
  pub auto_applied : List PolicyAssignment
  pub needs_decision : List DecisionNeeded

abbrev pub to_policy_assignment : Text → Assignment → PolicyAssignment
to_policy_assignment id a = record {
  category_id = id;
  policy_id = a.policy_id;
  rule_id = a.rule_id;
  source = source_text a.source;
}

abbrev pub apply : Text → List Assignment → Checklist → Checklist
apply id assignments out = record out {
  resolved = id ∷ out.resolved;
  auto_applied = out.auto_applied ++ map (to_policy_assignment id) assignments;
}

-- The switch on the outcome.
abbrev pub add_outcome : Text → Outcome → Resolution → Checklist → Checklist
add_outcome id assigned res out = apply id res.assignments out
add_outcome id shadowed res out = apply id res.assignments out
add_outcome id conflict_needs_decision res out = record out {
  resolved = id ∷ out.resolved;
  needs_decision = out.needs_decision ++ record { category_id = id; options = res.options } ∷ [];
}
add_outcome id no_match res out = out

module _ (codec : Codec) (now : ℤ) (employee date : Text) (s : Store) where
  -- The loop over the categories.
  unfoldable pub check_categories : List CategoryConfig → Checklist → Result StoreError Checklist
  check_categories [] out = ok out
  check_categories (c ∷ cs) out = elim (resolve_for_employee codec now employee c.id date s) [
    | err e ↦ err e
    | ok res ↦ check_categories cs (add_outcome c.id res.outcome res out)
  ]

  -- The categories that nothing has resolved stay in `manual_required`.
  abbrev pub finish : Checklist → Readiness
  finish out = record {
    auto_applied = out.auto_applied;
    needs_decision = out.needs_decision;
    manual_required =
        keep (λ id. not (mem_text id out.resolved))
          (map (λ (c : CategoryConfig). c.id) (list_categories s));
  }

  -- `readinessFor`
  unfoldable pub readiness_for : Result StoreError Readiness
  readiness_for = map_ok finish (
      check_categories (list_categories s)
        (record { resolved = []; auto_applied = []; needs_decision = [] }))
