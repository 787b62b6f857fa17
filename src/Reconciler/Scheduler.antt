-- ===== src/Reconciler/Scheduler.antt =====
-- internal/reconciler/sweeper.go: `Tick` of the scheduler, which queues events for the facts and the
-- rules that start today.
pub mod Emitting
pub mod Again
use wrap_policy_assignment_s.Base.{
  ℕ, ◌+◌, Bool, true, false, Option, List, [], ◌∷◌, ◌++◌, if◌then◌else◌, Result, ok, err,
}
use wrap_policy_assignment_s.Base.Text.{Text, codes}
use wrap_policy_assignment_s.Base.Map.{Map, insert}
use wrap_policy_assignment_s.Resolver.Value.{Value, string}
use wrap_policy_assignment_s.Resolver.Ast.Validate.{mem_text}
use wrap_policy_assignment_s.Repo.Facts.{FactTable, FactError}
use wrap_policy_assignment_s.Repo.Rules.{RuleTables}
use wrap_policy_assignment_s.Repo.Outbox.{OutboxTable, EmitError, emit_event}
use wrap_policy_assignment_s.Repo.Transitions.{
  FactTransition, RuleTransition, fact_transitions_today, rule_transitions_today,
}

pub data TickError : Type 0 where
  no_fact_transitions no_rule_transitions : FactError → TickError
  fact_not_emitted rule_not_emitted : EmitError → TickError

abbrev pub fact_payload : FactTransition → Map Value
fact_payload f =
    (codes "employee_id", string f.employee_id)
    ∷ (codes "attribute_key", string f.attribute_key)
    ∷ (codes "reason", string (codes "future_dated_transition"))
    ∷ []

abbrev pub rule_payload : RuleTransition → Map Value
rule_payload r =
    (codes "category_id", string r.category_id)
    ∷ (codes "reason", string (codes "future_dated_rule"))
    ∷ []

-- `fact_transition:%s:%s:%s` and `rule_transition:%s:%s`
abbrev pub fact_key : Text → FactTransition → Text
fact_key today f =
    codes "fact_transition:" ++ f.employee_id ++ codes ":" ++ f.attribute_key ++ codes ":" ++ today

abbrev pub rule_key : Text → RuleTransition → Text
rule_key today r = codes "rule_transition:" ++ r.category_id ++ codes ":" ++ today

module _ (marshal : Map Value → Option Text) (today : Text) where
  -- The loop over the facts; `seen` is `seenEmp`.
  unfoldable pub emit_facts :
      List Text
      → List FactTransition
      → OutboxTable
      → ℕ
      → OutboxTable × ℕ × Result TickError (Unit {0})
  emit_facts seen [] t emitted = (t, emitted, ok tt)
  emit_facts seen (f ∷ fs) t emitted = elim (mem_text f.employee_id seen) [
    | true ↦ emit_facts seen fs t emitted
    | false ↦
        let (t', n) =
          emit_event marshal (codes "fact_changed") (codes "co_demo") (fact_payload f)
            (fact_key today f) t in
        elim n [
          | err e ↦ (t', emitted, err (fact_not_emitted e))
          | ok rows ↦ emit_facts (f.employee_id ∷ seen) fs t' (emitted + rows)
        ]
  ]

  -- The loop over the rules.
  unfoldable pub emit_rules :
      List RuleTransition → OutboxTable → ℕ → OutboxTable × ℕ × Result TickError (Unit {0})
  emit_rules [] t emitted = (t, emitted, ok tt)
  emit_rules (r ∷ rs) t emitted =
      let (t', n) =
        emit_event marshal (codes "rule_changed") (codes "co_demo") (rule_payload r)
          (rule_key today r) t in
      elim n [
        | err e ↦ (t', emitted, err (rule_not_emitted e))
        | ok rows ↦ emit_rules rs t' (emitted + rows)
      ]

  -- `Tick`: the outbox after it, the number of emitted events, and the error. The orders are those
  -- in which the database lists the facts and the rules.
  unfoldable pub tick :
      (List FactTransition → List FactTransition)
      → (List RuleTransition → List RuleTransition)
      → FactTable
      → RuleTables
      → OutboxTable
      → OutboxTable × ℕ × Result TickError (Unit {0})
  tick list_facts list_rules facts rules t = elim (fact_transitions_today list_facts today facts) [
    | err e ↦ (t, 0, err (no_fact_transitions e))
    | ok fs ↦
        let (t', emitted, r) = emit_facts [] fs t 0 in
        elim r [
          | err e ↦ (t', emitted, err e)
          | ok u ↦ elim (rule_transitions_today list_rules today rules) [
            | err e ↦ (t', emitted, err (no_rule_transitions e))
            | ok rs ↦ emit_rules rs t' emitted
          ]
        ]
  ]
