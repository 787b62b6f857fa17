-- ===== src/Reconciler/Employee.antt =====
-- internal/reconciler/reconciler.go: `ReconcileEmployee`, `ReconcileRuleChange` and what they do for
-- one employee and one category. A call takes no time: it reads one instant, `now`.
pub mod Converged
use wrap_policy_assignment_s.Base.{ℕ, Option, List, [], ◌∷◌, Result, ok, err}
use wrap_policy_assignment_s.Base.Int.{ℤ}
use wrap_policy_assignment_s.Base.Text.{Text, codes}
use wrap_policy_assignment_s.Resolver.Types.{CategoryConfig}
use wrap_policy_assignment_s.Repo.Projection.{ProjectionError, materialize}
use wrap_policy_assignment_s.Repo.Traces.{TraceError, persist_trace}
use wrap_policy_assignment_s.Repo.Store.{
  Store, StoreError, Codec, list_categories, list_employee_ids, resolve_for_employee,
}

-- The employee, the category, and what went wrong.
pub data ReconcileError : Type 0 where
  not_resolved : Text → Text → StoreError → ReconcileError
  not_materialized : Text → Text → ProjectionError → ReconcileError
  not_traced : Text → Text → TraceError → ReconcileError

-- A step that may fail, and what follows on it where it does not.
abbrev pub and_then :
    {S E : Type 0}
    → S × Result E (Unit {0})
    → (S → S × Result E (Unit {0}))
    → S × Result E (Unit {0})
and_then (s, ok u) next = next s
and_then (s, err e) next = (s, err e)

module _ (codec : Codec) (now : ℤ) (today : Text) (trigger : Option ℕ) where
  -- `materializeAndTrace`. The projection is written before the trace, in a transaction of its own.
  unfoldable pub materialize_and_trace :
      Text → Text → Store → Store × Result ReconcileError (Unit {0})
  materialize_and_trace employee category s =
      elim (resolve_for_employee codec now employee category today s) [
        | err e ↦ (s, err (not_resolved employee category e))
        | ok res ↦ elim (materialize employee res trigger s.projection) [
          | err e ↦ (s, err (not_materialized employee category e))
          | ok p ↦
              elim (persist_trace codec.trace employee category today (codes "materialize") res
                s.traces) [
                  | err e ↦ (record s { projection = p }, err (not_traced employee category e))
                  | ok t ↦ (record s { projection = p; traces = t }, ok tt)
                ]
        ]
      ]

  -- The loop of `ReconcileEmployee`, and of `repair` of the sweeper.
  unfoldable pub reconcile_categories :
      Text → List CategoryConfig → Store → Store × Result ReconcileError (Unit {0})
  reconcile_categories employee [] s = (s, ok tt)
  reconcile_categories employee (c ∷ cs) s =
      and_then (materialize_and_trace employee c.id s) (reconcile_categories employee cs)

  -- `ReconcileEmployee`
  unfoldable pub reconcile_employee : Text → Store → Store × Result ReconcileError (Unit {0})
  reconcile_employee employee s = reconcile_categories employee (list_categories s) s

  -- The body of the loop of `ReconcileRuleChange`, which writes no trace.
  unfoldable pub materialize_only : Text → Text → Store → Store × Result ReconcileError (Unit {0})
  materialize_only category employee s =
      elim (resolve_for_employee codec now employee category today s) [
        | err e ↦ (s, err (not_resolved employee category e))
        | ok res ↦ elim (materialize employee res trigger s.projection) [
          | err e ↦ (s, err (not_materialized employee category e))
          | ok p ↦ (record s { projection = p }, ok tt)
        ]
      ]

  -- The loop of `ReconcileRuleChange`.
  unfoldable pub reconcile_employees :
      Text → List Text → Store → Store × Result ReconcileError (Unit {0})
  reconcile_employees category [] s = (s, ok tt)
  reconcile_employees category (e ∷ es) s =
      and_then (materialize_only category e s) (reconcile_employees category es)

  -- `ReconcileRuleChange`
  unfoldable pub reconcile_rule_change : Text → Store → Store × Result ReconcileError (Unit {0})
  reconcile_rule_change category s = reconcile_employees category (list_employee_ids s) s
