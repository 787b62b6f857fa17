-- ===== src/Reconciler/Events.antt =====
-- internal/reconciler/reconciler.go: `processEvent`, which hands an event to what handles its type.
pub mod Truth
use wrap_policy_assignment_s.Base.{
  ℕ, Bool, true, false, ◌||◌, Option, none, some, List, if◌then◌else◌, Result, ok, err, wrap,
}
use wrap_policy_assignment_s.Base.Int.{ℤ}
use wrap_policy_assignment_s.Base.Text.{Text, codes, text_eq}
use wrap_policy_assignment_s.Repo.Segments.{recompute_segment_members}
use wrap_policy_assignment_s.Repo.Outbox.{OutboxRow}
use wrap_policy_assignment_s.Repo.Store.{Store, Codec, list_employee_ids, list_segments}
use wrap_policy_assignment_s.Reconciler.Batch.{Worker}
use wrap_policy_assignment_s.Reconciler.Segments.{
  SegmentWorker, SegmentChangeError, reconcile_segment_change,
}
use wrap_policy_assignment_s.Reconciler.Employee.{
  ReconcileError, reconcile_employee, reconcile_rule_change,
}

pub data EventError : Type 0 where
  undecodable_payload : EventError
  unknown_event_type : Text → EventError
  employee_not_reconciled : ReconcileError → EventError
  rules_not_reconciled : ReconcileError → EventError
  segment_not_reconciled : SegmentChangeError → EventError

-- `json.Unmarshal` into `factChangedPayload`, `ruleChangedPayload` and `segmentChangedPayload`: the
-- field that is read, where `none` is an error.
pub record Payloads : Type 0 where
  pub employee_id : Text → Option Text
  pub category_id : Text → Option Text
  pub segment_id : Text → Option Text

abbrev pub succeeds : {E : Type 0} → Result E (Unit {0}) → Bool
succeeds (ok u) = true
succeeds (err e) = false

abbrev pub outcome_with :
    {E : Type 0}
    → (E → EventError)
    → Store × Result E (Unit {0})
    → Store × Result EventError (Unit {0})
outcome_with f (s, r) = (s, wrap f r)

-- The error of the decoding, or what follows on it.
abbrev pub decoded :
    Option Text
    → Store
    → (Text → Store × Result EventError (Unit {0}))
    → Store × Result EventError (Unit {0})
decoded none s handle = (s, err undecodable_payload)
decoded (some id) s handle = handle id

module _ (codec : Codec) (payloads : Payloads) (shuffle : List Text → List Text) (now : ℤ)
    (today : Text) where
  -- What a changed segment is handled with.
  abbrev pub segment_worker : Option ℕ → SegmentWorker Store
  segment_worker trigger = record {
    recompute = λ seg s members.
        recompute_segment_members codec.predicate codec.decode members s.facts today
          (list_employee_ids s) seg;
    reconcile = λ employee members s.
        let (s', r) =
          reconcile_employee codec now today trigger employee (record s { members = members }) in
        (s', succeeds r);
    shuffle = shuffle;
  }

  -- `ReconcileSegmentChange` on the store.
  unfoldable pub change_segment :
      Option ℕ → Text → Store → Store × Result SegmentChangeError (Unit {0})
  change_segment trigger id s =
      let (members, s', r) =
        reconcile_segment_change (segment_worker trigger) (list_segments s) id s.members s in
      (record s' { members = members }, r)

  -- The three cases of `processEvent`.
  unfoldable pub on_employee : ℕ → Text → Store → Store × Result EventError (Unit {0})
  on_employee id payload s = decoded (payloads.employee_id payload) s (λ employee.
      outcome_with employee_not_reconciled
        (reconcile_employee codec now today (some id) employee s))

  unfoldable pub on_category : ℕ → Text → Store → Store × Result EventError (Unit {0})
  on_category id payload s = decoded (payloads.category_id payload) s (λ category.
      outcome_with rules_not_reconciled
        (reconcile_rule_change codec now today (some id) category s))

  unfoldable pub on_segment : ℕ → Text → Store → Store × Result EventError (Unit {0})
  on_segment id payload s =
      decoded (payloads.segment_id payload) s
        (λ segment. outcome_with segment_not_reconciled (change_segment (some id) segment s))

  -- `processEvent`
  unfoldable pub process_event : ℕ → Text → Text → Store → Store × Result EventError (Unit {0})
  process_event id event_type payload s =
      if text_eq event_type (codes "fact_changed") || text_eq event_type (codes "employee_changed")
      then on_employee id payload s
      else if text_eq event_type (codes "rule_changed")
          || text_eq event_type (codes "category_changed")
      then on_category id payload s
      else if text_eq event_type (codes "segment_changed")
      then on_segment id payload s
      else (s, err (unknown_event_type event_type))

  -- The worker that `ProcessBatch` is: it handles each event by `processEvent`.
  abbrev pub event_worker :
      (List OutboxRow → List OutboxRow) → (List OutboxRow → List ℕ) → Worker Store
  event_worker returning locked = record {
    handle =
        λ ev s. let (s', r) = process_event ev.id ev.event_type ev.payload s in (s', succeeds r);
    returning = returning;
    locked = locked;
  }
