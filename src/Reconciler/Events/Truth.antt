-- ===== src/Reconciler/Events/Truth.antt =====
-- What an event leaves alone: the tables that the projection is derived from.
use wrap_policy_assignment_s.Base.{
  ℕ, ◌≡◌, refl, ◌∙◌, Bool, true, false, ◌||◌, inl, inr, Option, none, some, List, [], ◌∷◌,
  Bool-cases, Option-cases, Result-cases, if◌then◌else◌, Result, ok, err,
}
use wrap_policy_assignment_s.Base.Int.{ℤ}
use wrap_policy_assignment_s.Base.Text.{Text, codes, text_eq}
use wrap_policy_assignment_s.Resolver.Types.{CategoryConfig}
use wrap_policy_assignment_s.Repo.Facts.{SegmentMember}
use wrap_policy_assignment_s.Repo.Segments.{Segment, set_segment_members}
use wrap_policy_assignment_s.Repo.Projection.{Projection, materialize}
use wrap_policy_assignment_s.Repo.Traces.{TraceTable, persist_trace}
use wrap_policy_assignment_s.Repo.Store.{
  Store, Codec, list_categories, list_employee_ids, list_segments, resolve_for_employee,
}
use wrap_policy_assignment_s.Reconciler.Segments.{
  SegmentWorker, reconcile_all, reconcile_segment_change, find_segment,
}
use wrap_policy_assignment_s.Reconciler.Employee.{
  and_then, materialize_and_trace, materialize_only, reconcile_categories, reconcile_employees,
  reconcile_employee, reconcile_rule_change,
}
use wrap_policy_assignment_s.Reconciler.Events.{
  Payloads, EventError, unknown_event_type, on_employee, on_category, on_segment, segment_worker,
  change_segment, process_event,
}

-- The tables that nothing derives are the same; the members of the segments, the projection and the
-- traces may differ.
pub record KeepsTruth (s s' : Store) : Type 0 where
  pub categories : s'.categories ≡ s.categories
  pub definitions : s'.definitions ≡ s.definitions
  pub employees : s'.employees ≡ s.employees
  pub facts : s'.facts ≡ s.facts
  pub segments : s'.segments ≡ s.segments
  pub rules : s'.rules ≡ s.rules
  pub outbox : s'.outbox ≡ s.outbox

pub KeepsTruth-refl : (s : Store) → KeepsTruth s s
KeepsTruth-refl s = record {
  categories = refl;
  definitions = refl;
  employees = refl;
  facts = refl;
  segments = refl;
  rules = refl;
  outbox = refl;
}

pub KeepsTruth-trans : (a b c : Store) → KeepsTruth a b → KeepsTruth b c → KeepsTruth a c
KeepsTruth-trans a b c h k = record {
  categories = k.categories ∙ h.categories;
  definitions = k.definitions ∙ h.definitions;
  employees = k.employees ∙ h.employees;
  facts = k.facts ∙ h.facts;
  segments = k.segments ∙ h.segments;
  rules = k.rules ∙ h.rules;
  outbox = k.outbox ∙ h.outbox;
}

-- The derived tables may be written.
pub derives :
    (s : Store) (p : Projection) (t : TraceTable) (m : List SegmentMember)
    → KeepsTruth s (record s { projection = p; traces = t; members = m })
derives s p t m = record {
  categories = refl;
  definitions = refl;
  employees = refl;
  facts = refl;
  segments = refl;
  rules = refl;
  outbox = refl;
}

and_then-KeepsTruth :
    {E : Type 0} (a : Store) (m : Store × Result E (Unit {0}))
    (next : Store → Store × Result E (Unit {0}))
    → KeepsTruth a m.0
    → ((s : Store) → KeepsTruth s (next s).0)
    → KeepsTruth a (and_then m next).0
and_then-KeepsTruth a (s, ok u) next h k = KeepsTruth-trans a s (next s).0 h (k s)
and_then-KeepsTruth a (s, err e) next h k = h

if-KeepsTruth :
    {R : Type 0} (s : Store) (b : Bool) (x y : Store × R)
    → KeepsTruth s x.0
    → KeepsTruth s y.0
    → KeepsTruth s (if b then x else y).0
if-KeepsTruth s true x y h k = h
if-KeepsTruth s false x y h k = k

module _ (codec : Codec) (now : ℤ) (today : Text) (trigger : Option ℕ) where
  materialize_and_trace-KeepsTruth :
      (employee category : Text) (s : Store)
      → KeepsTruth s (materialize_and_trace codec now today trigger employee category s).0
  unfolding materialize_and_trace
  materialize_and_trace-KeepsTruth employee category s =
      elim (Result-cases (resolve_for_employee codec now employee category today s)) [
        | inr (e, r) ↦ rw (r, materialize_and_trace) (KeepsTruth-refl s)
        | inl (res, r) ↦
            rw (r, materialize_and_trace)
              (elim (Result-cases (materialize employee res trigger s.projection)) [
                | inr (e, m) ↦ rw m (KeepsTruth-refl s)
                | inl (p, m) ↦
                    rw m
                      (elim (Result-cases (
                        persist_trace codec.trace employee category today (codes "materialize") res
                          s.traces)) [
                            | inr (e, q) ↦ rw q (derives s p s.traces s.members)
                            | inl (t, q) ↦ rw q (derives s p t s.members)
                          ])
              ])
      ]

  materialize_only-KeepsTruth :
      (category employee : Text) (s : Store)
      → KeepsTruth s (materialize_only codec now today trigger category employee s).0
  unfolding materialize_only
  materialize_only-KeepsTruth category employee s =
      elim (Result-cases (resolve_for_employee codec now employee category today s)) [
        | inr (e, r) ↦ rw (r, materialize_only) (KeepsTruth-refl s)
        | inl (res, r) ↦
            rw (r, materialize_only)
              (elim (Result-cases (materialize employee res trigger s.projection)) [
                | inr (e, m) ↦ rw m (KeepsTruth-refl s)
                | inl (p, m) ↦ rw m (derives s p s.traces s.members)
              ])
      ]

  pub reconcile_categories-KeepsTruth :
      (employee : Text) (cs : List CategoryConfig) (s : Store)
      → KeepsTruth s (reconcile_categories codec now today trigger employee cs s).0
  unfolding reconcile_categories
  reconcile_categories-KeepsTruth employee [] s = KeepsTruth-refl s
  reconcile_categories-KeepsTruth employee (c ∷ cs) s =
      and_then-KeepsTruth s (materialize_and_trace codec now today trigger employee c.id s)
        (reconcile_categories codec now today trigger employee cs)
        (materialize_and_trace-KeepsTruth employee c.id s)
        (reconcile_categories-KeepsTruth employee cs)

  reconcile_employees-KeepsTruth :
      (category : Text) (es : List Text) (s : Store)
      → KeepsTruth s (reconcile_employees codec now today trigger category es s).0
  unfolding reconcile_employees
  reconcile_employees-KeepsTruth category [] s = KeepsTruth-refl s
  reconcile_employees-KeepsTruth category (e ∷ es) s =
      and_then-KeepsTruth s (materialize_only codec now today trigger category e s)
        (reconcile_employees codec now today trigger category es)
        (materialize_only-KeepsTruth category e s) (reconcile_employees-KeepsTruth category es)

  reconcile_employee-KeepsTruth :
      (employee : Text) (s : Store)
      → KeepsTruth s (reconcile_employee codec now today trigger employee s).0
  unfolding reconcile_employee
  reconcile_employee-KeepsTruth employee s =
      reconcile_categories-KeepsTruth employee (list_categories s) s

reconcile_all-KeepsTruth :
    (worker : SegmentWorker Store)
    → ((id : Text) (members : List SegmentMember) (s : Store)
        → KeepsTruth s (worker.reconcile id members s).0)
    → (members : List SegmentMember) (ids : List Text) (s : Store)
    → KeepsTruth s (reconcile_all worker members ids s).0
unfolding reconcile_all
reconcile_all-KeepsTruth worker step members [] s = KeepsTruth-refl s
reconcile_all-KeepsTruth worker step members (id ∷ ids) s =
    let s' = (worker.reconcile id members s).0 in
    elim (Bool-cases (worker.reconcile id members s).1) [
      | inl t ↦ rw t (
          KeepsTruth-trans s s' (reconcile_all worker members ids s').0 (step id members s)
            (reconcile_all-KeepsTruth worker step members ids s'))
      | inr f ↦ rw f (step id members s)
    ]

reconcile_segment_change-KeepsTruth :
    (worker : SegmentWorker Store)
    → ((id : Text) (members : List SegmentMember) (s : Store)
        → KeepsTruth s (worker.reconcile id members s).0)
    → (segments : List Segment) (id : Text) (members : List SegmentMember) (s : Store)
    → KeepsTruth s (reconcile_segment_change worker segments id members s).1
unfolding reconcile_segment_change
reconcile_segment_change-KeepsTruth worker step segments id members s =
    elim (Option-cases (find_segment id segments none)) [
      | inl n ↦ rw (n, reconcile_segment_change) (KeepsTruth-refl s)
      | inr (seg, e) ↦
          rw (e, reconcile_segment_change)
            (elim (Result-cases (worker.recompute seg s members)) [
              | inr (x, r) ↦ rw r (KeepsTruth-refl s)
              | inl (new, r) ↦
                  rw r
                    (reconcile_all-KeepsTruth worker step (set_segment_members id new members) _ s)
            ])
    ]

module _ (codec : Codec) (payloads : Payloads) (shuffle : List Text → List Text) (now : ℤ)
    (today : Text) where
  change_segment-KeepsTruth :
      (trigger : Option ℕ) (id : Text) (s : Store)
      → KeepsTruth s (change_segment codec payloads shuffle now today trigger id s).0
  unfolding change_segment
  change_segment-KeepsTruth trigger id s =
      let worker = segment_worker codec payloads shuffle now today trigger in
      let s' = (reconcile_segment_change worker (list_segments s) id s.members s).1 in
      KeepsTruth-trans s s'
        (record s' {
          members = (reconcile_segment_change worker (list_segments s) id s.members s).0;
        })
        (reconcile_segment_change-KeepsTruth worker
          (λ id members s.
            KeepsTruth-trans s (record s { members = members }) _
              (derives s s.projection s.traces members)
              (reconcile_employee-KeepsTruth codec now today trigger id
                (record s { members = members })))
          (list_segments s) id s.members s)
        (derives s' s'.projection s'.traces _)

  on_employee-KeepsTruth :
      (id : ℕ) (payload : Text) (s : Store)
      → KeepsTruth s (on_employee codec payloads shuffle now today id payload s).0
  unfolding on_employee
  on_employee-KeepsTruth id payload s = elim (Option-cases (payloads.employee_id payload)) [
    | inl n ↦ rw n (KeepsTruth-refl s)
    | inr (employee, e) ↦ rw e (reconcile_employee-KeepsTruth codec now today (some id) employee s)
  ]

  on_category-KeepsTruth :
      (id : ℕ) (payload : Text) (s : Store)
      → KeepsTruth s (on_category codec payloads shuffle now today id payload s).0
  unfolding on_category reconcile_rule_change
  on_category-KeepsTruth id payload s = elim (Option-cases (payloads.category_id payload)) [
    | inl n ↦ rw n (KeepsTruth-refl s)
    | inr (category, e) ↦
        rw e (
          reconcile_employees-KeepsTruth codec now today (some id) category (list_employee_ids s) s)
  ]

  on_segment-KeepsTruth :
      (id : ℕ) (payload : Text) (s : Store)
      → KeepsTruth s (on_segment codec payloads shuffle now today id payload s).0
  unfolding on_segment
  on_segment-KeepsTruth id payload s = elim (Option-cases (payloads.segment_id payload)) [
    | inl n ↦ rw n (KeepsTruth-refl s)
    | inr (segment, e) ↦ rw e (change_segment-KeepsTruth (some id) segment s)
  ]

  pub process_event-KeepsTruth :
      (id : ℕ) (event_type payload : Text) (s : Store)
      → KeepsTruth s (process_event codec payloads shuffle now today id event_type payload s).0
  unfolding process_event
  process_event-KeepsTruth id event_type payload s =
      let employee = on_employee codec payloads shuffle now today id payload s in
      let category = on_category codec payloads shuffle now today id payload s in
      let segment = on_segment codec payloads shuffle now today id payload s in
      let is_employee =
        text_eq event_type (codes "fact_changed")
        || text_eq event_type (codes "employee_changed") in
      let is_category =
        text_eq event_type (codes "rule_changed")
        || text_eq event_type (codes "category_changed") in
      let is_segment = text_eq event_type (codes "segment_changed") in
      let unknown : Store × Result EventError (Unit {0}) =
        (s, err (unknown_event_type event_type)) in
      let rest : Store × Result EventError (Unit {0}) = if is_segment then segment else unknown in
      if-KeepsTruth s is_employee employee (if is_category then category else rest)
        (on_employee-KeepsTruth id payload s)
        (if-KeepsTruth s is_category category rest (on_category-KeepsTruth id payload s) (
          if-KeepsTruth s is_segment segment unknown (on_segment-KeepsTruth id payload s)
            (KeepsTruth-refl s)))
