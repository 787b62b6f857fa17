-- ===== src/Reconciler/Sweeper/Truth.antt =====
-- What a sweep leaves alone, and an event.
use wrap_policy_assignment_s.Base.{
  ℕ, ◌+◌, length, inl, inr, none, List, [], ◌∷◌, Bool-cases, Result-cases,
}
use wrap_policy_assignment_s.Base.Int.{ℤ}
use wrap_policy_assignment_s.Base.Text.{Text}
use wrap_policy_assignment_s.Resolver.Types.{CategoryConfig}
use wrap_policy_assignment_s.Repo.Segments.{
  Segment, get_segment_members, recompute_segment_members, set_segment_members,
}
use wrap_policy_assignment_s.Repo.Projection.{assigned_policies}
use wrap_policy_assignment_s.Repo.Store.{
  Store, Codec, list_categories, list_employee_ids, list_segments,
}
use wrap_policy_assignment_s.Reconciler.Employee.{reconcile_categories}
use wrap_policy_assignment_s.Reconciler.Sweeper.{
  DriftRow, SweepStats, same_set, find_drift, rebuild_segments, repair, settle_drift,
  sweep_employee, sweep_employees, no_stats, run_sweep,
}
use wrap_policy_assignment_s.Reconciler.Events.{Payloads, process_event}
use wrap_policy_assignment_s.Reconciler.Events.Truth.{
  KeepsTruth, KeepsTruth-refl, KeepsTruth-trans, derives, reconcile_categories-KeepsTruth,
  process_event-KeepsTruth,
}

module _ (codec : Codec) (now : ℤ) (today : Text) where
  rebuild_segments-KeepsTruth :
      (segments : List Segment) (s : Store) (stats : SweepStats)
      → KeepsTruth s (rebuild_segments codec now today segments s stats).0
  unfolding rebuild_segments
  rebuild_segments-KeepsTruth [] s stats = KeepsTruth-refl s
  rebuild_segments-KeepsTruth (seg ∷ segs) s stats =
      elim (Result-cases (
        recompute_segment_members codec.predicate codec.decode s.members s.facts today
          (list_employee_ids s) seg)) [
            | inr (e, r) ↦ rw (r, rebuild_segments) (KeepsTruth-refl s)
            | inl (new, r) ↦
                rw (r, rebuild_segments)
                  (elim (Bool-cases (same_set (get_segment_members seg.id s.members) new)) [
                    | inl t ↦ rw t (rebuild_segments-KeepsTruth segs s stats)
                    | inr f ↦ rw f (
                        let s' : Store = record s {
                          members = set_segment_members seg.id new s.members;
                        } in
                        let counted : SweepStats = record stats {
                          repaired = stats.repaired + length new;
                        } in
                        KeepsTruth-trans s s' (rebuild_segments codec now today segs s' counted).0
                          (derives s s.projection s.traces s'.members)
                          (rebuild_segments-KeepsTruth segs s' counted))
                  ])
          ]

  settle_drift-KeepsTruth :
      (employee : Text) (cats : List CategoryConfig) (drift : List DriftRow) (s : Store)
      (stats : SweepStats)
      → KeepsTruth s (settle_drift codec now today employee cats drift s stats).0
  unfolding settle_drift repair
  settle_drift-KeepsTruth employee cats [] s stats = KeepsTruth-refl s
  settle_drift-KeepsTruth employee cats (d ∷ drift) s stats =
      let kept = reconcile_categories-KeepsTruth codec now today none employee cats s in
      elim (Result-cases (reconcile_categories codec now today none employee cats s).1) [
        | inr (e, r) ↦ rw (r, settle_drift) kept
        | inl (u, r) ↦ rw (r, settle_drift) kept
      ]

  sweep_employee-KeepsTruth :
      (employee : Text) (cats : List CategoryConfig) (s : Store) (stats : SweepStats)
      → KeepsTruth s (sweep_employee codec now today employee cats s stats).0
  unfolding sweep_employee
  sweep_employee-KeepsTruth employee cats s stats =
      elim (Result-cases
        (find_drift codec now today employee (assigned_policies employee s.projection) cats s)) [
          | inr (e, r) ↦ rw (r, sweep_employee) (KeepsTruth-refl s)
          | inl (drift, r) ↦
              rw (r, sweep_employee) (settle_drift-KeepsTruth employee cats drift s _)
        ]

  sweep_employees-KeepsTruth :
      (employees : List Text) (cats : List CategoryConfig) (s : Store) (stats : SweepStats)
      → KeepsTruth s (sweep_employees codec now today employees cats s stats).0
  unfolding sweep_employees
  sweep_employees-KeepsTruth [] cats s stats = KeepsTruth-refl s
  sweep_employees-KeepsTruth (e ∷ es) cats s stats =
      let step = sweep_employee codec now today e cats s stats in
      let kept = sweep_employee-KeepsTruth e cats s stats in
      elim (Result-cases step.2) [
        | inr (x, r) ↦ rw (r, sweep_employees) kept
        | inl (u, r) ↦
            rw (r, sweep_employees)
              (KeepsTruth-trans s step.0 (sweep_employees codec now today es cats step.0 step.1).0
                kept (sweep_employees-KeepsTruth es cats step.0 step.1))
      ]

  run_sweep-KeepsTruth : (s : Store) → KeepsTruth s (run_sweep codec now today s).0
  unfolding run_sweep
  run_sweep-KeepsTruth s =
      let first = rebuild_segments codec now today (list_segments s) s (no_stats codec now today) in
      let kept = rebuild_segments-KeepsTruth (list_segments s) s (no_stats codec now today) in
      elim (Result-cases first.2) [
        | inr (x, r) ↦ rw (r, run_sweep) kept
        | inl (u, r) ↦
            rw (r, run_sweep)
              (KeepsTruth-trans s first.0
                (sweep_employees codec now today (list_employee_ids s) (list_categories s) first.0
                  first.1).0
                kept
                (sweep_employees-KeepsTruth (list_employee_ids s) (list_categories s) first.0
                  first.1))
      ]

-- An event, whatever its type and its payload, and a sweep change no table but the projection, the
-- traces and the members of the segments, also where they fail.
pub process_event-KeepsTruth_sweep :
    (codec : Codec) (payloads : Payloads) (shuffle : List Text → List Text) (now : ℤ) (today : Text)
    (id : ℕ) (event_type payload : Text) (s : Store)
    → KeepsTruth s (process_event codec payloads shuffle now today id event_type payload s).0
      × KeepsTruth s (run_sweep codec now today s).0
process_event-KeepsTruth_sweep codec payloads shuffle now today id event_type payload s = (
  process_event-KeepsTruth codec payloads shuffle now today id event_type payload s,
  run_sweep-KeepsTruth codec now today s,
)
