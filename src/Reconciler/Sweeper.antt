-- ===== src/Reconciler/Sweeper.antt =====
-- internal/reconciler/sweeper.go: the sweeper, which compares the projection of every employee with
-- what the resolver decides, and repairs it. The end of the context is not modelled.
pub mod Agreement
pub mod Truth
use wrap_policy_assignment_s.Base.{
  ℕ, suc, ◌+◌, Bool, true, false, not, ◌&&◌, ◌==◌, Option, none, some, List, [], ◌∷◌, ◌++◌, length,
  if◌then◌else◌, Result, ok, err, map_ok,
}
use wrap_policy_assignment_s.Base.Int.{ℤ}
use wrap_policy_assignment_s.Base.Text.{Text, text_eq}
use wrap_policy_assignment_s.Base.Map.{Map, lookup}
use wrap_policy_assignment_s.Resolver.Types.{CategoryConfig, Assignment}
use wrap_policy_assignment_s.Resolver.Ast.Validate.{mem_text}
use wrap_policy_assignment_s.Repo.Projection.{assigned_policies}
use wrap_policy_assignment_s.Repo.Segments.{
  Segment, SegmentError, recompute_segment_members, get_segment_members, set_segment_members,
}
use wrap_policy_assignment_s.Repo.Store.{
  Store, StoreError, Codec, list_categories, list_employee_ids, list_segments, resolve_for_employee,
}
use wrap_policy_assignment_s.Reconciler.Employee.{ReconcileError, reconcile_categories}

pub record DriftRow : Type 0 where
  pub employee_id : Text
  pub category_id : Text
  pub expected : Text
  pub actual : Text

pub record SweepStats : Type 0 where
  pub checked : ℕ
  pub repaired : ℕ
  pub drift : List DriftRow

pub data SweepError : Type 0 where
  segment_not_recomputed : Text → SegmentError → SweepError
  sweep_not_resolved : Text → Text → StoreError → SweepError
  not_repaired : Text → ReconcileError → SweepError

-- The second loop of `sameSet`; the map `set` is `mem_text`.
unfoldable pub all_in : List Text → List Text → Bool
all_in a [] = true
all_in a (x ∷ xs) = mem_text x a && all_in a xs

-- `sameSet`
unfoldable pub same_set : List Text → List Text → Bool
same_set a b = length a == length b && all_in a b

-- `res.Assignments[0].PolicyID`, or no text.
abbrev pub expected_policy : List Assignment → Text
expected_policy [] = []
expected_policy (a ∷ rest) = a.policy_id

-- `actual[cat.ID]`, where a missing key reads as no text.
abbrev pub actual_policy : Option Text → Text
actual_policy none = []
actual_policy (some p) = p

module _ (codec : Codec) (now : ℤ) (today : Text) where
  -- The loop of `rebuildSegments`. `len(members) - len(stored) + len(stored)` is the number of the
  -- members.
  unfoldable pub rebuild_segments :
      List Segment → Store → SweepStats → Store × SweepStats × Result SweepError (Unit {0})
  rebuild_segments [] s stats = (s, stats, ok tt)
  rebuild_segments (seg ∷ segs) s stats =
      elim (recompute_segment_members codec.predicate codec.decode s.members s.facts today
        (list_employee_ids s) seg) [
          | err e ↦ (s, stats, err (segment_not_recomputed seg.id e))
          | ok members ↦ elim (same_set (get_segment_members seg.id s.members) members) [
            | true ↦ rebuild_segments segs s stats
            | false ↦
                rebuild_segments segs
                  (record s { members = set_segment_members seg.id members s.members })
                  (record stats { repaired = stats.repaired + length members })
          ]
        ]

  -- The inner loop of `Run`: the drift of one employee.
  unfoldable pub find_drift :
      Text → Map Text → List CategoryConfig → Store → Result SweepError (List DriftRow)
  find_drift employee actual [] s = ok []
  find_drift employee actual (c ∷ cs) s =
      let rest = find_drift employee actual cs s in
      elim (resolve_for_employee codec now employee c.id today s) [
        | err e ↦ err (sweep_not_resolved c.id employee e)
        | ok res ↦
            let expected = expected_policy res.assignments in
            let found = actual_policy (lookup c.id actual) in
            if text_eq found expected
            then rest
            else map_ok
                (λ rows.
                  record {
                    employee_id = employee;
                    category_id = c.id;
                    expected = expected;
                    actual = found;
                  }
                  ∷ rows)
                rest
      ]

  -- `repair`
  unfoldable pub repair :
      Text → List CategoryConfig → Store → Store × Result ReconcileError (Unit {0})
  repair employee cats s = reconcile_categories codec now today none employee cats s

  -- What follows on the drift of an employee.
  unfoldable pub settle_drift :
      Text
      → List CategoryConfig
      → List DriftRow
      → Store
      → SweepStats
      → Store × SweepStats × Result SweepError (Unit {0})
  settle_drift employee cats [] s stats = (s, stats, ok tt)
  settle_drift employee cats (d ∷ drift) s stats =
      let (s', r) = repair employee cats s in
      elim r [
        | err e ↦ (s', stats, err (not_repaired employee e))
        | ok u ↦ (
          s',
          record stats { repaired = suc stats.repaired; drift = stats.drift ++ d ∷ drift },
          ok tt,
        )
      ]

  -- The body of the loop of `Run`.
  unfoldable pub sweep_employee :
      Text
      → List CategoryConfig
      → Store
      → SweepStats
      → Store × SweepStats × Result SweepError (Unit {0})
  sweep_employee employee cats s stats =
      let counted = record stats { checked = suc stats.checked } in
      elim (find_drift employee (assigned_policies employee s.projection) cats s) [
        | err e ↦ (s, counted, err e)
        | ok drift ↦ settle_drift employee cats drift s counted
      ]

  -- The loop of `Run`.
  unfoldable pub sweep_employees :
      List Text
      → List CategoryConfig
      → Store
      → SweepStats
      → Store × SweepStats × Result SweepError (Unit {0})
  sweep_employees [] cats s stats = (s, stats, ok tt)
  sweep_employees (employee ∷ employees) cats s stats =
      let (s', stats', r) = sweep_employee employee cats s stats in
      let rest = sweep_employees employees cats s' stats' in
      elim r [ err e ↦ (s', stats', err e) | ok u ↦ rest ]

  abbrev pub no_stats : SweepStats
  no_stats = record { checked = 0; repaired = 0; drift = [] }

  -- `Run` of the sweeper.
  unfoldable pub run_sweep : Store → Store × SweepStats × Result SweepError (Unit {0})
  run_sweep s =
      let (s', stats, r) = rebuild_segments (list_segments s) s no_stats in
      elim r [
        | err e ↦ (s', stats, err e)
        | ok u ↦ sweep_employees (list_employee_ids s) (list_categories s) s' stats
      ]
