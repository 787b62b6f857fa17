-- ===== src/Reconciler/Segments.antt =====
-- internal/reconciler/reconciler.go: `ReconcileSegmentChange`.
pub mod Affected
use wrap_policy_assignment_s.Base.{
  Bool, true, false, not, Option, none, some, List, [], ◌∷◌, map, Result, ok, err, ◌>>=◌,
  if◌then◌else◌,
}
use wrap_policy_assignment_s.Base.Text.{Text, text_eq}
use wrap_policy_assignment_s.Base.Map.{Map, insert}
use wrap_policy_assignment_s.Resolver.Ast.Validate.{mem_text}
use wrap_policy_assignment_s.Repo.Facts.{SegmentMember}
use wrap_policy_assignment_s.Repo.Segments.{
  Segment, SegmentError, get_segment_members, set_segment_members,
}

-- The loop that looks for the segment: the last one with the id.
unfoldable pub find_segment : Text → List Segment → Option Segment → Option Segment
find_segment id [] found = found
find_segment id (s ∷ segments) found =
    find_segment id segments (if text_eq s.id id then some s else found)

-- The loop over the new members, which marks those that enter. `mem_text` is `had`.
unfoldable pub enter : List Text → List Text → Map Bool → Map Bool
enter current [] changed = changed
enter current (id ∷ ids) changed =
    enter current ids (if not (mem_text id current) then insert id true changed else changed)

-- The loop over the current members, which marks those that leave. `mem_text` is `hadCurrent`.
unfoldable pub leave : List Text → List Text → Map Bool → Map Bool
leave new [] changed = changed
leave new (id ∷ ids) changed =
    leave new ids (if not (mem_text id new) then insert id true changed else changed)

-- The map `changed`.
unfoldable pub changed_members : List Text → List Text → Map Bool
changed_members current new = leave new current (enter current new [])

pub data SegmentChangeError : Type 0 where
  not_found : Text → SegmentChangeError
  not_recomputed : SegmentError → SegmentChangeError
  not_reconciled : Text → SegmentChangeError

-- What the change of a segment is handled with: `recompute` is `RecomputeSegmentMembers`,
-- `reconcile` is `ReconcileEmployee`, with whether it returned no error, and `shuffle` is the order
-- in which a map is ranged over. The World has all tables but the members of the segments.
pub record SegmentWorker (World : Type 0) : Type 0 where
  pub recompute : Segment → World → List SegmentMember → Result SegmentError (List Text)
  pub reconcile : Text → List SegmentMember → World → World × Bool
  pub shuffle : List Text → List Text

-- The loop over the changed employees, with the error that ends it.
unfoldable pub reconcile_all :
    {World : Type 0}
    → SegmentWorker World
    → List SegmentMember
    → List Text
    → World
    → World × Result SegmentChangeError (Unit {0})
reconcile_all worker members [] world = (world, ok tt)
reconcile_all worker members (id ∷ ids) world =
    let (world', done) = worker.reconcile id members world in
    let rest = reconcile_all worker members ids world' in
    if done then rest else (world', err (not_reconciled id))

-- `ReconcileSegmentChange`: the members and the other tables after it, and its error.
unfoldable pub reconcile_segment_change :
    {World : Type 0}
    → SegmentWorker World
    → List Segment
    → Text
    → List SegmentMember
    → World
    → List SegmentMember × World × Result SegmentChangeError (Unit {0})
reconcile_segment_change worker segments id members world = elim (find_segment id segments none) [
  | none ↦ (members, world, err (not_found id))
  | some seg ↦ elim (worker.recompute seg world members) [
    | err e ↦ (members, world, err (not_recomputed e))
    | ok new ↦
        let changed =
          map (λ ((employee, marked) : Text × Bool). employee)
            (changed_members (get_segment_members id members) new) in
        let members' = set_segment_members id new members in
        let (world', result) = reconcile_all worker members' (worker.shuffle changed) world in
        (members', world', result)
  ]
]
