-- ===== src/Repo/Tests/Projecting.antt =====
-- A resolution written over an older one.
use wrap_policy_assignment_s.Base.{◌≡◌, refl, some, none, false, [], ◌∷◌, Result, ok, err, keep}
use wrap_policy_assignment_s.Base.Int.{pos}
use wrap_policy_assignment_s.Base.Text.{Text, codes, cmp_text}
use wrap_policy_assignment_s.Base.Date.{parse_date, day_number}
use wrap_policy_assignment_s.Resolver.Types.{single, priority_rank, authored, shadowed, Assignment}
use wrap_policy_assignment_s.Resolver.Trace.{won_over}
use wrap_policy_assignment_s.Resolver.Resolve.{Resolution, assemble}
use wrap_policy_assignment_s.Repo.Facts.{pg_date}
use wrap_policy_assignment_s.Repo.Projection.{
  AssignmentRow, Projection, ProjectionError, replace_current, insert_all, is_taken, materialize,
}
use wrap_policy_assignment_s.Repo.Projection.Materializing.{Holds, materialize-Holds}

abbrev won : Assignment
won = record {
  policy_id = codes "p2";
  policy_version_id = [];
  rule_id = codes "r2";
  source = authored;
}

abbrev resolution : Resolution
resolution =
    assemble
      (record {
        id = codes "pto";
        cardinality = single;
        resolution_strategy = priority_rank;
        default_priority = pos 0;
        tiebreaker = [];
      })
      (codes "2026-03-01") [] []
      (record {
        outcome = shadowed;
        undecided = false;
        assignments = won ∷ [];
        shadowed = record { rule_id = codes "r1"; by_rule_id = codes "r2" } ∷ [];
        options = [];
      })
      [] (won_over (codes "r2") 1)

abbrev held : Text → AssignmentRow
held employee = record {
  employee_id = employee;
  category_id = codes "pto";
  policy_id = codes "p1";
  policy_version_id = [];
  rule_id = codes "r1";
  lower = 740000;
  upper = none;
  trigger_event_id = none;
}

-- One row of the employee and one of another.
abbrev before : Projection
before = record { assignments = held (codes "e1") ∷ held (codes "e2") ∷ []; shadowed = [] }

abbrev projection_of : Result ProjectionError Projection → Projection
projection_of (ok p) = p
projection_of (err e) = before

abbrev after : Projection
after = projection_of (materialize (codes "e1") resolution (some 7) before)

written : materialize (codes "e1") resolution (some 7) before ≡ ok after
unfolding materialize pg_date parse_date day_number replace_current insert_all is_taken keep
    cmp_text
written = refl

dated : pg_date (codes "2026-03-01") ≡ ok 740042
unfolding pg_date parse_date day_number
dated = refl

materialize-Holds_example : Holds (codes "e1") resolution (some 7) 740042 before after
materialize-Holds_example =
    materialize-Holds (codes "e1") resolution (some 7) before after 740042 dated written
