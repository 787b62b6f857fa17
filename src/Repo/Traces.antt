-- ===== src/Repo/Traces.antt =====
-- `PersistTrace` and `LatestTrace` of internal/repo/resolve.go, and gen/db/traces.sql.go: the stored
-- decision traces.
use wrap_policy_assignment_s.Base.{
  ℕ, suc, Bool, ◌&&◌, ◌||◌, ◌==◌, Option, none, some, List, [], ◌∷◌, ◌++◌, keep, take, Result, ok,
  err, ◌>>=◌, ◌>>◌, guard, wrap,
}
use wrap_policy_assignment_s.Base.Int.{ℤ, cmp_int}
use wrap_policy_assignment_s.Base.Order.{is_lt, flip}
use wrap_policy_assignment_s.Base.Text.{Text, codes, text_eq}
use wrap_policy_assignment_s.Base.Map.{Map}
use wrap_policy_assignment_s.Base.Sort.{sort_by}
use wrap_policy_assignment_s.Resolver.Value.{Value}
use wrap_policy_assignment_s.Resolver.Types.{Outcome}
use wrap_policy_assignment_s.Resolver.Trace.{PolicySnapshot, RuleEvaluation}
use wrap_policy_assignment_s.Resolver.Resolve.{Resolution}
use wrap_policy_assignment_s.Repo.Facts.{FactError, pg_date}

-- `DecisionTrace` of gen/db/models.go. `created_at` is an instant.
pub record TraceRow : Type 0 where
  pub id : ℕ
  pub employee_id : Text
  pub category_id : Text
  pub as_of_date : ℕ
  pub trigger : Text
  pub outcome : Outcome
  pub facts_snapshot : Text
  pub policy_snapshot : Text
  pub evaluated : Text
  pub created_at : ℤ

-- The table, the sequence of its ids, and the time of the database.
pub record TraceTable : Type 0 where
  pub rows : List TraceRow
  pub next_id : ℕ
  pub now : ℤ

pub data TraceError : Type 0 where
  unencodable_facts unencodable_policy unencodable_lines : TraceError
  bad_trace_date : FactError → TraceError
  bad_trigger : Text → TraceError
  no_trace : TraceError

-- `json.Marshal` on the three parts of a trace, where `none` is its error.
pub record TraceEncoder : Type 0 where
  pub facts : Map Value → Option Text
  pub policy : PolicySnapshot → Option Text
  pub lines : List RuleEvaluation → Option Text

abbrev encoded : TraceError → Option Text → Result TraceError Text
encoded e none = err e
encoded e (some s) = ok s

-- The constraint on the column `trigger`.
abbrev pub is_trace_trigger : Text → Bool
is_trace_trigger s =
    text_eq s (codes "materialize")
    || text_eq s (codes "explain_query")
    || text_eq s (codes "preview")
    || text_eq s (codes "reconcile")

-- `InsertDecisionTrace`, of a row without its id and its instant.
unfoldable pub insert_decision_trace : TraceRow → TraceTable → Result TraceError TraceTable
insert_decision_trace r t = do
  guard (is_trace_trigger r.trigger) (bad_trigger r.trigger)
  ok (record t {
    rows = t.rows ++ record r { id = t.next_id; created_at = t.now } ∷ [];
    next_id = suc t.next_id;
  })

-- `PersistTrace`
unfoldable pub persist_trace :
    TraceEncoder
    → Text
    → Text
    → Text
    → Text
    → Resolution
    → TraceTable
    → Result TraceError TraceTable
persist_trace encode employee category date trigger res t = do
  facts ← encoded unencodable_facts (encode.facts res.trace.facts_snapshot)
  policy ← encoded unencodable_policy (encode.policy res.trace.policy_snapshot)
  lines ← encoded unencodable_lines (encode.lines res.trace.evaluated)
  day ← wrap bad_trace_date (pg_date date)
  insert_decision_trace
      (record {
        id = 0;
        employee_id = employee;
        category_id = category;
        as_of_date = day;
        trigger = trigger;
        outcome = res.outcome;
        facts_snapshot = facts;
        policy_snapshot = policy;
        evaluated = lines;
        created_at = t.now;
      })
      t

abbrev pub is_trace_of : Text → Text → ℕ → TraceRow → Bool
is_trace_of employee category day r =
    text_eq r.employee_id employee && text_eq r.category_id category && r.as_of_date == day

-- `GetDecisionTrace`
unfoldable pub get_decision_trace : Text → Text → ℕ → ℕ → List TraceRow → List TraceRow
get_decision_trace employee category day limit rows = take limit (
    sort_by (λ (a b : TraceRow). is_lt (flip (cmp_int a.created_at b.created_at)))
      (keep (is_trace_of employee category day) rows))

abbrev latest : List TraceRow → Result TraceError TraceRow
latest [] = err no_trace
latest (r ∷ rs) = ok r

-- `LatestTrace`
unfoldable pub latest_trace : Text → Text → Text → TraceTable → Result TraceError TraceRow
latest_trace employee category date t = do
  day ← wrap bad_trace_date (pg_date date)
  latest (get_decision_trace employee category day 1 t.rows)
