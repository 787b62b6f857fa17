-- ===== src/Api/Employees.antt =====
-- internal/api/handlers.go: the handlers under /employees. `listing` is the order in which Go ranges
-- over a map, `now` is the time of the call and `today` is `utils.TodayUTC` then.
use wrap_policy_assignment_s.Base.{
  not, ◌||◌, Option, none, some, List, [], ◌∷◌, ◌++◌, map, Result, ok, err, ◌>>=◌, ◌>>◌, guard,
  wrap,
}
use wrap_policy_assignment_s.Base.Int.{ℤ, pos_part}
use wrap_policy_assignment_s.Base.Text.{Text, codes}
use wrap_policy_assignment_s.Base.Map.{Map, lookup}
use wrap_policy_assignment_s.Resolver.Value.{Value, string}
use wrap_policy_assignment_s.Resolver.Types.{
  Outcome, conflict_needs_decision, Assignment, DecisionOption,
}
use wrap_policy_assignment_s.Resolver.Facts.{hire_date_key}
use wrap_policy_assignment_s.Resolver.Resolve.{Resolution}
use wrap_policy_assignment_s.Repo.Facts.{FactTable, FactError, add_fact}
use wrap_policy_assignment_s.Repo.Traces.{latest_trace}
use wrap_policy_assignment_s.Repo.Store.{Store, Codec, add_employee}
use wrap_policy_assignment_s.Api.{
  ApiError, missing, of_store, of_facts, of_trace, repo_error, decode_body, or_default, is_empty,
  check_day, decimal,
}
use wrap_policy_assignment_s.Api.Readiness.{Readiness, readiness_for}
use wrap_policy_assignment_s.Api.Diff.{resolve_all_categories}

pub record CreateEmployeeRequest : Type 0 where
  pub name : Text
  pub company_id : Text
  pub hired_on : Text
  pub facts : Map Value

-- The response of POST /employees.
pub record CreatedEmployee : Type 0 where
  pub id : Text
  pub name : Text
  pub readiness : Readiness

-- One category in the response of GET /employees/{id}/assignments.
pub data CategoryView : Type 0 where
  undecided : Outcome → List DecisionOption → CategoryView
  decided : Outcome → List Assignment → CategoryView

-- The response of GET /employees/{id}/explain.
pub record Explanation : Type 0 where
  pub category_id : Text
  pub as_of_date : Text
  pub facts_snapshot : Text
  pub policy_snapshot : Text
  pub evaluated : Text

-- The checks of POST /employees, with the default of the company.
abbrev pub check_employee : Option CreateEmployeeRequest → Result ApiError CreateEmployeeRequest
check_employee body = do
  req ← decode_body body
  guard (not (is_empty req.name || is_empty req.hired_on))
      (missing (codes "name" ∷ codes "hired_on" ∷ []))
  check_day req.hired_on
  ok (record req { company_id = or_default req.company_id (codes "co_demo") })

-- The entry of a category in the assignments.
abbrev pub category_view : Text × Resolution → Text × CategoryView
category_view (id, res) = (
  id,
  elim (res.outcome) [
    | conflict_needs_decision ↦ undecided res.outcome res.options
    | _ ↦ decided res.outcome res.assignments
  ],
)

module _ (codec : Codec) (now : ℤ) (today : Text) where
  -- The loop over the facts of a new employee. The facts before an error stay.
  unfoldable pub add_facts :
      Text → Text → List (Text × Value) → FactTable → FactTable × Result FactError (Unit {0})
  add_facts employee hired_on [] t = (t, ok tt)
  add_facts employee hired_on ((k, v) ∷ facts) t =
      elim (add_fact codec.encode employee k v hired_on (codes "hr_edit") t) [
        | err e ↦ (t, err e)
        | ok (t', id) ↦ add_facts employee hired_on facts t'
      ]

  -- The hire date, unless the facts have it.
  unfoldable pub add_hire_date :
      Text → Text → Map Value → FactTable → FactTable × Result FactError (Unit {0})
  add_hire_date employee hired_on facts t = elim (lookup hire_date_key facts) [
    | some v ↦ (t, ok tt)
    | none ↦ add_facts employee hired_on ((hire_date_key, string hired_on) ∷ []) t
  ]

  -- What POST /employees does with a request that it accepts.
  unfoldable pub create_employee :
      (Map Value → List (Text × Value))
      → Text
      → CreateEmployeeRequest
      → Store
      → Store × Result ApiError CreatedEmployee
  create_employee listing id req s = elim (add_employee id req.company_id req.hired_on s) [
    | err e ↦ (s, err (repo_error (of_store e)))
    | ok s1 ↦
        let (t, r) = add_facts id req.hired_on (listing req.facts) s1.facts in
        elim r [
          | err e ↦ (record s1 { facts = t }, err (repo_error (of_facts e)))
          | ok u ↦
              let (t', r') = add_hire_date id req.hired_on req.facts t in
              let s2 : Store = record s1 { facts = t' } in
              elim r' [
                | err e ↦ (s2, err (repo_error (of_facts e)))
                | ok u' ↦ (
                  s2,
                  do
                    readiness ←
                        wrap (λ e. repo_error (of_store e))
                          (readiness_for codec now id req.hired_on s2)
                    ok (record { id = id; name = req.name; readiness = readiness }),
                )
              ]
        ]
  ]

  -- `handleCreateEmployee`; the id has the time of the call, in nanoseconds.
  unfoldable pub handle_create_employee :
      (Map Value → List (Text × Value))
      → Option CreateEmployeeRequest
      → Store
      → Store × Result ApiError CreatedEmployee
  handle_create_employee listing body s = elim (check_employee body) [
    | err e ↦ (s, err e)
    | ok req ↦ create_employee listing (codes "emp_" ++ decimal (pos_part now)) req s
  ]

  -- `handleAssignments`: the date, and the categories in the order of the range.
  unfoldable pub handle_assignments :
      (Map Resolution → List (Text × Resolution))
      → Text
      → Text
      → Store
      → Result ApiError (Text × List (Text × CategoryView))
  handle_assignments listing employee as_of s =
      let date = or_default as_of today in
      do
        check_day date
        results ←
            wrap (λ e. repo_error (of_store e)) (resolve_all_categories codec now employee date s)
        ok (date, map category_view (listing results))

  -- `handleExplain`
  unfoldable pub handle_explain : Text → Text → Text → Store → Result ApiError Explanation
  handle_explain employee category as_of s =
      let date = or_default as_of today in
      do
        guard (not (is_empty category)) (missing (codes "category" ∷ []))
        row ← wrap (λ e. repo_error (of_trace e)) (latest_trace employee category date s.traces)
        ok (record {
          category_id = category;
          as_of_date = date;
          facts_snapshot = row.facts_snapshot;
          policy_snapshot = row.policy_snapshot;
          evaluated = row.evaluated;
        })
