-- ===== src/Api/Facts.antt =====
-- internal/api/handlers.go: the handler of POST /employees/{id}/facts. `listing` is the order in which
-- Go ranges over a map, `now` is the time of the call and `today` is `utils.TodayUTC` then.
use wrap_policy_assignment_s.Base.{
  ℕ, not, ◌||◌, Option, List, [], ◌∷◌, ◌++◌, Result, ok, err, ◌>>=◌, ◌>>◌, guard, wrap,
}
use wrap_policy_assignment_s.Base.Int.{ℤ, pos}
use wrap_policy_assignment_s.Base.Text.{Text, codes}
use wrap_policy_assignment_s.Base.Map.{Map}
use wrap_policy_assignment_s.Resolver.Value.{Value, string, int64}
use wrap_policy_assignment_s.Resolver.Ast.{is_null}
use wrap_policy_assignment_s.Resolver.Resolve.{Resolution}
use wrap_policy_assignment_s.Repo.Facts.{add_fact}
use wrap_policy_assignment_s.Repo.Outbox.{emit_event}
use wrap_policy_assignment_s.Repo.Store.{Store, Codec}
use wrap_policy_assignment_s.Api.{
  ApiError, missing, of_store, of_facts, of_outbox, repo_error, decode_body, or_default, is_empty,
  decimal,
}
use wrap_policy_assignment_s.Api.Diff.{DiffResponse, resolve_all_categories, diff_resolutions}

pub record AddFactRequest : Type 0 where
  pub attribute_key : Text
  pub value : Value
  pub valid_from : Text
  pub trigger : Text

-- The response of POST /employees/{id}/facts.
pub record AddedFact : Type 0 where
  pub fact_id : ℕ
  pub diff : DiffResponse

-- The checks of POST /employees/{id}/facts, with the defaults.
abbrev pub check_fact : Text → Option AddFactRequest → Result ApiError AddFactRequest
check_fact today body = do
  req ← decode_body body
  guard (not (is_empty req.attribute_key || is_null req.value))
      (missing (codes "attribute_key" ∷ codes "value" ∷ []))
  ok (record req {
    trigger = or_default req.trigger (codes "hr_edit");
    valid_from = or_default req.valid_from today;
  })

abbrev pub fact_event_payload : Text → Text → ℕ → Map Value
fact_event_payload employee key fact_id =
    (codes "employee_id", string employee)
    ∷ (codes "attribute_key", string key)
    ∷ (codes "fact_id", int64 (pos fact_id))
    ∷ []

-- `fact_changed:%s:%d`
abbrev pub fact_event_key : Text → ℕ → Text
fact_event_key employee fact_id = codes "fact_changed:" ++ employee ++ codes ":" ++ decimal fact_id

module _ (codec : Codec) (now : ℤ) (today : Text) where
  -- What POST /employees/{id}/facts does after the resolution before the change.
  unfoldable pub change_fact :
      (Map Resolution → List (Text × Resolution))
      → Text
      → AddFactRequest
      → Map Resolution
      → Store
      → Store × Result ApiError AddedFact
  change_fact listing employee req before s =
      elim (add_fact codec.encode employee req.attribute_key req.value req.valid_from req.trigger
        s.facts) [
          | err e ↦ (s, err (repo_error (of_facts e)))
          | ok (facts, fact_id) ↦
              let (outbox, n) =
                emit_event codec.payload (codes "fact_changed") (codes "co_demo")
                  (fact_event_payload employee req.attribute_key fact_id)
                  (fact_event_key employee fact_id) s.outbox in
              let s' : Store = record s { facts = facts; outbox = outbox } in
              elim n [
                | err e ↦ (s', err (repo_error (of_outbox e)))
                | ok rows ↦ (
                  s',
                  do
                    after ←
                        wrap (λ e. repo_error (of_store e))
                          (resolve_all_categories codec now employee req.valid_from s')
                    ok (record {
                      fact_id = fact_id;
                      diff = diff_resolutions listing before after employee;
                    }),
                )
              ]
        ]

  -- `handleAddFact`
  unfoldable pub handle_add_fact :
      (Map Resolution → List (Text × Resolution))
      → Text
      → Option AddFactRequest
      → Store
      → Store × Result ApiError AddedFact
  handle_add_fact listing employee body s = elim (check_fact today body) [
    | err e ↦ (s, err e)
    | ok req ↦ elim (resolve_all_categories codec now employee req.valid_from s) [
      | err e ↦ (s, err (repo_error (of_store e)))
      | ok before ↦ change_fact listing employee req before s
    ]
  ]
