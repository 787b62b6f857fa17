-- ===== src/Api/Rules.antt =====
-- internal/api/rules.go: `handleCreateRule`. `today` is `utils.TodayUTC` at the time of the call.
pub mod Usable
use wrap_policy_assignment_s.Base.{
  ℕ, Bool, true, false, not, ◌||◌, Option, none, some, List, [], ◌∷◌, ◌++◌, Result, ok, err, ◌>>=◌,
  ◌>>◌, guard, wrap,
}
use wrap_policy_assignment_s.Base.Int.{ℤ, pos}
use wrap_policy_assignment_s.Base.Text.{Text, codes}
use wrap_policy_assignment_s.Base.Map.{Map}
use wrap_policy_assignment_s.Resolver.Ast.{Predicate, parse_predicate}
use wrap_policy_assignment_s.Resolver.Ast.Validate.{AttributeDefinition, validate}
use wrap_policy_assignment_s.Resolver.Types.{Source, authored, manual, system, other_source}
use wrap_policy_assignment_s.Resolver.Conflicts.{specificity}
use wrap_policy_assignment_s.Repo.Rules.{to_source, create_rule}
use wrap_policy_assignment_s.Repo.Store.{Store, Codec}
use wrap_policy_assignment_s.Api.{
  ApiError, missing, unknown_source, unparsable_predicate, refused_predicate, of_rules, repo_error,
  decode_body, or_default, is_empty, check_day,
}

pub record CreateRuleRequest : Type 0 where
  pub id : Text
  pub category_id : Text
  pub policy_id : Text
  pub priority : ℤ
  pub predicate : Text
  pub valid_from : Text
  pub source : Text

-- The response of POST /rules.
pub record CreatedRule : Type 0 where
  pub id : Text
  pub rule_version_id : Text
  pub specificity_rank : ℕ
  pub valid_from : Text

-- `ParsePredicate` and `Validate`, with their errors.
abbrev pub check_rule_predicate :
    (Text → Option Predicate) → Map AttributeDefinition → Text → Result ApiError Predicate
check_rule_predicate unmarshal defs text = do
  pred ← wrap unparsable_predicate (parse_predicate unmarshal text)
  wrap refused_predicate (validate pred defs)
  ok pred

-- The source, and its default.
abbrev pub check_source : Text → Result ApiError Source
check_source text = elim (to_source (or_default text (codes "authored"))) [
  | authored ↦ ok authored
  | manual ↦ ok manual
  | system ↦ ok system
  | other_source s ↦ err (unknown_source text)
]

-- The checks of POST /rules, with the default of the date.
abbrev pub check_rule :
    (Text → Option Predicate)
    → Map AttributeDefinition
    → Text
    → Option CreateRuleRequest
    → Result ApiError (CreateRuleRequest × Predicate × Source)
check_rule unmarshal defs today body = do
  req ← decode_body body
  guard (not (is_empty req.id || is_empty req.category_id || is_empty req.policy_id))
      (missing (codes "id" ∷ codes "category_id" ∷ codes "policy_id" ∷ []))
  check_day (or_default req.valid_from today)
  pred ← check_rule_predicate unmarshal defs req.predicate
  source ← check_source req.source
  ok (record req { valid_from = or_default req.valid_from today }, pred, source)

-- What POST /rules does with a rule that it accepts.
unfoldable pub save_rule :
    (Text → Option Text)
    → CreateRuleRequest
    → Predicate
    → Source
    → Store
    → Store × Result ApiError CreatedRule
save_rule jsonb req pred source s =
    elim (create_rule jsonb req.id (codes "co_demo") req.category_id req.policy_id source
      req.priority (pos (specificity pred)) req.predicate req.valid_from s.rules) [
        | err e ↦ (s, err (repo_error (of_rules e)))
        | ok rules ↦ (
          record s { rules = rules },
          ok (record {
            id = req.id;
            rule_version_id = req.id ++ codes ":v1";
            specificity_rank = specificity pred;
            valid_from = req.valid_from;
          }),
        )
      ]

-- `handleCreateRule`
unfoldable pub handle_create_rule :
    Codec → Text → Option CreateRuleRequest → Store → Store × Result ApiError CreatedRule
handle_create_rule codec today body s = elim (check_rule codec.predicate s.definitions today body) [
  | err e ↦ (s, err e)
  | ok (req, pred, source) ↦ save_rule codec.jsonb req pred source s
]
