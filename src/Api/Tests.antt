-- ===== src/Api/Tests.antt =====
-- The handlers on the store of one employee, one category and one rule.
use wrap_policy_assignment_s.Base.{◌≡◌, refl, some, List, [], ◌∷◌, ok, All}
use wrap_policy_assignment_s.Base.Int.{pos}
use wrap_policy_assignment_s.Base.Text.{codes, cmp_text}
use wrap_policy_assignment_s.Base.Map.{lookup, insert}
use wrap_policy_assignment_s.Base.Sort.{sort_by}
use wrap_policy_assignment_s.Base.{keep}
use wrap_policy_assignment_s.Base.Date.{day_number, parse_date}
use wrap_policy_assignment_s.Resolver.Value.{eval_clause, normalize_comparable, compare_values}
use wrap_policy_assignment_s.Resolver.Ast.{parse_predicate, matches, first_failure, fails_clause}
use wrap_policy_assignment_s.Resolver.Ast.Validate.{validate, each, is_string, mem_text}
use wrap_policy_assignment_s.Resolver.Types.{RuleVersion}
use wrap_policy_assignment_s.Resolver.Facts.{derive_attributes}
use wrap_policy_assignment_s.Resolver.Conflicts.{compare_rules, sort_matched, specificity}
use wrap_policy_assignment_s.Resolver.Selection.{select}
use wrap_policy_assignment_s.Resolver.Trace.{
  build_evaluations, rank_by_rule, evaluate_all, evaluate_rule, evaluate_matched, short_answer,
  sort_rule_version_ids,
}
use wrap_policy_assignment_s.Resolver.Resolve.{
  resolve, resolve_on, resolve_attributes, validate_category, parse_as_of, category_rules,
  validate_all, resolve_rules, match_results, matched_rules,
}
use wrap_policy_assignment_s.Repo.Facts.{
  pg_date, facts_at, get_employee_facts_as_of, distinct_on_key, decode_facts, inject_segments,
  get_employee_segments,
}
use wrap_policy_assignment_s.Repo.Rules.{
  create_rule, insert_assignment_rule, insert_rule_version, has_rule, has_version, effective_rules,
  to_rule_versions, get_effective_rule_versions_as_of, join_rules, join_rule, distinct_on_rule,
}
use wrap_policy_assignment_s.Repo.Store.{
  list_categories, category, get_category, resolve_for_employee,
}
use wrap_policy_assignment_s.Reconciler.Tests.Converging.{codec, store, today, distinct, dated}
use wrap_policy_assignment_s.Api.Readiness.{Readiness, check_categories, readiness_for}
use wrap_policy_assignment_s.Api.Readiness.Partition.{IsPlaced, readiness_for-IsPlaced}
use mathlib.Core.List.Perm
use wrap_policy_assignment_s.Resolver.Types.{CategoryConfig, single, priority_rank}
use wrap_policy_assignment_s.Repo.Store.{list_employee_ids}
use wrap_policy_assignment_s.Api.Diff.{has_policy}
use wrap_policy_assignment_s.Api.Preview.{
  PreviewRequest, PreviewResponse, handle_preview, preview_employees, preview_employee, add_preview,
  policy_set, missing_from, winner_rule_id,
}
use wrap_policy_assignment_s.Api.Preview.Exchanging.{IsExchange}
use wrap_policy_assignment_s.Api.Preview.Switching.{handle_preview-IsExchange}
use wrap_policy_assignment_s.Api.Rules.{CreateRuleRequest, handle_create_rule}
use wrap_policy_assignment_s.Api.Rules.Usable.{HasUsableRules, handle_create_rule-effective_rules}

abbrev checked : Readiness
checked = record {
  auto_applied =
      record {
        category_id = codes "pto";
        policy_id = codes "p";
        rule_id = codes "r";
        source = codes "authored";
      }
      ∷ [];
  needs_decision = [];
  manual_required = [];
}

ready : readiness_for codec (pos 9) (codes "e1") today store ≡ ok checked
unfolding readiness_for check_categories list_categories sort_by resolve_for_employee category
    get_category facts_at pg_date parse_date day_number get_employee_facts_as_of distinct_on_key
    keep decode_facts insert lookup inject_segments get_employee_segments cmp_text effective_rules
    to_rule_versions get_effective_rule_versions_as_of join_rules join_rule distinct_on_rule
    parse_predicate create_rule insert_assignment_rule insert_rule_version has_rule has_version
    resolve resolve_on resolve_attributes validate_category parse_as_of derive_attributes
    category_rules validate_all validate resolve_rules match_results matched_rules matches
    first_failure fails_clause eval_clause normalize_comparable compare_values sort_matched
    compare_rules specificity select build_evaluations rank_by_rule evaluate_all evaluate_rule
    evaluate_matched short_answer sort_rule_version_ids each is_string mem_text
ready = refl

readiness_for-IsPlaced_example :
    All (IsPlaced codec (pos 9) (codes "e1") today store checked) (list_categories store)
readiness_for-IsPlaced_example =
    readiness_for-IsPlaced codec (pos 9) (codes "e1") today store checked distinct ready

usable : HasUsableRules codec store
unfolding create_rule insert_assignment_rule insert_rule_version has_rule has_version pg_date
    parse_date day_number cmp_text parse_predicate validate lookup each is_string
usable = (refl, tt)

abbrev request : CreateRuleRequest
request = record {
  id = codes "r2";
  category_id = codes "pto";
  policy_id = codes "p2";
  priority = pos 20;
  predicate = codes "x";
  valid_from = [];
  source = codes "manual";
}

handle_create_rule-effective_rules_example :
    HasUsableRules codec (handle_create_rule codec today (some request) store).0
    × ((rules : List RuleVersion) × (effective_rules codec.predicate
            (pos 9)
            (codes "pto")
            today
            (handle_create_rule codec today (some request) store).0.rules
          ≡ ok rules)
        × (validate_all
              (some (handle_create_rule codec today (some request) store).0.definitions)
              (category_rules (codes "pto") rules)
            ≡ ok tt))
handle_create_rule-effective_rules_example =
    handle_create_rule-effective_rules codec today (some request) store
      (λ sent stored given kept. refl) usable (pos 9) (codes "pto") today 740018 dated

abbrev preview : PreviewRequest
preview = record {
  category_id = codes "pto";
  policy_id = codes "p2";
  priority = pos 20;
  predicate = codes "x";
  valid_from = [];
}

abbrev config : CategoryConfig
config = record {
  id = codes "pto";
  cardinality = single;
  resolution_strategy = priority_rank;
  default_priority = pos 0;
  tiebreaker = [];
}

configured : category (codes "pto") store ≡ ok config
unfolding category get_category cmp_text
configured = refl

abbrev exchanged : PreviewResponse
exchanged = record {
  gained =
      record {
        employee_id = codes "e1";
        policy_id = codes "p2";
        via = codes "candidate";
        reason = [];
      }
      ∷ [];
  lost =
      record {
        employee_id = codes "e1";
        policy_id = codes "p";
        via = [];
        reason = codes "lost to the candidate rule's tiebreak position";
      }
      ∷ [];
  matches_now = 1;
}

previewed : handle_preview codec (pos 9) today (λ l. l) store (some preview) ≡ ok exchanged
unfolding handle_preview preview_employees preview_employee add_preview policy_set missing_from
    winner_rule_id has_policy list_employee_ids sort_by category get_category facts_at pg_date
    parse_date day_number get_employee_facts_as_of distinct_on_key keep decode_facts insert lookup
    inject_segments get_employee_segments cmp_text effective_rules to_rule_versions
    get_effective_rule_versions_as_of join_rules join_rule distinct_on_rule parse_predicate
    create_rule insert_assignment_rule insert_rule_version has_rule has_version resolve resolve_on
    resolve_attributes validate_category parse_as_of derive_attributes category_rules validate_all
    validate resolve_rules match_results matched_rules matches first_failure fails_clause
    eval_clause normalize_comparable compare_values sort_matched compare_rules specificity select
    build_evaluations rank_by_rule evaluate_all evaluate_rule evaluate_matched short_answer
    sort_rule_version_ids each is_string mem_text
previewed = refl

handle_preview-IsExchange_example : IsExchange (codes "p2") exchanged
handle_preview-IsExchange_example =
    handle_preview-IsExchange codec (pos 9) today (λ l. l) (λ l. Perm.refl l) store preview config
      exchanged configured refl previewed
