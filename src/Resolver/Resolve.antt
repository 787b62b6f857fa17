-- ===== src/Resolver/Resolve.antt =====
-- resolver/resolve.go: the resolution of one category for one employee on one date.
pub mod Run
pub mod Totality
pub mod Candidates
pub mod Outcomes
pub mod Ordered
pub mod Winner
pub mod Ids
pub mod Deletion
pub mod Removal
pub mod Additive
pub mod Lines
pub mod Judgement
pub mod Explained
pub mod Single
pub mod Decided
pub mod Addition
use wrap_policy_assignment_s.Base.{
  ℕ, suc, Bool, true, false, not, Option, none, some, List, [], ◌∷◌, ◌++◌, map, keep, if◌then◌else◌,
  Result, ok, err, ◌>>=◌, ◌>>◌, guard, wrap,
}
use wrap_policy_assignment_s.Base.Text.{Text, codes, text_eq, text_lt}
use wrap_policy_assignment_s.Base.Sort.{sort_by}
use wrap_policy_assignment_s.Base.Map.{Map, insert}
use wrap_policy_assignment_s.Base.Date.{day_number, parse_date}
use wrap_policy_assignment_s.Resolver.Value.{Value}
use wrap_policy_assignment_s.Resolver.Ast.{matches}
use wrap_policy_assignment_s.Resolver.Ast.Validate.{
  AttributeDefinition, ValidateError, validate, mem_text,
}
use wrap_policy_assignment_s.Resolver.Types.{
  Cardinality, single, many, ResolutionStrategy, priority_rank, explicit_user_choice, additive,
  Outcome, assigned, shadowed, no_match, conflict_needs_decision, CategoryConfig, RuleVersion,
  Assignment, ShadowedMatch, DecisionOption,
}
use wrap_policy_assignment_s.Resolver.Facts.{Facts, DeriveError, derive_attributes}
use wrap_policy_assignment_s.Resolver.Conflicts.{RankedRule, sort_matched}
use wrap_policy_assignment_s.Resolver.Selection.{Selection, select}
use wrap_policy_assignment_s.Resolver.Trace.{
  Panic, MatchResult, Trace, RuleEvaluation, ShortAnswer, build_evaluations, short_answer,
  sort_rule_version_ids,
}

-- `Input`; without definitions the predicates are not validated.
pub record Input : Type 0 where
  pub category : CategoryConfig
  pub date : Text
  pub facts : Facts
  pub rules : List RuleVersion
  pub definitions : Option (Map AttributeDefinition)

-- `Result` of resolver/types.go.
pub record Resolution : Type 0 where
  pub category_id : Text
  pub as_of_date : Text
  pub outcome : Outcome
  pub assignments : List Assignment
  pub shadowed : List ShadowedMatch
  pub options : List DecisionOption
  pub trace : Trace

pub data CategoryError : Type 0 where
  id_required : CategoryError
  forbidden_strategy : Text → Cardinality → ResolutionStrategy → CategoryError
  required_strategy : Text → Cardinality → CategoryError
  unknown_cardinality : Text → Cardinality → CategoryError

-- The errors of `Resolve`, and its panic.
pub data ResolveError : Type 0 where
  bad_category : CategoryError → ResolveError
  bad_date : Text → ResolveError
  bad_facts : DeriveError → ResolveError
  bad_rule : Text → ValidateError → ResolveError
  panicked : Panic → ResolveError

check_strategy : CategoryConfig → Cardinality → ResolutionStrategy → Result CategoryError (Unit {0})
check_strategy c single priority_rank = ok tt
check_strategy c single explicit_user_choice = ok tt
check_strategy c single strategy = err (forbidden_strategy c.id single strategy)
check_strategy c many additive = ok tt
check_strategy c many strategy = err (required_strategy c.id many)
check_strategy c cardinality strategy = err (unknown_cardinality c.id cardinality)

-- `validateCategory`
unfoldable pub validate_category : CategoryConfig → Result CategoryError (Unit {0})
unfolding check_strategy
validate_category c = do
  guard (not (text_eq c.id [])) id_required
  check_strategy c c.cardinality c.resolution_strategy

-- The rules of the category, sorted by their ids.
unfoldable pub category_rules : Text → List RuleVersion → List RuleVersion
category_rules category_id rules =
    sort_by (λ a b. text_lt a.rule_id b.rule_id)
      (keep (λ r. text_eq r.category_id category_id) rules)

unfoldable pub validate_rules :
    Map AttributeDefinition → List RuleVersion → Result ResolveError (Unit {0})
validate_rules defs [] = ok tt
validate_rules defs (r ∷ rs) =
    let rest = validate_rules defs rs in
    wrap (bad_rule r.rule_id) (validate r.predicate defs) >> rest

-- The validation, where definitions are supplied.
unfoldable pub validate_all :
    Option (Map AttributeDefinition) → List RuleVersion → Result ResolveError (Unit {0})
unfolding validate_rules
validate_all none rules = ok tt
validate_all (some defs) rules = validate_rules defs rules

abbrev pub is_match : Map Value → RuleVersion → Bool
is_match attributes r = elim (matches r.predicate attributes) [ none ↦ true | some why ↦ false ]

-- The map `matchResults`, filled in the order of the rules.
unfoldable pub match_results : Map Value → List RuleVersion → Map MatchResult → Map MatchResult
match_results attributes [] results = results
match_results attributes (r ∷ rs) results = match_results attributes rs (
    insert r.rule_id
      (record { matched = is_match attributes r; why_not = matches r.predicate attributes })
      results)

-- The slice `matched`.
unfoldable pub matched_rules : Map Value → List RuleVersion → List RuleVersion
matched_rules attributes rules = keep (is_match attributes) rules

-- The result with its trace, from the parts that the steps compute.
abbrev pub assemble :
    CategoryConfig
    → Text
    → Map Value
    → List RuleVersion
    → Selection
    → List RuleEvaluation
    → ShortAnswer
    → Resolution
assemble category date attributes rules chosen evaluated answer = record {
  category_id = category.id;
  as_of_date = date;
  outcome = chosen.outcome;
  assignments = chosen.assignments;
  shadowed = chosen.shadowed;
  options = chosen.options;
  trace = record {
    outcome = chosen.outcome;
    facts_snapshot = attributes;
    policy_snapshot = record {
      category_id = category.id;
      cardinality = category.cardinality;
      resolution_strategy = category.resolution_strategy;
      rule_version_ids = sort_rule_version_ids rules;
    };
    evaluated = evaluated;
    short_answer = answer;
  };
}

-- The steps from `1. Filter` on, for the rules of the category, sorted by id.
unfoldable pub resolve_rules :
    CategoryConfig → Text → Map Value → List RuleVersion → Result Panic Resolution
resolve_rules category date attributes rules =
    let results = match_results attributes rules [] in
    let ranked = sort_matched (matched_rules attributes rules) in
    let strategy = category.resolution_strategy in
    let chosen = select strategy ranked in
    do
      evaluated ← build_evaluations rules results ranked strategy chosen.undecided
      answer ← short_answer chosen.outcome ranked strategy
      ok (assemble category date attributes rules chosen evaluated answer)

-- `time.Parse` of the date of the input.
unfoldable pub parse_as_of : Text → Result ResolveError ℕ
parse_as_of s = elim (parse_date s) [ none ↦ err (bad_date s) | some d ↦ ok (day_number d) ]

-- `Resolve`, once the attributes are derived.
unfoldable pub resolve_attributes : Input → Map Value → Result ResolveError Resolution
resolve_attributes input derived =
    let rules = category_rules input.category.id input.rules in
    validate_all input.definitions rules
    >> wrap panicked (resolve_rules input.category input.date derived rules)

-- `Resolve`, once the date is parsed.
unfoldable pub resolve_on : Input → ℕ → Result ResolveError Resolution
resolve_on input as_of = do
  derived ← wrap bad_facts (derive_attributes input.facts.attributes as_of)
  resolve_attributes input derived

-- `Resolve`
unfoldable pub resolve : Input → Result ResolveError Resolution
resolve input = do
  wrap bad_category (validate_category input.category)
  as_of ← parse_as_of input.date
  resolve_on input as_of
