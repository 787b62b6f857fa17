-- ===== src/Resolver/Trace.antt =====
-- resolver/trace.go: the decision trace.
use wrap_policy_assignment_s.Base.{
  ℕ, suc, ◌-◌, Bool, true, false, Option, none, some, List, [], ◌∷◌, map, length, ◌==◌, ◌&&◌,
  if◌then◌else◌, Result, ok, err, ◌>>=◌,
}
use wrap_policy_assignment_s.Base.Text.{Text, text_lt}
use wrap_policy_assignment_s.Base.Sort.{sort_by}
use wrap_policy_assignment_s.Base.Map.{Map, lookup, insert}
use wrap_policy_assignment_s.Resolver.Value.{Value}
use wrap_policy_assignment_s.Resolver.Ast.{WhyNot}
use wrap_policy_assignment_s.Resolver.Types.{
  Cardinality, ResolutionStrategy, explicit_user_choice, additive, Outcome, assigned, shadowed,
  no_match, conflict_needs_decision, RuleOutcome, winner, rule_shadowed, not_matched,
  needs_decision, RuleVersion,
}
use wrap_policy_assignment_s.Resolver.Conflicts.{RankedRule, rank_rule, LossReason, loss_reason}

-- The one way in which this code can panic: `ranked[0]` of an empty slice.
pub data Panic : Type 0 where
  index_out_of_range : Panic

pub record MatchResult : Type 0 where
  pub matched : Bool
  pub why_not : Option WhyNot

pub record PolicySnapshot : Type 0 where
  pub category_id : Text
  pub cardinality : Cardinality
  pub resolution_strategy : ResolutionStrategy
  pub rule_version_ids : List Text

-- A rank of 0 is left out of the JSON, and so is a reason that is `none`.
pub record RuleEvaluation : Type 0 where
  pub rule_id : Text
  pub matched : Bool
  pub outcome : RuleOutcome
  pub rank : ℕ
  pub why_not : Option WhyNot
  pub why_lost : Option LossReason

-- The messages of `shortAnswer`, with the numbers and names that they print.
pub data ShortAnswer : Type 0 where
  none_matched : ℕ → ShortAnswer
  decision_required : ℕ → ResolutionStrategy → Text → ShortAnswer
  won_over : Text → ℕ → ShortAnswer
  assigned_cleanly : Text → ShortAnswer

pub record Trace : Type 0 where
  pub outcome : Outcome
  pub facts_snapshot : Map Value
  pub policy_snapshot : PolicySnapshot
  pub evaluated : List RuleEvaluation
  pub short_answer : ShortAnswer

-- `ranked[0]`
abbrev pub first : List RankedRule → Result Panic RankedRule
first [] = err index_out_of_range
first (r ∷ rs) = ok r

-- The map `rankByRule`, from the index `i` on.
unfoldable pub rank_by_rule : ℕ → List RankedRule → Map ℕ → Map ℕ
rank_by_rule i [] ranks = ranks
rank_by_rule i (rr ∷ rs) ranks = rank_by_rule (suc i) rs (insert rr.rule.rule_id (suc i) ranks)

-- A missing key reads as the zero value.
abbrev pub rank_of : Option ℕ → ℕ
rank_of none = 0
rank_of (some n) = n

abbrev pub result_of : Option MatchResult → MatchResult
result_of none = record { matched = false; why_not = none }
result_of (some r) = r

abbrev pub is_explicit : ResolutionStrategy → Bool
is_explicit explicit_user_choice = true
is_explicit _ = false

abbrev pub is_additive : ResolutionStrategy → Bool
is_additive additive = true
is_additive _ = false

-- A line of the trace for a matched rule.
abbrev pub matched_line : RuleVersion → ℕ → RuleOutcome → Option LossReason → RuleEvaluation
matched_line r rank outcome why_lost = record {
  rule_id = r.rule_id;
  matched = true;
  outcome = outcome;
  rank = rank;
  why_not = none;
  why_lost = why_lost;
}

abbrev pub unmatched_line : RuleVersion → Option WhyNot → RuleEvaluation
unmatched_line r why_not = record {
  rule_id = r.rule_id;
  matched = false;
  outcome = not_matched;
  rank = 0;
  why_not = why_not;
  why_lost = none;
}

-- The switch of `buildEvaluations`, for a matched rule of a given rank.
unfoldable pub evaluate_matched :
    ResolutionStrategy → Bool → List RankedRule → RuleVersion → ℕ → Result Panic RuleEvaluation
evaluate_matched strategy undecided ranked r rank =
    if is_explicit strategy && undecided
    then ok (matched_line r rank needs_decision none)
    else if rank == 1
    then ok (matched_line r rank winner none)
    else if is_additive strategy
    then ok (matched_line r rank winner none)
    else do
      head ← first ranked
      ok (matched_line r rank rule_shadowed (some (loss_reason (rank_rule r) head)))

-- The body of the loop of `buildEvaluations`.
unfoldable pub evaluate_rule :
    Map MatchResult
    → Map ℕ
    → List RankedRule
    → ResolutionStrategy
    → Bool
    → RuleVersion
    → Result Panic RuleEvaluation
unfolding evaluate_matched
evaluate_rule match_results ranks ranked strategy undecided r =
    let mr = result_of (lookup r.rule_id match_results) in
    if mr.matched
    then evaluate_matched strategy undecided ranked r (rank_of (lookup r.rule_id ranks))
    else ok (unmatched_line r mr.why_not)

unfoldable pub evaluate_all :
    (RuleVersion → Result Panic RuleEvaluation)
    → List RuleVersion
    → Result Panic (List RuleEvaluation)
evaluate_all line [] = ok []
evaluate_all line (r ∷ rs) =
    let rest = evaluate_all line rs in do l ← line r; ls ← rest; ok (l ∷ ls)

-- `buildEvaluations`
unfoldable pub build_evaluations :
    List RuleVersion
    → Map MatchResult
    → List RankedRule
    → ResolutionStrategy
    → Bool
    → Result Panic (List RuleEvaluation)
unfolding evaluate_all evaluate_rule rank_by_rule
build_evaluations rules match_results ranked strategy undecided =
    evaluate_all (evaluate_rule match_results (rank_by_rule 0 ranked []) ranked strategy undecided)
      rules

-- `shortAnswer`
unfoldable pub short_answer :
    Outcome → List RankedRule → ResolutionStrategy → Result Panic ShortAnswer
short_answer no_match ranked strategy = ok (none_matched (length ranked))
short_answer conflict_needs_decision ranked strategy = do
  head ← first ranked
  ok (decision_required (length ranked) strategy head.rule.rule_id)
short_answer shadowed ranked strategy = do
  head ← first ranked
  ok (won_over head.rule.rule_id (length ranked - 1))
short_answer assigned ranked strategy = do
  head ← first ranked
  ok (assigned_cleanly head.rule.rule_id)

-- `sortRuleVersionIDs`
unfoldable pub sort_rule_version_ids : List RuleVersion → List Text
sort_rule_version_ids rules = sort_by text_lt (map (λ r. r.rule_version_id) rules)
