-- ===== src/Resolver/Selection.antt =====
-- resolver/resolve.go: the switch of `Resolve` on the strategy and the matched rules.
use wrap_policy_assignment_s.Base.{
  ℕ, suc, Bool, true, false, List, [], ◌∷◌, ◌++◌, map, if◌then◌else◌,
}
use wrap_policy_assignment_s.Base.Text.{Text, codes}
use wrap_policy_assignment_s.Resolver.Ast.Validate.{mem_text}
use wrap_policy_assignment_s.Resolver.Types.{
  ResolutionStrategy, priority_rank, explicit_user_choice, additive, Outcome, assigned, shadowed,
  no_match, conflict_needs_decision, RuleVersion, Assignment, ShadowedMatch, DecisionOption,
}
use wrap_policy_assignment_s.Resolver.Conflicts.{RankedRule}

abbrev pub to_assignment : RuleVersion → Assignment
to_assignment r = record {
  policy_id = r.policy_id;
  policy_version_id = r.policy_version_id;
  rule_id = r.rule_id;
  source = r.source;
}

abbrev pub policy_key : RuleVersion → Text
policy_key r = r.policy_id ++ codes "/" ++ r.policy_version_id

-- The loop of the additive case, with the keys that it has seen.
unfoldable pub stack_policies : List Text → List RankedRule → List Assignment
stack_policies seen [] = []
stack_policies seen (rr ∷ rs) =
    let skipped = stack_policies seen rs in
    let taken = to_assignment rr.rule ∷ stack_policies (policy_key rr.rule ∷ seen) rs in
    if mem_text (policy_key rr.rule) seen then skipped else taken

-- The options, ranked from `i + 1` on.
unfoldable pub rank_options : ℕ → List RankedRule → List DecisionOption
rank_options i [] = []
rank_options i (rr ∷ rs) =
    record {
      policy_id = rr.rule.policy_id;
      policy_version_id = rr.rule.policy_version_id;
      rule_id = rr.rule.rule_id;
      rank = suc i;
    }
    ∷ rank_options (suc i) rs

abbrev pub shadow : RankedRule → RankedRule → ShadowedMatch
shadow head rr = record { rule_id = rr.rule.rule_id; by_rule_id = head.rule.rule_id }

-- What the switch of `Resolve` sets.
pub record Selection : Type 0 where
  pub outcome : Outcome
  pub undecided : Bool
  pub assignments : List Assignment
  pub shadowed : List ShadowedMatch
  pub options : List DecisionOption

-- The switch of `Resolve`, on the strategy and the matched rules in their order.
unfoldable pub select : ResolutionStrategy → List RankedRule → Selection
unfolding stack_policies rank_options
select strategy [] = record {
  outcome = no_match;
  undecided = false;
  assignments = [];
  shadowed = [];
  options = [];
}
select additive ranked = record {
  outcome = assigned;
  undecided = false;
  assignments = stack_policies [] ranked;
  shadowed = [];
  options = [];
}
select explicit_user_choice (a ∷ b ∷ rest) = record {
  outcome = conflict_needs_decision;
  undecided = true;
  assignments = [];
  shadowed = [];
  options = rank_options 0 (a ∷ b ∷ rest);
}
select priority_rank (a ∷ b ∷ rest) = record {
  outcome = shadowed;
  undecided = false;
  assignments = to_assignment a.rule ∷ [];
  shadowed = map (shadow a) (b ∷ rest);
  options = [];
}
select strategy (a ∷ rest) = record {
  outcome = assigned;
  undecided = false;
  assignments = to_assignment a.rule ∷ [];
  shadowed = [];
  options = [];
}
