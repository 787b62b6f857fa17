-- ===== src/Resolver/Resolve/Outcomes.antt =====
-- What a resolution may be, said of the matching rules and the order on them.
use Prim.Native.Nat.{Ordering}
use wrap_policy_assignment_s.Base.{ℕ, ◌+◌, ◌≤◌, ◌≡◌, ◌≢◌, List, [], ◌∷◌, map, Perm, length, All}
use wrap_policy_assignment_s.Base.Map.{Map}
use wrap_policy_assignment_s.Base.Text.{Text}
use wrap_policy_assignment_s.Base.Sort.{IsSorted}
use wrap_policy_assignment_s.Resolver.Value.{Value}
use wrap_policy_assignment_s.Resolver.Types.{
  RuleVersion, Outcome, assigned, shadowed, no_match, conflict_needs_decision, ShadowedMatch,
  DecisionOption,
}
use wrap_policy_assignment_s.Resolver.Conflicts.{RankedRule, rank_rule, compare_rules}
use wrap_policy_assignment_s.Resolver.Resolve.{Resolution}
use wrap_policy_assignment_s.Resolver.Selection.{to_assignment}
use wrap_policy_assignment_s.Resolver.Resolve.Candidates.{IsCandidate, candidates}

-- No candidate ranks before `w`, which is one.
pub record IsBest (attributes : Map Value) (id : Text) (rules : List RuleVersion) (w : RuleVersion)
    : Type 0 where
  pub candidate : IsCandidate attributes id rules w
  pub best :
      (r : RuleVersion)
      → IsCandidate attributes id rules r
      → compare_rules (rank_rule r) (rank_rule w) ≢ Ordering.lt

-- The outcome of a category with a winner.
abbrev pub outcome_of : List ShadowedMatch → Outcome
outcome_of [] = assigned
outcome_of (s ∷ l) = shadowed

-- The one assignment of the winner, and every other candidate shadowed by it.
pub record Wins (attributes : Map Value) (id : Text) (rules : List RuleVersion) (res : Resolution)
    : Type 0 where
  pub winner : RuleVersion
  pub is_best : IsBest attributes id rules winner
  pub outcome : res.outcome ≡ outcome_of res.shadowed
  pub assigns : res.assignments ≡ to_assignment winner ∷ []
  pub losers :
      Perm
        (winner.rule_id ∷ map (λ s. s.rule_id) res.shadowed)
        (map (λ r. r.rule_id) (candidates attributes id rules))
  pub by_winner : All (λ s. s.by_rule_id ≡ winner.rule_id) res.shadowed
  pub no_options : res.options ≡ []

-- Nothing matched, and nothing is assigned.
pub record HasNoMatch (attributes : Map Value) (id : Text) (rules : List RuleVersion)
    (res : Resolution) : Type 0 where
  pub none_matches : (r : RuleVersion) → ¬ IsCandidate attributes id rules r
  pub outcome : res.outcome ≡ no_match
  pub nothing : (res.assignments ≡ []) × (res.shadowed ≡ []) × (res.options ≡ [])

-- The options of ranks `i + 1`, `i + 2`, … are those of the rules in their order.
abbrev pub AreRanked : ℕ → List RankedRule → List DecisionOption → Type 0
AreRanked i [] [] = Unit
AreRanked i (a ∷ l) (o ∷ os) =
    (o.rank ≡ i + 1)
    × (o.rule_id ≡ a.rule.rule_id)
    × (o.policy_id ≡ a.rule.policy_id)
    × (o.policy_version_id ≡ a.rule.policy_version_id)
    × AreRanked (i + 1) l os
AreRanked i _ _ = ⊥

-- A decision is left to the user: all candidates are options, in their order, and none is assigned.
pub record IsUndecided (attributes : Map Value) (id : Text) (rules : List RuleVersion)
    (res : Resolution) : Type 0 where
  pub order : List RankedRule
  pub sorted : IsSorted compare_rules order
  pub complete : Perm order (map rank_rule (candidates attributes id rules))
  pub several : 2 ≤ length order
  pub outcome : res.outcome ≡ conflict_needs_decision
  pub options : AreRanked 0 order res.options
  pub nothing : (res.assignments ≡ []) × (res.shadowed ≡ [])
