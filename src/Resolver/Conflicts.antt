-- ===== src/Resolver/Conflicts.antt =====
-- resolver/specificity.go and resolver/conflicts.go: the weight of a predicate, the order of the
-- matched rules, and the reason why one lost to another.
pub mod Order
pub mod Reasons
use wrap_policy_assignment_s.Base.{
  ℕ, ◌+◌, Bool, not, ◌&&◌, List, [], ◌∷◌, map, ltb, ◌==◌, if◌then◌else◌,
}
use wrap_policy_assignment_s.Base.Int.{ℤ, int_eq, int_lt}
use wrap_policy_assignment_s.Base.Order.{is_lt}
use wrap_policy_assignment_s.Base.Text.{Text, text_eq, text_lt}
use wrap_policy_assignment_s.Base.Sort.{sort_by}
use wrap_policy_assignment_s.Resolver.Value.{
  ClauseOp, op_eq, op_ne, op_in, op_not_in, op_gte, op_gt, op_lte, op_lt, op_contains,
}
use wrap_policy_assignment_s.Resolver.Ast.{Clause, Predicate}
use wrap_policy_assignment_s.Resolver.Types.{RuleVersion, is_manual, source_eq}
use Prim.Native.Nat.{Ordering}

unfoldable pub clause_weight : ClauseOp → ℕ
clause_weight op_eq = 3
clause_weight op_in = 2
clause_weight op_gte = 2
clause_weight op_gt = 2
clause_weight op_lte = 2
clause_weight op_lt = 2
clause_weight op_contains = 2
clause_weight op_ne = 1
clause_weight op_not_in = 1
clause_weight _ = 0

add_weights : ℕ → List Clause → ℕ
add_weights score [] = score
add_weights score (c ∷ cs) = add_weights (score + clause_weight c.op) cs

unfoldable pub specificity : Predicate → ℕ
unfolding add_weights clause_weight
specificity p = add_weights 0 p.clauses

pub record RankedRule : Type 0 where
  pub rule : RuleVersion
  pub specificity : ℕ

abbrev xor : Bool → Bool → Bool
xor a b = if a then not b else b

-- `Compare`: `lt` is -1, where `a` ranks before `b`.
unfoldable pub compare_rules : RankedRule → RankedRule → Ordering
compare_rules a b =
    let a_man = is_manual a.rule.source in
    let b_man = is_manual b.rule.source in
    if xor a_man b_man
    then (if a_man then Ordering.lt else Ordering.gt)
    else if not (int_eq a.rule.priority b.rule.priority)
    then (if int_lt b.rule.priority a.rule.priority then Ordering.lt else Ordering.gt)
    else if not (a.specificity == b.specificity)
    then (if ltb b.specificity a.specificity then Ordering.lt else Ordering.gt)
    else if not (int_eq a.rule.created_at b.rule.created_at)
    then (if int_lt a.rule.created_at b.rule.created_at then Ordering.lt else Ordering.gt)
    else if not (text_eq a.rule.rule_id b.rule.rule_id)
    then (if text_lt a.rule.rule_id b.rule.rule_id then Ordering.lt else Ordering.gt)
    else Ordering.eq

abbrev pub rank_rule : RuleVersion → RankedRule
rank_rule r = record { rule = r; specificity = specificity r.predicate }

-- `SortMatched`
unfoldable pub sort_matched : List RuleVersion → List RankedRule
sort_matched rules = sort_by (λ a b. is_lt (compare_rules a b)) (map rank_rule rules)

-- The messages of `lossReason`: each names the winner, and two print the compared numbers.
pub data LossReason : Type 0 where
  manual_override : Text → LossReason
  priority_tiebreak : Text → ℤ → ℤ → LossReason
  specificity_tiebreak : Text → ℕ → ℕ → LossReason
  recency_tiebreak id_tiebreak : Text → LossReason

-- `lossReason`
unfoldable pub loss_reason : RankedRule → RankedRule → LossReason
loss_reason loser winner =
    if not (source_eq loser.rule.source winner.rule.source) && is_manual winner.rule.source
    then manual_override winner.rule.rule_id
    else if not (int_eq loser.rule.priority winner.rule.priority)
    then priority_tiebreak winner.rule.rule_id loser.rule.priority winner.rule.priority
    else if not (loser.specificity == winner.specificity)
    then specificity_tiebreak winner.rule.rule_id loser.specificity winner.specificity
    else if not (int_eq loser.rule.created_at winner.rule.created_at)
    then recency_tiebreak winner.rule.rule_id
    else id_tiebreak winner.rule.rule_id
