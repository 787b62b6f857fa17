-- ===== src/Resolver/Conflicts/Order.antt =====
-- `Compare` is a total order on rules, dimension by dimension, and `SortMatched` sorts by it.
use Prim.Native.Nat.{Ordering, compare}
use mathlib.Core.Path.{fun_ext}
use wrap_policy_assignment_s.Base.{Bool, ◌≡◌, refl, sym, subst, List, map, Perm, arith}
use wrap_policy_assignment_s.Base.Int.{cmp_int, cmp_int-IsOrder}
use wrap_policy_assignment_s.Base.Order.{
  flip, or_else, IsOrder, lex-IsOrder, on-IsOrder, flip-IsOrder, compare-IsOrder,
}
use wrap_policy_assignment_s.Base.Text.{cmp_text, cmp_text-IsOrder, cmp_text-eq}
use wrap_policy_assignment_s.Base.Sort.{IsSorted, sort_by-IsSorted, sort_by-perm}
use wrap_policy_assignment_s.Resolver.Value.{cmp_bool}
use wrap_policy_assignment_s.Resolver.Types.{RuleVersion, is_manual}
use wrap_policy_assignment_s.Resolver.Conflicts.{RankedRule, rank_rule, compare_rules, sort_matched}

abbrev man : RankedRule → Bool
man a = is_manual a.rule.source

-- The five dimensions in turn: manual overrides, then the higher priority, then the higher
-- specificity, then the earlier rule, then the smaller id.
abbrev pub by_dimensions : RankedRule → RankedRule → Ordering
by_dimensions a b = or_else (flip (cmp_bool (man a) (man b))) (
    or_else (flip (cmp_int a.rule.priority b.rule.priority)) (
      or_else (flip (compare a.specificity b.specificity)) (
        or_else (cmp_int a.rule.created_at b.rule.created_at)
          (cmp_text a.rule.rule_id b.rule.rule_id))))

or_else_step :
    (c d : Ordering)
    → (elim c [ Ordering.eq ↦ d | Ordering.lt ↦ Ordering.lt | Ordering.gt ↦ Ordering.gt ])
      ≡ or_else c d
or_else_step Ordering.lt d = refl
or_else_step Ordering.eq d = refl
or_else_step Ordering.gt d = refl

-- `Compare` is the lexicographic order of its five dimensions.
pub compare_rules-eq-by_dimensions : (a b : RankedRule) → compare_rules a b ≡ by_dimensions a b
unfolding compare_rules
compare_rules-eq-by_dimensions a b =
    ground (arith, cmp_int-IsOrder.flipped a.rule.created_at b.rule.created_at)

cmp_bool-IsOrder : IsOrder cmp_bool
cmp_bool-IsOrder = record {
  flipped = λ a b. ground arith;
  trans = λ a b d h k. ground arith;
  eq_left = λ a b d h. ground arith;
}

by_dimensions-IsOrder : IsOrder by_dimensions
by_dimensions-IsOrder = lex-IsOrder (flip-IsOrder (on-IsOrder man cmp_bool-IsOrder)) (
    lex-IsOrder (flip-IsOrder (on-IsOrder (λ a. a.rule.priority) cmp_int-IsOrder)) (
      lex-IsOrder (flip-IsOrder (on-IsOrder (λ a. a.specificity) compare-IsOrder)) (
        lex-IsOrder (on-IsOrder (λ a. a.rule.created_at) cmp_int-IsOrder)
          (on-IsOrder (λ a. a.rule.rule_id) cmp_text-IsOrder))))

-- `Compare` is a total order up to ties: it is transitive, and swapping its arguments flips the
-- result.
pub compare_rules-IsOrder : IsOrder compare_rules
compare_rules-IsOrder =
    subst IsOrder (sym (fun_ext (λ a. fun_ext (λ b. compare_rules-eq-by_dimensions a b))))
      by_dimensions-IsOrder

-- Only rules with one id tie.
pub compare_rules-eq :
    (a b : RankedRule) → compare_rules a b ≡ Ordering.eq → a.rule.rule_id ≡ b.rule.rule_id
compare_rules-eq a b h =
    cmp_text-eq a.rule.rule_id b.rule.rule_id (ground (arith, compare_rules-eq-by_dimensions a b))

-- The sorted list has every matched rule once, with its specificity.
pub sort_matched-perm : (rules : List RuleVersion) → Perm (sort_matched rules) (map rank_rule rules)
unfolding sort_matched
sort_matched-perm rules = sort_by-perm _ (map rank_rule rules)

-- In the sorted list no rule ranks before one that stands ahead of it.
pub sort_matched-IsSorted : (rules : List RuleVersion) → IsSorted compare_rules (sort_matched rules)
unfolding sort_matched
sort_matched-IsSorted rules = sort_by-IsSorted compare_rules-IsOrder (map rank_rule rules)
