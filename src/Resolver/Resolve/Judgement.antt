-- ===== src/Resolver/Resolve/Judgement.antt =====
-- The lines of the decision trace, and what the switch of `buildEvaluations` writes for a matched rule.
use mathlib.Core.List.{Pairwise, mem-cons_self, mem-cons_of_mem, rel_of_Pairwise-cons}
use wrap_policy_assignment_s.Base.{
  Pairs, ℕ, zero, suc, ◌>>=◌, ◌≡◌, ◌≢◌, refl, subst, ◌⊎◌, inl, inr, Bool, true, false, ◌&&◌, none,
  some, List, [], ◌∷◌, Mem, get_elem?, mem-get_elem?, Result, ok, Bool-cases, arith,
}
use Prim.Native.Nat.{Ordering}
use wrap_policy_assignment_s.Base.Map.{Map}
use wrap_policy_assignment_s.Base.Sort.{IsSorted}
use wrap_policy_assignment_s.Resolver.Value.{Value}
use wrap_policy_assignment_s.Resolver.Ast.{WhyNot, matches}
use wrap_policy_assignment_s.Resolver.Types.{
  RuleVersion, ResolutionStrategy, winner, rule_shadowed, not_matched, needs_decision,
}
use wrap_policy_assignment_s.Resolver.Conflicts.{
  RankedRule, rank_rule, compare_rules, LossReason, loss_reason,
}
use wrap_policy_assignment_s.Resolver.Conflicts.Order.{compare_rules-IsOrder, compare_rules-eq}
use wrap_policy_assignment_s.Resolver.Conflicts.Reasons.{Explains, loss_reason-Explains}
use wrap_policy_assignment_s.Resolver.Trace.{
  Panic, RuleEvaluation, first, is_explicit, is_additive, evaluate_matched, evaluate_all,
}
use wrap_policy_assignment_s.Resolver.Resolve.Run.{>>=-eq-ok, ok-injective}
use wrap_policy_assignment_s.Resolver.Resolve.Candidates.{head_best}

pub evaluate_all-Pairs :
    (P : RuleVersion → RuleEvaluation → Type 0) (line : RuleVersion → Result Panic RuleEvaluation)
    (rules : List RuleVersion) {lines : List RuleEvaluation}
    → ((r : RuleVersion) (l : RuleEvaluation) → Mem r rules → line r ≡ ok l → P r l)
    → evaluate_all line rules ≡ ok lines
    → Pairs P rules lines
unfolding evaluate_all
evaluate_all-Pairs P line [] h e = subst (Pairs P []) (ok-injective e) tt
evaluate_all-Pairs P line (r ∷ rs) h e =
    let (l, here, e1) = >>=-eq-ok (line r) (λ l. evaluate_all line rs >>= λ ls. ok (l ∷ ls)) e in
    let (ls, there, e2) = >>=-eq-ok (evaluate_all line rs) (λ ls. ok (l ∷ ls)) e1 in
    subst (Pairs P (r ∷ rs)) (ok-injective e2) (
      h r l mem-cons_self here,
      evaluate_all-Pairs P line rs (λ x y m. h x y (mem-cons_of_mem r m)) there,
    )

-- What the trace says of a matched rule that stands at the place `rank - 1` of the order: it waits
-- for a decision, it is a winner, or it lost to the head for the reason that decided between them.
pub data Judged (ranked : List RankedRule) (strategy : ResolutionStrategy) (undecided : Bool)
    (r : RuleVersion) (l : RuleEvaluation) : Type 0 where
  waits :
      (is_explicit strategy && undecided) ≡ true
      → l.outcome ≡ needs_decision
      → l.why_lost ≡ none
      → Judged ranked strategy undecided r l
  wins :
      (is_explicit strategy && undecided) ≡ false
      → (l.rank ≡ 1) ⊎ (is_additive strategy ≡ true)
      → l.outcome ≡ winner
      → l.why_lost ≡ none
      → Judged ranked strategy undecided r l
  loses :
      (is_explicit strategy && undecided) ≡ false
      → is_additive strategy ≡ false
      → l.outcome ≡ rule_shadowed
      → (head : RankedRule) → get_elem? ranked 0 ≡ some head
      → (reason : LossReason) → l.why_lost ≡ some reason
      → Explains (rank_rule r) head reason
      → Judged ranked strategy undecided r l

-- The line of a rule: a rule that does not match has the reason, a rule that matches has its place
-- in the order and what came of it.
pub data IsLine (attributes : Map Value) (ranked : List RankedRule) (strategy : ResolutionStrategy)
    (undecided : Bool) (r : RuleVersion) (l : RuleEvaluation) : Type 0 where
  unmatched :
      l.rule_id ≡ r.rule_id
      → l.matched ≡ false
      → l.outcome ≡ not_matched
      → (why : WhyNot) → matches r.predicate attributes ≡ some why
      → l.why_not ≡ some why
      → IsLine attributes ranked strategy undecided r l
  matched :
      l.rule_id ≡ r.rule_id
      → l.matched ≡ true
      → matches r.predicate attributes ≡ none
      → (n : ℕ) → l.rank ≡ suc n
      → get_elem? ranked n ≡ some (rank_rule r)
      → Judged ranked strategy undecided r l
      → IsLine attributes ranked strategy undecided r l

head_of :
    (ranked : List RankedRule) (n : ℕ) {b : RankedRule}
    → get_elem? ranked n ≡ some b
    → (head : RankedRule) × (get_elem? ranked 0 ≡ some head) × (first ranked ≡ ok head)
head_of [] n h = cc
head_of (a ∷ rest) n h = (a, refl, refl)

module _ (ranked : List RankedRule) (sorted : IsSorted compare_rules ranked)
    (distinct : Pairwise (λ (a b : RankedRule). a.rule.rule_id ≢ b.rule.rule_id) ranked) where
  -- The head ranks before every rule at a later place.
  head_before :
      (head : RankedRule) (n : ℕ) (b : RankedRule)
      → get_elem? ranked 0 ≡ some head
      → get_elem? ranked (suc n) ≡ some b
      → compare_rules head b ≡ Ordering.lt
  head_before head n b h k = before ranked sorted distinct h k
    where
      before :
          (l : List RankedRule)
          → IsSorted compare_rules l
          → Pairwise (λ (a b : RankedRule). a.rule.rule_id ≢ b.rule.rule_id) l
          → get_elem? l 0 ≡ some head
          → get_elem? l (suc n) ≡ some b
          → compare_rules head b ≡ Ordering.lt
      before [] s d h k = cc
      before (x ∷ l) s d h k =
          let m = mem-get_elem? l n k in
          let apart = rel_of_Pairwise-cons d m in
          let best = head_best s (mem-cons_of_mem x m) in
          ground (arith, compare_rules-IsOrder.flipped x b, compare_rules-eq x b, apart, best)

  later-Judged :
      (strategy : ResolutionStrategy) (undecided : Bool) (r : RuleVersion) (n : ℕ)
      (l : RuleEvaluation)
      → (is_explicit strategy && undecided) ≡ false
      → is_additive strategy ≡ false
      → get_elem? ranked n ≡ some (rank_rule r)
      → evaluate_matched strategy undecided ranked r (suc n) ≡ ok l
      → Judged ranked strategy undecided r l
  unfolding evaluate_matched
  later-Judged strategy undecided r zero l decided chooses place h =
      wins decided (inl (ground arith)) (ground arith) (ground arith)
  later-Judged strategy undecided r (suc n) l decided chooses place h =
      let (head, heads, e) = head_of ranked (suc n) place in
      loses decided chooses (ground arith) head heads (loss_reason (rank_rule r) head)
        (ground arith)
        (loss_reason-Explains (rank_rule r) head (head_before head n (rank_rule r) heads place))

  pub evaluate_matched-Judged :
      (strategy : ResolutionStrategy) (undecided : Bool) (r : RuleVersion) (n : ℕ)
      (l : RuleEvaluation)
      → get_elem? ranked n ≡ some (rank_rule r)
      → evaluate_matched strategy undecided ranked r (suc n) ≡ ok l
      → Judged ranked strategy undecided r l
  unfolding evaluate_matched
  evaluate_matched-Judged strategy undecided r n l place h =
      elim (Bool-cases (is_explicit strategy && undecided)) [
        | inl open_choice ↦ waits open_choice (ground arith) (ground arith)
        | inr decided ↦ elim (Bool-cases (is_additive strategy)) [
          | inl stacks ↦ wins decided (inr stacks) (ground arith) (ground arith)
          | inr chooses ↦ later-Judged strategy undecided r n l decided chooses place h
        ]
      ]

-- The fields of a line that the rule and its rank decide.
pub evaluate_matched_fields :
    (ranked : List RankedRule) (strategy : ResolutionStrategy) (undecided : Bool) (r : RuleVersion)
    (rank : ℕ) (l : RuleEvaluation)
    → evaluate_matched strategy undecided ranked r rank ≡ ok l
    → (l.rule_id ≡ r.rule_id) × (l.matched ≡ true) × (l.rank ≡ rank)
unfolding evaluate_matched
evaluate_matched_fields [] strategy undecided r rank l h = ground arith
evaluate_matched_fields (a ∷ rest) strategy undecided r rank l h = ground arith
