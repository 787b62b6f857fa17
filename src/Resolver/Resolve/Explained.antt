-- ===== src/Resolver/Resolve/Explained.antt =====
-- The decision trace: one line for each rule of the category, in the order of the ids, with what
-- became of the rule and why.
use mathlib.Core.Bool.{Bool-set, true≢false}
use wrap_policy_assignment_s.Base.{
  Pairs, ℕ, suc, ◌≡◌, refl, sym, ◌∙◌, ap, subst, inl, inr, Bool, true, false, some, List, [], Mem,
  get_elem?, mem-get_elem?, All-mem, ok, Option-cases, arith,
}
use wrap_policy_assignment_s.Base.Map.{Map, lookup}
use wrap_policy_assignment_s.Base.Text.{Text, text_eq, text_eq_iff}
use wrap_policy_assignment_s.Resolver.Value.{Value}
use wrap_policy_assignment_s.Resolver.Ast.{matches}
use wrap_policy_assignment_s.Resolver.Types.{RuleVersion, ResolutionStrategy}
use wrap_policy_assignment_s.Resolver.Conflicts.{RankedRule, rank_rule}
use wrap_policy_assignment_s.Resolver.Trace.{
  MatchResult, RuleEvaluation, rank_of, rank_by_rule, evaluate_matched, unmatched_line,
  evaluate_rule, build_evaluations,
}
use wrap_policy_assignment_s.Resolver.Resolve.{
  Input, Resolution, category_rules, match_results, resolve,
}
use wrap_policy_assignment_s.Resolver.Selection.{select}
use wrap_policy_assignment_s.Resolver.Resolve.Run.{ok-injective, resolve-Run}
use wrap_policy_assignment_s.Resolver.Resolve.Candidates.{
  candidates, mem-candidates, mem-ranked_of_candidate, candidate_of_mem-ranked, candidate_of_match,
  rank_of_mem-ranked,
}
use wrap_policy_assignment_s.Resolver.Resolve.Ordered.{order, order-IsSorted}
use wrap_policy_assignment_s.Resolver.Resolve.Ids.{
  HasDistinctIds, HasDistinctIds-IsKeyed, order-HasDistinctIds, candidates-HasDistinctIds,
  category_rules-HasDistinctIds,
}
use wrap_policy_assignment_s.Resolver.Resolve.Lines.{
  old, new, rank_by_rule-Ranked, lookup-match_results, verdict,
}
use wrap_policy_assignment_s.Resolver.Resolve.Judgement.{
  evaluate_all-Pairs, IsLine, unmatched, matched, evaluate_matched-Judged, evaluate_matched_fields,
}

module _ (results : Map MatchResult) (ranks : Map ℕ) (ranked : List RankedRule)
    (strategy : ResolutionStrategy) (undecided : Bool) (r : RuleVersion) (v : MatchResult)
    (found : lookup r.rule_id results ≡ some v) where
  evaluate_rule_matched :
      v.matched ≡ true
      → evaluate_rule results ranks ranked strategy undecided r
        ≡ evaluate_matched strategy undecided ranked r (rank_of (lookup r.rule_id ranks))
  unfolding evaluate_rule
  evaluate_rule_matched h = ground arith

  evaluate_rule_unmatched :
      v.matched ≡ false
      → evaluate_rule results ranks ranked strategy undecided r ≡ ok (unmatched_line r v.why_not)
  unfolding evaluate_rule
  evaluate_rule_unmatched h = ground arith

module _ (attributes : Map Value) (id : Text) (rules : List RuleVersion)
    (distinct : HasDistinctIds rules) where
  abbrev ranked : List RankedRule
  ranked = order attributes id rules

  abbrev ranks : Map ℕ
  ranks = rank_by_rule 0 ranked []

  -- The rank of a matched rule is its place in the order.
  rank_of_candidate :
      (r : RuleVersion)
      → Mem r (candidates attributes id rules)
      → (n : ℕ) × (rank_of (lookup r.rule_id ranks) ≡ suc n)
        × (get_elem? ranked n ≡ some (rank_rule r))
  rank_of_candidate r m = elim (rank_by_rule-Ranked 0 ranked [] r.rule_id) [
    | old others e ↦ absurd (
        true≢false (
          sym ((text_eq_iff r.rule_id r.rule_id).1 refl)
          ∙ All-mem (λ a. Bool-set (text_eq a.rule.rule_id r.rule_id) false) ranked others
              (mem-ranked_of_candidate attributes id rules
                ((mem-candidates attributes id rules).0 m))))
    | new n a place named e ↦
        let listed = mem-get_elem? ranked n place in
        let same : a.rule ≡ r =
          HasDistinctIds-IsKeyed (candidates-HasDistinctIds attributes id distinct) a.rule r
            (candidate_of_mem-ranked attributes id rules listed) m named in
        (
          n,
          ap rank_of e ∙ omega arith,
          place ∙ ap some (sym (rank_of_mem-ranked attributes id rules listed) ∙ ap rank_rule same),
        )
  ]

  -- The line that the loop writes for a rule.
  evaluate_rule-IsLine :
      (strategy : ResolutionStrategy) (undecided : Bool) (r : RuleVersion) (l : RuleEvaluation)
      → Mem r (category_rules id rules)
      → evaluate_rule
          (match_results attributes (category_rules id rules) [])
          ranks
          ranked
          strategy
          undecided
          r
        ≡ ok l
      → IsLine attributes ranked strategy undecided r l
  evaluate_rule-IsLine strategy undecided r l m h =
      let results = match_results attributes (category_rules id rules) [] in
      let found =
        lookup-match_results attributes (category_rules id rules) r
          (HasDistinctIds-IsKeyed (category_rules-HasDistinctIds attributes id distinct)) m in
      elim (Option-cases (matches r.predicate attributes)) [
        | inl hit ↦
            let (n, rank, place) =
              rank_of_candidate r (candidate_of_match attributes id rules m hit) in
            let step =
              evaluate_rule_matched results ranks ranked strategy undecided r (verdict attributes r)
                found (ground arith) in
            let h' : evaluate_matched strategy undecided ranked r (suc n) ≡ ok l =
              ap (evaluate_matched strategy undecided ranked r) (sym rank) ∙ sym step ∙ h in
            let (same_id, is_true, same_rank) =
              evaluate_matched_fields ranked strategy undecided r (suc n) l h' in
            matched same_id is_true hit n same_rank place (
              evaluate_matched-Judged ranked (order-IsSorted attributes id rules)
                (order-HasDistinctIds attributes id distinct) strategy undecided r n l place h')
        | inr (why, miss) ↦
            let step =
              evaluate_rule_unmatched results ranks ranked strategy undecided r
                (verdict attributes r) found (ground arith) in
            let same = ok-injective (sym step ∙ h) in
            unmatched (sym (ap (λ (x : RuleEvaluation). x.rule_id) same))
              (sym (ap (λ (x : RuleEvaluation). x.matched) same))
              (sym (ap (λ (x : RuleEvaluation). x.outcome) same)) why miss
              (sym (ap (λ (x : RuleEvaluation). x.why_not) same) ∙ miss)
      ]

-- The trace of a resolution, when the rule ids are distinct, has one line for each rule of the
-- category, in the order of the ids: the line of a rule that does not match carries the reason, and
-- the line of a rule that matches carries its place in the order and what came of it.
pub resolve-IsLine :
    (input : Input) (res : Resolution)
    → HasDistinctIds input.rules
    → resolve input ≡ ok res
    → Pairs
        (IsLine res.trace.facts_snapshot
          (order res.trace.facts_snapshot input.category.id input.rules)
          input.category.resolution_strategy
          (select input.category.resolution_strategy
            (order res.trace.facts_snapshot input.category.id input.rules)).undecided)
        (category_rules input.category.id input.rules)
        res.trace.evaluated
unfolding build_evaluations
resolve-IsLine input res distinct h =
    let run = resolve-Run input h in
    subst
      (λ (r : Resolution).
        Pairs
          (IsLine r.trace.facts_snapshot
            (order r.trace.facts_snapshot input.category.id input.rules)
            input.category.resolution_strategy
            (select input.category.resolution_strategy
              (order r.trace.facts_snapshot input.category.id input.rules)).undecided)
          (category_rules input.category.id input.rules) r.trace.evaluated)
      (sym run.comes.parts)
      (evaluate_all-Pairs _ _ (category_rules input.category.id input.rules)
        (λ r l m.
          evaluate_rule-IsLine run.attributes input.category.id input.rules distinct
            input.category.resolution_strategy _ r l m)
        run.comes.evaluation)
