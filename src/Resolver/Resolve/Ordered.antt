-- ===== src/Resolver/Resolve/Ordered.antt =====
-- The candidates in their order: the head is the best, and none is lost.
use mathlib.Core.List.{mem-cons_self, map-map, not-mem-nil}
use mathlib.Core.List.Perm
use native.Mathlib.Numerals.{add-one}
use wrap_policy_assignment_s.Base.{
  ℕ, suc, ◌≡◌, refl, sym, ap, ◌∙◌, subst, List, [], ◌∷◌, map, Mem, Perm, All, arith,
}
use wrap_policy_assignment_s.Base.Map.{Map}
use wrap_policy_assignment_s.Base.Text.{Text}
use wrap_policy_assignment_s.Base.Sort.{IsSorted}
use wrap_policy_assignment_s.Resolver.Value.{Value}
use wrap_policy_assignment_s.Resolver.Types.{RuleVersion}
use wrap_policy_assignment_s.Resolver.Conflicts.{RankedRule, rank_rule, compare_rules}
use wrap_policy_assignment_s.Resolver.Conflicts.Order.{sort_matched-IsSorted, sort_matched-perm}
use wrap_policy_assignment_s.Resolver.Resolve.{category_rules}
use wrap_policy_assignment_s.Resolver.Selection.{shadow, rank_options}
use wrap_policy_assignment_s.Resolver.Resolve.Run.{ranked_of}
use wrap_policy_assignment_s.Resolver.Resolve.Candidates.{
  IsCandidate, candidates, mem-candidates, mem-ranked_of_candidate, candidate_of_mem-ranked,
  rank_of_mem-ranked, head_best,
}
use wrap_policy_assignment_s.Resolver.Resolve.Outcomes.{IsBest, AreRanked}

module _ (attributes : Map Value) (id : Text) (rules : List RuleVersion) where
  abbrev pub order : List RankedRule
  order = ranked_of attributes (category_rules id rules)

  pub order-IsSorted : IsSorted compare_rules order
  order-IsSorted = sort_matched-IsSorted (candidates attributes id rules)

  pub order-perm :
      {l : List RankedRule} → order ≡ l → Perm l (map rank_rule (candidates attributes id rules))
  order-perm e =
      subst (λ l. Perm l (map rank_rule (candidates attributes id rules))) e
        (sort_matched-perm (candidates attributes id rules))

  pub ids_of_order :
      {l : List RankedRule}
      → order ≡ l
      → Perm (map (λ a. a.rule.rule_id) l) (map (λ r. r.rule_id) (candidates attributes id rules))
  ids_of_order e =
      rw (map-map (λ (a : RankedRule). a.rule.rule_id) rank_rule (candidates attributes id rules))
        at (Perm.map (λ (a : RankedRule). a.rule.rule_id) (order-perm e))

  pub head-IsBest :
      (a : RankedRule) (rest : List RankedRule)
      → order ≡ a ∷ rest
      → IsBest attributes id rules a.rule
  head-IsBest a rest e =
      let listed = subst (Mem a) (sym e) mem-cons_self in
      record {
        candidate =
            (mem-candidates attributes id rules).0
              (candidate_of_mem-ranked attributes id rules listed);
        best = λ r c before.
            head_best (subst (IsSorted compare_rules) e order-IsSorted)
              (subst (Mem (rank_rule r)) e (mem-ranked_of_candidate attributes id rules c))
              (ap (compare_rules (rank_rule r))
                  (sym (rank_of_mem-ranked attributes id rules listed))
                ∙ before);
      }

  pub shadows-by :
      (a : RankedRule) (l : List RankedRule)
      → All (λ s. s.by_rule_id ≡ a.rule.rule_id) (map (shadow a) l)
  shadows-by a [] = tt
  shadows-by a (b ∷ l) = (refl, shadows-by a l)

  pub none_left : order ≡ [] → (r : RuleVersion) → ¬ IsCandidate attributes id rules r
  none_left e r c =
      not-mem-nil (subst (Mem (rank_rule r)) e (mem-ranked_of_candidate attributes id rules c))

  pub rank_options-AreRanked : (i : ℕ) (l : List RankedRule) → AreRanked i l (rank_options i l)
  unfolding rank_options
  rank_options-AreRanked i [] = tt
  rank_options-AreRanked i (a ∷ l) =
      (omega arith, refl, refl, refl, rw (add-one i) (rank_options-AreRanked (suc i) l))
