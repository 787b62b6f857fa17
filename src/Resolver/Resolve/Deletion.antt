-- ===== src/Resolver/Resolve/Deletion.antt =====
-- Deleting a rule: the order of the others stays.
use mathlib.Core.Logic.{∥∥₁_elim}
use mathlib.Core.List.{Pairwise, rel_of_Pairwise-cons, exists_of_mem-map}
use wrap_policy_assignment_s.Base.{
  ◌≡◌, ◌≢◌, refl, sym, ◌∙◌, ap, subst, Bool, true, not, inl, inr, Option, none, some, List, [], ◌∷◌,
  map, Mem, keep, ok, Bool-cases, arith,
}
use wrap_policy_assignment_s.Base.Map.{Map}
use wrap_policy_assignment_s.Base.Text.{Text, text_eq, text_eq_iff, cmp_text-IsOrder, cmp_text-eq}
use wrap_policy_assignment_s.Base.Keep.{mem-keep, sort_by-keep, keep-keep_comm, keep-map, keep_all}
use wrap_policy_assignment_s.Base.Order.{on-IsOrder}
use wrap_policy_assignment_s.Base.Sort.{IsTold}
use wrap_policy_assignment_s.Resolver.Value.{Value}
use wrap_policy_assignment_s.Resolver.Ast.Validate.{AttributeDefinition}
use wrap_policy_assignment_s.Resolver.Types.{RuleVersion}
use wrap_policy_assignment_s.Resolver.Conflicts.{RankedRule, rank_rule, compare_rules, sort_matched}
use wrap_policy_assignment_s.Resolver.Conflicts.Order.{compare_rules-IsOrder, compare_rules-eq}
use wrap_policy_assignment_s.Resolver.Resolve.{
  category_rules, matched_rules, is_match, validate_rules, validate_all,
}
use wrap_policy_assignment_s.Resolver.Resolve.Candidates.{IsKeyed, RankedRule-set, candidates}
use wrap_policy_assignment_s.Resolver.Resolve.Ordered.{order}
use wrap_policy_assignment_s.Resolver.Resolve.Ids.{
  HasDistinctIds, HasDistinctIds-IsKeyed, candidates-HasDistinctIds, order-HasDistinctIds,
}

abbrev pub other_than : Text → RuleVersion → Bool
other_than id r = not (text_eq r.rule_id id)

-- The rules that are left after the deletion of the rule `id`.
abbrev pub without : Text → List RuleVersion → List RuleVersion
without id rules = keep (other_than id) rules

rank_rule-IsTold :
    (rules : List RuleVersion) → IsKeyed rules → IsTold compare_rules (map rank_rule rules)
rank_rule-IsTold rules keyed a b ma mb e =
    ∥∥₁_elim (exists_of_mem-map ma) (RankedRule-set a b) (λ (r, mr, er).
      ∥∥₁_elim (exists_of_mem-map mb) (RankedRule-set a b) (λ (s, ms, es).
        let same = keyed r s mr ms (
          ap (λ (x : RankedRule). x.rule.rule_id) er
          ∙ compare_rules-eq a b e
          ∙ ap (λ (x : RankedRule). x.rule.rule_id) (sym es)) in
        sym er ∙ ap rank_rule same ∙ es))

module _ (w : Text) where
  category_rules-without :
      (id : Text) (rules : List RuleVersion)
      → IsKeyed rules
      → category_rules id (without w rules) ≡ without w (category_rules id rules)
  unfolding category_rules
  category_rules-without id rules keyed =
      rw (keep-keep_comm (λ r. text_eq r.category_id id) (other_than w) rules) (
        sort_by-keep (on-IsOrder (λ r. r.rule_id) cmp_text-IsOrder) (other_than w) _ (λ a b ma mb e.
          keyed a b ((mem-keep (λ r. text_eq r.category_id id)).0 ma).0
            ((mem-keep (λ r. text_eq r.category_id id)).0 mb).0
            (cmp_text-eq a.rule_id b.rule_id e)))

  sort_matched-without :
      (rules : List RuleVersion)
      → IsKeyed rules
      → sort_matched (without w rules) ≡ keep (λ a. other_than w a.rule) (sort_matched rules)
  unfolding sort_matched
  sort_matched-without rules keyed =
      rw (sym (keep-map (λ (a : RankedRule). other_than w a.rule) rank_rule rules)) (
        sort_by-keep compare_rules-IsOrder (λ a. other_than w a.rule) (map rank_rule rules)
          (rank_rule-IsTold rules keyed))

  order-without :
      (attributes : Map Value) (id : Text) (rules : List RuleVersion)
      → HasDistinctIds rules
      → order attributes id (without w rules)
        ≡ keep (λ a. other_than w a.rule) (order attributes id rules)
  unfolding matched_rules
  order-without attributes id rules distinct =
      rw (category_rules-without id rules (HasDistinctIds-IsKeyed distinct)) (
        rw (keep-keep_comm (is_match attributes) (other_than w) (category_rules id rules)) (
          sort_matched-without (candidates attributes id rules)
            (HasDistinctIds-IsKeyed (candidates-HasDistinctIds attributes id distinct))))

  validate_rules-without :
      (defs : Map AttributeDefinition) (rules : List RuleVersion)
      → validate_rules defs rules ≡ ok tt
      → validate_rules defs (without w rules) ≡ ok tt
  unfolding validate_rules keep
  validate_rules-without defs [] h = refl
  validate_rules-without defs (r ∷ rs) h = ground (arith, validate_rules-without defs rs)

  pub validate_all-without :
      (defs : Option (Map AttributeDefinition)) (id : Text) (rules : List RuleVersion)
      → IsKeyed rules
      → validate_all defs (category_rules id rules) ≡ ok tt
      → validate_all defs (category_rules id (without w rules)) ≡ ok tt
  unfolding validate_all
  validate_all-without none id rules keyed h = refl
  validate_all-without (some defs) id rules keyed h =
      rw (category_rules-without id rules keyed)
        (validate_rules-without defs (category_rules id rules) h)

-- Without the rule at its head the order is what stood behind it.
pub order-without_head :
    (attributes : Map Value) (id : Text) (rules : List RuleVersion) (a : RankedRule)
    (rest : List RankedRule)
    → HasDistinctIds rules
    → order attributes id rules ≡ a ∷ rest
    → order attributes id (without a.rule.rule_id rules) ≡ rest
unfolding keep
order-without_head attributes id rules a rest distinct e =
    order-without a.rule.rule_id attributes id rules distinct
    ∙ ap (keep (λ b. other_than a.rule.rule_id b.rule)) e
    ∙ drop
  where
    others : (b : RankedRule) → Mem b rest → other_than a.rule.rule_id b.rule ≡ true
    others b m =
        let apart =
          rel_of_Pairwise-cons
            (subst (Pairwise (λ (x y : RankedRule). x.rule.rule_id ≢ y.rule.rule_id)) e
              (order-HasDistinctIds attributes id distinct))
            m in
        elim (Bool-cases (text_eq b.rule.rule_id a.rule.rule_id)) [
          | inl same ↦ absurd (apart (sym ((text_eq_iff b.rule.rule_id a.rule.rule_id).0 same)))
          | inr differs ↦ rw differs
        ]

    drop : keep (λ b. other_than a.rule.rule_id b.rule) (a ∷ rest) ≡ rest
    drop = ground (
      arith,
      text_eq_iff a.rule.rule_id a.rule.rule_id,
      keep_all (λ (b : RankedRule). other_than a.rule.rule_id b.rule) rest others,
    )
