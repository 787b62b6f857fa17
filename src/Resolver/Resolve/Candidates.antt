-- ===== src/Resolver/Resolve/Candidates.antt =====
-- Which rules a resolution orders, and that the order in which they are given does not matter.
use Prim.Native.Nat.{Ordering}
use mathlib.Core.Logic.{∥∥₁_elim}
use mathlib.Core.Logic.Iff
use mathlib.Core.List.{Mem-prop, mem-map_of_mem, exists_of_mem-map, mem-cast}
use mathlib.Core.List.Perm
use wrap_policy_assignment_s.Base.{
  ◌≡◌, ◌≢◌, sym, ap, ◌∙◌, ◌↔◌, true, none, List, ◌∷◌, Mem, Perm, keep, arith,
}
use wrap_policy_assignment_s.Base.Keep.{mem-keep, keep-perm}
use wrap_policy_assignment_s.Base.Map.{Map}
use wrap_policy_assignment_s.Base.Order.{on-IsOrder}
use wrap_policy_assignment_s.Base.Text.{Text, text_eq, text_eq_iff, cmp_text-IsOrder, cmp_text-eq}
use wrap_policy_assignment_s.Base.Sort.{IsSorted, head_least, sort_by-perm, sort_by-eq_of_perm}
use wrap_policy_assignment_s.Resolver.Value.{Value}
use wrap_policy_assignment_s.Resolver.Ast.{matches}
use wrap_policy_assignment_s.Resolver.Types.{RuleVersion}
use wrap_policy_assignment_s.Resolver.Types.Sets.{RuleVersion-set}
use wrap_policy_assignment_s.Resolver.Conflicts.{RankedRule, rank_rule, compare_rules}
use wrap_policy_assignment_s.Resolver.Conflicts.Order.{compare_rules-IsOrder, sort_matched-perm}
use wrap_policy_assignment_s.Resolver.Resolve.{
  Input, category_rules, matched_rules, is_match, resolve, resolve_on, resolve_attributes,
}
use wrap_policy_assignment_s.Resolver.Resolve.Run.{ranked_of}

-- Two listed rules with one id are one rule.
abbrev pub IsKeyed : List RuleVersion → Type 0
IsKeyed rules = (a b : RuleVersion) → Mem a rules → Mem b rules → a.rule_id ≡ b.rule_id → a ≡ b

pub category_rules-perm :
    (id : Text) (rules : List RuleVersion)
    → Perm (category_rules id rules) (keep (λ r. text_eq r.category_id id) rules)
unfolding category_rules
category_rules-perm id rules = sort_by-perm _ _

pub mem-category_rules :
    (id : Text) {rules : List RuleVersion} {r : RuleVersion}
    → Mem r (category_rules id rules) ↔ (Mem r rules × (text_eq r.category_id id ≡ true))
mem-category_rules id {rules} =
    Iff.trans (Perm.mem_iff (category_rules-perm id rules))
      (mem-keep (λ r. text_eq r.category_id id))

-- The sorted rules of a category do not depend on the order in which the rules are given.
pub category_rules-eq_of_perm :
    (id : Text) {l r : List RuleVersion}
    → Perm l r
    → IsKeyed l
    → category_rules id l ≡ category_rules id r
unfolding category_rules
category_rules-eq_of_perm id p keyed =
    sort_by-eq_of_perm (on-IsOrder (λ r. r.rule_id) cmp_text-IsOrder)
      (keep-perm (λ r. text_eq r.category_id id) p)
      (λ a b ma mb e.
        keyed a b ((mem-keep (λ r. text_eq r.category_id id)).0 ma).0
          ((mem-keep (λ r. text_eq r.category_id id)).0 mb).0 (cmp_text-eq a.rule_id b.rule_id e))

-- The result of `Resolve`, its trace included, does not depend on the order of the rules, when no
-- two different rules have one id.
pub resolve-perm :
    (input : Input) (rules : List RuleVersion)
    → Perm input.rules rules
    → IsKeyed input.rules
    → resolve (record input { rules = rules }) ≡ resolve input
unfolding resolve resolve_on resolve_attributes
resolve-perm input rules p keyed = rw (category_rules-eq_of_perm input.category.id p keyed)

pub RankedRule-set : IsSet RankedRule
RankedRule-set = hlevel RuleVersion-set

-- A rule of the category that matches the facts.
abbrev pub IsCandidate : Map Value → Text → List RuleVersion → RuleVersion → Type 0
IsCandidate attributes id rules r =
    Mem r rules × (r.category_id ≡ id) × (matches r.predicate attributes ≡ none)

module _ (attributes : Map Value) (id : Text) (rules : List RuleVersion) where
  abbrev pub candidates : List RuleVersion
  candidates = matched_rules attributes (category_rules id rules)

  pub mem-candidates : {r : RuleVersion} → Mem r candidates ↔ IsCandidate attributes id rules r
  unfolding matched_rules
  mem-candidates {r} = (
    λ m.
        let (listed, hit) = (mem-keep (is_match attributes)).0 m in
        let (given, named) = (mem-category_rules id).0 listed in
        (given, (text_eq_iff r.category_id id).0 named, ground arith),
    λ (given, named, hit).
        (mem-keep (is_match attributes)).1
          ((mem-category_rules id).1 (given, (text_eq_iff r.category_id id).1 named), ground arith),
  )

  pub candidate_of_match :
      {r : RuleVersion}
      → Mem r (category_rules id rules)
      → matches r.predicate attributes ≡ none
      → Mem r candidates
  unfolding matched_rules
  candidate_of_match m hit = (mem-keep (is_match attributes)).1 (m, ground arith)

  pub mem-ranked_of_candidate :
      {r : RuleVersion}
      → IsCandidate attributes id rules r
      → Mem (rank_rule r) (ranked_of attributes (category_rules id rules))
  mem-ranked_of_candidate c =
      Perm.subset (Perm.symm (sort_matched-perm candidates)) _
        (mem-map_of_mem rank_rule (mem-candidates.1 c))

  pub candidate_of_mem-ranked :
      {a : RankedRule}
      → Mem a (ranked_of attributes (category_rules id rules))
      → Mem a.rule candidates
  candidate_of_mem-ranked {a} m =
      ∥∥₁_elim (exists_of_mem-map (Perm.subset (sort_matched-perm candidates) a m)) Mem-prop
        (λ (r, listed, e). mem-cast (sym (ap (λ (x : RankedRule). x.rule) e)) listed)

  -- A ranked rule carries the specificity of its predicate.
  pub rank_of_mem-ranked :
      {a : RankedRule}
      → Mem a (ranked_of attributes (category_rules id rules))
      → rank_rule a.rule ≡ a
  rank_of_mem-ranked {a} m =
      ∥∥₁_elim (exists_of_mem-map (Perm.subset (sort_matched-perm candidates) a m))
        (RankedRule-set (rank_rule a.rule) a)
        (λ (r, listed, e). ap (λ (x : RankedRule). rank_rule x.rule) (sym e) ∙ e)

-- No member of a sorted list ranks before its head.
pub head_best :
    {a b : RankedRule} {l : List RankedRule}
    → IsSorted compare_rules (a ∷ l)
    → Mem b (a ∷ l)
    → compare_rules b a ≢ Ordering.lt
head_best s m h = ground (arith, head_least compare_rules-IsOrder s m)
