-- ===== src/Resolver/Resolve/Ids.antt =====
-- Rules with distinct ids, which `Compare` and the maps of `Resolve` by rule id rely on.
use mathlib.Core.List.{Pairwise}
use wrap_policy_assignment_s.Base.{◌≢◌, List}
use wrap_policy_assignment_s.Base.Keys.{HasDistinct-inj, HasDistinct-perm, HasDistinct-map}
use wrap_policy_assignment_s.Base.Map.{Map}
use wrap_policy_assignment_s.Base.Text.{Text, text_eq}
use wrap_policy_assignment_s.Base.Keep.{keep-Pairwise}
use wrap_policy_assignment_s.Resolver.Value.{Value}
use wrap_policy_assignment_s.Resolver.Types.{RuleVersion}
use wrap_policy_assignment_s.Resolver.Types.Sets.{RuleVersion-set}
use wrap_policy_assignment_s.Resolver.Conflicts.{RankedRule, rank_rule}
use wrap_policy_assignment_s.Resolver.Conflicts.Order.{sort_matched-perm}
use wrap_policy_assignment_s.Resolver.Resolve.{category_rules, matched_rules, is_match}
use wrap_policy_assignment_s.Resolver.Resolve.Candidates.{IsKeyed, candidates, category_rules-perm}
use wrap_policy_assignment_s.Resolver.Resolve.Ordered.{order}

-- No two entries of the list have one id.
abbrev pub HasDistinctIds : List RuleVersion → Type 0
HasDistinctIds = Pairwise (λ a b. a.rule_id ≢ b.rule_id)

pub HasDistinctIds-IsKeyed : {rules : List RuleVersion} → HasDistinctIds rules → IsKeyed rules
HasDistinctIds-IsKeyed = HasDistinct-inj (λ r. r.rule_id) RuleVersion-set

module _ (attributes : Map Value) (id : Text) {rules : List RuleVersion}
    (distinct : HasDistinctIds rules) where
  pub category_rules-HasDistinctIds : HasDistinctIds (category_rules id rules)
  category_rules-HasDistinctIds =
      HasDistinct-perm (λ r. r.rule_id) (category_rules-perm id rules)
        (keep-Pairwise (λ r. text_eq r.category_id id) distinct)

  pub candidates-HasDistinctIds : HasDistinctIds (candidates attributes id rules)
  unfolding matched_rules
  candidates-HasDistinctIds = keep-Pairwise (is_match attributes) category_rules-HasDistinctIds

  pub order-HasDistinctIds :
      Pairwise (λ (a b : RankedRule). a.rule.rule_id ≢ b.rule.rule_id) (order attributes id rules)
  order-HasDistinctIds =
      HasDistinct-perm (λ a. a.rule.rule_id) (sort_matched-perm (candidates attributes id rules))
        (HasDistinct-map (λ (a : RankedRule). a.rule.rule_id) rank_rule candidates-HasDistinctIds)
