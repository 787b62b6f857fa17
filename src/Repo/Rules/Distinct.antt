-- ===== src/Repo/Rules/Distinct.antt =====
-- The rules that `EffectiveRules` returns have distinct ids.
use mathlib.Core.List.Pairwise
use wrap_policy_assignment_s.Base.{
  ◌≡◌, sym, ◌∙◌, ap, not, Option, List, [], ◌∷◌, map, ok, wrap, arith,
}
use wrap_policy_assignment_s.Base.Int.{ℤ}
use wrap_policy_assignment_s.Base.Keep.{mem-keep, keep-Pairwise}
use wrap_policy_assignment_s.Base.Keys.{HasDistinct, HasDistinct-keys}
use wrap_policy_assignment_s.Base.Text.{Text, text_eq, text_eq_iff}
use wrap_policy_assignment_s.Resolver.Ast.{Predicate, parse_predicate}
use wrap_policy_assignment_s.Resolver.Types.{RuleVersion}
use wrap_policy_assignment_s.Resolver.Resolve.Ids.{HasDistinctIds}
use wrap_policy_assignment_s.Resolver.Resolve.Run.{>>=-eq-ok, ok-injective}
use wrap_policy_assignment_s.Repo.Facts.{pg_date}
use wrap_policy_assignment_s.Repo.Rules.{
  RuleTables, EffectiveRow, distinct_on_rule, get_effective_rule_versions_as_of, to_rule_versions,
  effective_rules, invalid_date, stored_predicate_invalid,
}

distinct_on_rule-HasDistinct :
    (rows : List EffectiveRow)
    → HasDistinct (λ (r : EffectiveRow). r.rule_id) (distinct_on_rule rows)
unfolding distinct_on_rule
distinct_on_rule-HasDistinct [] = Pairwise.nil
distinct_on_rule-HasDistinct (r ∷ rs) =
    Pairwise.cons
      (λ s m e.
        let (_, apart) = (mem-keep (λ (s : EffectiveRow). not (text_eq s.rule_id r.rule_id))).0 m in
        absurd (ground (arith, apart, (text_eq_iff s.rule_id r.rule_id).1 (sym e))))
      (keep-Pairwise (λ (s : EffectiveRow). not (text_eq s.rule_id r.rule_id))
        (distinct_on_rule-HasDistinct rs))

to_rule_versions-ids :
    (unmarshal : Text → Option Predicate) (now : ℤ) (rows : List EffectiveRow)
    (rules : List RuleVersion)
    → to_rule_versions unmarshal now rows ≡ ok rules
    → map (λ (r : EffectiveRow). r.rule_id) rows ≡ map (λ (r : RuleVersion). r.rule_id) rules
unfolding to_rule_versions
to_rule_versions-ids unmarshal now [] rules h =
    ap (map (λ (r : RuleVersion). r.rule_id)) (ok-injective h)
to_rule_versions-ids unmarshal now (r ∷ rs) rules h =
    let (p, parsed, h1) =
      >>=-eq-ok (wrap (stored_predicate_invalid r.rule_id) (parse_predicate unmarshal r.predicate))
        _ h in
    let (rest, later, h2) = >>=-eq-ok (to_rule_versions unmarshal now rs) _ h1 in
    ap (◌∷◌ r.rule_id) (to_rule_versions-ids unmarshal now rs rest later)
    ∙ ap (map (λ (r : RuleVersion). r.rule_id)) (ok-injective h2)

pub effective_rules-HasDistinctIds :
    (unmarshal : Text → Option Predicate) (now : ℤ) (category date : Text) (t : RuleTables)
    (rules : List RuleVersion)
    → effective_rules unmarshal now category date t ≡ ok rules
    → HasDistinctIds rules
unfolding effective_rules get_effective_rule_versions_as_of
effective_rules-HasDistinctIds unmarshal now category date t rules h =
    let (day, dated, h1) = >>=-eq-ok (wrap invalid_date (pg_date date)) _ h in
    HasDistinct-keys (λ (r : EffectiveRow). r.rule_id) (λ (r : RuleVersion). r.rule_id)
      (to_rule_versions-ids unmarshal now (get_effective_rule_versions_as_of category day t) rules
        h1)
      (distinct_on_rule-HasDistinct _)
