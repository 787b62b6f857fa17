-- ===== src/Resolver/Tests/Runs.antt =====
-- The theorems on the resolver, at a category with three rules.
use Prim.Native.Nat.{Ordering}
use mathlib.Core.Bool.{Bool-set, true≢false}
use mathlib.Core.List.{Pairwise.nil, Pairwise.cons}
use mathlib.Core.List.Perm.{swap}
use wrap_policy_assignment_s.Base.{
  Pairs, ◌≡◌, ◌≢◌, refl, sym, ◌∙◌, false, List, [], ◌∷◌, Result, ok, err, Mem, All, All-mem, keep,
  ◌⊎◌,
}
use wrap_policy_assignment_s.Base.Text.{codes, cmp_text, text_eq, text_eq_iff}
use wrap_policy_assignment_s.Base.Sort.{sort_by}
use wrap_policy_assignment_s.Base.Float.{float_of_int}
use wrap_policy_assignment_s.Base.Map.{lookup, insert}
use wrap_policy_assignment_s.Base.Date.{day_number, parse_date}
use wrap_policy_assignment_s.Resolver.Value.{eval_clause, normalize_comparable, compare_values}
use wrap_policy_assignment_s.Resolver.Ast.{matches, first_failure, fails_clause}
use wrap_policy_assignment_s.Resolver.Types.{RuleVersion, priority_rank, no_match}
use wrap_policy_assignment_s.Resolver.Facts.{derive_attributes}
use wrap_policy_assignment_s.Resolver.Trace.{
  none_matched, build_evaluations, rank_by_rule, evaluate_matched, evaluate_rule, evaluate_all,
  short_answer, sort_rule_version_ids,
}
use wrap_policy_assignment_s.Resolver.Conflicts.{
  rank_rule, compare_rules, loss_reason, specificity, sort_matched,
}
use wrap_policy_assignment_s.Resolver.Conflicts.Reasons.{Explains, loss_reason-Explains}
use wrap_policy_assignment_s.Resolver.Resolve.{
  Resolution, ResolveError, validate_category, validate_all, parse_as_of, resolve, assemble,
  resolve_on, resolve_attributes, resolve_rules, category_rules, match_results, matched_rules,
}
use wrap_policy_assignment_s.Resolver.Selection.{select, to_assignment, shadow}
use wrap_policy_assignment_s.Resolver.Resolve.Totality.{resolve-Returns, Returns}
use wrap_policy_assignment_s.Resolver.Resolve.Candidates.{resolve-perm}
use wrap_policy_assignment_s.Resolver.Resolve.Outcomes.{Wins, HasNoMatch, IsUndecided}
use wrap_policy_assignment_s.Resolver.Resolve.Single.{AssignsNone, AssignsOne, resolve-single}
use wrap_policy_assignment_s.Resolver.Resolve.Winner.{
  resolve-priority_rank, resolve-explicit_user_choice,
}
use wrap_policy_assignment_s.Resolver.Resolve.Additive.{resolve-additive, Stacks}
use wrap_policy_assignment_s.Resolver.Resolve.Removal.{resolve-without_winner, Resurrects}
use wrap_policy_assignment_s.Resolver.Resolve.Deletion.{without}
use wrap_policy_assignment_s.Resolver.Resolve.Judgement.{IsLine}
use wrap_policy_assignment_s.Resolver.Resolve.Explained.{resolve-IsLine}
use wrap_policy_assignment_s.Resolver.Resolve.Ordered.{order}
use wrap_policy_assignment_s.Resolver.Resolve.Ids.{HasDistinctIds, HasDistinctIds-IsKeyed}
use wrap_policy_assignment_s.Resolver.Tests.{
  ranked_input, choice_input, stacked_input, by_team, by_hand, elsewhere, facts,
}

apart :
    (a : RuleVersion) (l : List RuleVersion)
    → All (λ b. text_eq a.rule_id b.rule_id ≡ false) l
    → (b : RuleVersion) → Mem b l
    → a.rule_id ≢ b.rule_id
apart a l all b m h = true≢false (
    sym ((text_eq_iff a.rule_id b.rule_id).1 h)
    ∙ All-mem (λ b. Bool-set (text_eq a.rule_id b.rule_id) false) l all m)

distinct_ids : HasDistinctIds (by_team ∷ by_hand ∷ elsewhere ∷ [])
unfolding cmp_text
distinct_ids =
    cons (apart by_team (by_hand ∷ elsewhere ∷ []) (refl, (refl, tt)))
      (cons (apart by_hand (elsewhere ∷ []) (refl, tt)) (cons (apart elsewhere [] tt) nil))

valid : validate_category ranked_input.category ≡ ok tt
unfolding validate_category cmp_text
valid = refl

dated : parse_as_of ranked_input.date ≡ ok 740042
unfolding parse_as_of parse_date day_number
dated = refl

derived : derive_attributes facts.attributes 740042 ≡ ok facts.attributes
unfolding derive_attributes lookup cmp_text
derived = refl

nowhere : Resolution
nowhere =
    assemble ranked_input.category [] [] []
      (record {
        outcome = no_match;
        undecided = false;
        assignments = [];
        shadowed = [];
        options = [];
      })
      [] (none_matched 0)

-- The result of a run that returns.
abbrev returned : Result ResolveError Resolution → Resolution
returned (ok res) = res
returned (err e) = nowhere

returned-ok : {m : Result ResolveError Resolution} → Returns m → m ≡ ok (returned m)
returned-ok (res, e) = rw e

abbrev ranked : Resolution
ranked = returned (resolve ranked_input)

ranked_returns : resolve ranked_input ≡ ok ranked
unfolding validate_all
ranked_returns =
    returned-ok (resolve-Returns ranked_input 740042 facts.attributes valid dated derived refl)

ranked_fields :
    (ranked.assignments ≡ to_assignment by_hand ∷ [])
    × (ranked.shadowed ≡ shadow (rank_rule by_hand) (rank_rule by_team) ∷ [])
unfolding resolve validate_category cmp_text parse_as_of parse_date day_number derive_attributes
    lookup insert resolve_on resolve_attributes validate_all resolve_rules category_rules
    match_results matched_rules sort_matched build_evaluations short_answer select compare_rules
    specificity matches first_failure fails_clause eval_clause normalize_comparable compare_values
    rank_by_rule evaluate_matched evaluate_rule evaluate_all loss_reason sort_rule_version_ids
    sort_by keep float_of_int
ranked_fields = (refl, refl)

resolve-Returns_example : Returns (resolve ranked_input)
unfolding validate_all
resolve-Returns_example =
    resolve-Returns ranked_input 740042 facts.attributes valid dated derived refl

resolve-priority_rank_example :
    HasNoMatch ranked.trace.facts_snapshot (codes "pto") ranked_input.rules ranked
    ⊎ Wins ranked.trace.facts_snapshot (codes "pto") ranked_input.rules ranked
resolve-priority_rank_example = resolve-priority_rank ranked_input ranked ranked_returns refl

resolve-without_winner_example :
    (after : Resolution) × (resolve
        (record ranked_input { rules = without (codes "b") ranked_input.rules })
      ≡ ok after)
    × Resurrects after (shadow (rank_rule by_hand) (rank_rule by_team)) []
resolve-without_winner_example =
    resolve-without_winner ranked_input ranked (to_assignment by_hand)
      (shadow (rank_rule by_hand) (rank_rule by_team)) [] distinct_ids refl ranked_returns
      ranked_fields.0 ranked_fields.1

resolve-perm_example :
    resolve (record ranked_input { rules = by_hand ∷ by_team ∷ elsewhere ∷ [] })
    ≡ resolve ranked_input
resolve-perm_example =
    resolve-perm ranked_input (by_hand ∷ by_team ∷ elsewhere ∷ [])
      (swap by_hand by_team (elsewhere ∷ [])) (HasDistinctIds-IsKeyed distinct_ids)

resolve-IsLine_example :
    Pairs
      (IsLine ranked.trace.facts_snapshot
        (order ranked.trace.facts_snapshot (codes "pto") ranked_input.rules)
        priority_rank
        (select priority_rank
          (order ranked.trace.facts_snapshot (codes "pto") ranked_input.rules)).undecided)
      (category_rules (codes "pto") ranked_input.rules)
      ranked.trace.evaluated
resolve-IsLine_example = resolve-IsLine ranked_input ranked distinct_ids ranked_returns

abbrev open_result : Resolution
open_result = returned (resolve choice_input)

choice_returns : resolve choice_input ≡ ok open_result
unfolding validate_all validate_category cmp_text
choice_returns =
    returned-ok (resolve-Returns choice_input 740042 facts.attributes refl dated derived refl)

resolve-explicit_user_choice_example :
    HasNoMatch open_result.trace.facts_snapshot (codes "pto") choice_input.rules open_result
    ⊎ Wins open_result.trace.facts_snapshot (codes "pto") choice_input.rules open_result
      × (open_result.shadowed ≡ [])
    ⊎ IsUndecided open_result.trace.facts_snapshot (codes "pto") choice_input.rules open_result
resolve-explicit_user_choice_example =
    resolve-explicit_user_choice choice_input open_result choice_returns refl

abbrev stacked : Resolution
stacked = returned (resolve stacked_input)

stacked_returns : resolve stacked_input ≡ ok stacked
unfolding validate_all validate_category cmp_text
stacked_returns =
    returned-ok (resolve-Returns stacked_input 740042 facts.attributes refl dated derived refl)

resolve-additive_example :
    HasNoMatch stacked.trace.facts_snapshot (codes "pto") stacked_input.rules stacked
    ⊎ Stacks stacked.trace.facts_snapshot (codes "pto") stacked_input.rules stacked
resolve-additive_example = resolve-additive stacked_input stacked stacked_returns refl

by_hand_first : compare_rules (rank_rule by_hand) (rank_rule by_team) ≡ Ordering.lt
unfolding compare_rules
by_hand_first = refl

loss_reason-Explains_example :
    Explains
      (rank_rule by_team)
      (rank_rule by_hand)
      (loss_reason (rank_rule by_team) (rank_rule by_hand))
loss_reason-Explains_example =
    loss_reason-Explains (rank_rule by_team) (rank_rule by_hand) by_hand_first

resolve-single_example : AssignsNone ranked ⊎ AssignsOne ranked
resolve-single_example = resolve-single ranked_input ranked ranked_returns refl
