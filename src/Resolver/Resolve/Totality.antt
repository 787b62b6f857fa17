-- ===== src/Resolver/Resolve/Totality.antt =====
-- `Resolve` never indexes an empty slice, and it returns on every input that passes its checks.
use mathlib.Core.List.Perm
use wrap_policy_assignment_s.Base.{
  ℕ, ◌≡◌, refl, ◌∙◌, subst, ap, inl, inr, Bool, false, List, [], ◌∷◌, map, keep, Perm, Result, ok,
  Result-cases, Bool-cases, wrap, arith,
}
use wrap_policy_assignment_s.Base.Map.{Map, lookup, lookup-insert}
use wrap_policy_assignment_s.Base.Text.{Text}
use wrap_policy_assignment_s.Resolver.Value.{Value}
use wrap_policy_assignment_s.Resolver.Ast.{matches}
use wrap_policy_assignment_s.Resolver.Types.{
  CategoryConfig, RuleVersion, ResolutionStrategy, Outcome, assigned, shadowed, no_match,
  conflict_needs_decision,
}
use wrap_policy_assignment_s.Resolver.Facts.{derive_attributes}
use wrap_policy_assignment_s.Resolver.Conflicts.{RankedRule, rank_rule, sort_matched}
use wrap_policy_assignment_s.Resolver.Conflicts.Order.{sort_matched-perm}
use wrap_policy_assignment_s.Resolver.Trace.{
  Panic, MatchResult, RuleEvaluation, result_of, rank_by_rule, evaluate_rule, evaluate_all,
  build_evaluations, short_answer,
}
use wrap_policy_assignment_s.Resolver.Resolve.{
  Input, panicked, validate_category, parse_as_of, category_rules, validate_all, assemble, is_match,
  match_results, matched_rules, resolve_rules, resolve,
}
use wrap_policy_assignment_s.Resolver.Selection.{select}
use wrap_policy_assignment_s.Resolver.Resolve.Run.{ranked_of, chosen_of, resolve-of_steps}

-- The computation returns a value.
abbrev pub Returns {ℓ} : {E : Type 0} {A : Type ℓ} → Result E A → Type ℓ
Returns {A} m = (a : A) × (m ≡ ok a)

abbrev NoneMatched : Map MatchResult → Type 0
NoneMatched results = (k : Text) → (result_of (lookup k results)).matched ≡ false

module _ (attributes : Map Value) where
  match_results-NoneMatched :
      (rules : List RuleVersion) (results : Map MatchResult)
      → matched_rules attributes rules ≡ []
      → NoneMatched results
      → NoneMatched (match_results attributes rules results)
  unfolding match_results matched_rules keep
  match_results-NoneMatched [] results e h = h
  match_results-NoneMatched (r ∷ rs) results e h = elim (Bool-cases (is_match attributes r)) [
    | inl hit ↦ absurd (ground arith)
    | inr miss ↦ match_results-NoneMatched rs _ (ground arith) (λ k. ground (
      arith,
      h k,
      lookup-insert r.rule_id k
          (record { matched = is_match attributes r; why_not = matches r.predicate attributes })
          results,
    ))
  ]

evaluate_all-Returns :
    (line : RuleVersion → Result Panic RuleEvaluation) (rules : List RuleVersion)
    → ((r : RuleVersion) → Returns (line r))
    → Returns (evaluate_all line rules)
unfolding evaluate_all
evaluate_all-Returns line [] h = ([], refl)
evaluate_all-Returns line (r ∷ rs) h =
    let (l, here) = h r in
    let (ls, there) = evaluate_all-Returns line rs h in (l ∷ ls, rw (here, there))

evaluate_rule-Returns :
    (results : Map MatchResult) (ranks : Map ℕ) (ranked : List RankedRule)
    (strategy : ResolutionStrategy) (undecided : Bool)
    → (ranked ≡ [] → NoneMatched results)
    → (r : RuleVersion) → Returns (evaluate_rule results ranks ranked strategy undecided r)
unfolding evaluate_rule
evaluate_rule-Returns results ranks [] strategy undecided h r =
    elim (Result-cases (evaluate_rule results ranks [] strategy undecided r)) [
      | inl (l, e) ↦ (l, e)
      | inr (p, e) ↦ absurd (ground (arith, h refl r.rule_id))
    ]
evaluate_rule-Returns results ranks (a ∷ rest) strategy undecided h r =
    elim (Result-cases (evaluate_rule results ranks (a ∷ rest) strategy undecided r)) [
      | inl (l, e) ↦ (l, e)
      | inr (p, e) ↦ absurd (ground arith)
    ]

ranked-nil : (rules : List RuleVersion) → sort_matched rules ≡ [] → rules ≡ []
ranked-nil [] h = refl
ranked-nil (r ∷ rs) h =
    let e =
      Perm.nil-eq (subst (λ l. Perm l (map rank_rule (r ∷ rs))) h (sort_matched-perm (r ∷ rs))) in
    cc e

answer-Returns :
    (outcome : Outcome) (strategy : ResolutionStrategy) (a : RankedRule) (rest : List RankedRule)
    → Returns (short_answer outcome (a ∷ rest) strategy)
unfolding short_answer
answer-Returns assigned strategy a rest = (_, refl)
answer-Returns shadowed strategy a rest = (_, refl)
answer-Returns no_match strategy a rest = (_, refl)
answer-Returns conflict_needs_decision strategy a rest = (_, refl)

short_answer-Returns :
    (strategy : ResolutionStrategy) (ranked : List RankedRule)
    → Returns (short_answer (select strategy ranked).outcome ranked strategy)
unfolding short_answer select
short_answer-Returns strategy [] = (_, refl)
short_answer-Returns strategy (a ∷ rest) = answer-Returns _ strategy a rest

-- The steps after validation return: no slice is indexed out of range.
pub resolve_rules-Returns :
    (category : CategoryConfig) (date : Text) (attributes : Map Value) (rules : List RuleVersion)
    → Returns (resolve_rules category date attributes rules)
unfolding resolve_rules build_evaluations lookup
resolve_rules-Returns category date attributes rules =
    let ranked = ranked_of attributes rules in
    let chosen = chosen_of category attributes rules in
    let (evaluated, e) = evaluate_all-Returns _ rules (
      evaluate_rule-Returns (match_results attributes rules []) (rank_by_rule 0 ranked []) ranked
        category.resolution_strategy chosen.undecided
        (λ none_ranked.
          match_results-NoneMatched attributes rules []
            (ranked-nil (matched_rules attributes rules) none_ranked) (λ k. refl))) in
    let (answer, a) = short_answer-Returns category.resolution_strategy ranked in
    (assemble category date attributes rules chosen evaluated answer, rw (e, a))

-- `Resolve` returns a result when the category is valid, the date parses, the derived attribute can
-- be computed and the rules of the category are valid.
pub resolve-Returns :
    (input : Input) (as_of : ℕ) (attributes : Map Value)
    → validate_category input.category ≡ ok tt
    → parse_as_of input.date ≡ ok as_of
    → derive_attributes input.facts.attributes as_of ≡ ok attributes
    → validate_all input.definitions (category_rules input.category.id input.rules) ≡ ok tt
    → Returns (resolve input)
resolve-Returns input as_of attributes valid dated derived validated =
    let rules = category_rules input.category.id input.rules in
    let (res, e) = resolve_rules-Returns input.category input.date attributes rules in
    (
      res,
      resolve-of_steps input as_of attributes valid dated derived validated ∙ ap (wrap panicked) e,
    )
