-- ===== src/Resolver/Resolve/Winner.antt =====
-- What a category of strategy `priority_rank` or `explicit_user_choice` gets.
use mathlib.Core.List.{map-map}
use wrap_policy_assignment_s.Base.{◌≡◌, refl, sym, subst, ◌⊎◌, inl, inr, List, [], ◌∷◌, ok, arith}
use wrap_policy_assignment_s.Base.Map.{Map}
use wrap_policy_assignment_s.Base.Text.{Text}
use wrap_policy_assignment_s.Base.Sort.{IsSorted}
use wrap_policy_assignment_s.Resolver.Value.{Value}
use wrap_policy_assignment_s.Resolver.Types.{
  CategoryConfig, RuleVersion, ResolutionStrategy, priority_rank, explicit_user_choice,
  ShadowedMatch,
}
use wrap_policy_assignment_s.Resolver.Conflicts.{RankedRule, compare_rules}
use wrap_policy_assignment_s.Resolver.Resolve.{Input, Resolution, assemble, category_rules, resolve}
use wrap_policy_assignment_s.Resolver.Selection.{shadow, select}
use wrap_policy_assignment_s.Resolver.Trace.{RuleEvaluation, ShortAnswer}
use wrap_policy_assignment_s.Resolver.Resolve.Run.{Run, ranked_of, resolve-Run}
use wrap_policy_assignment_s.Resolver.Resolve.Outcomes.{Wins, HasNoMatch, IsUndecided}
use wrap_policy_assignment_s.Resolver.Resolve.Ordered.{
  order, order-IsSorted, order-perm, ids_of_order, head-IsBest, shadows-by, none_left,
  rank_options-AreRanked,
}

module _ (category : CategoryConfig) (date : Text) (attributes : Map Value)
    (rules : List RuleVersion) (evaluated : List RuleEvaluation) (answer : ShortAnswer) where
  abbrev pub result : ResolutionStrategy → List RankedRule → Resolution
  result strategy l =
      assemble category date attributes (category_rules category.id rules) (select strategy l)
        evaluated answer

  priority_cases :
      (l : List RankedRule)
      → order attributes category.id rules ≡ l
      → HasNoMatch attributes category.id rules (result priority_rank l)
        ⊎ Wins attributes category.id rules (result priority_rank l)
  unfolding select
  priority_cases [] e = inl (record {
    none_matches = none_left attributes category.id rules e;
    outcome = refl;
    nothing = (refl, refl, refl);
  })
  priority_cases (a ∷ []) e = inr (record {
    winner = a.rule;
    is_best = head-IsBest attributes category.id rules a [] e;
    outcome = refl;
    assigns = refl;
    losers = ids_of_order attributes category.id rules e;
    by_winner = tt;
    no_options = refl;
  })
  priority_cases (a ∷ b ∷ rest) e = inr (record {
    winner = a.rule;
    is_best = head-IsBest attributes category.id rules a (b ∷ rest) e;
    outcome = refl;
    assigns = refl;
    losers =
        rw (map-map (λ (s : ShadowedMatch). s.rule_id) (shadow a) rest)
          (ids_of_order attributes category.id rules e);
    by_winner = shadows-by attributes category.id rules a (b ∷ rest);
    no_options = refl;
  })

  decision_cases :
      (l : List RankedRule)
      → order attributes category.id rules ≡ l
      → HasNoMatch attributes category.id rules (result explicit_user_choice l)
        ⊎ Wins attributes category.id rules (result explicit_user_choice l)
          × ((result explicit_user_choice l).shadowed ≡ [])
        ⊎ IsUndecided attributes category.id rules (result explicit_user_choice l)
  unfolding select
  decision_cases [] e = inl (record {
    none_matches = none_left attributes category.id rules e;
    outcome = refl;
    nothing = (refl, refl, refl);
  })
  decision_cases (a ∷ []) e =
      let wins : Wins attributes category.id rules (result explicit_user_choice (a ∷ [])) = record {
        winner = a.rule;
        is_best = head-IsBest attributes category.id rules a [] e;
        outcome = refl;
        assigns = refl;
        losers = ids_of_order attributes category.id rules e;
        by_winner = tt;
        no_options = refl;
      } in
      inr (inl (wins, refl))
  decision_cases (a ∷ b ∷ rest) e = inr (
      inr (record {
        order = a ∷ b ∷ rest;
        sorted = subst (IsSorted compare_rules) e (order-IsSorted attributes category.id rules);
        complete = order-perm attributes category.id rules e;
        several = omega arith;
        outcome = refl;
        options = rank_options-AreRanked attributes category.id rules 0 (a ∷ b ∷ rest);
        nothing = (refl, refl);
      }))

-- A property of what `select` chooses is one of the result.
pub by_selection :
    (P : Map Value → Resolution → Type 0) (input : Input) {res : Resolution} (run : Run input res)
    {strategy : ResolutionStrategy}
    → input.category.resolution_strategy ≡ strategy
    → P run.attributes (
        result input.category input.date run.attributes input.rules run.comes.evaluated
          run.comes.answer strategy
          (ranked_of run.attributes (category_rules input.category.id input.rules)))
    → P res.trace.facts_snapshot res
by_selection P input {res} run e p =
    subst (λ r. P r.trace.facts_snapshot r) (sym run.comes.parts)
      (subst
        (λ s. P run.attributes (
          result input.category input.date run.attributes input.rules run.comes.evaluated
            run.comes.answer s
            (ranked_of run.attributes (category_rules input.category.id input.rules))))
        (sym e) p)

-- A resolution under `priority_rank` either finds no rule of the category that matches the facts
-- and assigns nothing, or assigns exactly one policy: that of a matching rule before which no
-- matching rule ranks. All other matching rules are then shadowed by it, each once.
pub resolve-priority_rank :
    (input : Input) (res : Resolution)
    → resolve input ≡ ok res
    → input.category.resolution_strategy ≡ priority_rank
    → HasNoMatch res.trace.facts_snapshot input.category.id input.rules res
      ⊎ Wins res.trace.facts_snapshot input.category.id input.rules res
resolve-priority_rank input res h strategy =
    let run = resolve-Run input h in
    by_selection
      (λ facts r.
        HasNoMatch facts input.category.id input.rules r
        ⊎ Wins facts input.category.id input.rules r)
      input run strategy
      (priority_cases input.category input.date run.attributes input.rules run.comes.evaluated
        run.comes.answer _ refl)

-- A resolution under `explicit_user_choice` assigns nothing when no rule matches, assigns the policy
-- of the rule when one matches, and leaves the choice open when more match: the options are then
-- all matching rules, sorted by `Compare` and ranked from 1 on.
pub resolve-explicit_user_choice :
    (input : Input) (res : Resolution)
    → resolve input ≡ ok res
    → input.category.resolution_strategy ≡ explicit_user_choice
    → HasNoMatch res.trace.facts_snapshot input.category.id input.rules res
      ⊎ Wins res.trace.facts_snapshot input.category.id input.rules res × (res.shadowed ≡ [])
      ⊎ IsUndecided res.trace.facts_snapshot input.category.id input.rules res
resolve-explicit_user_choice input res h strategy =
    let run = resolve-Run input h in
    by_selection
      (λ facts r.
        HasNoMatch facts input.category.id input.rules r
        ⊎ Wins facts input.category.id input.rules r × (r.shadowed ≡ [])
        ⊎ IsUndecided facts input.category.id input.rules r)
      input run strategy
      (decision_cases input.category input.date run.attributes input.rules run.comes.evaluated
        run.comes.answer _ refl)
