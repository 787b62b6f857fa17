-- ===== src/Resolver/Resolve/Removal.antt =====
-- Deleting the winning rule: the rule that was shadowed first takes its place.
use wrap_policy_assignment_s.Base.{
  ◌≡◌, refl, sym, ◌∙◌, ap, subst, List, [], ◌∷◌, map, ok, wrap, arith,
}
use wrap_policy_assignment_s.Base.Map.{Map}
use wrap_policy_assignment_s.Base.Text.{Text}
use wrap_policy_assignment_s.Resolver.Value.{Value}
use wrap_policy_assignment_s.Resolver.Types.{
  RuleVersion, ResolutionStrategy, priority_rank, Assignment, ShadowedMatch, CategoryConfig,
}
use wrap_policy_assignment_s.Resolver.Conflicts.{RankedRule}
use wrap_policy_assignment_s.Resolver.Resolve.{Input, Resolution, category_rules, panicked, resolve}
use wrap_policy_assignment_s.Resolver.Selection.{select, to_assignment, shadow}
use wrap_policy_assignment_s.Resolver.Resolve.Run.{
  resolve-Run, resolve-of_steps, resolve_rules-Comes,
}
use wrap_policy_assignment_s.Resolver.Resolve.Totality.{resolve_rules-Returns}
use wrap_policy_assignment_s.Resolver.Resolve.Ordered.{order}
use wrap_policy_assignment_s.Resolver.Resolve.Winner.{result}
use wrap_policy_assignment_s.Resolver.Trace.{RuleEvaluation, ShortAnswer}
use wrap_policy_assignment_s.Resolver.Resolve.Ids.{HasDistinctIds, HasDistinctIds-IsKeyed}
use wrap_policy_assignment_s.Resolver.Resolve.Deletion.{
  without, validate_all-without, order-without_head,
}

-- What the fields of a selection with shadowed rules say of the order.
record IsHeaded (l : List RankedRule) (a : Assignment) (s : ShadowedMatch)
    (rest : List ShadowedMatch) : Type 0 where
  head : RankedRule
  next : RankedRule
  tail : List RankedRule
  split : l ≡ head ∷ next ∷ tail
  winner : a.rule_id ≡ head.rule.rule_id
  loser : s.rule_id ≡ next.rule.rule_id
  losers : rest ≡ map (shadow head) tail

select-IsHeaded :
    (l : List RankedRule) {a : Assignment} {s : ShadowedMatch} {rest : List ShadowedMatch}
    → (select priority_rank l).assignments ≡ a ∷ []
    → (select priority_rank l).shadowed ≡ s ∷ rest
    → IsHeaded l a s rest
unfolding select
select-IsHeaded [] h k = absurd (ground arith)
select-IsHeaded (x ∷ []) h k = absurd (ground arith)
select-IsHeaded (x ∷ y ∷ l) h k = record {
  head = x;
  next = y;
  tail = l;
  split = refl;
  winner = ground arith;
  loser = ground arith;
  losers = ground arith;
}

abbrev pub shadowed_by : Text → ShadowedMatch → ShadowedMatch
shadowed_by id t = record { rule_id = t.rule_id; by_rule_id = id }

-- A resolution in which the shadowed match `s` has won, and shadows those that stood behind it.
pub record Resurrects (after : Resolution) (s : ShadowedMatch) (rest : List ShadowedMatch)
    : Type 0 where
  pub assignment : Assignment
  pub assigns : after.assignments ≡ assignment ∷ []
  pub promoted : assignment.rule_id ≡ s.rule_id
  pub shadows : after.shadowed ≡ map (shadowed_by s.rule_id) rest

shadows_again :
    (head next : RankedRule) (s : ShadowedMatch)
    → s.rule_id ≡ next.rule.rule_id
    → (l : List RankedRule)
    → map (shadow next) l ≡ map (shadowed_by s.rule_id) (map (shadow head) l)
shadows_again head next s e [] = refl
shadows_again head next s e (y ∷ l) = cc (shadows_again head next s e l)

module _ (category : CategoryConfig) (date : Text) (attributes : Map Value)
    (rules : List RuleVersion) (evaluated : List RuleEvaluation) (answer : ShortAnswer) where
  result-Resurrects :
      (head next : RankedRule) (tail : List RankedRule) (s : ShadowedMatch)
      → s.rule_id ≡ next.rule.rule_id
      → Resurrects
          (result category date attributes rules evaluated answer priority_rank (next ∷ tail))
          s
          (map (shadow head) tail)
  unfolding select
  result-Resurrects head next [] s e = record {
    assignment = to_assignment next.rule;
    assigns = refl;
    promoted = sym e;
    shadows = refl;
  }
  result-Resurrects head next (y ∷ tail) s e = record {
    assignment = to_assignment next.rule;
    assigns = refl;
    promoted = sym e;
    shadows = shadows_again head next s e (y ∷ tail);
  }

-- When the winning rule is deleted, the resolution returns again, and its one assignment is that of
-- the rule that was shadowed first; the other shadowed rules are shadowed by that one.
pub resolve-without_winner :
    (input : Input) (res : Resolution) (a : Assignment) (s : ShadowedMatch)
    (rest : List ShadowedMatch)
    → HasDistinctIds input.rules
    → input.category.resolution_strategy ≡ priority_rank
    → resolve input ≡ ok res
    → res.assignments ≡ a ∷ []
    → res.shadowed ≡ s ∷ rest
    → (after : Resolution) × (resolve (record input { rules = without a.rule_id input.rules })
        ≡ ok after)
      × Resurrects after s rest
resolve-without_winner input res a s rest distinct strategy h ha hs =
    let run = resolve-Run input h in
    let left = without a.rule_id input.rules in
    let left_rules = category_rules input.category.id left in
    let before = order run.attributes input.category.id input.rules in
    let headed : IsHeaded before a s rest =
      select-IsHeaded before
        (sym (
            ap (λ (r : Resolution). r.assignments) run.comes.parts
            ∙ ap (λ st. (select st before).assignments) strategy)
          ∙ ha)
        (sym (
            ap (λ (r : Resolution). r.shadowed) run.comes.parts
            ∙ ap (λ st. (select st before).shadowed) strategy)
          ∙ hs) in
    let (after, done) = resolve_rules-Returns input.category input.date run.attributes left_rules in
    let comes = resolve_rules-Comes input.category input.date run.attributes left_rules done in
    let behind : order run.attributes input.category.id left ≡ headed.next ∷ headed.tail =
      ap (λ id. order run.attributes input.category.id (without id input.rules)) headed.winner
      ∙ order-without_head run.attributes input.category.id input.rules headed.head
          (headed.next ∷ headed.tail) distinct headed.split in
    let outcome = λ (st : ResolutionStrategy) (l : List RankedRule).
      result input.category input.date run.attributes left comes.evaluated comes.answer st l in
    (
      after,
      resolve-of_steps (record input { rules = left }) run.as_of run.attributes run.valid run.dated
            run.derived
            (validate_all-without a.rule_id input.definitions input.category.id input.rules
              (HasDistinctIds-IsKeyed distinct) run.validated)
          ∙ ap (wrap panicked) done,
      subst (λ r. Resurrects r s rest) (sym comes.parts)
          (subst
            (λ st. Resurrects (outcome st (order run.attributes input.category.id left)) s rest)
            (sym strategy)
            (subst (λ l. Resurrects (outcome priority_rank l) s rest) (sym behind)
              (subst (Resurrects (outcome priority_rank (headed.next ∷ headed.tail)) s)
                (sym headed.losers)
                (result-Resurrects input.category input.date run.attributes left comes.evaluated
                  comes.answer headed.head headed.next headed.tail s headed.loser)))),
    )
