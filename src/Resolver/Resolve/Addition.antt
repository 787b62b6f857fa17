-- ===== src/Resolver/Resolve/Addition.antt =====
-- What one more rule changes of a resolution under `priority_rank`.
use Prim.Native.Nat.{Ordering}
use mathlib.Core.Logic.Or
use mathlib.Core.Bool.{true≢false}
use mathlib.Core.List.{Mem, mem-cons, not-mem-nil, mem-append, mem-append_left}
use wrap_policy_assignment_s.Base.{
  ◌≡◌, sym, ◌∙◌, ap, subst, ◌≢◌, ◌⊎◌, inl, inr, List, [], ◌∷◌, ◌++◌, ok, Bool-cases, false, arith,
}
use wrap_policy_assignment_s.Base.Map.{Map}
use wrap_policy_assignment_s.Base.Text.{Text, text_eq, text_eq_iff}
use wrap_policy_assignment_s.Resolver.Value.{Value}
use wrap_policy_assignment_s.Resolver.Types.{RuleVersion, Assignment, priority_rank}
use wrap_policy_assignment_s.Resolver.Facts.{derive_attributes}
use wrap_policy_assignment_s.Resolver.Conflicts.{RankedRule, rank_rule, compare_rules}
use wrap_policy_assignment_s.Resolver.Conflicts.Order.{compare_rules-IsOrder, compare_rules-eq}
use wrap_policy_assignment_s.Resolver.Selection.{to_assignment}
use wrap_policy_assignment_s.Resolver.Resolve.{Input, Resolution, resolve}
use wrap_policy_assignment_s.Resolver.Resolve.Run.{resolve-Run, ok-injective}
use wrap_policy_assignment_s.Resolver.Resolve.Candidates.{IsCandidate}
use wrap_policy_assignment_s.Resolver.Resolve.Ids.{HasDistinctIds, HasDistinctIds-IsKeyed}
use wrap_policy_assignment_s.Resolver.Resolve.Outcomes.{IsBest, Wins, HasNoMatch}
use wrap_policy_assignment_s.Resolver.Resolve.Winner.{resolve-priority_rank}

-- The facts that a resolution has derived do not depend on the rules.
facts_snapshot-same :
    (input : Input) (rules : List RuleVersion) (a b : Resolution)
    → resolve input ≡ ok a
    → resolve (record input { rules = rules }) ≡ ok b
    → b.trace.facts_snapshot ≡ a.trace.facts_snapshot
facts_snapshot-same input rules a b h k =
    let first = resolve-Run input h in
    let second = resolve-Run (record input { rules = rules }) k in
    let day : first.as_of ≡ second.as_of = ok-injective (sym first.dated ∙ second.dated) in
    let same : first.attributes ≡ second.attributes =
      ok-injective
        (sym first.derived ∙ ap (derive_attributes input.facts.attributes) day ∙ second.derived) in
    ap (λ (r : Resolution). r.trace.facts_snapshot) second.comes.parts
    ∙ sym same
    ∙ sym (ap (λ (r : Resolution). r.trace.facts_snapshot) first.comes.parts)

-- Of two rules neither of which ranks before the other, both have one id.
tie-id :
    (a b : RankedRule)
    → compare_rules a b ≢ Ordering.lt
    → compare_rules b a ≢ Ordering.lt
    → a.rule.rule_id ≡ b.rule.rule_id
tie-id a b h k = compare_rules-eq a b (ground (arith, h, k, compare_rules-IsOrder.flipped a b))

module _ (attributes : Map Value) (id : Text) (rules : List RuleVersion)
    (distinct : HasDistinctIds rules) (c : RuleVersion) where
  added :
      (r : RuleVersion)
      → IsCandidate attributes id rules r
      → IsCandidate attributes id (rules ++ c ∷ []) r
  added r (m, named, hit) = (mem-append_left (c ∷ []) m, named, hit)

  -- The best of the rules with one more, where it is not that one, is the best of the rules.
  best-added :
      (v w : RuleVersion)
      → IsBest attributes id rules v
      → IsBest attributes id (rules ++ c ∷ []) w
      → Mem w rules
      → w ≡ v
  best-added v w bv bw m =
      let (_, named, hit) = bw.candidate in
      HasDistinctIds-IsKeyed distinct w v m bv.candidate.0 (
        tie-id (rank_rule w) (rank_rule v) (bv.best w (m, named, hit))
          (bw.best v (added v bv.candidate)))

  -- A listed rule with another policy than that one.
  mem-others :
      (w : RuleVersion)
      → Mem w (rules ++ c ∷ [])
      → text_eq w.policy_id c.policy_id ≡ false
      → Mem w rules
  mem-others w m apart =
      Or.elim squash₁ (mem-append.0 m) (λ here. here)
        (λ last.
          Or.elim squash₁ (mem-cons.0 last)
            (λ e. absurd (
              true≢false (
                sym (
                  (text_eq_iff w.policy_id c.policy_id).1 (ap (λ (r : RuleVersion). r.policy_id) e))
                ∙ apart)))
            (λ n. absurd (not-mem-nil n)))

-- What a resolution assigns, at most one policy.
abbrev pub AssignsAtMostOne : Resolution → Type 0
AssignsAtMostOne res = (res.assignments ≡ []) ⊎ ((a : Assignment) × (res.assignments ≡ a ∷ []))

-- The policies that the resolution with one more rule can assign.
abbrev pub IsSwitched : RuleVersion → Resolution → Resolution → Type 0
IsSwitched c before after =
    (after.assignments ≡ before.assignments)
    ⊎ ((a : Assignment) × (after.assignments ≡ a ∷ []) × (a.policy_id ≡ c.policy_id))

at_most_one :
    {attributes : Map Value} {id : Text} {rules : List RuleVersion} (res : Resolution)
    → HasNoMatch attributes id rules res ⊎ Wins attributes id rules res
    → AssignsAtMostOne res
at_most_one res (inl n) = inl n.nothing.0
at_most_one res (inr w) = inr (to_assignment w.winner, w.assigns)

module _ (attributes : Map Value) (id : Text) (rules : List RuleVersion)
    (distinct : HasDistinctIds rules) (c : RuleVersion) (before after : Resolution) where
  -- A winner that is one of the rules won before.
  assignments_stay :
      HasNoMatch attributes id rules before ⊎ Wins attributes id rules before
      → (w : Wins attributes id (rules ++ c ∷ []) after) → Mem w.winner rules
      → after.assignments ≡ before.assignments
  assignments_stay (inl n) w m =
      let (_, named, hit) = w.is_best.candidate in absurd (n.none_matches w.winner (m, named, hit))
  assignments_stay (inr v) w m =
      w.assigns
      ∙ ap (λ r. to_assignment r ∷ [])
          (best-added attributes id rules distinct c v.winner w.winner v.is_best w.is_best m)
      ∙ sym v.assigns

  IsSwitched-cases :
      HasNoMatch attributes id rules before ⊎ Wins attributes id rules before
      → HasNoMatch attributes id (rules ++ c ∷ []) after
        ⊎ Wins attributes id (rules ++ c ∷ []) after
      → IsSwitched c before after
  IsSwitched-cases (inl n) (inl k) = inl (k.nothing.0 ∙ sym n.nothing.0)
  IsSwitched-cases (inr v) (inl k) =
      absurd (
        k.none_matches v.winner (added attributes id rules distinct c v.winner v.is_best.candidate))
  IsSwitched-cases before_is (inr w) = elim (Bool-cases (text_eq w.winner.policy_id c.policy_id)) [
    | inl t ↦
        inr (to_assignment w.winner, w.assigns, (text_eq_iff w.winner.policy_id c.policy_id).0 t)
    | inr f ↦ inl (
        assignments_stay before_is w
          (mem-others attributes id rules distinct c w.winner w.is_best.candidate.0 f))
  ]

-- One more rule under `priority_rank`: the same policy is assigned as before, at most one, or that
-- of the rule. The ids of the rules are distinct.
pub resolve-added :
    (input : Input) (c : RuleVersion) (before after : Resolution)
    → HasDistinctIds input.rules
    → input.category.resolution_strategy ≡ priority_rank
    → resolve input ≡ ok before
    → resolve (record input { rules = input.rules ++ c ∷ [] }) ≡ ok after
    → AssignsAtMostOne before × IsSwitched c before after
resolve-added input c before after distinct strategy h k =
    let rules = input.rules ++ c ∷ [] in
    let id = input.category.id in
    let before_is = resolve-priority_rank input before h strategy in
    (
      at_most_one before before_is,
      IsSwitched-cases before.trace.facts_snapshot id input.rules distinct c before after before_is
          (subst (λ f. HasNoMatch f id rules after ⊎ Wins f id rules after)
            (facts_snapshot-same input rules before after h k)
            (resolve-priority_rank (record input { rules = rules }) after k strategy)),
    )
