-- ===== src/Resolver/Resolve/Additive.antt =====
-- What a category of strategy `additive` gets: the matched policies, each once.
use mathlib.Core.Logic.Or
use mathlib.Core.Bool.{Bool-set}
use mathlib.Core.Logic.{∥∥₁_map}
use mathlib.Core.List.{Pairwise, mem-cons, mem-cons_self, mem-cons_of_mem, not-mem-nil}
use wrap_policy_assignment_s.Base.{
  ◌≡◌, ◌≢◌, refl, sym, ◌∙◌, ap, subst, ◌⊎◌, inl, inr, true, false, ◌||◌, ◌++◌, List, [], ◌∷◌, map,
  Mem, ok, Bool-cases, arith,
}
use wrap_policy_assignment_s.Base.Map.{Map}
use wrap_policy_assignment_s.Base.Text.{Text, codes, text_eq_iff}
use wrap_policy_assignment_s.Resolver.Value.{Value}
use wrap_policy_assignment_s.Resolver.Ast.Validate.{mem_text}
use wrap_policy_assignment_s.Resolver.Types.{
  RuleVersion, additive, assigned, Assignment, CategoryConfig,
}
use wrap_policy_assignment_s.Resolver.Trace.{RuleEvaluation, ShortAnswer}
use wrap_policy_assignment_s.Resolver.Conflicts.{RankedRule, rank_rule}
use wrap_policy_assignment_s.Resolver.Resolve.{Input, Resolution, resolve}
use wrap_policy_assignment_s.Resolver.Selection.{to_assignment, policy_key, stack_policies, select}
use wrap_policy_assignment_s.Resolver.Resolve.Run.{resolve-Run}
use wrap_policy_assignment_s.Resolver.Resolve.Candidates.{
  IsCandidate, mem-candidates, mem-ranked_of_candidate, candidate_of_mem-ranked,
}
use wrap_policy_assignment_s.Resolver.Resolve.Outcomes.{HasNoMatch}
use wrap_policy_assignment_s.Resolver.Resolve.Ordered.{order, none_left}
use wrap_policy_assignment_s.Resolver.Resolve.Winner.{result, by_selection}

-- The key by which the additive case tells policies apart.
abbrev pub assignment_key : Assignment → Text
assignment_key a = a.policy_id ++ codes "/" ++ a.policy_version_id

-- Every candidate's policy is assigned, no key twice, and only candidates are assigned.
pub record Stacks (attributes : Map Value) (id : Text) (rules : List RuleVersion) (res : Resolution)
    : Type 0 where
  pub outcome : res.outcome ≡ assigned
  pub distinct : Pairwise (λ a b. assignment_key a ≢ assignment_key b) res.assignments
  pub covers :
      (r : RuleVersion)
      → IsCandidate attributes id rules r
      → mem_text (policy_key r) (map assignment_key res.assignments) ≡ true
  pub only :
      (a : Assignment)
      → Mem a res.assignments
      → ∥ ((r : RuleVersion) × IsCandidate attributes id rules r × (a ≡ to_assignment r)) ∥₁
  pub nothing : (res.shadowed ≡ []) × (res.options ≡ [])

stack_old :
    (seen : List Text) (x : RankedRule) (l : List RankedRule)
    → mem_text (policy_key x.rule) seen ≡ true
    → stack_policies seen (x ∷ l) ≡ stack_policies seen l
unfolding stack_policies
stack_old seen x l h = rw h

stack_new :
    (seen : List Text) (x : RankedRule) (l : List RankedRule)
    → mem_text (policy_key x.rule) seen ≡ false
    → stack_policies seen (x ∷ l)
      ≡ to_assignment x.rule ∷ stack_policies (policy_key x.rule ∷ seen) l
unfolding stack_policies
stack_new seen x l h = rw h

stack_fresh :
    (seen : List Text) (l : List RankedRule) (a : Assignment)
    → Mem a (stack_policies seen l)
    → mem_text (assignment_key a) seen ≡ false
unfolding stack_policies mem_text
stack_fresh seen [] a m = absurd (not-mem-nil m)
stack_fresh seen (x ∷ l) a m = elim (Bool-cases (mem_text (policy_key x.rule) seen)) [
  | inl old ↦ stack_fresh seen l a (subst (Mem a) (stack_old seen x l old) m)
  | inr new ↦
      Or.elim (Bool-set _ _) (mem-cons.0 (subst (Mem a) (stack_new seen x l new) m))
        (λ e. ap (λ b. mem_text (assignment_key b) seen) e ∙ new)
        (λ later. ground (arith, stack_fresh (policy_key x.rule ∷ seen) l a later))
]

stack_distinct :
    (seen : List Text) (l : List RankedRule)
    → Pairwise (λ a b. assignment_key a ≢ assignment_key b) (stack_policies seen l)
unfolding stack_policies mem_text
stack_distinct seen [] = Pairwise.nil
stack_distinct seen (x ∷ l) = elim (Bool-cases (mem_text (policy_key x.rule) seen)) [
  | inl old ↦ rw old (stack_distinct seen l)
  | inr new ↦ rw new (
      Pairwise.cons
        (λ a m e. ground (
          arith,
          stack_fresh (policy_key x.rule ∷ seen) l a m,
          text_eq_iff (policy_key x.rule) (assignment_key a),
        ))
        (stack_distinct (policy_key x.rule ∷ seen) l))
]

stack_covers :
    (seen : List Text) (l : List RankedRule) (b : RankedRule)
    → Mem b l
    → (mem_text (policy_key b.rule) seen
        || mem_text (policy_key b.rule) (map assignment_key (stack_policies seen l)))
      ≡ true
unfolding stack_policies mem_text
stack_covers seen [] b m = absurd (not-mem-nil m)
stack_covers seen (x ∷ l) b m = elim (Bool-cases (mem_text (policy_key x.rule) seen)) [
  | inl old ↦
      Or.elim (Bool-set _ _) (mem-cons.0 m) (λ e. ground arith)
        (λ later. ground (arith, stack_covers seen l b later))
  | inr new ↦
      Or.elim (Bool-set _ _) (mem-cons.0 m)
        (λ e. ground (arith, text_eq_iff (policy_key x.rule) (policy_key b.rule)))
        (λ later. ground (
          arith,
          stack_covers (policy_key x.rule ∷ seen) l b later,
          text_eq_iff (policy_key x.rule) (policy_key b.rule),
        ))
]

stack_only :
    (seen : List Text) (l : List RankedRule) (a : Assignment)
    → Mem a (stack_policies seen l)
    → ∥ ((b : RankedRule) × Mem b l × (a ≡ to_assignment b.rule)) ∥₁
unfolding stack_policies
stack_only seen [] a m = absurd (not-mem-nil m)
stack_only seen (x ∷ l) a m = elim (Bool-cases (mem_text (policy_key x.rule) seen)) [
  | inl old ↦
      ∥∥₁_map (stack_only seen l a (subst (Mem a) (stack_old seen x l old) m))
        (λ (b, mb, e). (b, mem-cons_of_mem x mb, e))
  | inr new ↦
      Or.elim squash₁ (mem-cons.0 (subst (Mem a) (stack_new seen x l new) m))
        (λ e. ∣ (x, mem-cons_self, e) ∣₁)
        (λ later.
          ∥∥₁_map (stack_only (policy_key x.rule ∷ seen) l a later)
            (λ (b, mb, e). (b, mem-cons_of_mem x mb, e)))
]

module _ (category : CategoryConfig) (date : Text) (attributes : Map Value)
    (rules : List RuleVersion) (evaluated : List RuleEvaluation) (answer : ShortAnswer) where
  additive_cases :
      (l : List RankedRule)
      → order attributes category.id rules ≡ l
      → HasNoMatch attributes category.id rules
          (result category date attributes rules evaluated answer additive l)
        ⊎ Stacks attributes category.id rules
            (result category date attributes rules evaluated answer additive l)
  unfolding select mem_text
  additive_cases [] e = inl (record {
    none_matches = none_left attributes category.id rules e;
    outcome = refl;
    nothing = (refl, refl, refl);
  })
  additive_cases (x ∷ l) e = inr (record {
    outcome = refl;
    distinct = stack_distinct [] (x ∷ l);
    covers = λ r c.
        stack_covers [] (x ∷ l) (rank_rule r)
          (subst (Mem (rank_rule r)) e (mem-ranked_of_candidate attributes category.id rules c));
    only = λ a m. ∥∥₁_map (stack_only [] (x ∷ l) a m) (λ (b, mb, same). (
      b.rule,
      (mem-candidates attributes category.id rules).0
          (candidate_of_mem-ranked attributes category.id rules (subst (Mem b) (sym e) mb)),
      same,
    ));
    nothing = (refl, refl);
  })

-- A resolution under `additive` assigns nothing when no rule of the category matches the facts.
-- Else it assigns to every matching rule's policy, by the key of policy and version, exactly one
-- assignment, and each assignment is that of a matching rule. Nothing is shadowed or left open.
pub resolve-additive :
    (input : Input) (res : Resolution)
    → resolve input ≡ ok res
    → input.category.resolution_strategy ≡ additive
    → HasNoMatch res.trace.facts_snapshot input.category.id input.rules res
      ⊎ Stacks res.trace.facts_snapshot input.category.id input.rules res
resolve-additive input res h strategy =
    let run = resolve-Run input h in
    by_selection
      (λ facts r.
        HasNoMatch facts input.category.id input.rules r
        ⊎ Stacks facts input.category.id input.rules r)
      input run strategy
      (additive_cases input.category input.date run.attributes input.rules run.comes.evaluated
        run.comes.answer _ refl)
