-- ===== src/Resolver/Resolve/Single.antt =====
-- A category of cardinality `single` assigns at most one policy.
use wrap_policy_assignment_s.Base.{
  ◌≡◌, refl, sym, ◌∙◌, ap, ◌⊎◌, inl, inr, [], ◌∷◌, ok, Bool-cases, arith,
}
use wrap_policy_assignment_s.Base.Text.{text_eq}
use wrap_policy_assignment_s.Resolver.Types.{
  single, ResolutionStrategy, priority_rank, explicit_user_choice, additive, other_strategy,
  no_match, conflict_needs_decision, CategoryConfig, Assignment,
}
use wrap_policy_assignment_s.Resolver.Selection.{to_assignment}
use wrap_policy_assignment_s.Resolver.Resolve.{
  Input, Resolution, check_strategy, validate_category, resolve,
}
use wrap_policy_assignment_s.Resolver.Resolve.Run.{resolve-Run}
use wrap_policy_assignment_s.Resolver.Resolve.Winner.{
  resolve-priority_rank, resolve-explicit_user_choice,
}

-- The strategies that a valid category of cardinality `single` may have.
check_strategy-single :
    (c : CategoryConfig) (strategy : ResolutionStrategy)
    → check_strategy c single strategy ≡ ok tt
    → (strategy ≡ priority_rank) ⊎ (strategy ≡ explicit_user_choice)
unfolding check_strategy
check_strategy-single c priority_rank h = inl refl
check_strategy-single c explicit_user_choice h = inr refl
check_strategy-single c additive h = cc
check_strategy-single c (other_strategy t) h = cc

validate_category-single :
    (c : CategoryConfig)
    → validate_category c ≡ ok tt
    → c.cardinality ≡ single
    → (c.resolution_strategy ≡ priority_rank) ⊎ (c.resolution_strategy ≡ explicit_user_choice)
unfolding validate_category
validate_category-single c h k =
    check_strategy-single c c.resolution_strategy (elim (Bool-cases (text_eq c.id [])) [
      | inl t ↦ absurd (ground arith)
      | inr t ↦ ap (λ x. check_strategy c x c.resolution_strategy) (sym k) ∙ ground arith
    ])

-- No assignment, for want of a match or of a decision.
abbrev pub AssignsNone : Resolution → Type 0
AssignsNone res =
    (res.assignments ≡ []) × ((res.outcome ≡ no_match) ⊎ (res.outcome ≡ conflict_needs_decision))

abbrev pub AssignsOne : Resolution → Type 0
AssignsOne res = (a : Assignment) × (res.assignments ≡ a ∷ [])

-- A resolution of a category of cardinality `single` assigns exactly one policy, or none: then no
-- rule matched, or a decision is needed.
pub resolve-single :
    (input : Input) (res : Resolution)
    → resolve input ≡ ok res
    → input.category.cardinality ≡ single
    → AssignsNone res ⊎ AssignsOne res
resolve-single input res h k =
    elim (validate_category-single input.category (resolve-Run input h).valid k) [
      | inl s ↦ elim (resolve-priority_rank input res h s) [
        | inl n ↦ inl (n.nothing.0, inl n.outcome)
        | inr w ↦ inr (to_assignment w.winner, w.assigns)
      ]
      | inr s ↦ elim (resolve-explicit_user_choice input res h s) [
        | inl n ↦ inl (n.nothing.0, inl n.outcome)
        | inr (inl (w, e)) ↦ inr (to_assignment w.winner, w.assigns)
        | inr (inr u) ↦ inl (u.nothing.0, inr u.outcome)
      ]
    ]
