-- ===== src/Resolver/Resolve/Decided.antt =====
-- A decision assigns at least one policy.
use wrap_policy_assignment_s.Base.{◌≡◌, sym, ap, ◌∙◌, ◌≢◌, Bool, true, false, List, [], ◌∷◌, ok}
use wrap_policy_assignment_s.Resolver.Types.{
  ResolutionStrategy, priority_rank, explicit_user_choice, additive, other_strategy, Outcome,
  assigned, shadowed, no_match, conflict_needs_decision,
}
use wrap_policy_assignment_s.Resolver.Ast.Validate.{mem_text}
use wrap_policy_assignment_s.Resolver.Conflicts.{RankedRule}
use wrap_policy_assignment_s.Resolver.Selection.{select, stack_policies}
use wrap_policy_assignment_s.Resolver.Resolve.{Input, Resolution, resolve, category_rules}
use wrap_policy_assignment_s.Resolver.Resolve.Run.{resolve-Run, ranked_of}

abbrev pub is_decision : Outcome → Bool
is_decision assigned = true
is_decision shadowed = true
is_decision no_match = false
is_decision conflict_needs_decision = false

select-nonempty :
    (strategy : ResolutionStrategy) (ranked : List RankedRule)
    → is_decision (select strategy ranked).outcome ≡ true
    → (select strategy ranked).assignments ≢ []
unfolding select stack_policies mem_text
select-nonempty priority_rank [] h e = cc
select-nonempty explicit_user_choice [] h e = cc
select-nonempty additive [] h e = cc
select-nonempty (other_strategy t) [] h e = cc
select-nonempty additive (a ∷ rest) h e = cc
select-nonempty priority_rank (a ∷ []) h e = cc
select-nonempty priority_rank (a ∷ b ∷ rest) h e = cc
select-nonempty explicit_user_choice (a ∷ []) h e = cc
select-nonempty explicit_user_choice (a ∷ b ∷ rest) h e = cc
select-nonempty (other_strategy t) (a ∷ rest) h e = cc

pub resolve-nonempty :
    (input : Input) (res : Resolution)
    → resolve input ≡ ok res
    → is_decision res.outcome ≡ true
    → res.assignments ≢ []
resolve-nonempty input res h decided e =
    let run = resolve-Run input h in
    let parts = run.comes.parts in
    select-nonempty input.category.resolution_strategy
      (ranked_of run.attributes (category_rules input.category.id input.rules))
      (sym (ap (λ (r : Resolution). is_decision r.outcome) parts) ∙ decided)
      (sym (ap (λ (r : Resolution). r.assignments) parts) ∙ e)
