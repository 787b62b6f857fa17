-- ===== src/Api/Readiness/Views.antt =====
-- What a checklist has of one category.
use wrap_policy_assignment_s.Base.{
  ◌≡◌, refl, ap, ◌≢◌, inl, inr, Bool, true, false, not, List, [], ◌∷◌, map, keep, Bool-cases,
}
use mathlib.Core.List.{append-nil}
use wrap_policy_assignment_s.Base.Keep.{keep-append}
use wrap_policy_assignment_s.Base.Text.{Text, text_eq, text_eq_iff}
use wrap_policy_assignment_s.Resolver.Ast.Validate.{mem_text}
use wrap_policy_assignment_s.Resolver.Types.{
  Outcome, assigned, shadowed, no_match, conflict_needs_decision, Assignment,
}
use wrap_policy_assignment_s.Resolver.Resolve.{Resolution}
use wrap_policy_assignment_s.Api.Readiness.{
  PolicyAssignment, DecisionNeeded, Checklist, to_policy_assignment, apply, add_outcome,
}

abbrev pub is_applied : Text → PolicyAssignment → Bool
is_applied id a = text_eq a.category_id id

abbrev pub is_needed : Text → DecisionNeeded → Bool
is_needed id d = text_eq d.category_id id

-- What a checklist has of a category.
abbrev pub View : Type 0
View = List PolicyAssignment × List DecisionNeeded × Bool

abbrev pub view : Text → Checklist → View
view id out = (
  keep (is_applied id) out.auto_applied,
  keep (is_needed id) out.needs_decision,
  mem_text id out.resolved,
)

abbrev pub applied : Text → Outcome → Resolution → List PolicyAssignment
applied id assigned res = map (to_policy_assignment id) res.assignments
applied id shadowed res = map (to_policy_assignment id) res.assignments
applied id no_match res = []
applied id conflict_needs_decision res = []

abbrev pub needed : Text → Outcome → Resolution → List DecisionNeeded
needed id conflict_needs_decision res = record { category_id = id; options = res.options } ∷ []
needed id _ res = []

abbrev pub is_open : Outcome → Bool
is_open no_match = true
is_open _ = false

pub text_eq-apart : (a b : Text) → a ≢ b → text_eq a b ≡ false
text_eq-apart a b h = elim (Bool-cases (text_eq a b)) [
  | inl t ↦ absurd (h ((text_eq_iff a b).0 t))
  | inr f ↦ f
]

keep-applied_own :
    (id : Text) (l : List Assignment)
    → keep (is_applied id) (map (to_policy_assignment id) l) ≡ map (to_policy_assignment id) l
unfolding keep
keep-applied_own id [] = refl
keep-applied_own id (a ∷ l) =
    rw ((text_eq_iff id id).1 refl) (ap (◌∷◌ (to_policy_assignment id a)) (keep-applied_own id l))

keep-applied_other :
    (id j : Text) (l : List Assignment)
    → text_eq j id ≡ false
    → keep (is_applied id) (map (to_policy_assignment j) l) ≡ []
unfolding keep
keep-applied_other id j [] h = refl
keep-applied_other id j (a ∷ l) h = rw h (keep-applied_other id j l h)

-- What a category adds to the view of another one, and to its own.
apply-other :
    (id j : Text) (l : List Assignment) (out : Checklist)
    → text_eq j id ≡ false
    → view id (apply j l out) ≡ view id out
unfolding mem_text
apply-other id j l out h =
    rw
      (
        keep-append (is_applied id) out.auto_applied (map (to_policy_assignment j) l),
        keep-applied_other id j l h,
        h,
        append-nil (keep (is_applied id) out.auto_applied),
      )
      refl

apply-own :
    (id : Text) (l : List Assignment) (out : Checklist)
    → view id out ≡ ([], [], false)
    → view id (apply id l out) ≡ (map (to_policy_assignment id) l, [], true)
unfolding mem_text
apply-own id l out h =
    rw
      (
        keep-append (is_applied id) out.auto_applied (map (to_policy_assignment id) l),
        keep-applied_own id l,
        (text_eq_iff id id).1 refl,
        ap (λ (v : View). v.0) h,
        ap (λ (v : View). v.1) h,
      )
      refl

pub add_outcome-other :
    (id j : Text) (o : Outcome) (res : Resolution) (out : Checklist)
    → text_eq j id ≡ false
    → view id (add_outcome j o res out) ≡ view id out
unfolding keep mem_text
add_outcome-other id j assigned res out h = apply-other id j res.assignments out h
add_outcome-other id j shadowed res out h = apply-other id j res.assignments out h
add_outcome-other id j conflict_needs_decision res out h =
    rw
      (
        keep-append (is_needed id) out.needs_decision
            (record { category_id = j; options = res.options } ∷ []),
        h,
        append-nil (keep (is_needed id) out.needs_decision),
      )
      refl
add_outcome-other id j no_match res out h = refl

pub add_outcome-own :
    (id : Text) (o : Outcome) (res : Resolution) (out : Checklist)
    → view id out ≡ ([], [], false)
    → view id (add_outcome id o res out) ≡ (applied id o res, needed id o res, not (is_open o))
unfolding keep mem_text
add_outcome-own id assigned res out h = apply-own id res.assignments out h
add_outcome-own id shadowed res out h = apply-own id res.assignments out h
add_outcome-own id conflict_needs_decision res out h =
    rw
      (
        keep-append (is_needed id) out.needs_decision
            (record { category_id = id; options = res.options } ∷ []),
        (text_eq_iff id id).1 refl,
        ap (λ (v : View). v.0) h,
        ap (λ (v : View). v.1) h,
      )
      refl
add_outcome-own id no_match res out h = h
