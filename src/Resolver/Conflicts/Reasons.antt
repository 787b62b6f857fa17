-- ===== src/Resolver/Conflicts/Reasons.antt =====
-- `lossReason` names the dimension on which `Compare` decided.
use Prim.Native.Nat.{Ordering}
use wrap_policy_assignment_s.Base.{
  ◌≡◌, refl, sym, ◌∙◌, Bool, true, false, not, ◌&&◌, ◌<◌, ◌==◌, ==_iff, inl, inr, Bool-cases, arith,
}
use wrap_policy_assignment_s.Base.Int.{int_lt, int_eq, int_eq→eq}
use wrap_policy_assignment_s.Base.Text.{text_lt}
use wrap_policy_assignment_s.Resolver.Conflicts.Order.{
  by_dimensions, compare_rules-eq-by_dimensions,
}
use wrap_policy_assignment_s.Resolver.Types.{Source, is_manual, source_eq}
use wrap_policy_assignment_s.Resolver.Conflicts.{
  RankedRule, compare_rules, LossReason, manual_override, priority_tiebreak, specificity_tiebreak,
  recency_tiebreak, id_tiebreak, loss_reason,
}

abbrev SameOverride : RankedRule → RankedRule → Type 0
SameOverride l w = is_manual l.rule.source ≡ is_manual w.rule.source

-- What a reason says of the loser `l` and the winner `w`: the rules agree on all dimensions before
-- the one that it names, the winner is the better one there, and the printed values are theirs.
abbrev pub Explains : RankedRule → RankedRule → LossReason → Type 0
Explains l w (manual_override id) =
    (id ≡ w.rule.rule_id) × (is_manual l.rule.source ≡ false) × (is_manual w.rule.source ≡ true)
Explains l w (priority_tiebreak id lost won) =
    (id ≡ w.rule.rule_id)
    × SameOverride l w
    × (lost ≡ l.rule.priority)
    × (won ≡ w.rule.priority)
    × (int_lt lost won ≡ true)
Explains l w (specificity_tiebreak id lost won) =
    (id ≡ w.rule.rule_id)
    × SameOverride l w
    × (l.rule.priority ≡ w.rule.priority)
    × (lost ≡ l.specificity)
    × (won ≡ w.specificity)
    × (lost < won)
Explains l w (recency_tiebreak id) =
    (id ≡ w.rule.rule_id)
    × SameOverride l w
    × (l.rule.priority ≡ w.rule.priority)
    × (l.specificity ≡ w.specificity)
    × (int_lt w.rule.created_at l.rule.created_at ≡ true)
Explains l w (id_tiebreak id) =
    (id ≡ w.rule.rule_id)
    × SameOverride l w
    × (l.rule.priority ≡ w.rule.priority)
    × (l.specificity ≡ w.specificity)
    × (l.rule.created_at ≡ w.rule.created_at)
    × (text_lt w.rule.rule_id l.rule.rule_id ≡ true)

source_eq-manual : (s t : Source) → source_eq s t ≡ true → is_manual s ≡ is_manual t
source_eq-manual s t h = ground arith

both_manual : (s t : Source) → is_manual s ≡ true → is_manual t ≡ true → source_eq s t ≡ true
both_manual s t h k = ground arith

module _ (l w : RankedRule) (h : compare_rules w l ≡ Ordering.lt) where
  abbrev overridden : Bool
  overridden = not (source_eq l.rule.source w.rule.source) && is_manual w.rule.source

  ranks_before : by_dimensions w l ≡ Ordering.lt
  ranks_before = sym (compare_rules-eq-by_dimensions w l) ∙ h

  override_decides :
      overridden ≡ true → (is_manual l.rule.source ≡ false) × (is_manual w.rule.source ≡ true)
  override_decides t = ground (arith, both_manual l.rule.source w.rule.source)

  no_override : overridden ≡ false → SameOverride l w
  no_override t = ground (arith, source_eq-manual l.rule.source w.rule.source, ranks_before)

  priority_decides :
      SameOverride l w
      → int_eq l.rule.priority w.rule.priority ≡ false
      → int_lt l.rule.priority w.rule.priority ≡ true
  priority_decides o t = ground (arith, ranks_before)

  specificity_decides :
      SameOverride l w
      → l.rule.priority ≡ w.rule.priority
      → (l.specificity == w.specificity) ≡ false
      → l.specificity < w.specificity
  specificity_decides o p t = ground (arith, ranks_before)

  time_decides :
      SameOverride l w
      → l.rule.priority ≡ w.rule.priority
      → l.specificity ≡ w.specificity
      → int_eq l.rule.created_at w.rule.created_at ≡ false
      → int_lt w.rule.created_at l.rule.created_at ≡ true
  time_decides o p s t = ground (arith, ranks_before)

  id_decides :
      SameOverride l w
      → l.rule.priority ≡ w.rule.priority
      → l.specificity ≡ w.specificity
      → l.rule.created_at ≡ w.rule.created_at
      → text_lt w.rule.rule_id l.rule.rule_id ≡ true
  id_decides o p s t = ground (arith, ranks_before)

-- When `w` ranks before `l`, the reason given for the loss of `l` is the first dimension on which
-- the two differ, and the values that it prints are theirs.
pub loss_reason-Explains :
    (l w : RankedRule) → compare_rules w l ≡ Ordering.lt → Explains l w (loss_reason l w)
unfolding loss_reason
loss_reason-Explains l w h = elim (Bool-cases (overridden l w h)) [
  | inl t ↦ rw t (let (a, b) = override_decides l w h t in (refl, a, b))
  | inr t ↦
      let o = no_override l w h t in
      elim (Bool-cases (int_eq l.rule.priority w.rule.priority)) [
        | inr p ↦ rw (t, p) (refl, o, refl, refl, priority_decides l w h o p)
        | inl p ↦ elim (Bool-cases (l.specificity == w.specificity)) [
          | inr s ↦
              let same_p = int_eq→eq _ _ p in
              rw (t, p, s) (refl, o, same_p, refl, refl, specificity_decides l w h o same_p s)
          | inl s ↦
              let same_p = int_eq→eq _ _ p in
              let same_s = (==_iff _ _).0 s in
              elim (Bool-cases (int_eq l.rule.created_at w.rule.created_at)) [
                | inr c ↦
                    rw (t, p, s, c) (refl, o, same_p, same_s, time_decides l w h o same_p same_s c)
                | inl c ↦
                    let same_c = int_eq→eq _ _ c in
                    rw (t, p, s, c)
                      (refl, o, same_p, same_s, same_c, id_decides l w h o same_p same_s same_c)
              ]
        ]
      ]
]
