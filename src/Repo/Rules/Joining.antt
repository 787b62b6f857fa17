-- ===== src/Repo/Rules/Joining.antt =====
-- The tables of rules as `CreateRule` and `DeleteRule` leave them, and the join of the two.
use mathlib.Core.List.{Pairwise, mem-cons_self, mem-cons_of_mem, Pairwise-append}
use wrap_policy_assignment_s.Base.{
  ℕ, ◌≡◌, ◌≢◌, refl, sym, ◌∙◌, ap, subst, true, false, not, inl, inr, List, [], ◌∷◌, keep, Mem, All,
  All-append, All-mem, Bool-cases, arith,
}
use wrap_policy_assignment_s.Base.Keys.{HasDistinct, HasDistinct-cons, ≢_prop}
use wrap_policy_assignment_s.Base.Text.{Text, text_eq, text_eq_iff}
use wrap_policy_assignment_s.Repo.Rules.{
  RuleRow, VersionRow, RuleTables, EffectiveRow, has_rule, effective_row, joins, join_rule,
  join_rules, distinct_on_rule,
}

abbrev pub rule_key : RuleRow → Text
rule_key r = r.id

abbrev pub version_key : VersionRow → Text
version_key v = v.rule_id

abbrev pub row_key : EffectiveRow → Text
row_key s = s.rule_id

pub Text-set : IsSet Text
Text-set = hlevel

-- The keys of the rules, one version of each, and no version without its rule.
pub record IsValid (t : RuleTables) : Type 0 where
  pub ids : HasDistinct rule_key t.rules
  pub single : HasDistinct version_key t.versions
  pub owned : All (λ (v : VersionRow). has_rule v.rule_id t.rules ≡ true) t.versions

-- A rule has at most one version that holds on the day.
join_rule-none :
    (day : ℕ) (r : RuleRow) (versions : List VersionRow)
    → ((v : VersionRow) → Mem v versions → v.rule_id ≢ r.id)
    → join_rule day versions r ≡ []
unfolding join_rule keep
join_rule-none day r [] h = refl
join_rule-none day r (v ∷ vs) h = ground (
  arith,
  text_eq_iff v.rule_id r.id,
  h v mem-cons_self,
  join_rule-none day r vs (λ w m. h w (mem-cons_of_mem v m)),
)

join_rule-distinct :
    (day : ℕ) (r : RuleRow) (versions : List VersionRow)
    → HasDistinct version_key versions
    → HasDistinct row_key (join_rule day versions r)
unfolding join_rule keep
join_rule-distinct day r [] h = Pairwise.nil
join_rule-distinct day r (v ∷ vs) (Pairwise.cons first h) = elim (Bool-cases (joins day r v)) [
  | inl t ↦
      let none : join_rule day vs r ≡ [] =
        join_rule-none day r vs
          (λ w m e. first w m ((text_eq_iff v.rule_id r.id).0 (ground arith) ∙ sym e)) in
      rw t (
        subst (λ l. HasDistinct row_key (effective_row r v ∷ l)) (sym none)
          (HasDistinct-cons row_key (effective_row r v) [] tt Pairwise.nil))
  | inr f ↦ rw f (join_rule-distinct day r vs h)
]

-- The rows of a rule carry its id.
join_rule-All :
    (P : Text → Type 0) (day : ℕ) (r : RuleRow) (versions : List VersionRow)
    → P r.id
    → All (λ (s : EffectiveRow). P s.rule_id) (join_rule day versions r)
unfolding join_rule keep
join_rule-All P day r [] h = tt
join_rule-All P day r (v ∷ vs) h = elim (Bool-cases (joins day r v)) [
  | inl t ↦ rw t (h, join_rule-All P day r vs h)
  | inr f ↦ rw f (join_rule-All P day r vs h)
]

join_rules-All :
    (P : Text → Type 0) (category : Text) (day : ℕ) (versions : List VersionRow)
    (rules : List RuleRow)
    → ((r : RuleRow) → Mem r rules → P r.id)
    → All (λ (s : EffectiveRow). P s.rule_id) (join_rules category day versions rules)
unfolding join_rules
join_rules-All P category day versions [] h = tt
join_rules-All P category day versions (r ∷ rs) h =
    let rest = join_rules-All P category day versions rs (λ x m. h x (mem-cons_of_mem r m)) in
    elim (Bool-cases (text_eq r.category_id category)) [
      | inl t ↦ rw t (
          All-append (λ (s : EffectiveRow). P s.rule_id) (join_rule day versions r) _
            (join_rule-All P day r versions (h r mem-cons_self)) rest)
      | inr f ↦ rw f rest
    ]

-- The join has at most one row of each rule.
pub join_rules-distinct :
    (category : Text) (day : ℕ) (versions : List VersionRow) (rules : List RuleRow)
    → HasDistinct version_key versions
    → HasDistinct rule_key rules
    → HasDistinct row_key (join_rules category day versions rules)
unfolding join_rules
join_rules-distinct category day versions [] hv h = Pairwise.nil
join_rules-distinct category day versions (r ∷ rs) hv (Pairwise.cons first h) =
    let rest = join_rules-distinct category day versions rs hv h in
    elim (Bool-cases (text_eq r.category_id category)) [
      | inl t ↦ rw t (
          (Pairwise-append (λ a b. ≢_prop (row_key a) (row_key b))).1 (
            join_rule-distinct day r versions hv,
            rest,
            λ a ma b mb e.
                All-mem (λ (s : EffectiveRow). ≢_prop r.id s.rule_id)
                  (join_rules category day versions rs)
                  (join_rules-All (λ i. r.id ≢ i) category day versions rs first) mb
                  (All-mem (λ (s : EffectiveRow). Text-set r.id s.rule_id)
                      (join_rule day versions r) (join_rule-All (λ i. r.id ≡ i) day r versions refl)
                      ma
                    ∙ e),
          ))
      | inr f ↦ rw f rest
    ]

keep_others :
    (r : EffectiveRow) (rs : List EffectiveRow)
    → ((s : EffectiveRow) → Mem s rs → r.rule_id ≢ s.rule_id)
    → keep (λ (s : EffectiveRow). not (text_eq s.rule_id r.rule_id)) rs ≡ rs
unfolding keep
keep_others r [] h = refl
keep_others r (s ∷ rs) h =
    let apart : text_eq s.rule_id r.rule_id ≡ false =
      elim (Bool-cases (text_eq s.rule_id r.rule_id)) [
        | inl t ↦ absurd (h s mem-cons_self (sym ((text_eq_iff s.rule_id r.rule_id).0 t)))
        | inr f ↦ f
      ] in
    rw apart (ap (◌∷◌ s) (keep_others r rs (λ x m. h x (mem-cons_of_mem s m))))

-- Without two rows of a rule `DISTINCT ON` changes nothing.
pub distinct_on_rule-id :
    (rows : List EffectiveRow) → HasDistinct row_key rows → distinct_on_rule rows ≡ rows
unfolding distinct_on_rule
distinct_on_rule-id [] h = refl
distinct_on_rule-id (r ∷ rs) (Pairwise.cons first h) =
    rw (distinct_on_rule-id rs h) (ap (◌∷◌ r) (keep_others r rs first))
