-- ===== src/Repo/Rules/Deleting.antt =====
-- What `DeleteRule` changes of the rules that hold on a date.
use mathlib.Core.List.Perm
use wrap_policy_assignment_s.Base.{
  ℕ, ◌≡◌, refl, sym, ◌∙◌, ap, subst, Bool, true, false, not, inl, inr, List, [], ◌∷◌, ◌++◌, keep,
  Perm, Bool-cases, arith,
}
use wrap_policy_assignment_s.Base.Keep.{keep-perm, keep-append}
use wrap_policy_assignment_s.Base.Text.{Text, text_eq, text_eq_iff}
use wrap_policy_assignment_s.Repo.Rules.{
  RuleRow, VersionRow, RuleTables, EffectiveRow, delete_rule, delete_rule_versions,
  delete_assignment_rule, effective_row, joins, join_rule, join_rules,
  get_effective_rule_versions_as_of,
}
use wrap_policy_assignment_s.Repo.Rules.Valid.{delete_rule-IsValid}
use wrap_policy_assignment_s.Repo.Rules.Joining.{IsValid}
use wrap_policy_assignment_s.Repo.Rules.Effective.{get_effective-perm}

module _ (gone : Text) where
  abbrev pub is_other : EffectiveRow → Bool
  is_other s = not (text_eq s.rule_id gone)

  join_rule-gone :
      (day : ℕ) (versions : List VersionRow) (r : RuleRow)
      → text_eq r.id gone ≡ true
      → keep is_other (join_rule day versions r) ≡ []
  unfolding keep join_rule
  join_rule-gone day [] r h = refl
  join_rule-gone day (v ∷ vs) r h = elim (Bool-cases (joins day r v)) [
    | inl t ↦ rw (t, h) (join_rule-gone day vs r h)
    | inr f ↦ rw f (join_rule-gone day vs r h)
  ]

  join_rule-stays :
      (day : ℕ) (versions : List VersionRow) (r : RuleRow)
      → text_eq r.id gone ≡ false
      → join_rule day (keep (λ (v : VersionRow). not (text_eq v.rule_id gone)) versions) r
        ≡ keep is_other (join_rule day versions r)
  unfolding keep join_rule
  join_rule-stays day [] r h = refl
  join_rule-stays day (v ∷ vs) r h = elim (Bool-cases (joins day r v)) [
    | inl t ↦
        let stays : text_eq v.rule_id gone ≡ false =
          ground (
            arith,
            text_eq_iff v.rule_id r.id,
            text_eq_iff v.rule_id gone,
            text_eq_iff r.id gone,
          ) in
        rw (stays, t, h) (ap (◌∷◌ (effective_row r v)) (join_rule-stays day vs r h))
    | inr f ↦ elim (Bool-cases (text_eq v.rule_id gone)) [
      | inl g ↦ rw (g, f) (join_rule-stays day vs r h)
      | inr g ↦ rw (g, f) (join_rule-stays day vs r h)
    ]
  ]

  join_rules-delete :
      (category : Text) (day : ℕ) (versions : List VersionRow) (rules : List RuleRow)
      → join_rules category day
          (keep (λ (v : VersionRow). not (text_eq v.rule_id gone)) versions)
          (keep (λ (r : RuleRow). not (text_eq r.id gone)) rules)
        ≡ keep is_other (join_rules category day versions rules)
  unfolding join_rules keep
  join_rules-delete category day versions [] = refl
  join_rules-delete category day versions (r ∷ rs) =
      let ih = join_rules-delete category day versions rs in
      let rest = join_rules category day versions rs in
      elim (Bool-cases (text_eq r.category_id category)) [
        | inl c ↦ elim (Bool-cases (text_eq r.id gone)) [
          | inl t ↦
              rw (t, c)
                (ih
                  ∙ sym (
                      keep-append is_other (join_rule day versions r) rest
                      ∙ ap (λ l. l ++ keep is_other rest) (join_rule-gone day versions r t)))
          | inr f ↦
              rw (f, c)
                (ap
                    (λ l.
                      l
                      ++ join_rules category day
                          (keep (λ (v : VersionRow). not (text_eq v.rule_id gone)) versions)
                          (keep (λ (x : RuleRow). not (text_eq x.id gone)) rs))
                    (join_rule-stays day versions r f)
                  ∙ ap (λ l. keep is_other (join_rule day versions r) ++ l) ih
                  ∙ sym (keep-append is_other (join_rule day versions r) rest))
        ]
        | inr c ↦ elim (Bool-cases (text_eq r.id gone)) [
          | inl t ↦ rw (t, c) ih
          | inr f ↦ rw (f, c) ih
        ]
      ]

  -- After a rule is deleted, the query of the rules of any category on any date returns the rows
  -- that it returned before without those of the rule; the order is left open. The tables are valid.
  pub get_effective-delete_rule :
      (t : RuleTables) (valid : IsValid t) (asked : Text) (day : ℕ)
      → Perm
          (get_effective_rule_versions_as_of asked day (delete_rule gone t))
          (keep is_other (get_effective_rule_versions_as_of asked day t))
  unfolding delete_rule delete_rule_versions delete_assignment_rule
  get_effective-delete_rule t valid asked day =
      Perm.trans
        (subst (λ l. Perm (get_effective_rule_versions_as_of asked day (delete_rule gone t)) l)
          (join_rules-delete asked day t.versions t.rules)
          (get_effective-perm asked day (delete_rule gone t) (delete_rule-IsValid gone t valid)))
        (keep-perm is_other (Perm.symm (get_effective-perm asked day t valid)))
