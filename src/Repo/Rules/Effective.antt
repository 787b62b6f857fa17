-- ===== src/Repo/Rules/Effective.antt =====
-- What `CreateRule` changes of the rules that hold on a date.
use mathlib.Core.List.{append-nil, append_assoc, perm_append_comm}
use mathlib.Core.List.Perm
use mathlib.Core.Bool.{true≢false}
use mathlib.Core.Option.{some-injective}
use wrap_policy_assignment_s.Base.{
  ℕ, ◌≡◌, refl, sym, ◌∙◌, ap, subst, true, false, ◌&&◌, inl, inr, List, [], ◌∷◌, ◌++◌, keep, Perm,
  All, Option, some, Bool-cases, if◌then◌else◌, ok, arith,
}
use wrap_policy_assignment_s.Base.Int.{ℤ}
use wrap_policy_assignment_s.Base.Order.{is_lt}
use wrap_policy_assignment_s.Base.Keys.{HasDistinct-perm}
use wrap_policy_assignment_s.Base.Sort.{sort_by-perm}
use wrap_policy_assignment_s.Base.Text.{Text, text_eq, text_eq_iff}
use wrap_policy_assignment_s.Resolver.Types.{Source}
use wrap_policy_assignment_s.Repo.Facts.{pg_date}
use wrap_policy_assignment_s.Repo.Rules.{
  RuleRow, VersionRow, RuleTables, EffectiveRow, has_rule, new_rule, first_version, create_rule,
  effective_row, joins, version_covers, join_rule, join_rules, cmp_effective,
  get_effective_rule_versions_as_of,
}
use wrap_policy_assignment_s.Repo.Rules.Valid.{create_rule_inv, create_rule-IsValid}
use wrap_policy_assignment_s.Repo.Rules.Joining.{
  IsValid, row_key, join_rules-distinct, distinct_on_rule-id,
}

-- The query returns the rows of the join, in some order.
pub get_effective-perm :
    (category : Text) (day : ℕ) (t : RuleTables)
    → IsValid t
    → Perm
        (get_effective_rule_versions_as_of category day t)
        (join_rules category day t.versions t.rules)
unfolding get_effective_rule_versions_as_of
get_effective-perm category day t valid =
    let rows = join_rules category day t.versions t.rules in
    let sorted = sort_by-perm (λ a b. is_lt (cmp_effective a b)) rows in
    let distinct = join_rules-distinct category day t.versions t.rules valid.single valid.ids in
    subst (λ l. Perm l rows)
      (sym (distinct_on_rule-id _ (HasDistinct-perm row_key sorted distinct))) sorted

join_rule-other :
    (day : ℕ) (versions : List VersionRow) (v : VersionRow) (r : RuleRow)
    → text_eq v.rule_id r.id ≡ false
    → join_rule day (versions ++ v ∷ []) r ≡ join_rule day versions r
unfolding join_rule keep
join_rule-other day [] v r h = rw h refl
join_rule-other day (w ∷ ws) v r h = elim (Bool-cases (joins day r w)) [
  | inl t ↦ rw t (ap (◌∷◌ (effective_row r w)) (join_rule-other day ws v r h))
  | inr f ↦ rw f (join_rule-other day ws v r h)
]

-- The first version of a rule of which no version is listed.
join_rule-first :
    (day : ℕ) (versions : List VersionRow) (rules : List RuleRow) (v : VersionRow) (r : RuleRow)
    → All (λ (w : VersionRow). has_rule w.rule_id rules ≡ true) versions
    → has_rule r.id rules ≡ false
    → v.rule_id ≡ r.id
    → join_rule day (versions ++ v ∷ []) r
      ≡ (if version_covers day v then effective_row r v ∷ [] else [])
unfolding join_rule keep
join_rule-first day [] rules v r owned fresh e =
    rw ((text_eq_iff v.rule_id r.id).1 e)
      (elim (Bool-cases (version_covers day v)) [ inl t ↦ rw t refl | inr f ↦ rw f refl ])
join_rule-first day (w ∷ ws) rules v r owned fresh e =
    let apart : text_eq w.rule_id r.id ≡ false = elim (Bool-cases (text_eq w.rule_id r.id)) [
      | inl t ↦ absurd (
          true≢false
            (sym owned.0 ∙ ap (λ i. has_rule i rules) ((text_eq_iff w.rule_id r.id).0 t) ∙ fresh))
      | inr f ↦ f
    ] in
    rw apart (join_rule-first day ws rules v r owned.1 fresh e)

-- A version of a rule that is not listed joins with no rule.
join_rules-version :
    (category : Text) (day : ℕ) (versions : List VersionRow) (v : VersionRow) (rules : List RuleRow)
    → has_rule v.rule_id rules ≡ false
    → join_rules category day (versions ++ v ∷ []) rules ≡ join_rules category day versions rules
unfolding join_rules has_rule
join_rules-version category day versions v [] h = refl
join_rules-version category day versions v (r ∷ rs) h =
    let apart : text_eq v.rule_id r.id ≡ false =
      ground (arith, text_eq_iff v.rule_id r.id, text_eq_iff r.id v.rule_id) in
    rw (join_rule-other day versions v r apart) (
      ap (λ l. (if text_eq r.category_id category then join_rule day versions r else []) ++ l)
        (join_rules-version category day versions v rs (ground arith)))

join_rules-rule :
    (category : Text) (day : ℕ) (versions : List VersionRow) (rules : List RuleRow) (r : RuleRow)
    → join_rules category day versions (rules ++ r ∷ [])
      ≡ join_rules category day versions rules
        ++ (if text_eq r.category_id category then join_rule day versions r else [])
unfolding join_rules
join_rules-rule category day versions [] r = append-nil _
join_rules-rule category day versions (x ∷ rules) r =
    ap (λ l. (if text_eq x.category_id category then join_rule day versions x else []) ++ l)
      (join_rules-rule category day versions rules r)
    ∙ sym (
        append_assoc (if text_eq x.category_id category then join_rule day versions x else [])
          (join_rules category day versions rules)
          (if text_eq r.category_id category then join_rule day versions r else []))

-- The row of a new rule, for the queries that read it.
abbrev pub added_rows : Text → ℕ → RuleRow → VersionRow → List EffectiveRow
added_rows category day r v =
    if text_eq r.category_id category && version_covers day v then effective_row r v ∷ [] else []

join_rules-create :
    (category : Text) (day : ℕ) (t : RuleTables) (r : RuleRow) (v : VersionRow)
    → IsValid t
    → has_rule r.id t.rules ≡ false
    → v.rule_id ≡ r.id
    → join_rules category day (t.versions ++ v ∷ []) (t.rules ++ r ∷ [])
      ≡ join_rules category day t.versions t.rules ++ added_rows category day r v
join_rules-create category day t r v valid fresh e =
    let old : has_rule v.rule_id t.rules ≡ false = ap (λ i. has_rule i t.rules) e ∙ fresh in
    join_rules-rule category day (t.versions ++ v ∷ []) t.rules r
    ∙ ap
        (λ l.
          l
          ++ (if text_eq r.category_id category
              then join_rule day (t.versions ++ v ∷ []) r
              else []))
        (join_rules-version category day t.versions v t.rules old)
    ∙ ap (λ l. join_rules category day t.versions t.rules ++ l)
        (ap (λ l. if text_eq r.category_id category then l else [])
            (join_rule-first day t.versions t.rules v r valid.owned fresh e)
          ∙ ground arith)

same_start : (date : Text) (a b : ℕ) → pg_date date ≡ ok a → pg_date date ≡ ok b → a ≡ b
same_start date a b h k = cc

module _ (jsonb : Text → Option Text) (id company category policy predicate valid_from : Text)
    (source : Source) (priority specificity : ℤ) (t t' : RuleTables)
    (created : create_rule jsonb id company category policy source priority specificity predicate
        valid_from t
      ≡ ok t')
    (valid : IsValid t) where
  -- After a rule is created, the query of the rules of a category on a date returns what it returned
  -- before and, for the category of the rule and from its start on, the rule with its first version,
  -- whose predicate is the text that the database keeps of the given one; the order is left open.
  -- The tables are valid.
  pub get_effective-create_rule :
      (start : ℕ)
      → pg_date valid_from ≡ ok start
      → (stored : Text) → jsonb predicate ≡ some stored
      → (asked : Text) (day : ℕ)
      → Perm (get_effective_rule_versions_as_of asked day t') (
          added_rows asked day
            (new_rule t id company category policy source priority specificity)
            (first_version t id stored start)
          ++ get_effective_rule_versions_as_of asked day t)
  get_effective-create_rule start dated stored kept asked day =
      let (start', stored', d, j, fresh, e) =
        create_rule_inv jsonb id company category policy predicate valid_from source priority
          specificity t t' created in
      let same : start' ≡ start = same_start valid_from start' start d dated in
      let same_text : stored' ≡ stored = some-injective _ _ (sym j ∙ kept) in
      let rule = new_rule t id company category policy source priority specificity in
      let version = first_version t id stored start in
      let added = added_rows asked day rule version in
      let tables : RuleTables = record t {
        rules = t.rules ++ rule ∷ [];
        versions = t.versions ++ version ∷ [];
      } in
      let e' : t' ≡ tables =
        subst
          (λ n. t' ≡ record t {
            rules = t.rules ++ rule ∷ [];
            versions = t.versions ++ first_version t id stored n ∷ [];
          })
          same
          (subst
            (λ p. t' ≡ record t {
              rules = t.rules ++ rule ∷ [];
              versions = t.versions ++ first_version t id p start' ∷ [];
            })
            same_text e) in
      let after = get_effective-perm asked day t' (
        create_rule-IsValid jsonb id company category policy predicate valid_from source priority
          specificity t t' created valid) in
      Perm.trans
        (subst (λ l. Perm (get_effective_rule_versions_as_of asked day t') l)
          (ap (λ (u : RuleTables). join_rules asked day u.versions u.rules) e'
            ∙ join_rules-create asked day t rule version valid fresh refl)
          after)
        (Perm.trans (perm_append_comm (join_rules asked day t.versions t.rules) added)
          (Perm.append_left added (Perm.symm (get_effective-perm asked day t valid))))
