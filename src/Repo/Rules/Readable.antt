-- ===== src/Repo/Rules/Readable.antt =====
-- Rules whose predicates parse and are valid are read without an error.
use mathlib.Core.Bool.{Bool-set}
use mathlib.Core.List.Perm
use wrap_policy_assignment_s.Base.{
  ℕ, ◌≡◌, refl, inl, inr, Bool, true, false, not, Option, some, List, [], ◌∷◌, keep, Perm, All,
  All-mem, All-of_mem, All-append, Bool-cases, Result-cases, if◌then◌else◌, Result, ok, err, arith,
}
use wrap_policy_assignment_s.Base.Int.{ℤ}
use wrap_policy_assignment_s.Base.Map.{Map}
use wrap_policy_assignment_s.Base.Order.{is_lt}
use wrap_policy_assignment_s.Base.Sort.{sort_by, sort_by-perm}
use wrap_policy_assignment_s.Base.Text.{Text, text_eq, text_lt}
use wrap_policy_assignment_s.Resolver.Ast.{Predicate, parse_predicate}
use wrap_policy_assignment_s.Resolver.Ast.Validate.{AttributeDefinition, validate}
use wrap_policy_assignment_s.Resolver.Types.{RuleVersion}
use wrap_policy_assignment_s.Resolver.Resolve.{category_rules, validate_rules, validate_all}
use wrap_policy_assignment_s.Repo.Facts.{pg_date}
use wrap_policy_assignment_s.Repo.Rules.{
  RuleRow, VersionRow, RuleTables, EffectiveRow, joins, join_rule, join_rules, cmp_effective,
  distinct_on_rule, get_effective_rule_versions_as_of, to_rule_version, to_rule_versions,
  effective_rules,
}

All-keep {ℓ κ} :
    {A : Type ℓ} (P : A → Type κ) (p : A → Bool) (l : List A) → All P l → All P (keep p l)
unfolding keep
All-keep P p [] h = tt
All-keep P p (x ∷ l) h = elim (Bool-cases (p x)) [
  | inl t ↦ rw t (h.0, All-keep P p l h.1)
  | inr f ↦ rw f (All-keep P p l h.1)
]

-- What Boolean test all members of a list pass, they pass in any order.
All-perm {ℓ} :
    {A : Type ℓ} (p : A → Bool) {l r : List A}
    → Perm l r
    → All (λ a. p a ≡ true) r
    → All (λ a. p a ≡ true) l
All-perm p {l} {r} h all =
    All-of_mem (λ a. p a ≡ true) l
      (λ a m. All-mem (λ b. Bool-set (p b) true) r all (Perm.subset h a m))

abbrev is_ok {ℓ} : {E : Type 0} {A : Type ℓ} → Result E A → Bool
is_ok (ok a) = true
is_ok (err e) = false

module _ (unmarshal : Text → Option Predicate) (defs : Map AttributeDefinition) where
  abbrev is_valid : RuleVersion → Bool
  is_valid r = is_ok (validate r.predicate defs)

  -- The text is that of a predicate, which is valid.
  abbrev pub accepts : Text → Bool
  accepts text = elim (parse_predicate unmarshal text) [
    | err e ↦ false
    | ok p ↦ is_ok (validate p defs)
  ]

  -- All stored versions have such a text.
  abbrev pub AreUsable : List VersionRow → Type 0
  AreUsable = All (λ (v : VersionRow). accepts v.predicate ≡ true)

  abbrev AreRead : List EffectiveRow → Type 0
  AreRead = All (λ (r : EffectiveRow). accepts r.predicate ≡ true)

  join_rule-AreRead :
      (day : ℕ) (versions : List VersionRow) (r : RuleRow)
      → AreUsable versions
      → AreRead (join_rule day versions r)
  unfolding join_rule keep
  join_rule-AreRead day [] r h = tt
  join_rule-AreRead day (v ∷ vs) r h = elim (Bool-cases (joins day r v)) [
    | inl t ↦ rw t (h.0, join_rule-AreRead day vs r h.1)
    | inr f ↦ rw f (join_rule-AreRead day vs r h.1)
  ]

  join_rules-AreRead :
      (category : Text) (day : ℕ) (versions : List VersionRow) (rules : List RuleRow)
      → AreUsable versions
      → AreRead (join_rules category day versions rules)
  unfolding join_rules
  join_rules-AreRead category day versions [] h = tt
  join_rules-AreRead category day versions (r ∷ rs) h =
      All-append (λ (r : EffectiveRow). accepts r.predicate ≡ true)
        (if text_eq r.category_id category then join_rule day versions r else [])
        (join_rules category day versions rs)
        (elim (Bool-cases (text_eq r.category_id category)) [
          | inl t ↦ rw t (join_rule-AreRead day versions r h)
          | inr f ↦ rw f tt
        ])
        (join_rules-AreRead category day versions rs h)

  distinct_on_rule-AreRead :
      (rows : List EffectiveRow) → AreRead rows → AreRead (distinct_on_rule rows)
  unfolding distinct_on_rule
  distinct_on_rule-AreRead [] h = tt
  distinct_on_rule-AreRead (r ∷ rs) h = (
    h.0,
    All-keep (λ (r : EffectiveRow). accepts r.predicate ≡ true)
        (λ (s : EffectiveRow). not (text_eq s.rule_id r.rule_id)) (distinct_on_rule rs)
        (distinct_on_rule-AreRead rs h.1),
  )

  -- A predicate that is accepted is parsed, and valid.
  accepts_inv :
      (text : Text)
      → accepts text ≡ true
      → (p : Predicate) × (parse_predicate unmarshal text ≡ ok p) × (is_ok (validate p defs) ≡ true)
  accepts_inv text h = elim (Result-cases (parse_predicate unmarshal text)) [
    | inr (e, r) ↦ absurd (ground arith)
    | inl (p, r) ↦ (p, r, ground arith)
  ]

  to_rule_versions-valid :
      (now : ℤ) (rows : List EffectiveRow)
      → AreRead rows
      → (rules : List RuleVersion) × (to_rule_versions unmarshal now rows ≡ ok rules)
        × All (λ r. is_valid r ≡ true) rules
  unfolding to_rule_versions
  to_rule_versions-valid now [] h = ([], refl, tt)
  to_rule_versions-valid now (r ∷ rs) h =
      let (p, parsed, valid) = accepts_inv r.predicate h.0 in
      let (rules, rest, all) = to_rule_versions-valid now rs h.1 in
      (to_rule_version now r p ∷ rules, rw (parsed, rest) refl, (valid, all))

  validate_rules-ok :
      (rules : List RuleVersion)
      → All (λ r. is_valid r ≡ true) rules
      → validate_rules defs rules ≡ ok tt
  unfolding validate_rules
  validate_rules-ok [] h = refl
  validate_rules-ok (r ∷ rs) h = elim (Result-cases (validate r.predicate defs)) [
    | inr (e, q) ↦ absurd (ground arith)
    | inl (u, q) ↦ rw q (validate_rules-ok rs h.1)
  ]

  -- The rules of any category on any date are read, and the resolver accepts them.
  pub effective_rules-valid :
      (now : ℤ) (t : RuleTables)
      → AreUsable t.versions
      → (category date : Text) (day : ℕ) → pg_date date ≡ ok day
      → (rules : List RuleVersion) × (effective_rules unmarshal now category date t ≡ ok rules)
        × (validate_all (some defs) (category_rules category rules) ≡ ok tt)
  unfolding effective_rules get_effective_rule_versions_as_of validate_all category_rules
  effective_rules-valid now t usable category date day dated =
      let joined = join_rules category day t.versions t.rules in
      let sorted = sort_by (λ a b. is_lt (cmp_effective a b)) joined in
      let read = distinct_on_rule-AreRead sorted (
        All-perm (λ (r : EffectiveRow). accepts r.predicate)
          (sort_by-perm (λ a b. is_lt (cmp_effective a b)) joined)
          (join_rules-AreRead category day t.versions t.rules usable)) in
      let (rules, e, valid) = to_rule_versions-valid now (distinct_on_rule sorted) read in
      (
        rules,
        rw dated e,
        validate_rules-ok (category_rules category rules) (
            All-perm is_valid
              (sort_by-perm (λ a b. text_lt a.rule_id b.rule_id)
                (keep (λ r. text_eq r.category_id category) rules))
              (All-keep (λ r. is_valid r ≡ true) (λ r. text_eq r.category_id category) rules
                valid)),
      )
