-- ===== src/Repo/Rules/Valid.antt =====
-- The tables of rules are valid, whatever rules are created and deleted.
use mathlib.Core.List.{Pairwise.nil}
use mathlib.Core.Bool.{true≢false}
use wrap_policy_assignment_s.Base.{
  ℕ, ◌≡◌, ◌≢◌, refl, sym, ◌∙◌, ap, subst, true, false, not, ◌||◌, inl, inr, List, [], ◌∷◌, ◌++◌,
  keep, All, All-append, Option, some, Option-cases, Bool-cases, Result-cases, ok, arith,
}
use wrap_policy_assignment_s.Base.Int.{ℤ}
use wrap_policy_assignment_s.Base.Keys.{HasDistinct-keep, append_one}
use wrap_policy_assignment_s.Base.Text.{Text, text_eq, text_eq_iff}
use wrap_policy_assignment_s.Resolver.Types.{Source}
use wrap_policy_assignment_s.Repo.Facts.{pg_date}
use wrap_policy_assignment_s.Repo.Rules.{
  RuleRow, VersionRow, RuleTables, has_rule, insert_assignment_rule, insert_rule_version, new_rule,
  first_version, create_rule, delete_rule, delete_rule_versions, delete_assignment_rule,
}
use wrap_policy_assignment_s.Repo.Rules.Joining.{IsValid, rule_key, version_key}

has_rule-apart :
    (id : Text) (rules : List RuleRow)
    → has_rule id rules ≡ false
    → All (λ (r : RuleRow). r.id ≢ id) rules
unfolding has_rule
has_rule-apart id [] h = tt
has_rule-apart id (r ∷ rs) h = (
  (λ e. true≢false (sym ((text_eq_iff r.id id).1 e) ∙ ground arith)),
  has_rule-apart id rs (ground arith),
)

has_rule-append :
    (id : Text) (rules : List RuleRow) (r : RuleRow)
    → has_rule id (rules ++ r ∷ []) ≡ (has_rule id rules || text_eq r.id id)
unfolding has_rule
has_rule-append id [] r = ground arith
has_rule-append id (x ∷ rules) r = ground (arith, has_rule-append id rules r)

has_rule-keep :
    (gone id : Text) (rules : List RuleRow)
    → text_eq id gone ≡ false
    → has_rule id (keep (λ (r : RuleRow). not (text_eq r.id gone)) rules) ≡ has_rule id rules
unfolding has_rule keep
has_rule-keep gone id [] h = refl
has_rule-keep gone id (r ∷ rules) h = ground (
  arith,
  has_rule-keep gone id rules h,
  text_eq_iff r.id gone,
  text_eq_iff r.id id,
  text_eq_iff id gone,
)

-- No version is of a rule that is not listed.
owned_apart :
    (id : Text) (rules : List RuleRow)
    → has_rule id rules ≡ false
    → (versions : List VersionRow)
    → All (λ (v : VersionRow). has_rule v.rule_id rules ≡ true) versions
    → All (λ (v : VersionRow). v.rule_id ≢ id) versions
owned_apart id rules fresh [] h = tt
owned_apart id rules fresh (v ∷ vs) h = (
  (λ e. true≢false (sym h.0 ∙ ap (λ i. has_rule i rules) e ∙ fresh)),
  owned_apart id rules fresh vs h.1,
)

owned-append :
    (rules : List RuleRow) (r : RuleRow) (versions : List VersionRow)
    → All (λ (v : VersionRow). has_rule v.rule_id rules ≡ true) versions
    → All (λ (v : VersionRow). has_rule v.rule_id (rules ++ r ∷ []) ≡ true) versions
owned-append rules r [] h = tt
owned-append rules r (v ∷ vs) h =
    (ground (arith, has_rule-append v.rule_id rules r), owned-append rules r vs h.1)

has_rule_self : (rules : List RuleRow) (r : RuleRow) → has_rule r.id (rules ++ r ∷ []) ≡ true
has_rule_self rules r = ground (arith, has_rule-append r.id rules r, text_eq_iff r.id r.id)

module _ (jsonb : Text → Option Text) (id company category policy predicate valid_from : Text)
    (source : Source) (priority specificity : ℤ) (t t' : RuleTables)
    (created : create_rule jsonb id company category policy source priority specificity predicate
        valid_from t
      ≡ ok t') where
  -- The tables after `CreateRule`, and that the rule is new.
  pub create_rule_inv :
      (start : ℕ) × (stored : Text) × (pg_date valid_from ≡ ok start)
      × (jsonb predicate ≡ some stored)
      × (has_rule id t.rules ≡ false)
      × (t' ≡ record t {
        rules = t.rules ++ new_rule t id company category policy source priority specificity ∷ [];
        versions = t.versions ++ first_version t id stored start ∷ [];
      })
  unfolding create_rule insert_assignment_rule insert_rule_version
  create_rule_inv = elim (Result-cases (pg_date valid_from)) [
    | inr (e, d) ↦ absurd (ground arith)
    | inl (start, d) ↦ elim (Option-cases (jsonb predicate)) [
      | inl j ↦ absurd (ground arith)
      | inr (stored, j) ↦ (start, stored, d, j, ground arith, ground arith)
    ]
  ]

  pub create_rule-IsValid : IsValid t → IsValid t'
  create_rule-IsValid valid =
      let (start, stored, d, j, fresh, e) = create_rule_inv in
      subst IsValid (sym e) (record {
        ids = append_one rule_key t.rules _ valid.ids (has_rule-apart id t.rules fresh);
        single =
            append_one version_key t.versions (first_version t id stored start) valid.single
              (owned_apart id t.rules fresh t.versions valid.owned);
        owned =
            All-append (λ (v : VersionRow). has_rule v.rule_id (t.rules ++ rule ∷ []) ≡ true)
              t.versions (first_version t id stored start ∷ [])
              (owned-append t.rules rule t.versions valid.owned) (has_rule_self t.rules rule, tt);
      })
    where
      rule : RuleRow
      rule = new_rule t id company category policy source priority specificity

module _ (gone : Text) where
  owned-delete :
      (rules : List RuleRow) (versions : List VersionRow)
      → All (λ (v : VersionRow). has_rule v.rule_id rules ≡ true) versions
      → All
          (λ (v : VersionRow).
            has_rule v.rule_id (keep (λ (r : RuleRow). not (text_eq r.id gone)) rules) ≡ true)
          (keep (λ (v : VersionRow). not (text_eq v.rule_id gone)) versions)
  unfolding keep
  owned-delete rules [] h = tt
  owned-delete rules (v ∷ vs) h = elim (Bool-cases (text_eq v.rule_id gone)) [
    | inl t ↦ rw t (owned-delete rules vs h.1)
    | inr f ↦ rw f (has_rule-keep gone v.rule_id rules f ∙ h.0, owned-delete rules vs h.1)
  ]

  pub delete_rule-IsValid : (t : RuleTables) → IsValid t → IsValid (delete_rule gone t)
  unfolding delete_rule delete_rule_versions delete_assignment_rule
  delete_rule-IsValid t valid = record {
    ids = HasDistinct-keep rule_key (λ (r : RuleRow). not (text_eq r.id gone)) valid.ids;
    single =
        HasDistinct-keep version_key (λ (v : VersionRow). not (text_eq v.rule_id gone))
          valid.single;
    owned = owned-delete t.rules t.versions valid.owned;
  }

-- A step of the tables: a rule is created or deleted, or time passes.
pub data Step : RuleTables → RuleTables → Type 0 where
  creates :
      (jsonb : Text → Option Text) (id company category policy predicate valid_from : Text)
      (source : Source) (priority specificity : ℤ) (t t' : RuleTables)
      → create_rule jsonb id company category policy source priority specificity predicate
          valid_from t
        ≡ ok t'
      → Step t t'
  deletes : (id : Text) (t : RuleTables) → Step t (delete_rule id t)
  passes : (now : ℤ) (t : RuleTables) → Step t (record t { now = now })

-- The tables that are reached from empty ones.
pub data IsReached : RuleTables → Type 0 where
  empty : (now : ℤ) → IsReached (record { rules = []; versions = []; now = now })
  next : {t t' : RuleTables} → IsReached t → Step t t' → IsReached t'

Step-IsValid : {t t' : RuleTables} → Step t t' → IsValid t → IsValid t'
Step-IsValid
      (creates jsonb id company category policy predicate valid_from source priority specificity t
        t' h)
      valid =
    create_rule-IsValid jsonb id company category policy predicate valid_from source priority
      specificity t t' h valid
Step-IsValid (deletes id t) valid = delete_rule-IsValid id t valid
Step-IsValid (passes now t) valid = record {
  ids = valid.ids;
  single = valid.single;
  owned = valid.owned;
}

-- Whatever rules are created and deleted, from empty tables: the ids of the rules are distinct, no
-- rule has two versions, and each version has its rule.
pub IsReached-IsValid : {t : RuleTables} → IsReached t → IsValid t
IsReached-IsValid (empty now) = record { ids = nil; single = nil; owned = tt }
IsReached-IsValid (next before step) = Step-IsValid step (IsReached-IsValid before)
