-- ===== src/Resolver/Resolve/Lines.antt =====
-- The maps that the trace is built from, read back at the rules that filled them.
use mathlib.Core.Logic.Or
use mathlib.Core.List.{mem-cons, mem-cons_self, mem-cons_of_mem, not-mem-nil}
use wrap_policy_assignment_s.Base.{
  ℕ, suc, ◌+◌, ◌≡◌, refl, ◌∙◌, ap, subst, inl, inr, false, Option, some, List, [], ◌∷◌, Mem, All,
  get_elem?, Bool-cases, arith,
}
use wrap_policy_assignment_s.Base.Map.{Map, lookup, insert, lookup-insert, lookup-insert_self}
use wrap_policy_assignment_s.Base.Text.{Text, text_eq, text_eq_iff}
use wrap_policy_assignment_s.Resolver.Value.{Value}
use wrap_policy_assignment_s.Resolver.Ast.{matches}
use wrap_policy_assignment_s.Resolver.Types.{RuleVersion}
use wrap_policy_assignment_s.Resolver.Types.Sets.{Value-set}
use wrap_policy_assignment_s.Resolver.Conflicts.{RankedRule}
use wrap_policy_assignment_s.Resolver.Trace.{MatchResult, rank_by_rule}
use wrap_policy_assignment_s.Resolver.Resolve.{is_match, match_results}
use wrap_policy_assignment_s.Resolver.Resolve.Candidates.{IsKeyed}

MatchResult-set : IsSet (Option MatchResult)
MatchResult-set = hlevel Value-set

module _ (attributes : Map Value) where
  abbrev pub verdict : RuleVersion → MatchResult
  verdict r = record { matched = is_match attributes r; why_not = matches r.predicate attributes }

  -- What stands at a key stays, if the rules of that key agree with it.
  match_results_keeps :
      (rules : List RuleVersion) (results : Map MatchResult) (k : Text) (v : MatchResult)
      → ((x : RuleVersion) → Mem x rules → x.rule_id ≡ k → verdict x ≡ v)
      → lookup k results ≡ some v
      → lookup k (match_results attributes rules results) ≡ some v
  unfolding match_results
  match_results_keeps [] results k v agree h = h
  match_results_keeps (x ∷ xs) results k v agree h =
      match_results_keeps xs (insert x.rule_id (verdict x) results) k v
        (λ y m. agree y (mem-cons_of_mem x m))
        (elim (Bool-cases (text_eq x.rule_id k)) [
          | inl same ↦
              lookup-insert x.rule_id k (verdict x) results
              ∙ rw same (ap some (agree x mem-cons_self ((text_eq_iff x.rule_id k).0 same)))
          | inr differs ↦ lookup-insert x.rule_id k (verdict x) results ∙ rw differs h
        ])

  match_results_finds :
      (rules : List RuleVersion) (results : Map MatchResult) (r : RuleVersion)
      → ((x : RuleVersion) → Mem x rules → x.rule_id ≡ r.rule_id → verdict x ≡ verdict r)
      → Mem r rules
      → lookup r.rule_id (match_results attributes rules results) ≡ some (verdict r)
  unfolding match_results
  match_results_finds [] results r agree m = absurd (not-mem-nil m)
  match_results_finds (x ∷ xs) results r agree m =
      Or.elim (MatchResult-set _ _) (mem-cons.0 m)
        (λ e.
          match_results_keeps xs (insert x.rule_id (verdict x) results) r.rule_id (verdict r)
            (λ y my. agree y (mem-cons_of_mem x my))
            (subst
              (λ (z : RuleVersion).
                lookup r.rule_id (insert z.rule_id (verdict z) results) ≡ some (verdict r))
              e (lookup-insert_self r.rule_id (verdict r) results)))
        (λ later. match_results_finds xs _ r (λ y my. agree y (mem-cons_of_mem x my)) later)

  -- The match result of each rule is its own.
  pub lookup-match_results :
      (rules : List RuleVersion) (r : RuleVersion)
      → IsKeyed rules
      → Mem r rules
      → lookup r.rule_id (match_results attributes rules []) ≡ some (verdict r)
  lookup-match_results rules r keyed m =
      match_results_finds rules [] r (λ x mx e. ap verdict (keyed x r mx m e)) m

-- Where a key of the ranks comes from: it stood there before, or it is that of a rule whose
-- position is the rank less 1.
pub data Ranked (i : ℕ) (l : List RankedRule) (before : Option ℕ) (k : Text)
    : Option ℕ → Type 0 where
  old :
      All (λ (a : RankedRule). text_eq a.rule.rule_id k ≡ false) l
      → {o : Option ℕ} → o ≡ before
      → Ranked i l before k o
  new :
      (n : ℕ) (a : RankedRule)
      → get_elem? l n ≡ some a
      → a.rule.rule_id ≡ k
      → {o : Option ℕ} → o ≡ some (suc (i + n))
      → Ranked i l before k o

pub rank_by_rule-Ranked :
    (i : ℕ) (l : List RankedRule) (ranks : Map ℕ) (k : Text)
    → Ranked i l (lookup k ranks) k (lookup k (rank_by_rule i l ranks))
unfolding rank_by_rule
rank_by_rule-Ranked i [] ranks k = old tt refl
rank_by_rule-Ranked i (a ∷ l) ranks k =
    elim (rank_by_rule-Ranked (suc i) l (insert a.rule.rule_id (suc i) ranks) k) [
      | new n b at named e ↦ new (suc n) b at named (e ∙ ap some (omega arith))
      | old others e ↦ elim (Bool-cases (text_eq a.rule.rule_id k)) [
        | inl same ↦
            new 0 a refl ((text_eq_iff a.rule.rule_id k).0 same)
              (e ∙ lookup-insert a.rule.rule_id k (suc i) ranks ∙ rw same (ap some (omega arith)))
        | inr differs ↦
            old (differs, others)
              (e ∙ lookup-insert a.rule.rule_id k (suc i) ranks ∙ rw differs refl)
      ]
    ]
