-- ===== src/Api/Preview.antt =====
-- internal/api/rules.go: `handlePreview`, which compares the resolutions of a category without and
-- with a candidate rule. A set is the list of its members; `listing` is the order in which Go ranges
-- over it.
pub mod Exchanging
pub mod Switching
use wrap_policy_assignment_s.Base.{
  ℕ, suc, Bool, true, false, not, ◌&&◌, ◌||◌, Option, some, List, [], ◌∷◌, ◌++◌, map, keep,
  if◌then◌else◌, Result, ok, err, ◌>>=◌, ◌>>◌, guard, wrap,
}
use wrap_policy_assignment_s.Base.Int.{ℤ}
use wrap_policy_assignment_s.Base.Text.{Text, codes}
use wrap_policy_assignment_s.Resolver.Ast.{Predicate}
use wrap_policy_assignment_s.Resolver.Ast.Validate.{mem_text}
use wrap_policy_assignment_s.Resolver.Types.{
  authored, RuleOutcome, winner, rule_shadowed, not_matched, needs_decision, CategoryConfig,
  RuleVersion, Assignment,
}
use wrap_policy_assignment_s.Resolver.Facts.{Facts}
use wrap_policy_assignment_s.Resolver.Trace.{RuleEvaluation}
use wrap_policy_assignment_s.Resolver.Resolve.{Input, Resolution, resolve}
use wrap_policy_assignment_s.Repo.Facts.{facts_at}
use wrap_policy_assignment_s.Repo.Rules.{effective_rules}
use wrap_policy_assignment_s.Repo.Store.{Store, Codec, category, list_employee_ids}
use wrap_policy_assignment_s.Api.{
  ApiError, missing, of_store, of_facts, of_rules, of_resolver, repo_error, decode_body, or_default,
  is_empty,
}
use wrap_policy_assignment_s.Api.Diff.{has_policy}
use wrap_policy_assignment_s.Api.Rules.{check_rule_predicate}

pub record PreviewRequest : Type 0 where
  pub category_id : Text
  pub policy_id : Text
  pub priority : ℤ
  pub predicate : Text
  pub valid_from : Text

pub record PreviewRow : Type 0 where
  pub employee_id : Text
  pub policy_id : Text
  pub via : Text
  pub reason : Text

pub record PreviewResponse : Type 0 where
  pub gained : List PreviewRow
  pub lost : List PreviewRow
  pub matches_now : ℕ

-- The loop of `policySet`, with the members so far.
unfoldable pub policy_set : List Text → List Assignment → List Text
policy_set set [] = set
policy_set set (a ∷ rest) =
    policy_set (if mem_text a.policy_id set then set else set ++ a.policy_id ∷ []) rest

abbrev is_winner : RuleOutcome → Bool
is_winner winner = true
is_winner rule_shadowed = false
is_winner not_matched = false
is_winner needs_decision = false

-- `winnerRuleID`
unfoldable pub winner_rule_id : Text → List Assignment → List RuleEvaluation → Text
winner_rule_id policy assignments [] = []
winner_rule_id policy assignments (e ∷ evaluated) =
    if is_winner e.outcome && has_policy policy assignments
    then e.rule_id
    else winner_rule_id policy assignments evaluated

abbrev pub candidate : ℤ → PreviewRequest → Predicate → RuleVersion
candidate now req pred = record {
  rule_id = codes "candidate";
  rule_version_id = codes "candidate:v1";
  category_id = req.category_id;
  policy_id = req.policy_id;
  policy_version_id = req.policy_id ++ codes ":v1";
  source = authored;
  priority = req.priority;
  created_at = now;
  predicate = pred;
}

-- The policies of the first list that the second has not, in the order of the range.
unfoldable pub missing_from : (List Text → List Text) → List Text → List Text → List Text
missing_from listing from set = keep (λ p. not (mem_text p set)) (listing from)

abbrev pub gained_row : Text → Resolution → Text → PreviewRow
gained_row employee after p = record {
  employee_id = employee;
  policy_id = p;
  via = winner_rule_id p after.assignments after.trace.evaluated;
  reason = [];
}

abbrev pub lost_row : Text → Text → PreviewRow
lost_row employee p = record {
  employee_id = employee;
  policy_id = p;
  via = [];
  reason = codes "lost to the candidate rule's tiebreak position";
}

-- What the body of the loop adds to the response.
unfoldable pub add_preview :
    (List Text → List Text)
    → Text
    → Text
    → Resolution
    → Resolution
    → PreviewResponse
    → PreviewResponse
add_preview listing policy employee before after out =
    let before_policies = policy_set [] before.assignments in
    let after_policies = policy_set [] after.assignments in
    record {
      gained =
          out.gained
          ++ map (gained_row employee after) (missing_from listing after_policies before_policies);
      lost =
          out.lost ++ map (lost_row employee) (missing_from listing before_policies after_policies);
      matches_now = if mem_text policy after_policies then suc out.matches_now else out.matches_now;
    }

module _ (codec : Codec) (now : ℤ) (today : Text) (listing : List Text → List Text)
    (s : Store) where
  -- The input of a resolution without or with the candidate.
  abbrev pub preview_input : CategoryConfig → Text → Facts → List RuleVersion → Input
  preview_input config date facts rules = record {
    category = config;
    date = date;
    facts = facts;
    rules = rules;
    definitions = some s.definitions;
  }

  -- The body of the loop over the employees.
  unfoldable pub preview_employee :
      CategoryConfig
      → Text
      → List RuleVersion
      → RuleVersion
      → Text
      → PreviewResponse
      → Result ApiError PreviewResponse
  preview_employee config date rules new employee out = do
    facts ←
        wrap (λ e. repo_error (of_facts e)) (facts_at codec.decode s.members employee date s.facts)
    before ←
        wrap (λ e. repo_error (of_resolver e)) (resolve (preview_input config date facts rules))
    after ←
        wrap (λ e. repo_error (of_resolver e))
          (resolve (preview_input config date facts (rules ++ new ∷ [])))
    ok (add_preview listing new.policy_id employee before after out)

  -- The loop over the employees.
  unfoldable pub preview_employees :
      CategoryConfig
      → Text
      → List RuleVersion
      → RuleVersion
      → List Text
      → PreviewResponse
      → Result ApiError PreviewResponse
  preview_employees config date rules new [] out = ok out
  preview_employees config date rules new (e ∷ es) out =
      elim (preview_employee config date rules new e out) [
        | err x ↦ err x
        | ok out' ↦ preview_employees config date rules new es out'
      ]

  -- `handlePreview`
  unfoldable pub handle_preview : Option PreviewRequest → Result ApiError PreviewResponse
  handle_preview body = do
    req ← decode_body body
    guard (not (is_empty req.category_id || is_empty req.policy_id))
        (missing (codes "category_id" ∷ codes "policy_id" ∷ []))
    pred ← check_rule_predicate codec.predicate s.definitions req.predicate
    config ← wrap (λ e. repo_error (of_store e)) (category req.category_id s)
    rules ←
        wrap (λ e. repo_error (of_rules e))
          (effective_rules codec.predicate now req.category_id (or_default req.valid_from today)
            s.rules)
    preview_employees config (or_default req.valid_from today) rules (candidate now req pred)
        (list_employee_ids s) (record { gained = []; lost = []; matches_now = 0 })
