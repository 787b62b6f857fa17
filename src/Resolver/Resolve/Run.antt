-- ===== src/Resolver/Resolve/Run.antt =====
-- A resolution that returns, taken apart into its steps.
use wrap_policy_assignment_s.Base.{ℕ, ◌≡◌, refl, sym, List, [], Result, ok, err, ◌>>=◌, wrap}
use wrap_policy_assignment_s.Base.Map.{Map}
use wrap_policy_assignment_s.Base.Text.{Text}
use wrap_policy_assignment_s.Resolver.Value.{Value}
use wrap_policy_assignment_s.Resolver.Types.{CategoryConfig, RuleVersion}
use wrap_policy_assignment_s.Resolver.Facts.{derive_attributes}
use wrap_policy_assignment_s.Resolver.Conflicts.{RankedRule, sort_matched}
use wrap_policy_assignment_s.Resolver.Trace.{
  RuleEvaluation, ShortAnswer, build_evaluations, short_answer,
}
use wrap_policy_assignment_s.Resolver.Resolve.{
  Input, Resolution, bad_category, bad_facts, panicked, validate_category, resolve_on,
  resolve_attributes, parse_as_of, category_rules, validate_all, assemble, match_results,
  matched_rules, resolve_rules, resolve,
}
use wrap_policy_assignment_s.Resolver.Selection.{Selection, select}

pub >>=-eq-ok {κ ℓ} :
    {E : Type 0} {A : Type κ} {B : Type ℓ} {res : B} (step : Result E A) (next : A → Result E B)
    → step >>= next ≡ ok res
    → (mid : A) × (step ≡ ok mid) × (next mid ≡ ok res)
>>=-eq-ok (err e) next h = cc
>>=-eq-ok (ok mid) next h = (mid, refl, h)

pub wrap-eq-ok {ℓ} :
    {E F : Type 0} {A : Type ℓ} (f : E → F) (m : Result E A) {a : A} → wrap f m ≡ ok a → m ≡ ok a
wrap-eq-ok f (ok a) h = cc
wrap-eq-ok f (err e) h = cc

pub ok-injective {ℓ} :
    {E : Type 0} {A : Type ℓ} {a b : A} → ◌≡◌ {A = Result E A} (ok a) (ok b) → a ≡ b
ok-injective h = cc

-- The matched rules among `rules`, in their order.
abbrev pub ranked_of : Map Value → List RuleVersion → List RankedRule
ranked_of attributes rules = sort_matched (matched_rules attributes rules)

abbrev pub chosen_of : CategoryConfig → Map Value → List RuleVersion → Selection
chosen_of category attributes rules =
    select category.resolution_strategy (ranked_of attributes rules)

-- How a resolution comes about from the derived attributes and the category's rules.
pub record Comes (category : CategoryConfig) (date : Text) (attributes : Map Value)
    (rules : List RuleVersion) (res : Resolution) : Type 0 where
  pub evaluated : List RuleEvaluation
  pub answer : ShortAnswer
  pub evaluation :
      build_evaluations rules
        (match_results attributes rules [])
        (ranked_of attributes rules)
        category.resolution_strategy
        (chosen_of category attributes rules).undecided
      ≡ ok evaluated
  pub answering :
      short_answer
        (chosen_of category attributes rules).outcome
        (ranked_of attributes rules)
        category.resolution_strategy
      ≡ ok answer
  pub parts :
      res
      ≡ assemble category date attributes rules
          (chosen_of category attributes rules)
          evaluated
          answer

pub resolve_rules-Comes :
    (category : CategoryConfig) (date : Text) (attributes : Map Value) (rules : List RuleVersion)
    {res : Resolution}
    → resolve_rules category date attributes rules ≡ ok res
    → Comes category date attributes rules res
unfolding resolve_rules
resolve_rules-Comes category date attributes rules {res} h =
    let (evaluated, evaluation, h1) =
      >>=-eq-ok
        (build_evaluations rules (match_results attributes rules []) (ranked_of attributes rules)
          category.resolution_strategy (chosen_of category attributes rules).undecided)
        (λ evaluated.
          short_answer (chosen_of category attributes rules).outcome (ranked_of attributes rules)
            category.resolution_strategy
          >>= λ answer. ok (
              assemble category date attributes rules (chosen_of category attributes rules)
                evaluated answer))
        h in
    let (answer, answering, h2) =
      >>=-eq-ok
        (short_answer (chosen_of category attributes rules).outcome (ranked_of attributes rules)
          category.resolution_strategy)
        (λ answer. ok (
          assemble category date attributes rules (chosen_of category attributes rules) evaluated
            answer))
        h1 in
    record {
      evaluated = evaluated;
      answer = answer;
      evaluation = evaluation;
      answering = answering;
      parts = sym (ok-injective h2);
    }

-- The steps of a resolution that returned.
pub record Run (input : Input) (res : Resolution) : Type 0 where
  pub as_of : ℕ
  pub attributes : Map Value
  pub valid : validate_category input.category ≡ ok tt
  pub dated : parse_as_of input.date ≡ ok as_of
  pub derived : derive_attributes input.facts.attributes as_of ≡ ok attributes
  pub validated :
      validate_all input.definitions (category_rules input.category.id input.rules) ≡ ok tt
  pub comes :
      Comes input.category input.date attributes (category_rules input.category.id input.rules) res

pub resolve-Run : (input : Input) {res : Resolution} → resolve input ≡ ok res → Run input res
unfolding resolve resolve_on resolve_attributes
resolve-Run input h =
    let (_, valid, h1) =
      >>=-eq-ok (wrap bad_category (validate_category input.category))
        (λ _. parse_as_of input.date >>= resolve_on input) h in
    let (as_of, dated, h2) = >>=-eq-ok (parse_as_of input.date) (resolve_on input) h1 in
    let (attributes, derived, h3) =
      >>=-eq-ok (wrap bad_facts (derive_attributes input.facts.attributes as_of))
        (resolve_attributes input) h2 in
    let rules = category_rules input.category.id input.rules in
    let (_, validated, h4) =
      >>=-eq-ok (validate_all input.definitions rules)
        (λ _. wrap panicked (resolve_rules input.category input.date attributes rules)) h3 in
    record {
      as_of = as_of;
      attributes = attributes;
      valid = wrap-eq-ok bad_category (validate_category input.category) valid;
      dated = dated;
      derived = wrap-eq-ok bad_facts (derive_attributes input.facts.attributes as_of) derived;
      validated = validated;
      comes =
          resolve_rules-Comes input.category input.date attributes rules
            (wrap-eq-ok panicked (resolve_rules input.category input.date attributes rules) h4);
    }

-- The way back: a resolution with these steps returns.
pub resolve-of_steps :
    (input : Input) (as_of : ℕ) (attributes : Map Value)
    → validate_category input.category ≡ ok tt
    → parse_as_of input.date ≡ ok as_of
    → derive_attributes input.facts.attributes as_of ≡ ok attributes
    → validate_all input.definitions (category_rules input.category.id input.rules) ≡ ok tt
    → resolve input
      ≡ wrap panicked (
          resolve_rules input.category input.date attributes
            (category_rules input.category.id input.rules))
unfolding resolve resolve_on resolve_attributes
resolve-of_steps input as_of attributes valid dated derived validated =
    rw (valid, dated, derived, validated)
