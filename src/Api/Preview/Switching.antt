-- ===== src/Api/Preview/Switching.antt =====
-- What a preview under `priority_rank` reports.
use wrap_policy_assignment_s.Base.{
  ◌≡◌, sym, ◌∙◌, subst, inl, inr, not, some, List, [], ◌∷◌, ◌++◌, Perm, ok, guard, wrap, arith,
}
use wrap_policy_assignment_s.Base.Int.{ℤ}
use wrap_policy_assignment_s.Base.Text.{Text}
use wrap_policy_assignment_s.Resolver.Types.{RuleVersion}
use wrap_policy_assignment_s.Resolver.Resolve.Addition.{resolve-added}
use wrap_policy_assignment_s.Base.{Result-cases, ◌||◌}
use wrap_policy_assignment_s.Base.Text.{codes}
use wrap_policy_assignment_s.Resolver.Types.{CategoryConfig, priority_rank}
use wrap_policy_assignment_s.Resolver.Resolve.{resolve}
use wrap_policy_assignment_s.Resolver.Resolve.Ids.{HasDistinctIds}
use wrap_policy_assignment_s.Resolver.Resolve.Run.{>>=-eq-ok, wrap-eq-ok, ok-injective}
use wrap_policy_assignment_s.Repo.Facts.{facts_at}
use wrap_policy_assignment_s.Repo.Rules.{effective_rules}
use wrap_policy_assignment_s.Repo.Rules.Distinct.{effective_rules-HasDistinctIds}
use wrap_policy_assignment_s.Repo.Store.{Store, Codec, category, list_employee_ids}
use wrap_policy_assignment_s.Api.{
  missing, is_empty, or_default, repo_error, of_store, of_facts, of_rules, of_resolver,
}
use wrap_policy_assignment_s.Api.Rules.{check_rule_predicate}
use wrap_policy_assignment_s.Api.Preview.{
  PreviewRequest, preview_input, preview_employee, preview_employees, handle_preview, candidate,
  PreviewResponse,
}
use wrap_policy_assignment_s.Api.Preview.Exchanging.{
  IsExchange, policies-Exchanges, add_preview-IsExchange,
}

module _ (codec : Codec) (now : ℤ) (today : Text) (listing : List Text → List Text)
    (reorders : (l : List Text) → Perm (listing l) l) (s : Store) where
  preview_employee-IsExchange :
      (config : CategoryConfig) (date : Text) (rules : List RuleVersion) (new : RuleVersion)
      (employee : Text) (out out' : PreviewResponse)
      → config.resolution_strategy ≡ priority_rank
      → HasDistinctIds rules
      → preview_employee codec now today listing s config date rules new employee out ≡ ok out'
      → IsExchange new.policy_id out
      → IsExchange new.policy_id out'
  unfolding preview_employee
  preview_employee-IsExchange config date rules new employee out out' strategy distinct h before =
      let (facts, hf, h1) =
        >>=-eq-ok
          (wrap (λ e. repo_error (of_facts e))
            (facts_at codec.decode s.members employee date s.facts))
          _ h in
      let input = preview_input codec now today listing s config date facts rules in
      let (first, hb, h2) =
        >>=-eq-ok (wrap (λ e. repo_error (of_resolver e)) (resolve input)) _ h1 in
      let more = preview_input codec now today listing s config date facts (rules ++ new ∷ []) in
      let (second, ha, h3) =
        >>=-eq-ok (wrap (λ e. repo_error (of_resolver e)) (resolve more)) _ h2 in
      let (one, switched) =
        resolve-added input new first second distinct strategy
          (wrap-eq-ok (λ e. repo_error (of_resolver e)) (resolve input) hb)
          (wrap-eq-ok (λ e. repo_error (of_resolver e)) (resolve more) ha) in
      subst (IsExchange new.policy_id) (ok-injective h3) (
        add_preview-IsExchange listing reorders new.policy_id employee first second out
          (policies-Exchanges new first second one switched) before)

  preview_employees-IsExchange :
      (config : CategoryConfig) (date : Text) (rules : List RuleVersion) (new : RuleVersion)
      (employees : List Text) (out out' : PreviewResponse)
      → config.resolution_strategy ≡ priority_rank
      → HasDistinctIds rules
      → preview_employees codec now today listing s config date rules new employees out ≡ ok out'
      → IsExchange new.policy_id out
      → IsExchange new.policy_id out'
  unfolding preview_employees
  preview_employees-IsExchange config date rules new [] out out' strategy distinct h before =
      subst (IsExchange new.policy_id) (ok-injective h) before
  preview_employees-IsExchange config date rules new (e ∷ es) out out' strategy distinct h before =
      elim (Result-cases (preview_employee codec now today listing s config date rules new e out)) [
        | inr (x, r) ↦ absurd (ground arith)
        | inl (mid, r) ↦
            preview_employees-IsExchange config date rules new es mid out' strategy distinct
              (ground arith)
              (preview_employee-IsExchange config date rules new e out mid strategy distinct r
                before)
      ]

  -- In the response of POST /rules/preview on a category under `priority_rank` only the policy of the
  -- request is gained, and every employee who loses a policy loses another one and gains that one.
  pub handle_preview-IsExchange :
      (req : PreviewRequest) (config : CategoryConfig) (out : PreviewResponse)
      → category req.category_id s ≡ ok config
      → config.resolution_strategy ≡ priority_rank
      → handle_preview codec now today listing s (some req) ≡ ok out
      → IsExchange req.policy_id out
  unfolding handle_preview
  handle_preview-IsExchange req config out configured strategy h =
      let (u, e1, h1) =
        >>=-eq-ok
          (guard (not (is_empty req.category_id || is_empty req.policy_id))
            (missing (codes "category_id" ∷ codes "policy_id" ∷ [])))
          _ h in
      let (pred, e2, h2) =
        >>=-eq-ok (check_rule_predicate codec.predicate s.definitions req.predicate) _ h1 in
      let (config', e3, h3) =
        >>=-eq-ok (wrap (λ e. repo_error (of_store e)) (category req.category_id s)) _ h2 in
      let same : config ≡ config' = ok-injective (
        sym configured
        ∙ wrap-eq-ok (λ e. repo_error (of_store e)) (category req.category_id s) e3) in
      let date = or_default req.valid_from today in
      let read = effective_rules codec.predicate now req.category_id date s.rules in
      let (rules, e4, h4) = >>=-eq-ok (wrap (λ e. repo_error (of_rules e)) read) _ h3 in
      preview_employees-IsExchange config' date rules (candidate now req pred) (list_employee_ids s)
        (record { gained = []; lost = []; matches_now = 0 }) out
        (subst (λ c. c.resolution_strategy ≡ priority_rank) same strategy)
        (effective_rules-HasDistinctIds codec.predicate now req.category_id date s.rules rules
          (wrap-eq-ok (λ e. repo_error (of_rules e)) read e4))
        h4 (record { gains = tt; losses = tt })
