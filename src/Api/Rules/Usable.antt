-- ===== src/Api/Rules/Usable.antt =====
-- A rule that is accepted over HTTP can be read and used.
use wrap_policy_assignment_s.Base.{
  ℕ, ◌≡◌, refl, sym, ◌∙◌, ap, subst, inl, inr, true, Option, none, some, List, [], ◌∷◌, All-append,
  Result-cases, ok, not, ◌||◌, guard, wrap,
}
use wrap_policy_assignment_s.Base.Int.{ℤ, pos}
use wrap_policy_assignment_s.Base.Map.{Map}
use wrap_policy_assignment_s.Base.Text.{Text, codes}
use wrap_policy_assignment_s.Resolver.Ast.{Predicate, parse_predicate}
use wrap_policy_assignment_s.Resolver.Ast.Validate.{AttributeDefinition, validate}
use wrap_policy_assignment_s.Resolver.Types.{Source, RuleVersion}
use wrap_policy_assignment_s.Resolver.Conflicts.{specificity}
use wrap_policy_assignment_s.Resolver.Resolve.{category_rules, validate_all}
use wrap_policy_assignment_s.Resolver.Resolve.Run.{>>=-eq-ok, wrap-eq-ok, ok-injective}
use wrap_policy_assignment_s.Repo.Facts.{pg_date}
use wrap_policy_assignment_s.Repo.Rules.{
  RuleTables, VersionRow, create_rule, effective_rules, first_version,
}
use wrap_policy_assignment_s.Repo.Rules.Valid.{create_rule_inv}
use wrap_policy_assignment_s.Repo.Rules.Readable.{accepts, AreUsable, effective_rules-valid}
use wrap_policy_assignment_s.Repo.Store.{Store, Codec}
use wrap_policy_assignment_s.Api.{
  is_empty, missing, decode_body, or_default, check_day, unparsable_predicate, refused_predicate,
}
use wrap_policy_assignment_s.Api.Rules.{
  CreateRuleRequest, check_rule_predicate, check_source, check_rule, save_rule, handle_create_rule,
}

check_rule_predicate-accepts :
    (unmarshal : Text → Option Predicate) (defs : Map AttributeDefinition) (text : Text)
    (p : Predicate)
    → check_rule_predicate unmarshal defs text ≡ ok p
    → accepts unmarshal defs text ≡ true
check_rule_predicate-accepts unmarshal defs text p h =
    let (q, parsed, h1) =
      >>=-eq-ok (wrap unparsable_predicate (parse_predicate unmarshal text)) _ h in
    let (u, valid, h2) = >>=-eq-ok (wrap refused_predicate (validate q defs)) _ h1 in
    rw
      (
        wrap-eq-ok unparsable_predicate (parse_predicate unmarshal text) parsed,
        wrap-eq-ok refused_predicate (validate q defs) valid,
        accepts,
      )
      refl

accepts-eq :
    (unmarshal : Text → Option Predicate) (defs : Map AttributeDefinition) (a b : Text)
    → unmarshal a ≡ unmarshal b
    → accepts unmarshal defs a ≡ accepts unmarshal defs b
unfolding parse_predicate
accepts-eq unmarshal defs a b h = rw (h, accepts) refl

decode_body-eq-ok :
    (body : Option CreateRuleRequest) (req : CreateRuleRequest)
    → decode_body body ≡ ok req
    → body ≡ some req
decode_body-eq-ok none req h = absurd (cc h)
decode_body-eq-ok (some r) req h = cc h

-- A request that passes the checks has the predicate of the body, which is accepted.
check_rule_inv :
    (unmarshal : Text → Option Predicate) (defs : Map AttributeDefinition) (today : Text)
    (body : Option CreateRuleRequest) (req : CreateRuleRequest) (p : Predicate) (source : Source)
    → check_rule unmarshal defs today body ≡ ok (req, p, source)
    → (sent : CreateRuleRequest) × (body ≡ some sent)
      × (sent.predicate ≡ req.predicate)
      × (accepts unmarshal defs sent.predicate ≡ true)
check_rule_inv unmarshal defs today body req p source h =
    let (sent, e, h1) = >>=-eq-ok (decode_body body) _ h in
    let (u, e1, h2) =
      >>=-eq-ok
        (guard (not (is_empty sent.id || is_empty sent.category_id || is_empty sent.policy_id))
          (missing (codes "id" ∷ codes "category_id" ∷ codes "policy_id" ∷ [])))
        _ h1 in
    let (v, e2, h3) = >>=-eq-ok (check_day (or_default sent.valid_from today)) _ h2 in
    let (q, checked, h4) = >>=-eq-ok (check_rule_predicate unmarshal defs sent.predicate) _ h3 in
    let (src, e4, h5) = >>=-eq-ok (check_source sent.source) _ h4 in
    (
      sent,
      decode_body-eq-ok body sent e,
      ap (λ ((r, x, y) : CreateRuleRequest × Predicate × Source). r.predicate) (ok-injective h5),
      check_rule_predicate-accepts unmarshal defs sent.predicate q checked,
    )

-- The rules of a store are usable.
abbrev pub HasUsableRules : Codec → Store → Type 0
HasUsableRules codec s = AreUsable codec.predicate s.definitions s.rules.versions

save_rule-HasUsableRules :
    (codec : Codec) (req : CreateRuleRequest) (p : Predicate) (source : Source) (s : Store)
    → ((stored : Text)
        → codec.jsonb req.predicate ≡ some stored
        → accepts codec.predicate s.definitions stored ≡ true)
    → HasUsableRules codec s
    → HasUsableRules codec (save_rule codec.jsonb req p source s).0
unfolding save_rule
save_rule-HasUsableRules codec req p source s accepted usable =
    elim (Result-cases (
      create_rule codec.jsonb req.id (codes "co_demo") req.category_id req.policy_id source
        req.priority (pos (specificity p)) req.predicate req.valid_from s.rules)) [
          | inr (e, r) ↦ rw (r, save_rule) usable
          | inl (rules, r) ↦
              let (start, stored, dated, kept, fresh, e) =
                create_rule_inv codec.jsonb req.id (codes "co_demo") req.category_id req.policy_id
                  req.predicate req.valid_from source req.priority (pos (specificity p)) s.rules
                  rules r in
              rw (r, save_rule)
                (subst (AreUsable codec.predicate s.definitions)
                  (sym (ap (λ (t : RuleTables). t.versions) e))
                  (All-append
                    (λ (v : VersionRow). accepts codec.predicate s.definitions v.predicate ≡ true)
                    s.rules.versions (first_version s.rules req.id stored start ∷ []) usable
                    (accepted stored kept, tt)))
        ]

module _ (codec : Codec) (today : Text) (body : Option CreateRuleRequest) (s : Store)
    (reads_back : (sent : CreateRuleRequest) (stored : Text)
      → body ≡ some sent
      → codec.jsonb sent.predicate ≡ some stored
      → codec.predicate stored ≡ codec.predicate sent.predicate)
    (usable : HasUsableRules codec s) where
  handle_create_rule-HasUsableRules : HasUsableRules codec (handle_create_rule codec today body s).0
  unfolding handle_create_rule
  handle_create_rule-HasUsableRules =
      elim (Result-cases (check_rule codec.predicate s.definitions today body)) [
        | inr (e, r) ↦ rw (r, handle_create_rule) usable
        | inl ((req, p, source), r) ↦
            let (sent, given, same, accepted) =
              check_rule_inv codec.predicate s.definitions today body req p source r in
            rw (r, handle_create_rule)
              (save_rule-HasUsableRules codec req p source s
                (λ stored kept.
                  accepts-eq codec.predicate s.definitions stored sent.predicate (
                    reads_back sent stored given
                      (subst (λ t. codec.jsonb t ≡ some stored) (sym same) kept))
                  ∙ accepted)
                usable)
      ]

  -- Where the rules of a store are usable, POST /rules keeps them usable, whatever the response: on
  -- any valid date `EffectiveRules` then returns the rules of any category, and the validation of
  -- `Resolve` accepts them all. The text that the database keeps of the predicate of the request is
  -- read back as the predicate that the handler has read, if the database takes it.
  pub handle_create_rule-effective_rules :
      (now : ℤ) (category date : Text) (day : ℕ)
      → pg_date date ≡ ok day
      → HasUsableRules codec (handle_create_rule codec today body s).0
        × ((rules : List RuleVersion) × (effective_rules codec.predicate now category date
                (handle_create_rule codec today body s).0.rules
              ≡ ok rules)
            × (validate_all
                  (some (handle_create_rule codec today body s).0.definitions)
                  (category_rules category rules)
                ≡ ok tt))
  handle_create_rule-effective_rules now category date day dated =
      let s' = (handle_create_rule codec today body s).0 in
      (
        handle_create_rule-HasUsableRules,
        effective_rules-valid codec.predicate s'.definitions now s'.rules
            handle_create_rule-HasUsableRules category date day dated,
      )
