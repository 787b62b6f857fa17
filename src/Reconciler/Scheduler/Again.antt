-- ===== src/Reconciler/Scheduler/Again.antt =====
-- A second `Tick` on a day queues nothing.
use wrap_policy_assignment_s.Base.{
  ℕ, ◌+◌, ◌≡◌, ◌≢◌, refl, subst, sym, ◌∙◌, ap, true, false, inl, inr, Option, List, [], ◌∷◌,
  Bool-cases, Result-cases, Result, ok, err, arith,
}
use wrap_policy_assignment_s.Base.Text.{Text, codes}
use wrap_policy_assignment_s.Base.Map.{Map}
use wrap_policy_assignment_s.Resolver.Value.{Value}
use wrap_policy_assignment_s.Resolver.Ast.Validate.{mem_text}
use wrap_policy_assignment_s.Repo.Outbox.{OutboxTable, EmitError, has_key, emit_event}
use wrap_policy_assignment_s.Repo.Transitions.{
  FactTransition, RuleTransition, fact_transitions_today, rule_transitions_today,
}
use wrap_policy_assignment_s.Repo.Facts.{FactTable}
use wrap_policy_assignment_s.Repo.Rules.{RuleTables}
use wrap_policy_assignment_s.Reconciler.Scheduler.{
  TickError, fact_not_emitted, rule_not_emitted, fact_payload, fact_key, rule_payload, rule_key,
  emit_facts, emit_rules, tick,
}
use wrap_policy_assignment_s.Reconciler.Scheduler.Emitting.{
  emit_event-keeps, emit_event-queued, emit_event-old,
}

-- What a loop of `Tick` returns.
abbrev Ticked : Type 0
Ticked = OutboxTable × ℕ × Result TickError (Unit {0})

-- The loop queues nothing and counts nothing.
record EmitsNothing (u : OutboxTable) (n : ℕ) (x : Ticked) : Type 0 where
  rows : x.0.rows ≡ u.rows
  count : x.1 ≡ n
  done : x.2 ≡ ok tt

-- A loop that emits an event for each member of a list.
module _ {A : Type 0} (marshal : Map Value → Option Text) (event_type : Text)
    (payload : A → Map Value) (key : A → Text) (fail : EmitError → TickError) where
  abbrev emit_one : A → OutboxTable → OutboxTable × Result EmitError ℕ
  emit_one a t = emit_event marshal event_type (codes "co_demo") (payload a) (key a) t

  emit_each : List A → OutboxTable → ℕ → Ticked
  emit_each [] t n = (t, n, ok tt)
  emit_each (a ∷ xs) t n = elim (emit_one a t).1 [
    | err e ↦ ((emit_one a t).0, n, err (fail e))
    | ok rows ↦ emit_each xs (emit_one a t).0 (n + rows)
  ]

  emit_each-step :
      (a : A) (xs : List A) (t : OutboxTable) (n c : ℕ)
      → (emit_one a t).1 ≡ ok c
      → emit_each (a ∷ xs) t n ≡ emit_each xs (emit_one a t).0 (n + c)
  unfolding emit_each
  emit_each-step a xs t n c e = rw (e, emit_each) refl

  emit_each-fail :
      (a : A) (xs : List A) (t : OutboxTable) (n : ℕ) (x : EmitError)
      → (emit_one a t).1 ≡ err x
      → (emit_each (a ∷ xs) t n).2 ≢ ok tt
  unfolding emit_each
  emit_each-fail a xs t n x e = rw (e, emit_each) (λ h. cc)

  -- The loop leaves keys in the table.
  emit_each-keeps :
      (k : Text) (xs : List A) (t : OutboxTable) (n : ℕ)
      → has_key k t.rows ≡ true
      → has_key k (emit_each xs t n).0.rows ≡ true
  unfolding emit_each
  emit_each-keeps k [] t n h = h
  emit_each-keeps k (a ∷ xs) t n h =
      let kept : has_key k (emit_one a t).0.rows ≡ true =
        emit_event-keeps marshal event_type (codes "co_demo") (payload a) (key a) k t h in
      elim (Result-cases (emit_one a t).1) [
        | inl (c, e) ↦ rw (e, emit_each) (emit_each-keeps k xs (emit_one a t).0 (n + c) kept)
        | inr (x, e) ↦ rw (e, emit_each) kept
      ]

  -- On a table that has the keys of a run that ended well, the loop emits nothing.
  emit_each-again :
      (xs : List A) (t u : OutboxTable) (n n' : ℕ)
      → (emit_each xs t n).2 ≡ ok tt
      → ((k : Text) → has_key k (emit_each xs t n).0.rows ≡ true → has_key k u.rows ≡ true)
      → EmitsNothing u n' (emit_each xs u n')
  unfolding emit_each
  emit_each-again [] t u n n' h keys = record { rows = refl; count = refl; done = refl }
  emit_each-again (a ∷ xs) t u n n' h keys = elim (Result-cases (emit_one a t).1) [
    | inr (x, e) ↦ absurd (emit_each-fail a xs t n x e h)
    | inl (c, e) ↦
        let same = emit_each-step a xs t n c e in
        let t' = (emit_one a t).0 in
        let queued : has_key (key a) u.rows ≡ true = keys (key a) (
          ap (λ (x : Ticked). has_key (key a) x.0.rows) same
          ∙ emit_each-keeps (key a) xs t' (n + c)
              (emit_event-queued marshal event_type (codes "co_demo") (payload a) (key a) t c e)) in
        let (uncounted, rows) =
          emit_event-old marshal event_type (codes "co_demo") (payload a) (key a) t c e u queued in
        let rest =
          emit_each-again xs t' (emit_one a u).0 (n + c) (n' + 0)
            (ap (λ (x : Ticked). x.2) (sym same) ∙ h)
            (λ k hk.
              ap (has_key k) rows ∙ keys k (ap (λ (x : Ticked). has_key k x.0.rows) same ∙ hk)) in
        subst (EmitsNothing u n') (sym (emit_each-step a xs u n' 0 uncounted))
          (record { rows = rest.rows ∙ rows; count = rest.count ∙ omega arith; done = rest.done })
  ]

-- The facts of employees that were not seen before.
fresh : List Text → List FactTransition → List FactTransition
fresh seen [] = []
fresh seen (f ∷ fs) = elim (mem_text f.employee_id seen) [
  | true ↦ fresh seen fs
  | false ↦ f ∷ fresh (f.employee_id ∷ seen) fs
]

module _ (marshal : Map Value → Option Text) (today : Text) where
  abbrev each_fact : List FactTransition → OutboxTable → ℕ → Ticked
  each_fact =
      emit_each marshal (codes "fact_changed") fact_payload (fact_key today) fact_not_emitted

  abbrev each_rule : List RuleTransition → OutboxTable → ℕ → Ticked
  each_rule =
      emit_each marshal (codes "rule_changed") rule_payload (rule_key today) rule_not_emitted

  emit_facts-each :
      (seen : List Text) (fs : List FactTransition) (t : OutboxTable) (n : ℕ)
      → emit_facts marshal today seen fs t n ≡ each_fact (fresh seen fs) t n
  unfolding emit_facts fresh emit_each
  emit_facts-each seen [] t n = refl
  emit_facts-each seen (f ∷ fs) t n = elim (Bool-cases (mem_text f.employee_id seen)) [
    | inl m ↦ rw (m, emit_facts, fresh) (emit_facts-each seen fs t n)
    | inr m ↦
        elim (Result-cases
          (emit_event marshal (codes "fact_changed") (codes "co_demo") (fact_payload f)
            (fact_key today f) t).1) [
              | inl (c, e) ↦
                  rw (m, emit_facts, fresh)
                    (rw (e, emit_each) (emit_facts-each (f.employee_id ∷ seen) fs _ (n + c)))
              | inr (x, e) ↦ rw (m, emit_facts, fresh) (rw (e, emit_each) refl)
            ]
  ]

  emit_rules-each :
      (rs : List RuleTransition) (t : OutboxTable) (n : ℕ)
      → emit_rules marshal today rs t n ≡ each_rule rs t n
  unfolding emit_rules emit_each
  emit_rules-each [] t n = refl
  emit_rules-each (r ∷ rs) t n =
      elim (Result-cases
        (emit_event marshal (codes "rule_changed") (codes "co_demo") (rule_payload r)
          (rule_key today r) t).1) [
            | inl (c, e) ↦ rw (e, emit_rules, emit_each) (emit_rules-each rs _ (n + c))
            | inr (x, e) ↦ rw (e, emit_rules, emit_each) refl
          ]

  module _ (list_facts : List FactTransition → List FactTransition)
      (list_rules : List RuleTransition → List RuleTransition) (facts : FactTable)
      (rules : RuleTables) where
    abbrev run : OutboxTable → Ticked
    run t = tick marshal today list_facts list_rules facts rules t

    tick-steps :
        (fs : List FactTransition) (rs : List RuleTransition) (t : OutboxTable)
        → fact_transitions_today list_facts today facts ≡ ok fs
        → (emit_facts marshal today [] fs t 0).2 ≡ ok tt
        → rule_transitions_today list_rules today rules ≡ ok rs
        → run t
          ≡ emit_rules marshal today rs
              (emit_facts marshal today [] fs t 0).0
              (emit_facts marshal today [] fs t 0).1
    unfolding tick
    tick-steps fs rs t e d h = rw (e, tick) (rw (d, tick) (rw (h, tick) refl))

    tick_inv :
        (t : OutboxTable)
        → (run t).2 ≡ ok tt
        → (fs : List FactTransition) × (rs : List RuleTransition) × (fact_transitions_today
              list_facts today facts
            ≡ ok fs)
          × ((emit_facts marshal today [] fs t 0).2 ≡ ok tt)
          × (rule_transitions_today list_rules today rules ≡ ok rs)
    unfolding tick
    tick_inv t h = elim (Result-cases (fact_transitions_today list_facts today facts)) [
      | inr (x, e) ↦ absurd (ground arith)
      | inl (fs, e) ↦ elim (Result-cases (emit_facts marshal today [] fs t 0).2) [
        | inr (x, d) ↦ absurd (ground arith)
        | inl (u, d) ↦ elim (Result-cases (rule_transitions_today list_rules today rules)) [
          | inr (x, r) ↦ absurd (ground arith)
          | inl (rs, r) ↦ (fs, rs, e, d, r)
        ]
      ]
    ]

    -- After a `Tick` that ends without an error, another one on that day, with the facts and the
    -- rules of the day listed as before, queues nothing and counts 0, on any table that has kept the
    -- keys.
    pub tick-again :
        (t u : OutboxTable)
        → (run t).2 ≡ ok tt
        → ((k : Text) → has_key k (run t).0.rows ≡ true → has_key k u.rows ≡ true)
        → ((run u).0.rows ≡ u.rows) × ((run u).1 ≡ 0) × ((run u).2 ≡ ok tt)
    tick-again t u h keys =
        let (fs, rs, e, d, r) = tick_inv t h in
        let first = emit_facts marshal today [] fs t 0 in
        let steps = tick-steps fs rs t e d r ∙ emit_rules-each rs first.0 first.1 in
        let facts_again = subst (EmitsNothing u 0) (sym (emit_facts-each [] fs u 0)) (
          emit_each-again marshal (codes "fact_changed") fact_payload (fact_key today)
            fact_not_emitted (fresh [] fs) t u 0 0
            (ap (λ (x : Ticked). x.2) (sym (emit_facts-each [] fs t 0)) ∙ d)
            (λ k hk. keys k (
              ap (λ (x : Ticked). has_key k x.0.rows) steps
              ∙ emit_each-keeps marshal (codes "rule_changed") rule_payload (rule_key today)
                  rule_not_emitted k rs first.0 first.1
                  (ap (λ (x : Ticked). has_key k x.0.rows) (emit_facts-each [] fs t 0) ∙ hk)))) in
        let second = emit_facts marshal today [] fs u 0 in
        let rules_again =
          emit_each-again marshal (codes "rule_changed") rule_payload (rule_key today)
            rule_not_emitted rs first.0 second.0 first.1 second.1
            (ap (λ (x : Ticked). x.2) (sym steps) ∙ h)
            (λ k hk.
              ap (has_key k) facts_again.rows
              ∙ keys k (ap (λ (x : Ticked). has_key k x.0.rows) steps ∙ hk)) in
        let steps_again =
          tick-steps fs rs u e facts_again.done r ∙ emit_rules-each rs second.0 second.1 in
        (
          ap (λ (x : Ticked). x.0.rows) steps_again ∙ rules_again.rows ∙ facts_again.rows,
          ap (λ (x : Ticked). x.1) steps_again ∙ rules_again.count ∙ facts_again.count,
          ap (λ (x : Ticked). x.2) steps_again ∙ rules_again.done,
        )
