-- ===== src/Repo/Outbox/Emitting.antt =====
-- `EmitEvent`: the idempotency key.
use mathlib.Core.List.{Pairwise-append, Pairwise-singleton, mem-append, mem-cons, not-mem-nil}
use mathlib.Core.Logic.Or
use mathlib.Core.Bool.{Bool-set, true≢false}
use native.Mathlib.Bridge.{le_prop}
use wrap_policy_assignment_s.Base.{
  ℕ, suc, ◌<◌, ◌≡◌, ◌≢◌, refl, sym, ◌∙◌, ap, true, Option, some, List, [], ◌∷◌, ◌++◌, Mem, inl, inr,
  Bool-cases, ok, arith,
}
use wrap_policy_assignment_s.Base.Text.{Text, text_eq_iff}
use wrap_policy_assignment_s.Base.Map.{Map}
use wrap_policy_assignment_s.Base.Keys.{HasDistinct, ≢_prop}
use wrap_policy_assignment_s.Resolver.Value.{Value}
use wrap_policy_assignment_s.Repo.Outbox.{
  OutboxRow, OutboxTable, has_key, new_row, insert_outbox_event, emit_event, is_event_type,
}

pub has_key-append_self :
    (key : Text) (rows : List OutboxRow) (r : OutboxRow)
    → r.idempotency_key ≡ key
    → has_key key (rows ++ r ∷ []) ≡ true
unfolding has_key
has_key-append_self key [] r e = rw ((text_eq_iff r.idempotency_key key).1 e) refl
has_key-append_self key (x ∷ rows) r e = ground (arith, has_key-append_self key rows r e)

-- After an insert the key is in the table.
pub has_key-insert :
    (event_type company_id payload key : Text) (t : OutboxTable)
    → has_key key (insert_outbox_event event_type company_id payload key t).0.rows ≡ true
unfolding insert_outbox_event
has_key-insert event_type company_id payload key t = elim (Bool-cases (has_key key t.rows)) [
  | inl h ↦ rw (h, h) refl
  | inr h ↦
      rw h
        (has_key-append_self key t.rows (new_row t.next_id event_type company_id payload key) refl)
]

pub insert-old :
    (event_type company_id payload key : Text) (t : OutboxTable)
    → has_key key t.rows ≡ true
    → ((insert_outbox_event event_type company_id payload key t).0.rows ≡ t.rows)
      × ((insert_outbox_event event_type company_id payload key t).1 ≡ 0)
unfolding insert_outbox_event
insert-old event_type company_id payload key t h = rw h (refl, refl)

pub emit_event-encoded :
    (marshal : Map Value → Option Text) (event_type company_id key : Text) (payload : Map Value)
    (encoded : Text) (t : OutboxTable)
    → marshal payload ≡ some encoded
    → is_event_type event_type ≡ true
    → emit_event marshal event_type company_id payload key t ≡ (
      (insert_outbox_event event_type company_id encoded key t).0,
      ok (insert_outbox_event event_type company_id encoded key t).1,
    )
unfolding emit_event
emit_event-encoded marshal event_type company_id key payload encoded t h typed =
    rw (h, emit_event) (rw typed refl)

-- Of two events with one idempotency key the second is not queued, whatever it says: the rows stay,
-- and the number of rows that it returns is 0. Both payloads can be encoded, and both types are
-- types of events.
pub emit_event-again :
    (marshal : Map Value → Option Text) (type₁ company₁ type₂ company₂ key : Text)
    (payload₁ payload₂ : Map Value) (encoded₁ encoded₂ : Text) (t : OutboxTable)
    → marshal payload₁ ≡ some encoded₁
    → marshal payload₂ ≡ some encoded₂
    → is_event_type type₁ ≡ true
    → is_event_type type₂ ≡ true
    → ((emit_event marshal type₂ company₂ payload₂ key
          (emit_event marshal type₁ company₁ payload₁ key t).0).0.rows
        ≡ (emit_event marshal type₁ company₁ payload₁ key t).0.rows)
      × ((emit_event marshal type₂ company₂ payload₂ key
            (emit_event marshal type₁ company₁ payload₁ key t).0).1
          ≡ ok 0)
emit_event-again marshal type₁ company₁ type₂ company₂ key payload₁ payload₂ encoded₁ encoded₂ t h k
      typed₁ typed₂ =
    let t' = (insert_outbox_event type₁ company₁ encoded₁ key t).0 in
    let (rows, count) =
      insert-old type₂ company₂ encoded₂ key t' (has_key-insert type₁ company₁ encoded₁ key t) in
    rw
      (
        emit_event-encoded marshal type₁ company₁ key payload₁ encoded₁ t h typed₁,
        emit_event-encoded marshal type₂ company₂ key payload₂ encoded₂ t' k typed₂,
      )
      (rows, ap ok count)

-- The table with its constraints: the primary key, whose values are below the sequence's next one,
-- and the unique idempotency key.
pub record IsValid (t : OutboxTable) : Type 0 where
  pub ids : HasDistinct (λ r. r.id) t.rows
  pub below : (r : OutboxRow) → Mem r t.rows → r.id < t.next_id
  pub keys : HasDistinct (λ r. r.idempotency_key) t.rows

has_key-listed :
    (rows : List OutboxRow) (r : OutboxRow) → Mem r rows → has_key r.idempotency_key rows ≡ true
unfolding has_key
has_key-listed [] r m = absurd (not-mem-nil m)
has_key-listed (x ∷ rows) r m =
    Or.elim (Bool-set _ _) (mem-cons.0 m)
      (λ same. ground (
        arith,
        (text_eq_iff x.idempotency_key r.idempotency_key).1
            (ap (λ (y : OutboxRow). y.idempotency_key) (sym same)),
      ))
      (λ m. ground (arith, has_key-listed rows r m))

append_last :
    {K : Type 0} (key : OutboxRow → K) (rows : List OutboxRow) (new : OutboxRow)
    → HasDistinct key rows
    → ((r : OutboxRow) → Mem r rows → key r ≢ key new)
    → HasDistinct key (rows ++ new ∷ [])
append_last key rows new d fresh =
    (Pairwise-append (λ (a b : OutboxRow). ≢_prop (key a) (key b)) {l₁ = rows} {l₂ = new ∷ []}).1 (
      d,
      Pairwise-singleton _ new,
      λ a ma b mb.
          Or.elim (≢_prop (key a) (key b)) (mem-cons.0 mb) (λ e h. fresh a ma (h ∙ ap key e))
            (λ m. absurd (not-mem-nil m)),
    )

below_prop : (i j : ℕ) → IsProp (i < j)
below_prop i j = le_prop

-- `InsertOutboxEvent` keeps the constraints of the table.
pub insert_outbox_event-IsValid :
    (event_type company_id payload key : Text) (t : OutboxTable)
    → IsValid t
    → IsValid (insert_outbox_event event_type company_id payload key t).0
unfolding insert_outbox_event
insert_outbox_event-IsValid event_type company_id payload key t v =
    let new = new_row t.next_id event_type company_id payload key in
    elim (Bool-cases (has_key key t.rows)) [
      | inl h ↦
          rw h (record { ids = v.ids; below = λ r m. ground (arith, v.below r m); keys = v.keys })
      | inr h ↦ rw h (record {
        ids =
            append_last (λ (r : OutboxRow). r.id) t.rows new v.ids
              (λ r m e. ground (arith, v.below r m));
        below = λ r m.
            Or.elim (below_prop r.id (suc t.next_id)) (mem-append.0 m)
              (λ (m : Mem r t.rows). ground (arith, v.below r m))
              (λ m.
                Or.elim (below_prop r.id (suc t.next_id)) (mem-cons.0 m)
                  (λ e. ground (arith, ap (λ (x : OutboxRow). x.id) e))
                  (λ m. absurd (not-mem-nil m)));
        keys =
            append_last (λ (r : OutboxRow). r.idempotency_key) t.rows new v.keys
              (λ r m e.
                true≢false (sym (has_key-listed t.rows r m) ∙ ap (λ k. has_key k t.rows) e ∙ h));
      })
    ]
