-- ===== src/Reconciler/Scheduler/Emitting.antt =====
-- What `EmitEvent` does on a table that has the key of the event.
use wrap_policy_assignment_s.Base.{
  ℕ, ◌≡◌, ap, true, inl, inr, Option, some, List, [], ◌∷◌, ◌++◌, Bool-cases, Option-cases, ok,
  arith,
}
use wrap_policy_assignment_s.Base.Text.{Text}
use wrap_policy_assignment_s.Base.Map.{Map}
use wrap_policy_assignment_s.Resolver.Value.{Value}
use wrap_policy_assignment_s.Repo.Outbox.{
  OutboxRow, OutboxTable, has_key, insert_outbox_event, emit_event, is_event_type,
}
use wrap_policy_assignment_s.Repo.Outbox.Emitting.{has_key-insert, insert-old, emit_event-encoded}

-- Keys stay in the table.
has_key-append :
    (key : Text) (rows : List OutboxRow) (r : OutboxRow)
    → has_key key rows ≡ true
    → has_key key (rows ++ r ∷ []) ≡ true
unfolding has_key
has_key-append key [] r h = cc
has_key-append key (x ∷ rows) r h = ground (arith, has_key-append key rows r)

module _ (marshal : Map Value → Option Text) (event_type company : Text) (payload : Map Value)
    (key : Text) where
  -- What `EmitEvent` does not refuse can be encoded and is an event.
  emit_event_inv :
      (t : OutboxTable) (n : ℕ)
      → (emit_event marshal event_type company payload key t).1 ≡ ok n
      → (encoded : Text) × (marshal payload ≡ some encoded) × (is_event_type event_type ≡ true)
  unfolding emit_event
  emit_event_inv t n h = elim (Option-cases (marshal payload)) [
    | inl e ↦ absurd (ground arith)
    | inr (encoded, e) ↦ elim (Bool-cases (is_event_type event_type)) [
      | inl typed ↦ (encoded, e, typed)
      | inr f ↦ absurd (ground arith)
    ]
  ]

  pub emit_event-keeps :
      (k : Text) (t : OutboxTable)
      → has_key k t.rows ≡ true
      → has_key k (emit_event marshal event_type company payload key t).0.rows ≡ true
  unfolding emit_event insert_outbox_event
  emit_event-keeps k t h = elim (Option-cases (marshal payload)) [
    | inl e ↦ rw (e, emit_event) h
    | inr (encoded, e) ↦
        rw (e, emit_event)
          (elim (Bool-cases (is_event_type event_type)) [
            | inl typed ↦ rw typed (elim (Bool-cases (has_key key t.rows)) [
              | inl old ↦ rw old h
              | inr new ↦ rw new (has_key-append k t.rows _ h)
            ])
            | inr f ↦ rw f h
          ])
  ]

  pub emit_event-queued :
      (t : OutboxTable) (n : ℕ)
      → (emit_event marshal event_type company payload key t).1 ≡ ok n
      → has_key key (emit_event marshal event_type company payload key t).0.rows ≡ true
  emit_event-queued t n h =
      let (encoded, e, typed) = emit_event_inv t n h in
      rw (emit_event-encoded marshal event_type company key payload encoded t e typed)
        (has_key-insert event_type company encoded key t)

  pub emit_event-old :
      (t : OutboxTable) (n : ℕ)
      → (emit_event marshal event_type company payload key t).1 ≡ ok n
      → (u : OutboxTable) → has_key key u.rows ≡ true
      → ((emit_event marshal event_type company payload key u).1 ≡ ok 0)
        × ((emit_event marshal event_type company payload key u).0.rows ≡ u.rows)
  emit_event-old t n h u k =
      let (encoded, e, typed) = emit_event_inv t n h in
      let (rows, count) = insert-old event_type company encoded key u k in
      rw (emit_event-encoded marshal event_type company key payload encoded u e typed)
        (ap ok count, rows)
