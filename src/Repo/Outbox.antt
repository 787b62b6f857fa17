-- ===== src/Repo/Outbox.antt =====
-- internal/repo/outbox.go and gen/db/outbox.sql.go: the table of events to process. A statement is
-- modelled where the database answers; a failed connection is not.
pub mod Claims
pub mod Emitting
pub mod Reclaiming
use wrap_policy_assignment_s.Base.{
  ℕ, suc, Bool, true, false, not, ◌&&◌, ◌||◌, Option, none, some, List, [], ◌∷◌, ◌++◌, map, keep,
  take, length, ltb, ◌==◌, if◌then◌else◌, Result, ok, err,
}
use wrap_policy_assignment_s.Base.Int.{ℤ, pos, negsuc}
use wrap_policy_assignment_s.Base.Text.{Text, codes, text_eq}
use wrap_policy_assignment_s.Base.Map.{Map}
use wrap_policy_assignment_s.Base.Sort.{sort_by}
use wrap_policy_assignment_s.Resolver.Value.{Value}

-- `Outbox` of gen/db/models.go. Of `processed_at` only whether it is set is ever read.
pub record OutboxRow : Type 0 where
  pub id : ℕ
  pub event_type : Text
  pub company_id : Text
  pub payload : Text
  pub idempotency_key : Text
  pub attempts : ℕ
  pub is_processed : Bool
  pub dead_lettered : Bool

-- The table and the sequence of its ids.
pub record OutboxTable : Type 0 where
  pub rows : List OutboxRow
  pub next_id : ℕ

unfoldable pub has_key : Text → List OutboxRow → Bool
has_key key [] = false
has_key key (r ∷ rs) = text_eq r.idempotency_key key || has_key key rs

abbrev pub new_row : ℕ → Text → Text → Text → Text → OutboxRow
new_row id event_type company_id payload key = record {
  id = id;
  event_type = event_type;
  company_id = company_id;
  payload = payload;
  idempotency_key = key;
  attempts = 0;
  is_processed = false;
  dead_lettered = false;
}

-- `InsertOutboxEvent`, with the number of rows. A conflict also uses up an id.
unfoldable pub insert_outbox_event : Text → Text → Text → Text → OutboxTable → OutboxTable × ℕ
insert_outbox_event event_type company_id payload key t =
    if has_key key t.rows then (record t { next_id = suc t.next_id }, 0) else (
      record {
        rows = t.rows ++ new_row t.next_id event_type company_id payload key ∷ [];
        next_id = suc t.next_id;
      },
      1,
    )

pub data EmitError : Type 0 where
  bad_payload : EmitError
  bad_event_type : Text → EmitError

-- The constraint on the column `event_type`.
abbrev pub is_event_type : Text → Bool
is_event_type s =
    text_eq s (codes "fact_changed")
    || text_eq s (codes "rule_changed")
    || text_eq s (codes "category_changed")
    || text_eq s (codes "employee_changed")

-- `EmitEvent`. `marshal` is `json.Marshal`; `none` is its error. A row that violates the constraint
-- uses up an id.
unfoldable pub emit_event :
    (Map Value → Option Text)
    → Text
    → Text
    → Map Value
    → Text
    → OutboxTable
    → OutboxTable × Result EmitError ℕ
emit_event marshal event_type company_id payload key t = elim (marshal payload) [
  | none ↦ (t, err bad_payload)
  | some encoded ↦
      if is_event_type event_type
      then (
        (insert_outbox_event event_type company_id encoded key t).0,
        ok (insert_outbox_event event_type company_id encoded key t).1,
      )
      else (record t { next_id = suc t.next_id }, err (bad_event_type event_type))
]

unfoldable pub mem_id : ℕ → List ℕ → Bool
mem_id id [] = false
mem_id id (i ∷ ids) = i == id || mem_id id ids

-- `processed_at IS NULL AND dead_lettered = FALSE`
abbrev pub is_pending : OutboxRow → Bool
is_pending r = not r.is_processed && not r.dead_lettered

-- The inner query of `ClaimOutboxBatch`, which skips the rows that others have locked.
unfoldable pub claimable : ℕ → List ℕ → List OutboxRow → List ℕ
claimable limit locked rows =
    map (λ (r : OutboxRow). r.id)
      (take limit (
        sort_by (λ (a b : OutboxRow). ltb a.id b.id)
          (keep (λ r. is_pending r && not (mem_id r.id locked)) rows)))

abbrev pub attempt : List ℕ → OutboxRow → OutboxRow
attempt ids r = if mem_id r.id ids then record r { attempts = suc r.attempts } else r

pub data ClaimError : Type 0 where
  negative_limit : ClaimError

-- `ClaimOutboxBatch`, at a limit that is not negative. `returning` is the order in which the
-- database returns the updated rows, which `RETURNING` leaves open.
unfoldable pub claim :
    (List OutboxRow → List OutboxRow)
    → ℕ
    → List ℕ
    → List OutboxRow
    → List OutboxRow × List OutboxRow
claim returning limit locked rows =
    let ids = claimable limit locked rows in
    let updated = map (attempt ids) rows in
    (updated, returning (keep (λ r. mem_id r.id ids) updated))

-- `ClaimOutboxBatch`
unfoldable pub claim_outbox_batch :
    (List OutboxRow → List OutboxRow)
    → ℤ
    → List ℕ
    → List OutboxRow
    → Result ClaimError (List OutboxRow × List OutboxRow)
claim_outbox_batch returning (pos limit) locked rows = ok (claim returning limit locked rows)
claim_outbox_batch returning (negsuc n) locked rows = err negative_limit

-- `MarkOutboxProcessed`
abbrev pub mark_row : ℕ → OutboxRow → OutboxRow
mark_row id r = if r.id == id then record r { is_processed = true } else r

unfoldable pub mark_processed : ℕ → List OutboxRow → List OutboxRow
mark_processed id rows = map (mark_row id) rows

-- `DeadLetterOutbox`
abbrev pub dead_letter_row : ℕ → OutboxRow → OutboxRow
dead_letter_row id r = if r.id == id then record r { dead_lettered = true } else r

unfoldable pub dead_letter : ℕ → List OutboxRow → List OutboxRow
dead_letter id rows = map (dead_letter_row id) rows

-- `CountUnprocessedOutbox`
unfoldable pub unprocessed_count : List OutboxRow → ℕ
unprocessed_count rows = length (keep is_pending rows)
