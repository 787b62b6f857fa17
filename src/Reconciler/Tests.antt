-- ===== src/Reconciler/Tests.antt =====
-- The theorems on the outbox and on batches, at a queue of three events.
pub mod Affecting
pub mod Converging
pub mod Ticking
use mathlib.Core.List.{Pairwise.nil, not-mem-nil}
use mathlib.Core.List.Perm
use wrap_policy_assignment_s.Base.{
  ℕ, ◌+◌, ◌*◌, ◌≤◌, length, ◌==◌, Perm, ◌≡◌, ◌≢◌, ◌<◌, refl, Bool, true, false, Option, some, List,
  [], ◌∷◌, keep, All, Pairs, ok, arith,
}
use wrap_policy_assignment_s.Base.Int.{pos}
use wrap_policy_assignment_s.Base.Text.{Text, codes, cmp_text}
use wrap_policy_assignment_s.Base.Map.{Map}
use wrap_policy_assignment_s.Base.Keys.{HasDistinct-cons}
use wrap_policy_assignment_s.Resolver.Value.{Value}
use wrap_policy_assignment_s.Repo.Outbox.{
  OutboxRow, OutboxTable, claim, claimable, claim_outbox_batch, unprocessed_count, emit_event,
  insert_outbox_event, is_event_type,
}
use wrap_policy_assignment_s.Repo.Outbox.Claims.{HasDistinctIds}
use wrap_policy_assignment_s.Repo.Outbox.Emitting.{
  emit_event-again, IsValid, insert_outbox_event-IsValid,
}
use wrap_policy_assignment_s.Repo.Outbox.Reclaiming.{claim-again}
use wrap_policy_assignment_s.Reconciler.Batch.{
  Config, Worker, Batch, process_batch, process_events, drain, out_of_fuel, start,
}
use wrap_policy_assignment_s.Reconciler.Batch.Advance.{Advances, process_batch-Advances}
use wrap_policy_assignment_s.Reconciler.Batch.Bounds.{IsBounded, process_batch-IsBounded}
use wrap_policy_assignment_s.Reconciler.Batch.Draining.{
  process_batch-unprocessed_count, drain-ne-out_of_fuel,
}
use wrap_policy_assignment_s.Reconciler.Batch.Progress.{tries}
use wrap_policy_assignment_s.Reconciler.Batch.Liveness.{rows_after, unprocessed_count-rows_after}

abbrev row : ℕ → ℕ → Bool → OutboxRow
row id attempts is_processed = record {
  id = id;
  event_type = codes "fact_changed";
  company_id = codes "c";
  payload = [];
  idempotency_key = id ∷ [];
  attempts = attempts;
  is_processed = is_processed;
  dead_lettered = false;
}

-- The first event is processed, the second fails for the last time, the third waits.
abbrev queue : List OutboxRow
queue = row 1 0 false ∷ row 2 1 false ∷ row 3 0 false ∷ row 4 1 true ∷ []

abbrev config : Config
config = record { batch_size = pos 2; max_attempts = pos 2 }

abbrev is_first : OutboxRow → Bool
is_first ev = ev.id == 1

-- A worker that counts the events and fails on all but the first.
abbrev worker : Worker ℕ
worker = record { handle = λ ev n. (n + 1, is_first ev); returning = λ l. l; locked = λ rows. [] }

reorders : (l : List OutboxRow) → Perm (worker.returning l) l
reorders l = Perm.rfl

abbrev key : OutboxRow → ℕ
key r = r.id

distinct : HasDistinctIds queue
distinct =
    HasDistinct-cons key (row 1 0 false) _
      ((λ h. omega arith), ((λ h. omega arith), ((λ h. omega arith), tt)))
      (HasDistinct-cons key (row 2 1 false) _ ((λ h. omega arith), ((λ h. omega arith), tt))
        (HasDistinct-cons key (row 3 0 false) _ ((λ h. omega arith), tt)
          (HasDistinct-cons key (row 4 1 true) [] tt nil)))

abbrev after : Batch ℕ
after =
    process_events config worker (claim worker.returning 2 [] queue).1
      (start 0 (claim worker.returning 2 [] queue).0)

ran : process_batch config worker queue 0 ≡ ok after
unfolding process_batch claim_outbox_batch
ran = refl

process_batch-Advances_example :
    (limit : ℕ) × (config.batch_size ≡ pos limit)
    × (length (claimable limit [] queue) ≤ limit)
    × Pairs (Advances config worker limit [] queue 0) queue after.rows
process_batch-Advances_example =
    process_batch-Advances config worker reorders queue distinct 0 after ran

bounds : All (IsBounded config) queue
bounds = (
  record { bounded = refl; waiting = λ p. refl },
  (
    record { bounded = refl; waiting = λ p. refl },
    (
      record { bounded = refl; waiting = λ p. refl },
      (record { bounded = refl; waiting = λ p. refl }, tt),
    ),
  ),
)

process_batch-IsBounded_example : All (IsBounded config) after.rows
process_batch-IsBounded_example =
    process_batch-IsBounded config worker reorders queue distinct 0 after ran bounds

process_batch-unprocessed_count_example :
    unprocessed_count after.rows + after.processed + after.dead ≡ unprocessed_count queue
process_batch-unprocessed_count_example =
    process_batch-unprocessed_count config worker reorders queue distinct 0 after ran

three_wait : unprocessed_count queue < 4
unfolding unprocessed_count keep
three_wait = omega arith

drain-ne-out_of_fuel_example : (drain 4 config worker 0 queue 0).0 ≢ out_of_fuel
drain-ne-out_of_fuel_example =
    drain-ne-out_of_fuel config worker reorders 4 0 queue distinct 0 three_wait

six_batches : 2 * length queue ≤ tries queue + 6
unfolding tries
six_batches = omega arith

unprocessed_count-rows_after_example : unprocessed_count (rows_after 6 config worker queue 0) ≡ 0
unprocessed_count-rows_after_example =
    unprocessed_count-rows_after config worker reorders 1 2 refl refl (λ rows. refl) 6 queue
      distinct bounds 0 six_batches

claim-again_example : claimable 2 [] (claim worker.returning 2 [] queue).0 ≡ claimable 2 [] queue
claim-again_example = claim-again worker.returning 2 [] queue

abbrev table : OutboxTable
table = record { rows = []; next_id = 1 }

table-IsValid : IsValid table
table-IsValid = record { ids = nil; below = λ r m. absurd (not-mem-nil m); keys = nil }

insert_outbox_event-IsValid_example :
    IsValid (insert_outbox_event (codes "rule_changed") (codes "c") [] (codes "k") table).0
insert_outbox_event-IsValid_example =
    insert_outbox_event-IsValid (codes "rule_changed") (codes "c") [] (codes "k") table
      table-IsValid

-- An encoder that writes every payload as an empty object.
abbrev encode : Map Value → Option Text
encode payload = some (codes "{}")

abbrev emitted : OutboxTable
emitted = (emit_event encode (codes "rule_changed") (codes "c") [] (codes "k") table).0

typed :
    (is_event_type (codes "rule_changed") ≡ true) × (is_event_type (codes "fact_changed") ≡ true)
unfolding cmp_text
typed = (refl, refl)

emit_event-again_example :
    ((emit_event encode (codes "fact_changed") (codes "d") [] (codes "k") emitted).0.rows
      ≡ emitted.rows)
    × ((emit_event encode (codes "fact_changed") (codes "d") [] (codes "k") emitted).1 ≡ ok 0)
emit_event-again_example =
    emit_event-again encode (codes "rule_changed") (codes "c") (codes "fact_changed") (codes "d")
      (codes "k") [] [] (codes "{}") (codes "{}") table refl refl typed.0 typed.1
