-- ===== src/Reconciler/Batch.antt =====
-- internal/reconciler/reconciler.go: `ProcessBatch` and `drain`, over any way to handle an event.
pub mod Settling
pub mod Advance
pub mod Bounds
pub mod Draining
pub mod Progress
pub mod Liveness
use wrap_policy_assignment_s.Base.{
  ℕ, zero, suc, ◌+◌, Bool, true, false, not, ◌&&◌, List, [], ◌∷◌, ◌==◌, if◌then◌else◌, Result, ok,
  err, map_ok,
}
use wrap_policy_assignment_s.Base.Int.{ℤ, pos, int_lt}
use wrap_policy_assignment_s.Repo.Outbox.{
  OutboxRow, ClaimError, claim_outbox_batch, mark_processed, dead_letter,
}

-- `Config`, as far as `ProcessBatch` reads it.
pub record Config : Type 0 where
  pub batch_size : ℤ
  pub max_attempts : ℤ

-- What an event is handled with: `handle` is `processEvent`, which changes the other tables, the
-- World, even where it returns an error, and `locked` are the rows that other workers hold.
pub record Worker (World : Type 0) : Type 0 where
  pub handle : OutboxRow → World → World × Bool
  pub returning : List OutboxRow → List OutboxRow
  pub locked : List OutboxRow → List ℕ

-- The outbox, the other tables, and the counts that `ProcessBatch` returns.
pub record Batch (World : Type 0) : Type 0 where
  pub rows : List OutboxRow
  pub world : World
  pub processed : ℕ
  pub dead : ℕ

-- `ev.Attempts >= r.cfg.MaxAttempts`
abbrev pub is_exhausted : Config → OutboxRow → Bool
is_exhausted cfg ev = not (int_lt (pos ev.attempts) cfg.max_attempts)

-- What follows on `processEvent`, with whether it returned no error.
unfoldable pub settle :
    {World : Type 0} → Config → OutboxRow → World × Bool → Batch World → Batch World
settle cfg ev (w, true) b = record b {
  rows = mark_processed ev.id b.rows;
  world = w;
  processed = suc b.processed;
}
settle cfg ev (w, false) b =
    if is_exhausted cfg ev
    then record b { rows = dead_letter ev.id b.rows; world = w; dead = suc b.dead }
    else record b { world = w }

-- The loop of `ProcessBatch`.
unfoldable pub process_events :
    {World : Type 0} → Config → Worker World → List OutboxRow → Batch World → Batch World
process_events cfg worker [] b = b
process_events cfg worker (ev ∷ evs) b =
    process_events cfg worker evs (settle cfg ev (worker.handle ev b.world) b)

abbrev pub start : {World : Type 0} → World → List OutboxRow → Batch World
start world rows = record { rows = rows; world = world; processed = 0; dead = 0 }

-- `ProcessBatch`
unfoldable pub process_batch :
    {World : Type 0}
    → Config
    → Worker World
    → List OutboxRow
    → World
    → Result ClaimError (Batch World)
process_batch cfg worker rows world =
    map_ok (λ (updated, events). process_events cfg worker events (start world updated))
      (claim_outbox_batch worker.returning cfg.batch_size (worker.locked rows) rows)

-- How `drain` ended: a batch that failed, a batch that settled nothing, or no fuel.
pub data Drained (World : Type 0) : Type 0 where
  failed : ClaimError → Drained World
  idle : Batch World → Drained World
  out_of_fuel : Drained World

-- `drain`, where its context is not cancelled, for at most `fuel` batches. `total` counts the
-- events that it has processed.
unfoldable pub drain :
    {World : Type 0} → ℕ → Config → Worker World → ℕ → List OutboxRow → World → Drained World × ℕ
drain zero cfg worker total rows world = (out_of_fuel, total)
drain (suc fuel) cfg worker total rows world = elim (process_batch cfg worker rows world) [
  | err e ↦ (failed e, total)
  | ok b ↦
      let rest = drain fuel cfg worker (total + b.processed) b.rows b.world in
      if b.processed == 0 && b.dead == 0 then (idle b, total) else rest
]
