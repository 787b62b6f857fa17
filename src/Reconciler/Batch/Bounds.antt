-- ===== src/Reconciler/Batch/Bounds.antt =====
-- How often an event is tried.
use wrap_policy_assignment_s.Base.{
  ℕ, ◌≡◌, refl, Bool, true, false, List, Perm, All, Pairs-All, Pairs-map_eq, ok, arith,
}
use wrap_policy_assignment_s.Base.Int.{pos, int_lt}
use wrap_policy_assignment_s.Base.Keys.{HasDistinct-keys}
use wrap_policy_assignment_s.Repo.Outbox.{OutboxRow, is_pending}
use wrap_policy_assignment_s.Repo.Outbox.Claims.{ids, HasDistinctIds}
use wrap_policy_assignment_s.Reconciler.Batch.{Config, Worker, Batch, is_exhausted, process_batch}
use wrap_policy_assignment_s.Reconciler.Batch.Settling.{Settled, kept, finished, buried}
use wrap_policy_assignment_s.Reconciler.Batch.Advance.{
  Advances, untouched, settles, tried, process_batch-Advances,
}

-- The tries of a row, and of one that is still pending.
pub record IsBounded (cfg : Config) (r : OutboxRow) : Type 0 where
  pub bounded : int_lt cfg.max_attempts (pos r.attempts) ≡ false
  pub waiting : is_pending r ≡ true → is_exhausted cfg r ≡ false

Settled-IsBounded :
    (cfg : Config) (r r' : OutboxRow)
    → IsBounded cfg r
    → is_pending r ≡ true
    → {done : Bool} → Settled cfg (tried r) done r'
    → IsBounded cfg r'
Settled-IsBounded cfg r r' b p (kept h) = ground (arith, b.waiting p)
Settled-IsBounded cfg r r' b p finished = ground (arith, b.waiting p)
Settled-IsBounded cfg r r' b p (buried h) = ground (arith, b.waiting p)

Settled-id : (cfg : Config) (r r' : OutboxRow) {done : Bool} → Settled cfg r done r' → r.id ≡ r'.id
Settled-id cfg r r' (kept h) = refl
Settled-id cfg r r' finished = refl
Settled-id cfg r r' (buried h) = refl

module _ {World : Type 0} (cfg : Config) (worker : Worker World) (limit : ℕ) (locked : List ℕ)
    (rows : List OutboxRow) (world : World) where
  Advances-IsBounded :
      (r r' : OutboxRow)
      → Advances cfg worker limit locked rows world r r'
      → IsBounded cfg r
      → IsBounded cfg r'
  Advances-IsBounded r r' (untouched free) b = b
  Advances-IsBounded r r' (settles picked p handled s) b = Settled-IsBounded cfg r r' b p s

  Advances-id : (r r' : OutboxRow) → Advances cfg worker limit locked rows world r r' → r.id ≡ r'.id
  Advances-id r r' (untouched free) = refl
  Advances-id r r' (settles picked p handled s) = Settled-id cfg (tried r) r' s

module _ {World : Type 0} (cfg : Config) (worker : Worker World)
    (reorders : (l : List OutboxRow) → Perm (worker.returning l) l) (rows : List OutboxRow)
    (distinct : HasDistinctIds rows) (world : World) (b : Batch World)
    (h : process_batch cfg worker rows world ≡ ok b) where
  pub process_batch-ids : ids rows ≡ ids b.rows
  process_batch-ids =
      let (limit, size, few, pairs) =
        process_batch-Advances cfg worker reorders rows distinct world b h in
      Pairs-map_eq (Advances cfg worker limit (worker.locked rows) rows world)
        (λ (r : OutboxRow). r.id) (Advances-id cfg worker limit (worker.locked rows) rows world)
        rows b.rows pairs

  pub process_batch-HasDistinctIds : HasDistinctIds b.rows
  process_batch-HasDistinctIds =
      HasDistinct-keys (λ (r : OutboxRow). r.id) (λ (r : OutboxRow). r.id) process_batch-ids
        distinct

  -- A batch keeps the bound on the tries: no row is tried more than `MaxAttempts` times, and a
  -- pending one fewer times than that. The ids are distinct.
  pub process_batch-IsBounded : All (IsBounded cfg) rows → All (IsBounded cfg) b.rows
  process_batch-IsBounded =
      let (limit, size, few, pairs) =
        process_batch-Advances cfg worker reorders rows distinct world b h in
      Pairs-All (Advances cfg worker limit (worker.locked rows) rows world) (IsBounded cfg)
        (IsBounded cfg) (Advances-IsBounded cfg worker limit (worker.locked rows) rows world) rows
        b.rows pairs
