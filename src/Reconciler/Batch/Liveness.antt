-- ===== src/Reconciler/Batch/Liveness.antt =====
-- Batch after batch, every event is settled.
use wrap_policy_assignment_s.Base.{
  ℕ, zero, suc, ◌+◌, ◌*◌, ◌≤◌, ◌<◌, ◌≡◌, ◌≢◌, not, refl, sym, ◌∙◌, ap, subst, true, false, List, [],
  ◌∷◌, keep, length, length-map, Perm, All, ok, err, Result-cases, inl, ◌⊎◌, inr, Bool-cases, arith,
}
use wrap_policy_assignment_s.Base.Int.{pos, int_lt}
use wrap_policy_assignment_s.Repo.Outbox.{
  OutboxRow, is_pending, unprocessed_count, ClaimError, claim_outbox_batch,
}
use wrap_policy_assignment_s.Repo.Outbox.Claims.{HasDistinctIds}
use wrap_policy_assignment_s.Reconciler.Batch.{Config, Worker, Batch, process_batch}
use wrap_policy_assignment_s.Reconciler.Batch.Bounds.{
  IsBounded, process_batch-ids, process_batch-HasDistinctIds, process_batch-IsBounded,
}
use wrap_policy_assignment_s.Reconciler.Batch.Draining.{process_batch-unprocessed_count}
use wrap_policy_assignment_s.Reconciler.Batch.Progress.{tries, process_batch-tries}

-- The rows after a number of batches, or after the first one that fails.
unfoldable pub rows_after :
    {World : Type 0} → ℕ → Config → Worker World → List OutboxRow → World → List OutboxRow
rows_after zero cfg worker rows world = rows
rows_after (suc k) cfg worker rows world = elim (process_batch cfg worker rows world) [
  | err e ↦ rows
  | ok b ↦ rows_after k cfg worker b.rows b.world
]

most_tries :
    (cfg : Config) (m : ℕ) (r : OutboxRow)
    → cfg.max_attempts ≡ pos m
    → IsBounded cfg r
    → r.attempts ≤ m
most_tries cfg m r e b =
    let most : int_lt (pos m) (pos r.attempts) ≡ false =
      subst (λ x. int_lt x (pos r.attempts) ≡ false) e b.bounded in
    ground arith

waiting_tries :
    (cfg : Config) (m : ℕ) (r : OutboxRow)
    → cfg.max_attempts ≡ pos m
    → IsBounded cfg r
    → is_pending r ≡ true
    → r.attempts < m
waiting_tries cfg m r e b p =
    let left : not (int_lt (pos r.attempts) (pos m)) ≡ false =
      subst (λ x. not (int_lt (pos r.attempts) x) ≡ false) e (b.waiting p) in
    ground arith

times-suc : (m n : ℕ) → m * suc n ≡ m + m * n
times-suc m n = grind arith

-- Under the bound, the tries that are left are at least as many as the pending events.
tries-IsBounded :
    (cfg : Config) (m : ℕ) (rows : List OutboxRow)
    → cfg.max_attempts ≡ pos m
    → All (IsBounded cfg) rows
    → tries rows + unprocessed_count rows ≤ m * length rows
unfolding tries unprocessed_count keep
tries-IsBounded cfg m [] e all = omega arith
tries-IsBounded cfg m (r ∷ rows) e all =
    let ih = tries-IsBounded cfg m rows e all.1 in
    elim (Bool-cases (is_pending r)) [
      | inl t ↦ rw t (omega (arith, ih, waiting_tries cfg m r e all.0 t, times-suc m (length rows)))
      | inr t ↦ rw t (omega (arith, ih, most_tries cfg m r e all.0, times-suc m (length rows)))
    ]

zero_or_more : (n : ℕ) → n ≡ 0 ⊎ 0 < n
zero_or_more zero = inl refl
zero_or_more (suc n) = inr (omega arith)

module _ {World : Type 0} (cfg : Config) (worker : Worker World)
    (reorders : (l : List OutboxRow) → Perm (worker.returning l) l) (n m : ℕ)
    (size : cfg.batch_size ≡ pos (suc n)) (limit : cfg.max_attempts ≡ pos m)
    (free : (rows : List OutboxRow) → worker.locked rows ≡ []) where
  same_length :
      (rows : List OutboxRow) (distinct : HasDistinctIds rows) (world : World) (b : Batch World)
      → process_batch cfg worker rows world ≡ ok b
      → length b.rows ≡ length rows
  same_length rows distinct world b h =
      sym (length-map (λ (r : OutboxRow). r.id) b.rows)
      ∙ ap length (sym (process_batch-ids cfg worker reorders rows distinct world b h))
      ∙ length-map (λ (r : OutboxRow). r.id) rows

  batch_returns :
      (rows : List OutboxRow) (world : World) (f : ClaimError)
      → process_batch cfg worker rows world ≢ err f
  unfolding process_batch claim_outbox_batch
  batch_returns rows world f h = ground arith

  none_left :
      (k : ℕ) (rows : List OutboxRow)
      → HasDistinctIds rows
      → (world : World) → unprocessed_count rows ≡ 0
      → unprocessed_count (rows_after k cfg worker rows world) ≡ 0
  unfolding rows_after
  none_left zero rows distinct world none = none
  none_left (suc k) rows distinct world none =
      elim (Result-cases (process_batch cfg worker rows world)) [
        | inr (f, e) ↦ absurd (batch_returns rows world f e)
        | inl (b, e) ↦
            rw (e, rows_after)
              (none_left k b.rows
                (process_batch-HasDistinctIds cfg worker reorders rows distinct world b e) b.world
                (omega (
                  arith,
                  process_batch-unprocessed_count cfg worker reorders rows distinct world b e,
                )))
      ]

  -- After as many batches as there are tries left for all events, every event is processed or
  -- dead-lettered, whichever events fail: for batches of at least one event, with no new events
  -- and none locked by others, with distinct ids, from rows within the bound on the tries.
  pub unprocessed_count-rows_after :
      (k : ℕ) (rows : List OutboxRow)
      → HasDistinctIds rows
      → All (IsBounded cfg) rows
      → (world : World) → m * length rows ≤ tries rows + k
      → unprocessed_count (rows_after k cfg worker rows world) ≡ 0
  unfolding rows_after
  unprocessed_count-rows_after zero rows distinct bounded world enough =
      omega (arith, tries-IsBounded cfg m rows limit bounded)
  unprocessed_count-rows_after (suc k) rows distinct bounded world enough =
      elim (Result-cases (process_batch cfg worker rows world)) [
        | inr (f, e) ↦ absurd (batch_returns rows world f e)
        | inl (b, e) ↦
            rw (e, rows_after)
              (elim (zero_or_more (unprocessed_count rows)) [
                | inl none ↦
                    none_left k b.rows
                      (process_batch-HasDistinctIds cfg worker reorders rows distinct world b e)
                      b.world
                      (omega (
                        arith,
                        process_batch-unprocessed_count cfg worker reorders rows distinct world b e,
                      ))
                | inr some ↦
                    unprocessed_count-rows_after k b.rows
                      (process_batch-HasDistinctIds cfg worker reorders rows distinct world b e)
                      (process_batch-IsBounded cfg worker reorders rows distinct world b e bounded)
                      b.world
                      (rw (same_length rows distinct world b e) (
                        omega (
                          arith,
                          enough,
                          process_batch-tries cfg worker n rows world b size (free rows) some e,
                        )))
              ])
      ]
