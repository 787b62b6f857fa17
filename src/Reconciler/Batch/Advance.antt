-- ===== src/Reconciler/Batch/Advance.antt =====
-- What a batch makes of each row of the outbox.
use mathlib.Core.Logic.{∥∥₁_elim}
use mathlib.Core.Bool.{Bool-set, true≢false}
use mathlib.Core.List.{map-map, mem-map_of_mem, exists_of_mem-map}
use wrap_policy_assignment_s.Base.{
  ℕ, suc, ◌≡◌, refl, sym, ◌∙◌, ap, subst, Bool, true, false, List, map, Mem, Perm, inl, inr,
  Bool-cases, Pairs, Pairs-map, length, ◌≤◌, ok, map_ok,
}
use wrap_policy_assignment_s.Base.Int.{ℤ, pos, negsuc}
use wrap_policy_assignment_s.Base.Keys.{HasDistinct-inj}
use wrap_policy_assignment_s.Repo.Outbox.{
  OutboxRow, mem_id, is_pending, attempt, claimable, claim, claim_outbox_batch,
}
use wrap_policy_assignment_s.Repo.Outbox.Claims.{
  ids, HasDistinctIds, OutboxRow-set, mem_id_of_mem, mem_of_mem_id, claimable-is_pending, mem-claim,
  claim-HasDistinctIds, length-claimable,
}
use wrap_policy_assignment_s.Reconciler.Batch.{
  Config, Worker, Batch, process_events, process_batch, start,
}
use wrap_policy_assignment_s.Reconciler.Batch.Settling.{
  Settled, Handled, settled, process_events-rows, settled-other, settled-Settled,
}

abbrev pub tried : OutboxRow → OutboxRow
tried r = record r { attempts = suc r.attempts }

module _ {World : Type 0} (cfg : Config) (worker : Worker World) (limit : ℕ) (locked : List ℕ)
    (rows : List OutboxRow) (world : World) where
  abbrev events : List OutboxRow
  events = (claim worker.returning limit locked rows).1

  -- A row that the batch does not claim is left alone. One that it claims is pending; it is tried
  -- once more, handled in its turn, and settled as that has ended.
  pub data Advances (r : OutboxRow) : OutboxRow → Type 0 where
    untouched : mem_id r.id (claimable limit locked rows) ≡ false → Advances r r
    settles :
        {r' : OutboxRow} {done : Bool}
        → mem_id r.id (claimable limit locked rows) ≡ true
        → is_pending r ≡ true
        → Handled worker events world (tried r) done
        → Settled cfg (tried r) done r'
        → Advances r r'

module _ {World : Type 0} (cfg : Config) (worker : Worker World)
    (reorders : (l : List OutboxRow) → Perm (worker.returning l) l) (limit : ℕ) (locked : List ℕ)
    {rows : List OutboxRow} (distinct : HasDistinctIds rows) (world : World) where
  abbrev claimed : List OutboxRow
  claimed = (claim worker.returning limit locked rows).1

  abbrev advanced : OutboxRow → OutboxRow
  advanced r = settled cfg worker claimed world (attempt (claimable limit locked rows) r)

  not_claimed :
      (r : OutboxRow)
      → mem_id r.id (claimable limit locked rows) ≡ false
      → mem_id r.id (ids claimed) ≡ false
  not_claimed r h = elim (Bool-cases (mem_id r.id (ids claimed))) [
    | inr e ↦ e
    | inl e ↦
        ∥∥₁_elim (exists_of_mem-map (mem_of_mem_id r.id (ids claimed) e)) (Bool-set _ _)
          (λ (ev, listed, same).
            let picked = ((mem-claim worker.returning reorders limit locked rows).0 listed).1 in
            absurd
              (true≢false (sym picked ∙ ap (λ i. mem_id i (claimable limit locked rows)) same ∙ h)))
  ]

  advanced-Advances :
      (r : OutboxRow) → Mem r rows → Advances cfg worker limit locked rows world r (advanced r)
  advanced-Advances r m = elim (Bool-cases (mem_id r.id (claimable limit locked rows))) [
    | inl h ↦
        let same : attempt (claimable limit locked rows) r ≡ tried r = rw h refl in
        let listed = (mem-claim worker.returning reorders limit locked rows).1 (
          subst (λ x. Mem x (map (attempt (claimable limit locked rows)) rows)) same
              (mem-map_of_mem (attempt (claimable limit locked rows)) m),
          h,
        ) in
        let (done, handled, once) =
          settled-Settled cfg worker claimed world (tried r)
            (claim-HasDistinctIds worker.returning reorders limit locked rows distinct)
            (λ ev mev e.
              HasDistinct-inj (λ (r : OutboxRow). r.id) OutboxRow-set
                (claim-HasDistinctIds worker.returning reorders limit locked rows distinct) ev
                (tried r) mev listed e)
            (mem_id_of_mem r.id (ids claimed) (mem-map_of_mem (λ (r : OutboxRow). r.id) listed)) in
        settles h (claimable-is_pending limit locked distinct r m h) handled (
          subst (λ x. Settled cfg (tried r) done (settled cfg worker claimed world x)) (sym same)
            once)
    | inr h ↦
        let same : attempt (claimable limit locked rows) r ≡ r = rw h refl in
        subst (Advances cfg worker limit locked rows world r)
          (sym (
            ap (settled cfg worker claimed world) same
            ∙ settled-other cfg worker claimed world r (not_claimed r h)))
          (untouched h)
  ]

  advanced_rows :
      Pairs
        (Advances cfg worker limit locked rows world)
        rows
        (process_events cfg worker claimed
          (start world (map (attempt (claimable limit locked rows)) rows))).rows
  advanced_rows =
      subst (Pairs (Advances cfg worker limit locked rows world) rows)
        (sym (
          process_events-rows cfg worker claimed
            (start world (map (attempt (claimable limit locked rows)) rows))
          ∙ map-map (settled cfg worker claimed world) (attempt (claimable limit locked rows))
              rows))
        (Pairs-map (Advances cfg worker limit locked rows world) advanced rows advanced-Advances)

claim_inv :
    {B : Type 0} (returning : List OutboxRow → List OutboxRow) (locked : List ℕ)
    (rows : List OutboxRow) (next : List OutboxRow × List OutboxRow → B) (size : ℤ) {b : B}
    → map_ok next (claim_outbox_batch returning size locked rows) ≡ ok b
    → (limit : ℕ) × (size ≡ pos limit) × (next (claim returning limit locked rows) ≡ b)
unfolding claim_outbox_batch
claim_inv returning locked rows next (pos limit) h = (limit, refl, cc h)
claim_inv returning locked rows next (negsuc n) h = absurd (cc h)

-- A batch that returns has a limit that is not negative.
pub process_batch_inv :
    {World : Type 0} (cfg : Config) (worker : Worker World) (rows : List OutboxRow) (world : World)
    {b : Batch World}
    → process_batch cfg worker rows world ≡ ok b
    → (limit : ℕ) × (cfg.batch_size ≡ pos limit)
      × (process_events cfg worker
            (claim worker.returning limit (worker.locked rows) rows).1
            (start world (claim worker.returning limit (worker.locked rows) rows).0)
          ≡ b)
unfolding process_batch
process_batch_inv cfg worker rows world h =
    claim_inv worker.returning (worker.locked rows) rows
      (λ (updated, events). process_events cfg worker events (start world updated)) cfg.batch_size h

-- A batch claims at most as many rows as the batch size, and leaves the others alone. Each claimed
-- row is pending and tried once more. It is handled in its turn, on what the events before it have
-- made of the other tables, and settled once: processed when handling it returned no error, else
-- dead-lettered when its tries are used up, and left for the next batch when they are not. This
-- holds in whichever order the database returns the claimed rows, for distinct ids.
pub process_batch-Advances :
    {World : Type 0} (cfg : Config) (worker : Worker World)
    → ((l : List OutboxRow) → Perm (worker.returning l) l)
    → (rows : List OutboxRow) → HasDistinctIds rows
    → (world : World) (b : Batch World) → process_batch cfg worker rows world ≡ ok b
    → (limit : ℕ) × (cfg.batch_size ≡ pos limit)
      × (length (claimable limit (worker.locked rows) rows) ≤ limit)
      × Pairs (Advances cfg worker limit (worker.locked rows) rows world) rows b.rows
unfolding claim
process_batch-Advances cfg worker reorders rows distinct world b h =
    let (limit, size, e) = process_batch_inv cfg worker rows world h in
    (
      limit,
      size,
      length-claimable limit (worker.locked rows) rows,
      subst
          (λ (b : Batch _).
            Pairs (Advances cfg worker limit (worker.locked rows) rows world) rows b.rows)
          e (advanced_rows cfg worker reorders limit (worker.locked rows) distinct world),
    )
