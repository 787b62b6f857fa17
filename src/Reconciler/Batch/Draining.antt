-- ===== src/Reconciler/Batch/Draining.antt =====
-- The queue gets shorter by what a batch settles, so that `drain` ends.
use mathlib.Core.Logic.Or
use mathlib.Core.List.{
  Pairwise, mem-cons, mem-cons_self, mem-cons_of_mem, mem-map_of_mem, not-mem-nil,
}
use wrap_policy_assignment_s.Base.{
  ℕ, zero, suc, ◌+◌, ◌<◌, ◌≡◌, ◌≢◌, refl, sym, ◌∙◌, ap, subst, Bool, true, false, ◌&&◌, ◌==◌,
  ==_iff, List, [], ◌∷◌, map, keep, Mem, Perm, inl, inr, Bool-cases, ok, Result-cases, Pairs-map,
  Pairs-map_eq, arith,
}
use wrap_policy_assignment_s.Base.Keys.{HasDistinct-keys}
use wrap_policy_assignment_s.Repo.Outbox.{
  OutboxRow, is_pending, unprocessed_count, mark_row, dead_letter_row, mark_processed, dead_letter,
  claim, claimable,
}
use wrap_policy_assignment_s.Repo.Outbox.Claims.{
  HasDistinctIds, attempts-HasDistinctIds, mem-claim, claim-HasDistinctIds, claim-is_pending,
  unprocessed_count-attempt,
}
use wrap_policy_assignment_s.Reconciler.Batch.{
  Config, Worker, Batch, out_of_fuel, is_exhausted, settle, process_events, process_batch, drain,
  start,
}
use wrap_policy_assignment_s.Reconciler.Batch.Advance.{process_batch_inv}
use wrap_policy_assignment_s.Reconciler.Batch.Bounds.{process_batch-HasDistinctIds}

-- What `settle` does to the rows when it settles the event.
abbrev retire : Bool → ℕ → OutboxRow → OutboxRow
retire true id = mark_row id
retire false id = dead_letter_row id

retire-other : (how : Bool) (id : ℕ) (r : OutboxRow) → (r.id == id) ≡ false → retire how id r ≡ r
retire-other true id r h = ground arith
retire-other false id r h = ground arith

retire-is_pending :
    (how : Bool) (id : ℕ) (r : OutboxRow)
    → (r.id == id) ≡ true
    → is_pending (retire how id r) ≡ false
retire-is_pending true id r h = ground arith
retire-is_pending false id r h = ground arith

apart_test : (i j : ℕ) → i ≢ j → (j == i) ≡ false
apart_test i j h = ground arith

count_others :
    (how : Bool) (id : ℕ) (rows : List OutboxRow)
    → ((r : OutboxRow) → Mem r rows → id ≢ r.id)
    → unprocessed_count (map (retire how id) rows) ≡ unprocessed_count rows
unfolding unprocessed_count keep
count_others how id [] h = refl
count_others how id (r ∷ rows) h = ground (
  arith,
  retire-other how id r (apart_test id r.id (h r mem-cons_self)),
  count_others how id rows (λ x m. h x (mem-cons_of_mem r m)),
)

count_prop : (i j : ℕ) → IsProp (i ≡ j)
count_prop i j = hlevel

-- Retiring a pending event takes one off the count.
count-retire :
    (how : Bool) (rows : List OutboxRow) (ev : OutboxRow)
    → HasDistinctIds rows
    → Mem ev rows
    → is_pending ev ≡ true
    → unprocessed_count rows ≡ suc (unprocessed_count (map (retire how ev.id) rows))
unfolding unprocessed_count keep
count-retire how [] ev distinct m p = absurd (not-mem-nil m)
count-retire how (r ∷ rows) ev (Pairwise.cons first distinct) m p =
    Or.elim (count_prop _ _) (mem-cons.0 m)
      (λ e.
        let here : is_pending r ≡ true = ap is_pending (sym e) ∙ p in
        let gone =
          retire-is_pending how ev.id r
            ((==_iff r.id ev.id).1 (ap (λ (x : OutboxRow). x.id) (sym e))) in
        let others =
          count_others how ev.id rows
            (λ x mx h. first x mx (ap (λ (x : OutboxRow). x.id) (sym e) ∙ h)) in
        rw (here, gone) (ap suc (sym others)))
      (λ m.
        let apart = retire-other how ev.id r (apart_test ev.id r.id (λ h. first ev m (sym h))) in
        let ih = count-retire how rows ev distinct m p in
        elim (Bool-cases (is_pending r)) [
          | inl t ↦ rw (apart, t) (ap suc ih)
          | inr t ↦ rw (apart, t) ih
        ])

-- The rest of the events is still pending in the table.
abbrev IsQueued : List OutboxRow → List OutboxRow → Type 0
IsQueued rows evs = (ev : OutboxRow) → Mem ev evs → Mem ev rows × (is_pending ev ≡ true)

retire-id : (how : Bool) (id : ℕ) (r : OutboxRow) → r.id ≡ (retire how id r).id
retire-id true id r = ground arith
retire-id false id r = ground arith

retire-HasDistinctIds :
    (how : Bool) (id : ℕ) (rows : List OutboxRow)
    → HasDistinctIds rows
    → HasDistinctIds (map (retire how id) rows)
retire-HasDistinctIds how id rows =
    HasDistinct-keys (λ (r : OutboxRow). r.id) (λ (r : OutboxRow). r.id)
      (Pairs-map_eq (λ (r r' : OutboxRow). r.id ≡ r'.id) (λ (r : OutboxRow). r.id) (λ r r' h. h)
        rows (map (retire how id) rows)
        (Pairs-map (λ (r r' : OutboxRow). r.id ≡ r'.id) (retire how id) rows
          (λ r m. retire-id how id r)))

retire-IsQueued :
    (how : Bool) (ev : OutboxRow) (rows evs : List OutboxRow)
    → ((e : OutboxRow) → Mem e evs → ev.id ≢ e.id)
    → IsQueued rows (ev ∷ evs)
    → IsQueued (map (retire how ev.id) rows) evs
retire-IsQueued how ev rows evs first q e m =
    let (listed, p) = q e (mem-cons_of_mem ev m) in
    (
      subst (λ x. Mem x (map (retire how ev.id) rows))
          (retire-other how ev.id e (apart_test ev.id e.id (first e m)))
          (mem-map_of_mem (retire how ev.id) listed),
      p,
    )

module _ {World : Type 0} (cfg : Config) (worker : Worker World) where
  abbrev remaining : Batch World → ℕ
  remaining b = unprocessed_count b.rows + b.processed + b.dead

  record Keeps (evs : List OutboxRow) (b b' : Batch World) : Type 0 where
    distinct : HasDistinctIds b'.rows
    queued : IsQueued b'.rows evs
    same : remaining b' ≡ remaining b

  settle-Keeps :
      (ev : OutboxRow) (evs : List OutboxRow) (b : Batch World) (w : World) (done : Bool)
      → ((e : OutboxRow) → Mem e evs → ev.id ≢ e.id)
      → HasDistinctIds b.rows
      → IsQueued b.rows (ev ∷ evs)
      → Keeps evs b (settle cfg ev (w, done) b)
  unfolding settle mark_processed dead_letter
  settle-Keeps ev evs b w true first d q = record {
    distinct = retire-HasDistinctIds true ev.id b.rows d;
    queued = retire-IsQueued true ev b.rows evs first q;
    same =
        omega (arith, count-retire true b.rows ev d (q ev mem-cons_self).0 (q ev mem-cons_self).1);
  }
  settle-Keeps ev evs b w false first d q = elim (Bool-cases (is_exhausted cfg ev)) [
    | inl h ↦ rw h (record {
      distinct = retire-HasDistinctIds false ev.id b.rows d;
      queued = retire-IsQueued false ev b.rows evs first q;
      same =
          omega
            (arith, count-retire false b.rows ev d (q ev mem-cons_self).0 (q ev mem-cons_self).1);
    })
    | inr h ↦
        rw h (record { distinct = d; queued = λ e m. q e (mem-cons_of_mem ev m); same = refl })
  ]

  -- The loop moves an event from the queue to a count, or leaves both.
  process_events-remaining :
      (evs : List OutboxRow) (b : Batch World)
      → HasDistinctIds evs
      → HasDistinctIds b.rows
      → IsQueued b.rows evs
      → remaining (process_events cfg worker evs b) ≡ remaining b
  unfolding process_events
  process_events-remaining [] b de d q = refl
  process_events-remaining (ev ∷ evs) b (Pairwise.cons first de) d q =
      let (w, done) = worker.handle ev b.world in
      let k = settle-Keeps ev evs b w done first d q in
      process_events-remaining evs (settle cfg ev (w, done) b) de k.distinct k.queued ∙ k.same

-- A batch shortens the queue by exactly the events that it counts as processed or dead-lettered,
-- in whichever order the database returns the claimed rows, for distinct ids.
pub process_batch-unprocessed_count :
    {World : Type 0} (cfg : Config) (worker : Worker World)
    → ((l : List OutboxRow) → Perm (worker.returning l) l)
    → (rows : List OutboxRow) → HasDistinctIds rows
    → (world : World) (b : Batch World) → process_batch cfg worker rows world ≡ ok b
    → unprocessed_count b.rows + b.processed + b.dead ≡ unprocessed_count rows
unfolding claim
process_batch-unprocessed_count cfg worker reorders rows distinct world b h =
    let (limit, size, e) = process_batch_inv cfg worker rows world h in
    let locked = worker.locked rows in
    let ret = worker.returning in
    subst
      (λ (b : Batch _). unprocessed_count b.rows + b.processed + b.dead ≡ unprocessed_count rows) e
      (process_events-remaining cfg worker (claim ret limit locked rows).1
          (start world (claim ret limit locked rows).0)
          (claim-HasDistinctIds ret reorders limit locked rows distinct)
          (attempts-HasDistinctIds (claimable limit locked rows) distinct)
          (λ ev m. (
            ((mem-claim ret reorders limit locked rows).0 m).0,
            claim-is_pending ret reorders limit locked rows distinct ev m,
          ))
        ∙ (omega (arith, unprocessed_count-attempt (claimable limit locked rows) rows)))

module _ {World : Type 0} (cfg : Config) (worker : Worker World)
    (reorders : (l : List OutboxRow) → Perm (worker.returning l) l) where
  -- `drain` ends after fewer batches than the queue had events, plus one: with more fuel than events
  -- it does not run out. The ids are distinct.
  pub drain-ne-out_of_fuel :
      (fuel total : ℕ) (rows : List OutboxRow)
      → HasDistinctIds rows
      → (world : World) → unprocessed_count rows < fuel
      → (drain fuel cfg worker total rows world).0 ≢ out_of_fuel
  unfolding drain
  drain-ne-out_of_fuel zero total rows distinct world enough h = absurd (omega arith)
  drain-ne-out_of_fuel (suc fuel) total rows distinct world enough h =
      elim (Result-cases (process_batch cfg worker rows world)) [
        | inr (e, stopped) ↦ ground arith
        | inl (b, e) ↦
            let shrinks =
              process_batch-unprocessed_count cfg worker reorders rows distinct world b e in
            let d = process_batch-HasDistinctIds cfg worker reorders rows distinct world b e in
            elim (Bool-cases (b.processed == 0 && b.dead == 0)) [
              | inl t ↦ ground arith
              | inr t ↦
                  drain-ne-out_of_fuel fuel (total + b.processed) b.rows d b.world (ground arith)
                    (ground arith)
            ]
      ]
