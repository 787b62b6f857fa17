-- ===== src/Reconciler/Batch/Progress.antt =====
-- A batch tries an event when there is one, so that no event waits for ever.
use mathlib.Core.Logic.Or
use mathlib.Core.List.{mem-cons, mem-cons_self, mem-map_of_mem, not-mem-nil}
use mathlib.Core.List.Perm
use native.Mathlib.Bridge.{le_prop}
use wrap_policy_assignment_s.Base.{
  ℕ, suc, ◌+◌, ◌≤◌, ◌<◌, ◌≡◌, refl, sym, ◌∙◌, ap, subst, Bool, true, false, not, ◌&&◌, ltb, List,
  [], ◌∷◌, map, keep, take, length, Mem, Perm, ok, arith,
}
use wrap_policy_assignment_s.Base.Int.{pos}
use wrap_policy_assignment_s.Base.Sort.{sort_by, sort_by-perm}
use wrap_policy_assignment_s.Base.Keep.{mem-keep}
use wrap_policy_assignment_s.Repo.Outbox.{
  OutboxRow, mem_id, is_pending, attempt, claimable, claim, unprocessed_count,
}
use wrap_policy_assignment_s.Repo.Outbox.Claims.{mem_id_of_mem}
use wrap_policy_assignment_s.Reconciler.Batch.{Config, Worker, Batch, process_batch, start}
use wrap_policy_assignment_s.Reconciler.Batch.Settling.{settled, settle_row, process_events-rows}
use wrap_policy_assignment_s.Reconciler.Batch.Advance.{process_batch_inv}

-- The tries of all events.
unfoldable pub tries : List OutboxRow → ℕ
tries [] = 0
tries (r ∷ rows) = r.attempts + tries rows

tries-map :
    (f : OutboxRow → OutboxRow)
    → ((r : OutboxRow) → (f r).attempts ≡ r.attempts)
    → (rows : List OutboxRow) → tries (map f rows) ≡ tries rows
unfolding tries
tries-map f same [] = refl
tries-map f same (r ∷ rows) = omega (arith, same r, tries-map f same rows)

settle_row-attempts :
    (cfg : Config) (ev : OutboxRow) (done : Bool) (r : OutboxRow)
    → (settle_row cfg ev done r).attempts ≡ r.attempts
settle_row-attempts cfg ev true r = ground arith
settle_row-attempts cfg ev false r = ground arith

settled-attempts :
    {World : Type 0} (cfg : Config) (worker : Worker World) (evs : List OutboxRow) (w : World)
    (r : OutboxRow)
    → (settled cfg worker evs w r).attempts ≡ r.attempts
unfolding settled
settled-attempts cfg worker [] w r = refl
settled-attempts cfg worker (ev ∷ evs) w r =
    let (w', done) = worker.handle ev w in
    settled-attempts cfg worker evs w' (settle_row cfg ev done r)
    ∙ settle_row-attempts cfg ev done r

tries-attempt_le :
    (claimed : List ℕ) (rows : List OutboxRow) → tries rows ≤ tries (map (attempt claimed) rows)
unfolding tries
tries-attempt_le claimed [] = omega arith
tries-attempt_le claimed (r ∷ rows) = ground (arith, tries-attempt_le claimed rows)

-- Trying a row of the table adds to the tries.
tries-attempt_lt :
    (claimed : List ℕ) (rows : List OutboxRow) (r : OutboxRow)
    → Mem r rows
    → mem_id r.id claimed ≡ true
    → tries rows < tries (map (attempt claimed) rows)
unfolding tries
tries-attempt_lt claimed [] r m h = absurd (not-mem-nil m)
tries-attempt_lt claimed (x ∷ rows) r m h =
    Or.elim le_prop (mem-cons.0 m)
      (λ e.
        let named : mem_id x.id claimed ≡ true =
          ap (λ (y : OutboxRow). mem_id y.id claimed) (sym e) ∙ h in
        ground (arith, tries-attempt_le claimed rows))
      (λ m. ground (arith, tries-attempt_lt claimed rows r m h))

pos_inj : (a b : ℕ) → pos a ≡ pos b → a ≡ b
pos_inj a b h = cc

keep_unlocked :
    (rows : List OutboxRow)
    → keep (λ r. is_pending r && not (mem_id r.id [])) rows ≡ keep is_pending rows
unfolding keep mem_id
keep_unlocked [] = refl
keep_unlocked (r ∷ rows) = ground (arith, keep_unlocked rows)

-- A list of which a member passes a test is not empty, and `LIMIT` keeps its head.
first_claimed :
    (n : ℕ) (rows l : List OutboxRow)
    → Perm l (keep (λ r. is_pending r && not (mem_id r.id [])) rows)
    → 0 < unprocessed_count rows
    → (r : OutboxRow) × Mem r rows
      × (mem_id r.id (map (λ (r : OutboxRow). r.id) (take (suc n) l)) ≡ true)
unfolding unprocessed_count
first_claimed n rows [] p h =
    absurd (ground (arith, ap length (Perm.nil-eq p ∙ keep_unlocked rows)))
first_claimed n rows (r ∷ l) p h = (
  r,
  ((mem-keep (λ (r : OutboxRow). is_pending r && not (mem_id r.id []))).0
      (Perm.subset p r mem-cons_self)).0,
  mem_id_of_mem r.id _ (mem-map_of_mem (λ (r : OutboxRow). r.id) {a = r} mem-cons_self),
)

-- A batch with room for an event, while no other worker holds one, tries at least one event when
-- one is pending.
pub process_batch-tries :
    {World : Type 0} (cfg : Config) (worker : Worker World) (n : ℕ) (rows : List OutboxRow)
    (world : World) (b : Batch World)
    → cfg.batch_size ≡ pos (suc n)
    → worker.locked rows ≡ []
    → 0 < unprocessed_count rows
    → process_batch cfg worker rows world ≡ ok b
    → tries rows < tries b.rows
unfolding claim claimable
process_batch-tries cfg worker n rows world b size free waits h =
    let (limit, same, e) = process_batch_inv cfg worker rows world h in
    let sized : limit ≡ suc n = pos_inj limit (suc n) (sym same ∙ size) in
    let claimed = claimable limit (worker.locked rows) rows in
    let evs = (claim worker.returning limit (worker.locked rows) rows).1 in
    let (r, m, named) =
      first_claimed n rows
        (sort_by (λ (a b : OutboxRow). ltb a.id b.id)
          (keep (λ r. is_pending r && not (mem_id r.id [])) rows))
        (sort_by-perm _ _) waits in
    let tried : mem_id r.id claimed ≡ true =
      subst (λ l. mem_id r.id (claimable limit l rows) ≡ true) (sym free)
        (subst (λ i. mem_id r.id (claimable i [] rows) ≡ true) (sym sized) named) in
    subst (λ (b : Batch _). tries rows < tries b.rows) e
      (subst (λ l. tries rows < tries l)
        (sym (process_events-rows cfg worker evs (start world (map (attempt claimed) rows))))
        (subst (λ k. tries rows < k)
          (sym (
            tries-map (settled cfg worker evs world) (settled-attempts cfg worker evs world)
              (map (attempt claimed) rows)))
          (tries-attempt_lt claimed rows r m tried)))
