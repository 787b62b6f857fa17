-- ===== src/Reconciler/Batch/Settling.antt =====
-- The loop of `ProcessBatch`, seen from one row of the outbox.
use mathlib.Core.Bool.{true≢false}
use mathlib.Core.List.{Pairwise, map-map, mem-cons_self, mem-cons_of_mem}
use wrap_policy_assignment_s.Base.{
  ◌≡◌, ◌≢◌, refl, sym, ◌∙◌, ap, subst, Bool, true, false, ◌==◌, ==_iff, List, [], ◌∷◌, map, Mem,
  inl, inr, Bool-cases, if◌then◌else◌, arith,
}
use wrap_policy_assignment_s.Repo.Outbox.{
  OutboxRow, mem_id, mark_row, mark_processed, dead_letter_row, dead_letter,
}
use wrap_policy_assignment_s.Repo.Outbox.Claims.{ids, HasDistinctIds}
use wrap_policy_assignment_s.Reconciler.Batch.{
  Config, Worker, Batch, is_exhausted, settle, process_events,
}

-- What `settle` does to a row.
abbrev pub settle_row : Config → OutboxRow → Bool → OutboxRow → OutboxRow
settle_row cfg ev true = mark_row ev.id
settle_row cfg ev false = if is_exhausted cfg ev then dead_letter_row ev.id else λ r. r

-- What became of a claimed row, by whether handling it returned no error and whether its attempts
-- are used up.
pub data Settled (cfg : Config) (r : OutboxRow) : Bool → OutboxRow → Type 0 where
  kept : is_exhausted cfg r ≡ false → Settled cfg r false r
  finished : Settled cfg r true (record r { is_processed = true })
  buried : is_exhausted cfg r ≡ true → Settled cfg r false (record r { dead_lettered = true })

-- The events are handled in turn, each on what the ones before it have made of the other tables: an
-- event among them, with whether handling it returned no error.
pub data Handled {World : Type 0} (worker : Worker World)
    : List OutboxRow → World → OutboxRow → Bool → Type 0 where
  here :
      (ev : OutboxRow) (evs : List OutboxRow) (w : World)
      → Handled worker (ev ∷ evs) w ev (worker.handle ev w).1
  later :
      (ev : OutboxRow) (evs : List OutboxRow) (w : World) {r : OutboxRow} {done : Bool}
      → Handled worker evs (worker.handle ev w).0 r done
      → Handled worker (ev ∷ evs) w r done

map_same : (l : List OutboxRow) → map (λ r. r) l ≡ l
map_same [] = refl
map_same (x ∷ xs) = ap (◌∷◌ x) (map_same xs)

module _ {World : Type 0} (cfg : Config) where
  settle_rows :
      (ev : OutboxRow) (w : World) (done : Bool) (b : Batch World)
      → (settle cfg ev (w, done) b).rows ≡ map (settle_row cfg ev done) b.rows
  unfolding settle mark_processed dead_letter
  settle_rows ev w true b = refl
  settle_rows ev w false b = elim (Bool-cases (is_exhausted cfg ev)) [
    | inl h ↦ rw h refl
    | inr h ↦ rw h (sym (map_same b.rows))
  ]

  settle_world :
      (ev : OutboxRow) (w : World) (done : Bool) (b : Batch World)
      → (settle cfg ev (w, done) b).world ≡ w
  unfolding settle
  settle_world ev w true b = refl
  settle_world ev w false b = elim (Bool-cases (is_exhausted cfg ev)) [
    | inl h ↦ rw h refl
    | inr h ↦ rw h refl
  ]

  module _ (worker : Worker World) where
    -- What the loop does to a row.
    unfoldable pub settled : List OutboxRow → World → OutboxRow → OutboxRow
    settled [] w r = r
    settled (ev ∷ evs) w r =
        let (w', done) = worker.handle ev w in settled evs w' (settle_row cfg ev done r)

    pub process_events-rows :
        (evs : List OutboxRow) (b : Batch World)
        → (process_events cfg worker evs b).rows ≡ map (settled evs b.world) b.rows
    unfolding process_events settled
    process_events-rows [] b = sym (map_same b.rows)
    process_events-rows (ev ∷ evs) b =
        let (w, done) = worker.handle ev b.world in
        process_events-rows evs (settle cfg ev (w, done) b)
        ∙ rw (settle_rows ev w done b, settle_world ev w done b)
            (map-map (settled evs w) (settle_row cfg ev done) b.rows)

    same_row :
        (ev : OutboxRow) (done : Bool) (r : OutboxRow)
        → (ev.id == r.id) ≡ false
        → settle_row cfg ev done r ≡ r
    same_row ev true r h = ground arith
    same_row ev false r h = ground arith

    -- A row that is not among the events stays as it is.
    pub settled-other :
        (evs : List OutboxRow) (w : World) (r : OutboxRow)
        → mem_id r.id (ids evs) ≡ false
        → settled evs w r ≡ r
    unfolding settled mem_id
    settled-other [] w r h = refl
    settled-other (ev ∷ evs) w r h =
        let (w', done) = worker.handle ev w in
        ap (settled evs w') (same_row ev done r (ground arith))
        ∙ settled-other evs w' r (ground arith)

    settle_row-id :
        (ev : OutboxRow) (done : Bool) (r : OutboxRow) → (settle_row cfg ev done r).id ≡ r.id
    settle_row-id ev true r = ground arith
    settle_row-id ev false r = ground arith

    settle_row-Settled :
        (r : OutboxRow) (done : Bool) → Settled cfg r done (settle_row cfg r done r)
    settle_row-Settled r true = rw ((==_iff r.id r.id).1 refl) finished
    settle_row-Settled r false = elim (Bool-cases (is_exhausted cfg r)) [
      | inl h ↦ rw (h, (==_iff r.id r.id).1 refl) (buried h)
      | inr h ↦ rw h (kept h)
    ]

    head_gone :
        (ev : OutboxRow) (evs : List OutboxRow)
        → ((e : OutboxRow) → Mem e evs → ev.id ≢ e.id)
        → mem_id ev.id (ids evs) ≡ false
    unfolding mem_id
    head_gone ev [] h = refl
    head_gone ev (e ∷ evs) h =
        ground (arith, h e mem-cons_self, head_gone ev evs (λ x m. h x (mem-cons_of_mem e m)))

    settled_first :
        (evs : List OutboxRow) (w : World) (r : OutboxRow)
        → mem_id r.id (ids evs) ≡ false
        → (done : Bool) × Handled worker (r ∷ evs) w r done
          × Settled cfg r done (settled (r ∷ evs) w r)
    unfolding settled
    settled_first evs w r gone =
        let (w', done) = worker.handle r w in
        (
          done,
          here r evs w,
          subst (Settled cfg r done)
              (sym (
                settled-other evs w' (settle_row cfg r done r)
                  (subst (λ i. mem_id i (ids evs) ≡ false) (sym (settle_row-id r done r)) gone)))
              (settle_row-Settled r done),
        )

    -- A row that is among the events is settled once, as handling it has ended.
    pub settled-Settled :
        (evs : List OutboxRow) (w : World) (r : OutboxRow)
        → HasDistinctIds evs
        → ((ev : OutboxRow) → Mem ev evs → ev.id ≡ r.id → ev ≡ r)
        → mem_id r.id (ids evs) ≡ true
        → (done : Bool) × Handled worker evs w r done × Settled cfg r done (settled evs w r)
    unfolding settled mem_id
    settled-Settled [] w r d same h = absurd (true≢false (sym h))
    settled-Settled (ev ∷ evs) w r (Pairwise.cons first d) same h =
        let (w', done) = worker.handle ev w in
        elim (Bool-cases (ev.id == r.id)) [
          | inl e ↦
              let this = same ev mem-cons_self ((==_iff ev.id r.id).0 e) in
              subst
                (λ x.
                  (done : Bool) × Handled worker (x ∷ evs) w r done
                  × Settled cfg r done (settled (x ∷ evs) w r))
                (sym this)
                (settled_first evs w r
                  (subst (λ x. mem_id x.id (ids evs) ≡ false) this (head_gone ev evs first)))
          | inr e ↦
              let (done', handled, once) =
                settled-Settled evs w' r d (λ x m. same x (mem-cons_of_mem ev m)) (ground arith) in
              (
                done',
                later ev evs w handled,
                subst (λ x. Settled cfg r done' (settled evs w' x)) (sym (same_row ev done r e))
                    once,
              )
        ]
