-- ===== src/Repo/Outbox/Reclaiming.antt =====
-- A claim takes no row off the queue: until an event is settled, the next claim returns it again.
use wrap_policy_assignment_s.Base.{
  ℕ, zero, suc, ◌≡◌, refl, ap, not, ◌&&◌, ltb, List, [], ◌∷◌, map, keep, take, arith,
}
use wrap_policy_assignment_s.Base.Sort.{sort_by, sort_by-map}
use wrap_policy_assignment_s.Repo.Outbox.{OutboxRow, mem_id, is_pending, claimable, attempt, claim}

keep-attempt :
    (claimed locked : List ℕ) (rows : List OutboxRow)
    → keep (λ r. is_pending r && not (mem_id r.id locked)) (map (attempt claimed) rows)
      ≡ map (attempt claimed) (keep (λ r. is_pending r && not (mem_id r.id locked)) rows)
unfolding keep
keep-attempt claimed locked [] = refl
keep-attempt claimed locked (r ∷ rows) = ground (arith, keep-attempt claimed locked rows)

take-map {ℓ κ} :
    {A : Type ℓ} {B : Type κ} (f : A → B) (n : ℕ) (l : List A) → take n (map f l) ≡ map f (take n l)
take-map f zero l = refl
take-map f (suc n) [] = refl
take-map f (suc n) (x ∷ l) = ap (◌∷◌ (f x)) (take-map f n l)

ids_attempt :
    (claimed : List ℕ) (rows : List OutboxRow)
    → map (λ (r : OutboxRow). r.id) (map (attempt claimed) rows)
      ≡ map (λ (r : OutboxRow). r.id) rows
ids_attempt claimed [] = refl
ids_attempt claimed (r ∷ rows) = ground (arith, ids_attempt claimed rows)

-- A claim with the same limit and the same rows locked by others, right after a claim and before
-- any of its events is settled, claims the same events again.
pub claim-again :
    (returning : List OutboxRow → List OutboxRow) (limit : ℕ) (locked : List ℕ)
    (rows : List OutboxRow)
    → claimable limit locked (claim returning limit locked rows).0 ≡ claimable limit locked rows
unfolding claim claimable
claim-again returning limit locked rows =
    let claimed = claimable limit locked rows in
    rw
      (
        keep-attempt claimed locked rows,
        sort_by-map (λ (a b : OutboxRow). ltb a.id b.id) (attempt claimed) (λ a b. ground arith)
            (keep (λ r. is_pending r && not (mem_id r.id locked)) rows),
        take-map (attempt claimed) limit (
            sort_by (λ (a b : OutboxRow). ltb a.id b.id)
              (keep (λ r. is_pending r && not (mem_id r.id locked)) rows)),
      )
      (ids_attempt claimed _)
