-- ===== src/Repo/Outbox/Claims.antt =====
-- Which rows `ClaimOutboxBatch` claims.
use mathlib.Core.Logic.{∥∥₁_elim}
use mathlib.Core.Logic.Or
use mathlib.Core.Bool.{Bool-set}
use mathlib.Core.List.{
  mem-cons, mem-cons_self, mem-cons_of_mem, mem-cast, exists_of_mem-map, not-mem-nil, Mem-prop,
}
use mathlib.Core.List.Perm
use mathlib.Core.List.Pairwise
use mathlib.Core.Logic.Iff
use wrap_policy_assignment_s.Base.{
  keep, ap, refl, ℕ, zero, suc, ◌≡◌, sym, ◌∙◌, subst, ◌↔◌, true, not, ◌&&◌, ◌==◌, ==_iff, ltb, List,
  [], ◌∷◌, map, take, length, length-map, ◌≤◌, Mem, Perm, inl, inr, Bool-cases, arith,
}
use wrap_policy_assignment_s.Base.Sort.{sort_by-perm}
use wrap_policy_assignment_s.Base.Keep.{mem-keep}
use wrap_policy_assignment_s.Base.Keys.{
  HasDistinct, HasDistinct-inj, HasDistinct-map, HasDistinct-perm, HasDistinct-keep,
}
use wrap_policy_assignment_s.Repo.Outbox.{
  OutboxRow, mem_id, is_pending, claimable, attempt, claim, unprocessed_count,
}

abbrev pub ids : List OutboxRow → List ℕ
ids = map (λ r. r.id)

-- The ids are the primary key of the table.
abbrev pub HasDistinctIds : List OutboxRow → Type 0
HasDistinctIds = HasDistinct (λ r. r.id)

pub OutboxRow-set : IsSet OutboxRow
OutboxRow-set = hlevel

pub mem_of_mem_id : (i : ℕ) (l : List ℕ) → mem_id i l ≡ true → Mem i l
unfolding mem_id
mem_of_mem_id i [] h = absurd (ground arith)
mem_of_mem_id i (j ∷ l) h = elim (Bool-cases (j == i)) [
  | inl e ↦ subst (λ k. Mem k (j ∷ l)) ((==_iff j i).0 e) mem-cons_self
  | inr e ↦ mem-cons_of_mem j (mem_of_mem_id i l (ground arith))
]

pub mem_id_of_mem : (i : ℕ) (l : List ℕ) → Mem i l → mem_id i l ≡ true
unfolding mem_id
mem_id_of_mem i [] m = absurd (not-mem-nil m)
mem_id_of_mem i (j ∷ l) m =
    Or.elim (Bool-set (mem_id i (j ∷ l)) true) (mem-cons.0 m) (λ e. ground arith)
      (λ m. ground (arith, mem_id_of_mem i l m))

mem-take {ℓ} : {A : Type ℓ} (n : ℕ) (l : List A) {x : A} → Mem x (take n l) → Mem x l
mem-take zero l m = absurd (not-mem-nil m)
mem-take (suc n) [] m = m
mem-take (suc n) (y ∷ l) {x} m =
    Or.elim Mem-prop (mem-cons.0 m) (λ e. mem-cast e mem-cons_self)
      (λ m. mem-cons_of_mem y (mem-take n l m))

-- A claimed row is pending.
length-take {ℓ} : {A : Type ℓ} (n : ℕ) (l : List A) → length (take n l) ≤ n
length-take zero l = omega arith
length-take (suc n) [] = omega arith
length-take (suc n) (x ∷ l) = omega (arith, length-take n l)

-- The query returns no more rows than its limit.
pub length-claimable :
    (n : ℕ) (locked : List ℕ) (rows : List OutboxRow) → length (claimable n locked rows) ≤ n
unfolding claimable
length-claimable n locked rows = rw (length-map (λ (r : OutboxRow). r.id) _) (length-take n _)

pub claimable-is_pending :
    (n : ℕ) (locked : List ℕ) {rows : List OutboxRow}
    → HasDistinctIds rows
    → (r : OutboxRow) → Mem r rows
    → mem_id r.id (claimable n locked rows) ≡ true
    → is_pending r ≡ true
unfolding claimable
claimable-is_pending n locked {rows} distinct r m h =
    ∥∥₁_elim (exists_of_mem-map (mem_of_mem_id r.id (claimable n locked rows) h))
      (Bool-set (is_pending r) true)
      (λ (s, taken, e).
        let (listed, test) =
          (mem-keep (λ (r : OutboxRow). is_pending r && not (mem_id r.id locked))).0 (
            Perm.subset (sort_by-perm (λ (a b : OutboxRow). ltb a.id b.id) _) s
              (mem-take n _ taken)) in
        let same =
          HasDistinct-inj (λ (r : OutboxRow). r.id) OutboxRow-set distinct s r listed m e in
        subst (λ x. is_pending x ≡ true) same (ground arith))

attempt-id : (claimed : List ℕ) (r : OutboxRow) → (attempt claimed r).id ≡ r.id
attempt-id claimed r = ground arith

pub attempts-HasDistinctIds :
    (claimed : List ℕ) {rows : List OutboxRow}
    → HasDistinctIds rows
    → HasDistinctIds (map (attempt claimed) rows)
attempts-HasDistinctIds claimed distinct =
    HasDistinct-map (λ (r : OutboxRow). r.id) (attempt claimed)
      (Pairwise.imp (λ a b h e. h (sym (attempt-id claimed a) ∙ e ∙ attempt-id claimed b)) distinct)

module _ (returning : List OutboxRow → List OutboxRow)
    (reorders : (l : List OutboxRow) → Perm (returning l) l) (limit : ℕ) (locked : List ℕ)
    (rows : List OutboxRow) where
  -- The claimed rows are those of the claimed ids, with their attempts counted up.
  pub mem-claim :
      {ev : OutboxRow}
      → Mem ev (claim returning limit locked rows).1 ↔ (
          Mem ev (map (attempt (claimable limit locked rows)) rows)
          × (mem_id ev.id (claimable limit locked rows) ≡ true))
  unfolding claim
  mem-claim =
      Iff.trans (Perm.mem_iff (reorders _))
        (mem-keep (λ (r : OutboxRow). mem_id r.id (claimable limit locked rows)))

  pub claim-HasDistinctIds :
      HasDistinctIds rows → HasDistinctIds (claim returning limit locked rows).1
  unfolding claim
  claim-HasDistinctIds distinct =
      HasDistinct-perm (λ (r : OutboxRow). r.id) (reorders _)
        (HasDistinct-keep (λ (r : OutboxRow). r.id) (λ r. mem_id r.id (claimable limit locked rows))
          (attempts-HasDistinctIds (claimable limit locked rows) distinct))

attempt-is_pending :
    (claimed : List ℕ) (r : OutboxRow) → is_pending (attempt claimed r) ≡ is_pending r
attempt-is_pending claimed r = ground arith

-- Claiming takes no row off the queue.
pub unprocessed_count-attempt :
    (claimed : List ℕ) (rows : List OutboxRow)
    → unprocessed_count (map (attempt claimed) rows) ≡ unprocessed_count rows
unfolding unprocessed_count keep
unprocessed_count-attempt claimed [] = refl
unprocessed_count-attempt claimed (r ∷ rows) =
    ground (arith, attempt-is_pending claimed r, unprocessed_count-attempt claimed rows)

pub claim-is_pending :
    (returning : List OutboxRow → List OutboxRow)
    (reorders : (l : List OutboxRow) → Perm (returning l) l) (limit : ℕ) (locked : List ℕ)
    (rows : List OutboxRow)
    → HasDistinctIds rows
    → (ev : OutboxRow) → Mem ev (claim returning limit locked rows).1
    → is_pending ev ≡ true
claim-is_pending returning reorders limit locked rows distinct ev m =
    let (listed, claimed) = (mem-claim returning reorders limit locked rows).0 m in
    ∥∥₁_elim (exists_of_mem-map listed) (Bool-set (is_pending ev) true) (λ (r, given, e).
      ap is_pending (sym e)
      ∙ attempt-is_pending (claimable limit locked rows) r
      ∙ claimable-is_pending limit locked distinct r given (
          ap (λ i. mem_id i (claimable limit locked rows))
            (sym (attempt-id (claimable limit locked rows) r) ∙ ap (λ (x : OutboxRow). x.id) e)
          ∙ claimed))
