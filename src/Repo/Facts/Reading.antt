-- ===== src/Repo/Facts/Reading.antt =====
-- Reading a fact that was added.
use Prim.Native.Nat.{Ordering}
use mathlib.Core.Bool.{true≢false}
use mathlib.Core.Logic.{∥∥₁_elim}
use mathlib.Core.Logic.Or
use mathlib.Core.List.{mem-append, mem-cons, mem-cons_self, not-mem-nil, exists_of_mem-map}
use mathlib.Core.List.Perm
use wrap_policy_assignment_s.Base.{
  ℕ, ◌≤◌, ◌≡◌, refl, sym, ◌∙◌, ap, subst, Bool, true, false, not, ◌&&◌, Option, some, List, [], ◌∷◌,
  ◌++◌, keep, take, Mem, inl, inr, Bool-cases, Option-cases, ok, Result-cases, arith,
}
use wrap_policy_assignment_s.Base.Int.{cmp_int, cmp_int-IsOrder}
use wrap_policy_assignment_s.Base.Order.{
  IsOrder, is_lt, lex-IsOrder, flip-IsOrder, on-IsOrder, compare-IsOrder,
}
use wrap_policy_assignment_s.Base.Text.{Text, text_eq, text_eq_iff, cmp_text-IsOrder}
use wrap_policy_assignment_s.Base.Map.{Map, lookup, insert, lookup-insert}
use wrap_policy_assignment_s.Base.Sort.{
  sort_by, sort_by-perm, sort_by-IsSorted, IsSorted, head_least,
}
use wrap_policy_assignment_s.Base.Keep.{mem-keep, keep-Pairwise, keep_none, keep_weaker}
use wrap_policy_assignment_s.Resolver.Value.{Value}
use wrap_policy_assignment_s.Resolver.Facts.{Facts}
use wrap_policy_assignment_s.Repo.Facts.{
  FactEvent, FactTable, SegmentMember, pg_date, add_fact, facts_at, new_fact, close_row,
  close_open_fact_range, covers, cmp_upper, cmp_facts, is_of_key, distinct_on_key,
  get_employee_facts_as_of, decode_facts, inject_segments, segment_attr,
}

cmp_upper-IsOrder : IsOrder cmp_upper
cmp_upper-IsOrder = record {
  flipped = λ a b. ground arith;
  trans = λ a b d h k. ground arith;
  eq_left = λ a b d h. ground arith;
}

cmp_facts-IsOrder : IsOrder cmp_facts
cmp_facts-IsOrder = lex-IsOrder (on-IsOrder (λ (r : FactEvent). r.attribute_key) cmp_text-IsOrder) (
    lex-IsOrder (flip-IsOrder (on-IsOrder (λ (r : FactEvent). r.lower) compare-IsOrder)) (
      lex-IsOrder (flip-IsOrder (on-IsOrder (λ (r : FactEvent). r.upper) cmp_upper-IsOrder))
        (flip-IsOrder (on-IsOrder (λ (r : FactEvent). r.recorded_at) cmp_int-IsOrder))))

-- Of each key `DISTINCT ON` leaves the first row.
keep-distinct_on_key :
    (key : Text) (rows : List FactEvent)
    → keep (is_of_key key) (distinct_on_key rows) ≡ take 1 (keep (is_of_key key) rows)
unfolding distinct_on_key keep
keep-distinct_on_key key [] = refl
keep-distinct_on_key key (r ∷ rows) = elim (Bool-cases (is_of_key key r)) [
  | inl h ↦ rw h (
      ap (◌∷◌ r) (
        keep_none (is_of_key key) (λ s. not (is_of_key r.attribute_key s))
          (λ s t. ground (
            arith,
            text_eq_iff r.attribute_key key,
            text_eq_iff s.attribute_key key,
            text_eq_iff s.attribute_key r.attribute_key,
          ))
          (distinct_on_key rows)))
  | inr h ↦ rw h (
      keep_weaker (is_of_key key) (λ s. not (is_of_key r.attribute_key s))
        (λ s t. ground (
          arith,
          text_eq_iff r.attribute_key key,
          text_eq_iff s.attribute_key key,
          text_eq_iff s.attribute_key r.attribute_key,
        ))
        (distinct_on_key rows)
      ∙ keep-distinct_on_key key rows)
]

module _ (decode : Text → Option Value) (key : Text) where
  decode_facts-absent :
      (rows : List FactEvent) (attrs m : Map Value)
      → keep (is_of_key key) rows ≡ []
      → decode_facts decode rows attrs ≡ ok m
      → lookup key m ≡ lookup key attrs
  unfolding decode_facts keep
  decode_facts-absent [] attrs m h e = ap (lookup key) (sym (cc e))
  decode_facts-absent (r ∷ rows) attrs m h e = elim (Option-cases (decode r.value)) [
    | inl n ↦ absurd (ground arith)
    | inr (v, s) ↦
        decode_facts-absent rows (insert r.attribute_key v attrs) m (ground arith) (ground arith)
        ∙ ground (arith, lookup-insert r.attribute_key key v attrs)
  ]

  decode_facts-single :
      (rows : List FactEvent) (attrs m : Map Value) (x : FactEvent)
      → keep (is_of_key key) rows ≡ x ∷ []
      → decode_facts decode rows attrs ≡ ok m
      → lookup key m ≡ decode x.value
  unfolding decode_facts keep
  decode_facts-single [] attrs m x h e = absurd (ground arith)
  decode_facts-single (r ∷ rows) attrs m x h e = elim (Option-cases (decode r.value)) [
    | inl n ↦ absurd (ground arith)
    | inr (v, s) ↦ elim (Bool-cases (is_of_key key r)) [
      | inl t ↦
          decode_facts-absent rows (insert r.attribute_key v attrs) m (ground arith) (ground arith)
          ∙ ground (arith, lookup-insert r.attribute_key key v attrs)
      | inr t ↦
          decode_facts-single rows (insert r.attribute_key v attrs) m x (ground arith)
            (ground arith)
    ]
  ]

pub FactEvent-set : IsSet FactEvent
FactEvent-set = hlevel

-- No fact of the employee and the key starts later than `start` and holds on the day, and those that
-- hold on it were recorded before now.
abbrev pub IsLatest : FactTable → Text → Text → ℕ → ℕ → Type 0
IsLatest t employee key start day =
    (r : FactEvent)
    → Mem r t.rows
    → text_eq r.employee_id employee ≡ true
    → text_eq r.attribute_key key ≡ true
    → covers r day ≡ true
    → (r.lower ≤ start) × (cmp_int r.recorded_at t.now ≡ Ordering.lt)

-- What the new fact and the other facts of its key say of their order.
module _ (t : FactTable) (employee key encoded trigger : Text) (start day : ℕ) where
  abbrev new : FactEvent
  new = new_fact t employee key encoded start trigger

  abbrev rows_after : List FactEvent
  rows_after = close_open_fact_range employee key start t.rows ++ new ∷ []

  close_row-covers :
      (r : FactEvent)
      → start ≤ day
      → covers (close_row employee key start r) day ≡ true
      → covers r day ≡ true
  close_row-covers r later h = ground arith

  close_row-after :
      (r : FactEvent)
      → text_eq r.employee_id employee ≡ true
      → text_eq r.attribute_key key ≡ true
      → r.lower ≤ start
      → cmp_int r.recorded_at t.now ≡ Ordering.lt
      → cmp_facts new (close_row employee key start r) ≡ Ordering.lt
  close_row-after r he hk hl hr = ground (
    arith,
    cmp_text-IsOrder.flipped r.attribute_key key,
    cmp_int-IsOrder.flipped r.recorded_at t.now,
  )

  abbrev is_seen : FactEvent → Bool
  is_seen r = text_eq r.employee_id employee && covers r day

  old_row-after :
      IsLatest t employee key start day
      → start ≤ day
      → (r : FactEvent) → Mem r t.rows
      → is_seen (close_row employee key start r) ≡ true
      → is_of_key key (close_row employee key start r) ≡ true
      → cmp_facts new (close_row employee key start r) ≡ Ordering.lt
  old_row-after latest later r listed seen named =
      let he : text_eq r.employee_id employee ≡ true = ground arith in
      let hk : text_eq r.attribute_key key ≡ true = ground arith in
      let (hl, hr) = latest r listed he hk (close_row-covers r later (ground arith)) in
      close_row-after r he hk hl hr

  not_before :
      IsLatest t employee key start day
      → start ≤ day
      → (x : FactEvent) → Mem x rows_after
      → is_seen x ≡ true
      → is_of_key key x ≡ true
      → is_lt (cmp_facts new x) ≡ false
      → x ≡ new
  unfolding close_open_fact_range
  not_before latest later x m seen named h =
      Or.elim (FactEvent-set x new) (mem-append.0 m)
        (λ m. ∥∥₁_elim (exists_of_mem-map m) (FactEvent-set x new) (λ (r, listed, e).
          let behind =
            old_row-after latest later r listed (ap is_seen e ∙ seen)
              (ap (is_of_key key) e ∙ named) in
          absurd
            (true≢false (sym (ap (λ y. is_lt (cmp_facts new y)) (sym e) ∙ ap is_lt behind) ∙ h))))
        (λ m. Or.elim (FactEvent-set x new) (mem-cons.0 m) (λ e. e) (λ m. absurd (not-mem-nil m)))

  abbrev seen_rows : List FactEvent
  seen_rows = sort_by (λ a b. is_lt (cmp_facts a b)) (keep is_seen rows_after)

  mem-seen_rows :
      {x : FactEvent}
      → Mem x (keep (is_of_key key) seen_rows)
      → Mem x rows_after × (is_seen x ≡ true) × (is_of_key key x ≡ true)
  mem-seen_rows {x} m =
      let (sorted, named) = (mem-keep (is_of_key key)).0 m in
      let (listed, seen) = (mem-keep is_seen).0 (Perm.subset (sort_by-perm _ _) x sorted) in
      (listed, seen, named)

  new-seen : start ≤ day → Mem new (keep (is_of_key key) seen_rows)
  new-seen later = (mem-keep (is_of_key key)).1 (
    Perm.subset (Perm.symm (sort_by-perm _ _)) new (
        (mem-keep is_seen).1
          (mem-append.1 (Or.inr mem-cons_self), ground (arith, text_eq_iff employee employee))),
    (text_eq_iff key key).1 refl,
  )

  first-seen :
      IsLatest t employee key start day
      → start ≤ day
      → (l : List FactEvent) → keep (is_of_key key) seen_rows ≡ l
      → take 1 l ≡ new ∷ []
  first-seen latest later [] e = absurd (not-mem-nil (subst (Mem new) e (new-seen later)))
  first-seen latest later (x ∷ l) e =
      let sorted : IsSorted cmp_facts (x ∷ l) = subst (IsSorted cmp_facts) e (
        keep-Pairwise (is_of_key key)
          (sort_by-IsSorted cmp_facts-IsOrder (keep is_seen rows_after))) in
      let (listed, seen, named) = mem-seen_rows (subst (Mem x) (sym e) mem-cons_self) in
      ap (λ y. y ∷ [])
        (not_before latest later x listed seen named
          (head_least cmp_facts-IsOrder sorted (subst (Mem new) e (new-seen later))))

add_fact_inv :
    (encode : Value → Option Text) (employee key : Text) (value : Value) (valid_from trigger : Text)
    (t t' : FactTable) (id : ℕ) (encoded : Text) (start : ℕ)
    → encode value ≡ some encoded
    → pg_date valid_from ≡ ok start
    → add_fact encode employee key value valid_from trigger t ≡ ok (t', id)
    → t'.rows
      ≡ close_open_fact_range employee key start t.rows
        ++ new_fact t employee key encoded start trigger ∷ []
unfolding add_fact
add_fact_inv encode employee key value valid_from trigger t t' id encoded start h k e = ground arith

facts_at_inv :
    (decode : Text → Option Value) (members : List SegmentMember) (employee date : Text)
    (t : FactTable) (day : ℕ) (f : Facts)
    → pg_date date ≡ ok day
    → facts_at decode members employee date t ≡ ok f
    → (attrs : Map Value) × (decode_facts decode (get_employee_facts_as_of employee day t.rows) []
        ≡ ok attrs)
      × (f.attributes ≡ inject_segments employee members attrs)
unfolding facts_at
facts_at_inv decode members employee date t day f h e =
    elim (Result-cases (decode_facts decode (get_employee_facts_as_of employee day t.rows) [])) [
      | inl (attrs, d) ↦ (attrs, d, ground arith)
      | inr (x, d) ↦ absurd (ground arith)
    ]

-- A fact that was added is read back on every date from its start on, if no other fact of the
-- employee and the attribute starts later and holds on that date, and the others were recorded
-- earlier. The value reads as it is decoded; the attribute is not the derived "segments".
pub facts_at-add_fact :
    (encode : Value → Option Text) (decode : Text → Option Value) (members : List SegmentMember)
    (employee key : Text) (value : Value) (valid_from trigger date : Text) (t t' : FactTable)
    (id : ℕ) (encoded : Text) (start day : ℕ) (f : Facts)
    → encode value ≡ some encoded
    → pg_date valid_from ≡ ok start
    → pg_date date ≡ ok day
    → start ≤ day
    → text_eq segment_attr key ≡ false
    → IsLatest t employee key start day
    → add_fact encode employee key value valid_from trigger t ≡ ok (t', id)
    → facts_at decode members employee date t' ≡ ok f
    → lookup key f.attributes ≡ decode encoded
unfolding get_employee_facts_as_of inject_segments
facts_at-add_fact encode decode members employee key value valid_from trigger date t t' id encoded
      start day f he hs hd later plain latest added seen =
    let (attrs, read, same) = facts_at_inv decode members employee date t' day f hd seen in
    let rows =
      add_fact_inv encode employee key value valid_from trigger t t' id encoded start he hs added in
    let sorted = seen_rows t employee key encoded trigger start day in
    let one =
      keep-distinct_on_key key sorted
      ∙ first-seen t employee key encoded trigger start day latest later _ refl in
    ap (lookup key) same
    ∙ lookup-insert segment_attr key _ attrs
    ∙ rw plain (
        decode_facts-single decode key (distinct_on_key sorted) [] attrs
          (new_fact t employee key encoded start trigger) one
          (ap (λ rows. decode_facts decode (get_employee_facts_as_of employee day rows) [])
              (sym rows)
            ∙ read))
