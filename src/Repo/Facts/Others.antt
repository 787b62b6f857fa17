-- ===== src/Repo/Facts/Others.antt =====
-- What `AddFact` leaves of the facts of other employees.
use wrap_policy_assignment_s.Base.{
  ℕ, ◌≡◌, refl, ap, true, false, ◌&&◌, Option, List, [], ◌∷◌, ◌++◌, keep, inl, inr, Bool-cases, ◌∙◌,
  Option-cases, Result-cases, ok, arith,
}
use wrap_policy_assignment_s.Base.Text.{Text, text_eq, text_eq_iff}
use wrap_policy_assignment_s.Base.Sort.{sort_by}
use wrap_policy_assignment_s.Base.Order.{is_lt}
use wrap_policy_assignment_s.Resolver.Value.{Value}
use wrap_policy_assignment_s.Repo.Facts.{
  FactEvent, FactTable, SegmentMember, pg_date, add_fact, facts_at, new_fact, close_row,
  close_open_fact_range, covers, cmp_facts, distinct_on_key, get_employee_facts_as_of,
}

close_row-other :
    (employee key other : Text) (start day : ℕ) (r : FactEvent)
    → text_eq employee other ≡ false
    → text_eq r.employee_id other ≡ true
    → close_row employee key start r ≡ r
close_row-other employee key other start day r apart of = ground (
  arith,
  text_eq_iff r.employee_id employee,
  text_eq_iff r.employee_id other,
  text_eq_iff employee other,
)

close_row-employee :
    (employee key : Text) (start : ℕ) (r : FactEvent)
    → (close_row employee key start r).employee_id ≡ r.employee_id
close_row-employee employee key start r = ground arith

keep-added :
    (t : FactTable) (employee key encoded trigger other : Text) (start day : ℕ)
    → text_eq employee other ≡ false
    → (rows : List FactEvent)
    → keep
        (λ (r : FactEvent). text_eq r.employee_id other && covers r day)
        (close_open_fact_range employee key start rows
          ++ new_fact t employee key encoded start trigger ∷ [])
      ≡ keep (λ (r : FactEvent). text_eq r.employee_id other && covers r day) rows
unfolding keep close_open_fact_range
keep-added t employee key encoded trigger other start day apart [] = rw apart refl
keep-added t employee key encoded trigger other start day apart (r ∷ rows) =
    let ih = keep-added t employee key encoded trigger other start day apart rows in
    elim (Bool-cases (text_eq r.employee_id other)) [
      | inl h ↦ rw (close_row-other employee key other start day r apart h) (ground (arith, ih))
      | inr h ↦
          let closed : text_eq (close_row employee key start r).employee_id other ≡ false =
            ap (λ e. text_eq e other) (close_row-employee employee key start r) ∙ h in
          rw (closed, h) ih
    ]

get_employee_facts_as_of-added :
    (t : FactTable) (employee key encoded trigger other : Text) (start day : ℕ)
    → text_eq employee other ≡ false
    → (rows : List FactEvent)
    → get_employee_facts_as_of other day (
        close_open_fact_range employee key start rows
        ++ new_fact t employee key encoded start trigger ∷ [])
      ≡ get_employee_facts_as_of other day rows
unfolding get_employee_facts_as_of
get_employee_facts_as_of-added t employee key encoded trigger other start day apart rows =
    ap (λ l. distinct_on_key (sort_by (λ a b. is_lt (cmp_facts a b)) l))
      (keep-added t employee key encoded trigger other start day apart rows)

facts_at-eq :
    (decode : Text → Option Value) (members : List SegmentMember) (other date : Text)
    (t t' : FactTable)
    → ((day : ℕ)
        → get_employee_facts_as_of other day t'.rows ≡ get_employee_facts_as_of other day t.rows)
    → facts_at decode members other date t' ≡ facts_at decode members other date t
unfolding facts_at
facts_at-eq decode members other date t t' same = elim (Result-cases (pg_date date)) [
  | inl (day, d) ↦ rw (d, same day) refl
  | inr (e, d) ↦ rw d refl
]

added_rows :
    (encode : Value → Option Text) (employee key : Text) (value : Value) (valid_from trigger : Text)
    (t t' : FactTable) (id : ℕ)
    → add_fact encode employee key value valid_from trigger t ≡ ok (t', id)
    → (encoded : Text) × (start : ℕ) × (t'.rows
        ≡ close_open_fact_range employee key start t.rows
          ++ new_fact t employee key encoded start trigger ∷ [])
unfolding add_fact
added_rows encode employee key value valid_from trigger t t' id h =
    elim (Option-cases (encode value)) [
      | inl n ↦ absurd (ground arith)
      | inr (encoded, e) ↦ elim (Result-cases (pg_date valid_from)) [
        | inl (start, d) ↦ (encoded, start, ground arith)
        | inr (x, d) ↦ absurd (ground arith)
      ]
    ]

-- A fact that is added changes nothing that is read of another employee, on any date, an error
-- included.
pub facts_at-add_fact_other :
    (encode : Value → Option Text) (decode : Text → Option Value) (members : List SegmentMember)
    (employee other key : Text) (value : Value) (valid_from trigger date : Text) (t t' : FactTable)
    (id : ℕ)
    → text_eq employee other ≡ false
    → add_fact encode employee key value valid_from trigger t ≡ ok (t', id)
    → facts_at decode members other date t' ≡ facts_at decode members other date t
facts_at-add_fact_other encode decode members employee other key value valid_from trigger date t t'
      id apart added =
    let (encoded, start, rows) =
      added_rows encode employee key value valid_from trigger t t' id added in
    facts_at-eq decode members other date t t' (λ day.
      ap (get_employee_facts_as_of other day) rows
      ∙ get_employee_facts_as_of-added t employee key encoded trigger other start day apart t.rows)
