-- ===== src/Repo/Tests.antt =====
-- Facts of one employee, added and read.
pub mod Projecting
pub mod Registering
use Prim.Native.Nat.{Ordering}
use mathlib.Core.List.{not-mem-nil, mem-cons}
use mathlib.Core.Logic.Or
use wrap_policy_assignment_s.Base.{
  ℕ, ◌≤◌, ◌≡◌, refl, sym, subst, false, Option, none, some, [], ◌∷◌, ok, err, Result, arith, keep,
}
use wrap_policy_assignment_s.Base.Int.{ℤ, pos, cmp_int}
use wrap_policy_assignment_s.Base.Text.{Text, codes, text_eq, cmp_text}
use wrap_policy_assignment_s.Base.Map.{lookup, insert}
use wrap_policy_assignment_s.Base.Sort.{sort_by}
use wrap_policy_assignment_s.Base.Date.{day_number, parse_date}
use wrap_policy_assignment_s.Resolver.Value.{Value, string}
use wrap_policy_assignment_s.Resolver.Facts.{Facts}
use wrap_policy_assignment_s.Repo.Facts.{
  FactEvent, FactTable, FactError, pg_date, add_fact, facts_at, close_open_fact_range,
  distinct_on_key, get_employee_facts_as_of, decode_facts, inject_segments, get_employee_segments,
}
use wrap_policy_assignment_s.Repo.Facts.Others.{facts_at-add_fact_other}
use wrap_policy_assignment_s.Repo.Facts.Reading.{IsLatest, FactEvent-set, facts_at-add_fact}

-- A codec of strings.
abbrev encode : Value → Option Text
encode (string s) = some s
encode _ = none

abbrev decode : Text → Option Value
decode s = some (string s)

abbrev table_of : FactTable → Result FactError (FactTable × ℕ) → FactTable
table_of t (ok (t', id)) = t'
table_of t (err e) = t

abbrev facts_of : Result FactError Facts → Facts
facts_of (ok f) = f
facts_of (err e) = record { employee_id = []; as_of = []; attributes = [] }

-- A department from a date on, recorded at an instant.
abbrev move : Text → Text → ℤ → FactTable → FactTable
move dept from now t = table_of t (
    add_fact encode (codes "e1") (codes "dept") (string dept) from (codes "hr_edit")
      (record t { now = now }))

abbrev read : Text → FactTable → Option Value
read date t = lookup (codes "dept") (facts_of (facts_at decode [] (codes "e1") date t)).attributes

abbrev hired : FactTable
hired =
    move (codes "eng") (codes "2024-01-01") (pos 0) (record { rows = []; next_id = 1; now = pos 0 })

-- A move to another department, and then a correction of the first one.
abbrev corrected : FactTable
corrected =
    move (codes "ops") (codes "2024-01-01") (pos 2)
      (move (codes "law") (codes "2024-01-10") (pos 1) hired)

correction_reads : read (codes "2024-01-03") corrected ≡ some (string (codes "ops"))
unfolding add_fact lookup facts_at pg_date parse_date decode_facts get_employee_facts_as_of
    distinct_on_key sort_by keep cmp_text close_open_fact_range day_number inject_segments insert
correction_reads = refl

-- A later fact undoes the correction for a date before that fact.
correction_lost :
    read (codes "2024-01-03") (move (codes "hr") (codes "2024-01-05") (pos 3) corrected)
    ≡ some (string (codes "eng"))
unfolding add_fact lookup facts_at pg_date parse_date decode_facts get_employee_facts_as_of
    distinct_on_key sort_by keep cmp_text close_open_fact_range day_number inject_segments insert
correction_lost = refl

abbrev before : FactEvent
before = record {
  id = 1;
  employee_id = codes "e1";
  attribute_key = codes "dept";
  value = codes "eng";
  lower = 739000;
  upper = none;
  recorded_at = pos 0;
  superseded_by = none;
  trigger = codes "hr_edit";
}

abbrev table : FactTable
table = record { rows = before ∷ []; next_id = 2; now = pos 1 }

abbrev table_after : FactTable
table_after = table_of table (
    add_fact encode (codes "e1") (codes "dept") (string (codes "ops")) (codes "2026-02-01")
      (codes "hr_edit") table)

added :
    add_fact encode
      (codes "e1")
      (codes "dept")
      (string (codes "ops"))
      (codes "2026-02-01")
      (codes "hr_edit")
      table
    ≡ ok (table_after, 2)
unfolding add_fact lookup facts_at pg_date parse_date decode_facts get_employee_facts_as_of
    distinct_on_key sort_by keep cmp_text close_open_fact_range day_number inject_segments insert
    get_employee_segments
added = refl

abbrev facts_then : Facts
facts_then = facts_of (facts_at decode [] (codes "e1") (codes "2026-02-05") table_after)

seen : facts_at decode [] (codes "e1") (codes "2026-02-05") table_after ≡ ok facts_then
unfolding add_fact lookup facts_at pg_date parse_date decode_facts get_employee_facts_as_of
    distinct_on_key sort_by keep cmp_text close_open_fact_range day_number inject_segments insert
    get_employee_segments
seen = refl

dates : (pg_date (codes "2026-02-01") ≡ ok 740014) × (pg_date (codes "2026-02-05") ≡ ok 740018)
unfolding pg_date parse_date day_number
dates = (refl, refl)

latest : IsLatest table (codes "e1") (codes "dept") 740014 740018
latest r m he hk hc =
    let same =
      Or.elim (FactEvent-set r before) (mem-cons.0 m) (λ e. e) (λ m. absurd (not-mem-nil m)) in
    subst (λ (r : FactEvent). (r.lower ≤ 740014) × (cmp_int r.recorded_at (pos 1) ≡ Ordering.lt))
      (sym same) (omega arith, refl)

other_key : text_eq (codes "segments") (codes "dept") ≡ false
unfolding cmp_text
other_key = refl

facts_at-add_fact_example :
    lookup (codes "dept") facts_then.attributes ≡ some (string (codes "ops"))
facts_at-add_fact_example =
    facts_at-add_fact encode decode [] (codes "e1") (codes "dept") (string (codes "ops"))
      (codes "2026-02-01") (codes "hr_edit") (codes "2026-02-05") table table_after 2 (codes "ops")
      740014 740018 facts_then refl dates.0 dates.1 (omega arith) other_key latest added seen

-- A second employee with a fact from the same day on.
abbrev table_two : FactTable
table_two = record table { rows = before ∷ record before { employee_id = codes "e2" } ∷ [] }

abbrev two_after : FactTable
two_after = table_of table_two (
    add_fact encode (codes "e1") (codes "dept") (string (codes "ops")) (codes "2026-02-01")
      (codes "hr_edit") table_two)

added_two :
    add_fact encode
      (codes "e1")
      (codes "dept")
      (string (codes "ops"))
      (codes "2026-02-01")
      (codes "hr_edit")
      table_two
    ≡ ok (two_after, 2)
unfolding add_fact pg_date parse_date close_open_fact_range day_number cmp_text
added_two = refl

apart : text_eq (codes "e1") (codes "e2") ≡ false
unfolding cmp_text
apart = refl

facts_at-add_fact_other_example :
    facts_at decode [] (codes "e2") (codes "2026-02-05") two_after
    ≡ facts_at decode [] (codes "e2") (codes "2026-02-05") table_two
facts_at-add_fact_other_example =
    facts_at-add_fact_other encode decode [] (codes "e1") (codes "e2") (codes "dept")
      (string (codes "ops")) (codes "2026-02-01") (codes "hr_edit") (codes "2026-02-05") table_two
      two_after 2 apart added_two
