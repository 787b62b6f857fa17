-- ===== src/Base/Date/Order.antt =====
-- Dates in the order of their days.
use Prim.Native.Nat.{compare, Ordering}
use wrap_policy_assignment_s.Base.Order.{or_else}
use Prim.Native.Nat.{ℕ, zero, suc, ◌+◌, ◌-◌, ◌*◌, ◌≤◌, ◌<◌}
use mathlib.Core.Path.{◌≡◌, subst}
use mathlib.Core.Logic.{inl, inr}
use native.Mathlib.Omega.{arith}
use wrap_policy_assignment_s.Base.Tests.{if◌then◌else◌, Bool-cases}
use wrap_policy_assignment_s.Base.Date.{
  Date, day_number, is_leap, year_start, month_start, leap_day, days_in,
}

year_start-step :
    (y z : ℕ) → y < z → year_start y + 365 + (if is_leap y then 1 else 0) ≤ year_start z
year_start-step y z h = elim (Bool-cases (is_leap y)) [
  | inl t ↦ ground arith
  | inr t ↦ ground arith
]

abbrev before_month : ℕ → ℕ → ℕ
before_month y m = month_start m + leap_day y m

month_start-suc : (m : ℕ) → month_start m ≤ month_start (m + 1)
month_start-suc m = ground arith

leap_day-suc : (y m : ℕ) → leap_day y m ≤ leap_day y (m + 1)
leap_day-suc y m = ground arith

before_month-add : (y m k : ℕ) → before_month y m ≤ before_month y (m + k)
before_month-add y m zero =
    subst (λ i. before_month y m ≤ before_month y i) (padded m) (omega arith)
  where
    padded : (m : ℕ) → m ≡ m + 0
    padded m = omega arith
before_month-add y m (suc k) =
    subst (λ i. before_month y m ≤ before_month y i) (moved m k)
      (omega (arith, before_month-add y m k, month_start-suc (m + k), leap_day-suc y (m + k)))
  where
    moved : (m k : ℕ) → m + k + 1 ≡ m + suc k
    moved m k = omega arith

month_step : (y m n : ℕ) → m < n → before_month y m + days_in y m ≤ before_month y n
unfolding days_in
month_step y m n h = omega (
  arith,
  month_start-suc m,
  leap_day-suc y m,
  subst (λ i. before_month y (m + 1) ≤ before_month y i) (at n h)
      (before_month-add y (m + 1) (n - (m + 1))),
)
  where
    at : (n : ℕ) → m < n → m + 1 + (n - (m + 1)) ≡ n
    at n h = omega arith

year_length : (y : ℕ) → before_month y 13 ≡ 365 + (if is_leap y then 1 else 0)
year_length y = ground arith

-- A day of a month that the year has.
pub record IsDay (d : Date) : Type 0 where
  pub month : (1 ≤ d.month) × (d.month ≤ 12)
  pub day : (1 ≤ d.day) × (d.day ≤ days_in d.year d.month)

abbrev pub cmp_date : Date → Date → Ordering
cmp_date d e =
    or_else (compare d.year e.year) (or_else (compare d.month e.month) (compare d.day e.day))

-- In a year, and past it.
within :
    (d : Date)
    → IsDay d
    → before_month d.year d.month + d.day ≤ 365 + (if is_leap d.year then 1 else 0)
within d v =
    omega
      (arith, v.day.1, month_step d.year d.month 13 (omega (arith, v.month.1)), year_length d.year)

year_before : (d e : Date) → IsDay d → IsDay e → d.year < e.year → day_number d < day_number e
unfolding day_number
year_before d e v w h = omega (arith, within d v, w.day.0, year_start-step d.year e.year h)

month_before :
    (d e : Date)
    → IsDay d
    → IsDay e
    → d.year ≡ e.year
    → d.month < e.month
    → day_number d < day_number e
unfolding day_number
month_before d e v w s h =
    subst
      (λ y.
        year_start d.year + month_start d.month + leap_day d.year d.month + d.day
        < year_start y + month_start e.month + leap_day y e.month + e.day)
      s (omega (arith, v.day.1, w.day.0, month_step d.year d.month e.month h))

same_month :
    (d e : Date) → d.year ≡ e.year → d.month ≡ e.month → day_number d + e.day ≡ day_number e + d.day
unfolding day_number
same_month d e y m =
    subst
      (λ i.
        day_number d + e.day
        ≡ year_start i + month_start e.month + leap_day i e.month + e.day + d.day)
      y
      (subst
        (λ j.
          day_number d + e.day
          ≡ year_start d.year + month_start j + leap_day d.year j + e.day + d.day)
        m (omega arith))

-- Dates compare as their days do.
pub cmp_date_lem :
    (d e : Date) → IsDay d → IsDay e → cmp_date d e ≡ compare (day_number d) (day_number e)
cmp_date_lem d e v w = ground (
  arith,
  year_before d e v w,
  year_before e d w v,
  month_before d e v w,
  month_before e d w v,
  same_month d e,
)

-- The digits of two numbers compare as the numbers do.
pub digits_step :
    (m n a b : ℕ)
    → a < 10
    → b < 10
    → or_else (compare m n) (compare a b) ≡ compare (m * 10 + a) (n * 10 + b)
digits_step m n a b h k = ground arith
