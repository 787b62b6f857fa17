-- ===== src/Base/Date.antt =====
-- `time.Parse("2006-01-02", s)`: four digits, two digits, two digits, a month of the year and a day
-- of that month. A parsed date is an instant at midnight UTC, here the number of its day since
-- the day before 1 January of year 0.
pub mod Order
pub mod Iso
use Prim.Native.Nat.{ℕ, ◌+◌, ◌-◌, ◌*◌, ◌/◌, ◌%◌}
use mathlib.Core.Bool.{Bool, true, false, not, ◌&&◌, ◌||◌}
use mathlib.Core.Option.{Option, none, some}
use mathlib.Core.List.{[], ◌∷◌}
use wrap_policy_assignment_s.Base.Tests.{leb, ◌==◌, if◌then◌else◌}
use wrap_policy_assignment_s.Base.Text.{Text}

abbrev pub is_digit : ℕ → Bool
is_digit c = leb b'0' c && leb c b'9'

abbrev digit : ℕ → ℕ
digit c = c - b'0'

pub record Date : Type 0 where
  pub year : ℕ
  pub month : ℕ
  pub day : ℕ

abbrev pub is_leap : ℕ → Bool
is_leap y = y % 4 == 0 && (not (y % 100 == 0) || y % 400 == 0)

-- The days of a year before its month `m`, in a year that is not a leap year.
abbrev pub month_start : ℕ → ℕ
month_start m =
    if leb m 1
    then 0
    else if leb m 2
    then 31
    else if leb m 3
    then 59
    else if leb m 4
    then 90
    else if leb m 5
    then 120
    else if leb m 6
    then 151
    else if leb m 7
    then 181
    else if leb m 8
    then 212
    else if leb m 9
    then 243
    else if leb m 10
    then 273
    else if leb m 11
    then 304
    else if leb m 12
    then 334
    else 365

abbrev pub leap_day : ℕ → ℕ → ℕ
leap_day y m = if is_leap y && leb 3 m then 1 else 0

pub days_in : ℕ → ℕ → ℕ
days_in y m = month_start (m + 1) + leap_day y (m + 1) - (month_start m + leap_day y m)

-- The days before 1 January of year `y`.
abbrev pub year_start : ℕ → ℕ
year_start y = 365 * y + (y + 3) / 4 + (y + 399) / 400 - (y + 99) / 100

unfoldable pub day_number : Date → ℕ
day_number d = year_start d.year + month_start d.month + leap_day d.year d.month + d.day

valid_date : Date → Option Date
unfolding days_in
valid_date d =
    if leb 1 d.month && leb d.month 12 && leb 1 d.day && leb d.day (days_in d.year d.month)
    then some d
    else none

unfoldable pub parse_date : Text → Option Date
unfolding valid_date
parse_date (a ∷ b ∷ c ∷ d ∷ h ∷ e ∷ f ∷ i ∷ g ∷ j ∷ []) =
    if is_digit a
      && is_digit b
      && is_digit c
      && is_digit d
      && h == b'-'
      && is_digit e
      && is_digit f
      && i == b'-'
      && is_digit g
      && is_digit j
    then valid_date (record {
      year = digit a * 1000 + digit b * 100 + digit c * 10 + digit d;
      month = digit e * 10 + digit f;
      day = digit g * 10 + digit j;
    })
    else none
parse_date _ = none

-- `isValidDate` of resolver/value.go.
unfoldable pub is_valid_date : Text → Bool
is_valid_date s = elim (parse_date s) [ none ↦ false | some d ↦ true ]
