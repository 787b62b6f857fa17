-- ===== src/Resolver/Facts.antt =====
-- resolver/facts.go: the facts of an employee and the attribute derived from them.
pub mod Tenure
pub mod Deriving
use wrap_policy_assignment_s.Base.{
  ℕ, zero, suc, ◌-◌, ◌*◌, ◌/◌, ◌^◌, none, some, leb, if◌then◌else◌, Result, ok, err,
}
use wrap_policy_assignment_s.Base.Int.{ℤ, pos, negsuc, int_lt}
use wrap_policy_assignment_s.Base.Text.{Text, codes}
use wrap_policy_assignment_s.Base.Map.{Map, lookup, insert}
use wrap_policy_assignment_s.Base.Date.{day_number, parse_date}
use wrap_policy_assignment_s.Resolver.Value.{Value, string, int}
use Prim.Native.Nat.{min}

pub record Facts : Type 0 where
  pub employee_id : Text
  pub as_of : Text
  pub attributes : Map Value

abbrev pub hire_date_key : Text
hire_date_key = codes "hire_date"

abbrev pub tenure_key : Text
tenure_key = codes "tenure_days"

pub data DeriveError : Type 0 where
  hire_date_not_string : Value → DeriveError
  hire_date_unparsable : Text → DeriveError

-- A day in nanoseconds, and the longest `time.Duration`.
abbrev day_length : ℕ
day_length = 86_400_000_000_000

abbrev max_duration : ℕ
max_duration = 2 ^ 63 - 1

-- `asOf.Sub(hire)` of two midnights, which stops at the longest and the shortest duration.
elapsed : ℕ → ℕ → ℤ
elapsed as_of hire =
    if leb hire as_of
    then pos (min ((as_of - hire) * day_length) max_duration)
    else negsuc (min ((hire - as_of) * day_length - 1) max_duration)

-- `int(d.Hours() / 24)`: whole days, towards 0.
whole_days : ℤ → ℤ
whole_days (pos n) = pos (n / day_length)
whole_days (negsuc n) = elim (suc n / day_length) [ zero ↦ pos 0 | suc k ↦ negsuc k ]

-- Days since `hire`, and 0 where `hire` lies ahead.
unfoldable pub tenure : ℕ → ℕ → ℤ
unfolding elapsed whole_days
tenure as_of hire =
    let days = whole_days (elapsed as_of hire) in if int_lt days (pos 0) then pos 0 else days

-- The branch where there is a hire date and no tenure.
derive_tenure : Map Value → ℕ → Value → Result DeriveError (Map Value)
derive_tenure attrs as_of (string s) = elim (parse_date s) [
  | none ↦ err (hire_date_unparsable s)
  | some hire ↦ ok (insert tenure_key (int (tenure as_of (day_number hire))) attrs)
]
derive_tenure attrs as_of raw = err (hire_date_not_string raw)

-- `DeriveAttributes`, at the number of the day `asOf`. A copy of a map is the map.
unfoldable pub derive_attributes : Map Value → ℕ → Result DeriveError (Map Value)
unfolding derive_tenure
derive_attributes attrs as_of = elim (lookup tenure_key attrs) [
  | some explicit ↦ ok attrs
  | none ↦ elim (lookup hire_date_key attrs) [
    | none ↦ ok attrs
    | some raw ↦ derive_tenure attrs as_of raw
  ]
]
