-- ===== src/Repo/Facts.antt =====
-- internal/repo/facts.go, `injectSegments` of internal/repo/segments.go and gen/db/facts.sql.go: the
-- facts of the employees with the days on which they hold. A day is the number of a date.
pub mod Others
pub mod Reading
use Prim.Native.Nat.{compare, Ordering}
use wrap_policy_assignment_s.Base.{
  ℕ, suc, Bool, true, false, not, ◌&&◌, Option, none, some, List, [], ◌∷◌, ◌++◌, map, keep, leb,
  ltb, if◌then◌else◌, Result, ok, err, ◌>>=◌, ◌>>◌, guard,
}
use wrap_policy_assignment_s.Base.Int.{ℤ, cmp_int}
use wrap_policy_assignment_s.Base.Order.{is_lt, or_else, flip}
use wrap_policy_assignment_s.Base.Text.{Text, codes, text_eq, text_lt, cmp_text}
use wrap_policy_assignment_s.Base.Date.{day_number, parse_date}
use wrap_policy_assignment_s.Base.Map.{Map, insert}
use wrap_policy_assignment_s.Base.Sort.{sort_by}
use wrap_policy_assignment_s.Resolver.Value.{Value, Values, end, element, string, slice}
use wrap_policy_assignment_s.Resolver.Facts.{Facts}

-- `FactEvent` of gen/db/models.go. The range holds from `lower` to before `upper`, or for ever.
-- `recorded_at` is an instant.
pub record FactEvent : Type 0 where
  pub id : ℕ
  pub employee_id : Text
  pub attribute_key : Text
  pub value : Text
  pub lower : ℕ
  pub upper : Option ℕ
  pub recorded_at : ℤ
  pub superseded_by : Option ℕ
  pub trigger : Text

pub data FactError : Type 0 where
  unencodable : FactError
  invalid_date : Text → FactError
  invalid_trigger : Text → FactError
  undecodable : Text → FactError

-- `pgDate`
unfoldable pub pg_date : Text → Result FactError ℕ
pg_date s = elim (parse_date s) [ none ↦ err (invalid_date s) | some d ↦ ok (day_number d) ]

abbrev is_open : Option ℕ → Bool
is_open none = true
is_open (some d) = false

-- The rows that `CloseOpenFactRange` updates.
abbrev pub is_closing : Text → Text → ℕ → FactEvent → Bool
is_closing employee key new_start r =
    text_eq r.employee_id employee
    && text_eq r.attribute_key key
    && is_open r.superseded_by
    && is_open r.upper
    && ltb r.lower new_start

abbrev pub close_row : Text → Text → ℕ → FactEvent → FactEvent
close_row employee key new_start r =
    if is_closing employee key new_start r then record r { upper = some new_start } else r

-- `CloseOpenFactRange`
unfoldable pub close_open_fact_range : Text → Text → ℕ → List FactEvent → List FactEvent
close_open_fact_range employee key new_start rows = map (close_row employee key new_start) rows

-- The constraint on the column `trigger`.
abbrev pub is_trigger : Text → Bool
is_trigger t = not (
    not (text_eq t (codes "hr_edit"))
    && not (text_eq t (codes "tenure_gate"))
    && not (text_eq t (codes "system"))
    && not (text_eq t (codes "correction")))

-- The table, the sequence of its ids, and the time of the database.
pub record FactTable : Type 0 where
  pub rows : List FactEvent
  pub next_id : ℕ
  pub now : ℤ

abbrev pub new_fact : FactTable → Text → Text → Text → ℕ → Text → FactEvent
new_fact t employee key value start trigger = record {
  id = t.next_id;
  employee_id = employee;
  attribute_key = key;
  value = value;
  lower = start;
  upper = none;
  recorded_at = t.now;
  superseded_by = none;
  trigger = trigger;
}

-- `AddFact`: the table after it, and the id. `encode` is `json.Marshal`, where `none` is its error.
-- An error leaves the rows as they were.
unfoldable pub add_fact :
    (Value → Option Text)
    → Text
    → Text
    → Value
    → Text
    → Text
    → FactTable
    → Result FactError (FactTable × ℕ)
add_fact encode employee key value valid_from trigger t = elim (encode value) [
  | none ↦ err unencodable
  | some encoded ↦ do
    start ← pg_date valid_from
    guard (is_trigger trigger) (invalid_trigger trigger)
    ok (
      record t {
        rows =
            close_open_fact_range employee key start t.rows
            ++ new_fact t employee key encoded start trigger ∷ [];
        next_id = suc t.next_id;
      },
      t.next_id,
    )
]

-- `valid_range @> day`
abbrev pub covers : FactEvent → ℕ → Bool
covers r day = leb r.lower day && elim (r.upper) [ none ↦ true | some d ↦ ltb day d ]

-- The order of ranges: by lower bound, then by upper, where no bound is the greatest.
abbrev cmp_upper : Option ℕ → Option ℕ → Ordering
cmp_upper none none = Ordering.eq
cmp_upper none (some e) = Ordering.gt
cmp_upper (some d) none = Ordering.lt
cmp_upper (some d) (some e) = compare d e

-- `ORDER BY attribute_key, valid_range DESC, recorded_at DESC`
abbrev pub cmp_facts : FactEvent → FactEvent → Ordering
cmp_facts a b = or_else (cmp_text a.attribute_key b.attribute_key) (
    or_else (flip (compare a.lower b.lower))
      (or_else (flip (cmp_upper a.upper b.upper)) (flip (cmp_int a.recorded_at b.recorded_at))))

abbrev pub is_of_key : Text → FactEvent → Bool
is_of_key key r = text_eq r.attribute_key key

-- `DISTINCT ON (attribute_key)`: the first row of each key.
unfoldable pub distinct_on_key : List FactEvent → List FactEvent
distinct_on_key [] = []
distinct_on_key (r ∷ rs) = r ∷ keep (λ s. not (is_of_key r.attribute_key s)) (distinct_on_key rs)

-- `GetEmployeeFactsAsOf`
unfoldable pub get_employee_facts_as_of : Text → ℕ → List FactEvent → List FactEvent
get_employee_facts_as_of employee day rows = distinct_on_key (
    sort_by (λ a b. is_lt (cmp_facts a b))
      (keep (λ r. text_eq r.employee_id employee && covers r day) rows))

-- The loop of `FactsAt`. `decode` is `json.Unmarshal`, where `none` is its error.
unfoldable pub decode_facts :
    (Text → Option Value) → List FactEvent → Map Value → Result FactError (Map Value)
decode_facts decode [] attrs = ok attrs
decode_facts decode (r ∷ rs) attrs = elim (decode r.value) [
  | none ↦ err (undecodable r.attribute_key)
  | some v ↦ decode_facts decode rs (insert r.attribute_key v attrs)
]

pub record SegmentMember : Type 0 where
  pub segment_id : Text
  pub employee_id : Text

-- `GetEmployeeSegments`
unfoldable pub get_employee_segments : Text → List SegmentMember → List Text
get_employee_segments employee members =
    sort_by text_lt (
      map (λ (m : SegmentMember). m.segment_id)
        (keep (λ m. text_eq m.employee_id employee) members))

abbrev pub to_values : List Text → Values
to_values [] = end
to_values (s ∷ l) = element (string s) (to_values l)

abbrev pub segment_attr : Text
segment_attr = codes "segments"

-- `injectSegments`
unfoldable pub inject_segments : Text → List SegmentMember → Map Value → Map Value
inject_segments employee members attrs =
    insert segment_attr (slice (to_values (get_employee_segments employee members))) attrs

-- `FactsAt`
unfoldable pub facts_at :
    (Text → Option Value) → List SegmentMember → Text → Text → FactTable → Result FactError Facts
facts_at decode members employee date t = do
  day ← pg_date date
  attrs ← decode_facts decode (get_employee_facts_as_of employee day t.rows) []
  ok (record {
    employee_id = employee;
    as_of = date;
    attributes = inject_segments employee members attrs;
  })
