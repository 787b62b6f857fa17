-- ===== src/Resolver/Value.antt =====
-- resolver/value.go: dynamic values, their normalised comparables and the evaluation of a clause.
pub mod Complements
pub mod Dates
pub mod Kinds
use wrap_policy_assignment_s.Base.{
  Bool, true, false, not, List, [], ◌∷◌, if◌then◌else◌, Result, ok, err, ◌>>=◌,
}
use wrap_policy_assignment_s.Base.Order.{is_lt, is_eq, flip}
use wrap_policy_assignment_s.Base.Int.{ℤ, pos}
use wrap_policy_assignment_s.Base.Text.{Text, cmp_text}
use wrap_policy_assignment_s.Base.Float.{Float64, finite, float_lt, float_of_int}
use Prim.Native.Nat.{Ordering}

-- A value of Go's `any`. `other` is a value of any type that the code has no case for, with the
-- name of its type.
mutual
  pub data Value : Type 0 where
    null : Value
    float64 float32 : Float64 → Value
    int int64 int32 : ℤ → Value
    string : Text → Value
    bool : Bool → Value
    slice : Values → Value
    other : Text → Value

  -- The elements of an `[]any`.
  pub data Values : Type 0 where
    end : Values
    element : Value → Values → Values

abbrev pub elements : Values → List Value
elements end = []
elements (element v vs) = v ∷ elements vs

-- `toSlice`: nil, which a loop reads as no element, where the value is no slice.
unfoldable pub to_slice : Value → List Value
to_slice (slice vs) = elements vs
to_slice _ = []

unfoldable pub is_json_slice : Value → Bool
is_json_slice (slice vs) = true
is_json_slice _ = false

pub data Kind : Type 0 where
  kind_err kind_number kind_string kind_bool : Kind

abbrev pub kind_eq : Kind → Kind → Bool
kind_eq kind_err kind_err = true
kind_eq kind_number kind_number = true
kind_eq kind_string kind_string = true
kind_eq kind_bool kind_bool = true
kind_eq _ _ = false

pub record ComparableValue : Type 0 where
  pub kind : Kind
  pub num : Float64
  pub str : Text
  pub bl : Bool

abbrev zero_value : ComparableValue
zero_value = record { kind = kind_err; num = finite (pos 0); str = []; bl = false }

unfoldable pub normalize_comparable : Value → ComparableValue
normalize_comparable (float64 f) = record zero_value { kind = kind_number; num = f }
normalize_comparable (float32 f) = record zero_value { kind = kind_number; num = f }
normalize_comparable (int n) = record zero_value { kind = kind_number; num = float_of_int n }
normalize_comparable (int64 n) = record zero_value { kind = kind_number; num = float_of_int n }
normalize_comparable (int32 n) = record zero_value { kind = kind_number; num = float_of_int n }
normalize_comparable (string s) = record zero_value { kind = kind_string; str = s }
normalize_comparable (bool b) = record zero_value { kind = kind_bool; bl = b }
normalize_comparable _ = zero_value

pub data ClauseOp : Type 0 where
  op_eq op_ne op_in op_not_in op_gte op_gt op_lte op_lt op_contains : ClauseOp
  unknown_op : Text → ClauseOp

-- The errors of an evaluation, with what their messages print.
pub data EvalError : Type 0 where
  type_mismatch : Kind → Kind → EvalError
  uncomparable : EvalError
  not_a_list : Value → EvalError
  cannot_compare : Value → Value → EvalError
  bad_fact_value : Value → EvalError
  bad_predicate_value : Value → EvalError
  unhandled_operator : ClauseOp → EvalError

abbrev cmp_float : Float64 → Float64 → Ordering
cmp_float a b =
    if float_lt a b then Ordering.lt else if float_lt b a then Ordering.gt else Ordering.eq

abbrev pub cmp_bool : Bool → Bool → Ordering
cmp_bool false true = Ordering.lt
cmp_bool true false = Ordering.gt
cmp_bool _ _ = Ordering.eq

-- The second switch of `compare`, at values of one kind.
compare_kind : Kind → ComparableValue → ComparableValue → Result EvalError Ordering
compare_kind kind_number c o = ok (cmp_float c.num o.num)
compare_kind kind_string c o = ok (cmp_text c.str o.str)
compare_kind kind_bool c o = ok (cmp_bool c.bl o.bl)
compare_kind kind_err c o = err uncomparable

-- `compare`, a method of `comparableValue`.
unfoldable pub compare_values : ComparableValue → ComparableValue → Result EvalError Ordering
unfolding compare_kind
compare_values c o =
    if kind_eq c.kind o.kind then compare_kind c.kind c o else err (type_mismatch c.kind o.kind)

unfoldable pub equal_normalized : Value → Value → Result EvalError Bool
unfolding normalize_comparable
equal_normalized raw item =
    let ln = normalize_comparable raw in
    let rn = normalize_comparable item in
    if kind_eq ln.kind kind_err
    then err (cannot_compare raw item)
    else if kind_eq rn.kind kind_err
    then err (cannot_compare raw item)
    else do cmp ← compare_values ln rn; ok (is_eq cmp)

-- The loop of `in`: the first element equal to the fact ends it.
unfoldable pub find_item : Value → List Value → Result EvalError Bool
find_item raw [] = ok false
find_item raw (item ∷ items) =
    let rest = find_item raw items in
    do eq ← equal_normalized raw item; if eq then ok true else rest

-- The loop of `contains`, over the elements of the fact.
unfoldable pub find_in_fact : List Value → Value → Result EvalError Bool
find_in_fact [] value = ok false
find_in_fact (item ∷ items) value =
    let rest = find_in_fact items value in
    do eq ← equal_normalized item value; if eq then ok true else rest

contains_value : Value → Value → Result EvalError Bool
contains_value (slice vs) value = find_in_fact (elements vs) value
contains_value raw value = err (not_a_list raw)

-- The last switch of `evalClause`.
judge : ClauseOp → Ordering → Result EvalError Bool
judge op_eq cmp = ok (is_eq cmp)
judge op_ne cmp = ok (not (is_eq cmp))
judge op_gte cmp = ok (not (is_lt cmp))
judge op_gt cmp = ok (is_lt (flip cmp))
judge op_lte cmp = ok (not (is_lt (flip cmp)))
judge op_lt cmp = ok (is_lt cmp)
judge op cmp = err (unhandled_operator op)

compare_scalars : ClauseOp → Value → Value → Result EvalError Bool
unfolding judge normalize_comparable
compare_scalars op value raw =
    let ln = normalize_comparable raw in
    let rn = normalize_comparable value in
    if kind_eq ln.kind kind_err
    then err (bad_fact_value raw)
    else if kind_eq rn.kind kind_err
    then err (bad_predicate_value value)
    else do cmp ← compare_values ln rn; judge op cmp

-- `evalClause`, by the clause's operator and value.
unfoldable pub eval_clause : ClauseOp → Value → Value → Result EvalError Bool
unfolding contains_value compare_scalars
eval_clause op_in value raw = find_item raw (to_slice value)
eval_clause op_not_in value raw = do found ← find_item raw (to_slice value); ok (not found)
eval_clause op_contains value raw = contains_value raw value
eval_clause op value raw = compare_scalars op value raw
