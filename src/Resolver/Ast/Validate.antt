-- ===== src/Resolver/Ast/Validate.antt =====
-- resolver/ast.go: the check of a predicate against the registry of attributes.
pub mod Soundness
pub mod Members
use wrap_policy_assignment_s.Base.{
  ℕ, suc, Bool, true, false, not, ◌&&◌, ◌||◌, none, some, List, [], ◌∷◌, if◌then◌else◌, Result, ok,
  ◌>>◌, guard, wrap,
}
use wrap_policy_assignment_s.Base.Text.{Text, text_eq}
use wrap_policy_assignment_s.Base.Map.{Map, lookup}
use wrap_policy_assignment_s.Base.Date.{is_valid_date}
use wrap_policy_assignment_s.Resolver.Value.{
  Value, float64, float32, int, int64, int32, string, bool, to_slice, ClauseOp, op_eq, op_ne, op_in,
  op_not_in, op_gte, op_gt, op_lte, op_lt, op_contains, unknown_op,
}
use wrap_policy_assignment_s.Resolver.Ast.{Clause, Predicate, is_membership}

pub data ValueType : Type 0 where
  type_string type_number type_date type_bool type_enum : ValueType
  other_type : Text → ValueType

-- `AttributeDefinition` of resolver/facts.go; its description is never read.
pub record AttributeDefinition : Type 0 where
  pub key : Text
  pub value_type : ValueType
  pub allowed_ops : List ClauseOp
  pub enum_values : List Text

abbrev pub op_eqb : ClauseOp → ClauseOp → Bool
op_eqb op_eq op_eq = true
op_eqb op_ne op_ne = true
op_eqb op_in op_in = true
op_eqb op_not_in op_not_in = true
op_eqb op_gte op_gte = true
op_eqb op_gt op_gt = true
op_eqb op_lte op_lte = true
op_eqb op_lt op_lt = true
op_eqb op_contains op_contains = true
op_eqb (unknown_op a) (unknown_op b) = text_eq a b
op_eqb _ _ = false

unfoldable pub contains_op : List ClauseOp → ClauseOp → Bool
contains_op [] op = false
contains_op (o ∷ ops) op = op_eqb o op || contains_op ops op

-- `toNumber`, as far as its error is read.
unfoldable pub is_number : Value → Bool
is_number (float64 _) = true
is_number (float32 _) = true
is_number (int _) = true
is_number (int64 _) = true
is_number (int32 _) = true
is_number _ = false

unfoldable pub is_date : Value → Bool
is_date (string s) = is_valid_date s
is_date _ = false

unfoldable pub is_bool : Value → Bool
is_bool (bool _) = true
is_bool _ = false

unfoldable pub is_string : Value → Bool
is_string (string _) = true
is_string _ = false

-- Membership in the set built from the enum's values.
unfoldable pub mem_text : Text → List Text → Bool
mem_text s [] = false
mem_text s (t ∷ ts) = text_eq t s || mem_text s ts

in_enum : List Text → Value → Bool
in_enum allowed (string s) = mem_text s allowed
in_enum allowed _ = false

-- The errors of `checkValue`, with the value that they print.
pub data CheckError : Type 0 where
  element_not_number element_not_bool : Value → CheckError
  expected_number expected_date expected_bool expected_string not_in_enum : Value → CheckError

-- A loop that returns the error of the first element that fails a test.
unfoldable pub each :
    (Value → Bool) → (Value → CheckError) → List Value → Result CheckError (Unit {0})
each test fails [] = ok tt
each test fails (v ∷ vs) = let rest = each test fails vs in guard (test v) (fails v) >> rest

-- `vals`: the elements for a membership operator, else the value itself.
abbrev checked_values : ClauseOp → Value → List Value
checked_values op value = if is_membership op then to_slice value else value ∷ []

is_nil : List Text → Bool
is_nil [] = true
is_nil _ = false

-- The case of strings and enums.
check_strings : Bool → List Text → List Value → Result CheckError (Unit {0})
unfolding is_nil in_enum
check_strings is_enum enum_values vals = do
  each is_string expected_string vals
  (if is_enum && not (is_nil enum_values)
      then each (in_enum enum_values) not_in_enum vals
      else ok tt)

check_typed : ValueType → List Text → ClauseOp → Value → Result CheckError (Unit {0})
unfolding check_strings
check_typed type_number enum_values op value =
    if is_membership op
    then each is_number element_not_number (to_slice value)
    else guard (is_number value) (expected_number value)
check_typed type_date enum_values op value = each is_date expected_date (checked_values op value)
check_typed type_bool enum_values op value =
    if is_membership op
    then each is_bool element_not_bool (to_slice value)
    else guard (is_bool value) (expected_bool value)
check_typed type_string enum_values op value =
    check_strings false enum_values (checked_values op value)
check_typed type_enum enum_values op value =
    check_strings true enum_values (checked_values op value)
check_typed (other_type _) enum_values op value = ok tt

unfoldable pub check_value : Clause → AttributeDefinition → Result CheckError (Unit {0})
unfolding check_typed
check_value c def = check_typed def.value_type def.enum_values c.op c.value

-- The errors of `Validate`; a clause is named by its index and attribute.
pub data ValidateError : Type 0 where
  op_not_allowed : ℕ → Text → ClauseOp → ValueType → ValidateError
  bad_value : ℕ → Text → CheckError → ValidateError

-- The body of the loop of `Validate`.
validate_clause : Map AttributeDefinition → ℕ → Clause → Result ValidateError (Unit {0})
unfolding check_value contains_op
validate_clause defs i c = elim (lookup c.attr defs) [
  | none ↦ ok tt
  | some def ↦
      guard (contains_op def.allowed_ops c.op) (op_not_allowed i c.attr c.op def.value_type)
      >> wrap (bad_value i c.attr) (check_value c def)
]

validate_clauses : Map AttributeDefinition → ℕ → List Clause → Result ValidateError (Unit {0})
unfolding validate_clause
validate_clauses defs i [] = ok tt
validate_clauses defs i (c ∷ cs) =
    let rest = validate_clauses defs (suc i) cs in validate_clause defs i c >> rest

-- `Validate`, a method of `Predicate`.
unfoldable pub validate : Predicate → Map AttributeDefinition → Result ValidateError (Unit {0})
unfolding validate_clauses
validate p defs = validate_clauses defs 0 p.clauses
