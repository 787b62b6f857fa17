-- ===== src/Resolver/Ast/Validate/Soundness.antt =====
-- A clause that `checkValue` accepts has an answer on every fact of the attribute's type.
use wrap_policy_assignment_s.Base.{
  ◌≡◌, refl, subst, ◌||◌, Bool, true, false, List, [], ◌∷◌, ok, All, inl, inr, Result-cases, arith,
  if◌then◌else◌,
}
use wrap_policy_assignment_s.Base.Text.{Text}
use wrap_policy_assignment_s.Resolver.Value.{
  Value, to_slice, Kind, kind_err, kind_number, kind_string, kind_bool, kind_eq,
  normalize_comparable, ClauseOp, op_in, op_not_in, op_contains, unknown_op,
}
use wrap_policy_assignment_s.Resolver.Value.Kinds.{
  IsOfKind, is_scalar, Answers, scalar-Answers, in-Answers, not_in-Answers,
}
use wrap_policy_assignment_s.Resolver.Ast.{Clause, is_membership}
use wrap_policy_assignment_s.Resolver.Ast.Validate.{
  ValueType, type_string, type_number, type_date, type_bool, type_enum, other_type,
  AttributeDefinition, CheckError, is_number, is_date, is_bool, is_string, each, checked_values,
  check_strings, check_typed, check_value, expected_string, expected_date, element_not_number,
  element_not_bool,
}

-- The kind in which values of a type are compared.
abbrev pub kind_of : ValueType → Kind
kind_of type_number = kind_number
kind_of type_bool = kind_bool
kind_of type_string = kind_string
kind_of type_enum = kind_string
kind_of type_date = kind_string
kind_of (other_type t) = kind_err

number_kind : (v : Value) → is_number v ≡ true → IsOfKind kind_number v
unfolding is_number normalize_comparable
number_kind v h = ground arith

bool_kind : (v : Value) → is_bool v ≡ true → IsOfKind kind_bool v
unfolding is_bool normalize_comparable
bool_kind v h = ground arith

string_kind : (v : Value) → is_string v ≡ true → IsOfKind kind_string v
unfolding is_string normalize_comparable
string_kind v h = ground arith

date_kind : (v : Value) → is_date v ≡ true → IsOfKind kind_string v
unfolding is_date normalize_comparable
date_kind v h = ground arith

-- The values of a clause, one or several, are of a kind.
record Fits (k : Kind) (op : ClauseOp) (value : Value) : Type 0 where
  one : is_membership op ≡ false → IsOfKind k value
  several : is_membership op ≡ true → All (IsOfKind k) (to_slice value)

each-All :
    (test : Value → Bool) (fails : Value → CheckError) (k : Kind)
    → ((v : Value) → test v ≡ true → IsOfKind k v)
    → (vs : List Value) → each test fails vs ≡ ok tt
    → All (IsOfKind k) vs
unfolding each
each-All test fails k step [] h = tt
each-All test fails k step (v ∷ vs) h =
    (step v (ground arith), each-All test fails k step vs (ground arith))

checked-Fits :
    (test : Value → Bool) (fails : Value → CheckError) (k : Kind)
    → ((v : Value) → test v ≡ true → IsOfKind k v)
    → (op : ClauseOp) (value : Value) → each test fails (checked_values op value) ≡ ok tt
    → Fits k op value
checked-Fits test fails k step op value h =
    let all = each-All test fails k step (checked_values op value) h in
    let at = λ (b : Bool) (e : is_membership op ≡ b).
      subst (λ b. All (IsOfKind k) (if b then to_slice value else value ∷ [])) e all in
    record { one = λ e. (at false e).0; several = at true }

check_strings-Fits :
    (is_enum : Bool) (enum_values : List Text) (op : ClauseOp) (value : Value)
    → check_strings is_enum enum_values (checked_values op value) ≡ ok tt
    → Fits kind_string op value
unfolding check_strings
check_strings-Fits is_enum enum_values op value h =
    elim (Result-cases (each is_string expected_string (checked_values op value))) [
      | inl (u, e) ↦ checked-Fits is_string expected_string kind_string string_kind op value e
      | inr (f, e) ↦ absurd (ground arith)
    ]

check_typed-Fits :
    (type : ValueType) (enum_values : List Text) (op : ClauseOp) (value : Value)
    → kind_eq (kind_of type) kind_err ≡ false
    → check_typed type enum_values op value ≡ ok tt
    → Fits (kind_of type) op value
unfolding check_typed
check_typed-Fits type_number enum_values op value k h = record {
  one = λ m. number_kind value (ground arith);
  several = λ m.
      each-All is_number element_not_number kind_number number_kind (to_slice value) (ground arith);
}
check_typed-Fits type_bool enum_values op value k h = record {
  one = λ m. bool_kind value (ground arith);
  several =
      λ m. each-All is_bool element_not_bool kind_bool bool_kind (to_slice value) (ground arith);
}
check_typed-Fits type_date enum_values op value k h =
    checked-Fits is_date expected_date kind_string date_kind op value h
check_typed-Fits type_string enum_values op value k h =
    check_strings-Fits false enum_values op value h
check_typed-Fits type_enum enum_values op value k h = check_strings-Fits true enum_values op value h
check_typed-Fits (other_type t) enum_values op value k h = cc

-- The operators that compare, alone or in a list.
abbrev pub is_comparing : ClauseOp → Bool
is_comparing op = is_scalar op || is_membership op

Fits-Answers :
    (k : Kind) (op : ClauseOp) (value raw : Value)
    → kind_eq k kind_err ≡ false
    → IsOfKind k raw
    → is_comparing op ≡ true
    → Fits k op value
    → Answers op value raw
Fits-Answers k op_in value raw proper fact c f = in-Answers k proper raw fact value (f.several refl)
Fits-Answers k op_not_in value raw proper fact c f =
    not_in-Answers k proper raw fact value (f.several refl)
Fits-Answers k op_contains value raw proper fact c f = cc
Fits-Answers k (unknown_op t) value raw proper fact c f = cc
Fits-Answers k op value raw proper fact c f =
    scalar-Answers k proper raw fact op value refl (f.one refl)

-- A clause that `checkValue` accepts for an attribute of a known type, with any operator but
-- `contains`, has an answer and no error on every fact of the kind of that type.
pub check_value-Answers :
    (c : Clause) (def : AttributeDefinition) (raw : Value)
    → check_value c def ≡ ok tt
    → kind_eq (kind_of def.value_type) kind_err ≡ false
    → is_comparing c.op ≡ true
    → IsOfKind (kind_of def.value_type) raw
    → Answers c.op c.value raw
unfolding check_value
check_value-Answers c def raw h proper comparing fact =
    Fits-Answers (kind_of def.value_type) c.op c.value raw proper fact comparing
      (check_typed-Fits def.value_type def.enum_values c.op c.value proper h)
