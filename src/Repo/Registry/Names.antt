-- ===== src/Repo/Registry/Names.antt =====
-- The names under which the operators and the types of values are stored.
use mathlib.Core.Path.{ap₂}
use wrap_policy_assignment_s.Base.{
  ◌≡◌, refl, sym, ◌∙◌, inl, inr, Bool, true, false, Bool-cases, List, [], ◌∷◌, map, arith,
  if◌then◌else◌,
}
use wrap_policy_assignment_s.Base.Text.{Text, codes, text_eq, text_eq_iff}
use wrap_policy_assignment_s.Resolver.Value.{
  ClauseOp, op_eq, op_ne, op_in, op_not_in, op_gte, op_gt, op_lte, op_lt, op_contains, unknown_op,
}
use wrap_policy_assignment_s.Resolver.Ast.Validate.{
  ValueType, type_string, type_number, type_date, type_bool, type_enum, other_type,
}
use wrap_policy_assignment_s.Repo.Registry.{to_value_type, to_clause_op, is_value_type}

-- The names of the operators and of the types, as texts of the tables.
abbrev pub op_text : ClauseOp → Text
op_text op_eq = codes "eq"
op_text op_ne = codes "ne"
op_text op_in = codes "in"
op_text op_not_in = codes "not_in"
op_text op_gte = codes "gte"
op_text op_gt = codes "gt"
op_text op_lte = codes "lte"
op_text op_lt = codes "lt"
op_text op_contains = codes "contains"
op_text (unknown_op s) = s

abbrev pub type_text : ValueType → Text
type_text type_string = codes "string"
type_text type_number = codes "number"
type_text type_date = codes "date"
type_text type_bool = codes "bool"
type_text type_enum = codes "enum"
type_text (other_type s) = s

abbrev pub is_known_type : ValueType → Bool
is_known_type (other_type s) = false
is_known_type _ = true

-- A value that a text names, among others that it may name, is printed as that text.
named {ℓ} :
    {A : Type ℓ} (print : A → Text) (s t : Text) (a rest : A)
    → print a ≡ t
    → print rest ≡ s
    → print (if text_eq s t then a else rest) ≡ s
named print s t a rest h k = elim (Bool-cases (text_eq s t)) [
  | inl e ↦ rw e (h ∙ sym ((text_eq_iff s t).0 e))
  | inr e ↦ rw e k
]

op_text-to_clause_op : (s : Text) → op_text (to_clause_op s) ≡ s
op_text-to_clause_op s = named op_text s (codes "eq") _ _ refl (
    named op_text s (codes "ne") _ _ refl (
      named op_text s (codes "in") _ _ refl (
        named op_text s (codes "not_in") _ _ refl (
          named op_text s (codes "gte") _ _ refl (
            named op_text s (codes "gt") _ _ refl (
              named op_text s (codes "lte") _ _ refl (
                named op_text s (codes "lt") _ _ refl
                  (named op_text s (codes "contains") _ _ refl refl))))))))

pub ops_text : (l : List Text) → map op_text (map to_clause_op l) ≡ l
ops_text [] = refl
ops_text (s ∷ l) = ap₂ ◌∷◌ (op_text-to_clause_op s) (ops_text l)

pub type_text-to_value_type : (s : Text) → type_text (to_value_type s) ≡ s
type_text-to_value_type s = named type_text s (codes "string") _ _ refl (
    named type_text s (codes "number") _ _ refl (
      named type_text s (codes "date") _ _ refl (
        named type_text s (codes "bool") _ _ refl
          (named type_text s (codes "enum") _ _ refl refl))))

pub to_value_type-known :
    (s : Text) → is_value_type s ≡ true → is_known_type (to_value_type s) ≡ true
to_value_type-known s h = ground arith
