-- ===== src/Resolver/Tests/Clauses.antt =====
-- Clauses and derived attributes, at concrete values.
use wrap_policy_assignment_s.Base.{◌≡◌, refl, true, some, [], ◌∷◌, ok, map_ok, not}
use wrap_policy_assignment_s.Base.Int.{pos}
use wrap_policy_assignment_s.Base.Text.{codes, cmp_text}
use wrap_policy_assignment_s.Base.Map.{Map, lookup, insert}
use wrap_policy_assignment_s.Base.Date.{Date, parse_date, day_number}
use wrap_policy_assignment_s.Resolver.Value.{
  Value, int, string, op_gte, op_lt, op_eq, eval_clause, kind_string, normalize_comparable,
}
use wrap_policy_assignment_s.Resolver.Value.Complements.{eval_clause-opposite}
use wrap_policy_assignment_s.Resolver.Value.Kinds.{IsOfKind, Answers}
use wrap_policy_assignment_s.Resolver.Ast.{Clause}
use wrap_policy_assignment_s.Resolver.Ast.Validate.{
  AttributeDefinition, type_string, check_value, each, is_string,
}
use wrap_policy_assignment_s.Resolver.Ast.Validate.Soundness.{check_value-Answers}
use wrap_policy_assignment_s.Resolver.Value.Dates.{eval_clause-asks}
use wrap_policy_assignment_s.Resolver.Facts.{tenure, hire_date_key, derive_attributes}
use wrap_policy_assignment_s.Resolver.Facts.Deriving.{Derives, derive_attributes-Derives}

eval_clause-opposite_example :
    eval_clause op_lt (int (pos 3)) (int (pos 5))
    ≡ map_ok not (eval_clause op_gte (int (pos 3)) (int (pos 5)))
eval_clause-opposite_example = eval_clause-opposite op_gte op_lt (int (pos 3)) (int (pos 5)) refl

abbrev day_one : Date
day_one = record { year = 2025; month = 12; day = 31 }

abbrev day_two : Date
day_two = record { year = 2026; month = 1; day = 2 }

parsed :
    (parse_date (codes "2025-12-31") ≡ some day_one)
    × (parse_date (codes "2026-01-02") ≡ some day_two)
unfolding parse_date
parsed = (refl, refl)

eval_clause-asks_example :
    eval_clause op_lt (string (codes "2026-01-02")) (string (codes "2025-12-31")) ≡ ok true
unfolding day_number
eval_clause-asks_example =
    eval_clause-asks op_lt true (codes "2025-12-31") (codes "2026-01-02") day_one day_two parsed.0
      parsed.1 refl

abbrev hired : Map Value
hired = (hire_date_key, string (codes "2026-01-02")) ∷ []

abbrev derived : Map Value
derived = (hire_date_key, string (codes "2026-01-02")) ∷ (codes "tenure_days", int (pos 58)) ∷ []

derives : derive_attributes hired 740042 ≡ ok derived
unfolding derive_attributes lookup insert cmp_text parse_date day_number tenure
derives = refl

derive_attributes-Derives_example : Derives hired 740042 derived
derive_attributes-Derives_example = derive_attributes-Derives hired derived 740042 derives

abbrev dept : AttributeDefinition
dept = record {
  key = codes "dept";
  value_type = type_string;
  allowed_ops = op_eq ∷ [];
  enum_values = [];
}

abbrev is_eng : Clause
is_eng = record { attr = codes "dept"; op = op_eq; value = string (codes "eng") }

accepted : check_value is_eng dept ≡ ok tt
unfolding check_value each is_string
accepted = refl

text_fact : IsOfKind kind_string (string (codes "ops"))
unfolding normalize_comparable
text_fact = refl

check_value-Answers_example : Answers op_eq (string (codes "eng")) (string (codes "ops"))
check_value-Answers_example =
    check_value-Answers is_eng dept (string (codes "ops")) accepted refl refl text_fact
