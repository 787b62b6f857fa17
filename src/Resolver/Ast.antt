-- ===== src/Resolver/Ast.antt =====
-- resolver/ast.go: the predicate of a rule, its structural check and its evaluation.
pub mod Validate
use wrap_policy_assignment_s.Base.{
  ℕ, suc, Bool, true, false, not, ◌&&◌, ◌||◌, Option, none, some, List, [], ◌∷◌, if◌then◌else◌,
  Result, ok, err, ◌>>◌, guard, wrap,
}
use wrap_policy_assignment_s.Base.Text.{Text, text_eq}
use wrap_policy_assignment_s.Base.Map.{Map, lookup}
use wrap_policy_assignment_s.Base.Date.{is_valid_date}
use wrap_policy_assignment_s.Resolver.Value.{
  Value, null, float64, float32, int, int64, int32, string, bool, is_json_slice, to_slice, ClauseOp,
  op_eq, op_ne, op_in, op_not_in, op_gte, op_gt, op_lte, op_lt, op_contains, unknown_op, EvalError,
  eval_clause,
}

pub data GroupOp : Type 0 where
  op_and : GroupOp
  other_group : Text → GroupOp

pub record Clause : Type 0 where
  pub attr : Text
  pub op : ClauseOp
  pub value : Value

pub record Predicate : Type 0 where
  pub op : GroupOp
  pub clauses : List Clause

-- The errors of `ParsePredicate`; a clause is named by its index and attribute.
pub data ParseError : Type 0 where
  undecodable no_clauses : ParseError
  bad_group : GroupOp → ParseError
  no_attr : ℕ → ParseError
  unknown_operator : ℕ → Text → ClauseOp → ParseError
  no_value : ℕ → Text → ParseError
  no_array : ℕ → Text → ClauseOp → ParseError

-- Membership in `allClauseOps`.
abbrev pub is_clause_op : ClauseOp → Bool
is_clause_op (unknown_op _) = false
is_clause_op _ = true

abbrev pub is_membership : ClauseOp → Bool
is_membership op_in = true
is_membership op_not_in = true
is_membership _ = false

abbrev pub is_null : Value → Bool
is_null null = true
is_null _ = false

abbrev is_and : GroupOp → Bool
is_and op_and = true
is_and _ = false

-- The body of the loop of `ParsePredicate`.
parse_clause : ℕ → Clause → Result ParseError (Unit {0})
parse_clause i c = do
  guard (not (text_eq c.attr [])) (no_attr i)
  guard (is_clause_op c.op) (unknown_operator i c.attr c.op)
  guard (not (is_null c.value)) (no_value i c.attr)
  guard (not (is_membership c.op && not (is_json_slice c.value))) (no_array i c.attr c.op)

parse_clauses : ℕ → List Clause → Result ParseError (Unit {0})
unfolding parse_clause
parse_clauses i [] = ok tt
parse_clauses i (c ∷ cs) = let rest = parse_clauses (suc i) cs in parse_clause i c >> rest

-- `len(p.Clauses) == 0`
is_empty : List Clause → Bool
is_empty [] = true
is_empty _ = false

-- `ParsePredicate`, after `json.Unmarshal`.
check_predicate : Predicate → Result ParseError Predicate
unfolding parse_clauses is_empty
check_predicate p = do
  guard (is_and p.op) (bad_group p.op)
  guard (not (is_empty p.clauses)) no_clauses
  parse_clauses 0 p.clauses
  ok p

-- `ParsePredicate`. `unmarshal` is `json.Unmarshal` into a `Predicate`; `none` is its error.
unfoldable pub parse_predicate : (Text → Option Predicate) → Text → Result ParseError Predicate
unfolding check_predicate
parse_predicate unmarshal input = elim (unmarshal input) [
  | none ↦ err undecodable
  | some p ↦ check_predicate p
]

-- Why a predicate does not match, with what the message prints.
pub data WhyNot : Type 0 where
  not_present : Text → WhyNot
  clause_error : Clause → EvalError → WhyNot
  clause_failed : Clause → Value → WhyNot

-- The body of the loop of `Matches`: `none` is to go on.
unfoldable pub fails_clause : Map Value → Clause → Option WhyNot
fails_clause attributes c = elim (lookup c.attr attributes) [
  | none ↦ some (not_present c.attr)
  | some raw ↦ elim (eval_clause c.op c.value raw) [
    | err e ↦ some (clause_error c e)
    | ok true ↦ none
    | ok false ↦ some (clause_failed c raw)
  ]
]

unfoldable pub first_failure : Map Value → List Clause → Option WhyNot
first_failure attributes [] = none
first_failure attributes (c ∷ cs) =
    let rest = first_failure attributes cs in
    elim (fails_clause attributes c) [ some why ↦ some why | none ↦ rest ]

-- `Matches`, a method of `Predicate`: `none` is a match, whose reason is the empty string.
unfoldable pub matches : Predicate → Map Value → Option WhyNot
matches p attributes = first_failure attributes p.clauses
