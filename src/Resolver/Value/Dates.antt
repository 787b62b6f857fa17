-- ===== src/Resolver/Value/Dates.antt =====
-- Clauses on dates, which are compared as strings.
use Prim.Native.Nat.{compare}
use wrap_policy_assignment_s.Base.{
  ℕ, ◌≡◌, refl, ◌∙◌, ap, Bool, not, Option, none, some, ok, ltb, leb, ◌==◌, arith,
}
use wrap_policy_assignment_s.Base.Text.{Text, cmp_text}
use wrap_policy_assignment_s.Base.Date.{Date, day_number, parse_date}
use wrap_policy_assignment_s.Base.Date.Iso.{cmp_text-day_number}
use wrap_policy_assignment_s.Resolver.Value.{
  string, ClauseOp, op_eq, op_ne, op_in, op_not_in, op_gte, op_gt, op_lte, op_lt, op_contains,
  eval_clause, compare_scalars, judge, compare_values, compare_kind, normalize_comparable,
}

-- What an operator asks of two days, where it compares.
abbrev pub asks : ClauseOp → ℕ → ℕ → Option Bool
asks op_eq x y = some (x == y)
asks op_ne x y = some (not (x == y))
asks op_gte x y = some (leb y x)
asks op_gt x y = some (ltb y x)
asks op_lte x y = some (leb x y)
asks op_lt x y = some (ltb x y)
asks _ x y = none

judge-asks :
    (op : ClauseOp) (b : Bool) (x y : ℕ) → asks op x y ≡ some b → judge op (compare x y) ≡ ok b
unfolding judge
judge-asks op_eq b x y h = ground arith
judge-asks op_ne b x y h = ground arith
judge-asks op_gte b x y h = ground arith
judge-asks op_gt b x y h = ground arith
judge-asks op_lte b x y h = ground arith
judge-asks op_lt b x y h = ground arith
judge-asks op b x y h = cc

eval_clause-string :
    (op : ClauseOp) (b : Bool) (x y : ℕ) (s t : Text)
    → asks op x y ≡ some b
    → eval_clause op (string t) (string s) ≡ judge op (cmp_text s t)
unfolding eval_clause compare_scalars compare_values compare_kind normalize_comparable
eval_clause-string op_in b x y s t h = cc
eval_clause-string op_not_in b x y s t h = cc
eval_clause-string op_contains b x y s t h = cc
eval_clause-string op b x y s t h = refl

-- A comparison of a fact with a value, both dates in the layout 2006-01-02, answers what the
-- operator asks of their days, although they are compared as strings.
pub eval_clause-asks :
    (op : ClauseOp) (b : Bool) (s t : Text) (d e : Date)
    → parse_date s ≡ some d
    → parse_date t ≡ some e
    → asks op (day_number d) (day_number e) ≡ some b
    → eval_clause op (string t) (string s) ≡ ok b
eval_clause-asks op b s t d e hs ht h =
    eval_clause-string op b (day_number d) (day_number e) s t h
    ∙ ap (judge op) (cmp_text-day_number s t d e hs ht)
    ∙ judge-asks op b (day_number d) (day_number e) h
