-- ===== src/Resolver/Value/Complements.antt =====
-- Operators that ask opposite questions.
use Prim.Native.Nat.{Ordering}
use mathlib.Core.Option.{some-injective}
use wrap_policy_assignment_s.Base.{
  ◌≡◌, refl, Bool, true, false, not, subst, Option, none, some, ok, err, map_ok, Result-cases, inl,
  inr, Bool-cases, arith, Result, ◌>>=◌,
}
use wrap_policy_assignment_s.Resolver.Value.{
  Value, ClauseOp, op_eq, op_ne, op_in, op_not_in, op_gte, op_gt, op_lte, op_lt, op_contains,
  unknown_op, eval_clause, compare_scalars, judge, compare_values, normalize_comparable, find_item,
  to_slice, kind_eq, kind_err,
}

-- The operator that asks whether the clause fails.
abbrev pub opposite : ClauseOp → Option ClauseOp
opposite op_eq = some op_ne
opposite op_ne = some op_eq
opposite op_in = some op_not_in
opposite op_not_in = some op_in
opposite op_gte = some op_lt
opposite op_lt = some op_gte
opposite op_lte = some op_gt
opposite op_gt = some op_lte
opposite op_contains = none
opposite (unknown_op t) = none

scalars_opposite :
    (op op' : ClauseOp) (value raw : Value)
    → ((cmp : Ordering) → judge op' cmp ≡ map_ok not (judge op cmp))
    → compare_scalars op' value raw ≡ map_ok not (compare_scalars op value raw)
unfolding compare_scalars
scalars_opposite op op' value raw h =
    elim (Bool-cases (kind_eq (normalize_comparable raw).kind kind_err)) [
      | inl t ↦ rw t refl
      | inr t ↦ elim (Bool-cases (kind_eq (normalize_comparable value).kind kind_err)) [
        | inl u ↦ rw (t, u) refl
        | inr u ↦
            elim (Result-cases
              (compare_values (normalize_comparable raw) (normalize_comparable value))) [
                | inl (cmp, e) ↦ rw (t, u, e) (h cmp)
                | inr (f, e) ↦ rw (t, u, e) refl
              ]
      ]
    ]

negated : {E : Type 0} (m : Result E Bool) → (m >>= λ b. ok (not b)) ≡ map_ok not m
negated (ok b) = refl
negated (err e) = refl

negated_twice : {E : Type 0} (m : Result E Bool) → m ≡ map_ok not (m >>= λ b. ok (not b))
negated_twice (ok true) = refl
negated_twice (ok false) = refl
negated_twice (err e) = refl

-- A clause with the opposite operator gives the opposite answer, and the same error.
pub eval_clause-opposite :
    (op op' : ClauseOp) (value raw : Value)
    → opposite op ≡ some op'
    → eval_clause op' value raw ≡ map_ok not (eval_clause op value raw)
unfolding eval_clause judge
eval_clause-opposite op_eq op' value raw h =
    subst (λ o. eval_clause o value raw ≡ map_ok not (eval_clause op_eq value raw))
      (some-injective _ _ h) (scalars_opposite op_eq op_ne value raw (λ cmp. ground arith))
eval_clause-opposite op_ne op' value raw h =
    subst (λ o. eval_clause o value raw ≡ map_ok not (eval_clause op_ne value raw))
      (some-injective _ _ h) (scalars_opposite op_ne op_eq value raw (λ cmp. ground arith))
eval_clause-opposite op_gte op' value raw h =
    subst (λ o. eval_clause o value raw ≡ map_ok not (eval_clause op_gte value raw))
      (some-injective _ _ h) (scalars_opposite op_gte op_lt value raw (λ cmp. ground arith))
eval_clause-opposite op_lt op' value raw h =
    subst (λ o. eval_clause o value raw ≡ map_ok not (eval_clause op_lt value raw))
      (some-injective _ _ h) (scalars_opposite op_lt op_gte value raw (λ cmp. ground arith))
eval_clause-opposite op_lte op' value raw h =
    subst (λ o. eval_clause o value raw ≡ map_ok not (eval_clause op_lte value raw))
      (some-injective _ _ h) (scalars_opposite op_lte op_gt value raw (λ cmp. ground arith))
eval_clause-opposite op_gt op' value raw h =
    subst (λ o. eval_clause o value raw ≡ map_ok not (eval_clause op_gt value raw))
      (some-injective _ _ h) (scalars_opposite op_gt op_lte value raw (λ cmp. ground arith))
eval_clause-opposite op_in op' value raw h =
    subst (λ o. eval_clause o value raw ≡ map_ok not (eval_clause op_in value raw))
      (some-injective _ _ h) (negated (find_item raw (to_slice value)))
eval_clause-opposite op_not_in op' value raw h =
    subst (λ o. eval_clause o value raw ≡ map_ok not (eval_clause op_not_in value raw))
      (some-injective _ _ h) (negated_twice (find_item raw (to_slice value)))
eval_clause-opposite op_contains op' value raw h = cc
eval_clause-opposite (unknown_op t) op' value raw h = cc
