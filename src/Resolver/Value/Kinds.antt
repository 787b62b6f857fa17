-- ===== src/Resolver/Value/Kinds.antt =====
-- Values of one kind can be compared, so that a clause on them has an answer.
use Prim.Native.Nat.{Ordering}
use wrap_policy_assignment_s.Base.{
  ◌≡◌, refl, ◌∙◌, ap, Bool, true, false, not, List, [], ◌∷◌, ok, All, inl, inr, Bool-cases, arith,
}
use wrap_policy_assignment_s.Base.Order.{is_eq}
use wrap_policy_assignment_s.Resolver.Value.{
  Value, to_slice, Kind, kind_err, kind_number, kind_string, kind_bool, kind_eq, ComparableValue,
  normalize_comparable, compare_kind, compare_values, equal_normalized, find_item, ClauseOp, op_eq,
  op_ne, op_in, op_not_in, op_gte, op_gt, op_lte, op_lt, op_contains, judge, compare_scalars,
  eval_clause,
}

abbrev pub IsOfKind : Kind → Value → Type 0
IsOfKind k v = (normalize_comparable v).kind ≡ k

-- The operators that compare two scalars.
abbrev pub is_scalar : ClauseOp → Bool
is_scalar op_eq = true
is_scalar op_ne = true
is_scalar op_gte = true
is_scalar op_gt = true
is_scalar op_lte = true
is_scalar op_lt = true
is_scalar op = false

-- The clause has an answer, and no error.
abbrev pub Answers : ClauseOp → Value → Value → Type 0
Answers op value raw = (b : Bool) × (eval_clause op value raw ≡ ok b)

compare_kind-Returns :
    (k : Kind) (a b : ComparableValue)
    → kind_eq k kind_err ≡ false
    → (o : Ordering) × (compare_kind k a b ≡ ok o)
unfolding compare_kind
compare_kind-Returns kind_number a b h = (_, refl)
compare_kind-Returns kind_string a b h = (_, refl)
compare_kind-Returns kind_bool a b h = (_, refl)
compare_kind-Returns kind_err a b h = cc

kind_eq_refl : (k : Kind) → kind_eq k k ≡ true
kind_eq_refl k = ground arith

judge-Returns :
    (op : ClauseOp) (o : Ordering) → is_scalar op ≡ true → (b : Bool) × (judge op o ≡ ok b)
unfolding judge
judge-Returns op_eq o h = (_, refl)
judge-Returns op_ne o h = (_, refl)
judge-Returns op_gte o h = (_, refl)
judge-Returns op_gt o h = (_, refl)
judge-Returns op_lte o h = (_, refl)
judge-Returns op_lt o h = (_, refl)
judge-Returns op o h = cc

module _ (k : Kind) (proper : kind_eq k kind_err ≡ false) (raw : Value)
    (fact : IsOfKind k raw) where
  compare_values-Returns :
      (v : Value)
      → IsOfKind k v
      → (o : Ordering) × (compare_values (normalize_comparable raw) (normalize_comparable v) ≡ ok o)
  unfolding compare_values
  compare_values-Returns v h =
      let (o, e) =
        compare_kind-Returns k (normalize_comparable raw) (normalize_comparable v) proper in
      let agree : kind_eq (normalize_comparable raw).kind (normalize_comparable v).kind ≡ true =
        ap (λ x. kind_eq x (normalize_comparable v).kind) fact
        ∙ ap (kind_eq k) h
        ∙ kind_eq_refl k in
      (
        o,
        rw agree
            (ap (λ x. compare_kind x (normalize_comparable raw) (normalize_comparable v)) fact ∙ e),
      )

  is_proper : (v : Value) → IsOfKind k v → kind_eq (normalize_comparable v).kind kind_err ≡ false
  is_proper v h = ap (λ x. kind_eq x kind_err) h ∙ proper

  equal_normalized-Returns :
      (v : Value) → IsOfKind k v → (b : Bool) × (equal_normalized raw v ≡ ok b)
  unfolding equal_normalized
  equal_normalized-Returns v h =
      let (o, e) = compare_values-Returns v h in
      (is_eq o, rw (is_proper raw fact, is_proper v h, e) refl)

  -- Membership in a list of values of the fact's kind.
  pub find_item-Returns :
      (items : List Value) → All (IsOfKind k) items → (b : Bool) × (find_item raw items ≡ ok b)
  unfolding find_item
  find_item-Returns [] all = (false, refl)
  find_item-Returns (v ∷ items) all =
      let (b, e) = equal_normalized-Returns v all.0 in
      let (rest, r) = find_item-Returns items all.1 in
      elim (Bool-cases b) [ inl t ↦ (true, rw (e, t) refl) | inr t ↦ (rest, rw (e, t) r) ]

  compare_scalars-Returns :
      (op : ClauseOp) (v : Value)
      → is_scalar op ≡ true
      → IsOfKind k v
      → (b : Bool) × (compare_scalars op v raw ≡ ok b)
  unfolding compare_scalars
  compare_scalars-Returns op v scalar h =
      let (o, e) = compare_values-Returns v h in
      let (b, j) = judge-Returns op o scalar in (b, rw (is_proper raw fact, is_proper v h, e) j)

  pub scalar-Answers :
      (op : ClauseOp) (v : Value) → is_scalar op ≡ true → IsOfKind k v → Answers op v raw
  unfolding eval_clause
  scalar-Answers op_in v scalar h = cc
  scalar-Answers op_not_in v scalar h = cc
  scalar-Answers op_contains v scalar h = cc
  scalar-Answers op v scalar h = compare_scalars-Returns op v scalar h

  pub in-Answers : (v : Value) → All (IsOfKind k) (to_slice v) → Answers op_in v raw
  unfolding eval_clause
  in-Answers v all = find_item-Returns (to_slice v) all

  pub not_in-Answers : (v : Value) → All (IsOfKind k) (to_slice v) → Answers op_not_in v raw
  unfolding eval_clause
  not_in-Answers v all = let (b, e) = find_item-Returns (to_slice v) all in (not b, rw e refl)
