-- ===== src/Base/Int.antt =====
-- Signed integers over the native numbers, and their comparison.
use Prim.Native.Nat.{ℕ, suc, ◌+◌, compare, Ordering}
use mathlib.Core.Path.{◌≡◌}
use mathlib.Core.Bool.{Bool, true}
use native.Mathlib.Omega.{arith}
use wrap_policy_assignment_s.Base.Order.{IsOrder, is_lt, is_eq}

-- `negsuc n` is -(n + 1).
pub data ℤ : Type 0 where
  pos : ℕ → ℤ
  negsuc : ℕ → ℤ

abbrev pub pos_part : ℤ → ℕ
pos_part (pos n) = n
pos_part (negsuc n) = 0

abbrev pub neg_part : ℤ → ℕ
neg_part (pos n) = 0
neg_part (negsuc n) = suc n

abbrev pub cmp_int : ℤ → ℤ → Ordering
cmp_int a b = compare (pos_part a + neg_part b) (pos_part b + neg_part a)

abbrev pub int_eq : ℤ → ℤ → Bool
int_eq a b = is_eq (cmp_int a b)

abbrev pub int_lt : ℤ → ℤ → Bool
int_lt a b = is_lt (cmp_int a b)

pub cmp_int-IsOrder : IsOrder cmp_int
cmp_int-IsOrder = record {
  flipped = λ a b. ground arith;
  trans = λ a b d h k. ground arith;
  eq_left = λ a b d h. ground arith;
}

pub cmp_int-eq : (a b : ℤ) → cmp_int a b ≡ Ordering.eq → a ≡ b
cmp_int-eq a b h = ground arith

pub int_eq→eq : (a b : ℤ) → int_eq a b ≡ true → a ≡ b
int_eq→eq a b h = ground arith
