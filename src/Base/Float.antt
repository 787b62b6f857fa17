-- ===== src/Base/Float.antt =====
-- Go's `float64` as far as resolver/value.go uses it: the order `<` and the conversion of an
-- integer. A finite `float64` is a whole multiple of 2^-1074, and stands as that multiple; the two
-- zeros are one.
use Prim.Native.Nat.{ℕ, zero, suc, ◌+◌, ◌*◌, ◌/◌, ◌%◌, ◌^◌}
use mathlib.Core.Bool.{Bool, true, false}
use wrap_policy_assignment_s.Base.Tests.{ltb, if◌then◌else◌}
use wrap_policy_assignment_s.Base.Int.{ℤ, pos, negsuc, int_lt}

pub data Float64 : Type 0 where
  nan neg_inf pos_inf : Float64
  finite : ℤ → Float64

-- `a < b`; a comparison with not-a-number is false.
abbrev pub float_lt : Float64 → Float64 → Bool
float_lt neg_inf pos_inf = true
float_lt neg_inf (finite b) = true
float_lt (finite a) pos_inf = true
float_lt (finite a) (finite b) = int_lt a b
float_lt _ _ = false

-- How many low bits a number of at most `53 + fuel` bits has beyond its first 53.
extra_bits : ℕ → ℕ → ℕ
extra_bits zero n = 0
extra_bits (suc fuel) n =
    let rest = extra_bits fuel (n / 2) in if ltb n (2 ^ 53) then 0 else suc rest

-- `n / 2^e`, to the nearest, and to the even one of two.
round_even : ℕ → ℕ → ℕ
round_even n e =
    let q = n / 2 ^ e in
    let r = n % 2 ^ e in
    if ltb (2 * r) (2 ^ e) then q else if ltb (2 ^ e) (2 * r) then q + 1 else q + q % 2

-- The 53 leading bits of a magnitude below 2^64, in units of 2^-1074.
magnitude : ℕ → ℕ
unfolding extra_bits round_even
magnitude n = let e = extra_bits 11 n in round_even n e * 2 ^ e * 2 ^ 1074

neg_int : ℕ → ℤ
neg_int zero = pos 0
neg_int (suc n) = negsuc n

-- `float64(n)` for an `int`, an `int64` or an `int32`.
unfoldable pub float_of_int : ℤ → Float64
unfolding magnitude neg_int
float_of_int (pos n) = finite (pos (magnitude n))
float_of_int (negsuc n) = finite (neg_int (magnitude (suc n)))
