-- ===== src/Base/Int32.antt =====
-- Go's conversion `int32(n)` of an int, with its wrap-around.
use wrap_policy_assignment_s.Base.Tests.{ltb, if◌then◌else◌}
use wrap_policy_assignment_s.Base.Int.{ℤ, pos, negsuc}
use Prim.Native.Nat.{ℕ, ◌-◌, ◌%◌, ◌^◌, ◌<◌}
use mathlib.Core.Path.{◌≡◌}
use native.Mathlib.Omega.{arith}

-- The low 32 bits of the two's complement.
abbrev pub low_word : ℤ → ℕ
low_word (pos n) = n % 2 ^ 32
low_word (negsuc n) = 2 ^ 32 - 1 - n % 2 ^ 32

-- `int32(n)`
abbrev pub int32 : ℤ → ℤ
int32 n = if ltb (low_word n) (2 ^ 31) then pos (low_word n) else negsuc (2 ^ 32 - 1 - low_word n)

-- The integers that an int32 can be.
abbrev pub InInt32 : ℤ → Type 0
InInt32 (pos n) = n < 2 ^ 31
InInt32 (negsuc n) = n < 2 ^ 31

pub int32-InInt32 : (n : ℤ) → InInt32 (int32 n)
int32-InInt32 (pos n) = ground arith
int32-InInt32 (negsuc n) = ground arith

pub int32_same : (n : ℤ) → InInt32 n → int32 n ≡ n
int32_same (pos n) h = ground arith
int32_same (negsuc n) h = ground arith
