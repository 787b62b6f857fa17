-- ===== src/Resolver/Facts/Tenure.antt =====
-- The derived attribute `tenure_days`.
use Prim.Native.Nat.{min}
use wrap_policy_assignment_s.Base.{ℕ, ◌-◌, ◌≡◌, leb, inl, inr, Bool-cases, arith}
use wrap_policy_assignment_s.Base.Int.{pos}
use wrap_policy_assignment_s.Resolver.Facts.{tenure, elapsed, whole_days}

-- The derived tenure is the number of days since the hire date: 0 for a hire in the future, and
-- never more than 106,751, where a duration is at its limit.
pub tenure_lem : (as_of hire : ℕ) → tenure as_of hire ≡ pos (min (as_of - hire) 106751)
unfolding tenure elapsed whole_days
tenure_lem as_of hire = elim (Bool-cases (leb hire as_of)) [
  | inl h ↦ ground arith
  | inr h ↦ ground arith
]
