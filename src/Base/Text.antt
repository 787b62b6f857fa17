-- ===== src/Base/Text.antt =====
-- Go strings as lists of bytes: equality and the bytewise order of `<` and `strings.Compare`.
use Prim.Native.Nat.{ℕ, compare, Ordering}
use Prim.Native.Char.{code}
use Prim.Native.String.{String}
use mathlib.Core.Path.{◌≡◌, refl}
use mathlib.Core.Logic.{◌↔◌}
use mathlib.Core.Bool.{Bool, true}
use mathlib.Core.List.{List, [], ◌∷◌}
use native.Mathlib.Omega.{arith}
use wrap_policy_assignment_s.Base.Order.{
  IsOrder, is_lt, is_eq, flip, or_else, order_refl, compare-IsOrder,
}

abbrev pub Text : Type 0
Text = List ℕ

-- The bytes of an ASCII literal. `String` has its own `[]` and `∷`.
abbrev pub codes : String → Text
codes String.[] = []
codes (String.◌∷◌ c s) = code c ∷ codes s

-- `strings.Compare`
unfoldable pub cmp_text : Text → Text → Ordering
cmp_text [] [] = Ordering.eq
cmp_text [] (y ∷ ys) = Ordering.lt
cmp_text (x ∷ xs) [] = Ordering.gt
cmp_text (x ∷ xs) (y ∷ ys) = or_else (compare x y) (cmp_text xs ys)

abbrev pub text_eq : Text → Text → Bool
text_eq s t = is_eq (cmp_text s t)

abbrev pub text_lt : Text → Text → Bool
text_lt s t = is_lt (cmp_text s t)

flipped : (s t : Text) → cmp_text t s ≡ flip (cmp_text s t)
unfolding cmp_text
flipped [] [] = refl
flipped [] (y ∷ ys) = refl
flipped (x ∷ xs) [] = refl
flipped (x ∷ xs) (y ∷ ys) = ground (arith, flipped xs ys, compare-IsOrder.flipped x y)

pub cmp_text-eq : (s t : Text) → cmp_text s t ≡ Ordering.eq → s ≡ t
unfolding cmp_text
cmp_text-eq [] [] h = refl
cmp_text-eq [] (y ∷ ys) h = cc
cmp_text-eq (x ∷ xs) [] h = cc
cmp_text-eq (x ∷ xs) (y ∷ ys) h = ground (arith, cmp_text-eq xs ys)

trans :
    (s t u : Text)
    → cmp_text s t ≡ Ordering.lt
    → cmp_text t u ≡ Ordering.lt
    → cmp_text s u ≡ Ordering.lt
unfolding cmp_text
trans [] [] u h k = cc
trans [] (y ∷ ys) [] h k = cc
trans [] (y ∷ ys) (z ∷ zs) h k = refl
trans (x ∷ xs) [] u h k = cc
trans (x ∷ xs) (y ∷ ys) [] h k = cc
trans (x ∷ xs) (y ∷ ys) (z ∷ zs) h k =
    ground (arith, trans xs ys zs, cmp_text-eq xs ys, cmp_text-eq ys zs)

pub cmp_text-IsOrder : IsOrder cmp_text
cmp_text-IsOrder = record {
  flipped = flipped;
  trans = trans;
  eq_left = λ s t u h. ground (arith, cmp_text-eq s t);
}

pub text_eq_iff : (s t : Text) → (text_eq s t ≡ true) ↔ (s ≡ t)
text_eq_iff s t =
    (λ h. cmp_text-eq s t (ground arith), λ e. ground (arith, order_refl cmp_text-IsOrder s))
