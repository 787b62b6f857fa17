-- ===== src/Base/Order.antt =====
-- Three-way comparisons, the laws of a total preorder, and lexicographic composition.
use Prim.Native.Nat.{compare, Ordering}
use mathlib.Core.Path.{◌≡◌, ap}
use mathlib.Core.Bool.{Bool, true, false}
use native.Mathlib.Omega.{arith}

abbrev pub flip : Ordering → Ordering
flip Ordering.lt = Ordering.gt
flip Ordering.eq = Ordering.eq
flip Ordering.gt = Ordering.lt

abbrev pub is_lt : Ordering → Bool
is_lt Ordering.lt = true
is_lt _ = false

abbrev pub is_eq : Ordering → Bool
is_eq Ordering.eq = true
is_eq _ = false

-- The second comparison decides where the first finds no difference.
abbrev pub or_else : Ordering → Ordering → Ordering
or_else Ordering.eq d = d
or_else c _ = c

pub record IsOrder {ℓ} {A : Type ℓ} (c : A → A → Ordering) : Type ℓ where
  pub flipped : (a b : A) → c b a ≡ flip (c a b)
  pub trans : (a b d : A) → c a b ≡ Ordering.lt → c b d ≡ Ordering.lt → c a d ≡ Ordering.lt
  pub eq_left : (a b d : A) → c a b ≡ Ordering.eq → c a d ≡ c b d

module _ {ℓ} {A : Type ℓ} {c : A → A → Ordering} (o : IsOrder c) where
  pub eq_right : (a b d : A) → c b d ≡ Ordering.eq → c a b ≡ c a d
  eq_right a b d h = ground (arith, o.flipped b a, o.flipped d a, o.eq_left b d a)

  pub order_refl : (a : A) → c a a ≡ Ordering.eq
  order_refl a = ground (arith, o.flipped a a)

pub lex-IsOrder {ℓ} :
    {A : Type ℓ} {c d : A → A → Ordering}
    → IsOrder c
    → IsOrder d
    → IsOrder (λ a b. or_else (c a b) (d a b))
lex-IsOrder {c = c} {d = d} o p = record {
  flipped = λ a b. ground (arith, o.flipped a b, p.flipped a b);
  trans =
      λ x y z h k. ground (arith, o.trans x y z, p.trans x y z, o.eq_left x y z, eq_right o x y z);
  eq_left = λ x y z h. ground (arith, o.eq_left x y z, p.eq_left x y z);
}

pub on-IsOrder {ℓ κ} :
    {A : Type ℓ} {B : Type κ} {c : B → B → Ordering} (f : A → B)
    → IsOrder c
    → IsOrder (λ a b. c (f a) (f b))
on-IsOrder f o = record {
  flipped = λ a b. o.flipped (f a) (f b);
  trans = λ a b d. o.trans (f a) (f b) (f d);
  eq_left = λ a b d. o.eq_left (f a) (f b) (f d);
}

pub flip-IsOrder {ℓ} :
    {A : Type ℓ} {c : A → A → Ordering} → IsOrder c → IsOrder (λ a b. flip (c a b))
flip-IsOrder o = record {
  flipped = λ a b. ap flip (o.flipped a b);
  trans = λ x y z h k. ground (arith, o.flipped x y, o.flipped y z, o.flipped x z, o.trans z y x);
  eq_left = λ x y z h. ground (arith, o.eq_left x y z);
}

pub compare-IsOrder : IsOrder compare
compare-IsOrder = record {
  flipped = λ a b. ground arith;
  trans = λ a b d h k. ground arith;
  eq_left = λ a b d h. ground arith;
}
