-- ===== src/Base/Sort.antt =====
-- `sort.Slice`, `sort.SliceStable` and `sort.Strings`: a stable sort by a test `less`, as insertion
-- into a sorted rest. A member goes before those that are not less than it.
use Prim.Native.Nat.{Ordering}
use mathlib.Core.Path.{◌≡◌, refl, sym, ap, ◌∙◌, ap₂}
use mathlib.Core.Logic.{inl, inr}
use mathlib.Core.Bool.{Bool, false, Bool-set}
use mathlib.Core.List.{
  List, [], ◌∷◌, map, Mem, Perm, Pairwise, Pairwise-singleton, mem-cons_self, mem-cons_of_mem,
  forall_mem-cons,
}
use mathlib.Core.List.Perm
use native.Mathlib.Omega.{arith}
use wrap_policy_assignment_s.Base.Tests.{if◌then◌else◌, Bool-cases}
use wrap_policy_assignment_s.Base.Order.{IsOrder, is_lt, order_refl, eq_right}

module _ {ℓ} {A : Type ℓ} (less : A → A → Bool) where
  insert : A → List A → List A
  insert x [] = x ∷ []
  insert x (y ∷ ys) = if less y x then y ∷ insert x ys else x ∷ y ∷ ys

  unfoldable pub sort_by : List A → List A
  unfolding insert
  sort_by [] = []
  sort_by (x ∷ xs) = insert x (sort_by xs)

  insert-perm : (x : A) (l : List A) → Perm (insert x l) (x ∷ l)
  unfolding insert
  insert-perm x [] = Perm.rfl
  insert-perm x (y ∷ ys) = elim (Bool-cases (less y x)) [
    | inl h ↦ rw h (Perm.trans (Perm.cons y (insert-perm x ys)) (Perm.swap x y ys))
    | inr h ↦ rw h Perm.rfl
  ]

  -- Sorting loses and invents nothing.
  pub sort_by-perm : (l : List A) → Perm (sort_by l) l
  unfolding sort_by
  sort_by-perm [] = Perm.rfl
  sort_by-perm (x ∷ xs) = Perm.trans (insert-perm x (sort_by xs)) (Perm.cons x (sort_by-perm xs))

module _ {ℓ} {A : Type ℓ} (less : A → A → Bool) (f : A → A)
    (same : (a b : A) → less (f a) (f b) ≡ less a b) where
  insert-map : (x : A) (l : List A) → insert less (f x) (map f l) ≡ map f (insert less x l)
  unfolding insert
  insert-map x [] = refl
  insert-map x (y ∷ l) = elim (Bool-cases (less y x)) [
    | inl h ↦ rw (same y x, h) (ap (◌∷◌ (f y)) (insert-map x l))
    | inr h ↦ rw (same y x, h) refl
  ]

  -- A change that keeps the order can be made before the sort or after it.
  pub sort_by-map : (l : List A) → sort_by less (map f l) ≡ map f (sort_by less l)
  unfolding sort_by
  sort_by-map [] = refl
  sort_by-map (x ∷ l) = ap (insert less (f x)) (sort_by-map l) ∙ insert-map x (sort_by less l)

module _ {ℓ} {A : Type ℓ} (c : A → A → Ordering) where
  abbrev pub less_by : A → A → Bool
  less_by a b = is_lt (c a b)

  -- No member is less than one that stands before it.
  abbrev pub IsSorted : List A → Type ℓ
  IsSorted = Pairwise (λ a b. less_by b a ≡ false)

  -- Members that the comparison does not tell apart are equal.
  abbrev pub IsTold : List A → Type ℓ
  IsTold l = (a b : A) → Mem a l → Mem b l → c a b ≡ Ordering.eq → a ≡ b

module _ {ℓ} {A : Type ℓ} {c : A → A → Ordering} (o : IsOrder c) where
  not_less_trans :
      (x y z : A) → less_by c y x ≡ false → less_by c z y ≡ false → less_by c z x ≡ false
  not_less_trans x y z h k = ground (
    arith,
    o.trans x y z,
    o.flipped x y,
    o.flipped y z,
    o.flipped x z,
    o.eq_left x y z,
    eq_right o x y z,
  )

  insert-IsSorted : (x : A) {l : List A} → IsSorted c l → IsSorted c (insert (less_by c) x l)
  unfolding insert
  insert-IsSorted x Pairwise.nil = Pairwise-singleton _ x
  insert-IsSorted x (Pairwise.cons {a = y} {l = ys} first s) = elim (Bool-cases (less_by c y x)) [
    | inl h ↦
        rw (h, insert)
          (Pairwise.cons
            (λ z m.
              (forall_mem-cons (λ z. Bool-set _ _)).1 (ground (arith, o.flipped x y), first) z
                (Perm.subset (insert-perm (less_by c) x ys) z m))
            (insert-IsSorted x s))
    | inr h ↦
        rw (h, insert)
          (Pairwise.cons
            ((forall_mem-cons (λ z. Bool-set _ _)).1 (h, λ z m. not_less_trans x y z h (first z m)))
            (Pairwise.cons first s))
  ]

  -- The result is in order.
  pub sort_by-IsSorted : (l : List A) → IsSorted c (sort_by (less_by c) l)
  unfolding sort_by
  sort_by-IsSorted [] = Pairwise.nil
  sort_by-IsSorted (x ∷ xs) = insert-IsSorted x (sort_by-IsSorted xs)

  pub head_least :
      {a b : A} {l : List A} → IsSorted c (a ∷ l) → Mem b (a ∷ l) → less_by c b a ≡ false
  head_least {a} (Pairwise.cons first s) m =
      (forall_mem-cons (λ z. Bool-set _ _)).1 (ground (arith, order_refl o a), first) _ m

  same_head : (a b : A) → less_by c a b ≡ false → less_by c b a ≡ false → c a b ≡ Ordering.eq
  same_head a b h k = ground (arith, o.flipped a b)

  -- Two sorted lists of the same members have the same head and the same members behind it.
  peel :
      {a b : A} {xs ys : List A}
      → IsSorted c (a ∷ xs)
      → IsSorted c (b ∷ ys)
      → Perm (a ∷ xs) (b ∷ ys)
      → IsTold c (a ∷ xs)
      → (a ≡ b) × Perm xs ys
  peel {a} {b} sx sy p told =
      let there = Perm.subset (Perm.symm p) b mem-cons_self in
      let ahead =
        same_head a b (head_least sy (Perm.subset p a mem-cons_self)) (head_least sx there) in
      let e = told a b mem-cons_self there ahead in
      (e, Perm.cons_inv (Perm.trans (Perm.cons' (sym e) Perm.rfl) p))

  IsTold-tail : {a : A} {l : List A} → IsTold c (a ∷ l) → IsTold c l
  IsTold-tail {a} told x y mx my = told x y (mem-cons_of_mem a mx) (mem-cons_of_mem a my)

  pub IsSorted-eq_of_perm :
      {l r : List A} → IsSorted c l → IsSorted c r → Perm l r → IsTold c l → l ≡ r
  IsSorted-eq_of_perm Pairwise.nil sr p told = Perm.nil-eq p
  IsSorted-eq_of_perm sl Pairwise.nil p told = Perm.eq-nil p
  IsSorted-eq_of_perm (Pairwise.cons fl sl) (Pairwise.cons fr sr) p told =
      let (same, rest) = peel (Pairwise.cons fl sl) (Pairwise.cons fr sr) p told in
      ap₂ ◌∷◌ same (IsSorted-eq_of_perm sl sr rest (IsTold-tail told))

  -- The order of the input is forgotten where the comparison tells its members apart.
  pub sort_by-eq_of_perm :
      {l r : List A} → Perm l r → IsTold c l → sort_by (less_by c) l ≡ sort_by (less_by c) r
  sort_by-eq_of_perm {l} {r} p told =
      let pl = sort_by-perm (less_by c) l in
      let pr = sort_by-perm (less_by c) r in
      IsSorted-eq_of_perm (sort_by-IsSorted l) (sort_by-IsSorted r)
        (Perm.trans pl (Perm.trans p (Perm.symm pr)))
        (λ x y mx my. told x y (Perm.subset pl x mx) (Perm.subset pl y my))
