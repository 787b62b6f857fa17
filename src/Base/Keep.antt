-- ===== src/Base/Keep.antt =====
-- Laws of the Boolean filter.
use Prim.Native.Nat.{Ordering}
use mathlib.Core.Path.{◌≡◌, refl}
use mathlib.Core.Logic.{◌↔◌}
use mathlib.Core.Bool.{Bool, true, false, Bool-discrete}
use mathlib.Core.List.{
  List, [], ◌∷◌, ◌++◌, map, Mem, Perm, Pairwise, filter, mem-filter, mem-cons_self, mem-cons_of_mem,
}
use mathlib.Core.List.Perm
use mathlib.Core.List.Pairwise
use native.Mathlib.Omega.{arith}
use wrap_policy_assignment_s.Base.Lists.{keep}
use wrap_policy_assignment_s.Base.Order.{IsOrder}
use wrap_policy_assignment_s.Base.Sort.{
  sort_by, less_by, IsTold, sort_by-perm, sort_by-IsSorted, IsSorted-eq_of_perm,
}

module _ {ℓ} {A : Type ℓ} (p : A → Bool) where
  dec_true : (x : A) → Dec (p x ≡ true)
  dec_true x = Bool-discrete (p x) true

  keep-filter : (l : List A) → keep p l ≡ filter dec_true l
  unfolding keep dec_true
  keep-filter [] = refl
  keep-filter (x ∷ xs) = ground (arith, keep-filter xs)

  pub mem-keep : {x : A} {l : List A} → Mem x (keep p l) ↔ (Mem x l × (p x ≡ true))
  mem-keep {l = l} = rw (keep-filter l) (mem-filter dec_true)

  pub keep-perm : {l r : List A} → Perm l r → Perm (keep p l) (keep p r)
  keep-perm {l} {r} h = rw (keep-filter l, keep-filter r) (Perm.filter dec_true h)

  pub keep-Pairwise {κ} : {R : A → A → Type κ} {l : List A} → Pairwise R l → Pairwise R (keep p l)
  keep-Pairwise {l} h = rw (keep-filter l) (Pairwise.filter dec_true h)

module _ {ℓ} {A : Type ℓ} {c : A → A → Ordering} (o : IsOrder c) (p : A → Bool) where
  -- Sorting what a filter keeps is filtering what was sorted.
  pub sort_by-keep :
      (l : List A) → IsTold c l → sort_by (less_by c) (keep p l) ≡ keep p (sort_by (less_by c) l)
  sort_by-keep l told =
      IsSorted-eq_of_perm o (sort_by-IsSorted o (keep p l)) (keep-Pairwise p (sort_by-IsSorted o l))
        (Perm.trans (sort_by-perm (less_by c) (keep p l))
          (keep-perm p (Perm.symm (sort_by-perm (less_by c) l))))
        (λ a b ma mb e.
          let listed = λ (x : A) (m : Mem x (sort_by (less_by c) (keep p l))).
            ((mem-keep p).0 (Perm.subset (sort_by-perm (less_by c) (keep p l)) x m)).0 in
          told a b (listed a ma) (listed b mb) e)

module _ {ℓ} {A : Type ℓ} (p q : A → Bool) where
  pub keep-keep_comm : (l : List A) → keep p (keep q l) ≡ keep q (keep p l)
  unfolding keep
  keep-keep_comm [] = refl
  keep-keep_comm (x ∷ xs) = ground (arith, keep-keep_comm xs)

pub keep-map {ℓ κ} :
    {A : Type ℓ} {B : Type κ} (p : B → Bool) (f : A → B) (l : List A)
    → keep p (map f l) ≡ map f (keep (λ x. p (f x)) l)
unfolding keep
keep-map p f [] = refl
keep-map p f (x ∷ xs) = ground (arith, keep-map p f xs)

pub keep_all {ℓ} :
    {A : Type ℓ} (p : A → Bool) (l : List A) → ((x : A) → Mem x l → p x ≡ true) → keep p l ≡ l
unfolding keep
keep_all p [] h = refl
keep_all p (x ∷ xs) h =
    ground (arith, h x mem-cons_self, keep_all p xs (λ y m. h y (mem-cons_of_mem x m)))

module _ {ℓ} {A : Type ℓ} (p q : A → Bool) where
  pub keep_none : ((x : A) → p x ≡ true → q x ≡ false) → (l : List A) → keep p (keep q l) ≡ []
  unfolding keep
  keep_none h [] = refl
  keep_none h (x ∷ l) = ground (arith, h x, keep_none h l)

  pub keep_weaker :
      ((x : A) → p x ≡ true → q x ≡ true) → (l : List A) → keep p (keep q l) ≡ keep p l
  unfolding keep
  keep_weaker h [] = refl
  keep_weaker h (x ∷ l) = ground (arith, h x, keep_weaker h l)

pub keep-append {ℓ} :
    {A : Type ℓ} (p : A → Bool) (l r : List A) → keep p (l ++ r) ≡ keep p l ++ keep p r
unfolding keep
keep-append p [] r = refl
keep-append p (x ∷ l) r = ground (arith, keep-append p l r)
