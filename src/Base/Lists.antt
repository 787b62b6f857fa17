-- ===== src/Base/Lists.antt =====
-- Lists measured by native numbers, Boolean filters and predicates on all members.
use Prim.Native.Nat.{ℕ, zero, suc, ◌+◌}
use mathlib.Core.Path.{◌≡◌, refl, sym, ap, subst}
use mathlib.Core.Bool.{Bool}
use mathlib.Core.Logic.Or
use mathlib.Core.Option.{Option, none, some, some-injective}
use mathlib.Core.List.{
  List, [], ◌∷◌, ◌++◌, map, Mem, mem-cons_self, mem-cons_of_mem, mem-cons, not-mem-nil,
}
use native.Mathlib.Omega.{arith}
use wrap_policy_assignment_s.Base.Tests.{if◌then◌else◌}

module _ {ℓ} {A : Type ℓ} where
  abbrev pub length : List A → ℕ
  length [] = 0
  length (x ∷ xs) = suc (length xs)

  -- The members that pass a test, in their order.
  unfoldable pub keep : (A → Bool) → List A → List A
  keep p [] = []
  keep p (x ∷ xs) = if p x then x ∷ keep p xs else keep p xs

  abbrev pub get_elem? : List A → ℕ → Option A
  get_elem? [] i = none
  get_elem? (x ∷ xs) zero = some x
  get_elem? (x ∷ xs) (suc i) = get_elem? xs i

  -- The first members, as `LIMIT` takes them.
  abbrev pub take : ℕ → List A → List A
  take zero xs = []
  take (suc n) [] = []
  take (suc n) (x ∷ xs) = x ∷ take n xs

  -- `P` of every member.
  abbrev pub All {κ} : (A → Type κ) → List A → Type κ
  All P [] = Unit
  All P (x ∷ xs) = P x × All P xs

  pub length-append : (xs ys : List A) → length (xs ++ ys) ≡ length xs + length ys
  length-append [] ys = omega arith
  length-append (x ∷ xs) ys = omega (arith, length-append xs ys)

pub All-imp {ℓ κ μ} :
    {A : Type ℓ} (P : A → Type κ) (Q : A → Type μ)
    → ((a : A) → P a → Q a)
    → (l : List A) → All P l
    → All Q l
All-imp P Q f [] h = tt
All-imp P Q f (x ∷ l) h = (f x h.0, All-imp P Q f l h.1)

pub All-imp_mem {ℓ κ μ} :
    {A : Type ℓ} (P : A → Type κ) (Q : A → Type μ) (l : List A)
    → ((a : A) → Mem a l → P a → Q a)
    → All P l
    → All Q l
All-imp_mem P Q [] f h = tt
All-imp_mem P Q (x ∷ l) f h =
    (f x mem-cons_self h.0, All-imp_mem P Q l (λ a m. f a (mem-cons_of_mem x m)) h.1)

-- What holds of each member holds of all.
pub All-of_mem {ℓ κ} :
    {A : Type ℓ} (P : A → Type κ) (l : List A) → ((a : A) → Mem a l → P a) → All P l
All-of_mem P [] h = tt
All-of_mem P (x ∷ l) h = (h x mem-cons_self, All-of_mem P l (λ a m. h a (mem-cons_of_mem x m)))

pub All-append {ℓ κ} :
    {A : Type ℓ} (P : A → Type κ) (l r : List A) → All P l → All P r → All P (l ++ r)
All-append P [] r h k = k
All-append P (x ∷ l) r h k = (h.0, All-append P l r h.1 k)

pub length-map {ℓ κ} :
    {A : Type ℓ} {B : Type κ} (f : A → B) (xs : List A) → length (map f xs) ≡ length xs
length-map f [] = refl
length-map f (x ∷ xs) = ap suc (length-map f xs)

pub mem-get_elem? {ℓ} :
    {A : Type ℓ} (xs : List A) (i : ℕ) {x : A} → get_elem? xs i ≡ some x → Mem x xs
mem-get_elem? [] i h = cc
mem-get_elem? (y ∷ ys) zero {x} h = subst (λ z. Mem z (y ∷ ys)) (some-injective _ _ h) mem-cons_self
mem-get_elem? (y ∷ ys) (suc i) h = mem-cons_of_mem y (mem-get_elem? ys i h)

-- What holds of all members holds of each.
pub All-mem {ℓ κ} :
    {A : Type ℓ} {P : A → Type κ}
    → ((a : A) → IsProp (P a))
    → (xs : List A) → All P xs
    → {a : A} → Mem a xs
    → P a
All-mem pP [] h m = absurd (not-mem-nil m)
All-mem {P = P} pP (x ∷ xs) h {a} m =
    Or.elim (pP a) (mem-cons.0 m) (λ e. subst P (sym e) h.0) (All-mem pP xs h.1)

-- The lists have one length, and `P` holds of the entries at each place.
abbrev pub Pairs {ℓ κ} : {A : Type ℓ} {B : Type κ} → (A → B → Type 0) → List A → List B → Type 0
Pairs P [] [] = Unit
Pairs P (a ∷ l) (b ∷ r) = P a b × Pairs P l r
Pairs P _ _ = ⊥

pub Pairs-map {ℓ κ} :
    {A : Type ℓ} {B : Type κ} (P : A → B → Type 0) (f : A → B) (l : List A)
    → ((a : A) → Mem a l → P a (f a))
    → Pairs P l (map f l)
Pairs-map P f [] h = tt
Pairs-map P f (x ∷ xs) h = (h x mem-cons_self, Pairs-map P f xs (λ a m. h a (mem-cons_of_mem x m)))

-- What a relation carries over holds of all members of the second list.
pub Pairs-All {ℓ κ} :
    {A : Type ℓ} {B : Type κ} (R : A → B → Type 0) (P : A → Type 0) (Q : B → Type 0)
    → ((a : A) (b : B) → R a b → P a → Q b)
    → (l : List A) (r : List B) → Pairs R l r
    → All P l
    → All Q r
Pairs-All R P Q step [] [] h all = tt
Pairs-All R P Q step [] (b ∷ r) h all = absurd h
Pairs-All R P Q step (a ∷ l) [] h all = absurd h
Pairs-All R P Q step (a ∷ l) (b ∷ r) h all =
    (step a b h.0 all.0, Pairs-All R P Q step l r h.1 all.1)

-- A relation that keeps a key keeps the list of the keys.
pub Pairs-map_eq {ℓ κ} :
    {A : Type ℓ} {K : Type κ} (R : A → A → Type 0) (key : A → K)
    → ((a b : A) → R a b → key a ≡ key b)
    → (l r : List A) → Pairs R l r
    → map key l ≡ map key r
Pairs-map_eq R key step [] [] h = refl
Pairs-map_eq R key step [] (b ∷ r) h = absurd h
Pairs-map_eq R key step (a ∷ l) [] h = absurd h
Pairs-map_eq R key step (a ∷ l) (b ∷ r) h = rw (step a b h.0, Pairs-map_eq R key step l r h.1) refl
