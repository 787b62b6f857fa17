-- ===== src/Base/Keys.antt =====
-- Lists whose members have distinct keys.
use mathlib.Core.Path.{◌≡◌, sym, ◌∙◌, ap, subst}
use mathlib.Core.Logic.{◌≢◌}
use mathlib.Core.Logic.Or
use mathlib.Core.Bool.{Bool}
use mathlib.Core.List.{
  List, [], ◌∷◌, ◌++◌, map, Mem, Perm, Pairwise, Pairwise-map, not-mem-nil, mem-cons,
  perm_append_comm,
}
use mathlib.Core.List.Perm
use wrap_policy_assignment_s.Base.Lists.{keep, All, All-mem}
use wrap_policy_assignment_s.Base.Keep.{keep-Pairwise}

pub ≢_prop {κ} : {K : Type κ} (a b : K) → IsProp (a ≢ b)
≢_prop a b = hlevel

module _ {ℓ κ} {A : Type ℓ} {K : Type κ} (key : A → K) where
  -- No two entries have one key.
  abbrev pub HasDistinct : List A → Type (ℓ ⊔ κ)
  HasDistinct = Pairwise (λ a b. key a ≢ key b)

  apart-prop : (a b : A) → IsProp (key a ≢ key b)
  apart-prop a b = hlevel

  pub HasDistinct-perm : {l r : List A} → Perm l r → HasDistinct r → HasDistinct l
  HasDistinct-perm p = (Perm.Pairwise-iff apart-prop (λ a b h e. h (sym e)) p).1

  -- To list keys that are distinct one by one.
  pub HasDistinct-cons :
      (a : A) (l : List A) → All (λ b. key a ≢ key b) l → HasDistinct l → HasDistinct (a ∷ l)
  HasDistinct-cons a l all = Pairwise.cons (λ b m. All-mem (apart-prop a) l all m)

  pub HasDistinct-keep : (p : A → Bool) {l : List A} → HasDistinct l → HasDistinct (keep p l)
  HasDistinct-keep p = keep-Pairwise p

  -- Two listed entries with one key are one entry.
  pub HasDistinct-inj :
      IsSet A → {l : List A} → HasDistinct l → (a b : A) → Mem a l → Mem b l → key a ≡ key b → a ≡ b
  HasDistinct-inj set Pairwise.nil a b ma mb e = absurd (not-mem-nil ma)
  HasDistinct-inj set (Pairwise.cons {a = x} {l = xs} first s) a b ma mb e =
      Or.elim (set a b) (mem-cons.0 ma)
        (λ ax.
          Or.elim (set a b) (mem-cons.0 mb) (λ bx. ax ∙ sym bx)
            (λ bm. absurd (first b bm (ap key (sym ax) ∙ e))))
        (λ am.
          Or.elim (set a b) (mem-cons.0 mb) (λ bx. absurd (first a am (ap key (sym bx) ∙ sym e)))
            (λ bm. HasDistinct-inj set s a b am bm e))

module _ {ℓ κ μ} {A : Type ℓ} {B : Type κ} {K : Type μ} (key : B → K) (f : A → B) where
  pub HasDistinct-map : {l : List A} → HasDistinct (λ a. key (f a)) l → HasDistinct key (map f l)
  HasDistinct-map = (Pairwise-map (apart-prop key) f).1

module _ {ℓ κ μ} {A : Type ℓ} {B : Type κ} {K : Type μ} (key : A → K) (other : B → K) where
  -- The keys alone tell whether they are distinct.
  pub HasDistinct-keys :
      {l : List A} {r : List B} → map key l ≡ map other r → HasDistinct key l → HasDistinct other r
  HasDistinct-keys e h =
      (Pairwise-map (λ a b. ≢_prop a b) other).0
        (subst (Pairwise ◌≢◌) e ((Pairwise-map (λ a b. ≢_prop a b) key).1 h))

-- To add a last entry with a new key.
pub append_one {ℓ κ} :
    {A : Type ℓ} {K : Type κ} (key : A → K) (l : List A) (a : A)
    → HasDistinct key l
    → All (λ x. key x ≢ key a) l
    → HasDistinct key (l ++ a ∷ [])
append_one key l a h apart =
    HasDistinct-perm key (perm_append_comm l (a ∷ []))
      (Pairwise.cons (λ b m e. All-mem (λ x. ≢_prop (key x) (key a)) l apart m (sym e)) h)
