-- ===== src/Resolver/Ast/Validate/Members.antt =====
-- The test of membership of a text in a list.
use mathlib.Core.Logic.Or
use mathlib.Core.Bool.{Bool-set}
use mathlib.Core.List.{mem-cons, mem-cons_self, mem-cons_of_mem, mem-cast, not-mem-nil}
use mathlib.Core.List.Perm
use wrap_policy_assignment_s.Base.{
  ◌≡◌, refl, sym, ap, Bool, true, ◌&&◌, List, [], ◌∷◌, keep, Mem, Perm, inl, inr, Bool-cases, arith,
}
use wrap_policy_assignment_s.Base.Text.{Text, text_eq, text_eq_iff}
use wrap_policy_assignment_s.Resolver.Ast.Validate.{mem_text}

pub mem_of_mem_text : (id : Text) (l : List Text) → mem_text id l ≡ true → Mem id l
unfolding mem_text
mem_of_mem_text id [] h = absurd (ground arith)
mem_of_mem_text id (i ∷ l) h = elim (Bool-cases (text_eq i id)) [
  | inl e ↦ mem-cast (sym ((text_eq_iff i id).0 e)) mem-cons_self
  | inr e ↦ mem-cons_of_mem i (mem_of_mem_text id l (ground arith))
]

pub mem_text_of_mem : (id : Text) (l : List Text) → Mem id l → mem_text id l ≡ true
unfolding mem_text
mem_text_of_mem id [] m = absurd (not-mem-nil m)
mem_text_of_mem id (i ∷ l) m =
    Or.elim (Bool-set (mem_text id (i ∷ l)) true) (mem-cons.0 m)
      (λ e. ground (arith, (text_eq_iff i id).1 (sym e)))
      (λ m. ground (arith, mem_text_of_mem id l m))

same_truth : (a b : Bool) → (a ≡ true → b ≡ true) → (b ≡ true → a ≡ true) → a ≡ b
same_truth a b h k = ground (arith, h, k)

pub mem_text-perm : (id : Text) {l r : List Text} → Perm l r → mem_text id l ≡ mem_text id r
mem_text-perm id {l} {r} p =
    same_truth (mem_text id l) (mem_text id r)
      (λ h. mem_text_of_mem id r (Perm.subset p id (mem_of_mem_text id l h)))
      (λ h. mem_text_of_mem id l (Perm.subset (Perm.symm p) id (mem_of_mem_text id r h)))

pub mem_text-keep :
    (x : Text) (p : Text → Bool) (l : List Text) → mem_text x (keep p l) ≡ (mem_text x l && p x)
unfolding mem_text keep
mem_text-keep x p [] = refl
mem_text-keep x p (y ∷ l) = elim (Bool-cases (text_eq y x)) [
  | inl t ↦ ground (arith, t, ap p ((text_eq_iff y x).0 t), mem_text-keep x p l)
  | inr f ↦ ground (arith, f, mem_text-keep x p l)
]
