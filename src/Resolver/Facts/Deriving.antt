-- ===== src/Resolver/Facts/Deriving.antt =====
-- What `DeriveAttributes` adds to the attributes.
use Prim.Native.Nat.{min}
use wrap_policy_assignment_s.Base.{
  ℕ, ◌-◌, ◌≡◌, refl, sym, ◌∙◌, ap, false, Option, none, some, ok, inl, inr, Option-cases, arith,
}
use wrap_policy_assignment_s.Base.Int.{pos}
use wrap_policy_assignment_s.Base.Text.{Text, text_eq}
use wrap_policy_assignment_s.Base.Map.{Map, lookup, insert, lookup-insert, lookup-insert_self}
use wrap_policy_assignment_s.Base.Date.{parse_date, day_number}
use wrap_policy_assignment_s.Resolver.Value.{
  Value, null, float64, float32, int, int64, int32, string, bool, slice, other,
}
use wrap_policy_assignment_s.Resolver.Facts.{
  hire_date_key, tenure_key, derive_attributes, derive_tenure, tenure,
}
use wrap_policy_assignment_s.Resolver.Facts.Tenure.{tenure_lem}

-- The days since the date in a value.
abbrev days_since : ℕ → Value → Option Value
days_since as_of (string s) = elim (parse_date s) [
  | none ↦ none
  | some hire ↦ some (int (pos (min (as_of - day_number hire) 106751)))
]
days_since as_of v = none

-- The tenure of an employee: the given one, else the days since the hire date, where there is one.
abbrev pub tenure_of : Map Value → ℕ → Option Value
tenure_of attrs as_of = elim (lookup tenure_key attrs) [
  | some explicit ↦ some explicit
  | none ↦ elim (lookup hire_date_key attrs) [ none ↦ none | some raw ↦ days_since as_of raw ]
]

-- The result has the tenure, and every other attribute as it was.
pub record Derives (attrs : Map Value) (as_of : ℕ) (m : Map Value) : Type 0 where
  pub tenure : lookup tenure_key m ≡ tenure_of attrs as_of
  pub others : (k : Text) → text_eq tenure_key k ≡ false → lookup k m ≡ lookup k attrs

derive_string :
    (attrs m : Map Value) (as_of : ℕ) (s : Text)
    → lookup tenure_key attrs ≡ none
    → lookup hire_date_key attrs ≡ some (string s)
    → derive_tenure attrs as_of (string s) ≡ ok m
    → Derives attrs as_of m
unfolding derive_tenure
derive_string attrs m as_of s nt hd h = elim (Option-cases (parse_date s)) [
  | inl n ↦ absurd (ground arith)
  | inr (hire, e) ↦
      let same : insert tenure_key (int (tenure as_of (day_number hire))) attrs ≡ m =
        ground arith in
      record {
        tenure =
            ap (lookup tenure_key) (sym same)
            ∙ lookup-insert_self tenure_key (int (tenure as_of (day_number hire))) attrs
            ∙ ground (arith, tenure_lem as_of (day_number hire));
        others = λ k other.
            ap (lookup k) (sym same)
            ∙ lookup-insert tenure_key k (int (tenure as_of (day_number hire))) attrs
            ∙ rw other refl;
      }
]

derive_value :
    (attrs m : Map Value) (as_of : ℕ) (v : Value)
    → lookup tenure_key attrs ≡ none
    → lookup hire_date_key attrs ≡ some v
    → derive_tenure attrs as_of v ≡ ok m
    → Derives attrs as_of m
unfolding derive_tenure
derive_value attrs m as_of (string s) nt hd h = derive_string attrs m as_of s nt hd h
derive_value attrs m as_of null nt hd h = cc
derive_value attrs m as_of (float64 f) nt hd h = cc
derive_value attrs m as_of (float32 f) nt hd h = cc
derive_value attrs m as_of (int n) nt hd h = cc
derive_value attrs m as_of (int64 n) nt hd h = cc
derive_value attrs m as_of (int32 n) nt hd h = cc
derive_value attrs m as_of (bool b) nt hd h = cc
derive_value attrs m as_of (slice vs) nt hd h = cc
derive_value attrs m as_of (other t) nt hd h = cc

-- `DeriveAttributes`, where it returns no error, changes only the tenure. A given tenure stays;
-- without one, and with a hire date, it is the days since then, from 0 to 106,751.
pub derive_attributes-Derives :
    (attrs m : Map Value) (as_of : ℕ) → derive_attributes attrs as_of ≡ ok m → Derives attrs as_of m
unfolding derive_attributes
derive_attributes-Derives attrs m as_of h = elim (Option-cases (lookup tenure_key attrs)) [
  | inr (v, e) ↦
      let same : attrs ≡ m = ground arith in
      record {
        tenure = ap (lookup tenure_key) (sym same) ∙ ground arith;
        others = λ k other. ap (lookup k) (sym same);
      }
  | inl nt ↦ elim (Option-cases (lookup hire_date_key attrs)) [
    | inl nh ↦
        let same : attrs ≡ m = ground arith in
        record {
          tenure = ap (lookup tenure_key) (sym same) ∙ ground arith;
          others = λ k other. ap (lookup k) (sym same);
        }
    | inr (v, e) ↦ derive_value attrs m as_of v nt e (ground arith)
  ]
]
