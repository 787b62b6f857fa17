-- ===== src/Base/Date/Iso.antt =====
-- Dates in the layout 2006-01-02 compare as text in the order of their days.
use Prim.Native.Nat.{compare, Ordering}
use Prim.Native.Nat.{ℕ, ◌+◌, ◌-◌, ◌*◌, ◌≤◌, ◌<◌}
use mathlib.Core.Path.{◌≡◌, refl, sym, ◌∙◌, ap, subst}
use mathlib.Core.Bool.{Bool, true, false, ◌&&◌}
use mathlib.Core.Option.{Option, none, some, some-injective}
use mathlib.Core.List.{[], ◌∷◌}
use native.Mathlib.Omega.{arith}
use wrap_policy_assignment_s.Base.Order.{or_else}
use wrap_policy_assignment_s.Base.Text.{Text, cmp_text}
use wrap_policy_assignment_s.Base.Tests.{leb→le, ==_iff, if◌then◌else◌}
use wrap_policy_assignment_s.Base.Date.{Date, day_number, is_digit, parse_date, valid_date, days_in}
use wrap_policy_assignment_s.Base.Date.Order.{IsDay, cmp_date, cmp_date_lem, digits_step}

-- The text of a date, by its eight digits.
abbrev iso : (a b c e f g i j : ℕ) → Text
iso a b c e f g i j =
    (48 + a)
    ∷ (48 + b)
    ∷ (48 + c)
    ∷ (48 + e)
    ∷ b'-'
    ∷ (48 + f)
    ∷ (48 + g)
    ∷ b'-'
    ∷ (48 + i)
    ∷ (48 + j)
    ∷ []

record IsIso (s : Text) (d : Date) : Type 0 where
  a : ℕ
  b : ℕ
  c : ℕ
  e : ℕ
  f : ℕ
  g : ℕ
  i : ℕ
  j : ℕ
  text : s ≡ iso a b c e f g i j
  year : (d.year ≡ ((a * 10 + b) * 10 + c) * 10 + e) × (b < 10) × (c < 10) × (e < 10)
  month : (d.month ≡ f * 10 + g) × (g < 10)
  day : (d.day ≡ i * 10 + j) × (j < 10)
  valid : IsDay d

pair :
    (m n a b : ℕ) (r : Ordering)
    → a < 10
    → b < 10
    → or_else (compare m n) (or_else (compare (48 + a) (48 + b)) r)
      ≡ or_else (compare (m * 10 + a) (n * 10 + b)) r
pair m n a b r h k = ground (arith, digits_step m n a b h k)

first_digit : (a b : ℕ) → compare (48 + a) (48 + b) ≡ compare a b
first_digit a b = ground arith

two :
    (a a' b b' : ℕ) (r : Ordering)
    → b < 10
    → b' < 10
    → or_else (compare (48 + a) (48 + a')) (or_else (compare (48 + b) (48 + b')) r)
      ≡ or_else (compare (a * 10 + b) (a' * 10 + b')) r
two a a' b b' r h k =
    ap (λ x. or_else x (or_else (compare (48 + b) (48 + b')) r)) (first_digit a a')
    ∙ pair a a' b b' r h k

or_else_eq : (o : Ordering) → or_else o Ordering.eq ≡ o
or_else_eq o = ground arith

iso_order : (s t : Text) (d e : Date) → IsIso s d → IsIso t e → cmp_text s t ≡ cmp_date d e
unfolding cmp_text
iso_order s t d e p q =
    ap (λ x. cmp_text x t) p.text
    ∙ ap (cmp_text (iso p.a p.b p.c p.e p.f p.g p.i p.j)) q.text
    ∙ two p.a q.a p.b q.b _ p.year.1 q.year.1
    ∙ pair (p.a * 10 + p.b) (q.a * 10 + q.b) p.c q.c _ p.year.2 q.year.2
    ∙ pair ((p.a * 10 + p.b) * 10 + p.c) ((q.a * 10 + q.b) * 10 + q.c) p.e q.e _ p.year.3 q.year.3
    ∙ ap (or_else _) (
        two p.f q.f p.g q.g _ p.month.1 q.month.1
        ∙ ap (or_else _) (two p.i q.i p.j q.j _ p.day.1 q.day.1 ∙ or_else_eq _))
    ∙ sym (ground (arith, p.year.0, q.year.0, p.month.0, q.month.0, p.day.0, q.day.0))

and_split : (a b : Bool) → (a && b) ≡ true → (a ≡ true) × (b ≡ true)
and_split a b h = ground arith

passed {ℓ} :
    {A : Type ℓ} (c : Bool) (x : Option A) (y : A)
    → (if c then x else none) ≡ some y
    → (c ≡ true) × (x ≡ some y)
passed true x y h = (refl, h)
passed false x y h = cc

digit_back : (c : ℕ) → is_digit c ≡ true → (48 + (c - 48) ≡ c) × (c - 48 < 10)
digit_back c h = omega (arith, digit_bounds c h)
  where
    digit_bounds : (c : ℕ) → is_digit c ≡ true → (48 ≤ c) × (c ≤ 57)
    digit_bounds c h = ground arith

valid_date-IsDay : (x d : Date) → valid_date x ≡ some d → IsDay x × (x ≡ d)
unfolding valid_date days_in
valid_date-IsDay x d h =
    let (test, e) = passed _ (some x) d h in
    let (r2, d2) = and_split _ _ test in
    let (r1, d1) = and_split _ _ r2 in
    let (m1, m2) = and_split _ _ r1 in
    (
      record { month = (leb→le _ _ m1, leb→le _ _ m2); day = (leb→le _ _ d1, leb→le _ _ d2) },
      some-injective _ _ e,
    )

thousands : (a b c e : ℕ) → a * 1000 + b * 100 + c * 10 + e ≡ ((a * 10 + b) * 10 + c) * 10 + e
thousands a b c e = omega arith

parse_date-IsIso : (s : Text) (d : Date) → parse_date s ≡ some d → IsIso s d
unfolding parse_date
parse_date-IsIso (a ∷ b ∷ c ∷ e ∷ h ∷ f ∷ g ∷ k ∷ i ∷ j ∷ []) d p =
    let (test, valid) = passed _ _ d p in
    let (r9, tj) = and_split _ _ test in
    let (r8, ti) = and_split _ _ r9 in
    let (r7, tk) = and_split _ _ r8 in
    let (r6, tg) = and_split _ _ r7 in
    let (r5, tf) = and_split _ _ r6 in
    let (r4, th) = and_split _ _ r5 in
    let (r3, te) = and_split _ _ r4 in
    let (r2, tc) = and_split _ _ r3 in
    let (ta, tb) = and_split _ _ r2 in
    let (is_day, same) = valid_date-IsDay _ d valid in
    record {
      a = a - 48;
      b = b - 48;
      c = c - 48;
      e = e - 48;
      f = f - 48;
      g = g - 48;
      i = i - 48;
      j = j - 48;
      text =
          rw
            (
              (digit_back a ta).0,
              (digit_back b tb).0,
              (digit_back c tc).0,
              (digit_back e te).0,
              (==_iff h 45).0 th,
              (digit_back f tf).0,
              (digit_back g tg).0,
              (==_iff k 45).0 tk,
              (digit_back i ti).0,
              (digit_back j tj).0,
            )
            refl;
      year = (
        ap (λ (x : Date). x.year) (sym same) ∙ thousands (a - 48) (b - 48) (c - 48) (e - 48),
        (digit_back b tb).1,
        (digit_back c tc).1,
        (digit_back e te).1,
      );
      month = (ap (λ (x : Date). x.month) (sym same), (digit_back g tg).1);
      day = (ap (λ (x : Date). x.day) (sym same), (digit_back j tj).1);
      valid = subst IsDay same is_day;
    }
parse_date-IsIso s d p = cc

-- The texts of two dates compare as the days that they stand for.
pub cmp_text-day_number :
    (s t : Text) (d e : Date)
    → parse_date s ≡ some d
    → parse_date t ≡ some e
    → cmp_text s t ≡ compare (day_number d) (day_number e)
cmp_text-day_number s t d e h k =
    let p = parse_date-IsIso s d h in
    let q = parse_date-IsIso t e k in iso_order s t d e p q ∙ cmp_date_lem d e p.valid q.valid
