-- ===== src/Repo/Projection/Materializing.antt =====
-- What `Materialize` leaves in the projection.
use wrap_policy_assignment_s.Base.{
  ℕ, ◌≡◌, refl, sym, ◌∙◌, ap, Bool, true, not, Option, List, [], ◌∷◌, ◌++◌, map, keep, ok, inl, inr,
  Result-cases, arith,
}
use wrap_policy_assignment_s.Base.Text.{Text, text_eq_iff}
use wrap_policy_assignment_s.Resolver.Types.{Assignment, ShadowedMatch}
use wrap_policy_assignment_s.Resolver.Resolve.{Resolution}
use wrap_policy_assignment_s.Resolver.Resolve.Run.{ok-injective}
use wrap_policy_assignment_s.Repo.Facts.{pg_date}
use wrap_policy_assignment_s.Repo.Projection.{
  AssignmentRow, ShadowedRow, Projection, ProjectionError, is_current, is_shadowed_in,
  replace_current, insert_all, same_assignment, same_shadowed, duplicate_assignment,
  duplicate_shadowed, assignment_row, shadowed_row, materialize,
}

module _ {A : Type 0} where
  append_nil : (l : List A) → l ++ [] ≡ l
  append_nil [] = refl
  append_nil (x ∷ l) = ap (◌∷◌ x) (append_nil l)

  append_assoc : (l m r : List A) → (l ++ m) ++ r ≡ l ++ (m ++ r)
  append_assoc [] m r = refl
  append_assoc (x ∷ l) m r = ap (◌∷◌ x) (append_assoc l m r)

  -- The inserts, where none fails, append the rows.
  insert_all-append :
      (same : A → A → Bool) (e : ProjectionError) (new rows : List A) {out : List A}
      → insert_all same e new rows ≡ ok out
      → out ≡ rows ++ new
  unfolding insert_all
  insert_all-append same e [] rows h = sym (append_nil rows ∙ ok-injective h)
  insert_all-append same e (r ∷ new) rows h =
      insert_all-append same e new (rows ++ r ∷ []) (ground arith) ∙ append_assoc rows (r ∷ []) new

  keep-append : (p : A → Bool) (l r : List A) → keep p (l ++ r) ≡ keep p l ++ keep p r
  unfolding keep
  keep-append p [] r = refl
  keep-append p (x ∷ l) r = ground (arith, keep-append p l r)

  dropped_kept : (p : A → Bool) (l : List A) → keep p (keep (λ x. not (p x)) l) ≡ []
  unfolding keep
  dropped_kept p [] = refl
  dropped_kept p (x ∷ l) = ground (arith, dropped_kept p l)

  dropped_twice :
      (p : A → Bool) (l : List A)
      → keep (λ x. not (p x)) (keep (λ x. not (p x)) l) ≡ keep (λ x. not (p x)) l
  unfolding keep
  dropped_twice p [] = refl
  dropped_twice p (x ∷ l) = ground (arith, dropped_twice p l)

module _ {A B : Type 0} (p : B → Bool) (f : A → B) (all : (a : A) → p (f a) ≡ true) where
  keep-map_all : (l : List A) → keep p (map f l) ≡ map f l
  unfolding keep
  keep-map_all [] = refl
  keep-map_all (a ∷ l) = rw (all a) (ap (◌∷◌ (f a)) (keep-map_all l))

  dropped_all : (l : List A) → keep (λ x. not (p x)) (map f l) ≡ []
  unfolding keep
  dropped_all [] = refl
  dropped_all (a ∷ l) = rw (all a) (dropped_all l)

  -- What replacing the rows that pass a test leaves, of those rows and of the others.
  replaced :
      (new : List A) (rows : List B) → keep p (keep (λ x. not (p x)) rows ++ map f new) ≡ map f new
  replaced new rows =
      keep-append p (keep (λ x. not (p x)) rows) (map f new)
      ∙ rw (dropped_kept p rows) (keep-map_all new)

  untouched :
      (new : List A) (rows : List B)
      → keep (λ x. not (p x)) (keep (λ x. not (p x)) rows ++ map f new) ≡ keep (λ x. not (p x)) rows
  untouched new rows =
      keep-append (λ x. not (p x)) (keep (λ x. not (p x)) rows) (map f new)
      ∙ rw (dropped_all new, dropped_twice p rows) (append_nil (keep (λ x. not (p x)) rows))

-- The projection holds the resolution for the employee and its category, from its date on, and
-- nothing else of them; the rows of others, and the ranges that have ended, are as they were.
pub record Holds (employee : Text) (res : Resolution) (trigger : Option ℕ) (start : ℕ)
    (p p' : Projection) : Type 0 where
  pub assigned :
      keep (is_current employee res.category_id) p'.assignments
      ≡ map (assignment_row employee res.category_id start trigger) res.assignments
  pub other_assignments :
      keep (λ r. not (is_current employee res.category_id r)) p'.assignments
      ≡ keep (λ r. not (is_current employee res.category_id r)) p.assignments
  pub lost :
      keep (is_shadowed_in employee res.category_id) p'.shadowed
      ≡ map (shadowed_row employee res.category_id start) res.shadowed
  pub other_shadowed :
      keep (λ r. not (is_shadowed_in employee res.category_id r)) p'.shadowed
      ≡ keep (λ r. not (is_shadowed_in employee res.category_id r)) p.shadowed

own_assignment :
    (employee category : Text) (start : ℕ) (trigger : Option ℕ) (a : Assignment)
    → is_current employee category (assignment_row employee category start trigger a) ≡ true
own_assignment employee category start trigger a =
    ground (arith, text_eq_iff employee employee, text_eq_iff category category)

own_shadowed :
    (employee category : Text) (start : ℕ) (s : ShadowedMatch)
    → is_shadowed_in employee category (shadowed_row employee category start s) ≡ true
own_shadowed employee category start s =
    ground (arith, text_eq_iff employee employee, text_eq_iff category category)

module _ (employee : Text) (res : Resolution) (trigger : Option ℕ) (p : Projection)
    (start : ℕ) where
  abbrev new_assignments : List AssignmentRow
  new_assignments = map (assignment_row employee res.category_id start trigger) res.assignments

  abbrev new_shadowed : List ShadowedRow
  new_shadowed = map (shadowed_row employee res.category_id start) res.shadowed

  materialize_inv :
      (p' : Projection)
      → pg_date res.as_of_date ≡ ok start
      → materialize employee res trigger p ≡ ok p'
      → (p'.assignments
          ≡ (replace_current employee res.category_id p).assignments ++ new_assignments)
        × (p'.shadowed ≡ (replace_current employee res.category_id p).shadowed ++ new_shadowed)
  unfolding materialize
  materialize_inv p' dated h =
      let kept = replace_current employee res.category_id p in
      elim (Result-cases
        (insert_all same_assignment duplicate_assignment new_assignments kept.assignments)) [
          | inr (f, e) ↦ absurd (ground arith)
          | inl (a, e) ↦
              elim (Result-cases
                (insert_all same_shadowed duplicate_shadowed new_shadowed kept.shadowed)) [
                  | inr (f, k) ↦ absurd (ground arith)
                  | inl (s, k) ↦
                      let same : record { assignments = a; shadowed = s } ≡ p' = ground arith in
                      (
                        ap (λ (q : Projection). q.assignments) (sym same)
                            ∙ insert_all-append same_assignment duplicate_assignment new_assignments
                                kept.assignments e,
                        ap (λ (q : Projection). q.shadowed) (sym same)
                            ∙ insert_all-append same_shadowed duplicate_shadowed new_shadowed
                                kept.shadowed k,
                      )
                ]
        ]

-- `Materialize`, where it returns no error, replaces what the projection holds of the employee and
-- the category by the assignments and shadowed matches of the resolution, in their order and from
-- its date on, and leaves all other rows as they were.
pub materialize-Holds :
    (employee : Text) (res : Resolution) (trigger : Option ℕ) (p p' : Projection) (start : ℕ)
    → pg_date res.as_of_date ≡ ok start
    → materialize employee res trigger p ≡ ok p'
    → Holds employee res trigger start p p'
unfolding replace_current
materialize-Holds employee res trigger p p' start dated h =
    let (a, s) = materialize_inv employee res trigger p start p' dated h in
    let current = is_current employee res.category_id in
    let lost = is_shadowed_in employee res.category_id in
    let row = assignment_row employee res.category_id start trigger in
    let lost_row = shadowed_row employee res.category_id start in
    let own = own_assignment employee res.category_id start trigger in
    let own_lost = own_shadowed employee res.category_id start in
    record {
      assigned = ap (keep current) a ∙ replaced current row own res.assignments p.assignments;
      other_assignments =
          ap (keep (λ r. not (current r))) a
          ∙ untouched current row own res.assignments p.assignments;
      lost = ap (keep lost) s ∙ replaced lost lost_row own_lost res.shadowed p.shadowed;
      other_shadowed =
          ap (keep (λ r. not (lost r))) s
          ∙ untouched lost lost_row own_lost res.shadowed p.shadowed;
    }
