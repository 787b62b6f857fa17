-- ===== src/Reconciler/Employee/Converged.antt =====
-- After `ReconcileEmployee` the projection holds what the resolver decides.
use mathlib.Core.List.Pairwise
use wrap_policy_assignment_s.Base.{
  ℕ, ◌≡◌, ◌≢◌, refl, sym, ◌∙◌, ap, subst, Bool, true, false, not, inl, inr, Option, List, [], ◌∷◌,
  map, keep, All, All-imp, All-of_mem, Result, ok, err, Result-cases, arith,
}
use wrap_policy_assignment_s.Base.Int.{ℤ}
use wrap_policy_assignment_s.Base.Keep.{keep_weaker}
use wrap_policy_assignment_s.Base.Keys.{HasDistinct}
use wrap_policy_assignment_s.Base.Text.{Text, codes, text_eq_iff}
use wrap_policy_assignment_s.Resolver.Types.{CategoryConfig}
use wrap_policy_assignment_s.Resolver.Resolve.{Resolution}
use wrap_policy_assignment_s.Repo.Facts.{pg_date}
use wrap_policy_assignment_s.Repo.Projection.{
  AssignmentRow, ShadowedRow, Projection, is_current, is_shadowed_in, assignment_row, shadowed_row,
  materialize,
}
use wrap_policy_assignment_s.Repo.Projection.Materializing.{materialize-Holds}
use wrap_policy_assignment_s.Repo.Traces.{TraceTable, persist_trace}
use wrap_policy_assignment_s.Repo.Store.{
  Store, Codec, CategoryRow, category, resolve_for_employee, list_categories,
}
use wrap_policy_assignment_s.Repo.Store.Resolving.{
  list_categories-distinct, resolve_for_employee-Asked,
}
use wrap_policy_assignment_s.Reconciler.Employee.{
  ReconcileError, and_then, materialize_and_trace, reconcile_categories, reconcile_employee,
}

and_then-eq-ok :
    {S E : Type 0} (m : S × Result E (Unit {0})) (next : S → S × Result E (Unit {0})) (s' : S)
    → and_then m next ≡ (s', ok tt)
    → (s : S) × (m ≡ (s, ok tt)) × (next s ≡ (s', ok tt))
and_then-eq-ok (s, ok u) next s' h = (s, refl, h)
and_then-eq-ok (s, err e) next s' h = absurd (ground arith)

-- Only the projection and the traces differ.
abbrev pub IsRerun : Store → Store → Type 0
IsRerun s s' = (p : Projection) × (t : TraceTable) × (s' ≡ record s { projection = p; traces = t })

IsRerun-trans : (a b c : Store) → IsRerun a b → IsRerun b c → IsRerun a c
IsRerun-trans a b c (p, t, e) (q, u, f) =
    (q, u, f ∙ ap (λ (s : Store). record s { projection = q; traces = u }) e)

-- Members that one test drops do not matter to a test that drops them too.
keep_same {ℓ} :
    {A : Type ℓ} (p q : A → Bool)
    → ((a : A) → p a ≡ true → q a ≡ false)
    → (l r : List A) → keep (λ a. not (q a)) r ≡ keep (λ a. not (q a)) l
    → keep p r ≡ keep p l
keep_same p q h l r e =
    sym (keep_weaker p (λ a. not (q a)) (λ a t. ap not (h a t)) r)
    ∙ ap (keep p) e
    ∙ keep_weaker p (λ a. not (q a)) (λ a t. ap not (h a t)) l

list_categories-IsRerun : (s s' : Store) → IsRerun s s' → list_categories s ≡ list_categories s'
unfolding list_categories
list_categories-IsRerun s s' (p, t, e) = sym (ap list_categories e)

module _ (codec : Codec) (now : ℤ) (today : Text) (trigger : Option ℕ) (employee : Text) where
  -- The rows of the projection are those of a resolution.
  pub record Reflects (id : Text) (day : ℕ) (res : Resolution) (p : Projection) : Type 0 where
    pub assigned :
        keep (is_current employee id) p.assignments
        ≡ map (assignment_row employee id day trigger) res.assignments
    pub lost :
        keep (is_shadowed_in employee id) p.shadowed
        ≡ map (shadowed_row employee id day) res.shadowed

  -- The rows of a category are those of what the resolver decides from the tables of `s`.
  abbrev pub IsUpToDate : ℕ → Store → Projection → CategoryConfig → Type 0
  IsUpToDate day s p c =
      (res : Resolution) × (resolve_for_employee codec now employee c.id today s ≡ ok res)
      × Reflects c.id day res p

  -- The rows of a category stay.
  record Keeps (id : Text) (p q : Projection) : Type 0 where
    assigned :
        keep (is_current employee id) q.assignments ≡ keep (is_current employee id) p.assignments
    lost :
        keep (is_shadowed_in employee id) q.shadowed ≡ keep (is_shadowed_in employee id) p.shadowed

  resolve-IsRerun :
      (id : Text) (s s' : Store)
      → IsRerun s s'
      → resolve_for_employee codec now employee id today s'
        ≡ resolve_for_employee codec now employee id today s
  unfolding resolve_for_employee category
  resolve-IsRerun id s s' (p, t, e) = ap (resolve_for_employee codec now employee id today) e

  materialize_and_trace_inv :
      (id : Text) (s s' : Store)
      → materialize_and_trace codec now today trigger employee id s ≡ (s', ok tt)
      → (res : Resolution) × (resolve_for_employee codec now employee id today s ≡ ok res)
        × (p : Projection) × (materialize employee res trigger s.projection ≡ ok p)
        × (t : TraceTable) × (s' ≡ record s { projection = p; traces = t })
  unfolding materialize_and_trace
  materialize_and_trace_inv id s s' h =
      elim (Result-cases (resolve_for_employee codec now employee id today s)) [
        | inr (e, r) ↦ absurd (ground arith)
        | inl (res, r) ↦ elim (Result-cases (materialize employee res trigger s.projection)) [
          | inr (e, m) ↦ absurd (ground arith)
          | inl (p, m) ↦
              elim (Result-cases
                (persist_trace codec.trace employee id today (codes "materialize") res s.traces)) [
                  | inr (e, q) ↦ absurd (ground arith)
                  | inl (t, q) ↦ (res, r, p, m, t, ground arith)
                ]
        ]
      ]

  current-other :
      (id other : Text) (r : AssignmentRow)
      → other ≢ id
      → is_current employee id r ≡ true
      → is_current employee other r ≡ false
  current-other id other r apart h =
      ground (arith, text_eq_iff r.category_id id, text_eq_iff r.category_id other)

  shadowed-other :
      (id other : Text) (r : ShadowedRow)
      → other ≢ id
      → is_shadowed_in employee id r ≡ true
      → is_shadowed_in employee other r ≡ false
  shadowed-other id other r apart h =
      ground (arith, text_eq_iff r.category_id id, text_eq_iff r.category_id other)

  -- One category: its rows are written, those of the others stay.
  materialize-Reflects :
      (id : Text) (s : Store) (res : Resolution) (p : Projection) (day : ℕ)
      → pg_date today ≡ ok day
      → resolve_for_employee codec now employee id today s ≡ ok res
      → materialize employee res trigger s.projection ≡ ok p
      → Reflects id day res p × ((x : Text) → id ≢ x → Keeps x s.projection p)
  materialize-Reflects id s res p day dated resolved h =
      let asked = resolve_for_employee-Asked codec now employee id today s res resolved in
      let held =
        materialize-Holds employee res trigger s.projection p day (ap pg_date asked.dated ∙ dated)
          h in
      let at = asked.of_category in
      (
        record {
          assigned =
              subst
                (λ c.
                  keep (is_current employee c) p.assignments
                  ≡ map (assignment_row employee c day trigger) res.assignments)
                at held.assigned;
          lost =
              subst
                (λ c.
                  keep (is_shadowed_in employee c) p.shadowed
                  ≡ map (shadowed_row employee c day) res.shadowed)
                at held.lost;
        },
        λ x apart. record {
          assigned =
              keep_same (is_current employee x) (is_current employee res.category_id)
                (λ r. current-other x res.category_id r (λ e. apart (sym at ∙ e)))
                s.projection.assignments p.assignments held.other_assignments;
          lost =
              keep_same (is_shadowed_in employee x) (is_shadowed_in employee res.category_id)
                (λ r. shadowed-other x res.category_id r (λ e. apart (sym at ∙ e)))
                s.projection.shadowed p.shadowed held.other_shadowed;
        },
      )

  -- What the loop over the categories establishes.
  record Converges (day : ℕ) (cs : List CategoryConfig) (s s' : Store) : Type 0 where
    rerun : IsRerun s s'
    current : All (IsUpToDate day s s'.projection) cs
    others :
        (x : Text) → All (λ (c : CategoryConfig). c.id ≢ x) cs → Keeps x s.projection s'.projection

  -- After the first category, the loop over the others keeps what it wrote.
  Converges-cons :
      (day : ℕ) (c : CategoryConfig) (cs : List CategoryConfig) (s s1 s' : Store)
      → IsRerun s s1
      → IsUpToDate day s s1.projection c
      → ((x : Text) → c.id ≢ x → Keeps x s.projection s1.projection)
      → All (λ (d : CategoryConfig). d.id ≢ c.id) cs
      → Converges day cs s1 s'
      → Converges day (c ∷ cs) s s'
  Converges-cons day c cs s s1 s' rerun (res, resolved, now_held) stays apart rest =
      let kept = rest.others c.id apart in
      record {
        rerun = IsRerun-trans s s1 s' rerun rest.rerun;
        current = (
          (
            res,
            resolved,
            record {
              assigned = kept.assigned ∙ now_held.assigned;
              lost = kept.lost ∙ now_held.lost;
            },
          ),
          All-imp (IsUpToDate day s1 s'.projection) (IsUpToDate day s s'.projection)
              (λ d (r, e, held). (r, sym (resolve-IsRerun d.id s s1 rerun) ∙ e, held)) cs
              rest.current,
        );
        others = λ x h.
            let first = stays x h.0 in
            let later = rest.others x h.1 in
            record { assigned = later.assigned ∙ first.assigned; lost = later.lost ∙ first.lost };
      }

  reconcile_categories-Converges :
      (day : ℕ)
      → pg_date today ≡ ok day
      → (cs : List CategoryConfig) → HasDistinct (λ (c : CategoryConfig). c.id) cs
      → (s s' : Store) → reconcile_categories codec now today trigger employee cs s ≡ (s', ok tt)
      → Converges day cs s s'
  unfolding reconcile_categories
  reconcile_categories-Converges day dated [] distinct s s' h =
      let same : s ≡ s' = ap (λ ((x, r) : Store × Result ReconcileError (Unit {0})). x) h in
      subst (Converges day [] s) same (record {
        rerun = (s.projection, s.traces, refl);
        current = tt;
        others = λ x h. record { assigned = refl; lost = refl };
      })
  reconcile_categories-Converges day dated (c ∷ cs) (Pairwise.cons first distinct) s s' h =
      let (s1, done, rest) =
        and_then-eq-ok (materialize_and_trace codec now today trigger employee c.id s)
          (reconcile_categories codec now today trigger employee cs) s' h in
      let (res, resolved, p, m, t, e) = materialize_and_trace_inv c.id s s1 done in
      let (held, stays) = materialize-Reflects c.id s res p day dated resolved m in
      let here : s1.projection ≡ p = ap (λ (x : Store). x.projection) e in
      Converges-cons day c cs s s1 s' (p, t, e)
        (res, resolved, subst (Reflects c.id day res) (sym here) held)
        (λ x apart. subst (Keeps x s.projection) (sym here) (stays x apart))
        (All-of_mem (λ (d : CategoryConfig). d.id ≢ c.id) cs (λ d m q. first d m (sym q)))
        (reconcile_categories-Converges day dated cs distinct s1 s' rest)

  -- The tables after `ReconcileEmployee` are those before it but for the projection and the traces.
  pub record IsReconciled (day : ℕ) (s s' : Store) : Type 0 where
    pub rerun : IsRerun s s'
    pub current : All (IsUpToDate day s' s'.projection) (list_categories s')

  -- After `ReconcileEmployee` returns without an error, the projection holds for each category the
  -- assignments and the shadowed matches that the resolver decides for the employee today, and only
  -- the projection and the traces have changed. The ids of the categories are distinct.
  pub reconcile_employee-IsReconciled :
      (day : ℕ) (s s' : Store)
      → pg_date today ≡ ok day
      → HasDistinct (λ (r : CategoryRow). r.id) s.categories
      → reconcile_employee codec now today trigger employee s ≡ (s', ok tt)
      → IsReconciled day s s'
  unfolding reconcile_employee
  reconcile_employee-IsReconciled day s s' dated distinct h =
      let done =
        reconcile_categories-Converges day dated (list_categories s)
          (list_categories-distinct s distinct) s s' h in
      record {
        rerun = done.rerun;
        current =
            subst (All (IsUpToDate day s' s'.projection)) (list_categories-IsRerun s s' done.rerun)
              (All-imp (IsUpToDate day s s'.projection) (IsUpToDate day s' s'.projection)
                (λ c (res, resolved, held).
                  (res, resolve-IsRerun c.id s s' done.rerun ∙ resolved, held))
                (list_categories s) done.current);
      }
