-- ===== src/Reconciler/Sweeper/Agreement.antt =====
-- What the sweeper finds after `ReconcileEmployee`.
use mathlib.Core.Bool.{true≢false}
use wrap_policy_assignment_s.Base.{
  ℕ, ◌≡◌, ◌≢◌, refl, sym, ◌∙◌, ap, true, ◌&&◌, inl, inr, Option, none, some, List, [], ◌∷◌, map,
  keep, All, ok, Bool-cases, arith,
}
use wrap_policy_assignment_s.Base.Int.{ℤ}
use wrap_policy_assignment_s.Base.Keys.{HasDistinct}
use wrap_policy_assignment_s.Base.Text.{Text, text_eq, text_eq_iff}
use wrap_policy_assignment_s.Base.Map.{Map, lookup, insert, lookup-insert}
use wrap_policy_assignment_s.Resolver.Types.{CategoryConfig, single}
use wrap_policy_assignment_s.Resolver.Resolve.{Resolution}
use wrap_policy_assignment_s.Resolver.Resolve.Single.{resolve-single}
use wrap_policy_assignment_s.Resolver.Resolve.Run.{ok-injective}
use wrap_policy_assignment_s.Repo.Facts.{pg_date}
use wrap_policy_assignment_s.Repo.Projection.{
  AssignmentRow, Projection, has_no_end, is_current, assignment_row, last_policies,
  assigned_policies,
}
use wrap_policy_assignment_s.Repo.Store.{
  Store, Codec, CategoryRow, category, resolve_for_employee, list_categories,
}
use wrap_policy_assignment_s.Repo.Store.Resolving.{resolve_for_employee-Asked}
use wrap_policy_assignment_s.Reconciler.Employee.{reconcile_employee}
use wrap_policy_assignment_s.Reconciler.Employee.Converged.{
  IsUpToDate, Reflects, reconcile_employee-IsReconciled,
}
use wrap_policy_assignment_s.Reconciler.Sweeper.{
  DriftRow, expected_policy, actual_policy, find_drift,
}

-- The policy of the last row.
abbrev last_policy : Option Text → List AssignmentRow → Option Text
last_policy found [] = found
last_policy found (r ∷ rs) = last_policy (some r.policy_id) rs

lookup-last_policies :
    (id : Text) (rows : List AssignmentRow) (out : Map Text)
    → lookup id (last_policies rows out)
      ≡ last_policy (lookup id out) (keep (λ (r : AssignmentRow). text_eq r.category_id id) rows)
unfolding last_policies keep
lookup-last_policies id [] out = refl
lookup-last_policies id (r ∷ rs) out =
    lookup-last_policies id rs (insert r.category_id r.policy_id out)
    ∙ elim (Bool-cases (text_eq r.category_id id)) [
      | inl t ↦ rw (lookup-insert r.category_id id r.policy_id out, t) refl
      | inr f ↦ rw (lookup-insert r.category_id id r.policy_id out, f) refl
    ]

keep-current :
    (employee id : Text) (rows : List AssignmentRow)
    → keep
        (λ (r : AssignmentRow). text_eq r.category_id id)
        (keep (λ (r : AssignmentRow). text_eq r.employee_id employee && has_no_end r.upper) rows)
      ≡ keep (is_current employee id) rows
unfolding keep
keep-current employee id [] = refl
keep-current employee id (r ∷ rows) = ground (arith, keep-current employee id rows)

lookup-assigned_policies :
    (employee id : Text) (p : Projection)
    → lookup id (assigned_policies employee p)
      ≡ last_policy none (keep (is_current employee id) p.assignments)
unfolding assigned_policies lookup
lookup-assigned_policies employee id p =
    let own =
      keep (λ (r : AssignmentRow). text_eq r.employee_id employee && has_no_end r.upper)
        p.assignments in
    lookup-last_policies id own [] ∙ ap (last_policy none) (keep-current employee id p.assignments)

-- The drift row of a category whose cardinality is not `single`.
abbrev pub IsNotSingle : Store → DriftRow → Type 0
IsNotSingle s d =
    (config : CategoryConfig) → category d.category_id s ≡ ok config → config.cardinality ≢ single

module _ (codec : Codec) (now : ℤ) (today : Text) (trigger : Option ℕ) (employee : Text) (day : ℕ)
    (s : Store) where
  -- The policies agree where the projection is up to date and at most one policy is assigned.
  agree :
      (c : CategoryConfig) (res : Resolution)
      → resolve_for_employee codec now employee c.id today s ≡ ok res
      → Reflects codec now today trigger employee c.id day res s.projection
      → (config : CategoryConfig) → category c.id s ≡ ok config
      → config.cardinality ≡ single
      → text_eq
          (actual_policy (lookup c.id (assigned_policies employee s.projection)))
          (expected_policy res.assignments)
        ≡ true
  agree c res resolved held config hc one =
      let asked = resolve_for_employee-Asked codec now employee c.id today s res resolved in
      let same : config ≡ asked.input.category = ok-injective (sym hc ∙ asked.configured) in
      let found =
        lookup-assigned_policies employee c.id s.projection ∙ ap (last_policy none) held.assigned in
      elim (resolve-single asked.input res asked.resolved
        (ap (λ (x : CategoryConfig). x.cardinality) (sym same) ∙ one)) [
          | inl (none_assigned, _) ↦ (text_eq_iff _ _).1 (
              ap actual_policy (
                found
                ∙ ap (λ l. last_policy none (map (assignment_row employee c.id day trigger) l))
                    none_assigned)
              ∙ ap expected_policy (sym none_assigned))
          | inr (a, one_assigned) ↦ (text_eq_iff _ _).1 (
              ap actual_policy (
                found
                ∙ ap (λ l. last_policy none (map (assignment_row employee c.id day trigger) l))
                    one_assigned)
              ∙ ap expected_policy (sym one_assigned))
        ]

  find_drift-IsNotSingle :
      (cs : List CategoryConfig)
      → All (IsUpToDate codec now today trigger employee day s s.projection) cs
      → (drift : List DriftRow) × (find_drift codec now today employee
            (assigned_policies employee s.projection)
            cs
            s
          ≡ ok drift)
        × All (IsNotSingle s) drift
  unfolding find_drift
  find_drift-IsNotSingle [] h = ([], refl, tt)
  find_drift-IsNotSingle (c ∷ cs) ((res, resolved, held), h) =
      let (drift, e, ih) = find_drift-IsNotSingle cs h in
      let expected = expected_policy res.assignments in
      let found = actual_policy (lookup c.id (assigned_policies employee s.projection)) in
      elim (Bool-cases (text_eq found expected)) [
        | inl t ↦ (drift, rw (resolved, find_drift) (rw t e), ih)
        | inr f ↦ (
          record { employee_id = employee; category_id = c.id; expected = expected; actual = found }
              ∷ drift,
          rw (resolved, find_drift) (rw (f, e) refl),
          ((λ config hc one. true≢false (sym (agree c res resolved held config hc one) ∙ f)), ih),
        )
      ]

-- Right after `ReconcileEmployee` returns without an error, the sweeper can compare all categories
-- of the employee, and finds no drift in a category of cardinality `single`. The ids of the
-- categories are distinct.
pub find_drift-reconcile_employee :
    (codec : Codec) (now : ℤ) (today : Text) (trigger : Option ℕ) (employee : Text) (day : ℕ)
    (s s' : Store)
    → pg_date today ≡ ok day
    → HasDistinct (λ (r : CategoryRow). r.id) s.categories
    → reconcile_employee codec now today trigger employee s ≡ (s', ok tt)
    → (drift : List DriftRow) × (find_drift codec now today employee
          (assigned_policies employee s'.projection)
          (list_categories s')
          s'
        ≡ ok drift)
      × All (IsNotSingle s') drift
find_drift-reconcile_employee codec now today trigger employee day s s' dated distinct h =
    let done =
      reconcile_employee-IsReconciled codec now today trigger employee day s s' dated distinct h in
    find_drift-IsNotSingle codec now today trigger employee day s' (list_categories s') done.current
