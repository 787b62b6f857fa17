-- ===== src/Api/Readiness/Partition.antt =====
-- Each category stands in exactly one list of the readiness.
use wrap_policy_assignment_s.Base.{
  ◌≡◌, refl, sym, ◌∙◌, ap, subst, ◌≢◌, inl, inr, true, false, not, List, [], ◌∷◌, map, keep, Mem,
  All, Result-cases, ok, All-of_mem, All-imp_mem, arith,
}
use mathlib.Core.List.{mem-map_of_mem, Mem}
use mathlib.Core.List.Pairwise
use wrap_policy_assignment_s.Base.Keys.{HasDistinct}
use wrap_policy_assignment_s.Repo.Store.Resolving.{
  list_categories-distinct, resolve_for_employee-Asked,
}
use wrap_policy_assignment_s.Resolver.Resolve.Decided.{is_decision, resolve-nonempty}
use wrap_policy_assignment_s.Repo.Store.{CategoryRow}
use wrap_policy_assignment_s.Base.Int.{ℤ}
use wrap_policy_assignment_s.Base.Text.{Text}
use wrap_policy_assignment_s.Resolver.Ast.Validate.{mem_text}
use wrap_policy_assignment_s.Resolver.Ast.Validate.Members.{mem_text-keep, mem_text_of_mem}
use wrap_policy_assignment_s.Resolver.Types.{Outcome, CategoryConfig}
use wrap_policy_assignment_s.Resolver.Resolve.{Resolution}
use wrap_policy_assignment_s.Repo.Store.{Store, Codec, list_categories, resolve_for_employee}
use wrap_policy_assignment_s.Api.Readiness.{
  Readiness, Checklist, add_outcome, check_categories, finish, readiness_for,
}
use wrap_policy_assignment_s.Api.Readiness.Views.{
  is_applied, is_needed, View, view, applied, needed, is_open, text_eq-apart, add_outcome-other,
  add_outcome-own,
}

module _ (codec : Codec) (now : ℤ) (employee date : Text) (s : Store) where
  -- The loop returns when it resolves the first category and goes on with what that adds.
  check_categories_inv :
      (c : CategoryConfig) (cs : List CategoryConfig) (out out' : Checklist)
      → check_categories codec now employee date s (c ∷ cs) out ≡ ok out'
      → (res : Resolution) × (resolve_for_employee codec now employee c.id date s ≡ ok res)
        × (check_categories codec now employee date s cs (add_outcome c.id res.outcome res out)
            ≡ ok out')
  unfolding check_categories
  check_categories_inv c cs out out' h =
      elim (Result-cases (resolve_for_employee codec now employee c.id date s)) [
        | inr (e, r) ↦ absurd (ground arith)
        | inl (res, r) ↦ (res, r, ground arith)
      ]

  check_categories-other :
      (id : Text) (cs : List CategoryConfig) (out out' : Checklist)
      → All (λ (c : CategoryConfig). c.id ≢ id) cs
      → check_categories codec now employee date s cs out ≡ ok out'
      → view id out' ≡ view id out
  unfolding check_categories
  check_categories-other id [] out out' apart h =
      let same : out' ≡ out = ground arith in ap (view id) same
  check_categories-other id (c ∷ cs) out out' apart h =
      let (res, r, h') = check_categories_inv c cs out out' h in
      check_categories-other id cs (add_outcome c.id res.outcome res out) out' apart.1 h'
      ∙ add_outcome-other id c.id res.outcome res out (text_eq-apart c.id id apart.0)

  still_fresh :
      (id : Text) (o : Outcome) (res : Resolution) (out : Checklist) (cs : List CategoryConfig)
      → All (λ (c : CategoryConfig). id ≢ c.id) cs
      → All (λ (c : CategoryConfig). view c.id out ≡ ([], [], false)) cs
      → All (λ (c : CategoryConfig). view c.id (add_outcome id o res out) ≡ ([], [], false)) cs
  still_fresh id o res out [] apart fresh = tt
  still_fresh id o res out (c ∷ cs) apart fresh = (
    add_outcome-other c.id id o res out (text_eq-apart id c.id apart.0) ∙ fresh.0,
    still_fresh id o res out cs apart.1 fresh.1,
  )

  -- What a checklist has of a category that was resolved.
  abbrev Listed : Checklist → CategoryConfig → Type 0
  Listed out c =
      (res : Resolution) × (resolve_for_employee codec now employee c.id date s ≡ ok res)
      × (view c.id out
          ≡ (applied c.id res.outcome res, needed c.id res.outcome res, not (is_open res.outcome)))

  check_categories-Listed :
      (cs : List CategoryConfig) (out out' : Checklist)
      → HasDistinct (λ (c : CategoryConfig). c.id) cs
      → All (λ (c : CategoryConfig). view c.id out ≡ ([], [], false)) cs
      → check_categories codec now employee date s cs out ≡ ok out'
      → All (Listed out') cs
  check_categories-Listed [] out out' distinct fresh h = tt
  check_categories-Listed (c ∷ cs) out out' (Pairwise.cons first distinct) fresh h =
      let (res, r, h') = check_categories_inv c cs out out' h in
      let apart = All-of_mem (λ (d : CategoryConfig). c.id ≢ d.id) cs first in
      let behind =
        All-of_mem (λ (d : CategoryConfig). d.id ≢ c.id) cs (λ d m q. first d m (sym q)) in
      (
        (
          res,
          r,
          check_categories-other c.id cs (add_outcome c.id res.outcome res out) out' behind h'
              ∙ add_outcome-own c.id res.outcome res out fresh.0,
        ),
        check_categories-Listed cs (add_outcome c.id res.outcome res out) out' distinct
            (still_fresh c.id res.outcome res out cs apart fresh.1) h',
      )

  -- Where a category stands, and what of it.
  pub record IsPlaced (out : Readiness) (c : CategoryConfig) : Type 0 where
    pub res : Resolution
    pub resolved : resolve_for_employee codec now employee c.id date s ≡ ok res
    pub auto : keep (is_applied c.id) out.auto_applied ≡ applied c.id res.outcome res
    pub needs : keep (is_needed c.id) out.needs_decision ≡ needed c.id res.outcome res
    pub manual : mem_text c.id out.manual_required ≡ is_open res.outcome
    pub some_policy : is_decision res.outcome ≡ true → res.assignments ≢ []

  placed :
      (out : Checklist) (c : CategoryConfig)
      → Mem c (list_categories s)
      → Listed out c
      → IsPlaced (finish codec now employee date s out) c
  placed out c m (res, r, e) = record {
    res = res;
    resolved = r;
    auto = ap (λ (v : View). v.0) e;
    needs = ap (λ (v : View). v.1) e;
    manual =
        mem_text-keep c.id (λ id. not (mem_text id out.resolved))
          (map (λ (d : CategoryConfig). d.id) (list_categories s))
        ∙ ground (
          arith,
          mem_text_of_mem c.id (map (λ (d : CategoryConfig). d.id) (list_categories s))
              (mem-map_of_mem (λ (d : CategoryConfig). d.id) m),
          ap (λ (v : View). v.2) e,
        );
    some_policy =
        let asked = resolve_for_employee-Asked codec now employee c.id date s res r in
        resolve-nonempty asked.input res asked.resolved;
  }

  -- In the response of `readinessFor`, where it returns no error, each category stands in exactly one
  -- list: in `auto_applied` with the assigned policies, at least one, where the resolver assigns; in
  -- `needs_decision` with the options where it asks for a decision; in `manual_required` where no rule
  -- matches. The ids of the categories are distinct.
  pub readiness_for-IsPlaced :
      (out : Readiness)
      → HasDistinct (λ (r : CategoryRow). r.id) s.categories
      → readiness_for codec now employee date s ≡ ok out
      → All (IsPlaced out) (list_categories s)
  unfolding readiness_for keep mem_text
  readiness_for-IsPlaced out distinct h =
      elim (Result-cases (
        check_categories codec now employee date s (list_categories s)
          (record { resolved = []; auto_applied = []; needs_decision = [] }))) [
            | inr (e, r) ↦ absurd (ground arith)
            | inl (list, r) ↦
                let same : finish codec now employee date s list ≡ out = ground arith in
                subst (λ o. All (IsPlaced o) (list_categories s)) same
                  (All-imp_mem (Listed list) (IsPlaced (finish codec now employee date s list))
                    (list_categories s) (placed list)
                    (check_categories-Listed (list_categories s)
                      (record { resolved = []; auto_applied = []; needs_decision = [] }) list
                      (list_categories-distinct s distinct)
                      (All-of_mem _ (list_categories s) (λ c m. refl)) r))
          ]
