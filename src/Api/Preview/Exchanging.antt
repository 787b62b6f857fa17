-- ===== src/Api/Preview/Exchanging.antt =====
-- What the preview of one employee adds, where at most one policy is assigned.
use mathlib.Core.Bool.{true≢false}
use mathlib.Core.List.{
  Mem, mem-cons_self, mem-cons_of_mem, not-mem-nil, mem-append_left, mem-append_right,
  mem-map_of_mem,
}
use mathlib.Core.List.Perm
use wrap_policy_assignment_s.Base.{
  ◌≡◌, refl, sym, ◌∙◌, ap, subst, ◌≢◌, inl, inr, true, false, not, List, [], ◌∷◌, ◌++◌, map, Perm,
  All, All-imp, All-append, arith,
}
use wrap_policy_assignment_s.Base.Keep.{mem-keep}
use wrap_policy_assignment_s.Base.Text.{Text, text_eq, text_eq_iff}
use wrap_policy_assignment_s.Resolver.Ast.Validate.{mem_text}
use wrap_policy_assignment_s.Resolver.Ast.Validate.Members.{mem_text_of_mem}
use wrap_policy_assignment_s.Resolver.Types.{Assignment, RuleVersion}
use wrap_policy_assignment_s.Resolver.Resolve.{Resolution}
use wrap_policy_assignment_s.Resolver.Resolve.Addition.{AssignsAtMostOne, IsSwitched}
use wrap_policy_assignment_s.Api.Preview.{
  PreviewRow, PreviewResponse, policy_set, missing_from, gained_row, lost_row, winner_rule_id,
  add_preview,
}

-- A row for the policy that the employee gains.
abbrev pub HasGain : Text → Text → List PreviewRow → Type 0
HasGain policy employee gained =
    (via : Text) × Mem
      (record { employee_id = employee; policy_id = policy; via = via; reason = [] }) gained

-- Only the policy is gained, and an employee who loses another one gains it.
pub record IsExchange (policy : Text) (out : PreviewResponse) : Type 0 where
  pub gains : All (λ (r : PreviewRow). r.policy_id ≡ policy) out.gained
  pub losses :
      All
        (λ (r : PreviewRow). (r.policy_id ≢ policy) × HasGain policy r.employee_id out.gained)
        out.lost

All-map {ℓ κ} :
    {A B : Type ℓ} (P : B → Type κ) (f : A → B) (l : List A)
    → ((a : A) → Mem a l → P (f a))
    → All P (map f l)
All-map P f [] h = tt
All-map P f (x ∷ l) h = (h x mem-cons_self, All-map P f l (λ a m. h a (mem-cons_of_mem x m)))

-- The sets of the policies before and after: every new one is `policy`, and where one is lost,
-- `policy` is new.
pub record Exchanges (policy : Text) (before after : List Text) : Type 0 where
  pub news : (p : Text) → Mem p after → mem_text p before ≡ false → p ≡ policy
  pub olds :
      (p : Text)
      → Mem p before
      → mem_text p after ≡ false
      → Mem policy after × (mem_text policy before ≡ false)

same-Exchanges : (policy : Text) (set : List Text) → Exchanges policy set set
same-Exchanges policy set = record {
  news = λ p m h. absurd (true≢false (sym (mem_text_of_mem p set m) ∙ h));
  olds = λ p m h. absurd (true≢false (sym (mem_text_of_mem p set m) ∙ h));
}

only_mem : (p q : Text) → Mem p (q ∷ []) → text_eq q p ≡ true
unfolding mem_text
only_mem p q m = ground (arith, mem_text_of_mem p (q ∷ []) m)

none-Exchanges : (policy : Text) → Exchanges policy [] (policy ∷ [])
none-Exchanges policy = record {
  news = λ p m h. sym ((text_eq_iff policy p).0 (only_mem p policy m));
  olds = λ p m h. absurd (not-mem-nil m);
}

one-Exchanges : (policy q : Text) → Exchanges policy (q ∷ []) (policy ∷ [])
unfolding mem_text
one-Exchanges policy q = record {
  news = λ p m h. sym ((text_eq_iff policy p).0 (only_mem p policy m));
  olds = λ p m h.
      let e : q ≡ p = (text_eq_iff q p).0 (only_mem p q m) in
      (mem-cons_self, ground (arith, h, e, text_eq_iff q policy, text_eq_iff policy p));
}

single_set : (a : Assignment) → policy_set [] (a ∷ []) ≡ a.policy_id ∷ []
unfolding policy_set mem_text
single_set a = refl

no_set : policy_set [] [] ≡ []
unfolding policy_set
no_set = refl

pub policies-Exchanges :
    (c : RuleVersion) (before after : Resolution)
    → AssignsAtMostOne before
    → IsSwitched c before after
    → Exchanges c.policy_id (policy_set [] before.assignments) (policy_set [] after.assignments)
policies-Exchanges c before after one (inl e) =
    subst (λ l. Exchanges c.policy_id (policy_set [] before.assignments) (policy_set [] l)) (sym e)
      (same-Exchanges c.policy_id (policy_set [] before.assignments))
policies-Exchanges c before after one (inr (a, e, named)) =
    let after_set : policy_set [] after.assignments ≡ c.policy_id ∷ [] =
      ap (policy_set []) e ∙ single_set a ∙ ap (λ p. p ∷ []) named in
    subst (Exchanges c.policy_id (policy_set [] before.assignments)) (sym after_set) (elim one [
      | inl n ↦
          subst (λ l. Exchanges c.policy_id l (c.policy_id ∷ []))
            (sym (ap (policy_set []) n ∙ no_set)) (none-Exchanges c.policy_id)
      | inr (b, n) ↦
          subst (λ l. Exchanges c.policy_id l (c.policy_id ∷ []))
            (sym (ap (policy_set []) n ∙ single_set b)) (one-Exchanges c.policy_id b.policy_id)
    ])

module _ (listing : List Text → List Text) (reorders : (l : List Text) → Perm (listing l) l) where
  mem-missing_from :
      (from set : List Text) (p : Text)
      → Mem p (missing_from listing from set)
      → Mem p from × (mem_text p set ≡ false)
  unfolding missing_from
  mem-missing_from from set p m =
      let (listed, apart) = (mem-keep (λ q. not (mem_text q set))).0 m in
      (Perm.subset (reorders from) p listed, ground arith)

  missing_from-mem :
      (from set : List Text) (p : Text)
      → Mem p from
      → mem_text p set ≡ false
      → Mem p (missing_from listing from set)
  unfolding missing_from
  missing_from-mem from set p m apart =
      (mem-keep (λ q. not (mem_text q set))).1
        (Perm.subset (Perm.symm (reorders from)) p m, ground arith)

  pub add_preview-IsExchange :
      (policy employee : Text) (before after : Resolution) (out : PreviewResponse)
      → Exchanges policy (policy_set [] before.assignments) (policy_set [] after.assignments)
      → IsExchange policy out
      → IsExchange policy (add_preview listing policy employee before after out)
  unfolding add_preview
  add_preview-IsExchange policy employee before after out e h =
      let sets_before = policy_set [] before.assignments in
      let sets_after = policy_set [] after.assignments in
      let added = map (gained_row employee after) (missing_from listing sets_after sets_before) in
      let dropped = missing_from listing sets_before sets_after in
      record {
        gains =
            All-append (λ (r : PreviewRow). r.policy_id ≡ policy) out.gained added h.gains
              (All-map (λ (r : PreviewRow). r.policy_id ≡ policy) (gained_row employee after)
                (missing_from listing sets_after sets_before)
                (λ p m.
                  let (there, new) = mem-missing_from sets_after sets_before p m in
                  e.news p there new));
        losses =
            All-append
              (λ (r : PreviewRow).
                (r.policy_id ≢ policy) × HasGain policy r.employee_id (out.gained ++ added))
              out.lost (map (lost_row employee) dropped)
              (All-imp
                (λ (r : PreviewRow).
                  (r.policy_id ≢ policy) × HasGain policy r.employee_id out.gained)
                (λ (r : PreviewRow).
                  (r.policy_id ≢ policy) × HasGain policy r.employee_id (out.gained ++ added))
                (λ r (other, (via, m)). (other, (via, mem-append_left added m))) out.lost h.losses)
              (All-map
                (λ (r : PreviewRow).
                  (r.policy_id ≢ policy) × HasGain policy r.employee_id (out.gained ++ added))
                (lost_row employee) dropped
                (λ p m.
                  let (there, lost) = mem-missing_from sets_before sets_after p m in
                  let (now_has, had_not) = e.olds p there lost in
                  (
                    λ same. true≢false (
                        sym (mem_text_of_mem policy sets_after now_has)
                        ∙ ap (λ x. mem_text x sets_after) (sym same)
                        ∙ lost),
                    (
                      winner_rule_id policy after.assignments after.trace.evaluated,
                      mem-append_right out.gained (
                          mem-map_of_mem (gained_row employee after)
                            (missing_from-mem sets_after sets_before policy now_has had_not)),
                    ),
                  )));
      }
