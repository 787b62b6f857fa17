-- ===== src/Repo/Store/Resolving.antt =====
-- What `ResolveForEmployee` reads, and whose resolution it returns.
use wrap_policy_assignment_s.Base.{
  ◌≡◌, sym, ◌∙◌, ap, inl, inr, some, List, [], ◌∷◌, Bool-cases, Option-cases, ok, wrap, arith,
}
use wrap_policy_assignment_s.Base.Int.{ℤ}
use wrap_policy_assignment_s.Base.Text.{Text, text_eq, text_eq_iff}
use wrap_policy_assignment_s.Resolver.Types.{CategoryConfig}
use wrap_policy_assignment_s.Resolver.Resolve.{Input, Resolution, resolve}
use wrap_policy_assignment_s.Resolver.Resolve.Run.{resolve-Run, >>=-eq-ok, wrap-eq-ok}
use wrap_policy_assignment_s.Repo.Facts.{facts_at}
use wrap_policy_assignment_s.Repo.Rules.{effective_rules}
use wrap_policy_assignment_s.Base.Keys.{HasDistinct, HasDistinct-perm, HasDistinct-map}
use wrap_policy_assignment_s.Base.Sort.{sort_by-perm}
use wrap_policy_assignment_s.Base.Text.{text_lt}
use wrap_policy_assignment_s.Repo.Store.{
  list_categories, Store, CategoryRow, Codec, get_category, category, to_config,
  resolve_for_employee, bad_facts_of, bad_rules, unresolved,
}

get_category-id :
    (id : Text) (rows : List CategoryRow) (r : CategoryRow)
    → get_category id rows ≡ some r
    → r.id ≡ id
unfolding get_category
get_category-id id [] r h = cc
get_category-id id (x ∷ rows) r h = elim (Bool-cases (text_eq x.id id)) [
  | inl t ↦
      let e : x ≡ r = ground arith in
      ap (λ (c : CategoryRow). c.id) (sym e) ∙ (text_eq_iff x.id id).0 t
  | inr f ↦ get_category-id id rows r (ground arith)
]

category-id : (id : Text) (s : Store) (c : CategoryConfig) → category id s ≡ ok c → c.id ≡ id
unfolding category
category-id id s c h = elim (Option-cases (get_category id s.categories)) [
  | inl n ↦ absurd (ground arith)
  | inr (r, e) ↦
      let same : to_config r ≡ c = ground arith in
      ap (λ (c : CategoryConfig). c.id) (sym same) ∙ get_category-id id s.categories r e
]

pub list_categories-distinct :
    (s : Store)
    → HasDistinct (λ (r : CategoryRow). r.id) s.categories
    → HasDistinct (λ (c : CategoryConfig). c.id) (list_categories s)
unfolding list_categories
list_categories-distinct s h =
    HasDistinct-map (λ (c : CategoryConfig). c.id) to_config
      (HasDistinct-perm (λ (r : CategoryRow). r.id)
        (sort_by-perm (λ (a b : CategoryRow). text_lt a.id b.id) s.categories) h)

-- The resolution is of the category and the date that are asked for.
pub record Asked (codec : Codec) (now : ℤ) (employee category_id date : Text) (s : Store)
    (res : Resolution) : Type 0 where
  pub input : Input
  pub resolved : resolve input ≡ ok res
  pub configured : category category_id s ≡ ok input.category
  pub of_category : res.category_id ≡ category_id
  pub dated : res.as_of_date ≡ date

pub resolve_for_employee-Asked :
    (codec : Codec) (now : ℤ) (employee category_id date : Text) (s : Store) (res : Resolution)
    → resolve_for_employee codec now employee category_id date s ≡ ok res
    → Asked codec now employee category_id date s res
unfolding resolve_for_employee
resolve_for_employee-Asked codec now employee category_id date s res h =
    let (config, hc, h1) = >>=-eq-ok (category category_id s) _ h in
    let (facts, hf, h2) =
      >>=-eq-ok (wrap bad_facts_of (facts_at codec.decode s.members employee date s.facts)) _ h1 in
    let (rules, hr, h3) =
      >>=-eq-ok (wrap bad_rules (effective_rules codec.predicate now category_id date s.rules)) _
        h2 in
    let input : Input = record {
      category = config;
      date = date;
      facts = facts;
      rules = rules;
      definitions = some s.definitions;
    } in
    let done : resolve input ≡ ok res = wrap-eq-ok unresolved (resolve input) h3 in
    let parts = (resolve-Run input done).comes.parts in
    record {
      input = input;
      resolved = done;
      configured = hc;
      of_category =
          ap (λ (r : Resolution). r.category_id) parts ∙ category-id category_id s config hc;
      dated = ap (λ (r : Resolution). r.as_of_date) parts;
    }
