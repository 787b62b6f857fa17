-- ===== src/Repo/Projection.antt =====
-- internal/repo/projection.go and gen/db/projection.sql.go: the assignments and shadowed matches
-- that are kept of the resolutions. The instants at which rows were computed are never read.
pub mod Materializing
use wrap_policy_assignment_s.Base.{
  ℕ, Bool, true, false, not, ◌&&◌, ◌||◌, ◌==◌, Option, none, some, List, [], ◌∷◌, ◌++◌, map, keep,
  Result, ok, err, ◌>>=◌, wrap, if◌then◌else◌,
}
use wrap_policy_assignment_s.Base.Text.{Text, text_eq}
use wrap_policy_assignment_s.Base.Map.{Map, insert}
use wrap_policy_assignment_s.Resolver.Types.{Assignment, ShadowedMatch}
use wrap_policy_assignment_s.Resolver.Resolve.{Resolution}
use wrap_policy_assignment_s.Repo.Facts.{FactError, pg_date}

-- `Assignment` of gen/db/models.go; the range holds from `lower` to before `upper`, or for ever.
pub record AssignmentRow : Type 0 where
  pub employee_id : Text
  pub category_id : Text
  pub policy_id : Text
  pub policy_version_id : Text
  pub rule_id : Text
  pub lower : ℕ
  pub upper : Option ℕ
  pub trigger_event_id : Option ℕ

-- `ShadowedMatch` of gen/db/models.go; its range has no end.
pub record ShadowedRow : Type 0 where
  pub employee_id : Text
  pub category_id : Text
  pub rule_id : Text
  pub by_rule_id : Text
  pub lower : ℕ

pub record Projection : Type 0 where
  pub assignments : List AssignmentRow
  pub shadowed : List ShadowedRow

pub data ProjectionError : Type 0 where
  bad_as_of : FactError → ProjectionError
  duplicate_assignment duplicate_shadowed : ProjectionError

abbrev pub has_no_end : Option ℕ → Bool
has_no_end none = true
has_no_end (some d) = false

-- The rows that `ReplaceAssignmentsForEmployeeCategory` deletes.
abbrev pub is_current : Text → Text → AssignmentRow → Bool
is_current employee category r =
    text_eq r.employee_id employee && text_eq r.category_id category && has_no_end r.upper

abbrev pub is_shadowed_in : Text → Text → ShadowedRow → Bool
is_shadowed_in employee category r =
    text_eq r.employee_id employee && text_eq r.category_id category

-- `ReplaceAssignmentsForEmployeeCategory` and `ReplaceShadowedMatches`
unfoldable pub replace_current : Text → Text → Projection → Projection
replace_current employee category p = record {
  assignments = keep (λ r. not (is_current employee category r)) p.assignments;
  shadowed = keep (λ r. not (is_shadowed_in employee category r)) p.shadowed;
}

-- The primary keys of the two tables, for rows whose range has no end.
abbrev pub same_assignment : AssignmentRow → AssignmentRow → Bool
same_assignment r s =
    text_eq r.employee_id s.employee_id
    && text_eq r.category_id s.category_id
    && text_eq r.policy_id s.policy_id
    && r.lower == s.lower
    && has_no_end s.upper

abbrev pub same_shadowed : ShadowedRow → ShadowedRow → Bool
same_shadowed r s =
    text_eq r.employee_id s.employee_id
    && text_eq r.category_id s.category_id
    && text_eq r.rule_id s.rule_id
    && r.lower == s.lower

unfoldable pub is_taken : {A : Type 0} → (A → A → Bool) → A → List A → Bool
is_taken same r [] = false
is_taken same r (s ∷ rows) = same r s || is_taken same r rows

-- The loops that insert rows: `InsertAssignment` and `InsertShadowedMatch`.
unfoldable pub insert_all :
    {A : Type 0}
    → (A → A → Bool)
    → ProjectionError
    → List A
    → List A
    → Result ProjectionError (List A)
insert_all same duplicate [] rows = ok rows
insert_all same duplicate (r ∷ rs) rows =
    let rest = insert_all same duplicate rs (rows ++ r ∷ []) in
    if is_taken same r rows then err duplicate else rest

abbrev pub assignment_row : Text → Text → ℕ → Option ℕ → Assignment → AssignmentRow
assignment_row employee category start trigger a = record {
  employee_id = employee;
  category_id = category;
  policy_id = a.policy_id;
  policy_version_id = a.policy_version_id;
  rule_id = a.rule_id;
  lower = start;
  upper = none;
  trigger_event_id = trigger;
}

abbrev pub shadowed_row : Text → Text → ℕ → ShadowedMatch → ShadowedRow
shadowed_row employee category start s = record {
  employee_id = employee;
  category_id = category;
  rule_id = s.rule_id;
  by_rule_id = s.by_rule_id;
  lower = start;
}

-- `Materialize`. An error rolls the transaction back.
unfoldable pub materialize :
    Text → Resolution → Option ℕ → Projection → Result ProjectionError Projection
materialize employee res trigger p = do
  start ← wrap bad_as_of (pg_date res.as_of_date)
  assignments ←
      insert_all same_assignment duplicate_assignment
        (map (assignment_row employee res.category_id start trigger) res.assignments)
        (replace_current employee res.category_id p).assignments
  shadowed ←
      insert_all same_shadowed duplicate_shadowed
        (map (shadowed_row employee res.category_id start) res.shadowed)
        (replace_current employee res.category_id p).shadowed
  ok (record { assignments = assignments; shadowed = shadowed })

unfoldable pub last_policies : List AssignmentRow → Map Text → Map Text
last_policies [] out = out
last_policies (r ∷ rs) out = last_policies rs (insert r.category_id r.policy_id out)

-- `AssignedPolicies`
unfoldable pub assigned_policies : Text → Projection → Map Text
assigned_policies employee p =
    last_policies (keep (λ r. text_eq r.employee_id employee && has_no_end r.upper) p.assignments)
      []
