-- ===== src/Api/Diff.antt =====
-- internal/api/handlers.go: `resolveAllCategories` and `diffResolutions`. Go ranges over a map in any
-- order; `listing` is that order.
use wrap_policy_assignment_s.Base.{
  Bool, true, false, ◌||◌, Option, none, some, List, [], ◌∷◌, ◌++◌, if◌then◌else◌, Result, ok, err,
}
use wrap_policy_assignment_s.Base.Int.{ℤ}
use wrap_policy_assignment_s.Base.Text.{Text, text_eq}
use wrap_policy_assignment_s.Base.Map.{Map, lookup, insert}
use wrap_policy_assignment_s.Resolver.Types.{
  Outcome, assigned, shadowed, no_match, conflict_needs_decision, CategoryConfig, Assignment,
}
use wrap_policy_assignment_s.Resolver.Resolve.{Resolution}
use wrap_policy_assignment_s.Repo.Store.{
  Store, StoreError, Codec, list_categories, resolve_for_employee,
}
use wrap_policy_assignment_s.Api.{is_empty}

-- The reasons that the messages of a diff print.
pub data DiffReason : Type 0 where
  newly_covered not_covered : DiffReason
  switched_from : Text → DiffReason

pub record DiffRow : Type 0 where
  pub employee_id : Text
  pub policy_id : Text
  pub reason : DiffReason

pub record DiffResponse : Type 0 where
  pub gained : List DiffRow
  pub lost : List DiffRow

module _ (codec : Codec) (now : ℤ) (employee date : Text) (s : Store) where
  unfoldable pub resolve_categories :
      List CategoryConfig → Map Resolution → Result StoreError (Map Resolution)
  resolve_categories [] out = ok out
  resolve_categories (c ∷ cs) out = elim (resolve_for_employee codec now employee c.id date s) [
    | err e ↦ err e
    | ok res ↦ resolve_categories cs (insert c.id res out)
  ]

  -- `resolveAllCategories`
  unfoldable pub resolve_all_categories : Result StoreError (Map Resolution)
  resolve_all_categories = resolve_categories (list_categories s) []

-- The loop that leaves the last policy in `prevPolicy`.
unfoldable pub last_policy_id : Text → List Assignment → Text
last_policy_id p [] = p
last_policy_id p (a ∷ rest) = last_policy_id a.policy_id rest

abbrev pub previous_policy : Option Resolution → Text
previous_policy none = []
previous_policy (some prev) = last_policy_id [] prev.assignments

abbrev gain_reason : Text → DiffReason
gain_reason prev = if is_empty prev then newly_covered else switched_from prev

-- The loop that sets `stillHas`.
unfoldable pub has_policy : Text → List Assignment → Bool
has_policy p [] = false
has_policy p (a ∷ rest) = text_eq a.policy_id p || has_policy p rest

unfoldable pub gained_rows : Text → Text → List Assignment → List DiffRow
gained_rows employee prev [] = []
gained_rows employee prev (a ∷ rest) =
    let rows = gained_rows employee prev rest in
    if text_eq a.policy_id prev
    then rows
    else record { employee_id = employee; policy_id = a.policy_id; reason = gain_reason prev }
      ∷ rows

unfoldable pub lost_rows : Text → List Assignment → List Assignment → List DiffRow
lost_rows employee now [] = []
lost_rows employee now (a ∷ rest) =
    let rows = lost_rows employee now rest in
    if has_policy a.policy_id now
    then rows
    else record { employee_id = employee; policy_id = a.policy_id; reason = not_covered } ∷ rows

-- `res.Assignments` where there is a result.
abbrev assignments_of : Option Resolution → List Assignment
assignments_of none = []
assignments_of (some res) = res.assignments

abbrev is_decided : Outcome → Bool
is_decided assigned = true
is_decided shadowed = true
is_decided no_match = false
is_decided conflict_needs_decision = false

-- The assignments that an employee can lose.
abbrev held : Option Resolution → List Assignment
held none = []
held (some prev) = if is_decided prev.outcome then prev.assignments else []

-- The body of the loop of `diffResolutions`.
abbrev pub diff_category :
    Map Resolution → Map Resolution → Text → Text × Resolution → DiffResponse → DiffResponse
diff_category before after employee (id, res) diff = record {
  gained = diff.gained ++ gained_rows employee (previous_policy (lookup id before)) res.assignments;
  lost =
      diff.lost ++ lost_rows employee (assignments_of (lookup id after)) (held (lookup id before));
}

unfoldable pub diff_entries :
    Map Resolution → Map Resolution → Text → List (Text × Resolution) → DiffResponse → DiffResponse
diff_entries before after employee [] diff = diff
diff_entries before after employee (entry ∷ entries) diff =
    diff_entries before after employee entries (diff_category before after employee entry diff)

-- `diffResolutions`
unfoldable pub diff_resolutions :
    (Map Resolution → List (Text × Resolution))
    → Map Resolution
    → Map Resolution
    → Text
    → DiffResponse
diff_resolutions listing before after employee =
    diff_entries before after employee (listing after) (record { gained = []; lost = [] })
