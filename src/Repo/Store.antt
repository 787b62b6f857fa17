-- ===== src/Repo/Store.antt =====
-- The store of internal/repo/: all tables of the database, with internal/repo/categories.go,
-- internal/repo/resolve.go, and the employees of internal/repo/facts.go.
pub mod Resolving
use wrap_policy_assignment_s.Base.{
  ℕ, Bool, true, false, not, ◌||◌, Option, none, some, List, [], ◌∷◌, ◌++◌, map, if◌then◌else◌,
  Result, ok, err, ◌>>=◌, ◌>>◌, guard, wrap,
}
use wrap_policy_assignment_s.Base.Int.{ℤ}
use wrap_policy_assignment_s.Base.Text.{Text, codes, text_eq, text_lt}
use wrap_policy_assignment_s.Base.Map.{Map}
use wrap_policy_assignment_s.Base.Sort.{sort_by}
use wrap_policy_assignment_s.Resolver.Value.{Value}
use wrap_policy_assignment_s.Resolver.Ast.{Predicate}
use wrap_policy_assignment_s.Resolver.Ast.Validate.{AttributeDefinition}
use wrap_policy_assignment_s.Resolver.Types.{
  Cardinality, single, many, other_cardinality, ResolutionStrategy, priority_rank,
  explicit_user_choice, additive, other_strategy, CategoryConfig,
}
use wrap_policy_assignment_s.Resolver.Resolve.{Input, Resolution, ResolveError, resolve}
use wrap_policy_assignment_s.Repo.Facts.{FactTable, FactError, SegmentMember, pg_date, facts_at}
use wrap_policy_assignment_s.Repo.Segments.{Segment}
use wrap_policy_assignment_s.Repo.Rules.{RuleTables, RuleError, effective_rules}
use wrap_policy_assignment_s.Repo.Projection.{Projection}
use wrap_policy_assignment_s.Repo.Outbox.{OutboxTable}
use wrap_policy_assignment_s.Repo.Traces.{TraceTable, TraceEncoder}

-- `PolicyCategory` of gen/db/models.go; the other columns are never read.
pub record CategoryRow : Type 0 where
  pub id : Text
  pub cardinality : Text
  pub resolution_strategy : Text
  pub default_priority : ℤ
  pub tiebreaker : Text

-- `Employee` of gen/db/models.go; the instant of its creation is never read.
pub record EmployeeRow : Type 0 where
  pub id : Text
  pub company_id : Text
  pub hired_on : ℕ

-- `Store`: the tables, and the attribute definitions that are read once.
pub record Store : Type 0 where
  pub categories : List CategoryRow
  pub definitions : Map AttributeDefinition
  pub employees : List EmployeeRow
  pub facts : FactTable
  pub segments : List Segment
  pub members : List SegmentMember
  pub rules : RuleTables
  pub outbox : OutboxTable
  pub projection : Projection
  pub traces : TraceTable

-- `encoding/json` on what the store reads and writes, where `none` is an error. What the program
-- encodes is given as the text that the database keeps of it; `jsonb` is that text for one that a
-- request brings, or `none` where the database refuses it.
pub record Codec : Type 0 where
  pub predicate : Text → Option Predicate
  pub decode : Text → Option Value
  pub encode : Value → Option Text
  pub payload : Map Value → Option Text
  pub trace : TraceEncoder
  pub jsonb : Text → Option Text

-- `resolver.Cardinality(s)`
abbrev pub to_cardinality : Text → Cardinality
to_cardinality s =
    if text_eq s (codes "single")
    then single
    else if text_eq s (codes "many")
    then many
    else other_cardinality s

-- `resolver.ResolutionStrategy(s)`
abbrev pub to_strategy : Text → ResolutionStrategy
to_strategy s =
    if text_eq s (codes "priority_rank")
    then priority_rank
    else if text_eq s (codes "explicit_user_choice")
    then explicit_user_choice
    else if text_eq s (codes "additive")
    then additive
    else other_strategy s

abbrev pub to_config : CategoryRow → CategoryConfig
to_config r = record {
  id = r.id;
  cardinality = to_cardinality r.cardinality;
  resolution_strategy = to_strategy r.resolution_strategy;
  default_priority = r.default_priority;
  tiebreaker = r.tiebreaker;
}

-- `GetCategory`
unfoldable pub get_category : Text → List CategoryRow → Option CategoryRow
get_category id [] = none
get_category id (r ∷ rs) = if text_eq r.id id then some r else get_category id rs

pub data StoreError : Type 0 where
  no_category : Text → StoreError
  bad_facts_of : FactError → StoreError
  bad_rules : RuleError → StoreError
  unresolved : ResolveError → StoreError
  duplicate_employee : Text → StoreError

-- `Category`
unfoldable pub category : Text → Store → Result StoreError CategoryConfig
category id s = elim (get_category id s.categories) [
  | none ↦ err (no_category id)
  | some r ↦ ok (to_config r)
]

-- `ListCategories`
unfoldable pub list_categories : Store → List CategoryConfig
list_categories s = map to_config (sort_by (λ (a b : CategoryRow). text_lt a.id b.id) s.categories)

unfoldable pub has_employee : Text → List EmployeeRow → Bool
has_employee id [] = false
has_employee id (e ∷ es) = text_eq e.id id || has_employee id es

-- `AddEmployee`. The statement is named `UpsertEmployee`, and inserts only.
unfoldable pub add_employee : Text → Text → Text → Store → Result StoreError Store
add_employee id company hired_on s = do
  hired ← wrap bad_facts_of (pg_date hired_on)
  guard (not (has_employee id s.employees)) (duplicate_employee id)
  ok (record s {
    employees = s.employees ++ record { id = id; company_id = company; hired_on = hired } ∷ [];
  })

-- `ListEmployeeIDs`
unfoldable pub list_employee_ids : Store → List Text
list_employee_ids s = sort_by text_lt (map (λ (e : EmployeeRow). e.id) s.employees)

-- `ListSegments`
unfoldable pub list_segments : Store → List Segment
list_segments s = sort_by (λ (a b : Segment). text_lt a.id b.id) s.segments

-- `ResolveForEmployee`; `now` is the time of the call. Its options are never read.
unfoldable pub resolve_for_employee :
    Codec → ℤ → Text → Text → Text → Store → Result StoreError Resolution
resolve_for_employee codec now employee category_id date s = do
  config ← category category_id s
  facts ← wrap bad_facts_of (facts_at codec.decode s.members employee date s.facts)
  rules ← wrap bad_rules (effective_rules codec.predicate now category_id date s.rules)
  wrap unresolved (
      resolve (record {
        category = config;
        date = date;
        facts = facts;
        rules = rules;
        definitions = some s.definitions;
      }))
