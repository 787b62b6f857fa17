-- ===== src/Repo/Registry.antt =====
-- The attribute definitions of internal/repo/db.go, internal/repo/categories.go and
-- gen/db/employees.sql.go, and the policies with their versions, which no decision reads.
pub mod Names
pub mod Loading
use wrap_policy_assignment_s.Base.{
  ℕ, Bool, false, not, ◌&&◌, ◌||◌, Option, none, some, List, [], ◌∷◌, ◌++◌, map, if◌then◌else◌,
  Result, ok, err, ◌>>=◌, ◌>>◌, guard, wrap,
}
use wrap_policy_assignment_s.Base.Int.{ℤ, int_eq}
use wrap_policy_assignment_s.Base.Int32.{int32}
use wrap_policy_assignment_s.Base.Text.{Text, codes, text_eq, text_lt}
use wrap_policy_assignment_s.Base.Map.{Map, insert}
use wrap_policy_assignment_s.Base.Sort.{sort_by}
use wrap_policy_assignment_s.Resolver.Value.{
  ClauseOp, op_eq, op_ne, op_in, op_not_in, op_gte, op_gt, op_lte, op_lt, op_contains, unknown_op,
}
use wrap_policy_assignment_s.Resolver.Ast.Validate.{
  ValueType, type_string, type_number, type_date, type_bool, type_enum, other_type,
  AttributeDefinition,
}
use wrap_policy_assignment_s.Repo.Facts.{FactError, pg_date}

-- `AttributeDefinition` of gen/db/models.go.
pub record DefinitionRow : Type 0 where
  pub key : Text
  pub value_type : Text
  pub allowed_ops : List Text
  pub enum_values : List Text
  pub description : Text

-- `Policy` of gen/db/models.go. The payload is always `{}`.
pub record PolicyRow : Type 0 where
  pub id : Text
  pub category_id : Text
  pub name : Text

-- `PolicyVersion` of gen/db/models.go. The payload is always `{}`; the range starts at `lower` and
-- has no end. The instant of recording is never read.
pub record PolicyVersionRow : Type 0 where
  pub id : Text
  pub policy_id : Text
  pub version : ℤ
  pub lower : ℕ

pub record Registry : Type 0 where
  pub definitions : List DefinitionRow
  pub policies : List PolicyRow
  pub versions : List PolicyVersionRow

pub data RegistryError : Type 0 where
  duplicate_definition invalid_value_type no_allowed_ops : Text → RegistryError
  duplicate_version : Text → RegistryError
  invalid_date : FactError → RegistryError

-- `resolver.ValueType(s)`
abbrev pub to_value_type : Text → ValueType
to_value_type s =
    if text_eq s (codes "string")
    then type_string
    else if text_eq s (codes "number")
    then type_number
    else if text_eq s (codes "date")
    then type_date
    else if text_eq s (codes "bool")
    then type_bool
    else if text_eq s (codes "enum")
    then type_enum
    else other_type s

-- `resolver.ClauseOp(s)`
abbrev pub to_clause_op : Text → ClauseOp
to_clause_op s =
    if text_eq s (codes "eq")
    then op_eq
    else if text_eq s (codes "ne")
    then op_ne
    else if text_eq s (codes "in")
    then op_in
    else if text_eq s (codes "not_in")
    then op_not_in
    else if text_eq s (codes "gte")
    then op_gte
    else if text_eq s (codes "gt")
    then op_gt
    else if text_eq s (codes "lte")
    then op_lte
    else if text_eq s (codes "lt")
    then op_lt
    else if text_eq s (codes "contains")
    then op_contains
    else unknown_op s

-- The constraint on the column `value_type`.
abbrev pub is_value_type : Text → Bool
is_value_type s =
    text_eq s (codes "string")
    || text_eq s (codes "number")
    || text_eq s (codes "date")
    || text_eq s (codes "bool")
    || text_eq s (codes "enum")

unfoldable pub has_definition : Text → List DefinitionRow → Bool
has_definition key [] = false
has_definition key (r ∷ rs) = text_eq r.key key || has_definition key rs

-- `InsertAttributeDefinition`, with the primary key and the constraint of the table.
unfoldable pub insert_attribute_definition :
    DefinitionRow → Registry → Result RegistryError Registry
insert_attribute_definition r t = do
  guard (is_value_type r.value_type) (invalid_value_type r.value_type)
  guard (not (has_definition r.key t.definitions)) (duplicate_definition r.key)
  ok (record t { definitions = t.definitions ++ r ∷ [] })

abbrev pub new_definition : Text → Text → List Text → List Text → Text → DefinitionRow
new_definition key value_type ops values description = record {
  key = key;
  value_type = value_type;
  allowed_ops = ops;
  enum_values = values;
  description = description;
}

-- `AddAttributeDefinition`. The operators are `none` for a nil slice, which is NULL in a column that
-- is NOT NULL; a nil slice of values reads back as an empty list does.
unfoldable pub add_attribute_definition :
    Text → Text → Option (List Text) → List Text → Text → Registry → Result RegistryError Registry
add_attribute_definition key value_type none values description t = err (no_allowed_ops key)
add_attribute_definition key value_type (some ops) values description t =
    insert_attribute_definition (new_definition key value_type ops values description) t

-- `ListAttributeDefinitions`
unfoldable pub list_attribute_definitions : Registry → List DefinitionRow
list_attribute_definitions t = sort_by (λ (a b : DefinitionRow). text_lt a.key b.key) t.definitions

-- The value of the loop of `loadDefinitions`.
abbrev pub to_definition : DefinitionRow → AttributeDefinition
to_definition r = record {
  key = r.key;
  value_type = to_value_type r.value_type;
  allowed_ops = map to_clause_op r.allowed_ops;
  enum_values = r.enum_values;
}

-- The loop of `loadDefinitions`.
unfoldable pub collect_definitions :
    Map AttributeDefinition → List DefinitionRow → Map AttributeDefinition
collect_definitions defs [] = defs
collect_definitions defs (r ∷ rs) = collect_definitions (insert r.key (to_definition r) defs) rs

-- `loadDefinitions`
unfoldable pub load_definitions : Registry → Map AttributeDefinition
load_definitions t = collect_definitions [] (list_attribute_definitions t)

unfoldable pub has_policy_row : Text → List PolicyRow → Bool
has_policy_row id [] = false
has_policy_row id (p ∷ ps) = text_eq p.id id || has_policy_row id ps

-- `AddPolicy` by `InsertPolicy`, which does nothing on a conflict.
unfoldable pub add_policy : Text → Text → Text → Registry → Registry
add_policy id category name t = if has_policy_row id t.policies then t else record t {
  policies = t.policies ++ record { id = id; category_id = category; name = name } ∷ [];
}

-- The primary key of a version, and its second key of policy and version.
unfoldable pub has_policy_version : PolicyVersionRow → List PolicyVersionRow → Bool
has_policy_version v [] = false
has_policy_version v (w ∷ ws) =
    text_eq w.id v.id
    || (text_eq w.policy_id v.policy_id && int_eq w.version v.version)
    || has_policy_version v ws

-- `InsertPolicyVersion`
unfoldable pub insert_policy_version : PolicyVersionRow → Registry → Result RegistryError Registry
insert_policy_version v t = do
  guard (not (has_policy_version v t.versions)) (duplicate_version v.id)
  ok (record t { versions = t.versions ++ v ∷ [] })

-- `AddPolicyVersion`
unfoldable pub add_policy_version :
    Text → Text → ℤ → Text → Registry → Result RegistryError Registry
add_policy_version id policy version valid_from t = do
  start ← wrap invalid_date (pg_date valid_from)
  insert_policy_version
      (record { id = id; policy_id = policy; version = int32 version; lower = start }) t
