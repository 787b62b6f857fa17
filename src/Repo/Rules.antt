-- ===== src/Repo/Rules.antt =====
-- internal/repo/rules.go and gen/db/rules.sql.go: the rules with their versions, and the versions
-- that hold on a date. The company and the specificity of a stored rule are never read.
pub mod Joining
pub mod Valid
pub mod Effective
pub mod Deleting
pub mod Readable
pub mod Distinct
use Prim.Native.Nat.{Ordering}
use wrap_policy_assignment_s.Base.{
  ℕ, Bool, true, false, not, ◌&&◌, ◌||◌, ◌==◌, leb, ltb, Option, none, some, List, [], ◌∷◌, ◌++◌,
  map, keep, if◌then◌else◌, Result, ok, err, ◌>>=◌, ◌>>◌, guard, wrap,
}
use wrap_policy_assignment_s.Base.Int.{ℤ, cmp_int}
use wrap_policy_assignment_s.Base.Int32.{int32}
use wrap_policy_assignment_s.Base.Order.{is_lt, or_else, flip}
use wrap_policy_assignment_s.Base.Text.{Text, codes, text_eq, cmp_text}
use wrap_policy_assignment_s.Base.Sort.{sort_by}
use wrap_policy_assignment_s.Resolver.Ast.{Predicate, ParseError, parse_predicate}
use wrap_policy_assignment_s.Resolver.Types.{
  Source, authored, manual, system, other_source, RuleVersion,
}
use wrap_policy_assignment_s.Repo.Facts.{FactError, pg_date}

-- `AssignmentRule` of gen/db/models.go. `created_at` is an instant, `none` is NULL.
pub record RuleRow : Type 0 where
  pub id : Text
  pub company_id : Text
  pub category_id : Text
  pub policy_id : Text
  pub source : Text
  pub priority : ℤ
  pub specificity : Option ℤ
  pub created_at : Option ℤ

-- `RuleVersion` of gen/db/models.go. The range holds from `lower` to before `upper`, or for ever.
pub record VersionRow : Type 0 where
  pub id : Text
  pub rule_id : Text
  pub version : ℕ
  pub predicate : Text
  pub lower : ℕ
  pub upper : Option ℕ
  pub recorded_at : ℤ

-- The two tables, and the time of the database.
pub record RuleTables : Type 0 where
  pub rules : List RuleRow
  pub versions : List VersionRow
  pub now : ℤ

pub data RuleError : Type 0 where
  duplicate_rule duplicate_version : Text → RuleError
  invalid_source : Text → RuleError
  invalid_date : FactError → RuleError
  invalid_json : Text → RuleError
  stored_predicate_invalid : Text → ParseError → RuleError

-- `string(source)`
abbrev pub source_text : Source → Text
source_text authored = codes "authored"
source_text manual = codes "manual"
source_text system = codes "system"
source_text (other_source s) = s

-- `resolver.Source(s)`
abbrev pub to_source : Text → Source
to_source s =
    if text_eq s (codes "authored")
    then authored
    else if text_eq s (codes "manual")
    then manual
    else if text_eq s (codes "system")
    then system
    else other_source s

-- The constraint on the column `source`.
abbrev pub is_source : Text → Bool
is_source s =
    text_eq s (codes "authored") || text_eq s (codes "manual") || text_eq s (codes "system")

unfoldable pub has_rule : Text → List RuleRow → Bool
has_rule id [] = false
has_rule id (r ∷ rs) = text_eq r.id id || has_rule id rs

-- The primary key of a version, and its second key of rule and version.
unfoldable pub has_version : VersionRow → List VersionRow → Bool
has_version v [] = false
has_version v (w ∷ ws) =
    text_eq w.id v.id || (text_eq w.rule_id v.rule_id && w.version == v.version) || has_version v ws

-- `InsertAssignmentRule`
unfoldable pub insert_assignment_rule : RuleRow → RuleTables → Result RuleError RuleTables
insert_assignment_rule r t = do
  guard (is_source r.source) (invalid_source r.source)
  guard (not (has_rule r.id t.rules)) (duplicate_rule r.id)
  ok (record t { rules = t.rules ++ r ∷ [] })

-- The text that the database keeps of a JSONB parameter. `jsonb` writes the value that it read from
-- the text, or is `none` where it refuses the text.
abbrev as_jsonb : (Text → Option Text) → Text → Result RuleError Text
as_jsonb jsonb text = elim (jsonb text) [ none ↦ err (invalid_json text) | some stored ↦ ok stored ]

-- `InsertRuleVersion`. The column of the predicate is JSONB.
unfoldable pub insert_rule_version :
    (Text → Option Text) → VersionRow → RuleTables → Result RuleError RuleTables
insert_rule_version jsonb v t = do
  stored ← as_jsonb jsonb v.predicate
  guard (not (has_version v t.versions)) (duplicate_version v.id)
  ok (record t { versions = t.versions ++ record v { predicate = stored } ∷ [] })

abbrev pub new_rule : RuleTables → Text → Text → Text → Text → Source → ℤ → ℤ → RuleRow
new_rule t id company category policy source priority specificity = record {
  id = id;
  company_id = company;
  category_id = category;
  policy_id = policy;
  source = source_text source;
  priority = int32 priority;
  specificity = some (int32 specificity);
  created_at = some t.now;
}

abbrev pub first_version : RuleTables → Text → Text → ℕ → VersionRow
first_version t id predicate start = record {
  id = id ++ codes ":v1";
  rule_id = id;
  version = 1;
  predicate = predicate;
  lower = start;
  upper = none;
  recorded_at = t.now;
}

-- `CreateRule`. An error rolls the transaction back.
unfoldable pub create_rule :
    (Text → Option Text)
    → Text
    → Text
    → Text
    → Text
    → Source
    → ℤ
    → ℤ
    → Text
    → Text
    → RuleTables
    → Result RuleError RuleTables
create_rule jsonb id company category policy source priority specificity predicate valid_from t = do
  t' ← insert_assignment_rule (new_rule t id company category policy source priority specificity) t
  start ← wrap invalid_date (pg_date valid_from)
  insert_rule_version jsonb (first_version t id predicate start) t'

-- `DeleteRuleVersions`
unfoldable pub delete_rule_versions : Text → RuleTables → RuleTables
delete_rule_versions id t = record t {
  versions = keep (λ (v : VersionRow). not (text_eq v.rule_id id)) t.versions;
}

-- `DeleteAssignmentRule`
unfoldable pub delete_assignment_rule : Text → RuleTables → RuleTables
delete_assignment_rule id t = record t {
  rules = keep (λ (r : RuleRow). not (text_eq r.id id)) t.rules;
}

-- `DeleteRule`
unfoldable pub delete_rule : Text → RuleTables → RuleTables
unfolding delete_rule_versions delete_assignment_rule
delete_rule id t = delete_assignment_rule id (delete_rule_versions id t)

-- `GetEffectiveRuleVersionsAsOfRow`, with the instant that the query sorts by.
pub record EffectiveRow : Type 0 where
  pub rule_id : Text
  pub rule_version_id : Text
  pub category_id : Text
  pub policy_id : Text
  pub source : Text
  pub priority : ℤ
  pub created_at : Option ℤ
  pub predicate : Text
  pub recorded_at : ℤ

abbrev pub effective_row : RuleRow → VersionRow → EffectiveRow
effective_row r v = record {
  rule_id = r.id;
  rule_version_id = v.id;
  category_id = r.category_id;
  policy_id = r.policy_id;
  source = r.source;
  priority = r.priority;
  created_at = r.created_at;
  predicate = v.predicate;
  recorded_at = v.recorded_at;
}

-- `rv.valid_range @> day`
abbrev pub version_covers : ℕ → VersionRow → Bool
version_covers day v = leb v.lower day && elim (v.upper) [ none ↦ true | some d ↦ ltb day d ]

-- The versions of a rule that hold on the day.
abbrev pub joins : ℕ → RuleRow → VersionRow → Bool
joins day r v = text_eq v.rule_id r.id && version_covers day v

unfoldable pub join_rule : ℕ → List VersionRow → RuleRow → List EffectiveRow
join_rule day versions r = map (effective_row r) (keep (joins day r) versions)

-- `FROM assignment_rule JOIN rule_version ... WHERE`
unfoldable pub join_rules : Text → ℕ → List VersionRow → List RuleRow → List EffectiveRow
join_rules category day versions [] = []
join_rules category day versions (r ∷ rs) =
    (if text_eq r.category_id category then join_rule day versions r else [])
    ++ join_rules category day versions rs

-- `ORDER BY rv.rule_id, rv.recorded_at DESC`
abbrev pub cmp_effective : EffectiveRow → EffectiveRow → Ordering
cmp_effective a b =
    or_else (cmp_text a.rule_id b.rule_id) (flip (cmp_int a.recorded_at b.recorded_at))

-- `DISTINCT ON (rv.rule_id)`: the first row of each rule.
unfoldable pub distinct_on_rule : List EffectiveRow → List EffectiveRow
distinct_on_rule [] = []
distinct_on_rule (r ∷ rs) =
    r ∷ keep (λ (s : EffectiveRow). not (text_eq s.rule_id r.rule_id)) (distinct_on_rule rs)

-- `GetEffectiveRuleVersionsAsOf`
unfoldable pub get_effective_rule_versions_as_of : Text → ℕ → RuleTables → List EffectiveRow
get_effective_rule_versions_as_of category day t =
    distinct_on_rule
      (sort_by (λ a b. is_lt (cmp_effective a b)) (join_rules category day t.versions t.rules))

-- `timestamptzOrNow`; `now` is the time of the call.
abbrev pub timestamptz_or_now : ℤ → Option ℤ → ℤ
timestamptz_or_now now none = now
timestamptz_or_now now (some created) = created

-- The rule that the loop of `EffectiveRules` appends; its policy version stays empty.
abbrev pub to_rule_version : ℤ → EffectiveRow → Predicate → RuleVersion
to_rule_version now r predicate = record {
  rule_id = r.rule_id;
  rule_version_id = r.rule_version_id;
  category_id = r.category_id;
  policy_id = r.policy_id;
  policy_version_id = [];
  source = to_source r.source;
  priority = r.priority;
  created_at = timestamptz_or_now now r.created_at;
  predicate = predicate;
}

-- The loop of `EffectiveRules`.
unfoldable pub to_rule_versions :
    (Text → Option Predicate) → ℤ → List EffectiveRow → Result RuleError (List RuleVersion)
to_rule_versions unmarshal now [] = ok []
to_rule_versions unmarshal now (r ∷ rs) =
    let rest = to_rule_versions unmarshal now rs in
    do
      predicate ← wrap (stored_predicate_invalid r.rule_id) (parse_predicate unmarshal r.predicate)
      rules ← rest
      ok (to_rule_version now r predicate ∷ rules)

-- `EffectiveRules`
unfoldable pub effective_rules :
    (Text → Option Predicate) → ℤ → Text → Text → RuleTables → Result RuleError (List RuleVersion)
effective_rules unmarshal now category date t = do
  day ← wrap invalid_date (pg_date date)
  to_rule_versions unmarshal now (get_effective_rule_versions_as_of category day t)
