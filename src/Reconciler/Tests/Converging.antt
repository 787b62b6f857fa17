-- ===== src/Reconciler/Tests/Converging.antt =====
-- A store with one employee, one category and one rule, created, reconciled and swept.
use mathlib.Core.List.{Pairwise.nil}
use mathlib.Core.Option.{Option}
use wrap_policy_assignment_s.Base.{
  ◌≡◌, refl, none, some, List, [], ◌∷◌, ◌++◌, keep, Result, ok, err, Perm, All,
}
use wrap_policy_assignment_s.Base.Int.{pos}
use wrap_policy_assignment_s.Base.Keys.{HasDistinct, HasDistinct-cons}
use wrap_policy_assignment_s.Base.Text.{Text, codes, cmp_text}
use wrap_policy_assignment_s.Base.Map.{lookup, insert}
use wrap_policy_assignment_s.Base.Sort.{sort_by}
use wrap_policy_assignment_s.Base.Date.{day_number, parse_date}
use wrap_policy_assignment_s.Resolver.Value.{
  string, op_eq, eval_clause, normalize_comparable, compare_values,
}
use wrap_policy_assignment_s.Resolver.Ast.{matches, first_failure, fails_clause, parse_predicate}
use wrap_policy_assignment_s.Resolver.Ast.Validate.{type_string, validate, each, is_string}
use wrap_policy_assignment_s.Resolver.Facts.{derive_attributes}
use wrap_policy_assignment_s.Resolver.Types.{authored}
use wrap_policy_assignment_s.Resolver.Selection.{select}
use wrap_policy_assignment_s.Resolver.Conflicts.{compare_rules, specificity, sort_matched}
use wrap_policy_assignment_s.Resolver.Trace.{
  build_evaluations, rank_by_rule, evaluate_matched, evaluate_rule, evaluate_all, short_answer,
  sort_rule_version_ids,
}
use wrap_policy_assignment_s.Resolver.Resolve.{
  validate_category, validate_all, parse_as_of, resolve, resolve_on, resolve_attributes,
  resolve_rules, category_rules, match_results, matched_rules,
}
use wrap_policy_assignment_s.Resolver.Tests.{in_eng}
use wrap_policy_assignment_s.Repo.Facts.{
  pg_date, facts_at, get_employee_facts_as_of, distinct_on_key, decode_facts, inject_segments,
  get_employee_segments,
}
use wrap_policy_assignment_s.Repo.Rules.{
  RuleTables, RuleError, create_rule, insert_assignment_rule, insert_rule_version, has_rule,
  has_version, new_rule, first_version, get_effective_rule_versions_as_of, join_rules, join_rule,
  distinct_on_rule, effective_rules, to_rule_versions, delete_rule,
}
use wrap_policy_assignment_s.Repo.Rules.Joining.{IsValid}
use wrap_policy_assignment_s.Repo.Rules.Valid.{
  IsReached.empty, IsReached.next, Step.creates, IsReached-IsValid,
}
use wrap_policy_assignment_s.Repo.Rules.Effective.{added_rows, get_effective-create_rule}
use wrap_policy_assignment_s.Repo.Rules.Deleting.{get_effective-delete_rule, is_other}
use wrap_policy_assignment_s.Repo.Projection.{
  materialize, replace_current, insert_all, is_taken, assigned_policies,
}
use wrap_policy_assignment_s.Repo.Traces.{persist_trace, insert_decision_trace}
use wrap_policy_assignment_s.Repo.Store.{
  Store, Codec, CategoryRow, category, get_category, list_categories, resolve_for_employee,
}
use wrap_policy_assignment_s.Reconciler.Employee.{
  materialize_and_trace, reconcile_categories, reconcile_employee,
}
use wrap_policy_assignment_s.Reconciler.Employee.Converged.{
  IsReconciled, reconcile_employee-IsReconciled,
}
use wrap_policy_assignment_s.Reconciler.Sweeper.{DriftRow, find_drift, run_sweep}
use wrap_policy_assignment_s.Reconciler.Sweeper.Agreement.{
  IsNotSingle, find_drift-reconcile_employee,
}
use wrap_policy_assignment_s.Reconciler.Events.{Payloads, process_event}
use wrap_policy_assignment_s.Reconciler.Events.Truth.{KeepsTruth}
use wrap_policy_assignment_s.Reconciler.Sweeper.Truth.{process_event-KeepsTruth_sweep}

abbrev no_rules : RuleTables
no_rules = record { rules = []; versions = []; now = pos 5 }

abbrev tables_of : RuleTables → Result RuleError RuleTables → RuleTables
tables_of t (ok t') = t'
tables_of t (err e) = t

-- A database that keeps a text behind a space.
abbrev spaced : Text → Option Text
spaced s = some (codes " " ++ s)

-- The rule that gives everyone in the department the policy.
abbrev one_rule : RuleTables
one_rule = tables_of no_rules (
    create_rule spaced (codes "r") (codes "c") (codes "pto") (codes "p") authored (pos 10) (pos 1)
      (codes "x") (codes "2026-02-01") no_rules)

created :
    create_rule spaced
      (codes "r")
      (codes "c")
      (codes "pto")
      (codes "p")
      authored
      (pos 10)
      (pos 1)
      (codes "x")
      (codes "2026-02-01")
      no_rules
    ≡ ok one_rule
unfolding create_rule insert_assignment_rule insert_rule_version has_rule has_version pg_date
    parse_date day_number cmp_text
created = refl

started : pg_date (codes "2026-02-01") ≡ ok 740014
unfolding pg_date parse_date day_number
started = refl

IsReached-IsValid_example : IsValid one_rule
IsReached-IsValid_example = IsReached-IsValid (
    next (empty (pos 5)) (
      creates spaced (codes "r") (codes "c") (codes "pto") (codes "p") (codes "x")
        (codes "2026-02-01") authored (pos 10) (pos 1) no_rules one_rule created))

no_rules-IsValid : IsValid no_rules
no_rules-IsValid = IsReached-IsValid (empty (pos 5))

one_rule-IsValid : IsValid one_rule
one_rule-IsValid = IsReached-IsValid (
    next (empty (pos 5)) (
      creates spaced (codes "r") (codes "c") (codes "pto") (codes "p") (codes "x")
        (codes "2026-02-01") authored (pos 10) (pos 1) no_rules one_rule created))

get_effective-create_rule_example :
    Perm (get_effective_rule_versions_as_of (codes "pto") 740018 one_rule) (
      added_rows
        (codes "pto")
        740018
        (new_rule no_rules
          (codes "r")
          (codes "c")
          (codes "pto")
          (codes "p")
          authored
          (pos 10)
          (pos 1))
        (first_version no_rules (codes "r") (codes " x") 740014)
      ++ get_effective_rule_versions_as_of (codes "pto") 740018 no_rules)
get_effective-create_rule_example =
    get_effective-create_rule spaced (codes "r") (codes "c") (codes "pto") (codes "p") (codes "x")
      (codes "2026-02-01") authored (pos 10) (pos 1) no_rules one_rule created no_rules-IsValid
      740014 started (codes " x") refl (codes "pto") 740018

get_effective-delete_rule_example :
    Perm
      (get_effective_rule_versions_as_of (codes "pto") 740018 (delete_rule (codes "r") one_rule))
      (keep
        (is_other (codes "r"))
        (get_effective_rule_versions_as_of (codes "pto") 740018 one_rule))
get_effective-delete_rule_example =
    get_effective-delete_rule (codes "r") one_rule one_rule-IsValid (codes "pto") 740018

abbrev pub codec : Codec
codec = record {
  predicate = λ s. some in_eng;
  decode = λ s. some (string s);
  encode = λ v. some [];
  payload = λ m. some [];
  trace = record { facts = λ m. some []; policy = λ p. some []; lines = λ l. some [] };
  jsonb = spaced;
}

abbrev pub store : Store
store = record {
  categories =
      record {
        id = codes "pto";
        cardinality = codes "single";
        resolution_strategy = codes "priority_rank";
        default_priority = pos 0;
        tiebreaker = [];
      }
      ∷ [];
  definitions =
      (
        codes "dept",
        record {
          key = codes "dept";
          value_type = type_string;
          allowed_ops = op_eq ∷ [];
          enum_values = [];
        },
      )
      ∷ [];
  employees = record { id = codes "e1"; company_id = codes "c"; hired_on = 740000 } ∷ [];
  facts = record {
    rows =
        record {
          id = 1;
          employee_id = codes "e1";
          attribute_key = codes "dept";
          value = codes "eng";
          lower = 740000;
          upper = none;
          recorded_at = pos 0;
          superseded_by = none;
          trigger = codes "hr_edit";
        }
        ∷ [];
    next_id = 2;
    now = pos 1;
  };
  segments = [];
  members = [];
  rules = one_rule;
  outbox = record { rows = []; next_id = 1 };
  projection = record { assignments = []; shadowed = [] };
  traces = record { rows = []; next_id = 1; now = pos 1 };
}

abbrev pub today : Text
today = codes "2026-02-05"

abbrev reconciled : Store
reconciled = (reconcile_employee codec (pos 9) today none (codes "e1") store).0

done : reconcile_employee codec (pos 9) today none (codes "e1") store ≡ (reconciled, ok tt)
unfolding reconcile_employee reconcile_categories materialize_and_trace list_categories sort_by
    resolve_for_employee category get_category facts_at pg_date parse_date day_number
    get_employee_facts_as_of distinct_on_key keep decode_facts insert lookup inject_segments
    get_employee_segments cmp_text effective_rules to_rule_versions
    get_effective_rule_versions_as_of join_rules join_rule distinct_on_rule parse_predicate
    create_rule insert_assignment_rule insert_rule_version has_rule has_version resolve resolve_on
    resolve_attributes validate_category parse_as_of derive_attributes category_rules validate_all
    validate resolve_rules match_results matched_rules matches first_failure fails_clause
    eval_clause normalize_comparable compare_values sort_matched compare_rules specificity select
    build_evaluations rank_by_rule evaluate_all evaluate_rule evaluate_matched short_answer
    sort_rule_version_ids materialize replace_current insert_all is_taken persist_trace
    insert_decision_trace each is_string
done = refl

pub dated : pg_date today ≡ ok 740018
unfolding pg_date parse_date day_number
dated = refl

pub distinct : HasDistinct (λ (r : CategoryRow). r.id) store.categories
distinct = HasDistinct-cons (λ (r : CategoryRow). r.id) _ [] tt nil

reconcile_employee-IsReconciled_example :
    IsReconciled codec (pos 9) today none (codes "e1") 740018 store reconciled
reconcile_employee-IsReconciled_example =
    reconcile_employee-IsReconciled codec (pos 9) today none (codes "e1") 740018 store reconciled
      dated distinct done

find_drift-reconcile_employee_example :
    (drift : List DriftRow) × (find_drift codec
        (pos 9)
        today
        (codes "e1")
        (assigned_policies (codes "e1") reconciled.projection)
        (list_categories reconciled)
        reconciled
      ≡ ok drift)
    × All (IsNotSingle reconciled) drift
find_drift-reconcile_employee_example =
    find_drift-reconcile_employee codec (pos 9) today none (codes "e1") 740018 store reconciled
      dated distinct done

abbrev payloads : Payloads
payloads = record { employee_id = λ s. some s; category_id = λ s. some s; segment_id = λ s. some s }

process_event-KeepsTruth_sweep_example :
    KeepsTruth store
      (process_event codec payloads
        (λ l. l)
        (pos 9)
        today
        1
        (codes "fact_changed")
        (codes "e1")
        store).0
    × KeepsTruth store (run_sweep codec (pos 9) today store).0
process_event-KeepsTruth_sweep_example =
    process_event-KeepsTruth_sweep codec payloads (λ l. l) (pos 9) today 1 (codes "fact_changed")
      (codes "e1") store
