-- ===== src/Repo/Transitions.antt =====
-- The queries of gen/db/projection.sql.go on the facts and the rules that start on a day. Both leave
-- the order of their rows open; `listing` is the order that the database gives.
use wrap_policy_assignment_s.Base.{
  ℕ, ◌+◌, ◌*◌, ◌^◌, Bool, not, ◌&&◌, ◌==◌, ltb, List, [], ◌∷◌, ◌++◌, map, keep, Result, map_ok,
}
use wrap_policy_assignment_s.Base.Int.{ℤ, pos_part, neg_part, int_lt}
use wrap_policy_assignment_s.Base.Text.{Text, text_eq}
use wrap_policy_assignment_s.Repo.Facts.{FactEvent, FactTable, FactError, pg_date}
use wrap_policy_assignment_s.Repo.Rules.{RuleRow, VersionRow, RuleTables}

-- One minute, in nanoseconds.
abbrev minute : ℕ
minute = 60 * 10 ^ 9

-- `recorded_at < now() - interval '1 minute'`
abbrev pub is_settled : ℤ → ℤ → Bool
is_settled now recorded =
    ltb (pos_part recorded + neg_part now + minute) (pos_part now + neg_part recorded)

-- `ListFactEventsStartingTodayRow`, without the id, which is never read.
pub record FactTransition : Type 0 where
  pub employee_id : Text
  pub attribute_key : Text

-- `ListRuleVersionsStartingTodayRow`
pub record RuleTransition : Type 0 where
  pub rule_id : Text
  pub category_id : Text

-- `ListFactEventsStartingToday`
unfoldable pub list_fact_events_starting_today : ℕ → FactTable → List FactTransition
list_fact_events_starting_today day t =
    map (λ (r : FactEvent). record { employee_id = r.employee_id; attribute_key = r.attribute_key })
      (keep
        (λ (r : FactEvent).
          r.lower == day && int_lt r.recorded_at t.now && is_settled t.now r.recorded_at)
        t.rows)

abbrev same_transition : RuleTransition → RuleTransition → Bool
same_transition a b = text_eq a.rule_id b.rule_id && text_eq a.category_id b.category_id

-- `DISTINCT`
unfoldable pub distinct_transitions : List RuleTransition → List RuleTransition
distinct_transitions [] = []
distinct_transitions (r ∷ rs) = r ∷ keep (λ s. not (same_transition r s)) (distinct_transitions rs)

unfoldable pub starting_versions : ℕ → ℤ → List VersionRow → List RuleRow → List RuleTransition
starting_versions day now versions [] = []
starting_versions day now versions (r ∷ rs) =
    map (λ (v : VersionRow). record { rule_id = r.id; category_id = r.category_id })
      (keep
        (λ (v : VersionRow).
          text_eq v.rule_id r.id && v.lower == day && is_settled now v.recorded_at)
        versions)
    ++ starting_versions day now versions rs

-- `ListRuleVersionsStartingToday`
unfoldable pub list_rule_versions_starting_today : ℕ → RuleTables → List RuleTransition
list_rule_versions_starting_today day t =
    distinct_transitions (starting_versions day t.now t.versions t.rules)

-- `FactTransitionsToday`
unfoldable pub fact_transitions_today :
    (List FactTransition → List FactTransition)
    → Text
    → FactTable
    → Result FactError (List FactTransition)
fact_transitions_today listing today t =
    map_ok (λ day. listing (list_fact_events_starting_today day t)) (pg_date today)

-- `RuleTransitionsToday`
unfoldable pub rule_transitions_today :
    (List RuleTransition → List RuleTransition)
    → Text
    → RuleTables
    → Result FactError (List RuleTransition)
rule_transitions_today listing today t =
    map_ok (λ day. listing (list_rule_versions_starting_today day t)) (pg_date today)
