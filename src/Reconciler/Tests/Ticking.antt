-- ===== src/Reconciler/Tests/Ticking.antt =====
-- A tick on a day on which one fact and one rule start.
use wrap_policy_assignment_s.Base.{ℕ, ◌≡◌, refl, Option, none, some, [], ◌∷◌, keep, Result, ok}
use wrap_policy_assignment_s.Base.Int.{pos}
use wrap_policy_assignment_s.Base.Text.{Text, codes, cmp_text}
use wrap_policy_assignment_s.Base.Map.{Map}
use wrap_policy_assignment_s.Base.Date.{day_number, parse_date}
use wrap_policy_assignment_s.Resolver.Value.{Value}
use wrap_policy_assignment_s.Resolver.Ast.Validate.{mem_text}
use wrap_policy_assignment_s.Repo.Facts.{FactTable, pg_date}
use wrap_policy_assignment_s.Repo.Rules.{RuleTables}
use wrap_policy_assignment_s.Repo.Outbox.{OutboxTable, has_key, emit_event, insert_outbox_event}
use wrap_policy_assignment_s.Repo.Transitions.{
  fact_transitions_today, rule_transitions_today, list_fact_events_starting_today,
  list_rule_versions_starting_today, distinct_transitions, starting_versions,
}
use wrap_policy_assignment_s.Reconciler.Scheduler.{TickError, tick, emit_facts, emit_rules}
use wrap_policy_assignment_s.Reconciler.Scheduler.Again.{tick-again}

abbrev marshal : Map Value → Option Text
marshal m = some []

-- Ten minutes after the start of the clock.
abbrev facts : FactTable
facts = record {
  rows =
      record {
        id = 1;
        employee_id = codes "e1";
        attribute_key = codes "dept";
        value = codes "eng";
        lower = 740018;
        upper = none;
        recorded_at = pos 0;
        superseded_by = none;
        trigger = codes "hr_edit";
      }
      ∷ [];
  next_id = 2;
  now = pos 600000000000;
}

abbrev rules : RuleTables
rules = record {
  rules =
      record {
        id = codes "r";
        company_id = codes "c";
        category_id = codes "pto";
        policy_id = codes "p";
        source = codes "authored";
        priority = pos 1;
        specificity = none;
        created_at = none;
      }
      ∷ [];
  versions =
      record {
        id = codes "r:v1";
        rule_id = codes "r";
        version = 1;
        predicate = [];
        lower = 740018;
        upper = none;
        recorded_at = pos 0;
      }
      ∷ [];
  now = pos 600000000000;
}

abbrev outbox : OutboxTable
outbox = record { rows = []; next_id = 1 }

abbrev first_tick : OutboxTable × ℕ × Result TickError (Unit {0})
first_tick = tick marshal (codes "2026-02-05") (λ l. l) (λ l. l) facts rules outbox

ticked : first_tick.2 ≡ ok tt
unfolding tick emit_facts emit_rules emit_event insert_outbox_event has_key mem_text cmp_text
    fact_transitions_today rule_transitions_today list_fact_events_starting_today
    list_rule_versions_starting_today distinct_transitions starting_versions keep pg_date parse_date
    day_number
ticked = refl

two_emitted : first_tick.1 ≡ 2
unfolding tick emit_facts emit_rules emit_event insert_outbox_event has_key mem_text cmp_text
    fact_transitions_today rule_transitions_today list_fact_events_starting_today
    list_rule_versions_starting_today distinct_transitions starting_versions keep pg_date parse_date
    day_number
two_emitted = refl

abbrev second_tick : OutboxTable × ℕ × Result TickError (Unit {0})
second_tick = tick marshal (codes "2026-02-05") (λ l. l) (λ l. l) facts rules first_tick.0

tick-again_example :
    (second_tick.0.rows ≡ first_tick.0.rows) × (second_tick.1 ≡ 0) × (second_tick.2 ≡ ok tt)
tick-again_example =
    tick-again marshal (codes "2026-02-05") (λ l. l) (λ l. l) facts rules outbox first_tick.0 ticked
      (λ k h. h)
