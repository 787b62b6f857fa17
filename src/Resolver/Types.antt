-- ===== src/Resolver/Types.antt =====
-- resolver/types.go: the data of a resolution. A string type with constants is a data type with a
-- case for each constant and one for any other text.
pub mod Sets
use wrap_policy_assignment_s.Base.{ℕ, Bool, true, false}
use wrap_policy_assignment_s.Base.Int.{ℤ}
use wrap_policy_assignment_s.Base.Text.{Text, text_eq}
use wrap_policy_assignment_s.Resolver.Ast.{Predicate}

pub data Cardinality : Type 0 where
  single many : Cardinality
  other_cardinality : Text → Cardinality

pub data ResolutionStrategy : Type 0 where
  priority_rank explicit_user_choice additive : ResolutionStrategy
  other_strategy : Text → ResolutionStrategy

pub data Source : Type 0 where
  authored manual system : Source
  other_source : Text → Source

abbrev pub is_manual : Source → Bool
is_manual manual = true
is_manual _ = false

abbrev pub source_eq : Source → Source → Bool
source_eq authored authored = true
source_eq manual manual = true
source_eq system system = true
source_eq (other_source s) (other_source t) = text_eq s t
source_eq _ _ = false

pub data Outcome : Type 0 where
  assigned shadowed no_match conflict_needs_decision : Outcome

pub data RuleOutcome : Type 0 where
  winner rule_shadowed not_matched needs_decision : RuleOutcome

pub record CategoryConfig : Type 0 where
  pub id : Text
  pub cardinality : Cardinality
  pub resolution_strategy : ResolutionStrategy
  pub default_priority : ℤ
  pub tiebreaker : Text

-- `created_at` is an instant, in nanoseconds from a fixed one.
pub record RuleVersion : Type 0 where
  pub rule_id : Text
  pub rule_version_id : Text
  pub category_id : Text
  pub policy_id : Text
  pub policy_version_id : Text
  pub source : Source
  pub priority : ℤ
  pub created_at : ℤ
  pub predicate : Predicate

pub record Assignment : Type 0 where
  pub policy_id : Text
  pub policy_version_id : Text
  pub rule_id : Text
  pub source : Source

pub record ShadowedMatch : Type 0 where
  pub rule_id : Text
  pub by_rule_id : Text

pub record DecisionOption : Type 0 where
  pub policy_id : Text
  pub policy_version_id : Text
  pub rule_id : Text
  pub rank : ℕ
