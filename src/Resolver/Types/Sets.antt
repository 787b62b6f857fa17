-- ===== src/Resolver/Types/Sets.antt =====
-- Rules are compared by equality: they form a set.
use wrap_policy_assignment_s.Resolver.Value.{Value}
use wrap_policy_assignment_s.Resolver.Types.{RuleVersion}

pub Value-set : IsSet Value
Value-set = hlevel

pub RuleVersion-set : IsSet RuleVersion
RuleVersion-set = hlevel Value-set
