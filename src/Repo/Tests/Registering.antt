-- ===== src/Repo/Tests/Registering.antt =====
-- An attribute definition, added and read, with a policy and a segment.
use mathlib.Core.List.{not-mem-nil}
use mathlib.Core.List.Pairwise
use wrap_policy_assignment_s.Base.{◌≡◌, refl, false, some, List, [], ◌∷◌, ok, err}
use wrap_policy_assignment_s.Base.Text.{Text, codes, text_eq, cmp_text}
use wrap_policy_assignment_s.Base.Map.{lookup}
use wrap_policy_assignment_s.Resolver.Ast.Validate.{AttributeDefinition}
use wrap_policy_assignment_s.Repo.Segments.{
  Segment, create_segment, insert_segment, has_segment, duplicate_segment,
}
use wrap_policy_assignment_s.Repo.Registry.{
  DefinitionRow, Registry, new_definition, has_definition, load_definitions,
  insert_attribute_definition, add_attribute_definition, add_policy, has_policy_row,
  invalid_value_type,
}
use wrap_policy_assignment_s.Repo.Registry.Loading.{
  IsKeyed, IsReadFrom, load_definitions-add_attribute_definition,
}

abbrev location : DefinitionRow
location = new_definition (codes "location") (codes "string") (codes "eq" ∷ []) [] (codes "Site")

abbrev ops : List Text
ops = codes "eq" ∷ codes "in" ∷ []

abbrev grades : List Text
grades = codes "a" ∷ codes "b" ∷ []

abbrev before : Registry
before = record { definitions = location ∷ []; policies = []; versions = [] }

abbrev after : Registry
after = record before {
  definitions =
      location ∷ new_definition (codes "grade") (codes "enum") ops grades (codes "Grade") ∷ [];
}

before-IsKeyed : IsKeyed before
before-IsKeyed = Pairwise.cons (λ b m. absurd (not-mem-nil m)) Pairwise.nil

added :
    add_attribute_definition (codes "grade") (codes "enum") (some ops) grades (codes "Grade") before
    ≡ ok after
unfolding add_attribute_definition insert_attribute_definition has_definition cmp_text
added = refl

refused :
    add_attribute_definition (codes "grade") (codes "money") (some ops) [] (codes "Grade") before
    ≡ err (invalid_value_type (codes "money"))
unfolding add_attribute_definition insert_attribute_definition cmp_text
refused = refl

load_definitions-add_attribute_definition_example :
    (d : AttributeDefinition) × (lookup (codes "grade") (load_definitions after) ≡ some d)
    × IsReadFrom (codes "grade") (codes "enum") ops grades d
    × ((other : Text)
        → text_eq (codes "grade") other ≡ false
        → lookup other (load_definitions after) ≡ lookup other (load_definitions before))
load_definitions-add_attribute_definition_example =
    load_definitions-add_attribute_definition (codes "grade") (codes "enum") (codes "Grade") ops
      grades before after added before-IsKeyed

again :
    add_policy
      (codes "p")
      (codes "health")
      (codes "Other")
      (add_policy (codes "p") (codes "health") (codes "Plan") before)
    ≡ add_policy (codes "p") (codes "health") (codes "Plan") before
unfolding add_policy has_policy_row cmp_text
again = refl

abbrev people : Segment
people = record {
  id = codes "s";
  company_id = codes "co";
  name = codes "All";
  predicate = codes "{}";
}

created :
    create_segment some (codes "s") (codes "co") (codes "All") (codes "{}") [] ≡ ok (people ∷ [])
unfolding create_segment insert_segment has_segment
created = refl

created_twice :
    create_segment some (codes "s") (codes "co") (codes "Some") (codes "{}") (people ∷ [])
    ≡ err (duplicate_segment (codes "s"))
unfolding create_segment insert_segment has_segment cmp_text
created_twice = refl
