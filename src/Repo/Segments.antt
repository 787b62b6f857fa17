-- ===== src/Repo/Segments.antt =====
-- internal/repo/segments.go and gen/db/segments.sql.go: the segments, their members, and the
-- recomputation of the members from the predicate.
pub mod Membership
use wrap_policy_assignment_s.Base.{
  ℕ, Bool, true, false, not, ◌&&◌, ◌||◌, Option, none, some, List, [], ◌∷◌, ◌++◌, map, keep, Result,
  ok, err, ◌>>=◌, ◌>>◌, guard, wrap, if◌then◌else◌,
}
use wrap_policy_assignment_s.Base.Text.{Text, text_eq, text_lt}
use wrap_policy_assignment_s.Base.Sort.{sort_by}
use wrap_policy_assignment_s.Resolver.Value.{Value}
use wrap_policy_assignment_s.Resolver.Ast.{Predicate, ParseError, parse_predicate, matches}
use wrap_policy_assignment_s.Resolver.Facts.{Facts}
use wrap_policy_assignment_s.Repo.Facts.{FactTable, FactError, SegmentMember, facts_at}

-- `Segment` of gen/db/models.go.
pub record Segment : Type 0 where
  pub id : Text
  pub company_id : Text
  pub name : Text
  pub predicate : Text

pub data SegmentError : Type 0 where
  invalid_predicate : ParseError → SegmentError
  unreadable_facts : FactError → SegmentError
  duplicate_segment invalid_json : Text → SegmentError

unfoldable pub has_segment : Text → List Segment → Bool
has_segment id [] = false
has_segment id (s ∷ segments) = text_eq s.id id || has_segment id segments

-- `InsertSegment`, with the primary key of the table. The column of the predicate is JSONB: `jsonb`
-- gives the text that the database keeps, or is `none` where it refuses the text.
unfoldable pub insert_segment :
    (Text → Option Text) → Segment → List Segment → Result SegmentError (List Segment)
insert_segment jsonb s segments = elim (jsonb s.predicate) [
  | none ↦ err (invalid_json s.predicate)
  | some stored ↦
      guard (not (has_segment s.id segments)) (duplicate_segment s.id)
      >> ok (segments ++ record s { predicate = stored } ∷ [])
]

-- `CreateSegment`
unfoldable pub create_segment :
    (Text → Option Text)
    → Text
    → Text
    → Text
    → Text
    → List Segment
    → Result SegmentError (List Segment)
create_segment jsonb id company name predicate segments =
    insert_segment jsonb
      (record { id = id; company_id = company; name = name; predicate = predicate }) segments

-- The test of the loop of `RecomputeSegmentMembers`, on the facts as they are stored.
abbrev pub fits : Predicate → Facts → Bool
fits predicate facts = elim (matches predicate facts.attributes) [ none ↦ true | some why ↦ false ]

-- The loop of `RecomputeSegmentMembers`. `read` is `FactsAt` on the day.
unfoldable pub select_members :
    (Text → Result FactError Facts) → Predicate → List Text → Result FactError (List Text)
select_members read predicate [] = ok []
select_members read predicate (employee ∷ employees) =
    let rest = select_members read predicate employees in
    do
      facts ← read employee
      members ← rest
      ok (if fits predicate facts then employee ∷ members else members)

-- `RecomputeSegmentMembers`, at the date `today` and for the ids of all employees.
unfoldable pub recompute_segment_members :
    (Text → Option Predicate)
    → (Text → Option Value)
    → List SegmentMember
    → FactTable
    → Text
    → List Text
    → Segment
    → Result SegmentError (List Text)
recompute_segment_members unmarshal decode members facts today employees seg = do
  predicate ← wrap invalid_predicate (parse_predicate unmarshal seg.predicate)
  wrap unreadable_facts (
      select_members (λ employee. facts_at decode members employee today facts) predicate employees)

-- `GetSegmentMembers`
unfoldable pub get_segment_members : Text → List SegmentMember → List Text
get_segment_members segment members =
    sort_by text_lt (
      map (λ (m : SegmentMember). m.employee_id) (keep (λ m. text_eq m.segment_id segment) members))

-- `ResetSegmentMembership`
unfoldable pub reset_segment_membership : Text → List SegmentMember → List SegmentMember
reset_segment_membership segment members =
    keep (λ (m : SegmentMember). not (text_eq m.segment_id segment)) members

unfoldable pub is_member : Text → Text → List SegmentMember → Bool
is_member segment employee [] = false
is_member segment employee (m ∷ members) =
    text_eq m.segment_id segment && text_eq m.employee_id employee
    || is_member segment employee members

-- `InsertSegmentMember`, which does nothing on a conflict.
unfoldable pub insert_segment_member : Text → Text → List SegmentMember → List SegmentMember
insert_segment_member segment employee members =
    if is_member segment employee members
    then members
    else record { segment_id = segment; employee_id = employee } ∷ members

unfoldable pub insert_segment_members : Text → List Text → List SegmentMember → List SegmentMember
insert_segment_members segment [] members = members
insert_segment_members segment (e ∷ es) members =
    insert_segment_members segment es (insert_segment_member segment e members)

-- `SetSegmentMembers`
unfoldable pub set_segment_members : Text → List Text → List SegmentMember → List SegmentMember
set_segment_members segment new members =
    insert_segment_members segment new (reset_segment_membership segment members)
