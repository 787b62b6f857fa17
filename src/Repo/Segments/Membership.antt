-- ===== src/Repo/Segments/Membership.antt =====
-- Who is a member after `SetSegmentMembers`.
use wrap_policy_assignment_s.Base.{◌≡◌, not, ◌&&◌, ◌||◌, List, [], ◌∷◌, keep, arith, if◌then◌else◌}
use wrap_policy_assignment_s.Base.Text.{Text, text_eq, text_eq_iff}
use wrap_policy_assignment_s.Resolver.Ast.Validate.{mem_text}
use wrap_policy_assignment_s.Repo.Facts.{SegmentMember}
use wrap_policy_assignment_s.Repo.Segments.{
  is_member, insert_segment_member, insert_segment_members, reset_segment_membership,
  set_segment_members,
}

is_member-insert :
    (segment other employee e : Text) (members : List SegmentMember)
    → is_member other employee (insert_segment_member segment e members)
      ≡ (text_eq segment other && text_eq e employee || is_member other employee members)
unfolding insert_segment_member is_member
is_member-insert segment other employee e members =
    ground (arith, text_eq_iff segment other, text_eq_iff e employee)

is_member-insert_all :
    (segment other employee : Text) (new : List Text) (members : List SegmentMember)
    → is_member other employee (insert_segment_members segment new members)
      ≡ (text_eq segment other && mem_text employee new || is_member other employee members)
unfolding insert_segment_members mem_text
is_member-insert_all segment other employee [] members = ground arith
is_member-insert_all segment other employee (e ∷ new) members = ground (
  arith,
  is_member-insert_all segment other employee new (insert_segment_member segment e members),
  is_member-insert segment other employee e members,
)

is_member-reset :
    (segment other employee : Text) (members : List SegmentMember)
    → is_member other employee (reset_segment_membership segment members)
      ≡ (not (text_eq segment other) && is_member other employee members)
unfolding reset_segment_membership is_member keep
is_member-reset segment other employee [] = ground arith
is_member-reset segment other employee (m ∷ members) = ground (
  arith,
  is_member-reset segment other employee members,
  text_eq_iff m.segment_id segment,
  text_eq_iff m.segment_id other,
  text_eq_iff segment other,
)

-- After `SetSegmentMembers` the members of the segment are the given ones, and those of every other
-- segment are as they were.
pub is_member-set_segment_members :
    (segment other employee : Text) (new : List Text) (members : List SegmentMember)
    → is_member other employee (set_segment_members segment new members)
      ≡ (if text_eq segment other then mem_text employee new else is_member other employee members)
unfolding set_segment_members
is_member-set_segment_members segment other employee new members = ground (
  arith,
  is_member-insert_all segment other employee new (reset_segment_membership segment members),
  is_member-reset segment other employee members,
)
