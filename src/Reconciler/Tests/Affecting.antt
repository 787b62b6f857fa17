-- ===== src/Reconciler/Tests/Affecting.antt =====
-- A segment whose members change.
use wrap_policy_assignment_s.Base.{◌≡◌, List, [], ◌∷◌, if◌then◌else◌}
use wrap_policy_assignment_s.Base.Text.{Text, codes, text_eq}
use wrap_policy_assignment_s.Base.Map.{lookup}
use wrap_policy_assignment_s.Resolver.Ast.Validate.{mem_text}
use wrap_policy_assignment_s.Repo.Facts.{SegmentMember}
use wrap_policy_assignment_s.Repo.Segments.{get_segment_members, set_segment_members, is_member}
use wrap_policy_assignment_s.Repo.Segments.Membership.{is_member-set_segment_members}
use wrap_policy_assignment_s.Reconciler.Segments.{changed_members}
use wrap_policy_assignment_s.Reconciler.Segments.Affected.{
  is_marked, differ, changed_members-differ,
}

abbrev member : Text → Text → SegmentMember
member segment employee = record { segment_id = segment; employee_id = employee }

abbrev members : List SegmentMember
members =
    member (codes "s") (codes "e1")
    ∷ member (codes "s") (codes "e2")
    ∷ member (codes "t") (codes "e1")
    ∷ []

abbrev new_members : List Text
new_members = codes "e2" ∷ codes "e3" ∷ []

is_member-set_segment_members_example :
    is_member (codes "t") (codes "e1") (set_segment_members (codes "s") new_members members) ≡ (
      if text_eq (codes "s") (codes "t")
      then mem_text (codes "e1") new_members
      else is_member (codes "t") (codes "e1") members)
is_member-set_segment_members_example =
    is_member-set_segment_members (codes "s") (codes "t") (codes "e1") new_members members

changed_members-differ_example :
    is_marked
      (lookup (codes "e1") (changed_members (get_segment_members (codes "s") members) new_members))
    ≡ differ
        (is_member (codes "s") (codes "e1") members)
        (is_member (codes "s") (codes "e1") (set_segment_members (codes "s") new_members members))
changed_members-differ_example = changed_members-differ (codes "s") (codes "e1") members new_members
