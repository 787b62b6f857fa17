-- ===== src/Reconciler/Segments/Affected.antt =====
-- Which employees a changed segment affects.
use wrap_policy_assignment_s.Base.{
  ◌≡◌, refl, sym, ◌∙◌, ap, Bool, true, false, not, ◌&&◌, ◌||◌, Option, none, some, List, [], ◌∷◌,
  map, keep, arith,
}
use wrap_policy_assignment_s.Base.Text.{Text, text_eq, text_eq_iff, text_lt}
use wrap_policy_assignment_s.Base.Map.{Map, lookup, insert, lookup-insert}
use wrap_policy_assignment_s.Base.Sort.{sort_by-perm}
use wrap_policy_assignment_s.Resolver.Ast.Validate.{mem_text}
use wrap_policy_assignment_s.Resolver.Ast.Validate.Members.{mem_text-perm}
use wrap_policy_assignment_s.Repo.Facts.{SegmentMember}
use wrap_policy_assignment_s.Repo.Segments.{get_segment_members, set_segment_members, is_member}
use wrap_policy_assignment_s.Repo.Segments.Membership.{is_member-set_segment_members}
use wrap_policy_assignment_s.Reconciler.Segments.{enter, leave, changed_members}

abbrev pub is_marked : Option Bool → Bool
is_marked none = false
is_marked (some b) = b

abbrev pub differ : Bool → Bool → Bool
differ true b = not b
differ false b = b

marked-enter :
    (current ids : List Text) (changed : Map Bool) (id : Text)
    → is_marked (lookup id (enter current ids changed))
      ≡ (mem_text id ids && not (mem_text id current) || is_marked (lookup id changed))
unfolding enter mem_text
marked-enter current [] changed id = refl
marked-enter current (i ∷ ids) changed id = ground (
  arith,
  marked-enter current ids (insert i true changed) id,
  marked-enter current ids changed id,
  lookup-insert i id true changed,
  text_eq_iff i id,
)

marked-leave :
    (new ids : List Text) (changed : Map Bool) (id : Text)
    → is_marked (lookup id (leave new ids changed))
      ≡ (mem_text id ids && not (mem_text id new) || is_marked (lookup id changed))
unfolding leave mem_text
marked-leave new [] changed id = refl
marked-leave new (i ∷ ids) changed id = ground (
  arith,
  marked-leave new ids (insert i true changed) id,
  marked-leave new ids changed id,
  lookup-insert i id true changed,
  text_eq_iff i id,
)

marked-changed_members :
    (current new : List Text) (id : Text)
    → is_marked (lookup id (changed_members current new))
      ≡ differ (mem_text id current) (mem_text id new)
unfolding changed_members lookup
marked-changed_members current new id =
    ground
      (arith, marked-leave new current (enter current new []) id, marked-enter current new [] id)

listed-is_member :
    (segment id : Text) (members : List SegmentMember)
    → mem_text id (
        map
          (λ (m : SegmentMember). m.employee_id)
          (keep (λ m. text_eq m.segment_id segment) members))
      ≡ is_member segment id members
unfolding mem_text is_member keep
listed-is_member segment id [] = refl
listed-is_member segment id (m ∷ members) = ground (arith, listed-is_member segment id members)

mem_text-get_segment_members :
    (segment id : Text) (members : List SegmentMember)
    → mem_text id (get_segment_members segment members) ≡ is_member segment id members
unfolding get_segment_members
mem_text-get_segment_members segment id members =
    mem_text-perm id (sort_by-perm text_lt _) ∙ listed-is_member segment id members

-- The employees that the change of a segment reconciles are exactly those whose membership differs
-- before and after the new members are written.
pub changed_members-differ :
    (segment id : Text) (members : List SegmentMember) (new : List Text)
    → is_marked (lookup id (changed_members (get_segment_members segment members) new))
      ≡ differ
          (is_member segment id members)
          (is_member segment id (set_segment_members segment new members))
changed_members-differ segment id members new =
    marked-changed_members (get_segment_members segment members) new id
    ∙ ap (λ b. differ b (mem_text id new)) (mem_text-get_segment_members segment id members)
    ∙ ap (differ (is_member segment id members)) (
        sym (
          is_member-set_segment_members segment segment id new members
          ∙ rw ((text_eq_iff segment segment).1 refl) refl))
