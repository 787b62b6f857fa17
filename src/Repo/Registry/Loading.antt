-- ===== src/Repo/Registry/Loading.antt =====
-- What `loadDefinitions` of internal/repo/db.go reads from the attribute definitions.
use mathlib.Core.List.{Mem, Perm, mem-cons, mem-cons_self, mem-cons_of_mem, not-mem-nil}
use mathlib.Core.List.{mem-append_left, mem-append_right}
use mathlib.Core.List.Perm
use mathlib.Core.List.Pairwise
use mathlib.Core.Logic.Or
use mathlib.Core.Bool.{true≢false}
use wrap_policy_assignment_s.Base.{
  ◌≡◌, ◌≢◌, map, refl, sym, ◌∙◌, true, false, Option, some, none, inl, inr, List, [], ◌∷◌, ◌++◌,
  All, All-mem, subst, ◌||◌, Bool-cases, ok, arith, if◌then◌else◌,
}
use wrap_policy_assignment_s.Base.Keys.{HasDistinct, HasDistinct-perm, append_one, ≢_prop}
use wrap_policy_assignment_s.Base.Map.{Map, lookup, insert, lookup-insert, lookup-insert_self}
use wrap_policy_assignment_s.Base.Sort.{sort_by-perm}
use wrap_policy_assignment_s.Base.Text.{Text, text_eq, text_eq_iff}
use wrap_policy_assignment_s.Resolver.Ast.Validate.{AttributeDefinition}
use wrap_policy_assignment_s.Repo.Registry.{
  DefinitionRow, Registry, has_definition, collect_definitions, load_definitions,
  list_attribute_definitions, to_definition, add_attribute_definition, insert_attribute_definition,
  new_definition, is_value_type,
}
use wrap_policy_assignment_s.Repo.Registry.Names.{
  op_text, type_text, is_known_type, ops_text, type_text-to_value_type, to_value_type-known,
}

abbrev pub definition_key : DefinitionRow → Text
definition_key r = r.key

-- The primary key of the attribute definitions.
abbrev pub IsKeyed : Registry → Type 0
IsKeyed t = HasDistinct definition_key t.definitions

has_definition-apart :
    (key : Text) (rows : List DefinitionRow)
    → ((r : DefinitionRow) → Mem r rows → r.key ≢ key)
    → has_definition key rows ≡ false
unfolding has_definition
has_definition-apart key [] apart = refl
has_definition-apart key (x ∷ rows) apart =
    let rest = has_definition-apart key rows (λ r m. apart r (mem-cons_of_mem x m)) in
    elim (Bool-cases (text_eq x.key key)) [
      | inl same ↦ absurd (apart x mem-cons_self ((text_eq_iff x.key key).0 same))
      | inr other ↦ ground (arith, rest, other)
    ]

has_definition-All :
    (key : Text) (rows : List DefinitionRow)
    → has_definition key rows ≡ false
    → All (λ r. definition_key r ≢ key) rows
unfolding has_definition
has_definition-All key [] h = tt
has_definition-All key (r ∷ rows) h = (
  (λ e. true≢false (sym ((text_eq_iff r.key key).1 e) ∙ ground arith)),
  has_definition-All key rows (ground arith),
)

collect_definitions-absent :
    (key : Text) (defs : Map AttributeDefinition) (rows : List DefinitionRow)
    → has_definition key rows ≡ false
    → lookup key (collect_definitions defs rows) ≡ lookup key defs
unfolding collect_definitions has_definition
collect_definitions-absent key defs [] h = refl
collect_definitions-absent key defs (r ∷ rows) h =
    collect_definitions-absent key (insert r.key (to_definition r) defs) rows (ground arith)
    ∙ ground (arith, lookup-insert r.key key (to_definition r) defs)

definition-set : IsSet (Option AttributeDefinition)
definition-set = hlevel

collect_definitions-mem :
    (defs : Map AttributeDefinition) (rows : List DefinitionRow)
    → HasDistinct definition_key rows
    → (r : DefinitionRow) → Mem r rows
    → lookup r.key (collect_definitions defs rows) ≡ some (to_definition r)
unfolding collect_definitions
collect_definitions-mem defs [] distinct r m = absurd (not-mem-nil m)
collect_definitions-mem defs (x ∷ rows) (Pairwise.cons first rest) r m =
    Or.elim (definition-set _ _) (mem-cons.0 m)
      (λ (rx : r ≡ x).
        subst
          (λ y.
            lookup y.key (collect_definitions (insert x.key (to_definition x) defs) rows)
            ≡ some (to_definition y))
          (sym rx)
          (collect_definitions-absent x.key (insert x.key (to_definition x) defs) rows
              (has_definition-apart x.key rows (λ q later e. first q later (sym e)))
            ∙ lookup-insert_self x.key (to_definition x) defs))
      (λ later. collect_definitions-mem (insert x.key (to_definition x) defs) rows rest r later)

module _ (t : Registry) where
  list_attribute_definitions-perm : Perm (list_attribute_definitions t) t.definitions
  unfolding list_attribute_definitions
  list_attribute_definitions-perm = sort_by-perm _ t.definitions

  -- A definition of the table is the one that its key reads.
  load_definitions-mem :
      IsKeyed t
      → (r : DefinitionRow) → Mem r t.definitions
      → lookup r.key (load_definitions t) ≡ some (to_definition r)
  unfolding load_definitions
  load_definitions-mem keyed r m =
      collect_definitions-mem [] (list_attribute_definitions t)
        (HasDistinct-perm definition_key list_attribute_definitions-perm keyed) r
        ((Perm.mem_iff list_attribute_definitions-perm).1 m)

  -- A key without a definition reads none.
  load_definitions-absent :
      (key : Text)
      → has_definition key t.definitions ≡ false
      → lookup key (load_definitions t) ≡ none
  unfolding load_definitions lookup
  load_definitions-absent key h = collect_definitions-absent key [] (list_attribute_definitions t) (
      has_definition-apart key (list_attribute_definitions t) (λ r m.
        All-mem (λ q. ≢_prop (definition_key q) key) t.definitions
          (has_definition-All key t.definitions h)
          ((Perm.mem_iff list_attribute_definitions-perm).0 m)))

has_definition-mem :
    (key : Text) (rows : List DefinitionRow)
    → has_definition key rows ≡ true
    → (r : DefinitionRow) × Mem r rows × (r.key ≡ key)
unfolding has_definition
has_definition-mem key [] h = absurd (ground arith)
has_definition-mem key (x ∷ rows) h = elim (Bool-cases (text_eq x.key key)) [
  | inl same ↦ (x, mem-cons_self, (text_eq_iff x.key key).0 same)
  | inr other ↦
      let (r, m, e) = has_definition-mem key rows (ground (arith, other)) in
      (r, mem-cons_of_mem x m, e)
]

has_definition-append :
    (key : Text) (rows : List DefinitionRow) (r : DefinitionRow)
    → has_definition key (rows ++ r ∷ []) ≡ (has_definition key rows || text_eq r.key key)
unfolding has_definition
has_definition-append key [] r = ground arith
has_definition-append key (x ∷ rows) r = ground (arith, has_definition-append key rows r)

-- A key that another row defines reads as before.
load_definitions-append_other :
    (t : Registry) (r : DefinitionRow) (key : Text)
    → IsKeyed t
    → IsKeyed (record t { definitions = t.definitions ++ r ∷ [] })
    → text_eq r.key key ≡ false
    → lookup key (load_definitions (record t { definitions = t.definitions ++ r ∷ [] }))
      ≡ lookup key (load_definitions t)
load_definitions-append_other t r key keyed keyed' other =
    let t' : Registry = record t { definitions = t.definitions ++ r ∷ [] } in
    elim (Bool-cases (has_definition key t.definitions)) [
      | inl listed ↦
          let (q, m, e) = has_definition-mem key t.definitions listed in
          subst (λ k. lookup k (load_definitions t') ≡ lookup k (load_definitions t)) e
            (load_definitions-mem t' keyed' q (mem-append_left (r ∷ []) m)
              ∙ sym (load_definitions-mem t keyed q m))
      | inr absent ↦
          load_definitions-absent t' key
            (ground (arith, has_definition-append key t.definitions r, absent, other))
          ∙ sym (load_definitions-absent t key absent)
    ]

-- After one more row with a new key, that key reads the row and every other key reads as before.
load_definitions-append :
    (t : Registry) (r : DefinitionRow) (key : Text)
    → IsKeyed t
    → has_definition r.key t.definitions ≡ false
    → lookup key (load_definitions (record t { definitions = t.definitions ++ r ∷ [] }))
      ≡ (if text_eq r.key key then some (to_definition r) else lookup key (load_definitions t))
load_definitions-append t r key keyed fresh =
    let t' : Registry = record t { definitions = t.definitions ++ r ∷ [] } in
    let keyed' : IsKeyed t' =
      append_one definition_key t.definitions r keyed
        (has_definition-All r.key t.definitions fresh) in
    elim (Bool-cases (text_eq r.key key)) [
      | inl same ↦ rw same (
          subst (λ k. lookup k (load_definitions t') ≡ some (to_definition r))
            ((text_eq_iff r.key key).0 same)
            (load_definitions-mem t' keyed' r (mem-append_right t.definitions mem-cons_self)))
      | inr other ↦ rw other (load_definitions-append_other t r key keyed keyed' other)
    ]

-- A definition as it is used says what was given for it, and its type is one that is known.
pub record IsReadFrom (key value_type : Text) (ops values : List Text) (d : AttributeDefinition)
    : Type 0 where
  pub named_so : d.key ≡ key
  pub typed : type_text d.value_type ≡ value_type
  pub known : is_known_type d.value_type ≡ true
  pub operators : map op_text d.allowed_ops ≡ ops
  pub listed : d.enum_values ≡ values

module _ (key value_type description : Text) (ops values : List Text) (t t' : Registry)
    (added : add_attribute_definition key value_type (some ops) values description t ≡ ok t') where
  abbrev row : DefinitionRow
  row = new_definition key value_type ops values description

  -- The table after `AddAttributeDefinition`, and that the definition is new.
  add_attribute_definition_inv :
      (is_value_type value_type ≡ true)
      × (has_definition key t.definitions ≡ false)
      × (t' ≡ record t { definitions = t.definitions ++ row ∷ [] })
  unfolding add_attribute_definition insert_attribute_definition
  add_attribute_definition_inv = (ground arith, ground arith, ground arith)

  pub add_attribute_definition-IsKeyed : IsKeyed t → IsKeyed t'
  add_attribute_definition-IsKeyed keyed =
      let (known, fresh, e) = add_attribute_definition_inv in
      subst IsKeyed (sym e) (
        append_one definition_key t.definitions row keyed
          (has_definition-All key t.definitions fresh))

  row-IsReadFrom : IsReadFrom key value_type ops values (to_definition row)
  row-IsReadFrom =
      let (known, fresh, e) = add_attribute_definition_inv in
      record {
        named_so = refl;
        typed = type_text-to_value_type value_type;
        known = to_value_type-known value_type known;
        operators = ops_text ops;
        listed = refl;
      }

  -- After a definition was added to a table whose keys are distinct, a process that starts reads
  -- under its key the type, the operators and the values of an enumeration that were given; the type
  -- is one that the resolver knows. Every other key reads as before.
  pub load_definitions-add_attribute_definition :
      IsKeyed t
      → (d : AttributeDefinition) × (lookup key (load_definitions t') ≡ some d)
        × IsReadFrom key value_type ops values d
        × ((other : Text)
            → text_eq key other ≡ false
            → lookup other (load_definitions t') ≡ lookup other (load_definitions t))
  load_definitions-add_attribute_definition keyed =
      let (known, fresh, e) = add_attribute_definition_inv in
      let reads = λ (asked : Text).
        subst
          (λ u. lookup asked (load_definitions u) ≡ (
            if text_eq key asked
            then some (to_definition row)
            else lookup asked (load_definitions t)))
          (sym e) (load_definitions-append t row asked keyed fresh) in
      (
        to_definition row,
        reads key ∙ rw ((text_eq_iff key key).1 refl) refl,
        row-IsReadFrom,
        λ other apart. reads other ∙ rw apart refl,
      )
