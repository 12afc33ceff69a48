-- ===== src/TreeShake/Shaker.antt =====
-- The state of the tree shaker of crates/apollo-mcp-server/src/schema_tree_shake.rs, and what it does
-- to single entries.
use apollo_mcp_server.Prelude.{
  ℕ, zero, suc, Bool, true, false, Option, none, some, List, [], ◌∷◌, ◌++◌, map, String, ◌==◌,
  lookup, if◌then◌else◌,
}
use apollo_mcp_server.TreeShake.Syntax.{
  OperationType, ExtendedType, scalar_type, object_type, interface_type, union_type, enum_type,
  input_object, Argument, Directive, field, fragment_spread, inline_fragment, SelectionSet, end,
  select, FragmentDefinition,
}

pub data DepthLimit : Type 0 where
  unlimited : DepthLimit
  limited : ℕ → DepthLimit

unfoldable pub reached : DepthLimit → Bool
reached unlimited = false
reached (limited zero) = true
reached (limited (suc depth)) = false

-- `usize` subtraction, which wraps in a release build.
unfoldable pub decrement : DepthLimit → DepthLimit
decrement unlimited = unlimited
decrement (limited zero) = limited 18446744073709551615
decrement (limited (suc depth)) = limited depth

abbrev pub is_unlimited : DepthLimit → Bool
is_unlimited unlimited = true
is_unlimited (limited depth) = false

pub record TreeTypeNode : Type 0 where
  pub retain : Bool
  pub filtered_field : Option (List String)

-- A directive's node is whether it is retained; its definition is the schema's.
pub record SchemaTreeShaker : Type 0 where
  pub named_type_nodes : List (String × TreeTypeNode)
  pub directive_nodes : List (String × Bool)
  pub operation_types : List OperationType
  pub named_fragments : List (String × FragmentDefinition)
  pub arguments_descriptions : List (String × List String)

-- `get_mut` of a map: the entry of the key is replaced.
module _ {V : Type 0} where
  unfoldable pub replace : String → V → List (String × V) → List (String × V)
  replace key value [] = []
  replace key value ((name, old) ∷ entries) =
      let others = replace key value entries in
      if name == key then (name, value) ∷ entries else (name, old) ∷ others

  -- Runs over a list with an effect; `none` is a run that does not end.
  unfoldable pub for_each :
      (V → SchemaTreeShaker → Option SchemaTreeShaker)
      → List V
      → SchemaTreeShaker
      → Option SchemaTreeShaker
  for_each body [] shaker = some shaker
  for_each body (x ∷ xs) shaker = elim (body x shaker) [
    | none ↦ none
    | some shaker' ↦ for_each body xs shaker'
  ]

-- A call of `retain_type` on a type of the schema.
abbrev pub Retain : Type 0
Retain =
    String
    → ExtendedType
    → Option SelectionSet
    → DepthLimit
    → SchemaTreeShaker
    → Option SchemaTreeShaker

abbrev pub Then : Type 0
Then = SchemaTreeShaker → Option SchemaTreeShaker

-- `m` and then `k`
infixl 5 ◌>>>◌
abbrev pub ◌>>>◌ : Then → Then → Then
◌>>>◌ m k shaker = elim (m shaker) [ none ↦ none | some shaker' ↦ k shaker' ]

abbrev pub skip : Then
skip shaker = some shaker

-- `__typename` and fragments select no field of the type itself.
pub record SelectedField : Type 0 where
  pub name : String
  pub directives : List Directive
  pub selection_set : SelectionSet
  pub arguments : List Argument

unfoldable pub selected_fields : SelectionSet → List SelectedField
selected_fields end = []
selected_fields (select (field name arguments directives selections) rest) =
    let others = selected_fields rest in
    if name == "__typename"
    then others
    else record {
      name = name;
      directives = directives;
      selection_set = selections;
      arguments = arguments;
    }
      ∷ others
selected_fields (select (fragment_spread name) rest) = selected_fields rest
selected_fields (select (inline_fragment condition selections) rest) = selected_fields rest

-- The arguments that are variables, with the later one counting, as in a `HashMap`.
unfoldable pub build_argument_name_to_value_map :
    List Argument → List (String × String) → List (String × String)
build_argument_name_to_value_map [] entries = entries
build_argument_name_to_value_map (a ∷ arguments) entries =
    build_argument_name_to_value_map arguments
      (elim a.value [ none ↦ entries | some variable ↦ (a.name, variable) ∷ entries ])

abbrev pub no_selections : SelectionSet → Bool
no_selections end = true
no_selections (select s rest) = false

-- The description of a variable gets that of the argument, unless it is blank.
unfoldable pub push_description :
    String → String → List (String × List String) → List (String × List String)
push_description variable text descriptions = elim (lookup variable descriptions) [
  | none ↦ (variable, text ∷ []) ∷ descriptions
  | some texts ↦ replace variable (texts ++ text ∷ []) descriptions
]

-- A field without selections has no fragments.
unfoldable pub nested_fragments : Bool → Then → Then
nested_fragments true nested = skip
nested_fragments false nested = nested

-- The selections that apply to a member of a union.
unfoldable pub member_selections : SchemaTreeShaker → String → SelectionSet → SelectionSet
member_selections shaker member end = end
member_selections shaker member (select s rest) =
    let others = member_selections shaker member rest in
    if elim s [
      | field name arguments directives selections ↦ true
      | fragment_spread name ↦ elim (lookup name shaker.named_fragments) [
        | none ↦ false
        | some fragment ↦ fragment.type_condition == member
      ]
      | inline_fragment condition selections ↦ elim condition [
        | none ↦ true
        | some name ↦ name == member
      ]
    ]
    then select s others
    else others

-- No selection applies, or some do.
unfoldable pub non_empty : SelectionSet → Option SelectionSet
non_empty end = none
non_empty (select s rest) = some (select s rest)

unfoldable pub directives_of : ExtendedType → List String
directives_of (scalar_type directives) = directives
directives_of (object_type directives fields) = directives
directives_of (interface_type directives fields) = directives
directives_of (union_type directives members) = directives
directives_of (enum_type directives values) = directives
directives_of (input_object directives fields) = directives

-- `unwrap_or_default`
unfoldable pub filtered_fields : Option (List String) → List String
filtered_fields none = []
filtered_fields (some names) = names

-- The node of a type that is retained, with the fields of one more selection.
unfoldable pub mark_node : TreeTypeNode → Option SelectionSet → TreeTypeNode
mark_node node none = record node { retain = true }
mark_node node (some selections) = record {
  retain = true;
  filtered_field = some (
      filtered_fields node.filtered_field
      ++ map (λ (f : SelectedField). f.name) (selected_fields selections));
}
