-- ===== src/TreeShake.antt =====
-- The tree shaker of GraphQL schemas: crates/apollo-mcp-server/src/schema_tree_shake.rs.
pub mod Syntax
pub mod Shaker
pub mod Shaken
pub mod Extends
pub mod Marking
pub mod Reaches
pub mod Followed
pub mod Items
pub mod Fragments
pub mod Closed
pub mod Defined
pub mod Resolved
pub mod Whole
pub mod Ends
pub mod Total
pub mod Spread
pub mod Selected
pub mod Terminating
pub mod Operation
pub mod Circular
pub mod Inline
mod Tests
use mathlib.Core.Option
use apollo_mcp_server.Prelude.{
  ℕ, zero, suc, Bool, true, false, ◌&&◌, Option, none, some, List, [], ◌∷◌, String, ◌==◌, lookup,
  is_none, if◌then◌else◌,
}
use apollo_mcp_server.TreeShake.Syntax.{
  InputValueDefinition, FieldDefinition, ExtendedType, scalar_type, object_type, interface_type,
  union_type, enum_type, input_object, Schema, Directive, field, fragment_spread, inline_fragment,
  SelectionSet, end, select, FragmentDefinition,
}
use apollo_mcp_server.TreeShake.Shaker.{
  DepthLimit, reached, decrement, is_unlimited, SchemaTreeShaker, TreeTypeNode, replace, for_each,
  Retain, Then, ◌>>>◌, skip, SelectedField, selected_fields, build_argument_name_to_value_map,
  push_description, no_selections, nested_fragments, member_selections, non_empty, directives_of,
  mark_node,
}

module _ (trim : String → String) (schema : Schema) (retain_type : Retain) where
  -- A description that is blank is left out.
  unfoldable pub describe : Option String → Option String → SchemaTreeShaker → SchemaTreeShaker
  describe none text shaker = shaker
  describe (some variable) none shaker = shaker
  describe (some variable) (some text) shaker = if trim text == "" then shaker else record shaker {
    arguments_descriptions = push_description variable (trim text) shaker.arguments_descriptions;
  }

  unfoldable pub retain_argument_descriptions :
      InputValueDefinition → List (String × String) → SchemaTreeShaker → SchemaTreeShaker
  retain_argument_descriptions arg operation_arguments =
      describe (lookup arg.name operation_arguments) arg.description

  unfoldable pub describe_all :
      List InputValueDefinition → List (String × String) → SchemaTreeShaker → SchemaTreeShaker
  describe_all [] arguments shaker = shaker
  describe_all (arg ∷ args) arguments shaker =
      describe_all args arguments (retain_argument_descriptions arg arguments shaker)

  -- Only objects describe their arguments.
  unfoldable pub describe_argument :
      Bool → InputValueDefinition → List (String × String) → SchemaTreeShaker → SchemaTreeShaker
  describe_argument true arg arguments shaker = retain_argument_descriptions arg arguments shaker
  describe_argument false arg arguments shaker = shaker

  unfoldable pub describe_directive :
      Bool → Directive → Option (List InputValueDefinition) → SchemaTreeShaker → SchemaTreeShaker
  describe_directive true directive none shaker = shaker
  describe_directive true directive (some args) shaker =
      describe_all args (build_argument_name_to_value_map directive.arguments []) shaker
  describe_directive false directive definition shaker = shaker

  -- A type that the schema does not have is only logged.
  unfoldable pub retain_found :
      String → Option ExtendedType → Option SelectionSet → DepthLimit → Then
  retain_found name none selections depth shaker = some shaker
  retain_found name (some type_def) selections depth shaker =
      retain_type name type_def selections depth shaker

  unfoldable pub retain_named : String → Option SelectionSet → DepthLimit → Then
  retain_named name selections depth = retain_found name (lookup name schema.types) selections depth

  unfoldable pub retain_known_directive : String → Option Bool → DepthLimit → Then
  retain_known_directive name none depth shaker = some shaker
  retain_known_directive name (some retained) depth shaker =
      for_each (λ arg. retain_named arg.ty none (decrement depth))
        (elim (lookup name schema.directive_definitions) [ none ↦ [] | some args ↦ args ])
        (record shaker { directive_nodes = replace name true shaker.directive_nodes })

  unfoldable pub retain_directive : String → DepthLimit → Then
  retain_directive name depth shaker =
      retain_known_directive name (lookup name shaker.directive_nodes) depth shaker

  unfoldable pub retain_spread : Option FragmentDefinition → DepthLimit → Then
  retain_spread none depth = skip
  retain_spread (some fragment) depth =
      retain_named fragment.type_condition (some fragment.selection_set) depth

  unfoldable pub retain_inline : Option String → SelectionSet → DepthLimit → Then
  retain_inline none selections depth = skip
  retain_inline (some name) selections depth = retain_named name (some selections) depth

  -- Fragments are retained with their own type, also those inside of fields.
  unfoldable pub retain_fragments : SelectionSet → DepthLimit → Then
  retain_fragments end depth shaker = some shaker
  retain_fragments (select (fragment_spread name) rest) depth shaker =
      elim (retain_spread (lookup name shaker.named_fragments) depth shaker) [
        | none ↦ none
        | some shaker' ↦ retain_fragments rest depth shaker'
      ]
  retain_fragments (select (inline_fragment condition selections) rest) depth shaker =
      elim (retain_inline condition selections depth shaker) [
        | none ↦ none
        | some shaker' ↦ retain_fragments rest depth shaker'
      ]
  retain_fragments (select (field name arguments directives selections) rest) depth shaker =
      elim (nested_fragments (no_selections selections)
        (retain_fragments selections (decrement depth)) shaker) [
          | none ↦ none
          | some shaker' ↦ retain_fragments rest depth shaker'
        ]

  -- One field with what the selection says of it, if there is one.
  unfoldable pub retain_definition :
      Bool → DepthLimit → FieldDefinition → Option SelectionSet → List (String × String) → Then
  retain_definition describes depth definition selections arguments =
      retain_named definition.ty selections (decrement depth)
      >>> for_each
          (λ arg shaker.
            retain_named arg.ty none (decrement depth)
              (describe_argument describes arg arguments shaker))
          definition.arguments

  unfoldable pub retain_selected_directive : Bool → DepthLimit → Directive → Then
  retain_selected_directive describes depth directive shaker =
      retain_directive directive.name depth (
        describe_directive describes directive (lookup directive.name schema.directive_definitions)
          shaker)

  unfoldable pub field_arguments : Option SelectedField → List (String × String)
  field_arguments none = []
  field_arguments (some s) = build_argument_name_to_value_map s.arguments []

  unfoldable pub field_selections : Option SelectedField → Option SelectionSet
  field_selections none = none
  field_selections (some s) = some s.selection_set

  unfoldable pub selected_directives : Option SelectedField → List Directive
  selected_directives none = []
  selected_directives (some s) = s.directives

  -- A field of an object or interface, or of a selection that may name no field of the type.
  unfoldable pub retain_field :
      Bool → DepthLimit → Option FieldDefinition → Option SelectedField → Then
  retain_field describes depth none selected =
      for_each (retain_selected_directive describes depth) (selected_directives selected)
  retain_field describes depth (some f) selected =
      retain_definition describes depth f (field_selections selected) (field_arguments selected)
      >>> for_each (λ name. retain_directive name depth) f.directives
      >>> for_each (retain_selected_directive describes depth) (selected_directives selected)

  -- The selected fields, or all fields without a selection.
  unfoldable pub retain_fields :
      Bool → DepthLimit → Option (List SelectedField) → List (String × FieldDefinition) → Then
  retain_fields describes depth none definitions =
      for_each (λ entry. retain_field describes depth (some entry.1) none) definitions
  retain_fields describes depth (some selected) definitions =
      for_each (λ s. retain_field describes depth (lookup s.name definitions) (some s)) selected

  -- A member for which no selection applies is left out.
  unfoldable pub retain_applicable : String → Option SelectionSet → DepthLimit → Then
  retain_applicable member none depth = skip
  retain_applicable member (some selections) depth =
      retain_named member (some selections) (decrement depth)

  unfoldable pub retain_member : Option SelectionSet → DepthLimit → String → Then
  retain_member none depth member shaker = retain_named member none (decrement depth) shaker
  retain_member (some selections) depth member shaker =
      retain_applicable member (non_empty (member_selections shaker member selections)) depth shaker

  unfoldable pub retain_input_field : DepthLimit → String × InputValueDefinition → Then
  retain_input_field depth entry =
      retain_named entry.1.ty none (decrement depth)
      >>> for_each (λ name. retain_directive name depth) entry.1.directives

  unfoldable pub retain_parts : DepthLimit → Option SelectionSet → ExtendedType → Then
  retain_parts depth selections (object_type directives fields) =
      retain_fields true depth (Option.map selected_fields selections) fields
  retain_parts depth selections (interface_type directives fields) =
      retain_fields false depth (Option.map selected_fields selections) fields
  retain_parts depth selections (union_type directives members) =
      for_each (retain_member selections depth) members
  retain_parts depth selections (enum_type directives values) =
      for_each (λ value. for_each (λ name. retain_directive name depth) value.1) values
  retain_parts depth selections (scalar_type directives) = skip
  retain_parts depth selections (input_object directives fields) =
      for_each (retain_input_field depth) fields

  -- What is reached from a type that is retained itself.
  unfoldable pub retain_below : String → ExtendedType → Option SelectionSet → DepthLimit → Then
  retain_below name type_def selections depth =
      for_each (λ directive. retain_directive directive depth) (directives_of type_def)
      >>> retain_parts depth selections type_def

  -- A type that was retained as a whole is not gone through again.
  unfoldable pub retain_with :
      Option TreeTypeNode → String → ExtendedType → Option SelectionSet → DepthLimit → Then
  retain_with none name type_def selections depth shaker =
      retain_below name type_def selections depth shaker
  retain_with (some node) name type_def selections depth shaker =
      if node.retain && is_none selections && is_unlimited depth
      then some shaker
      else retain_below name type_def selections depth (record shaker {
        named_type_nodes = replace name (mark_node node selections) shaker.named_type_nodes;
      })

  unfoldable pub retain_node : String → ExtendedType → Option SelectionSet → DepthLimit → Then
  retain_node name type_def selections depth shaker =
      retain_with (lookup name shaker.named_type_nodes) name type_def selections depth shaker

  unfoldable pub retain_all_fragments : Option SelectionSet → DepthLimit → Then
  retain_all_fragments none depth = skip
  retain_all_fragments (some selections) depth = retain_fragments selections depth

  unfoldable pub retain_step : Retain
  retain_step name type_def selections depth =
      if reached depth
      then skip
      else retain_all_fragments selections depth >>> retain_node name type_def selections depth

-- The fuel counts the calls of `retain_type` that may be open at once.
unfoldable pub retain_type : (String → String) → Schema → ℕ → Retain
retain_type trim schema zero = λ name type_def selections depth shaker. none
retain_type trim schema (suc fuel) = retain_step trim schema (retain_type trim schema fuel)
