-- ===== src/TreeShake/Shaken.antt =====
-- The operations of SchemaTreeShaker in crates/apollo-mcp-server/src/schema_tree_shake.rs: its
-- construction, what is retained for an operation, and the shaken schema.
use apollo_mcp_server.Prelude.{
  ℕ, Bool, false, not, ◌&&◌, Option, none, some, List, [], ◌∷◌, ◌++◌, map, String, contains, lookup,
  if◌then◌else◌,
}
use apollo_mcp_server.TreeShake.Syntax.{
  OperationType, query, mutation, subscription, InputValueDefinition, ExtendedType, scalar_type,
  object_type, interface_type, union_type, enum_type, input_object, Schema, SelectionSet,
  FragmentDefinition, OperationDefinition,
}
use apollo_mcp_server.TreeShake.Shaker.{DepthLimit, TreeTypeNode, SchemaTreeShaker, Then}
use apollo_mcp_server.TreeShake.{retain_type}

-- `SchemaTreeShaker::new`: nothing is retained.
unfoldable pub new : Schema → SchemaTreeShaker
new schema = record {
  named_type_nodes =
      map (λ entry. (entry.0, record { retain = false; filtered_field = none })) schema.types;
  directive_nodes = map (λ entry. (entry.0, false)) schema.directive_definitions;
  operation_types = [];
  named_fragments = [];
  arguments_descriptions = [];
}

default_name : OperationType → String
default_name query = "query"
default_name mutation = "mutation"
default_name subscription = "subscription"

unfoldable pub operation_name : Schema → OperationType → String
unfolding default_name
operation_name schema operation_type = elim (schema.root_operation operation_type) [
  | none ↦ default_name operation_type
  | some name ↦ name
]

module _ (trim : String → String) (schema : Schema) (fuel : ℕ) where
  unfoldable pub retain_operation_type : OperationType → Option SelectionSet → DepthLimit → Then
  retain_operation_type operation_type selections depth shaker =
      let shaker' = record shaker {
        operation_types = shaker.operation_types ++ operation_type ∷ [];
      } in
      let name = operation_name schema operation_type in
      elim (lookup name schema.types) [
        | none ↦ some shaker'
        | some type_def ↦ retain_type trim schema fuel name type_def selections depth shaker'
      ]

  unfoldable pub retain_operation :
      OperationDefinition → List (String × FragmentDefinition) → DepthLimit → Then
  retain_operation operation fragments depth shaker =
      retain_operation_type operation.operation_type (some operation.selection_set) depth
        (record shaker { named_fragments = fragments })

-- The shaken document, which apollo-compiler turns into a schema.
pub record ShakenDocument : Type 0 where
  pub root_operations : List (OperationType × String)
  pub schema_directives : List String
  pub directive_definitions : List (String × List InputValueDefinition)
  pub type_definitions : List (String × ExtendedType)

module _ {V : Type 0} where
  -- The entries that the filter keeps, if there is one.
  unfoldable pub filtered : Option (List String) → List (String × V) → List (String × V)
  filtered none fields = fields
  filtered (some names) [] = []
  filtered (some names) ((name, value) ∷ fields) =
      let others = filtered (some names) fields in
      if contains names name then (name, value) ∷ others else others

-- `named_type_nodes.get(name)` is there and retained.
unfoldable pub is_retained : SchemaTreeShaker → String → Bool
is_retained shaker name = elim (lookup name shaker.named_type_nodes) [
  | none ↦ false
  | some node ↦ node.retain
]

unfoldable pub is_directive_retained : SchemaTreeShaker → String → Bool
is_directive_retained shaker name = elim (lookup name shaker.directive_nodes) [
  | none ↦ false
  | some retained ↦ retained
]

unfoldable pub retained_members : SchemaTreeShaker → List String → List String
retained_members shaker [] = []
retained_members shaker (member ∷ members) =
    let others = retained_members shaker members in
    if is_retained shaker member then member ∷ others else others

unfoldable pub shake_type : SchemaTreeShaker → Option (List String) → ExtendedType → ExtendedType
shake_type shaker names (object_type directives fields) =
    object_type directives (filtered names fields)
shake_type shaker names (interface_type directives fields) =
    interface_type directives (filtered names fields)
shake_type shaker names (input_object directives fields) =
    input_object directives (filtered names fields)
shake_type shaker names (union_type directives members) =
    union_type directives (retained_members shaker members)
shake_type shaker names (enum_type directives values) = enum_type directives values
shake_type shaker names (scalar_type directives) = scalar_type directives

-- What is built into GraphQL is never listed.
module _ (built_in : String → Bool) (shaker : SchemaTreeShaker) where
  -- Whether a type stays, by its node.
  unfoldable pub stays : String → Option TreeTypeNode → Bool
  stays name none = false
  stays name (some node) = not (built_in name) && node.retain

  unfoldable pub filter_of : Option TreeTypeNode → Option (List String)
  filter_of none = none
  filter_of (some node) = node.filtered_field

  unfoldable pub shaken_types : List (String × ExtendedType) → List (String × ExtendedType)
  shaken_types [] = []
  shaken_types ((name, type_def) ∷ types) =
      let others = shaken_types types in
      let node = lookup name shaker.named_type_nodes in
      if stays name node
      then (name, shake_type shaker (filter_of node) type_def) ∷ others
      else others

  unfoldable pub shaken_directives :
      List (String × List InputValueDefinition) → List (String × List InputValueDefinition)
  shaken_directives [] = []
  shaken_directives ((name, arguments) ∷ directives) =
      let others = shaken_directives directives in
      if not (built_in name) && is_directive_retained shaker name
      then (name, arguments) ∷ others
      else others

-- The root operations that were retained and that the schema has.
unfoldable pub shaken_roots : Schema → List OperationType → List (OperationType × String)
shaken_roots schema [] = []
shaken_roots schema (operation_type ∷ operation_types) =
    let others = shaken_roots schema operation_types in
    elim (schema.root_operation operation_type) [
      | none ↦ others
      | some name ↦ (operation_type, name) ∷ others
    ]

unfoldable pub shaken : (String → Bool) → Schema → SchemaTreeShaker → ShakenDocument
shaken built_in schema shaker = record {
  root_operations = shaken_roots schema shaker.operation_types;
  schema_directives = schema.schema_directives;
  directive_definitions = shaken_directives built_in shaker schema.directive_definitions;
  type_definitions = shaken_types built_in shaker schema.types;
}
