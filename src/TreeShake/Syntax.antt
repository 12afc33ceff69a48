-- ===== src/TreeShake/Syntax.antt =====
-- The schemas and documents that crates/apollo-mcp-server/src/schema_tree_shake.rs reads, as
-- apollo-compiler gives them. Of a type reference only the innermost named type is kept.
use apollo_mcp_server.Prelude.{Option, List, String}

pub data OperationType : Type 0 where
  query mutation subscription : OperationType

-- An argument or an input field.
pub record InputValueDefinition : Type 0 where
  pub name : String
  pub description : Option String
  pub ty : String
  pub directives : List String

pub record FieldDefinition : Type 0 where
  pub arguments : List InputValueDefinition
  pub ty : String
  pub directives : List String

-- Each with the names of its directives.
pub data ExtendedType : Type 0 where
  scalar_type : List String → ExtendedType
  object_type : List String → List (String × FieldDefinition) → ExtendedType
  interface_type : List String → List (String × FieldDefinition) → ExtendedType
  union_type : List String → List String → ExtendedType
  enum_type : List String → List (String × List String) → ExtendedType
  input_object : List String → List (String × InputValueDefinition) → ExtendedType

pub record Schema : Type 0 where
  pub types : List (String × ExtendedType)
  pub directive_definitions : List (String × List InputValueDefinition)
  pub root_operation : OperationType → Option String
  pub schema_directives : List String

-- An argument of a field or a directive, with its value if that is a variable.
pub record Argument : Type 0 where
  pub name : String
  pub value : Option String

pub record Directive : Type 0 where
  pub name : String
  pub arguments : List Argument

mutual
  pub data Selection : Type 0 where
    field : String → List Argument → List Directive → SelectionSet → Selection
    fragment_spread : String → Selection
    inline_fragment : Option String → SelectionSet → Selection

  pub data SelectionSet : Type 0 where
    end : SelectionSet
    select : Selection → SelectionSet → SelectionSet

pub record FragmentDefinition : Type 0 where
  pub type_condition : String
  pub selection_set : SelectionSet

pub record OperationDefinition : Type 0 where
  pub operation_type : OperationType
  pub selection_set : SelectionSet
