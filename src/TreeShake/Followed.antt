-- ===== src/TreeShake/Followed.antt =====
-- What one call of retain_type reaches, when the calls that it makes reach their types.
use apollo_mcp_server.Prelude.{
  ◌≡◌, ◌∙◌, inl, inr, refl, ap, Bool, true, false, Option, none, some, List, [], ◌∷◌, String, ◌==◌,
  lookup, arith, Bool-cases,
}
use apollo_mcp_server.TreeShake.Syntax.{
  InputValueDefinition, FieldDefinition, ExtendedType, Schema, Directive, SelectionSet,
}
use apollo_mcp_server.TreeShake.Shaker.{
  unlimited, decrement, SchemaTreeShaker, for_each, Retain, SelectedField,
  build_argument_name_to_value_map, push_description,
}
use apollo_mcp_server.TreeShake.{
  describe, describe_argument, describe_directive, retain_found, retain_known_directive,
  retain_argument_descriptions, describe_all, retain_named, retain_directive, retain_definition,
  retain_selected_directive, retain_field, retain_fields,
}
use apollo_mcp_server.TreeShake.Extends.{
  Reference, all_references, to_type, to_directive, types_of_arguments, to_directives,
  field_references, found_references, item_references, has, HasAll, Extends,
}
use apollo_mcp_server.TreeShake.Marking.{mark_directive-retained, mark_directive-Extends}
use apollo_mcp_server.TreeShake.Reaches.{
  Reaches, skip-Reaches, then-Reaches, for_each-Reaches, nothing-Reaches, then-Reaches_nil,
  described-Reaches,
}

-- A change of descriptions alone.
abbrev OnlyDescribes : (SchemaTreeShaker → SchemaTreeShaker) → Type 0
OnlyDescribes change =
    (s : SchemaTreeShaker)
    → (d : List (String × List String)) × (change s ≡ record s { arguments_descriptions = d })

-- The references of the fields that are gone through: those of a selection, or all.
abbrev pub visited_references :
    Option (List SelectedField) → List (String × FieldDefinition) → List Reference
visited_references none definitions = all_references (λ entry. field_references entry.1) definitions
visited_references (some selected) definitions =
    all_references (λ s. found_references (lookup s.name definitions)) selected

module _ (trim : String → String) (schema : Schema) (retain : Retain)
    (reaches : (name : String) (type_def : ExtendedType) (selections : Option SelectionSet)
      → lookup name schema.types ≡ some type_def
      → Reaches schema (retain name type_def selections unlimited) (to_type name ∷ [])) where
  describe-only :
      (variable text : Option String) → OnlyDescribes (describe trim schema retain variable text)
  unfolding describe
  describe-only none text s = (s.arguments_descriptions, refl)
  describe-only (some variable) none s = (s.arguments_descriptions, refl)
  describe-only (some variable) (some text) s = elim (Bool-cases (trim text == "")) [
    | inl blank ↦ (s.arguments_descriptions, rw blank)
    | inr full ↦ (push_description variable (trim text) s.arguments_descriptions, rw full)
  ]

  retain_found-Reaches :
      (name : String) (found : Option ExtendedType) (selections : Option SelectionSet)
      → lookup name schema.types ≡ found
      → Reaches schema
          (retain_found trim schema retain name found selections unlimited)
          (to_type name ∷ [])
  unfolding retain_found has
  retain_found-Reaches name none selections unknown =
      λ s t h. ((skip-Reaches schema s t h).0, (ground arith, tt))
  retain_found-Reaches name (some type_def) selections known =
      reaches name type_def selections known

  pub retain_named-Reaches :
      (name : String) (selections : Option SelectionSet)
      → Reaches schema
          (retain_named trim schema retain name selections unlimited)
          (to_type name ∷ [])
  unfolding retain_named
  retain_named-Reaches name selections =
      retain_found-Reaches name (lookup name schema.types) selections refl

  arguments-Reaches :
      (arguments : List InputValueDefinition)
      → Reaches schema
          (for_each (λ arg. retain_named trim schema retain arg.ty none unlimited) arguments)
          (types_of_arguments arguments)
  arguments-Reaches arguments =
      for_each-Reaches schema (λ arg. retain_named trim schema retain arg.ty none unlimited)
        (λ arg. to_type arg.ty ∷ []) (λ arg. retain_named-Reaches arg.ty none) arguments

  retain_known_directive-Reaches :
      (name : String) (found : Option Bool) (s t : SchemaTreeShaker)
      → lookup name s.directive_nodes ≡ found
      → retain_known_directive trim schema retain name found unlimited s ≡ some t
      → Extends schema s t × HasAll schema t (to_directive name ∷ [])
  unfolding retain_known_directive decrement has item_references
  retain_known_directive-Reaches name none s t unknown h =
      let (grown, nothing) = skip-Reaches schema s t h in
      (grown, (ground (arith, grown.same_directives name), tt))
  retain_known_directive-Reaches name (some old) s t known h =
      let (grown, followed) = arguments-Reaches _ _ t h in
      (
        mark_directive-Extends schema s t name old known grown followed,
        (ground (arith, mark_directive-retained schema s t name old known grown), tt),
      )

  pub retain_directive-Reaches :
      (name : String)
      → Reaches schema (retain_directive trim schema retain name unlimited) (to_directive name ∷ [])
  unfolding retain_directive
  retain_directive-Reaches name s t h =
      retain_known_directive-Reaches name (lookup name s.directive_nodes) s t refl h

  pub directives-Reaches :
      (names : List String)
      → Reaches schema
          (for_each (λ name. retain_directive trim schema retain name unlimited) names)
          (to_directives names)
  directives-Reaches names =
      for_each-Reaches schema (λ name. retain_directive trim schema retain name unlimited)
        (λ name. to_directive name ∷ []) retain_directive-Reaches names

  retain_argument_descriptions-only :
      (arg : InputValueDefinition) (arguments : List (String × String))
      → OnlyDescribes (retain_argument_descriptions trim schema retain arg arguments)
  unfolding retain_argument_descriptions
  retain_argument_descriptions-only arg arguments s =
      describe-only (lookup arg.name arguments) arg.description s

  describe_argument-only :
      (describes : Bool) (arg : InputValueDefinition) (arguments : List (String × String))
      → OnlyDescribes (describe_argument trim schema retain describes arg arguments)
  unfolding describe_argument
  describe_argument-only true arg arguments s = retain_argument_descriptions-only arg arguments s
  describe_argument-only false arg arguments s = (s.arguments_descriptions, refl)

  describe_all-only :
      (args : List InputValueDefinition) (arguments : List (String × String))
      → OnlyDescribes (describe_all trim schema retain args arguments)
  unfolding describe_all
  describe_all-only [] arguments s = (s.arguments_descriptions, refl)
  describe_all-only (arg ∷ args) arguments s =
      let (d, same) = retain_argument_descriptions-only arg arguments s in
      let (d', same') =
        describe_all-only args arguments (record s { arguments_descriptions = d }) in
      (d', ap (describe_all trim schema retain args arguments) same ∙ same')

  describe_directive-only :
      (describes : Bool) (directive : Directive) (found : Option (List InputValueDefinition))
      → OnlyDescribes (describe_directive trim schema retain describes directive found)
  unfolding describe_directive
  describe_directive-only true directive none s = (s.arguments_descriptions, refl)
  describe_directive-only true directive (some args) s =
      describe_all-only args (build_argument_name_to_value_map directive.arguments []) s
  describe_directive-only false directive found s = (s.arguments_descriptions, refl)

  retain_definition-Reaches :
      (describes : Bool) (f : FieldDefinition) (selections : Option SelectionSet)
      (arguments : List (String × String))
      → Reaches schema
          (retain_definition trim schema retain describes unlimited f selections arguments)
          (to_type f.ty ∷ types_of_arguments f.arguments)
  unfolding retain_definition decrement
  retain_definition-Reaches describes f selections arguments =
      then-Reaches schema _ _ (to_type f.ty ∷ []) (types_of_arguments f.arguments)
        (retain_named-Reaches f.ty selections)
        (for_each-Reaches schema _ (λ arg. to_type arg.ty ∷ [])
          (λ arg.
            described-Reaches schema (describe_argument trim schema retain describes arg arguments)
              (retain_named trim schema retain arg.ty none unlimited) (to_type arg.ty ∷ [])
              (describe_argument-only describes arg arguments) (retain_named-Reaches arg.ty none))
          f.arguments)

  selected_directives-Reaches :
      (describes : Bool) (directives : List Directive)
      → Reaches schema
          (for_each (retain_selected_directive trim schema retain describes unlimited) directives)
          []
  unfolding retain_selected_directive
  selected_directives-Reaches describes directives =
      nothing-Reaches schema _
        (all_references (λ directive. to_directive directive.name ∷ []) directives)
        (for_each-Reaches schema _ (λ directive. to_directive directive.name ∷ [])
          (λ directive.
            described-Reaches schema
              (describe_directive trim schema retain describes directive
                (lookup directive.name schema.directive_definitions))
              (retain_directive trim schema retain directive.name unlimited)
              (to_directive directive.name ∷ [])
              (describe_directive-only describes directive
                (lookup directive.name schema.directive_definitions))
              (retain_directive-Reaches directive.name))
          directives)

  retain_field-Reaches :
      (describes : Bool) (found : Option FieldDefinition) (selected : Option SelectedField)
      → Reaches schema
          (retain_field trim schema retain describes unlimited found selected)
          (found_references found)
  unfolding retain_field
  retain_field-Reaches describes none selected = selected_directives-Reaches describes _
  retain_field-Reaches describes (some f) selected =
      then-Reaches_nil schema _ _ (field_references f)
        (then-Reaches schema _ _ (to_type f.ty ∷ types_of_arguments f.arguments)
          (to_directives f.directives) (retain_definition-Reaches describes f _ _)
          (directives-Reaches f.directives))
        (selected_directives-Reaches describes _)

  pub retain_fields-Reaches :
      (describes : Bool) (selected : Option (List SelectedField))
      (definitions : List (String × FieldDefinition))
      → Reaches schema
          (retain_fields trim schema retain describes unlimited selected definitions)
          (visited_references selected definitions)
  unfolding retain_fields
  retain_fields-Reaches describes none definitions =
      for_each-Reaches schema _ (λ entry. field_references entry.1)
        (λ entry. retain_field-Reaches describes (some entry.1) none) definitions
  retain_fields-Reaches describes (some selected) definitions =
      for_each-Reaches schema _ (λ s. found_references (lookup s.name definitions))
        (λ s. retain_field-Reaches describes (lookup s.name definitions) (some s)) selected
