-- ===== src/TreeShake/Total.antt =====
-- The steps of the tree shaker end if the calls of retain_type that they make do.
use apollo_mcp_server.Prelude.{
  ℕ, ◌≤◌, ◌≡◌, inl, inr, refl, Bool, true, false, Option, none, some, List, [], ◌∷◌, String, ◌==◌,
  lookup, All, arith, Bool-cases,
}
use apollo_mcp_server.TreeShake.Syntax.{
  InputValueDefinition, FieldDefinition, ExtendedType, Schema, Directive, SelectionSet,
  FragmentDefinition,
}
use apollo_mcp_server.TreeShake.Shaker.{
  unlimited, decrement, SchemaTreeShaker, replace, for_each, Retain, SelectedField,
}
use apollo_mcp_server.TreeShake.{
  describe, retain_argument_descriptions, describe_all, describe_argument, describe_directive,
  retain_found, retain_named, retain_known_directive, retain_directive, retain_definition,
  retain_selected_directive, field_selections, retain_field, retain_fields,
}
use apollo_mcp_server.TreeShake.Ends.{
  cost, heaviest, cost-heaviest, Good, Ends, skip-Ends, then-Ends, for_each-Ends, changed-Ends,
  All-every,
}

module _ (trim : String → String) (schema : Schema) (fragments : List (String × FragmentDefinition))
    (rank : String → ℕ) (retain : Retain) (most left : ℕ)
    (ends : (name : String) (type_def : ExtendedType) (selections : Option SelectionSet)
      → lookup name schema.types ≡ some type_def
      → cost rank type_def selections ≤ most
      → Ends schema fragments left (retain name type_def selections unlimited)) where
  retain_found-Ends :
      (name : String) (found : Option ExtendedType) (selections : Option SelectionSet)
      → lookup name schema.types ≡ found
      → heaviest rank selections ≤ most
      → Ends schema fragments left (retain_found trim schema retain name found selections unlimited)
  unfolding retain_found
  retain_found-Ends name none selections e h = skip-Ends schema fragments left
  retain_found-Ends name (some type_def) selections e h =
      ends name type_def selections e (ground (arith, cost-heaviest rank type_def selections))

  pub retain_named-Ends :
      (name : String) (selections : Option SelectionSet)
      → heaviest rank selections ≤ most
      → Ends schema fragments left (retain_named trim schema retain name selections unlimited)
  unfolding retain_named
  retain_named-Ends name selections h =
      retain_found-Ends name (lookup name schema.types) selections refl h

  marked_directive :
      (name : String) (s : SchemaTreeShaker)
      → Good schema fragments left s
      → Good schema fragments left
          (record s { directive_nodes = replace name true s.directive_nodes })
  marked_directive name s g = record {
    known = g.known;
    same_fragments = g.same_fragments;
    few = g.few;
  }

  retain_known_directive-Ends :
      (name : String) (found : Option Bool)
      → Ends schema fragments left (retain_known_directive trim schema retain name found unlimited)
  unfolding retain_known_directive decrement
  retain_known_directive-Ends name none = skip-Ends schema fragments left
  retain_known_directive-Ends name (some retained) = λ s g.
      for_each-Ends schema fragments left _ _
        (All-every _ (λ (arg : InputValueDefinition). retain_named-Ends arg.ty none (ground arith))
          _)
        _ (marked_directive name s g)

  pub retain_directive-Ends :
      (name : String)
      → Ends schema fragments left (retain_directive trim schema retain name unlimited)
  unfolding retain_directive
  retain_directive-Ends name s g =
      retain_known_directive-Ends name (lookup name s.directive_nodes) s g

  pub directives-Ends :
      (names : List String)
      → Ends schema fragments left
          (for_each (λ name. retain_directive trim schema retain name unlimited) names)
  directives-Ends names =
      for_each-Ends schema fragments left _ names (All-every _ retain_directive-Ends names)

  describe-Good :
      (variable text : Option String) (s : SchemaTreeShaker)
      → Good schema fragments left s
      → Good schema fragments left (describe trim schema retain variable text s)
  unfolding describe
  describe-Good none text s g = g
  describe-Good (some variable) none s g = g
  describe-Good (some variable) (some text) s g = elim (Bool-cases (trim text == "")) [
    | inl blank ↦ rw blank g
    | inr told ↦
        rw told (record { known = g.known; same_fragments = g.same_fragments; few = g.few })
  ]

  describe_all-Good :
      (args : List InputValueDefinition) (arguments : List (String × String)) (s : SchemaTreeShaker)
      → Good schema fragments left s
      → Good schema fragments left (describe_all trim schema retain args arguments s)
  unfolding describe_all retain_argument_descriptions
  describe_all-Good [] arguments s g = g
  describe_all-Good (arg ∷ args) arguments s g =
      describe_all-Good args arguments _
        (describe-Good (lookup arg.name arguments) arg.description s g)

  describe_argument-Good :
      (describes : Bool) (arg : InputValueDefinition) (arguments : List (String × String))
      (s : SchemaTreeShaker)
      → Good schema fragments left s
      → Good schema fragments left (describe_argument trim schema retain describes arg arguments s)
  unfolding describe_argument retain_argument_descriptions
  describe_argument-Good true arg arguments s g =
      describe-Good (lookup arg.name arguments) arg.description s g
  describe_argument-Good false arg arguments s g = g

  describe_directive-Good :
      (describes : Bool) (directive : Directive) (found : Option (List InputValueDefinition))
      (s : SchemaTreeShaker)
      → Good schema fragments left s
      → Good schema fragments left
          (describe_directive trim schema retain describes directive found s)
  unfolding describe_directive
  describe_directive-Good true directive none s g = g
  describe_directive-Good true directive (some args) s g = describe_all-Good args _ s g
  describe_directive-Good false directive found s g = g

  retain_definition-Ends :
      (describes : Bool) (f : FieldDefinition) (selections : Option SelectionSet)
      (arguments : List (String × String))
      → heaviest rank selections ≤ most
      → Ends schema fragments left
          (retain_definition trim schema retain describes unlimited f selections arguments)
  unfolding retain_definition decrement
  retain_definition-Ends describes f selections arguments h =
      then-Ends schema fragments left _ _ (retain_named-Ends f.ty selections h) (
        for_each-Ends schema fragments left _ f.arguments (
          All-every _
            (λ (arg : InputValueDefinition).
              changed-Ends schema fragments left _ _
                (describe_argument-Good describes arg arguments)
                (retain_named-Ends arg.ty none (ground arith)))
            f.arguments))

  retain_selected_directive-Ends :
      (describes : Bool) (directive : Directive)
      → Ends schema fragments left
          (retain_selected_directive trim schema retain describes unlimited directive)
  unfolding retain_selected_directive
  retain_selected_directive-Ends describes directive =
      changed-Ends schema fragments left _ _
        (describe_directive-Good describes directive
          (lookup directive.name schema.directive_definitions))
        (retain_directive-Ends directive.name)

  retain_field-Ends :
      (describes : Bool) (found : Option FieldDefinition) (selected : Option SelectedField)
      → heaviest rank (field_selections trim schema retain selected) ≤ most
      → Ends schema fragments left
          (retain_field trim schema retain describes unlimited found selected)
  unfolding retain_field
  retain_field-Ends describes none selected h =
      for_each-Ends schema fragments left _ _
        (All-every _ (retain_selected_directive-Ends describes) _)
  retain_field-Ends describes (some f) selected h =
      then-Ends schema fragments left _ _
        (then-Ends schema fragments left _ _ (retain_definition-Ends describes f _ _ h)
          (directives-Ends f.directives))
        (for_each-Ends schema fragments left _ _
          (All-every _ (retain_selected_directive-Ends describes) _))

  -- What a list of selected fields may cost.
  abbrev pub Light : List SelectedField → Type 0
  Light = All (λ (f : SelectedField). heaviest rank (some f.selection_set) ≤ most)

  light_fields-Ends :
      (describes : Bool) (definitions : List (String × FieldDefinition))
      (selected : List SelectedField)
      → Light selected
      → All
          (λ (s : SelectedField). Ends schema fragments left (
            retain_field trim schema retain describes unlimited
              (lookup s.name definitions)
              (some s)))
          selected
  unfolding field_selections
  light_fields-Ends describes definitions [] h = tt
  light_fields-Ends describes definitions (s ∷ selected) h = (
    retain_field-Ends describes (lookup s.name definitions) (some s) h.0,
    light_fields-Ends describes definitions selected h.1,
  )

  pub retain_fields-Ends :
      (describes : Bool) (definitions : List (String × FieldDefinition))
      (selected : List SelectedField)
      → Light selected
      → Ends schema fragments left
          (retain_fields trim schema retain describes unlimited (some selected) definitions)
  unfolding retain_fields
  retain_fields-Ends describes definitions selected h =
      for_each-Ends schema fragments left _ selected
        (light_fields-Ends describes definitions selected h)

  pub retain_all_fields-Ends :
      (describes : Bool) (definitions : List (String × FieldDefinition))
      → Ends schema fragments left
          (retain_fields trim schema retain describes unlimited none definitions)
  unfolding retain_fields field_selections
  retain_all_fields-Ends describes definitions = for_each-Ends schema fragments left _ definitions (
      All-every _
        (λ (entry : String × FieldDefinition).
          retain_field-Ends describes (some entry.1) none (ground arith))
        definitions)
