-- ===== src/TreeShake/Selected.antt =====
-- Members of unions and the parts of a type: the calls that they make end.
use apollo_mcp_server.Prelude.{
  ℕ, suc, ◌+◌, ◌*◌, ◌≤◌, ◌≡◌, inl, inr, refl, Bool, true, false, Option, none, some, List, [], ◌∷◌,
  String, ◌==◌, lookup, All, arith, Bool-cases, if◌then◌else◌,
}
use apollo_mcp_server.TreeShake.Syntax.{
  InputValueDefinition, ExtendedType, scalar_type, object_type, interface_type, union_type,
  enum_type, input_object, Schema, field, fragment_spread, inline_fragment, Selection, SelectionSet,
  end, select, FragmentDefinition,
}
use apollo_mcp_server.TreeShake.Shaker.{
  unlimited, decrement, SchemaTreeShaker, for_each, Retain, selected_fields, member_selections,
  non_empty, directives_of,
}
use apollo_mcp_server.TreeShake.{
  retain_directive, retain_named, retain_found, retain_applicable, retain_member,
  retain_input_field, retain_parts, retain_below,
}
use apollo_mcp_server.TreeShake.Ends.{
  weight, union_weight, cost, heaviest, Ends, skip-Ends, then-Ends, for_each-Ends, All-every,
}
use apollo_mcp_server.TreeShake.Total.{
  retain_named-Ends, directives-Ends, Light, retain_fields-Ends, retain_all_fields-Ends,
}
use apollo_mcp_server.TreeShake.Spread.{Ranked}

abbrev pub found_weight : Option ExtendedType → ℕ
found_weight none = 0
found_weight (some type_def) = union_weight type_def

-- The members are not unions.
abbrev pub Plain : Schema → List String → Type 0
Plain schema members = All (λ m. found_weight (lookup m schema.types) ≡ 0) members

abbrev pub PlainType : Schema → ExtendedType → Type 0
PlainType schema (union_type directives members) = Plain schema members
PlainType schema type_def = Plain schema []

module _ (trim : String → String) (schema : Schema) (fragments : List (String × FragmentDefinition))
    (rank : String → ℕ) (retain : Retain) (most left : ℕ) (ranked : Ranked rank fragments)
    (ends : (name : String) (type_def : ExtendedType) (selections : Option SelectionSet)
      → lookup name schema.types ≡ some type_def
      → cost rank type_def selections ≤ most
      → Ends schema fragments left (retain name type_def selections unlimited)) where
  named :
      (name : String) (selections : Option SelectionSet)
      → heaviest rank selections ≤ most
      → Ends schema fragments left (retain_named trim schema retain name selections unlimited)
  named = retain_named-Ends trim schema fragments rank retain most left ends

  selected_fields-Light :
      (selections : SelectionSet)
      → 2 * weight rank selections ≤ most
      → Light trim schema fragments rank retain most left ends (selected_fields selections)
  unfolding selected_fields
  selected_fields-Light end h = tt
  selected_fields-Light (select (fragment_spread name) rest) h =
      selected_fields-Light rest (ground arith)
  selected_fields-Light (select (inline_fragment condition selections) rest) h =
      selected_fields-Light rest (ground arith)
  selected_fields-Light (select (field name arguments directives selections) rest) h =
      let others = selected_fields-Light rest (ground arith) in
      elim (Bool-cases (name == "__typename")) [
        | inl skipped ↦ rw skipped others
        | inr other ↦ rw other (ground arith, others)
      ]

  weight-if :
      (keep : Bool) (first : Selection) (rest others : SelectionSet)
      → weight rank others ≤ weight rank rest
      → weight rank (if keep then select first others else others) ≤ weight rank (select first rest)
  weight-if true (fragment_spread name) rest others h = ground arith
  weight-if false (fragment_spread name) rest others h = ground arith
  weight-if true (inline_fragment condition selections) rest others h = ground arith
  weight-if false (inline_fragment condition selections) rest others h = ground arith
  weight-if true (field name arguments directives selections) rest others h = ground arith
  weight-if false (field name arguments directives selections) rest others h = ground arith

  weight-member_selections :
      (s : SchemaTreeShaker) (member : String) (selections : SelectionSet)
      → weight rank (member_selections s member selections) ≤ weight rank selections
  unfolding member_selections
  weight-member_selections s member end = ground arith
  weight-member_selections s member (select first rest) =
      weight-if _ first rest _ (weight-member_selections s member rest)

  retain_found_member-Ends :
      (member : String) (found : Option ExtendedType) (selections : SelectionSet)
      → lookup member schema.types ≡ found
      → found_weight found ≡ 0
      → suc (2 * weight rank selections) ≤ most
      → Ends schema fragments left
          (retain_found trim schema retain member found (some selections) unlimited)
  unfolding retain_found
  retain_found_member-Ends member none selections e plain h = skip-Ends schema fragments left
  retain_found_member-Ends member (some type_def) selections e plain h =
      ends member type_def (some selections) e (ground arith)

  retain_applicable-Ends :
      (member : String) (selections : SelectionSet)
      → found_weight (lookup member schema.types) ≡ 0
      → suc (2 * weight rank selections) ≤ most
      → Ends schema fragments left
          (retain_applicable trim schema retain member (non_empty selections) unlimited)
  unfolding retain_applicable non_empty retain_named decrement
  retain_applicable-Ends member end plain h = skip-Ends schema fragments left
  retain_applicable-Ends member (select first rest) plain h =
      retain_found_member-Ends member (lookup member schema.types) (select first rest) refl plain h

  retain_members-Ends :
      (selections : SelectionSet) (members : List String)
      → Plain schema members
      → suc (2 * weight rank selections) ≤ most
      → All
          (λ m.
            Ends schema fragments left
              (retain_member trim schema retain (some selections) unlimited m))
          members
  unfolding retain_member
  retain_members-Ends selections [] plain h = tt
  retain_members-Ends selections (member ∷ members) plain h = (
    λ s g.
        retain_applicable-Ends member (member_selections s member selections) plain.0
          (ground (arith, weight-member_selections s member selections)) s g,
    retain_members-Ends selections members plain.1 h,
  )

  retain_input_field-Ends :
      (entry : String × InputValueDefinition)
      → Ends schema fragments left (retain_input_field trim schema retain unlimited entry)
  unfolding retain_input_field decrement
  retain_input_field-Ends entry =
      then-Ends schema fragments left _ _ (named entry.1.ty none (ground arith))
        (directives-Ends trim schema fragments rank retain most left ends entry.1.directives)

  -- What a union costs leaves room for its members.
  abbrev pub Affordable : Option SelectionSet → ExtendedType → Type 0
  Affordable none type_def = most ≡ most
  Affordable (some selections) type_def = 2 * weight rank selections + union_weight type_def ≤ most

  retain_enum-Ends :
      (values : List (String × List String))
      → Ends schema fragments left (
          for_each
            (λ value. for_each (λ name. retain_directive trim schema retain name unlimited) value.1)
            values)
  retain_enum-Ends values = for_each-Ends schema fragments left _ values (
      All-every _
        (λ (value : String × List String).
          directives-Ends trim schema fragments rank retain most left ends value.1)
        values)

  pub retain_parts-Ends :
      (selections : Option SelectionSet) (type_def : ExtendedType)
      → Affordable selections type_def
      → PlainType schema type_def
      → Ends schema fragments left (retain_parts trim schema retain unlimited selections type_def)
  unfolding retain_parts retain_member decrement
  retain_parts-Ends none (object_type directives fields) h plain =
      retain_all_fields-Ends trim schema fragments rank retain most left ends true fields
  retain_parts-Ends none (interface_type directives fields) h plain =
      retain_all_fields-Ends trim schema fragments rank retain most left ends false fields
  retain_parts-Ends none (union_type directives members) h plain =
      for_each-Ends schema fragments left _ members
        (All-every _ (λ member. named member none (ground arith)) members)
  retain_parts-Ends (some selections) (object_type directives fields) h plain =
      retain_fields-Ends trim schema fragments rank retain most left ends true fields _
        (selected_fields-Light selections (ground arith))
  retain_parts-Ends (some selections) (interface_type directives fields) h plain =
      retain_fields-Ends trim schema fragments rank retain most left ends false fields _
        (selected_fields-Light selections (ground arith))
  retain_parts-Ends (some selections) (union_type directives members) h plain =
      for_each-Ends schema fragments left _ members
        (retain_members-Ends selections members plain (ground arith))
  retain_parts-Ends selections (enum_type directives values) h plain = retain_enum-Ends values
  retain_parts-Ends selections (scalar_type directives) h plain = skip-Ends schema fragments left
  retain_parts-Ends selections (input_object directives fields) h plain =
      for_each-Ends schema fragments left _ fields (All-every _ retain_input_field-Ends fields)

  pub retain_below-Ends :
      (name : String) (type_def : ExtendedType) (selections : Option SelectionSet)
      → Affordable selections type_def
      → PlainType schema type_def
      → Ends schema fragments left
          (retain_below trim schema retain name type_def selections unlimited)
  unfolding retain_below
  retain_below-Ends name type_def selections h plain =
      then-Ends schema fragments left _ _
        (directives-Ends trim schema fragments rank retain most left ends (directives_of type_def))
        (retain_parts-Ends selections type_def h plain)
