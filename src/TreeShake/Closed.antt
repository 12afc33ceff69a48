-- ===== src/TreeShake/Closed.antt =====
-- Without a depth limit, what the tree shaker retains refers to nothing that it leaves out.
use apollo_mcp_server.Prelude.{
  ℕ, zero, suc, ◌≡◌, inl, inr, refl, true, false, ◌&&◌, Option, none, some, List, [], ◌∷◌, ◌++◌,
  String, lookup, is_none, arith, Bool-cases,
}
use apollo_mcp_server.TreeShake.Syntax.{
  InputValueDefinition, ExtendedType, scalar_type, object_type, interface_type, union_type,
  enum_type, input_object, Schema, SelectionSet,
}
use apollo_mcp_server.TreeShake.Shaker.{
  unlimited, reached, decrement, is_unlimited, SchemaTreeShaker, TreeTypeNode, replace, Retain,
  Then, skip, SelectedField, selected_fields, member_selections, non_empty, directives_of,
  mark_node,
}
use apollo_mcp_server.TreeShake.{
  retain_applicable, retain_member, retain_input_field, retain_parts, retain_below, retain_with,
  retain_node, retain_all_fragments, retain_step, retain_type,
}
use apollo_mcp_server.TreeShake.Shaken.{is_retained}
use apollo_mcp_server.TreeShake.Extends.{
  Reference, all_references, to_type, to_directives, input_field_references, value_references, has,
  HasAll, Extends,
}
use apollo_mcp_server.TreeShake.Marking.{mark_type-retained, mark_type-Extends}
use apollo_mcp_server.TreeShake.Items.{visited_of, followed, followed-own, followed-fields}
use apollo_mcp_server.TreeShake.Reaches.{
  All-append, Reaches, skip-Reaches, then-Reaches, for_each-Reaches, weaken-Reaches,
  nothing-Reaches,
}
use apollo_mcp_server.TreeShake.Fragments.{retain_fragments-Reaches}
use apollo_mcp_server.TreeShake.Followed.{
  visited_references, retain_named-Reaches, directives-Reaches, retain_fields-Reaches,
}

retained_node :
    (s : SchemaTreeShaker) (name : String) (node : TreeTypeNode)
    → lookup name s.named_type_nodes ≡ some node
    → node.retain ≡ true
    → is_retained s name ≡ true
unfolding is_retained
retained_node s name node found retained = ground arith

mark_node-retain :
    (node : TreeTypeNode) (selections : Option SelectionSet)
    → (mark_node node selections).retain ≡ true
unfolding mark_node
mark_node-retain node none = refl
mark_node-retain node (some selections) = refl

module _ (trim : String → String) (schema : Schema) (retain : Retain)
    (reaches : (name : String) (type_def : ExtendedType) (selections : Option SelectionSet)
      → lookup name schema.types ≡ some type_def
      → Reaches schema (retain name type_def selections unlimited) (to_type name ∷ [])) where
  retain_applicable-Reaches :
      (member : String) (selections : Option SelectionSet)
      → Reaches schema (retain_applicable trim schema retain member selections unlimited) []
  unfolding retain_applicable decrement
  retain_applicable-Reaches member none = skip-Reaches schema
  retain_applicable-Reaches member (some selections) =
      nothing-Reaches schema _ (to_type member ∷ [])
        (retain_named-Reaches trim schema retain reaches member (some selections))

  retain_member-Reaches :
      (selections : Option SelectionSet) (member : String)
      → Reaches schema (retain_member trim schema retain selections unlimited member) []
  unfolding retain_member decrement
  retain_member-Reaches none member =
      nothing-Reaches schema _ (to_type member ∷ [])
        (retain_named-Reaches trim schema retain reaches member none)
  retain_member-Reaches (some selections) member =
      λ s. retain_applicable-Reaches member (non_empty (member_selections s member selections)) s

  retain_input_field-Reaches :
      (entry : String × InputValueDefinition)
      → Reaches schema
          (retain_input_field trim schema retain unlimited entry)
          (input_field_references entry)
  unfolding retain_input_field decrement
  retain_input_field-Reaches entry =
      then-Reaches schema _ _ (to_type entry.1.ty ∷ []) (to_directives entry.1.directives)
        (retain_named-Reaches trim schema retain reaches entry.1.ty none)
        (directives-Reaches trim schema retain reaches entry.1.directives)

  no_selected_fields :
      (selected : List SelectedField) (t : SchemaTreeShaker)
      → HasAll schema t (visited_references (some selected) [])
  unfolding lookup
  no_selected_fields [] t = tt
  no_selected_fields (f ∷ selected) t = no_selected_fields selected t

  no_fields :
      (selections : Option SelectionSet) (t : SchemaTreeShaker)
      → HasAll schema t (visited_references (visited_of selections) [])
  no_fields none t = tt
  no_fields (some selections) t = no_selected_fields (selected_fields selections) t

  -- A type without fields.
  fieldless-Reaches :
      (m : Then) (references : List Reference) (selections : Option SelectionSet)
      → Reaches schema m references
      → Reaches schema m (references ++ visited_references (visited_of selections) [])
  fieldless-Reaches m references selections =
      weaken-Reaches schema m references _
        (λ t h. All-append (λ r. has schema t r ≡ true) references _ h (no_fields selections t))

  retain_parts-Reaches :
      (selections : Option SelectionSet) (type_def : ExtendedType)
      → Reaches schema
          (retain_parts trim schema retain unlimited selections type_def)
          (followed selections type_def)
  unfolding retain_parts
  retain_parts-Reaches none (object_type directives fields) =
      retain_fields-Reaches trim schema retain reaches true none fields
  retain_parts-Reaches (some selections) (object_type directives fields) =
      retain_fields-Reaches trim schema retain reaches true (some (selected_fields selections))
        fields
  retain_parts-Reaches none (interface_type directives fields) =
      retain_fields-Reaches trim schema retain reaches false none fields
  retain_parts-Reaches (some selections) (interface_type directives fields) =
      retain_fields-Reaches trim schema retain reaches false (some (selected_fields selections))
        fields
  retain_parts-Reaches selections (union_type directives members) =
      fieldless-Reaches _ [] selections (
        nothing-Reaches schema _ (all_references (λ member. []) members)
          (for_each-Reaches schema _ (λ member. []) (retain_member-Reaches selections) members))
  retain_parts-Reaches selections (enum_type directives values) =
      fieldless-Reaches _ (value_references values) selections (
        for_each-Reaches schema _ (λ value. to_directives value.1)
          (λ value. directives-Reaches trim schema retain reaches value.1) values)
  retain_parts-Reaches selections (scalar_type directives) =
      fieldless-Reaches skip [] selections (skip-Reaches schema)
  retain_parts-Reaches selections (input_object directives fields) =
      fieldless-Reaches _ (all_references input_field_references fields) selections
        (for_each-Reaches schema _ input_field_references retain_input_field-Reaches fields)

  retain_below-Reaches :
      (name : String) (type_def : ExtendedType) (selections : Option SelectionSet)
      → Reaches schema
          (retain_below trim schema retain name type_def selections unlimited)
          (to_directives (directives_of type_def) ++ followed selections type_def)
  unfolding retain_below
  retain_below-Reaches name type_def selections =
      then-Reaches schema _ _ (to_directives (directives_of type_def))
        (followed selections type_def)
        (directives-Reaches trim schema retain reaches (directives_of type_def))
        (retain_parts-Reaches selections type_def)

  retain_with-Reaches :
      (found : Option TreeTypeNode) (name : String) (type_def : ExtendedType)
      (selections : Option SelectionSet) (s t : SchemaTreeShaker)
      → lookup name schema.types ≡ some type_def
      → lookup name s.named_type_nodes ≡ found
      → retain_with trim schema retain found name type_def selections unlimited s ≡ some t
      → Extends schema s t × HasAll schema t (to_type name ∷ [])
  unfolding retain_with has
  retain_with-Reaches none name type_def selections s t known unknown h =
      let (grown, followed) = retain_below-Reaches name type_def selections s t h in
      (grown, (ground (arith, grown.same_types name), tt))
  retain_with-Reaches (some node) name type_def selections s t known found h =
      elim (Bool-cases (node.retain && is_none selections && is_unlimited unlimited)) [
        | inl early ↦
            let (grown, nothing) = skip-Reaches schema s t (rw early at h) in
            (
              grown,
              (
                ground (
                  arith,
                  grown.grows_types name (retained_node s name node found (ground arith)),
                ),
                tt,
              ),
            )
        | inr visit ↦
            let marked = mark_node node selections in
            let (grown, had) =
              retain_below-Reaches name type_def selections
                (record s { named_type_nodes = replace name marked s.named_type_nodes }) t
                (rw visit at h) in
            let retained = mark_node-retain node selections in
            (
              mark_type-Extends schema s t name node marked found retained grown
                  (followed-own schema t name type_def known selections had)
                  (λ f. followed-fields schema t name type_def known selections node f had),
              (
                ground (arith, mark_type-retained schema s t name node marked found retained grown),
                tt,
              ),
            )
      ]

  retain_all_fragments-Reaches :
      (selections : Option SelectionSet)
      → Reaches schema (retain_all_fragments trim schema retain selections unlimited) []
  unfolding retain_all_fragments
  retain_all_fragments-Reaches none = skip-Reaches schema
  retain_all_fragments-Reaches (some selections) =
      retain_fragments-Reaches trim schema retain reaches selections

  pub retain_step-Reaches :
      (name : String) (type_def : ExtendedType) (selections : Option SelectionSet)
      → lookup name schema.types ≡ some type_def
      → Reaches schema
          (retain_step trim schema retain name type_def selections unlimited)
          (to_type name ∷ [])
  unfolding retain_step retain_node reached
  retain_step-Reaches name type_def selections known =
      then-Reaches schema (retain_all_fragments trim schema retain selections unlimited)
        (retain_node trim schema retain name type_def selections unlimited) [] (to_type name ∷ [])
        (retain_all_fragments-Reaches selections)
        (λ s t h.
          retain_with-Reaches (lookup name s.named_type_nodes) name type_def selections s t known
            refl h)

-- A call of retain_type without a depth limit that ends has retained its type, and all that is newly
-- shown refers to nothing that is left out.
pub retain_type-Reaches :
    (trim : String → String) (schema : Schema) (fuel : ℕ) (name : String) (type_def : ExtendedType)
    (selections : Option SelectionSet)
    → lookup name schema.types ≡ some type_def
    → Reaches schema
        (retain_type trim schema fuel name type_def selections unlimited)
        (to_type name ∷ [])
unfolding retain_type
retain_type-Reaches trim schema zero name type_def selections known = λ s t h. absurd (cc)
retain_type-Reaches trim schema (suc fuel) name type_def selections known =
    retain_step-Reaches trim schema (retain_type trim schema fuel)
      (λ name' type_def' selections' known'.
        retain_type-Reaches trim schema fuel name' type_def' selections' known')
      name type_def selections known
