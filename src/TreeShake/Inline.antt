-- ===== src/TreeShake/Inline.antt =====
-- Inline fragments without a type condition, such as `... @include(if: $deep) { friends }`.
use apollo_mcp_server.Prelude.{
  ℕ, zero, suc, ◌≡◌, refl, ap, Bool, true, false, Option, none, some, String, lookup, ◌&&◌,
  if◌then◌else◌,
}
use apollo_mcp_server.TreeShake.Syntax.{
  ExtendedType, scalar_type, object_type, interface_type, union_type, enum_type, input_object,
  Schema, inline_fragment, SelectionSet, select,
}
use apollo_mcp_server.TreeShake.Shaker.{
  DepthLimit, reached, is_unlimited, replace, Then, skip, SchemaTreeShaker, TreeTypeNode,
  selected_fields, Retain, mark_node,
}
use apollo_mcp_server.TreeShake.{
  retain_inline, retain_fragments, retain_all_fragments, retain_parts, retain_below, retain_with,
  retain_node, retain_step, retain_type,
}

abbrev pub is_union : ExtendedType → Bool
is_union (scalar_type directives) = false
is_union (object_type directives fields) = false
is_union (interface_type directives fields) = false
is_union (union_type directives members) = true
is_union (enum_type directives values) = false
is_union (input_object directives fields) = false

module _ (trim : String → String) (schema : Schema) (retain : Retain) (hidden rest : SelectionSet)
    (depth : DepthLimit) where
  abbrev with_inline : SelectionSet
  with_inline = select (inline_fragment none hidden) rest

  retain_below-inline :
      (name : String) (type_def : ExtendedType) (s : SchemaTreeShaker)
      → is_union type_def ≡ false
      → retain_below trim schema retain name type_def (some with_inline) depth s
        ≡ retain_below trim schema retain name type_def (some rest) depth s
  unfolding retain_below retain_parts selected_fields
  retain_below-inline name (scalar_type directives) s h = refl
  retain_below-inline name (object_type directives fields) s h = refl
  retain_below-inline name (interface_type directives fields) s h = refl
  retain_below-inline name (union_type directives members) s h = absurd (cc)
  retain_below-inline name (enum_type directives values) s h = refl
  retain_below-inline name (input_object directives fields) s h = refl

  retain_with-inline :
      (node : Option TreeTypeNode) (name : String) (type_def : ExtendedType) (s : SchemaTreeShaker)
      → is_union type_def ≡ false
      → retain_with trim schema retain node name type_def (some with_inline) depth s
        ≡ retain_with trim schema retain node name type_def (some rest) depth s
  unfolding retain_with mark_node selected_fields
  retain_with-inline none name type_def s h = retain_below-inline name type_def s h
  retain_with-inline (some node) name type_def s h =
      ap (λ r. if node.retain && false && is_unlimited depth then some s else r)
        (retain_below-inline name type_def
          (record s {
            named_type_nodes = replace name (mark_node node (some rest)) s.named_type_nodes;
          })
          h)

  after_fragments :
      (found : Option SchemaTreeShaker) (name : String) (type_def : ExtendedType)
      → is_union type_def ≡ false
      → (elim found [
        | none ↦ none
        | some t ↦ retain_node trim schema retain name type_def (some with_inline) depth t
      ])
        ≡ (elim found [
          | none ↦ none
          | some t ↦ retain_node trim schema retain name type_def (some rest) depth t
        ])
  unfolding retain_node
  after_fragments none name type_def h = refl
  after_fragments (some t) name type_def h =
      retain_with-inline (lookup name t.named_type_nodes) name type_def t h

  unless_reached :
      (at_limit : Bool) (m k : Then) (s : SchemaTreeShaker)
      → m s ≡ k s
      → (if at_limit then skip else m) s ≡ (if at_limit then skip else k) s
  unless_reached true m k s h = refl
  unless_reached false m k s h = h

  retain_step-inline :
      (name : String) (type_def : ExtendedType) (s : SchemaTreeShaker)
      → is_union type_def ≡ false
      → retain_step trim schema retain name type_def (some with_inline) depth s
        ≡ retain_step trim schema retain name type_def (some rest) depth s
  unfolding retain_step retain_all_fragments retain_fragments retain_inline
  retain_step-inline name type_def s h =
      unless_reached (reached depth) _ _ s
        (after_fragments (retain_fragments trim schema retain rest depth s) name type_def h)

-- At a type that is no union, `retain_type` does the same with an inline fragment without a type
-- condition before the selections as without it: whatever the fragment selects is not retained.
pub retain_type-inline :
    (trim : String → String) (schema : Schema) (fuel : ℕ) (hidden rest : SelectionSet)
    (depth : DepthLimit) (name : String) (type_def : ExtendedType) (s : SchemaTreeShaker)
    → is_union type_def ≡ false
    → retain_type trim schema fuel name type_def
        (some (select (inline_fragment none hidden) rest))
        depth
        s
      ≡ retain_type trim schema fuel name type_def (some rest) depth s
unfolding retain_type
retain_type-inline trim schema zero hidden rest depth name type_def s h = refl
retain_type-inline trim schema (suc fuel) hidden rest depth name type_def s h =
    retain_step-inline trim schema (retain_type trim schema fuel) hidden rest depth name type_def s
      h
