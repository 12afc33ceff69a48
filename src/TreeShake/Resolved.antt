-- ===== src/TreeShake/Resolved.antt =====
-- The shaken schema defines all that it refers to.
use mathlib.Core.Option
use mathlib.Core.Option.{some-injective}
use mathlib.Core.Path.{subst}
use apollo_mcp_server.Prelude.{
  ◌≡◌, ◌∙◌, ◌⊎◌, inl, inr, refl, Bool, true, false, ◌||◌, Option, none, some, List, [], String,
  contains, lookup, is_none, is_some, All, All-map, arith, Bool-cases, if◌then◌else◌,
}
use apollo_mcp_server.TreeShake.Syntax.{FieldDefinition, ExtendedType, Schema}
use apollo_mcp_server.TreeShake.Shaker.{SchemaTreeShaker, TreeTypeNode}
use apollo_mcp_server.TreeShake.Shaken.{
  new, filtered, is_retained, is_directive_retained, stays, filter_of, shaken,
}
use apollo_mcp_server.TreeShake.Extends.{
  Reference, to_type, to_directive, types_of_arguments, own_references, fields_of, found_references,
  type_references, type_field_references, allows, Item, of_type, of_field, of_directive, shows,
  item_references, has, HasAll, Extends,
}
use apollo_mcp_server.TreeShake.Defined.{
  lookup-filtered, kept_type, shaken_type, lookup-shaken_types, kept_directive,
  lookup-shaken_directives, lookup-map, shows-new, own_references-shake_type, fields_of-shake_type,
}

-- The schema that the shaken document stands for.
abbrev pub shaken_schema : (String → Bool) → Schema → SchemaTreeShaker → Schema
shaken_schema built_in schema t = record schema {
  types = (shaken built_in schema t).type_definitions;
  directive_definitions = (shaken built_in schema t).directive_definitions;
  schema_directives = (shaken built_in schema t).schema_directives;
}

-- A name resolves if the schema defines it, if it is built in, or if it was undefined before.
abbrev pub resolves : (String → Bool) → Schema → Schema → Reference → Bool
resolves built_in before after (to_type name) =
    (built_in name || is_none (lookup name before.types)) || is_some (lookup name after.types)
resolves built_in before after (to_directive name) =
    (built_in name || is_none (lookup name before.directive_definitions))
    || is_some (lookup name after.directive_definitions)

-- What a retained node filters is not there, or the node lets it through.
filter-allowed :
    (retained : Bool) (filter : Option (List String)) (field : String)
    (fields : List (String × FieldDefinition))
    → retained ≡ true
    → (lookup field (filtered filter fields) ≡ none)
      ⊎ ((allows (some (record { retain = retained; filtered_field = filter })) field ≡ true)
          × (lookup field (filtered filter fields) ≡ lookup field fields))
unfolding allows filtered
filter-allowed retained none field fields h = inr (h, refl)
filter-allowed retained (some names) field fields h = elim (Bool-cases (contains names field)) [
  | inl among ↦ inr (among, lookup-filtered names fields field ∙ rw among refl)
  | inr other ↦ inl (lookup-filtered names fields field ∙ rw other refl)
]

module _ (built_in : String → Bool) (schema : Schema) (t : SchemaTreeShaker)
    (grown : Extends schema (new schema) t) where
  abbrev after : Schema
  after = shaken_schema built_in schema t

  abbrev AllResolve : List Reference → Type 0
  AllResolve = All (λ r. resolves built_in schema after r ≡ true)

  pub is_none-types :
      (name : String)
      → is_none (lookup name t.named_type_nodes) ≡ is_none (lookup name schema.types)
  unfolding new
  is_none-types name =
      grown.same_types name
      ∙ lookup-map (λ d. record { retain = false; filtered_field = none }) schema.types name

  is_none-directives :
      (name : String)
      → is_none (lookup name t.directive_nodes) ≡ is_none (lookup name schema.directive_definitions)
  unfolding new
  is_none-directives name =
      grown.same_directives name ∙ lookup-map (λ d. false) schema.directive_definitions name

  pub resolves-has :
      (r : Reference) → has schema t r ≡ true → resolves built_in schema after r ≡ true
  unfolding has shaken is_retained stays is_directive_retained
  resolves-has (to_type name) h =
      ground (arith, is_none-types name, lookup-shaken_types built_in t schema.types name)
  resolves-has (to_directive name) h = ground (
    arith,
    is_none-directives name,
    lookup-shaken_directives built_in t schema.directive_definitions name,
  )

  AllResolve-HasAll :
      (references : List Reference) → HasAll schema t references → AllResolve references
  AllResolve-HasAll references h = All-map resolves-has references h

  -- What was shown at first is nothing, so what is shown has all that it refers to.
  shown-HasAll : (item : Item) → shows t item ≡ true → HasAll schema t (item_references schema item)
  shown-HasAll item h = elim (grown.closes item h) [
    | inl before ↦ absurd (ground (arith, shows-new schema item))
    | inr closed ↦ closed
  ]

  kept_type-is_retained :
      (name : String) → kept_type built_in t name ≡ true → is_retained t name ≡ true
  unfolding is_retained stays
  kept_type-is_retained name h = ground arith

  type-AllResolve :
      (name : String) (found : Option ExtendedType)
      → lookup name schema.types ≡ found
      → AllResolve (
          type_references (
            if kept_type built_in t name
            then Option.map (shaken_type built_in t name) found
            else none))
  unfolding item_references shows
  type-AllResolve name none e = elim (Bool-cases (kept_type built_in t name)) [
    | inl kept ↦ rw kept tt
    | inr gone ↦ rw gone tt
  ]
  type-AllResolve name (some type_def) e = elim (Bool-cases (kept_type built_in t name)) [
    | inl kept ↦ rw kept (
        own_references-shake_type (λ r. resolves built_in schema after r ≡ true) t
          (filter_of built_in t (lookup name t.named_type_nodes)) type_def
          (AllResolve-HasAll (own_references type_def) (
            subst (λ o. HasAll schema t (type_references o)) e
              (shown-HasAll (of_type name) (kept_type-is_retained name kept)))))
    | inr gone ↦ rw gone tt
  ]

  filter-allows :
      (node : Option TreeTypeNode) (name field : String) (fields : List (String × FieldDefinition))
      → stays built_in t name node ≡ true
      → (lookup field (filtered (filter_of built_in t node) fields) ≡ none)
        ⊎ ((allows node field ≡ true)
            × (lookup field (filtered (filter_of built_in t node) fields) ≡ lookup field fields))
  unfolding stays filter_of
  filter-allows none name field fields h = absurd (ground arith)
  filter-allows (some node) name field fields h =
      filter-allowed node.retain node.filtered_field field fields (ground arith)

  field-AllResolve :
      (name field : String) (found : Option ExtendedType)
      → lookup name schema.types ≡ found
      → AllResolve (
          type_field_references
            (if kept_type built_in t name
              then Option.map (shaken_type built_in t name) found
              else none)
            field)
  unfolding item_references shows
  field-AllResolve name field none e = elim (Bool-cases (kept_type built_in t name)) [
    | inl kept ↦ rw kept tt
    | inr gone ↦ rw gone tt
  ]
  field-AllResolve name field (some type_def) e =
      let node = lookup name t.named_type_nodes in
      let filter = filter_of built_in t node in
      elim (Bool-cases (kept_type built_in t name)) [
        | inl kept ↦
            rw (kept, fields_of-shake_type t filter type_def)
              (elim (filter-allows node name field (fields_of type_def) kept) [
                | inl missing ↦ rw missing tt
                | inr (allowed, same) ↦ rw same (
                    AllResolve-HasAll (found_references (lookup field (fields_of type_def))) (
                      subst (λ o. HasAll schema t (type_field_references o field)) e
                        (shown-HasAll (of_field name field) allowed)))
              ])
        | inr gone ↦ rw gone tt
      ]

  directive-AllResolve :
      (name : String)
      → AllResolve (
          types_of_arguments
            (elim (if kept_directive built_in t name
              then lookup name schema.directive_definitions
              else none) [ none ↦ [] | some args ↦ args ]))
  unfolding item_references shows
  directive-AllResolve name = elim (Bool-cases (kept_directive built_in t name)) [
    | inl kept ↦ rw kept (AllResolve-HasAll _ (shown-HasAll (of_directive name) (ground arith)))
    | inr gone ↦ rw gone tt
  ]

  pub item_references-resolve :
      (item : Item)
      → All (λ r. resolves built_in schema after r ≡ true) (item_references after item)
  unfolding item_references shaken
  item_references-resolve (of_type name) =
      rw (lookup-shaken_types built_in t schema.types name)
        (type-AllResolve name (lookup name schema.types) refl)
  item_references-resolve (of_field name field) =
      rw (lookup-shaken_types built_in t schema.types name)
        (field-AllResolve name field (lookup name schema.types) refl)
  item_references-resolve (of_directive name) =
      rw (lookup-shaken_directives built_in t schema.directive_definitions name)
        (directive-AllResolve name)
