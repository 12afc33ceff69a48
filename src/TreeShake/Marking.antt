-- ===== src/TreeShake/Marking.antt =====
-- A directive or a type that is marked as retained, and then followed.
use mathlib.Core.Path.{subst}
use apollo_mcp_server.Prelude.{
  ◌≡◌, ◌∙◌, ◌⊎◌, inl, inr, sym, Bool, true, ◌&&◌, some, String, ◌==◌, eq_iff, lookup, is_some,
  arith, Bool-cases, if◌then◌else◌,
}
use apollo_mcp_server.TreeShake.Syntax.{Schema}
use apollo_mcp_server.TreeShake.Shaker.{SchemaTreeShaker, TreeTypeNode, replace}
use apollo_mcp_server.TreeShake.Shaken.{is_retained, is_directive_retained}
use apollo_mcp_server.TreeShake.Extends.{
  allows, Item, of_type, of_field, of_directive, shows, item_references, HasAll, Extends,
  lookup-replace,
}

-- Which directives are retained once one is marked.
marked_directive :
    (s : SchemaTreeShaker) (name other : String)
    → is_directive_retained
        (record s { directive_nodes = replace name true s.directive_nodes })
        other
      ≡ (if name == other
          then is_some (lookup other s.directive_nodes)
          else is_directive_retained s other)
unfolding is_directive_retained
marked_directive s name other = ground (arith, lookup-replace s.directive_nodes name other true)

kept_directive :
    (s : SchemaTreeShaker) (name : String)
    → is_directive_retained s name ≡ true
    → is_some (lookup name s.directive_nodes) ≡ true
unfolding is_directive_retained
kept_directive s name h = ground arith

kept_type :
    (s : SchemaTreeShaker) (name : String)
    → is_retained s name ≡ true
    → is_some (lookup name s.named_type_nodes) ≡ true
unfolding is_retained
kept_type s name h = ground arith

-- Which types are retained once one is marked.
marked_type :
    (s : SchemaTreeShaker) (name other : String) (node : TreeTypeNode)
    → node.retain ≡ true
    → is_retained (record s { named_type_nodes = replace name node s.named_type_nodes }) other
      ≡ (if name == other then is_some (lookup other s.named_type_nodes) else is_retained s other)
unfolding is_retained
marked_type s name other node h = ground (arith, lookup-replace s.named_type_nodes name other node)

marked_allows :
    (s : SchemaTreeShaker) (name other field : String) (node : TreeTypeNode)
    → allows (lookup other (replace name node s.named_type_nodes)) field ≡ (
        if name == other
        then is_some (lookup other s.named_type_nodes) && allows (some node) field
        else allows (lookup other s.named_type_nodes) field)
unfolding allows
marked_allows s name other field node =
    ground (arith, lookup-replace s.named_type_nodes name other node)

module _ (schema : Schema) (s t : SchemaTreeShaker) (name : String) where
  module _ (old : Bool) (known : lookup name s.directive_nodes ≡ some old)
      (e : Extends schema
        (record s { directive_nodes = replace name true s.directive_nodes })
        t) where
    pub mark_directive-retained : is_directive_retained t name ≡ true
    mark_directive-retained =
        e.grows_directives name (ground (arith, marked_directive s name name, eq_iff name name))

    shown_directive :
        HasAll schema t (item_references schema (of_directive name))
        → (item : Item)
        → shows (record s { directive_nodes = replace name true s.directive_nodes }) item ≡ true
        → (shows s item ≡ true) ⊎ HasAll schema t (item_references schema item)
    unfolding shows is_retained
    shown_directive followed (of_type other) h = inl h
    shown_directive followed (of_field other field) h = inl h
    shown_directive followed (of_directive other) h = elim (Bool-cases (name == other)) [
      | inl same ↦ inr (
          subst (λ n. HasAll schema t (item_references schema (of_directive n)))
            ((eq_iff name other).0 same) followed)
      | inr different ↦ inl (ground (arith, marked_directive s name other))
    ]

    pub mark_directive-Extends :
        HasAll schema t (item_references schema (of_directive name)) → Extends schema s t
    unfolding is_retained
    mark_directive-Extends followed = record {
      same_types = e.same_types;
      same_directives = λ other.
          e.same_directives other
          ∙ ground (arith, lookup-replace s.directive_nodes name other true);
      grows_types = λ other h. e.grows_types other h;
      grows_directives = λ other h.
          e.grows_directives other
            (ground (arith, marked_directive s name other, kept_directive s other h));
      closes = λ item h. elim (e.closes item h) [
        | inr closed ↦ inr closed
        | inl before ↦ shown_directive followed item before
      ];
    }

  module _ (old node : TreeTypeNode) (known : lookup name s.named_type_nodes ≡ some old)
      (retained : node.retain ≡ true)
      (e : Extends schema
        (record s { named_type_nodes = replace name node s.named_type_nodes })
        t) where
    pub mark_type-retained : is_retained t name ≡ true
    mark_type-retained =
        e.grows_types name (ground (arith, marked_type s name name node retained, eq_iff name name))

    -- What the new node lets through was let through before, or was followed.
    module _ (followed : HasAll schema t (item_references schema (of_type name)))
        (fields_followed : (field : String)
          → allows (some node) field ≡ true
          → (allows (some old) field ≡ true)
            ⊎ HasAll schema t (item_references schema (of_field name field))) where
      shown_type :
          (item : Item)
          → shows (record s { named_type_nodes = replace name node s.named_type_nodes }) item ≡ true
          → (shows s item ≡ true) ⊎ HasAll schema t (item_references schema item)
      unfolding shows is_directive_retained
      shown_type (of_directive other) h = inl h
      shown_type (of_type other) h = elim (Bool-cases (name == other)) [
        | inl same ↦ inr (
            subst (λ n. HasAll schema t (item_references schema (of_type n)))
              ((eq_iff name other).0 same) followed)
        | inr different ↦ inl (ground (arith, marked_type s name other node retained))
      ]
      shown_type (of_field other field) h = elim (Bool-cases (name == other)) [
        | inl same ↦
            let here = (eq_iff name other).0 same in
            elim (fields_followed field (ground (arith, marked_allows s name other field node))) [
              | inl before ↦ inl (
                  subst (λ n. allows (lookup n s.named_type_nodes) field ≡ true) here
                    (subst (λ o. allows o field ≡ true) (sym known) before))
              | inr found ↦ inr (
                  subst (λ n. HasAll schema t (item_references schema (of_field n field))) here
                    found)
            ]
        | inr different ↦ inl (ground (arith, marked_allows s name other field node))
      ]

      pub mark_type-Extends : Extends schema s t
      unfolding is_directive_retained
      mark_type-Extends = record {
        same_types = λ other.
            e.same_types other ∙ ground (arith, lookup-replace s.named_type_nodes name other node);
        same_directives = e.same_directives;
        grows_types = λ other h.
            e.grows_types other
              (ground (arith, marked_type s name other node retained, kept_type s other h));
        grows_directives = λ other h. e.grows_directives other h;
        closes = λ item h. elim (e.closes item h) [
          | inr closed ↦ inr closed
          | inl before ↦ shown_type item before
        ];
      }
