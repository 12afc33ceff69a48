-- ===== src/TreeShake/Defined.antt =====
-- What the shaken schema has, by the state of the tree shaker.
use mathlib.Core.Option
use mathlib.Core.Option.{some-injective}
use mathlib.Core.Path.{subst}
use apollo_mcp_server.Prelude.{
  ◌≡◌, ◌∙◌, inl, inr, refl, ap, sym, Bool, true, false, not, ◌&&◌, Option, none, some, List, [],
  ◌∷◌, map, String, ◌==◌, eq_iff, contains, lookup, is_none, All, arith, Bool-cases, Option-cases,
  if◌then◌else◌,
}
use apollo_mcp_server.TreeShake.Syntax.{
  InputValueDefinition, ExtendedType, scalar_type, object_type, interface_type, union_type,
  enum_type, input_object, Schema,
}
use apollo_mcp_server.TreeShake.Shaker.{SchemaTreeShaker, TreeTypeNode, directives_of}
use apollo_mcp_server.TreeShake.Shaken.{
  new, filtered, is_retained, is_directive_retained, shake_type, stays, filter_of, shaken_types,
  shaken_directives,
}
use apollo_mcp_server.TreeShake.Extends.{
  Reference, to_directives, input_references, input_field_references, own_references, fields_of,
  allows, Item, of_type, of_field, of_directive, shows,
}
use apollo_mcp_server.TreeShake.Items.{All-left, All-right}
use apollo_mcp_server.TreeShake.Reaches.{All-append}

-- Lookup in a list with one entry more or not.
lookup-if :
    {V : Type 0} (b : Bool) (name key : String) (value : V) (others : List (String × V))
    → lookup key (if b then (name, value) ∷ others else others)
      ≡ (if b && name == key then some value else lookup key others)
unfolding lookup
lookup-if true name key value others = refl
lookup-if false name key value others = refl

-- An entry that is kept by its key is found if its key is kept.
lookup_kept :
    {W : Type 0} (keep : String → Bool) (value : String → W) (other name : String)
    (rest old : Option W)
    → rest ≡ (if keep name then old else none)
    → (if keep other && other == name then some (value other) else rest)
      ≡ (if keep name then (if other == name then some (value name) else old) else none)
lookup_kept keep value other name rest old h = elim (Bool-cases (other == name)) [
  | inl here ↦
      let same = (eq_iff other name).0 here in
      ground (arith, ap keep same, ap (λ n. some (value n)) same)
  | inr later ↦ ground arith
]

pub lookup-filtered :
    {V : Type 0} (names : List String) (fields : List (String × V)) (field : String)
    → lookup field (filtered (some names) fields)
      ≡ (if contains names field then lookup field fields else none)
unfolding lookup filtered
lookup-filtered names [] field = ground arith
lookup-filtered names ((name, f) ∷ fields) field =
    lookup-if (contains names name) name field f (filtered (some names) fields)
    ∙ lookup_kept (contains names) (λ n. f) name field _ (lookup field fields)
        (lookup-filtered names fields field)

module _ (built_in : String → Bool) (t : SchemaTreeShaker) where
  abbrev pub kept_type : String → Bool
  kept_type name = stays built_in t name (lookup name t.named_type_nodes)

  abbrev pub shaken_type : String → ExtendedType → ExtendedType
  shaken_type name = shake_type t (filter_of built_in t (lookup name t.named_type_nodes))

  pub lookup-shaken_types :
      (types : List (String × ExtendedType)) (name : String)
      → lookup name (shaken_types built_in t types)
        ≡ (if kept_type name then Option.map (shaken_type name) (lookup name types) else none)
  unfolding lookup shaken_types
  lookup-shaken_types [] name = ground arith
  lookup-shaken_types ((other, type_def) ∷ types) name =
      lookup-if (kept_type other) other name (shaken_type other type_def)
        (shaken_types built_in t types)
      ∙ lookup_kept kept_type (λ n. shaken_type n type_def) other name _
          (Option.map (shaken_type name) (lookup name types)) (lookup-shaken_types types name)
      ∙ ground arith

  abbrev pub kept_directive : String → Bool
  kept_directive name = not (built_in name) && is_directive_retained t name

  pub lookup-shaken_directives :
      (directives : List (String × List InputValueDefinition)) (name : String)
      → lookup name (shaken_directives built_in t directives)
        ≡ (if kept_directive name then lookup name directives else none)
  unfolding lookup shaken_directives
  lookup-shaken_directives [] name = ground arith
  lookup-shaken_directives ((other, args) ∷ directives) name =
      lookup-if (kept_directive other) other name args (shaken_directives built_in t directives)
      ∙ lookup_kept kept_directive (λ n. args) other name _ (lookup name directives)
          (lookup-shaken_directives directives name)

pub lookup-map :
    {A B : Type 0} (f : A → B) (entries : List (String × A)) (name : String)
    → is_none (lookup name (map (λ e. (e.0, f e.1)) entries)) ≡ is_none (lookup name entries)
unfolding lookup
lookup-map f [] name = refl
lookup-map f ((key, a) ∷ entries) name = ground (arith, lookup-map f entries name)

-- Nothing is retained at first.
new-types :
    (entries : List (String × ExtendedType)) (name : String) (node : TreeTypeNode)
    → lookup name (map (λ e. (e.0, record { retain = false; filtered_field = none })) entries)
      ≡ some node
    → node ≡ record { retain = false; filtered_field = none }
unfolding lookup
new-types [] name node h = absurd (cc)
new-types ((key, d) ∷ entries) name node h = elim (Bool-cases (key == name)) [
  | inl here ↦ sym (some-injective _ _ (ground arith))
  | inr later ↦ new-types entries name node (ground arith)
]

new-directives :
    (entries : List (String × List InputValueDefinition)) (name : String) (retained : Bool)
    → lookup name (map (λ e. (e.0, false)) entries) ≡ some retained
    → retained ≡ false
unfolding lookup
new-directives [] name retained h = absurd (cc)
new-directives ((key, args) ∷ entries) name retained h = elim (Bool-cases (key == name)) [
  | inl here ↦ sym (some-injective _ _ (ground arith))
  | inr later ↦ new-directives entries name retained (ground arith)
]

allows-none : (field : String) → allows none field ≡ false
unfolding allows
allows-none field = refl

allows-blank :
    (field : String)
    → allows (some (record { retain = false; filtered_field = none })) field ≡ false
unfolding allows
allows-blank field = refl

pub shows-new : (schema : Schema) (item : Item) → shows (new schema) item ≡ false
unfolding new shows is_retained is_directive_retained
shows-new schema (of_type name) = elim (Option-cases (lookup name (new schema).named_type_nodes)) [
  | inl unknown ↦ ground arith
  | inr (node, found) ↦ ground (arith, ap (λ n. n.retain) (new-types schema.types name node found))
]
shows-new schema (of_field name field) =
    elim (Option-cases (lookup name (new schema).named_type_nodes)) [
      | inl unknown ↦ subst (λ o. allows o field ≡ false) (sym unknown) (allows-none field)
      | inr (node, found) ↦
          subst (λ o. allows o field ≡ false)
            (sym (found ∙ ap some (new-types schema.types name node found))) (allows-blank field)
    ]
shows-new schema (of_directive name) =
    elim (Option-cases (lookup name (new schema).directive_nodes)) [
      | inl unknown ↦ ground arith
      | inr (retained, found) ↦
          ground (arith, new-directives schema.directive_definitions name retained found)
    ]

module _ (P : Reference → Type 0) where
  input_references-filtered :
      (names : Option (List String)) (fields : List (String × InputValueDefinition))
      → All P (input_references fields)
      → All P (input_references (filtered names fields))
  unfolding filtered
  input_references-filtered none fields h = h
  input_references-filtered (some names) [] h = tt
  input_references-filtered (some names) ((name, f) ∷ fields) h =
      let here = All-left P (input_field_references (name, f)) (input_references fields) h in
      let rest =
        input_references-filtered (some names) fields
          (All-right P (input_field_references (name, f)) (input_references fields) h) in
      elim (Bool-cases (contains names name)) [
        | inl kept ↦ rw kept (All-append P (input_field_references (name, f)) _ here rest)
        | inr gone ↦ rw gone rest
      ]

  pub own_references-shake_type :
      (t : SchemaTreeShaker) (names : Option (List String)) (type_def : ExtendedType)
      → All P (own_references type_def)
      → All P (own_references (shake_type t names type_def))
  unfolding shake_type directives_of
  own_references-shake_type t names (scalar_type directives) h = h
  own_references-shake_type t names (object_type directives fields) h = h
  own_references-shake_type t names (interface_type directives fields) h = h
  own_references-shake_type t names (union_type directives members) h = h
  own_references-shake_type t names (enum_type directives values) h = h
  own_references-shake_type t names (input_object directives fields) h =
      All-append P (to_directives directives) (input_references (filtered names fields))
        (All-left P (to_directives directives) (input_references fields) h)
        (input_references-filtered names fields
          (All-right P (to_directives directives) (input_references fields) h))

-- A field of a shaken type is one of the type that the filter lets through.
pub fields_of-shake_type :
    (t : SchemaTreeShaker) (names : Option (List String)) (type_def : ExtendedType)
    → fields_of (shake_type t names type_def) ≡ filtered names (fields_of type_def)
unfolding shake_type filtered
fields_of-shake_type t none (scalar_type directives) = refl
fields_of-shake_type t (some names) (scalar_type directives) = refl
fields_of-shake_type t names (object_type directives fields) = refl
fields_of-shake_type t names (interface_type directives fields) = refl
fields_of-shake_type t none (union_type directives members) = refl
fields_of-shake_type t (some names) (union_type directives members) = refl
fields_of-shake_type t none (enum_type directives values) = refl
fields_of-shake_type t (some names) (enum_type directives values) = refl
fields_of-shake_type t none (input_object directives fields) = refl
fields_of-shake_type t (some names) (input_object directives fields) = refl
