-- ===== src/TreeShake/Extends.antt =====
-- How the state of the tree shaker grows, and what its retained types refer to.
use mathlib.Core.Option
use apollo_mcp_server.Prelude.{
  ◌≡◌, ◌∙◌, ◌⊎◌, inl, inr, refl, Bool, true, false, ◌||◌, Option, none, some, List, [], ◌∷◌, ◌++◌,
  String, ◌==◌, eq_iff, contains, lookup, is_none, All, All-map, arith, if◌then◌else◌,
}
use apollo_mcp_server.TreeShake.Syntax.{
  InputValueDefinition, FieldDefinition, ExtendedType, scalar_type, object_type, interface_type,
  union_type, enum_type, input_object, Schema,
}
use apollo_mcp_server.TreeShake.Shaker.{SchemaTreeShaker, TreeTypeNode, replace, directives_of}
use apollo_mcp_server.TreeShake.Shaken.{is_retained, is_directive_retained}

-- A name that a definition refers to.
pub data Reference : Type 0 where
  to_type : String → Reference
  to_directive : String → Reference

-- The references of each element of a list.
abbrev pub all_references : {A : Type 0} → (A → List Reference) → List A → List Reference
all_references f [] = []
all_references f (x ∷ xs) = f x ++ all_references f xs

abbrev pub types_of_arguments : List InputValueDefinition → List Reference
types_of_arguments arguments = all_references (λ arg. to_type arg.ty ∷ []) arguments

abbrev pub to_directives : List String → List Reference
to_directives names = all_references (λ name. to_directive name ∷ []) names

-- The type of a field, those of its arguments, and its directives.
abbrev pub field_references : FieldDefinition → List Reference
field_references f = (to_type f.ty ∷ types_of_arguments f.arguments) ++ to_directives f.directives

abbrev pub input_field_references : String × InputValueDefinition → List Reference
input_field_references entry = to_type entry.1.ty ∷ to_directives entry.1.directives

abbrev pub input_references : List (String × InputValueDefinition) → List Reference
input_references fields = all_references input_field_references fields

abbrev pub value_references : List (String × List String) → List Reference
value_references values = all_references (λ value. to_directives value.1) values

-- What a type refers to apart from the fields of an object or interface and the members of a union.
abbrev pub part_references : ExtendedType → List Reference
part_references (scalar_type directives) = []
part_references (object_type directives fields) = []
part_references (interface_type directives fields) = []
part_references (union_type directives members) = []
part_references (enum_type directives values) = value_references values
part_references (input_object directives fields) = input_references fields

abbrev pub own_references : ExtendedType → List Reference
own_references type_def = to_directives (directives_of type_def) ++ part_references type_def

abbrev pub fields_of : ExtendedType → List (String × FieldDefinition)
fields_of (scalar_type directives) = []
fields_of (object_type directives fields) = fields
fields_of (interface_type directives fields) = fields
fields_of (union_type directives members) = []
fields_of (enum_type directives values) = []
fields_of (input_object directives fields) = []

abbrev pub found_references : Option FieldDefinition → List Reference
found_references none = []
found_references (some f) = field_references f

abbrev pub type_references : Option ExtendedType → List Reference
type_references none = []
type_references (some type_def) = own_references type_def

abbrev pub type_field_references : Option ExtendedType → String → List Reference
type_field_references none field = []
type_field_references (some type_def) field = found_references (lookup field (fields_of type_def))

-- Whether a node lets a field through: by its filter, or else if it is retained as a whole.
unfoldable pub allows : Option TreeTypeNode → String → Bool
allows none field = false
allows (some node) field = elim node.filtered_field [
  | none ↦ node.retain
  | some names ↦ contains names field
]

-- Something that a shaken schema shows.
pub data Item : Type 0 where
  of_type : String → Item
  of_field : String → String → Item
  of_directive : String → Item

unfoldable pub shows : SchemaTreeShaker → Item → Bool
shows shaker (of_type name) = is_retained shaker name
shows shaker (of_field name field) = allows (lookup name shaker.named_type_nodes) field
shows shaker (of_directive name) = is_directive_retained shaker name

module _ (schema : Schema) where
  unfoldable pub item_references : Item → List Reference
  item_references (of_type name) = type_references (lookup name schema.types)
  item_references (of_field name field) = type_field_references (lookup name schema.types) field
  item_references (of_directive name) =
      types_of_arguments
        (elim (lookup name schema.directive_definitions) [ none ↦ [] | some args ↦ args ])

  -- What is referred to is retained, if the schema and the shaker know it at all.
  unfoldable pub has : SchemaTreeShaker → Reference → Bool
  has shaker (to_type name) =
      (is_none (lookup name schema.types) || is_none (lookup name shaker.named_type_nodes))
      || is_retained shaker name
  has shaker (to_directive name) =
      is_none (lookup name shaker.directive_nodes) || is_directive_retained shaker name

  abbrev pub HasAll : SchemaTreeShaker → List Reference → Type 0
  HasAll shaker references = All (λ r. has shaker r ≡ true) references

  -- Nothing is lost, and what is shown newly has all that it refers to.
  pub record Extends (s t : SchemaTreeShaker) : Type 0 where
    pub same_types :
        (name : String)
        → is_none (lookup name t.named_type_nodes) ≡ is_none (lookup name s.named_type_nodes)
    pub same_directives :
        (name : String)
        → is_none (lookup name t.directive_nodes) ≡ is_none (lookup name s.directive_nodes)
    pub grows_types : (name : String) → is_retained s name ≡ true → is_retained t name ≡ true
    pub grows_directives :
        (name : String) → is_directive_retained s name ≡ true → is_directive_retained t name ≡ true
    pub closes :
        (item : Item)
        → shows t item ≡ true
        → (shows s item ≡ true) ⊎ HasAll t (item_references item)

  pub Extends-refl : (s : SchemaTreeShaker) → Extends s s
  Extends-refl s = record {
    same_types = λ name. refl;
    same_directives = λ name. refl;
    grows_types = λ name h. h;
    grows_directives = λ name h. h;
    closes = λ item h. inl h;
  }

  pub has-Extends :
      {s t : SchemaTreeShaker} → Extends s t → (r : Reference) → has s r ≡ true → has t r ≡ true
  unfolding has
  has-Extends e (to_type name) h = ground (arith, e.same_types name, e.grows_types name)
  has-Extends e (to_directive name) h =
      ground (arith, e.same_directives name, e.grows_directives name)

  pub HasAll-Extends :
      {s t : SchemaTreeShaker}
      → Extends s t
      → (references : List Reference) → HasAll s references
      → HasAll t references
  HasAll-Extends e references h = All-map (has-Extends e) references h

  pub Extends-trans : {s t u : SchemaTreeShaker} → Extends s t → Extends t u → Extends s u
  Extends-trans e f = record {
    same_types = λ name. f.same_types name ∙ e.same_types name;
    same_directives = λ name. f.same_directives name ∙ e.same_directives name;
    grows_types = λ name h. f.grows_types name (e.grows_types name h);
    grows_directives = λ name h. f.grows_directives name (e.grows_directives name h);
    closes = λ item h. elim (f.closes item h) [
      | inl before ↦ elim (e.closes item before) [
        | inl start ↦ inl start
        | inr closed ↦ inr (HasAll-Extends f (item_references item) closed)
      ]
      | inr closed ↦ inr closed
    ];
  }

-- A replaced entry is found under its key, and there only.
pub lookup-replace :
    {V : Type 0} (entries : List (String × V)) (key name : String) (value : V)
    → lookup name (replace key value entries) ≡ (
        if key == name
        then Option.map (λ old. value) (lookup name entries)
        else lookup name entries)
unfolding lookup replace
lookup-replace [] key name value = ground arith
lookup-replace ((other, old) ∷ entries) key name value = ground (
  arith,
  lookup-replace entries key name value,
  eq_iff other key,
  eq_iff other name,
  eq_iff key name,
)
