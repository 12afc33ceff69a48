-- ===== src/TreeShake/Items.antt =====
-- What a call of retain_type follows, and the references of what it shows in the end.
use mathlib.Core.Path.{subst}
use apollo_mcp_server.Prelude.{
  ◌≡◌, ◌⊎◌, inl, inr, refl, sym, true, ◌||◌, Option, none, some, List, [], ◌∷◌, ◌++◌, map, String,
  ◌==◌, eq_iff, contains, lookup, All, arith, Bool-cases,
}
use apollo_mcp_server.TreeShake.Syntax.{FieldDefinition, ExtendedType, Schema, SelectionSet}
use apollo_mcp_server.TreeShake.Shaker.{
  SchemaTreeShaker, TreeTypeNode, SelectedField, selected_fields, filtered_fields, directives_of,
  mark_node,
}
use apollo_mcp_server.TreeShake.Extends.{
  Reference, to_directives, field_references, part_references, fields_of, found_references,
  type_references, type_field_references, allows, of_type, of_field, item_references, has, HasAll,
}
use apollo_mcp_server.TreeShake.Reaches.{All-append}
use apollo_mcp_server.TreeShake.Followed.{visited_references}

-- The selected fields of a selection, if there is one.
abbrev pub visited_of : Option SelectionSet → Option (List SelectedField)
visited_of none = none
visited_of (some selections) = some (selected_fields selections)

-- All that a call without a depth limit follows.
abbrev pub followed : Option SelectionSet → ExtendedType → List Reference
followed selections type_def =
    part_references type_def ++ visited_references (visited_of selections) (fields_of type_def)

pub All-left : {A : Type 0} (P : A → Type 0) (xs ys : List A) → All P (xs ++ ys) → All P xs
All-left P [] ys h = tt
All-left P (x ∷ xs) ys h = (h.0, All-left P xs ys h.1)

pub All-right : {A : Type 0} (P : A → Type 0) (xs ys : List A) → All P (xs ++ ys) → All P ys
All-right P [] ys h = h
All-right P (x ∷ xs) ys h = All-right P xs ys h.1

contains-append :
    (xs ys : List String) (a : String) → contains (xs ++ ys) a ≡ (contains xs a || contains ys a)
contains-append [] ys a = refl
contains-append (x ∷ xs) ys a = ground (arith, contains-append xs ys a)

module _ (P : Reference → Type 0) where
  all_fields_found :
      (definitions : List (String × FieldDefinition)) (field : String)
      → All P (visited_references none definitions)
      → All P (found_references (lookup field definitions))
  unfolding lookup
  all_fields_found [] field h = tt
  all_fields_found ((name, f) ∷ definitions) field h =
      let rest =
        all_fields_found definitions field
          (All-right P (field_references f) (visited_references none definitions) h) in
      elim (Bool-cases (name == field)) [
        | inl here ↦
            rw here (All-left P (field_references f) (visited_references none definitions) h)
        | inr later ↦ rw later rest
      ]

  selected_field_found :
      (selected : List SelectedField) (definitions : List (String × FieldDefinition))
      (field : String)
      → contains (map (λ (f : SelectedField). f.name) selected) field ≡ true
      → All P (visited_references (some selected) definitions)
      → All P (found_references (lookup field definitions))
  selected_field_found [] definitions field among h = absurd (ground arith)
  selected_field_found (f ∷ selected) definitions field among h =
      elim (Bool-cases (f.name == field)) [
        | inl here ↦
            subst (λ n. All P (found_references (lookup n definitions)))
              ((eq_iff f.name field).0 here)
              (All-left P (found_references (lookup f.name definitions))
                (visited_references (some selected) definitions) h)
        | inr later ↦ selected_field_found selected definitions field (ground arith) (
            All-right P (found_references (lookup f.name definitions))
              (visited_references (some selected) definitions) h)
      ]

-- A field of the merged filter is a selected one, or one of the old filter.
merged-cases :
    (filter : Option (List String)) (selected : List String) (field : String)
    → contains (filtered_fields filter ++ selected) field ≡ true
    → (contains selected field ≡ true)
      ⊎ ((names : List String) × (filter ≡ some names) × (contains names field ≡ true))
unfolding filtered_fields
merged-cases none selected field h = inl h
merged-cases (some names) selected field h = elim (Bool-cases (contains names field)) [
  | inl before ↦ inr (names, refl, before)
  | inr fresh ↦ inl (ground (arith, contains-append names selected field))
]

filter-allows :
    (old : TreeTypeNode) (names : List String) (field : String)
    → old.filtered_field ≡ some names
    → contains names field ≡ true
    → allows (some old) field ≡ true
unfolding allows
filter-allows old names field filter before = ground arith

-- What was followed at a type covers all that the type refers to itself, and each field that the new
-- filter lets through although the old one did not.
module _ (schema : Schema) (t : SchemaTreeShaker) (name : String) (type_def : ExtendedType)
    (known : lookup name schema.types ≡ some type_def) where
  pub followed-own :
      (selections : Option SelectionSet)
      → HasAll schema t (to_directives (directives_of type_def) ++ followed selections type_def)
      → HasAll schema t (item_references schema (of_type name))
  unfolding item_references
  followed-own selections h =
      let P = λ (r : Reference). has schema t r ≡ true in
      let directives = to_directives (directives_of type_def) in
      let parts = part_references type_def in
      subst (λ o. HasAll schema t (type_references o)) (sym known)
        (All-append P directives parts (All-left P directives (followed selections type_def) h)
          (All-left P parts _ (All-right P directives (followed selections type_def) h)))

  followed-visited :
      (selections : Option SelectionSet)
      → HasAll schema t (to_directives (directives_of type_def) ++ followed selections type_def)
      → HasAll schema t (visited_references (visited_of selections) (fields_of type_def))
  followed-visited selections h =
      let P = λ (r : Reference). has schema t r ≡ true in
      All-right P (part_references type_def) _
        (All-right P (to_directives (directives_of type_def)) (followed selections type_def) h)

  pub followed-fields :
      (selections : Option SelectionSet) (old : TreeTypeNode) (field : String)
      → HasAll schema t (to_directives (directives_of type_def) ++ followed selections type_def)
      → allows (some (mark_node old selections)) field ≡ true
      → (allows (some old) field ≡ true)
        ⊎ HasAll schema t (item_references schema (of_field name field))
  unfolding item_references allows mark_node filtered_fields
  followed-fields none old field h allowed = inr (
      subst (λ o. HasAll schema t (type_field_references o field)) (sym known)
        (all_fields_found (λ r. has schema t r ≡ true) (fields_of type_def) field
          (followed-visited none h)))
  followed-fields (some selections) old field h allowed =
      elim (merged-cases old.filtered_field
        (map (λ (f : SelectedField). f.name) (selected_fields selections)) field allowed) [
          | inl among ↦ inr (
              subst (λ o. HasAll schema t (type_field_references o field)) (sym known)
                (selected_field_found (λ r. has schema t r ≡ true) (selected_fields selections)
                  (fields_of type_def) field among (followed-visited (some selections) h)))
          | inr (names, filter, before) ↦ inl (filter-allows old names field filter before)
        ]
