-- ===== src/Operations/Responses/Filtered.antt =====
-- What is left of a response once its private fields are filtered out.
use mathlib.Core.List.{map-append}
use mathlib.Core.Path.{ap₂}
use apollo_mcp_server.Prelude.{
  ◌≡◌, ◌∙◌, inl, inr, refl, ap, sym, Bool, true, false, none, some, List, [], ◌∷◌, ◌++◌, map,
  String, ◌==◌, eq_iff, arith, Bool-cases, Option-cases, if◌then◌else◌,
}
use apollo_mcp_server.Operations.Private.{
  PrivateFieldTree, node, Children, leaf, is_private, default_tree, get_child,
}
use apollo_mcp_server.Operations.Private.Covers.{hidden}
use apollo_mcp_server.Operations.Responses.{
  Value, null, boolean, number, text, array, object, Items, no_items, item, Members, no_members,
  member, filter_object, filter_items, filter_members, filter_response,
}

-- All values at a path of keys. Arrays on the way are gone through: the path of a field in a
-- response does not say which of the items is meant.
unfoldable mutual
  pub values_at : Value → List String → List Value
  values_at value [] = value ∷ []
  values_at (object members) (key ∷ keys) = values_in members key keys
  values_at (array items) (key ∷ keys) = values_of items (key ∷ keys)
  values_at null (key ∷ keys) = []
  values_at (boolean b) (key ∷ keys) = []
  values_at (number n) (key ∷ keys) = []
  values_at (text s) (key ∷ keys) = []

  pub values_of : Items → List String → List Value
  values_of no_items keys = []
  values_of (item value items) keys = values_at value keys ++ values_of items keys

  pub values_in : Members → String → List String → List Value
  values_in no_members key keys = []
  values_in (member name value members) key keys =
      let here = values_at value keys in
      let others = values_in members key keys in if name == key then here ++ others else others

-- The part of the tree that goes on below a path.
unfoldable pub subtree : PrivateFieldTree → List String → PrivateFieldTree
subtree tree [] = tree
subtree (node marked children) (key ∷ keys) = elim (get_child key children) [
  | none ↦ default_tree
  | some tree ↦ subtree tree keys
]

-- An empty tree filters nothing.
mutual
  unfolding filter_object get_child

  filter_object-default : (value : Value) → filter_object value default_tree ≡ value
  filter_object-default null = refl
  filter_object-default (boolean b) = refl
  filter_object-default (number n) = refl
  filter_object-default (text s) = refl
  filter_object-default (array items) = ap array (filter_items-default items)
  filter_object-default (object rest) = ap object (filter_members-default rest)

  filter_items-default : (items : Items) → filter_items items default_tree ≡ items
  filter_items-default no_items = refl
  filter_items-default (item value items) =
      ap₂ item (filter_object-default value) (filter_items-default items)

  filter_members-default : (members : Members) → filter_members members leaf ≡ members
  filter_members-default no_members = refl
  filter_members-default (member key value rest) =
      ap (member key value) (filter_members-default rest)

pub filter_response-default : (members : Members) → filter_response members default_tree ≡ members
unfolding filter_response
filter_response-default no_members = refl
filter_response-default (member key value rest) = elim (Bool-cases (key == "data")) [
  | inl inside ↦
      rw inside (ap₂ (member key) (filter_object-default value) (filter_response-default rest))
  | inr outside ↦ rw outside (ap (member key value) (filter_response-default rest))
]

-- What remains of the values at a path below the tree.
unfoldable pub remaining : PrivateFieldTree → List String → List Value → List Value
remaining tree keys values =
    if hidden tree keys then [] else map (λ value. filter_object value (subtree tree keys)) values

remaining-append :
    (tree : PrivateFieldTree) (keys : List String) (xs ys : List Value)
    → remaining tree keys (xs ++ ys) ≡ remaining tree keys xs ++ remaining tree keys ys
unfolding remaining
remaining-append tree keys xs ys = elim (Bool-cases (hidden tree keys)) [
  | inl gone ↦ rw gone
  | inr left ↦ rw left (map-append _ xs ys)
]

remaining_nil : (tree : PrivateFieldTree) (keys : List String) → remaining tree keys [] ≡ []
unfolding remaining
remaining_nil tree keys = ground arith

map_default :
    (values : List Value) → map (λ value. filter_object value default_tree) values ≡ values
map_default [] = refl
map_default (value ∷ values) = ap₂ ◌∷◌ (filter_object-default value) (map_default values)

remaining_here :
    (tree : PrivateFieldTree) (values : List Value)
    → remaining tree [] values ≡ map (λ value. filter_object value tree) values
unfolding remaining hidden subtree
remaining_here (node marked children) values = refl

-- What a child makes of the values below its key.
module _ (children : Children) (marked : Bool) (key : String) (keys : List String) where
  remaining_without :
      (values : List Value)
      → get_child key children ≡ none
      → remaining (node marked children) (key ∷ keys) values ≡ values
  unfolding remaining hidden subtree
  remaining_without values e = rw (e, hidden, subtree) (map_default values)

  remaining_private :
      (tree : PrivateFieldTree) (values : List Value)
      → get_child key children ≡ some tree
      → is_private tree ≡ true
      → remaining (node marked children) (key ∷ keys) values ≡ []
  unfolding remaining hidden subtree
  remaining_private tree values e p = rw (e, p, hidden, subtree)

  remaining_below :
      (tree : PrivateFieldTree) (values : List Value)
      → get_child key children ≡ some tree
      → is_private tree ≡ false
      → remaining (node marked children) (key ∷ keys) values ≡ remaining tree keys values
  unfolding remaining hidden subtree
  remaining_below tree values e p = rw (e, p, hidden, subtree)

-- What the filter does with one member.
module _ (name : String) (value : Value) (rest : Members) (children : Children) where
  filter_without :
      get_child name children ≡ none
      → filter_members (member name value rest) children
        ≡ member name value (filter_members rest children)
  unfolding filter_members
  filter_without e = ground arith

  filter_private :
      (tree : PrivateFieldTree)
      → get_child name children ≡ some tree
      → is_private tree ≡ true
      → filter_members (member name value rest) children ≡ filter_members rest children
  unfolding filter_members
  filter_private tree e p = ground arith

  filter_below :
      (tree : PrivateFieldTree)
      → get_child name children ≡ some tree
      → is_private tree ≡ false
      → filter_members (member name value rest) children
        ≡ member name (filter_object value tree) (filter_members rest children)
  unfolding filter_members
  filter_below tree e p = ground arith

mutual
  unfolding values_at filter_object

  values_at-filter_object :
      (value : Value) (tree : PrivateFieldTree) (keys : List String)
      → values_at (filter_object value tree) keys ≡ remaining tree keys (values_at value keys)
  values_at-filter_object value tree [] = sym (remaining_here tree (value ∷ []))
  values_at-filter_object (object rest) (node marked children) (key ∷ keys) =
      values_in-filter_members rest children marked key keys
  values_at-filter_object (array items) tree (key ∷ keys) =
      values_of-filter_items items tree (key ∷ keys)
  values_at-filter_object null tree (key ∷ keys) = sym (remaining_nil tree (key ∷ keys))
  values_at-filter_object (boolean b) tree (key ∷ keys) = sym (remaining_nil tree (key ∷ keys))
  values_at-filter_object (number n) tree (key ∷ keys) = sym (remaining_nil tree (key ∷ keys))
  values_at-filter_object (text s) tree (key ∷ keys) = sym (remaining_nil tree (key ∷ keys))

  values_of-filter_items :
      (items : Items) (tree : PrivateFieldTree) (keys : List String)
      → values_of (filter_items items tree) keys ≡ remaining tree keys (values_of items keys)
  values_of-filter_items no_items tree keys = sym (remaining_nil tree keys)
  values_of-filter_items (item value items) tree keys =
      ap₂ ◌++◌ (values_at-filter_object value tree keys) (values_of-filter_items items tree keys)
      ∙ sym (remaining-append tree keys (values_at value keys) (values_of items keys))

  values_in-filter_members :
      (members : Members) (children : Children) (marked : Bool) (key : String) (keys : List String)
      → values_in (filter_members members children) key keys
        ≡ remaining (node marked children) (key ∷ keys) (values_in members key keys)
  values_in-filter_members no_members children marked key keys =
      sym (remaining_nil (node marked children) (key ∷ keys))
  values_in-filter_members (member name value rest) children marked key keys =
      let others = values_in-filter_members rest children marked key keys in
      elim (Bool-cases (name == key)) [
        | inr different ↦ elim (Option-cases (get_child name children)) [
          | inl e ↦ rw (filter_without name value rest children e, different) others
          | inr (tree, e) ↦ elim (Bool-cases (is_private tree)) [
            | inl p ↦ rw (filter_private name value rest children tree e p, different) others
            | inr p ↦ rw (filter_below name value rest children tree e p, different) others
          ]
        ]
        | inl same ↦ elim (Option-cases (get_child name children)) [
          | inl e ↦
              let e' = ap (λ n. get_child n children) (sym ((eq_iff name key).0 same)) ∙ e in
              rw (filter_without name value rest children e, same)
                (ap (λ vs. values_at value keys ++ vs)
                    (others ∙ remaining_without children marked key keys _ e')
                  ∙ sym (remaining_without children marked key keys _ e'))
          | inr (tree, e) ↦
              let e' = ap (λ n. get_child n children) (sym ((eq_iff name key).0 same)) ∙ e in
              elim (Bool-cases (is_private tree)) [
                | inl p ↦
                    rw (filter_private name value rest children tree e p, same)
                      (others
                        ∙ remaining_private children marked key keys tree _ e' p
                        ∙ sym (remaining_private children marked key keys tree _ e' p))
                | inr p ↦
                    rw (filter_below name value rest children tree e p, same)
                      (ap₂ ◌++◌ (values_at-filter_object value tree keys)
                          (others ∙ remaining_below children marked key keys tree _ e' p)
                        ∙ sym (remaining-append tree keys _ _)
                        ∙ sym (remaining_below children marked key keys tree _ e' p))
              ]
        ]
      ]

values_in_none : (key : String) (keys : List String) → values_in no_members key keys ≡ []
unfolding values_at
values_in_none key keys = refl

values_in_member :
    (name : String) (value : Value) (rest : Members) (key : String) (keys : List String)
    → values_in (member name value rest) key keys ≡ (
        if name == key
        then values_at value keys ++ values_in rest key keys
        else values_in rest key keys)
unfolding values_at
values_in_member name value rest key keys = refl

-- The filter reaches what stands under `data`, and nothing else of a response.
pub values_in-filter_response :
    (response : Members) (tree : PrivateFieldTree) (key : String) (keys : List String)
    → values_in (filter_response response tree) key keys ≡ (
        if key == "data"
        then remaining tree keys (values_in response key keys)
        else values_in response key keys)
unfolding filter_response
values_in-filter_response no_members tree key keys =
    rw (values_in_none key keys) (ground (arith, remaining_nil tree keys))
values_in-filter_response (member name value rest) tree key keys = elim (Bool-cases (name == key)) [
  | inl same ↦
      let name_is = ap (λ n. n == "data") ((eq_iff name key).0 same) in
      elim (Bool-cases (key == "data")) [
        | inl inside ↦
            rw (values_in_member, values_in_member, same, name_is ∙ inside, inside)
              (ap₂ ◌++◌ (values_at-filter_object value tree keys)
                  (rw inside at (values_in-filter_response rest tree key keys))
                ∙ sym (remaining-append tree keys (values_at value keys) (values_in rest key keys)))
        | inr outside ↦
            rw (values_in_member, values_in_member, same, name_is ∙ outside, outside)
              (ap (λ vs. values_at value keys ++ vs)
                (rw outside at (values_in-filter_response rest tree key keys)))
      ]
  | inr different ↦
      rw (values_in_member, values_in_member, different)
        (values_in-filter_response rest tree key keys)
]
