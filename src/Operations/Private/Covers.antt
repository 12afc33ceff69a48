-- ===== src/Operations/Private/Covers.antt =====
-- The paths of response keys that a tree of private fields covers, and what the operations on
-- trees do to them.
use apollo_mcp_server.Prelude.{
  ◌≡◌, refl, ◌∙◌, Bool, true, false, ◌||◌, Option, none, some, List, [], ◌∷◌, String, ◌==◌, eq_iff,
  arith, if◌then◌else◌, ◌⊎◌, Bool-cases, Option-cases, inl, inr,
}
use apollo_mcp_server.Operations.Private.{
  PrivateFieldTree, node, Children, leaf, child, is_private, default_tree, has_private_fields,
  get_child, remove_child, set_child, child_or_default, mark_private, keep_child, marked_entry,
}

-- A path below the tree is hidden when some prefix of it, itself included, ends in a private child.
unfoldable pub hidden : PrivateFieldTree → List String → Bool
hidden (node marked children) [] = false
hidden (node marked children) (key ∷ keys) = elim (get_child key children) [
  | none ↦ false
  | some tree ↦ is_private tree || hidden tree keys
]

-- Hidden, or below a tree that is private as a whole.
unfoldable pub covers : PrivateFieldTree → List String → Bool
covers tree keys = is_private tree || hidden tree keys

get_child-remove_child :
    (children : Children) (key name : String)
    → get_child name (remove_child key children)
      ≡ (if key == name then none else get_child name children)
unfolding get_child remove_child
get_child-remove_child leaf key name = ground arith
get_child-remove_child (child other tree children) key name = ground (
  arith,
  get_child-remove_child children key name,
  eq_iff other key,
  eq_iff other name,
  eq_iff key name,
)

get_child-set_child :
    (children : Children) (key name : String) (tree : PrivateFieldTree)
    → get_child name (set_child key tree children)
      ≡ (if key == name then some tree else get_child name children)
unfolding get_child set_child
get_child-set_child children key name tree =
    ground (arith, get_child-remove_child children key name)

no_private_fields :
    (tree : PrivateFieldTree) (keys : List String)
    → has_private_fields tree ≡ false
    → covers tree keys ≡ false
unfolding has_private_fields covers hidden get_child
no_private_fields (node marked leaf) [] h = ground arith
no_private_fields (node marked leaf) (key ∷ keys) h = ground arith
no_private_fields (node marked (child name tree children)) keys h = ground arith

pub default_tree-covers : (keys : List String) → covers default_tree keys ≡ false
unfolding has_private_fields
default_tree-covers keys = no_private_fields default_tree keys refl

pub covers-child_or_default :
    (tree : PrivateFieldTree) (key : String) (keys : List String)
    → covers tree (key ∷ keys) ≡ (is_private tree || covers (child_or_default tree key) keys)
unfolding covers hidden child_or_default
covers-child_or_default (node marked children) key keys =
    elim (Option-cases (get_child key children)) [
      | inl e ↦ ground (arith, default_tree-covers keys)
      | inr (tree, e) ↦ ground arith
    ]

-- Whether the path begins with the key.
abbrev pub begins : String → List String → Bool
begins key [] = false
begins key (name ∷ keys) = key == name

is_private-marked_entry : (entry : Option PrivateFieldTree) → is_private (marked_entry entry) ≡ true
is_private-marked_entry none = refl
is_private-marked_entry (some (node marked children)) = refl

entry_covers : Option PrivateFieldTree → List String → Bool
entry_covers none keys = false
entry_covers (some tree) keys = covers tree keys

covers_node :
    (marked : Bool) (children : Children) (key : String) (keys : List String)
    → covers (node marked children) (key ∷ keys)
      ≡ (marked || entry_covers (get_child key children) keys)
unfolding covers hidden entry_covers
covers_node marked children key keys = ground arith

marks_one :
    (marked : Bool) (old : Option PrivateFieldTree) (entry : PrivateFieldTree) (same : Bool)
    (keys : List String)
    → is_private entry ≡ true
    → (marked || entry_covers (if same then some entry else old) keys)
      ≡ ((marked || entry_covers old keys) || same)
unfolding entry_covers covers
marks_one marked old entry true keys h = ground arith
marks_one marked old entry false keys h = ground arith

pub covers-mark_private :
    (tree : PrivateFieldTree) (key : String) (keys : List String)
    → covers (mark_private tree key) keys ≡ (covers tree keys || begins key keys)
unfolding covers hidden mark_private
covers-mark_private (node marked children) key [] = ground arith
covers-mark_private (node marked children) key (name ∷ keys) =
    let entry = marked_entry (get_child key children) in
    covers_node marked (set_child key entry children) name keys
    ∙ rw (get_child-set_child children key name entry, covers_node marked children name keys)
        (marks_one marked (get_child name children) entry (key == name) keys
          (is_private-marked_entry (get_child key children)))

pub covers-keep_child :
    (tree below : PrivateFieldTree) (key name : String) (keys : List String)
    → covers (keep_child tree key below) (name ∷ keys)
      ≡ (is_private tree || (if key == name then covers below keys else covers tree (name ∷ keys)))
unfolding covers hidden keep_child
covers-keep_child (node marked children) below key name keys = ground (
  arith,
  get_child-set_child children key name below,
  get_child-set_child children key key below,
  eq_iff key key,
  get_child-remove_child (set_child key below children) key name,
  eq_iff key name,
  no_private_fields below keys,
)

pub covers-keep_child_nil :
    (tree below : PrivateFieldTree) (key : String)
    → covers (keep_child tree key below) [] ≡ covers tree []
unfolding covers hidden keep_child
covers-keep_child_nil (node marked children) below key = ground arith

pub hidden-covers :
    (tree : PrivateFieldTree) (keys : List String)
    → hidden tree keys ≡ true
    → covers tree keys ≡ true
unfolding covers
hidden-covers tree keys h = ground arith

pub covers_cases :
    (tree : PrivateFieldTree) (keys : List String)
    → covers tree keys ≡ true
    → (hidden tree keys ≡ true) ⊎ (covers tree [] ≡ true)
unfolding covers
covers_cases tree keys h = elim (Bool-cases (hidden tree keys)) [
  | inl deep ↦ inl deep
  | inr shallow ↦ inr (ground arith)
]

pub is_private-keep_child :
    (tree below : PrivateFieldTree) (key : String)
    → is_private (keep_child tree key below) ≡ is_private tree
unfolding keep_child
is_private-keep_child (node marked children) below key = ground arith
