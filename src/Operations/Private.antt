-- ===== src/Operations/Private.antt =====
-- The `@private` directive of an operation: crates/apollo-mcp-server/src/operations/private_fields.rs.
pub mod Covers
pub mod Marked
pub mod Sound
pub mod Visited
pub mod Unfolding
pub mod Complete
pub mod Fuel
pub mod Reused
pub mod Stripped
mod Tests
use apollo_mcp_server.Prelude.{
  ℕ, zero, suc, Bool, true, false, not, Option, none, some, List, [], ◌∷◌, map, String, ◌==◌, any,
  contains, lookup, length, if◌then◌else◌,
}

-- The children are a `HashMap`: an association list, in which the first entry of a key counts.
mutual
  pub data PrivateFieldTree : Type 0 where
    node : Bool → Children → PrivateFieldTree

  pub data Children : Type 0 where
    leaf : Children
    child : String → PrivateFieldTree → Children → Children

abbrev pub is_private : PrivateFieldTree → Bool
is_private (node marked children) = marked

abbrev pub default_tree : PrivateFieldTree
default_tree = node false leaf

unfoldable pub has_private_fields : PrivateFieldTree → Bool
has_private_fields (node marked leaf) = marked
has_private_fields (node marked (child key tree children)) = true

unfoldable pub get_child : String → Children → Option PrivateFieldTree
get_child key leaf = none
get_child key (child name tree children) =
    let others = get_child key children in if name == key then some tree else others

unfoldable pub remove_child : String → Children → Children
remove_child key leaf = leaf
remove_child key (child name tree children) =
    let others = remove_child key children in if name == key then others else child name tree others

unfoldable pub set_child : String → PrivateFieldTree → Children → Children
set_child key tree children = child key tree (remove_child key children)

-- `entry(key).or_default()`
unfoldable pub child_or_default : PrivateFieldTree → String → PrivateFieldTree
child_or_default (node marked children) key = elim (get_child key children) [
  | none ↦ default_tree
  | some tree ↦ tree
]

-- What `is_private = true` does to an entry, made by default if there is none.
abbrev marked_entry : Option PrivateFieldTree → PrivateFieldTree
marked_entry none = node true leaf
marked_entry (some (node marked children)) = node true children

-- `entry(key).or_default().is_private = true`
unfoldable pub mark_private : PrivateFieldTree → String → PrivateFieldTree
mark_private (node marked children) key =
    node marked (set_child key (marked_entry (get_child key children)) children)

-- The child as the recursion leaves it, removed again if it has no private fields.
unfoldable pub keep_child : PrivateFieldTree → String → PrivateFieldTree → PrivateFieldTree
keep_child (node marked children) key tree =
    let children' = set_child key tree children in
    if elim (get_child key children') [ none ↦ false | some c ↦ has_private_fields c ]
    then node marked children'
    else node marked (remove_child key children')

-- Selections, with the names of their directives. What the code never reads is left out.
mutual
  pub data Selection : Type 0 where
    field : Option String → String → List String → Selections → Selection
    fragment_spread : String → Selection
    inline_fragment : Selections → Selection

  pub data Selections : Type 0 where
    end : Selections
    select : Selection → Selections → Selections

unfoldable pub response_key : Option String → String → String
response_key none name = name
response_key (some alias) name = alias

unfoldable pub has_private_directive : List String → Bool
has_private_directive directives = any (λ d. d == "private") directives

abbrev no_selections : Selections → Bool
no_selections end = true
no_selections (select s selections) = false

abbrev pub Fragments : Type 0
Fragments = List (String × Selections)

-- The tree and the set of the fragments that were visited.
abbrev pub Collected : Type 0
Collected = PrivateFieldTree × List String

-- What a spread does once its fragment is looked up.
abbrev expand_fragment :
    (Selections → Collected → Collected) → Option Selections → Collected → Collected
expand_fragment expand none state = state
expand_fragment expand (some body) state = expand body state

-- The recursion into the body of a fragment is `expand`.
unfoldable mutual
  pub collect_selection :
      (Selections → Collected → Collected) → Fragments → Selection → Collected → Collected
  collect_selection expand fragments (field alias name directives selections) (tree, visited) =
      let key = response_key alias name in
      let nested =
        collect_selections expand fragments selections (child_or_default tree key, visited) in
      if has_private_directive directives
      then (mark_private tree key, visited)
      else if not (no_selections selections)
      then (keep_child tree key nested.0, nested.1)
      else (tree, visited)
  collect_selection expand fragments (fragment_spread name) (tree, visited) =
      if contains visited name
      then (tree, visited)
      else expand_fragment expand (lookup name fragments) (tree, name ∷ visited)
  collect_selection expand fragments (inline_fragment selections) state =
      collect_selections expand fragments selections state

  pub collect_selections :
      (Selections → Collected → Collected) → Fragments → Selections → Collected → Collected
  collect_selections expand fragments end state = state
  collect_selections expand fragments (select s selections) state =
      collect_selections expand fragments selections (collect_selection expand fragments s state)

-- The fuel counts the fragments that may be open at once: each was not visited before.
unfoldable pub collect_from_selections : ℕ → Fragments → Selections → Collected → Collected
collect_from_selections zero fragments selections state =
    collect_selections (λ body s. s) fragments selections state
collect_from_selections (suc fuel) fragments selections state =
    collect_selections (collect_from_selections fuel fragments) fragments selections state

unfoldable pub collect_private_fields : Selections → Fragments → PrivateFieldTree
collect_private_fields selections fragments =
    (collect_from_selections (length fragments) fragments selections (default_tree, [])).0

-- Definitions of a document, of which only operations and fragments matter here.
pub data Definition : Type 0 where
  operation_definition : Selections → Definition
  fragment_definition : String → Selections → Definition
  other_definition : String → Definition

-- `retain`
unfoldable pub retain_public : List String → List String
retain_public [] = []
retain_public (d ∷ directives) =
    let others = retain_public directives in if d == "private" then others else d ∷ others

unfoldable mutual
  pub strip_from_selection : Selection → Selection
  strip_from_selection (field alias name directives selections) =
      field alias name (retain_public directives) (strip_from_selection_set selections)
  strip_from_selection (fragment_spread name) = fragment_spread name
  strip_from_selection (inline_fragment selections) =
      inline_fragment (strip_from_selection_set selections)

  pub strip_from_selection_set : Selections → Selections
  strip_from_selection_set end = end
  strip_from_selection_set (select s selections) =
      select (strip_from_selection s) (strip_from_selection_set selections)

unfoldable pub strip_definition : Definition → Definition
strip_definition (operation_definition selections) =
    operation_definition (strip_from_selection_set selections)
strip_definition (fragment_definition name selections) =
    fragment_definition name (strip_from_selection_set selections)
strip_definition (other_definition text) = other_definition text

unfoldable pub strip_private_directives : List Definition → List Definition
strip_private_directives document = map strip_definition document

-- `collect` into a `HashMap`: of two fragments with one name, the later one counts.
unfoldable pub insert_fragments : List Definition → Fragments → Fragments
insert_fragments [] fragments = fragments
insert_fragments (fragment_definition name selections ∷ document) fragments =
    insert_fragments document ((name, selections) ∷ fragments)
insert_fragments (operation_definition selections ∷ document) fragments =
    insert_fragments document fragments
insert_fragments (other_definition text ∷ document) fragments = insert_fragments document fragments

unfoldable pub collect_named_fragments : List Definition → Fragments
collect_named_fragments document = insert_fragments document []

-- `find_map` of the operations
unfoldable pub first_operation : List Definition → Option Selections
first_operation [] = none
first_operation (operation_definition selections ∷ document) = some selections
first_operation (fragment_definition name selections ∷ document) = first_operation document
first_operation (other_definition text ∷ document) = first_operation document

-- apollo-compiler's parser and printer of documents.
pub record Documents : Type 0 where
  pub parse_ast : String → Option (List Definition)
  pub serialize : List Definition → String

processed_operation :
    Documents → List Definition → Option Selections → Option (String × PrivateFieldTree)
processed_operation compiler document none = none
processed_operation compiler document (some selections) =
    let tree = collect_private_fields selections (collect_named_fragments document) in
    if has_private_fields tree
    then some (compiler.serialize (strip_private_directives document), tree)
    else none

processed_document : Documents → Option (List Definition) → Option (String × PrivateFieldTree)
unfolding processed_operation
processed_document compiler none = none
processed_document compiler (some document) =
    processed_operation compiler document (first_operation document)

unfoldable pub process_private_directives : Documents → String → Option (String × PrivateFieldTree)
unfolding processed_document
process_private_directives compiler query = processed_document compiler (compiler.parse_ast query)
