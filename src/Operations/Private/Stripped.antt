-- ===== src/Operations/Private/Stripped.antt =====
-- A document without its private directives.
use apollo_mcp_server.Prelude.{
  ◌≡◌, ◌∙◌, inl, inr, refl, ap, false, Option, none, some, List, [], ◌∷◌, String, ◌==◌, eq_iff,
  contains, lookup, Bool-cases, Option-cases, if◌then◌else◌,
}
use apollo_mcp_server.Operations.Private.{
  PrivateFieldTree, default_tree, has_private_fields, child_or_default, keep_child, set_child,
  get_child, remove_child, Selection, field, fragment_spread, inline_fragment, Selections, end,
  select, response_key, has_private_directive, no_selections, Fragments, Collected,
  collect_selection, collect_selections, collect_private_fields, Definition, retain_public,
  strip_from_selection, strip_from_selection_set, strip_private_directives, collect_named_fragments,
  first_operation, processed_operation, processed_document, Documents, process_private_directives,
}

-- No field has the directive.
mutual
  pub IsPublicOne : Selection → Type 0
  IsPublicOne (field alias name directives selections) =
      (has_private_directive directives ≡ false) × IsPublic selections
  IsPublicOne (fragment_spread name) = Unit
  IsPublicOne (inline_fragment selections) = IsPublic selections

  pub IsPublic : Selections → Type 0
  IsPublic end = Unit
  IsPublic (select s selections) = IsPublicOne s × IsPublic selections

retain_public-has_private_directive :
    (directives : List String) → has_private_directive (retain_public directives) ≡ false
unfolding has_private_directive retain_public
retain_public-has_private_directive [] = refl
retain_public-has_private_directive (d ∷ directives) = elim (Bool-cases (d == "private")) [
  | inl private ↦ rw private (retain_public-has_private_directive directives)
  | inr public ↦ rw (public, public) (retain_public-has_private_directive directives)
]

mutual
  unfolding strip_from_selection IsPublic

  strip_from_selection-IsPublicOne : (s : Selection) → IsPublicOne (strip_from_selection s)
  strip_from_selection-IsPublicOne (field alias name directives selections) =
      (retain_public-has_private_directive directives, strip_from_selection_set-IsPublic selections)
  strip_from_selection-IsPublicOne (fragment_spread name) = tt
  strip_from_selection-IsPublicOne (inline_fragment selections) =
      strip_from_selection_set-IsPublic selections

  strip_from_selection_set-IsPublic :
      (selections : Selections) → IsPublic (strip_from_selection_set selections)
  strip_from_selection_set-IsPublic end = tt
  strip_from_selection_set-IsPublic (select s selections) =
      (strip_from_selection-IsPublicOne s, strip_from_selection_set-IsPublic selections)

abbrev ArePublic : Fragments → Type 0
ArePublic fragments =
    (name : String) (body : Selections) → lookup name fragments ≡ some body → IsPublic body

keep_nothing : (key : String) → keep_child default_tree key default_tree ≡ default_tree
unfolding keep_child set_child get_child remove_child has_private_fields
keep_nothing key = rw ((eq_iff key key).1 refl)

-- Where nothing is private, nothing is collected.
module _ (fragments : Fragments) (public : ArePublic fragments)
    (expand : Selections → Collected → Collected)
    (finds_none : (body : Selections) (visited : List String)
      → IsPublic body
      → (expand body (default_tree, visited)).0 ≡ default_tree) where
  mutual
    unfolding collect_selection collect_selections IsPublic child_or_default get_child

    collect_selection_public :
        (s : Selection) (visited : List String)
        → IsPublicOne s
        → (collect_selection expand fragments s (default_tree, visited)).0 ≡ default_tree
    collect_selection_public (field alias name directives selections) visited h =
        rw h.0 (elim (Bool-cases (no_selections selections)) [
          | inl none_below ↦ rw none_below
          | inr below ↦ rw below (
              rw (collect_selections_public selections visited h.1)
                (keep_nothing (response_key alias name)))
        ])
    collect_selection_public (fragment_spread name) visited h =
        elim (Bool-cases (contains visited name)) [
          | inl again ↦ rw again
          | inr fresh ↦ rw fresh (elim (Option-cases (lookup name fragments)) [
            | inl unknown ↦ rw unknown
            | inr (body, known) ↦
                rw known (finds_none body (name ∷ visited) (public name body known))
          ])
        ]
    collect_selection_public (inline_fragment selections) visited h =
        collect_selections_public selections visited h

    pub collect_selections_public :
        (selections : Selections) (visited : List String)
        → IsPublic selections
        → (collect_selections expand fragments selections (default_tree, visited)).0 ≡ default_tree
    collect_selections_public end visited h = refl
    collect_selections_public (select s selections) visited h =
        let after = collect_selection expand fragments s (default_tree, visited) in
        ap
          (λ (tree : PrivateFieldTree).
            (collect_selections expand fragments selections (tree, after.1)).0)
          (collect_selection_public s visited h.0)
        ∙ collect_selections_public selections after.1 h.1

pub process_private_directives_lem :
    (compiler : Documents) (query : String) (document : List Definition) (selections : Selections)
    → compiler.parse_ast query ≡ some document
    → first_operation document ≡ some selections
    → process_private_directives compiler query ≡ (
        let tree = collect_private_fields selections (collect_named_fragments document) in
        if has_private_fields tree
        then some (compiler.serialize (strip_private_directives document), tree)
        else none)
unfolding process_private_directives processed_operation
process_private_directives_lem compiler query document selections parsed found =
    ap (processed_document compiler) parsed ∙ ap (processed_operation compiler document) found
