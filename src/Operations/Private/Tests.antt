-- ===== src/Operations/Private/Tests.antt =====
-- Tests of the private fields, and the theorems about them at concrete inputs.
use apollo_mcp_server.Prelude.{
  ◌≡◌, ◌↔◌, refl, true, false, none, some, List, [], ◌∷◌, ◌==◌, arith, lookup, if◌then◌else◌,
}
use apollo_mcp_server.Operations.Private.{
  default_tree, node, leaf, child, field, fragment_spread, Selections, end, select, Fragments,
  collect_from_selections, collect_private_fields, has_private_directive, response_key, Definition,
  operation_definition, fragment_definition, strip_private_directives, Documents, collect_selection,
  get_child, set_child, remove_child, mark_private, keep_child, child_or_default,
  has_private_fields,
}
use apollo_mcp_server.Operations.Private.Covers.{hidden}
use apollo_mcp_server.Operations.Private.Marked.{Marks, first, later, by_directive}
use apollo_mcp_server.Operations.Private.Unfolding.{
  Unfolds, at_end, then_rest, public_field, private_field, known_spread,
}
use apollo_mcp_server.Operations.Private.Complete.{collect_private_fields-hidden}
use apollo_mcp_server.Operations.Private.Fuel.{collect_private_fields-rounds}
use apollo_mcp_server.Operations.Private.Reused.{spread_twice, collect_private_fields-spread_twice}

-- `fragment Account on User { name email @private }`
abbrev account : Selections
account = select (field none "name" [] end) (select (field none "email" ("private" ∷ []) end) end)

abbrev fragments : Fragments
fragments = ("Account", account) ∷ []

-- `query { me: user { ...Account } }`
abbrev query : Selections
query = select (field (some "me") "user" [] (select (fragment_spread "Account") end)) end

collects :
    collect_private_fields query fragments
    ≡ node false (child "me" (node false (child "email" (node true leaf) leaf)) leaf)
unfolding collect_private_fields collect_from_selections collect_selection lookup response_key
    has_private_directive child_or_default get_child set_child remove_child mark_private keep_child
    has_private_fields
collects = refl

account-Unfolds : Unfolds fragments account []
unfolding has_private_directive
account-Unfolds =
    then_rest [] [] (public_field refl at_end) (then_rest [] [] (private_field refl) at_end refl)
      refl

query-Unfolds : Unfolds fragments query ("Account" ∷ [])
unfolding lookup has_private_directive
query-Unfolds =
    then_rest ("Account" ∷ []) []
      (public_field refl
        (then_rest ("Account" ∷ []) [] (known_spread refl account-Unfolds) at_end refl))
      at_end refl

account-Marks : Marks fragments account ("email" ∷ [])
unfolding has_private_directive response_key
account-Marks = later (first (by_directive refl refl))

collect_private_fields-hidden_example :
    (hidden (collect_private_fields query fragments) ("me" ∷ "email" ∷ []) ≡ true)
    ↔ Marks fragments query ("me" ∷ "email" ∷ [])
collect_private_fields-hidden_example =
    collect_private_fields-hidden fragments query ("Account" ∷ []) ("me" ∷ "email" ∷ [])
      query-Unfolds (refl, tt)

-- Two fragments that spread each other.
abbrev circle : Fragments
circle =
    ("A", select (fragment_spread "B") (select (field none "a" ("private" ∷ []) end) end))
    ∷ ("B", select (fragment_spread "A") (select (field none "b" [] end) end))
    ∷ []

collect_private_fields-rounds_example :
    (collect_from_selections 9 circle (select (fragment_spread "A") end) (default_tree, [])).0
    ≡ collect_private_fields (select (fragment_spread "A") end) circle
collect_private_fields-rounds_example =
    collect_private_fields-rounds 9 circle (select (fragment_spread "A") end) (omega arith)

collect_private_fields-spread_twice_example :
    Marks fragments (spread_twice "me" "friend" "Account") ("friend" ∷ "email" ∷ [])
    × (hidden
          (collect_private_fields (spread_twice "me" "friend" "Account") fragments)
          ("friend" ∷ "email" ∷ [])
        ≡ false)
unfolding lookup
collect_private_fields-spread_twice_example =
    collect_private_fields-spread_twice fragments "me" "friend" "Account" account ("email" ∷ [])
      refl account-Marks (λ e. cc)

abbrev document : List Definition
document = operation_definition query ∷ fragment_definition "Account" account ∷ []

-- A parser and a printer of this document.
abbrev compiler : Documents
compiler = record {
  parse_ast = λ text.
      if text == "stripped" then some (strip_private_directives document) else some document;
  serialize = λ d. "stripped";
}
