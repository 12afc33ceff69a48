-- ===== src/Server/Headers/Overridden.antt =====
-- What is left of the headers of a request under an operation's own headers.
use apollo_mcp_server.Prelude.{
  ◌≡◌, ◌∙◌, refl, ap, sym, Bool, true, Option, none, some, List, [], ◌∷◌, String, find, find-assign,
  is_empty, inl, inr, Bool-cases, arith, ◌==◌, eq_iff,
}
use apollo_mcp_server.Auth.Token.{ValidToken}
use apollo_mcp_server.Server.Headers.{
  HeaderLib, names, build_request_headers, insert_headers, operation_headers,
}
use apollo_mcp_server.Server.Headers.Chosen.{first_of, chosen, build_request_headers-find}

-- The value that an operation's own headers give.
abbrev pub own_value : {Value : Type 0} → Option (List (String × Value)) → String → Option Value
own_value none name = none
own_value (some raw_headers) name = find names raw_headers name

-- No name is there twice.
abbrev pub IsDistinct : {Value : Type 0} → Option (List (String × Value)) → Type 0
IsDistinct none = Unit
IsDistinct (some []) = Unit
IsDistinct (some ((key, value) ∷ raw_headers)) =
    (find names raw_headers key ≡ none) × IsDistinct (some raw_headers)

module _ {Value : Type 0} where
  insert_headers-find :
      (raw_headers headers : List (String × Value)) (name : String)
      → IsDistinct (some raw_headers)
      → find names (insert_headers raw_headers headers) name
        ≡ first_of (find names raw_headers name) (find names headers name)
  unfolding insert_headers first_of find
  insert_headers-find [] headers name h = refl
  insert_headers-find ((key, value) ∷ raw_headers) headers name h =
      insert_headers-find raw_headers _ name h.1 ∙ elim (Bool-cases (key == name)) [
        | inl same ↦
            let e : find names raw_headers name ≡ none = rw (← ((eq_iff key name).0 same)) h.0 in
            rw (find-assign, same, e) refl
        | inr other ↦ rw (find-assign, other) refl
      ]

  first_of-none : (o : Option Value) → first_of o none ≡ o
  unfolding first_of
  first_of-none none = refl
  first_of-none (some value) = refl

  none_found :
      (headers : List (String × Value)) (name : String)
      → is_empty headers ≡ true
      → find names headers name ≡ none
  unfolding find
  none_found [] name h = refl
  none_found (header ∷ headers) name h = absurd (ground arith)

  operation_headers-own :
      (own : Option (List (String × Value))) (headers : List (String × Value)) (name : String)
      → IsDistinct own
      → find names (operation_headers own headers) name
        ≡ first_of (own_value own name) (find names headers name)
  unfolding operation_headers first_of
  operation_headers-own none headers name h = refl
  operation_headers-own (some raw_headers) headers name h = elim (Bool-cases (is_empty headers)) [
    | inl empty ↦
        rw (empty, none_found headers name empty)
          (sym (first_of-none (find names raw_headers name)))
    | inr full ↦ rw full (insert_headers-find raw_headers headers name h)
  ]

-- Each header that `Executable::headers` makes for an operation from those of `build_request_headers` has
-- the value of the operation's own headers, if they have the name, also if it is `authorization` or the
-- session id; or else the client's session id, if it is that header; or else, for `authorization` and
-- unless this is turned off, the validated token; or else the client's value, if the header is configured
-- to be forwarded and is not hop-by-hop; or else the static value. (The operation's own headers have
-- distinct names.)
pub operation_headers-find :
    {Value : Type 0} (lib : HeaderLib Value) (own : Option (List (String × Value)))
    (static_headers : List (String × Value)) (forward_header_names : List String)
    (incoming : List (String × Value)) (extension : Option ValidToken) (disabled : Bool)
    (name : String)
    → IsDistinct own
    → find names
        (operation_headers own (
          build_request_headers lib static_headers forward_header_names incoming extension
            disabled))
        name
      ≡ first_of
          (own_value own name)
          (chosen lib static_headers forward_header_names incoming extension disabled name)
operation_headers-find lib own static_headers headers incoming extension disabled name h =
    operation_headers-own own _ name h
    ∙ ap (first_of (own_value own name))
        (build_request_headers-find lib static_headers headers incoming extension disabled name)
