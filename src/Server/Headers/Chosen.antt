-- ===== src/Server/Headers/Chosen.antt =====
-- Which value each header of the parent gets.
use apollo_mcp_server.Prelude.{
  ◌≡◌, ◌∙◌, ◌⊎◌, refl, Bool, true, false, not, ◌&&◌, ◌||◌, Option, none, some, List, [], ◌∷◌,
  String, find, find-assign, any, Bool-cases, Option-cases, inl, inr, arith, ◌==◌, eq_iff,
}
use apollo_mcp_server.Auth.Token.{ValidToken}
use apollo_mcp_server.Server.Headers.{
  HeaderLib, names, is_hop_by_hop, session_id_header, authorization_header, forward_named,
  forward_headers, pass_token, pass_session, build_request_headers,
}

-- The first value, if there is one, or else the second.
unfoldable pub first_of : {A : Type 0} → Option A → Option A → Option A
first_of (some a) o = some a
first_of none o = o

unfoldable pub only_if : {A : Type 0} → Bool → Option A → Option A
only_if true o = o
only_if false o = none

-- The configured name stands for this header.
unfoldable pub is_name : Option String → String → Bool
is_name none name = false
is_name (some parsed) name = parsed == name

first_of_same :
    {A : Type 0} (b c k : Bool) (o p : Option A)
    → first_of (only_if (b && k) o) (first_of (only_if (c && k) o) p)
      ≡ first_of (only_if ((c || b) && k) o) p
unfolding first_of only_if
first_of_same b c k none p = ground arith
first_of_same b c k (some a) p = ground arith

module _ {Value : Type 0} (lib : HeaderLib Value) where
  forward_named-same :
      (parsed : String) (incoming outgoing : List (String × Value))
      → find names (forward_named lib (some parsed) incoming outgoing) parsed
        ≡ first_of
            (only_if (not (is_hop_by_hop parsed)) (find names incoming parsed))
            (find names outgoing parsed)
  unfolding forward_named first_of only_if
  forward_named-same parsed incoming outgoing = elim (Option-cases (find names incoming parsed)) [
    | inl missing ↦ elim (Bool-cases (is_hop_by_hop parsed)) [
      | inl hop ↦ rw (missing, hop, forward_named) refl
      | inr end ↦ rw (missing, end, forward_named) refl
    ]
    | inr (value, found) ↦ elim (Bool-cases (is_hop_by_hop parsed)) [
      | inl hop ↦ rw (found, hop, forward_named) refl
      | inr end ↦ rw (found, end, find-assign, (eq_iff parsed parsed).1 refl, forward_named) refl
    ]
  ]

  forward_named-find :
      (parsed : Option String) (incoming outgoing : List (String × Value)) (name : String)
      → find names (forward_named lib parsed incoming outgoing) name
        ≡ first_of
            (only_if (is_name parsed name && not (is_hop_by_hop name)) (find names incoming name))
            (find names outgoing name)
  unfolding forward_named first_of only_if is_name
  forward_named-find none incoming outgoing name = refl
  forward_named-find (some parsed) incoming outgoing name = elim (Bool-cases (parsed == name)) [
    | inl same ↦
        let e : parsed ≡ name = (eq_iff parsed name).0 same in
        rw (same, ← e, is_name) (forward_named-same parsed incoming outgoing)
    | inr other ↦ elim (Option-cases (find names incoming parsed)) [
      | inl missing ↦ rw (missing, other, forward_named, is_name) refl
      | inr (value, found) ↦ elim (Bool-cases (is_hop_by_hop parsed)) [
        | inl hop ↦ rw (found, hop, other, forward_named, is_name) refl
        | inr end ↦ rw (found, end, find-assign, other, forward_named, is_name) refl
      ]
    ]
  ]

  abbrev bearer_of : Option ValidToken → Option Value
  bearer_of none = none
  bearer_of (some token) = some (lib.bearer token.token)

  -- The header is one of those to forward.
  unfoldable pub is_forwarded : List String → String → Bool
  unfolding is_name
  is_forwarded headers name =
      any (λ header. is_name (lib.from_str header) name) headers && not (is_hop_by_hop name)

  forward_headers-find :
      (headers : List String) (incoming outgoing : List (String × Value)) (name : String)
      → find names (forward_headers lib headers incoming outgoing) name
        ≡ first_of
            (only_if (is_forwarded headers name) (find names incoming name))
            (find names outgoing name)
  unfolding forward_headers is_forwarded
  forward_headers-find [] incoming outgoing name = unfold first_of only_if in refl
  forward_headers-find (header ∷ headers) incoming outgoing name =
      let later =
        forward_headers-find headers incoming
          (forward_named lib (lib.from_str header) incoming outgoing) name in
      rw (later, forward_named-find, is_forwarded)
        (first_of_same (any (λ h. is_name (lib.from_str h) name) headers)
          (is_name (lib.from_str header) name) (not (is_hop_by_hop name)) (find names incoming name)
          (find names outgoing name))

  -- The value that each header of the request gets.
  unfoldable pub chosen :
      List (String × Value)
      → List String
      → List (String × Value)
      → Option ValidToken
      → Bool
      → String
      → Option Value
  unfolding first_of only_if is_forwarded
  chosen static_headers headers incoming extension disabled name =
      first_of (only_if (session_id_header == name) (find names incoming session_id_header)) (
        first_of (only_if (not disabled && authorization_header == name) (bearer_of extension)) (
          first_of (only_if (is_forwarded headers name) (find names incoming name))
            (find names static_headers name)))

  pass_token-find :
      (disabled : Bool) (extension : Option ValidToken) (headers : List (String × Value))
      (name : String)
      → find names (pass_token lib disabled extension headers) name
        ≡ first_of
            (only_if (not disabled && authorization_header == name) (bearer_of extension))
            (find names headers name)
  unfolding pass_token first_of only_if
  pass_token-find true extension headers name = refl
  pass_token-find false none headers name = ground arith
  pass_token-find false (some token) headers name =
      elim (Bool-cases (authorization_header == name)) [
        | inl same ↦ rw (find-assign, same) refl
        | inr other ↦ rw (find-assign, other) refl
      ]

  pass_session-find :
      (session_id : Option Value) (headers : List (String × Value)) (name : String)
      → find names (pass_session lib session_id headers) name
        ≡ first_of (only_if (session_id_header == name) session_id) (find names headers name)
  unfolding pass_session first_of only_if
  pass_session-find none headers name = ground arith
  pass_session-find (some session_id) headers name = elim (Bool-cases (session_id_header == name)) [
    | inl same ↦ rw (find-assign, same) refl
    | inr other ↦ rw (find-assign, other) refl
  ]

  -- Each header that `build_request_headers` returns has the client's session id, if it is that header;
  -- or else, for `authorization` and unless this is turned off, the validated token; or else the client's
  -- value, if the header is configured to be forwarded and is not hop-by-hop; or else the static value.
  pub build_request_headers-find :
      (static_headers : List (String × Value)) (forward_header_names : List String)
      (incoming : List (String × Value)) (extension : Option ValidToken) (disabled : Bool)
      (name : String)
      → find names
          (build_request_headers lib static_headers forward_header_names incoming extension
            disabled)
          name
        ≡ chosen static_headers forward_header_names incoming extension disabled name
  unfolding build_request_headers chosen
  build_request_headers-find static_headers headers incoming extension disabled name =
      rw (pass_session-find, pass_token-find, forward_headers-find) refl

  not_hop :
      (other name : String)
      → is_hop_by_hop other ≡ false
      → is_hop_by_hop name ≡ true
      → (other == name) ≡ false
  not_hop other name no_hop hop = elim (Bool-cases (other == name)) [
    | inr differs ↦ differs
    | inl same ↦
        let e : other ≡ name = (eq_iff other name).0 same in
        let no_hop_name : is_hop_by_hop name ≡ false = rw (← e) no_hop in absurd (ground arith)
  ]

  chosen_static :
      (static_headers : List (String × Value)) (headers : List String)
      (incoming : List (String × Value)) (extension : Option ValidToken) (disabled : Bool)
      (name : String)
      → (session_id_header == name) ≡ false
      → ((authorization_header == name) ≡ false) ⊎ (extension ≡ none)
      → is_forwarded headers name ≡ false
      → chosen static_headers headers incoming extension disabled name
        ≡ find names static_headers name
  unfolding chosen first_of only_if
  chosen_static static_headers headers incoming none disabled name session auth kept =
      elim (Bool-cases (not disabled && authorization_header == name)) [
        | inl passes ↦ rw (session, kept, passes, chosen) refl
        | inr stops ↦ rw (session, kept, stops, chosen) refl
      ]
  chosen_static static_headers headers incoming (some token) disabled name session (inr absent)
        kept =
      absurd (ground arith)
  chosen_static static_headers headers incoming (some token) disabled name session (inl other)
        kept =
      let stops : (not disabled && authorization_header == name) ≡ false = ground arith in
      rw (session, kept, stops, chosen) refl

  -- A hop-by-hop header, and without a validated token `authorization` unless it is configured to be
  -- forwarded, keeps its static value whatever the client sends.
  pub build_request_headers-static :
      (static_headers : List (String × Value)) (forward_header_names : List String)
      (incoming : List (String × Value)) (extension : Option ValidToken) (disabled : Bool)
      (name : String)
      → (is_hop_by_hop name ≡ true)
        ⊎ ((name ≡ authorization_header)
            × (extension ≡ none)
            × (is_forwarded forward_header_names name ≡ false))
      → find names
          (build_request_headers lib static_headers forward_header_names incoming extension
            disabled)
          name
        ≡ find names static_headers name
  unfolding is_forwarded is_hop_by_hop
  build_request_headers-static static_headers headers incoming extension disabled name h =
      build_request_headers-find static_headers headers incoming extension disabled name ∙ elim h [
        | inl hop ↦
            chosen_static static_headers headers incoming extension disabled name
              (not_hop session_id_header name refl hop)
              (inl (not_hop authorization_header name refl hop)) (ground arith)
        | inr (is_auth, absent, kept) ↦
            chosen_static static_headers headers incoming extension disabled name
              (rw (is_auth) refl) (inr absent) kept
      ]
