-- ===== src/Auth/Middleware/Anonymous.antt =====
-- Requests without a token in `oauth_validate` of crates/apollo-mcp-server/src/auth.rs.
use apollo_mcp_server.Prelude.{
  ℕ, ◌≡◌, inl, inr, refl, Bool, true, not, ◌&&◌, ◌||◌, Option, none, some, String, Result, ok, err,
  is_empty, is_none, Bool-cases,
}
use apollo_mcp_server.Auth.Token.{Jwk, Jwt}
use apollo_mcp_server.Auth.SkipLists.{
  Request, is_get, is_post, JsonRpcPeek, Wire, needs_body, matches_headers, matches_peek,
  from_headers, standard_headers_enforced, uses_stateless_protocol, extract_body,
}
use apollo_mcp_server.Auth.Config.{AuthState}
use apollo_mcp_server.Auth.Middleware.{
  Outcome, forward, respond, challenge, unauthorized, matches_some, after_peek, after_body,
  read_body, with_header_peek, with_enforced_headers, read_headers, oauth_validate,
}
use apollo_mcp_server.Auth.Middleware.Access.{app_qualified}

module _ {Url Key S : Type 0} (wire : Wire) (jwt : Jwt Key)
    (resolve_key : Url → String → S → Option (Jwk Key × String) × S) (auth_state : AuthState Url)
    (s : S) where
  -- The request passes without a token, or gets the 401 challenge; no key is resolved.
  abbrev pub IsAnonymous : Outcome Url × S → Type 0
  IsAnonymous (forward r extension, s') = (extension ≡ none) × (s' ≡ s)
  IsAnonymous (respond status, s') = ⊥
  IsAnonymous (challenge status header, s') =
      (challenge status header ≡ unauthorized auth_state) × (s' ≡ s)

  after_peek-IsAnonymous :
      (r : Request) (app : Bool) (header_peek body_peek : Option JsonRpcPeek)
      → IsAnonymous (after_peek wire jwt resolve_key auth_state none r app header_peek body_peek s)
  unfolding after_peek unauthorized
  after_peek-IsAnonymous r app header_peek body_peek =
      elim (Bool-cases (
        needs_body auth_state.skip_token_validation
        && matches_some wire jwt resolve_key auth_state body_peek app)) [
          | inl listed ↦ rw listed (refl, refl)
          | inr unlisted ↦ rw unlisted (refl, refl)
        ]

  after_body-IsAnonymous :
      (app : Bool) (header_peek : Option JsonRpcPeek) (x : Result JsonRpcPeek ℕ × Request)
      → IsAnonymous (after_body wire jwt resolve_key auth_state none app header_peek x s)
  unfolding after_body
  after_body-IsAnonymous app header_peek (ok p, r) =
      after_peek-IsAnonymous r app header_peek (some p)
  after_body-IsAnonymous app header_peek (err status, r) =
      after_peek-IsAnonymous r app header_peek none

  read_body-IsAnonymous :
      (request : Request) (app : Bool) (header_peek : Option JsonRpcPeek)
      → IsAnonymous (read_body wire jwt resolve_key auth_state none request app header_peek s)
  unfolding read_body
  read_body-IsAnonymous request app header_peek =
      elim (Bool-cases (
        is_none header_peek
        && is_post request.method
        && (needs_body auth_state.skip_token_validation
            || not (is_empty auth_state.required_scopes)))) [
              | inl needed ↦
                  rw needed (after_body-IsAnonymous app header_peek (extract_body wire request))
              | inr unneeded ↦ rw unneeded (after_peek-IsAnonymous request app header_peek none)
            ]

  with_header_peek-IsAnonymous :
      (request : Request) (app : Bool) (header_peek : Option JsonRpcPeek)
      → IsAnonymous
          (with_header_peek wire jwt resolve_key auth_state none request app header_peek s)
  unfolding with_header_peek unauthorized
  with_header_peek-IsAnonymous request app none = read_body-IsAnonymous request app none
  with_header_peek-IsAnonymous request app (some p) =
      elim (Bool-cases (matches_peek auth_state.skip_token_validation p app)) [
        | inl listed ↦ rw listed (refl, refl)
        | inr unlisted ↦ rw unlisted (refl, refl)
      ]

  read_headers-IsAnonymous :
      (request : Request) (app : Bool)
      → IsAnonymous (read_headers wire jwt resolve_key auth_state none request app s)
  unfolding read_headers with_enforced_headers unauthorized
  read_headers-IsAnonymous request app =
      elim (Bool-cases (standard_headers_enforced wire request)) [
        | inl enforced ↦ elim (Bool-cases (is_none (from_headers wire request.headers) && true)) [
          | inl unreadable ↦ rw (enforced, unreadable) (refl, refl)
          | inr readable ↦
              rw (enforced, readable)
                (with_header_peek-IsAnonymous request app (from_headers wire request.headers))
        ]
        | inr not_enforced ↦ rw not_enforced (with_header_peek-IsAnonymous request app none)
      ]

  -- A request without a token either passes without one or gets the 401 challenge: its body, too
  -- large or malformed, never turns into a 400 or 413, and no signing key is looked up for it.
  pub oauth_validate-IsAnonymous :
      (request : Request)
      → IsAnonymous (oauth_validate wire jwt resolve_key auth_state none request s)
  unfolding oauth_validate
  oauth_validate-IsAnonymous request =
      elim (Bool-cases (
        is_get request.method
        && (not auth_state.stateful_mode || uses_stateless_protocol wire request))) [
          | inl exempt ↦ rw exempt (refl, refl)
          | inr gated ↦
              elim (Bool-cases (matches_headers auth_state.skip_token_validation request.headers)) [
                | inl listed ↦ rw (gated, listed) (refl, refl)
                | inr unlisted ↦
                    rw (gated, unlisted)
                      (read_headers-IsAnonymous request (app_qualified wire request))
              ]
        ]
