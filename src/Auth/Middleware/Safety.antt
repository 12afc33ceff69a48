-- ===== src/Auth/Middleware/Safety.antt =====
-- `oauth_validate` of crates/apollo-mcp-server/src/auth.rs from its first test on, and what every
-- request that it lets through satisfies.
use apollo_mcp_server.Prelude.{
  ◌≡◌, inl, inr, refl, Bool, true, false, not, ◌&&◌, ◌||◌, Option, none, some, String, is_empty,
  is_none, is_some, lookup, Bool-cases, arith, any_iff, and-eq-true_iff,
}
use apollo_mcp_server.Auth.Token.{Jwk, ValidToken, Jwt}
use apollo_mcp_server.Auth.SkipLists.{
  Request, is_get, is_post, JsonRpcPeek, Wire, needs_body, matches_headers, matches_peek,
  from_headers, standard_headers_enforced, uses_stateless_protocol, extract_body,
}
use apollo_mcp_server.Auth.Config.{AuthState}
use apollo_mcp_server.Auth.Middleware.{
  forward, unauthorized, read_body, with_header_peek, with_enforced_headers, read_headers,
  oauth_validate,
}
use apollo_mcp_server.Auth.Middleware.Access.{
  app_qualified, Lets, ReadsBody, trusted_peek, Asks, in_headers, in_body, Grant, stateless_get,
  listed_header, listed_call, Passes,
}
use apollo_mcp_server.Auth.Middleware.Stages.{
  after_peek-some, after_peek-none, after_body-some, after_body-none,
}

module _ {Url Key S : Type 0} (wire : Wire) (jwt : Jwt Key)
    (resolve_key : Url → String → S → Option (Jwk Key × String) × S) (auth_state : AuthState Url)
    (s : S) where
  read_body-some :
      (token : String) (request : Request) (app : Bool) (header_peek : Option JsonRpcPeek)
      → ReadsBody wire
      → trusted_peek wire auth_state request ≡ header_peek
      → Lets
          (Passes wire jwt resolve_key auth_state s request (some token))
          (read_body wire jwt resolve_key auth_state (some token) request app header_peek s).0
  unfolding read_body
  read_body-some token request app (some p) reads e =
      after_peek-some wire jwt resolve_key auth_state s token request request app (some p) none refl
        (λ q asks. inl (header_asked q asks))
    where
      header_asked : (q : JsonRpcPeek) → Asks wire auth_state request q → some p ≡ some q
      header_asked q (in_headers h) = ground arith
      header_asked q (in_body h posted body) = absurd (ground arith)
  read_body-some token request app none reads e =
      elim (Bool-cases (is_post request.method && not (is_empty auth_state.required_scopes))) [
        | inl needed ↦ rw needed (
            after_body-some wire jwt resolve_key auth_state s token request app
              (extract_body wire request) reads refl e)
        | inr unneeded ↦ rw unneeded (
            after_peek-some wire jwt resolve_key auth_state s token request request app none none
              refl (λ q asks. inr (nothing_asked unneeded q asks)))
      ]
    where
      nothing_asked :
          (is_post request.method && not (is_empty auth_state.required_scopes)) ≡ false
          → (q : JsonRpcPeek) → Asks wire auth_state request q
          → is_empty auth_state.required_scopes ≡ true
      nothing_asked unneeded q (in_headers h) = absurd (ground arith)
      nothing_asked unneeded q (in_body h posted body) = ground arith

  read_body-none :
      (request : Request)
      → ReadsBody wire
      → trusted_peek wire auth_state request ≡ none
      → Lets
          (Passes wire jwt resolve_key auth_state s request none)
          (read_body wire jwt resolve_key auth_state none request
            (app_qualified wire request)
            none
            s).0
  unfolding read_body
  read_body-none request reads e =
      elim (Bool-cases (
        is_post request.method
        && (needs_body auth_state.skip_token_validation
            || not (is_empty auth_state.required_scopes)))) [
              | inl needed ↦ rw needed (
                  after_body-none wire jwt resolve_key auth_state s request
                    (extract_body wire request) reads refl e ((and-eq-true_iff _ _).0 needed).0)
              | inr unneeded ↦ rw unneeded (
                  after_peek-none wire jwt resolve_key auth_state s request request
                    (app_qualified wire request) none none refl
                    (λ p here found. absurd (ground arith)))
            ]

  with_header_peek-Lets :
      (token : Option String) (request : Request) (header_peek : Option JsonRpcPeek)
      → ReadsBody wire
      → trusted_peek wire auth_state request ≡ header_peek
      → Lets
          (Passes wire jwt resolve_key auth_state s request token)
          (with_header_peek wire jwt resolve_key auth_state token request
            (app_qualified wire request)
            header_peek
            s).0
  unfolding with_header_peek unauthorized
  with_header_peek-Lets none request (some p) reads e =
      elim (Bool-cases
        (matches_peek auth_state.skip_token_validation p (app_qualified wire request))) [
          | inl listed ↦ rw listed (refl, listed_call p (in_headers e) listed)
          | inr unlisted ↦ rw unlisted tt
        ]
  with_header_peek-Lets none request none reads e = read_body-none request reads e
  with_header_peek-Lets (some token) request header_peek reads e =
      read_body-some token request (app_qualified wire request) header_peek reads e

  read_headers-Lets :
      (token : Option String) (request : Request)
      → ReadsBody wire
      → Lets
          (Passes wire jwt resolve_key auth_state s request token)
          (read_headers wire jwt resolve_key auth_state token request
            (app_qualified wire request)
            s).0
  unfolding read_headers with_enforced_headers unauthorized
  read_headers-Lets token request reads =
      elim (Bool-cases (standard_headers_enforced wire request)) [
        | inl enforced ↦
            elim (Bool-cases (is_none (from_headers wire request.headers) && is_none token)) [
              | inl unreadable ↦ rw (enforced, unreadable) tt
              | inr readable ↦
                  rw (enforced, readable)
                    (with_header_peek-Lets token request (from_headers wire request.headers) reads
                      (rw enforced refl))
            ]
        | inr not_enforced ↦
            rw not_enforced (with_header_peek-Lets token request none reads (rw not_enforced refl))
      ]

  header-Grant :
      (token : Option String) (request : Request)
      → (is_none token && matches_headers auth_state.skip_token_validation request.headers) ≡ true
      → Grant wire jwt resolve_key auth_state s request token none
  unfolding matches_headers
  header-Grant none request h = listed_header (
      (any_iff (λ name. is_some (lookup name request.headers))
          (λ name. is_some (lookup name request.headers) ≡ true) (λ name. (λ e. e, λ e. e))
          auth_state.skip_token_validation.headers).0
        h)
  header-Grant (some token) request h = absurd (ground arith)

  oauth_validate-Lets :
      (token : Option String) (request : Request)
      → ReadsBody wire
      → Lets
          (Passes wire jwt resolve_key auth_state s request token)
          (oauth_validate wire jwt resolve_key auth_state token request s).0
  unfolding oauth_validate
  oauth_validate-Lets token request reads =
      elim (Bool-cases (
        is_get request.method
        && (not auth_state.stateful_mode || uses_stateless_protocol wire request))) [
          | inl exempt ↦ rw exempt (refl, stateless_get (ground arith) (ground arith))
          | inr gated ↦
              elim (Bool-cases (
                is_none token
                && matches_headers auth_state.skip_token_validation request.headers)) [
                  | inl listed ↦ rw (gated, listed) (refl, header-Grant token request listed)
                  | inr unlisted ↦ rw (gated, unlisted) (read_headers-Lets token request reads)
                ]
        ]

  -- Whatever the middleware passes on goes on unchanged, its body included, and on one of four
  -- grounds: a GET that the transport serves statelessly; no token and a listed header; no token and a
  -- listed method or tool, as enforced headers or else the body of a POST name it; or a token that
  -- validates, has the global scopes, and covers an alternative of the tool that is called. Only the
  -- last puts a token into the request's extensions, and it is the validated one. (axum's body reader
  -- is assumed to return the bytes of the body.)
  pub oauth_validate-Passes :
      (token : Option String) (request r : Request) (extension : Option ValidToken)
      → ReadsBody wire
      → (oauth_validate wire jwt resolve_key auth_state token request s).0 ≡ forward r extension
      → (r ≡ request) × Grant wire jwt resolve_key auth_state s request token extension
  oauth_validate-Passes token request r extension reads h =
      rw h at (oauth_validate-Lets token request reads)
