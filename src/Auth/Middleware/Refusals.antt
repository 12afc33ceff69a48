-- ===== src/Auth/Middleware/Refusals.antt =====
-- Requests with a token that `oauth_validate` of crates/apollo-mcp-server/src/auth.rs refuses.
use apollo_mcp_server.Prelude.{
  ℕ, ◌≡◌, ◌∙◌, ◌⊎◌, inl, inr, refl, Bool, true, false, lookup, eq_iff, not, ◌&&◌, ◌||◌, Option,
  none, some, List, String, Result, ok, err, is_empty, is_none, Bool-cases, Option-cases, arith,
}
use apollo_mcp_server.Auth.Scopes.{
  ScopeMode, require_all, mode_is_satisfied_by, OperationRequiredScopes, is_satisfied_by,
  challenge_scopes,
}
use apollo_mcp_server.Auth.Token.{Jwk, Jwt, ValidToken, validate}
use apollo_mcp_server.Auth.SkipLists.{
  Request, is_get, is_post, JsonRpcPeek, Wire, tool_call_method, peeked_name, from_headers,
  standard_headers_enforced, uses_stateless_protocol, extract_body,
}
use apollo_mcp_server.Auth.Config.{AuthState}
use apollo_mcp_server.Auth.Middleware.{
  Outcome, forward, respond, challenge, unauthorized, forbidden, missing_in,
  missing_scopes_for_operation, check_scopes, check_token, token_validator, authenticate, or_else,
  after_peek, after_body, read_body, with_header_peek, with_enforced_headers, read_headers,
  oauth_validate,
}
use apollo_mcp_server.Auth.Middleware.Access.{
  app_qualified, ReadsBody, trusted_peek, Asks, in_headers, in_body,
}
use apollo_mcp_server.Auth.Middleware.Stages.{extract_body-ok}

module _ {Url : Type 0} (wire : Wire) (auth_state : AuthState Url) (request : Request) where
  -- A token lacks the scopes that the configuration asks of every request.
  abbrev pub LacksGlobal : ValidToken → Type 0
  LacksGlobal valid =
      (is_empty auth_state.config.scopes ≡ false)
      × (mode_is_satisfied_by auth_state.config.scope_mode auth_state.config.scopes valid.scopes
          ≡ false)

  -- The request calls this tool, which requires scopes that the token does not have.
  pub record LacksFor (valid : ValidToken) (required : OperationRequiredScopes) : Type 0 where
    pub peek : JsonRpcPeek
    pub asks : Asks wire auth_state request peek
    pub is_call : peek.method ≡ tool_call_method
    pub tool : String
    pub named : peeked_name peek ≡ some tool
    pub requires : lookup tool auth_state.required_scopes ≡ some required
    pub lacking : is_satisfied_by required valid.scopes ≡ false

  -- A validated token lacks the global scopes, or those of the tool that the request calls.
  abbrev pub Lacks : ValidToken → Outcome Url → Type 0
  Lacks valid o =
      (LacksGlobal valid
        × (o ≡ forbidden auth_state auth_state.config.scopes auth_state.config.scope_mode))
      ⊎ ((required : OperationRequiredScopes) × LacksFor valid required
          × (o ≡ forbidden auth_state (challenge_scopes required) require_all))

  -- A refusal says why: 401 for a token that does not validate, 403 for one that does and lacks scopes.
  abbrev pub Refuses : Option ValidToken → Outcome Url → Type 0
  Refuses none o = o ≡ unauthorized auth_state
  Refuses (some valid) o = Lacks valid o

  abbrev pub IsExplained : Result JsonRpcPeek ℕ → Option ValidToken → Outcome Url → Type 0
  IsExplained body valid (forward r extension) = Unit
  IsExplained body valid (respond status) = body ≡ err status
  IsExplained body valid (challenge status header) = Refuses valid (challenge status header)

  -- The peek is what the request asks for.
  abbrev IsAsked : Option JsonRpcPeek → Type 0
  IsAsked peek = (p : JsonRpcPeek) → peek ≡ some p → Asks wire auth_state request p

  missing_scopes-LacksFor :
      (peek : JsonRpcPeek) (valid : ValidToken) (required : OperationRequiredScopes)
      → Asks wire auth_state request peek
      → missing_scopes_for_operation peek auth_state.required_scopes valid.scopes ≡ some required
      → LacksFor valid required
  unfolding missing_scopes_for_operation
  missing_scopes-LacksFor peek valid required asks h = elim (Option-cases (peeked_name peek)) [
    | inl nameless ↦ absurd (ground arith)
    | inr (tool, named) ↦ elim (Option-cases (lookup tool auth_state.required_scopes)) [
      | inl free ↦ absurd (ground arith)
      | inr (found, requires) ↦ record {
        peek = peek;
        asks = asks;
        is_call = ground (arith, eq_iff peek.method tool_call_method);
        tool = tool;
        named = named;
        requires = ground arith;
        lacking = ground arith;
      }
    ]
  ]

  missing-IsExplained :
      (peek : Option JsonRpcPeek) (valid : ValidToken) (required : OperationRequiredScopes)
      → IsAsked peek
      → missing_in auth_state peek valid.scopes ≡ some required
      → Lacks valid (forbidden auth_state (challenge_scopes required) require_all)
  unfolding missing_in
  missing-IsExplained none valid required asked h = absurd (ground arith)
  missing-IsExplained (some peek) valid required asked h =
      inr (required, missing_scopes-LacksFor peek valid required (asked peek refl) h, refl)

  of_forbidden :
      (body : Result JsonRpcPeek ℕ) (valid : ValidToken) (scopes : List String) (mode : ScopeMode)
      → Lacks valid (forbidden auth_state scopes mode)
      → IsExplained body (some valid) (forbidden auth_state scopes mode)
  unfolding forbidden
  of_forbidden body valid scopes mode h = h

  check_scopes-IsExplained :
      (body : Result JsonRpcPeek ℕ) (r : Request) (peek : Option JsonRpcPeek) (valid : ValidToken)
      → IsAsked peek
      → IsExplained body (some valid) (check_scopes auth_state r peek valid)
  unfolding check_scopes
  check_scopes-IsExplained body r peek valid asked =
      elim (Bool-cases (
        not (is_empty auth_state.config.scopes)
        && not (
            mode_is_satisfied_by auth_state.config.scope_mode auth_state.config.scopes
              valid.scopes))) [
                | inl lacking ↦ rw (lacking) (
                    of_forbidden body valid auth_state.config.scopes auth_state.config.scope_mode
                      (inl ((ground arith, ground arith), refl)))
                | inr global ↦ elim (Option-cases (missing_in auth_state peek valid.scopes)) [
                  | inl enough ↦ rw (global, enough) tt
                  | inr (required, missing) ↦
                      rw (global, missing)
                        (of_forbidden body valid (challenge_scopes required) require_all
                          (missing-IsExplained peek valid required asked missing))
                ]
              ]

  check_token-IsExplained :
      (body : Result JsonRpcPeek ℕ) (r : Request) (peek : Option JsonRpcPeek)
      (valid : Option ValidToken)
      → IsAsked peek
      → IsExplained body valid (check_token auth_state r peek valid)
  unfolding check_token unauthorized
  check_token-IsExplained body r peek none asked = refl
  check_token-IsExplained body r peek (some valid) asked =
      check_scopes-IsExplained body r peek valid asked

module _ {Url Key S : Type 0} (wire : Wire) (jwt : Jwt Key)
    (resolve_key : Url → String → S → Option (Jwk Key × String) × S) (auth_state : AuthState Url)
    (s : S) (token : String) where
  abbrev validated : Option ValidToken
  validated = (validate jwt (token_validator auth_state) resolve_key token s).0

  after_peek-IsExplained :
      (body : Result JsonRpcPeek ℕ) (request r : Request) (app : Bool)
      (header_peek body_peek : Option JsonRpcPeek)
      → IsAsked wire auth_state request (or_else header_peek body_peek)
      → IsExplained wire auth_state request body validated
          (after_peek wire jwt resolve_key auth_state (some token) r app header_peek body_peek s).0
  unfolding after_peek authenticate
  after_peek-IsExplained body request r app header_peek body_peek asked =
      check_token-IsExplained wire auth_state request body r (or_else header_peek body_peek)
        validated asked

  after_body-IsExplained :
      (request : Request) (app : Bool) (x : Result JsonRpcPeek ℕ × Request)
      → ReadsBody wire
      → extract_body wire request ≡ x
      → trusted_peek wire auth_state request ≡ none
      → is_post request.method ≡ true
      → IsExplained wire auth_state request x.0 validated
          (after_body wire jwt resolve_key auth_state (some token) app none x s).0
  unfolding after_body
  after_body-IsExplained request app (ok p, r) reads e untrusted posted =
      let (same, body) = extract_body-ok wire jwt resolve_key auth_state s request r p reads e in
      after_peek-IsExplained (ok p) request r app none (some p)
        (λ q here. in_body untrusted posted (let one : p ≡ q = ground arith in rw one at body))
  after_body-IsExplained request app (err status, r) reads e untrusted posted = refl

  with_header_peek-IsExplained :
      (request : Request) (app : Bool) (header_peek : Option JsonRpcPeek)
      → ReadsBody wire
      → trusted_peek wire auth_state request ≡ header_peek
      → IsExplained wire auth_state request
          (extract_body wire request).0
          validated
          (with_header_peek wire jwt resolve_key auth_state
            (some token)
            request
            app
            header_peek
            s).0
  unfolding with_header_peek read_body
  with_header_peek-IsExplained request app (some p) reads trusted =
      after_peek-IsExplained (extract_body wire request).0 request request app (some p) none
        (λ q here. in_headers (trusted ∙ here))
  with_header_peek-IsExplained request app none reads untrusted =
      elim (Bool-cases (is_post request.method && not (is_empty auth_state.required_scopes))) [
        | inl needed ↦ rw (needed) (
            after_body-IsExplained request app (extract_body wire request) reads refl untrusted
              (ground arith))
        | inr unneeded ↦ rw (unneeded) (
            after_peek-IsExplained (extract_body wire request).0 request request app none none
              (λ q here. absurd (ground arith)))
      ]

  read_headers-IsExplained :
      (request : Request) (app : Bool)
      → ReadsBody wire
      → IsExplained wire auth_state request
          (extract_body wire request).0
          validated
          (read_headers wire jwt resolve_key auth_state (some token) request app s).0
  unfolding read_headers with_enforced_headers
  read_headers-IsExplained request app reads =
      elim (Bool-cases (standard_headers_enforced wire request)) [
        | inl enforced ↦ elim (Bool-cases (is_none (from_headers wire request.headers) && false)) [
          | inl impossible ↦ absurd (ground arith)
          | inr readable ↦
              rw (enforced, readable)
                (with_header_peek-IsExplained request app (from_headers wire request.headers) reads
                  (rw enforced refl))
        ]
        | inr not_enforced ↦
            rw (not_enforced)
              (with_header_peek-IsExplained request app none reads (rw not_enforced refl))
      ]

  -- A request with a token is only refused for a reason that the answer tells: a status of the body if
  -- the body is too large or malformed, the 401 challenge if the token does not validate, and the 403
  -- challenge if it validates but lacks the global scopes, of which there are some, or all alternatives
  -- of the scopes of the tool that the request calls, in its enforced headers or its body. The 403
  -- challenge names the scopes that are required. (The body reader returns the bytes of the body.)
  pub oauth_validate-IsExplained :
      (request : Request)
      → ReadsBody wire
      → IsExplained wire auth_state request
          (extract_body wire request).0
          validated
          (oauth_validate wire jwt resolve_key auth_state (some token) request s).0
  unfolding oauth_validate
  oauth_validate-IsExplained request reads =
      elim (Bool-cases (
        is_get request.method
        && (not auth_state.stateful_mode || uses_stateless_protocol wire request))) [
          | inl exempt ↦ rw (exempt) tt
          | inr gated ↦
              rw (gated) (read_headers-IsExplained request (app_qualified wire request) reads)
        ]
