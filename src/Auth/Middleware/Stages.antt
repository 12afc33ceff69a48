-- ===== src/Auth/Middleware/Stages.antt =====
-- The stages of `oauth_validate` in crates/apollo-mcp-server/src/auth.rs, from the last to the first:
-- each lets a request through only on one of the grounds of `Grant`.
use apollo_mcp_server.Prelude.{
  ℕ, ◌≡◌, ◌⊎◌, inl, inr, refl, ◌∙◌, Bool, true, ◌&&◌, Option, none, some, String, Result, ok, err,
  is_empty, lookup, Bool-cases, Option-cases, arith, and-eq-true_iff,
}
use apollo_mcp_server.Auth.Token.{Jwk, ValidToken, Jwt, validate}
use apollo_mcp_server.Auth.SkipLists.{
  Request, is_post, JsonRpcPeek, Wire, needs_body, matches_peek, peek_body_limit, extract_body,
}
use apollo_mcp_server.Auth.Config.{AuthState}
use apollo_mcp_server.Auth.Middleware.{
  Outcome, forward, respond, challenge, or_else, unauthorized, check_scopes, check_token,
  token_validator, authenticate, matches_some, after_peek, after_body,
}
use apollo_mcp_server.Auth.Middleware.Access.{
  app_qualified, Lets, ReadsBody, BodyPeek, trusted_peek, Asks, in_headers, in_body, MayCall,
  check_scopes-Lets, Grant, listed_call, validated, Passes,
}

Lets-map :
    {Url : Type 0} {P Q : Request → Option ValidToken → Type 0}
    → ((r : Request) (e : Option ValidToken) → P r e → Q r e)
    → (o : Outcome Url) → Lets P o
    → Lets Q o
Lets-map f (forward r e) h = f r e h
Lets-map f (respond status) h = tt
Lets-map f (challenge status header) h = tt

module _ {Url Key S : Type 0} (wire : Wire) (jwt : Jwt Key)
    (resolve_key : Url → String → S → Option (Jwk Key × String) × S) (auth_state : AuthState Url)
    (s : S) where
  -- The peek that the scope checks see is what the request asks for, unless no tool has a requirement.
  abbrev pub Sees : Request → Option JsonRpcPeek → Type 0
  Sees request peek =
      (p : JsonRpcPeek)
      → Asks wire auth_state request p
      → (peek ≡ some p) ⊎ (is_empty auth_state.required_scopes ≡ true)

  MayCall-of_empty :
      (valid : ValidToken) (p : JsonRpcPeek)
      → is_empty auth_state.required_scopes ≡ true
      → MayCall wire auth_state valid p
  unfolding lookup
  MayCall-of_empty valid p h tool required is_call named entry = absurd (ground arith)

  Sees-MayCall :
      (request : Request) (peek : Option JsonRpcPeek) (valid : ValidToken)
      → Sees request peek
      → ((p : JsonRpcPeek) → peek ≡ some p → MayCall wire auth_state valid p)
      → (p : JsonRpcPeek) → Asks wire auth_state request p
      → MayCall wire auth_state valid p
  Sees-MayCall request peek valid sees may p asks = elim (sees p asks) [
    | inl seen ↦ may p seen
    | inr no_requirement ↦ MayCall-of_empty valid p no_requirement
  ]

  authenticate-some :
      (token : String) (request r : Request) (peek : Option JsonRpcPeek)
      → r ≡ request
      → Sees request peek
      → Lets
          (Passes wire jwt resolve_key auth_state s request (some token))
          (authenticate wire jwt resolve_key auth_state (some token) r peek s).0
  unfolding authenticate unauthorized
  authenticate-some token request r peek same sees =
      elim (Option-cases ((validate jwt (token_validator auth_state) resolve_key token s).0)) [
        | inl refused ↦ rw (refused, check_token) tt
        | inr (valid, passed) ↦
            rw (passed, check_token)
              (Lets-map
                (λ r' e h. (
                  h.0 ∙ same,
                  rw h.1
                      (validated token valid passed h.2 (Sees-MayCall request peek valid sees h.3)),
                ))
                (check_scopes auth_state r peek valid)
                (check_scopes-Lets wire auth_state r peek valid))
      ]

  authenticate-none :
      (request r : Request) (peek : Option JsonRpcPeek)
      → Lets
          (Passes wire jwt resolve_key auth_state s request none)
          (authenticate wire jwt resolve_key auth_state none r peek s).0
  unfolding authenticate unauthorized
  authenticate-none request r peek = tt

  pub after_peek-some :
      (token : String) (request r : Request) (app : Bool)
      (header_peek body_peek : Option JsonRpcPeek)
      → r ≡ request
      → Sees request (or_else header_peek body_peek)
      → Lets
          (Passes wire jwt resolve_key auth_state s request (some token))
          (after_peek wire jwt resolve_key auth_state (some token) r app header_peek body_peek s).0
  unfolding after_peek
  after_peek-some token request r app header_peek body_peek same sees =
      authenticate-some token request r (or_else header_peek body_peek) same sees

  matches_some_peek :
      (peek : Option JsonRpcPeek) (app : Bool)
      → matches_some wire jwt resolve_key auth_state peek app ≡ true
      → (p : JsonRpcPeek) × (peek ≡ some p)
        × (matches_peek auth_state.skip_token_validation p app ≡ true)
  unfolding matches_some
  matches_some_peek none app h = absurd (ground arith)
  matches_some_peek (some p) app h = (p, refl, h)

  pub after_peek-none :
      (request r : Request) (app : Bool) (header_peek body_peek : Option JsonRpcPeek)
      → r ≡ request
      → ((p : JsonRpcPeek)
          → body_peek ≡ some p
          → matches_peek auth_state.skip_token_validation p app ≡ true
          → Grant wire jwt resolve_key auth_state s request none none)
      → Lets
          (Passes wire jwt resolve_key auth_state s request none)
          (after_peek wire jwt resolve_key auth_state none r app header_peek body_peek s).0
  unfolding after_peek
  after_peek-none request r app header_peek body_peek same grant =
      elim (Bool-cases (
        needs_body auth_state.skip_token_validation
        && matches_some wire jwt resolve_key auth_state body_peek app)) [
          | inl listed ↦
              let (needed, matched) = (and-eq-true_iff _ _).0 listed in
              let (p, here, found) = matches_some_peek body_peek app matched in
              rw listed (same, grant p here found)
          | inr unlisted ↦ rw unlisted (authenticate-none request r (or_else header_peek body_peek))
        ]

  -- A body that was read and parsed is put back as it was.
  pub extract_body-ok :
      (request r : Request) (p : JsonRpcPeek)
      → ReadsBody wire
      → extract_body wire request ≡ (ok p, r)
      → (r ≡ request) × BodyPeek wire auth_state request p
  unfolding extract_body
  extract_body-ok request r p reads h =
      elim (Option-cases (wire.to_bytes request.body peek_body_limit)) [
        | inl unread ↦ absurd (ground arith)
        | inr (bytes, got) ↦
            let same : bytes ≡ request.body = reads request.body peek_body_limit bytes got in
            elim (Option-cases (wire.from_slice bytes)) [
              | inl unparsed ↦ absurd (ground arith)
              | inr (q, parsed) ↦ (ground arith, (ground arith, ground arith))
            ]
      ]

  extract_body-BodyPeek :
      (request : Request) (p : JsonRpcPeek)
      → BodyPeek wire auth_state request p
      → (extract_body wire request).0 ≡ ok p
  unfolding extract_body
  extract_body-BodyPeek request p h = ground arith

  pub after_body-some :
      (token : String) (request : Request) (app : Bool) (x : Result JsonRpcPeek ℕ × Request)
      → ReadsBody wire
      → extract_body wire request ≡ x
      → trusted_peek wire auth_state request ≡ none
      → Lets
          (Passes wire jwt resolve_key auth_state s request (some token))
          (after_body wire jwt resolve_key auth_state (some token) app none x s).0
  unfolding after_body
  after_body-some token request app (err status, r) reads e untrusted = tt
  after_body-some token request app (ok p, r) reads e untrusted =
      let (same, body) = extract_body-ok request r p reads e in
      after_peek-some token request r app none (some p) same (λ q asks. inl (body_asked q asks))
    where
      body_asked : (q : JsonRpcPeek) → Asks wire auth_state request q → some p ≡ some q
      body_asked q (in_headers h) = absurd (ground arith)
      body_asked q (in_body h is_post body) =
          let first : (extract_body wire request).0 ≡ ok p = rw e refl in
          let second : (extract_body wire request).0 ≡ ok q =
            extract_body-BodyPeek request q body in
          ground arith

  after_peek_unread :
      (request r : Request) (app : Bool)
      → Lets
          (Passes wire jwt resolve_key auth_state s request none)
          (after_peek wire jwt resolve_key auth_state none r app none none s).0
  unfolding after_peek matches_some authenticate unauthorized
  after_peek_unread request r app =
      elim (Bool-cases (needs_body auth_state.skip_token_validation)) [
        | inl needed ↦ rw needed tt
        | inr unneeded ↦ rw unneeded tt
      ]

  pub after_body-none :
      (request : Request) (x : Result JsonRpcPeek ℕ × Request)
      → ReadsBody wire
      → extract_body wire request ≡ x
      → trusted_peek wire auth_state request ≡ none
      → is_post request.method ≡ true
      → Lets
          (Passes wire jwt resolve_key auth_state s request none)
          (after_body wire jwt resolve_key auth_state none (app_qualified wire request) none x s).0
  unfolding after_body
  after_body-none request (err status, r) reads e untrusted posted =
      after_peek_unread request r (app_qualified wire request)
  after_body-none request (ok p, r) reads e untrusted posted =
      let (same, body) = extract_body-ok request r p reads e in
      after_peek-none request r (app_qualified wire request) none (some p) same (λ q here found.
        listed_call q (in_body untrusted posted (let one : p ≡ q = ground arith in rw one at body))
          found)
