-- ===== src/Auth/EndToEnd.antt =====
-- The middleware of crates/apollo-mcp-server/src/auth.rs with the key resolver of
-- crates/apollo-mcp-server/src/auth/networked_key_resolver.rs: from discovery to the request that is let in.
mod Tests
use mathlib.Core.List.{Memᴰ}
use apollo_mcp_server.Prelude.{
  ℕ, ◌≡◌, refl, ◌∙◌, ap, sym, arith, false, true, Option, none, some, List, String, is_empty, Any,
  IsIn,
}
use apollo_mcp_server.Auth.Token.{
  KeyAlgorithm, Algorithm, jwt_algorithm, Jwk, Claims, ValidToken, Jwt, scopes, validation,
  validate,
}
use apollo_mcp_server.Auth.Token.Sound.{Keeps, validate_sound}
use apollo_mcp_server.Auth.Token.Binding.{ChecksClaims, Verified-IsBound}
use apollo_mcp_server.Auth.SkipLists.{Request, Wire}
use apollo_mcp_server.Auth.Config.{AuthState}
use apollo_mcp_server.Auth.Middleware.{forward, token_validator, oauth_validate}
use apollo_mcp_server.Auth.Middleware.Access.{
  ReadsBody, Grant, stateless_get, listed_header, listed_call, validated,
}
use apollo_mcp_server.Auth.Middleware.Safety.{oauth_validate-Passes}
use apollo_mcp_server.Auth.Keys.{
  Library, Timing, World, Reach, initial, issuer_matches, resolve_key,
}
use apollo_mcp_server.Auth.Keys.Answers.{Waits, resolve_key-issuer, resolve_key-Reach}

-- What is known of a token that has been let in.
pub record IsTrusted {Url Key : Type 0} (jwt : Jwt Key) (library : Library Url) (timing : Timing)
    (await : Url → World Url Key → World Url Key) (auth_state : AuthState Url) (now : ℕ)
    (token : Option String) (valid : ValidToken) : Type 0 where
  pub presented : token ≡ some valid.token
  -- The key that the token's header names, as a configured server resolves it.
  pub key_id : String
  pub names_key : jwt.decode_header valid.token ≡ some (some key_id)
  pub server : Url
  pub configured : Memᴰ server auth_state.auth_servers
  pub before : World Url Key
  pub reached : Reach library timing (initial now) before
  pub jwk : Jwk Key
  pub issuer : String
  pub resolved : (resolve_key library timing await server key_id before).0 ≡ some (jwk, issuer)
  pub same_url : issuer_matches library server issuer ≡ true
  -- The claims that this key verifies, with an algorithm that it allows.
  pub alg : KeyAlgorithm
  pub has_alg : jwk.alg ≡ some alg
  pub algorithm : Algorithm
  pub supported : jwt_algorithm alg ≡ some algorithm
  pub claims : Claims
  pub decoded :
      jwt.decode valid.token jwk.decoding_key (validation (token_validator auth_state) algorithm)
      ≡ some claims
  pub granted : valid.scopes ≡ scopes claims
  pub for_us :
      auth_state.config.allow_any_audience ≡ false
      → Any (λ audience. IsIn audience auth_state.config.audiences) claims.aud
  pub issued_by : is_empty auth_state.config.issuers ≡ false → claims.iss ≡ some issuer
  pub allowed : is_empty auth_state.config.issuers ≡ false → IsIn issuer auth_state.config.issuers

module _ {Url Key : Type 0} (wire : Wire) (jwt : Jwt Key) (library : Library Url) (timing : Timing)
    (await : Url → World Url Key → World Url Key) (auth_state : AuthState Url) where
  IsTrusted-of_valid :
      (now : ℕ) (w : World Url Key) (token : String) (valid : ValidToken)
      → ChecksClaims jwt
      → Waits library timing await
      → Reach library timing (initial now) w
      → (validate jwt (token_validator auth_state) (resolve_key library timing await) token w).0
        ≡ some valid
      → IsTrusted jwt library timing await auth_state now (some token) valid
  IsTrusted-of_valid now w token valid laws waits reached h =
      let keeps : Keeps jwt (token_validator auth_state) (resolve_key library timing await)
          (Reach library timing (initial now)) =
        λ server key_id s inv.
          resolve_key-Reach library timing await (initial now) s server key_id waits inv in
      let (key_id, names_key, v) =
        validate_sound jwt (token_validator auth_state) (resolve_key library timing await)
          (Reach library timing (initial now)) keeps token w valid reached h in
      let bound = Verified-IsBound jwt (token_validator auth_state) laws v.verified in
      let same = v.verified.checked.same_token in
      record {
        presented = ap some (sym same);
        key_id = key_id;
        names_key = ap jwt.decode_header same ∙ names_key;
        server = v.server;
        configured = v.listed;
        before = v.before;
        reached = v.kept;
        jwk = v.jwk;
        issuer = v.issuer;
        resolved = v.resolved;
        same_url =
            resolve_key-issuer library timing await now v.before v.server key_id v.jwk v.issuer
              waits v.kept v.resolved;
        alg = v.verified.alg;
        has_alg = v.verified.has_alg;
        algorithm = v.verified.algorithm;
        supported = v.verified.supported;
        claims = v.verified.claims;
        decoded =
            ap
              (λ t.
                jwt.decode t v.jwk.decoding_key
                  (validation (token_validator auth_state) v.verified.algorithm))
              same
            ∙ v.verified.decoded;
        granted = v.verified.checked.granted;
        for_us = bound.for_us;
        issued_by = bound.issued_by;
        allowed = bound.allowed_issuer;
      }

  of_Grant :
      (now : ℕ) (w : World Url Key) (token : Option String) (request : Request)
      (extension : Option ValidToken) (valid : ValidToken)
      → ChecksClaims jwt
      → Waits library timing await
      → Reach library timing (initial now) w
      → extension ≡ some valid
      → Grant wire jwt (resolve_key library timing await) auth_state w request token extension
      → IsTrusted jwt library timing await auth_state now token valid
  of_Grant now w token request extension valid laws waits reached e (stateless_get get mode) =
      absurd (ground arith)
  of_Grant now w token request extension valid laws waits reached e (listed_header found) =
      absurd (ground arith)
  of_Grant now w token request extension valid laws waits reached e
        (listed_call peek asks matches) =
      absurd (ground arith)
  of_Grant now w token request extension valid laws waits reached e
        (validated presented accepted checked global calls) =
      let same : accepted ≡ valid = ground arith in
      IsTrusted-of_valid now w presented valid laws waits reached (rw (same) at checked)

  -- With the networked key resolver, in any state that its tasks can reach: when a request is let in with
  -- a validated token, it is the one that the request presents. At a configured authorization server, in
  -- a state that the tasks can reach, the resolver answered the key id of the token's header with a key
  -- and an issuer whose URL is that server's up to query and fragment. This key, with the algorithm that
  -- it names, decodes the token to claims; these name an accepted audience, unless any is allowed; and if
  -- issuers are configured, their `iss` is that very issuer and one of them. The scopes passed on are
  -- those of the claims. (jsonwebtoken and the body reader are assumed to do what they document.)
  pub oauth_validate-IsTrusted :
      (now : ℕ) (w : World Url Key) (token : Option String) (request r : Request)
      (valid : ValidToken)
      → ReadsBody wire
      → ChecksClaims jwt
      → Waits library timing await
      → Reach library timing (initial now) w
      → (oauth_validate wire jwt (resolve_key library timing await) auth_state token request w).0
        ≡ forward r (some valid)
      → IsTrusted jwt library timing await auth_state now token valid
  oauth_validate-IsTrusted now w token request r valid reads laws waits reached h =
      let (same, grant) =
        oauth_validate-Passes wire jwt (resolve_key library timing await) auth_state w token request
          r (some valid) reads h in
      of_Grant now w token request (some valid) valid laws waits reached refl grant
