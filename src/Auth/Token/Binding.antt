-- ===== src/Auth/Token/Binding.antt =====
-- What jsonwebtoken's checks add to those of `TokenValidator::validate` in
-- crates/apollo-mcp-server/src/auth/valid_token.rs: the audience and the issuer of an accepted token.
use apollo_mcp_server.Prelude.{
  ◌≡◌, refl, true, false, Option, some, List, String, is_empty, Any, IsIn,
}
use apollo_mcp_server.Auth.Token.{
  Jwk, Validation, Claims, ValidToken, Jwt, TokenValidator, validation, validate,
}
use apollo_mcp_server.Auth.Token.Sound.{Verified, Vouched, Keeps, validate_sound}

-- What jsonwebtoken documents of `decode`: it refuses a token whose `aud` or `iss` claim is present
-- and outside the accepted values. A claim that is absent is not checked.
pub record ChecksClaims {Key : Type 0} (jwt : Jwt Key) : Type 0 where
  pub checks_audience :
      (token : String) (key : Key) (rules : Validation) (claims : Claims) (accepted : List String)
      → jwt.decode token key rules ≡ some claims
      → rules.validate_aud ≡ true
      → rules.aud ≡ some accepted
      → is_empty claims.aud ≡ false
      → Any (λ audience. IsIn audience accepted) claims.aud
  pub checks_issuer :
      (token : String) (key : Key) (rules : Validation) (claims : Claims) (accepted : List String)
      (issuer : String)
      → jwt.decode token key rules ≡ some claims
      → rules.iss ≡ some accepted
      → claims.iss ≡ some issuer
      → IsIn issuer accepted

module _ {Url Key : Type 0} (jwt : Jwt Key) (v : TokenValidator Url) where
  -- The token is meant for this server, and names an issuer that is allowed and is its signer's.
  pub record IsBound (jwk : Jwk Key) (issuer : String) (claims : Claims) : Type 0 where
    pub for_us :
        v.allow_any_audience ≡ false → Any (λ audience. IsIn audience v.audiences) claims.aud
    pub issued_by : is_empty v.issuers ≡ false → claims.iss ≡ some issuer
    pub allowed_issuer : is_empty v.issuers ≡ false → IsIn issuer v.issuers

  pub Verified-IsBound :
      {token : String} {valid : ValidToken} {jwk : Jwk Key} {issuer : String}
      → ChecksClaims jwt
      → (w : Verified jwt v token valid jwk issuer) → IsBound jwk issuer w.claims
  unfolding validation
  Verified-IsBound {token} {jwk} {issuer} laws w = record {
    for_us = λ strict.
        laws.checks_audience token jwk.decoding_key (validation v w.algorithm) w.claims v.audiences
          w.decoded (rw strict refl) (rw strict refl) (w.checked.has_audience strict);
    issued_by = w.checked.bound_issuer;
    allowed_issuer = λ listed.
        laws.checks_issuer token jwk.decoding_key (validation v w.algorithm) w.claims v.issuers
          issuer w.decoded (rw listed refl) (w.checked.bound_issuer listed);
  }

-- With jsonwebtoken's documented checks, every accepted token was verified by a key of a configured
-- server; unless any audience is allowed, it names an accepted audience; and if issuers are
-- configured, its `iss` claim is the issuer that this very server advertises, and is one of them.
pub validate-IsBound :
    {Url Key S : Type 0} (jwt : Jwt Key) (v : TokenValidator Url)
    (resolve_key : Url → String → S → Option (Jwk Key × String) × S) (Inv : S → Type 0)
    → ChecksClaims jwt
    → Keeps jwt v resolve_key Inv
    → (token : String) (s : S) (valid : ValidToken) → Inv s
    → (validate jwt v resolve_key token s).0 ≡ some valid
    → (key_id : String) × (w : Vouched jwt v resolve_key Inv token key_id v.servers valid) × IsBound
        jwt v w.jwk w.issuer w.verified.claims
validate-IsBound jwt v resolve_key Inv laws keeps token s valid inv h =
    let (key_id, has_kid, w) = validate_sound jwt v resolve_key Inv keeps token s valid inv h in
    (key_id, w, Verified-IsBound jwt v laws w.verified)
