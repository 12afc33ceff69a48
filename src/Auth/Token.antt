-- ===== src/Auth/Token.antt =====
-- Validation of bearer tokens: crates/apollo-mcp-server/src/auth/valid_token.rs.
-- The crates jsonwebtoken, jwks and url are parameters: the record `Jwt`, the types `Url` and `Key`.
pub mod Words
pub mod Sound
pub mod Binding
pub mod Tests
use apollo_mcp_server.Prelude.{
  Bool, true, false, not, ◌&&◌, Option, none, some, List, [], ◌∷◌, String, is_empty, ◌==◌,
  if◌then◌else◌,
}
use Words.{split_whitespace}

-- The algorithms of a key that the source names; it treats all others alike.
pub data KeyAlgorithm : Type 0 where
  hs256 hs384 hs512 es256 es384 rs256 rs384 rs512 ps256 ps384 ps512 ed_dsa : KeyAlgorithm
  unsupported : String → KeyAlgorithm

pub data Algorithm : Type 0 where
  hs256 hs384 hs512 es256 es384 rs256 rs384 rs512 ps256 ps384 ps512 ed_dsa : Algorithm

unfoldable pub jwt_algorithm : KeyAlgorithm → Option Algorithm
jwt_algorithm KeyAlgorithm.hs256 = some Algorithm.hs256
jwt_algorithm KeyAlgorithm.hs384 = some Algorithm.hs384
jwt_algorithm KeyAlgorithm.hs512 = some Algorithm.hs512
jwt_algorithm KeyAlgorithm.es256 = some Algorithm.es256
jwt_algorithm KeyAlgorithm.es384 = some Algorithm.es384
jwt_algorithm KeyAlgorithm.rs256 = some Algorithm.rs256
jwt_algorithm KeyAlgorithm.rs384 = some Algorithm.rs384
jwt_algorithm KeyAlgorithm.rs512 = some Algorithm.rs512
jwt_algorithm KeyAlgorithm.ps256 = some Algorithm.ps256
jwt_algorithm KeyAlgorithm.ps384 = some Algorithm.ps384
jwt_algorithm KeyAlgorithm.ps512 = some Algorithm.ps512
jwt_algorithm KeyAlgorithm.ed_dsa = some Algorithm.ed_dsa
jwt_algorithm (KeyAlgorithm.unsupported name) = none

pub record Jwk (Key : Type 0) : Type 0 where
  pub alg : Option KeyAlgorithm
  pub decoding_key : Key

-- What the source sets on jsonwebtoken's `Validation`; `none` is a check that is not set.
pub record Validation : Type 0 where
  pub algorithm : Algorithm
  pub validate_aud : Bool
  pub aud : Option (List String)
  pub iss : Option (List String)

pub data ScpClaim : Type 0 where
  array : List String → ScpClaim
  string : String → ScpClaim

pub record Claims : Type 0 where
  pub aud : List String
  pub iss : Option String
  pub sub : String
  pub scope : Option String
  pub scp : Option ScpClaim

unfoldable pub granted : Option String → Option ScpClaim → List String
granted (some s) scp = split_whitespace s
granted none (some (string s)) = split_whitespace s
granted none (some (array v)) = v
granted none none = []

-- `Claims::scopes`
unfoldable pub scopes : Claims → List String
unfolding granted
scopes c = granted c.scope c.scp

pub data Audience : Type 0 where
  single : String → Audience
  multiple : List String → Audience

-- `deserialize_audience`, after serde has read the untagged value.
unfoldable pub deserialize_audience : Option Audience → List String
deserialize_audience (some (single s)) = s ∷ []
deserialize_audience (some (multiple v)) = v
deserialize_audience none = []

-- A token with the scopes that its claims grant.
pub record ValidToken : Type 0 where
  pub token : String
  pub scopes : List String

-- The calls of jsonwebtoken: the `kid` of a decoded header, and the claims of a verified token.
pub record Jwt (Key : Type 0) : Type 0 where
  pub decode_header : String → Option (Option String)
  pub decode : String → Key → Validation → Option Claims

pub record TokenValidator (Url : Type 0) : Type 0 where
  pub audiences : List String
  pub issuers : List String
  pub allow_any_audience : Bool
  pub servers : List Url

-- One round of the loop over the servers: `continue`, `break`, or a return of the token.
pub data Attempt : Type 0 where
  skip stop : Attempt
  accept : ValidToken → Attempt

module _ {Url : Type 0} (v : TokenValidator Url) where
  unfoldable pub validation : Algorithm → Validation
  validation algorithm = record {
    algorithm = algorithm;
    validate_aud = not v.allow_any_audience;
    aud = if v.allow_any_audience then none else some v.audiences;
    iss = if is_empty v.issuers then none else some v.issuers;
  }

  unfoldable pub check_issuer : String → String → Claims → Option String → Attempt
  check_issuer token discovered_issuer claims none = stop
  check_issuer token discovered_issuer claims (some token_issuer) =
      if discovered_issuer == token_issuer
      then accept (record { token = token; scopes = scopes claims })
      else stop

  -- The checks after a successful `decode`.
  unfoldable pub check_claims : String → String → Claims → Attempt
  unfolding check_issuer
  check_claims token discovered_issuer claims =
      if not v.allow_any_audience && is_empty claims.aud
      then stop
      else if not (is_empty v.issuers)
      then check_issuer token discovered_issuer claims claims.iss
      else accept (record { token = token; scopes = scopes claims })

module _ {Url Key : Type 0} (jwt : Jwt Key) (v : TokenValidator Url) where
  unfoldable pub decode_with : String → Key → String → Algorithm → Attempt
  decode_with token key discovered_issuer algorithm =
      elim (jwt.decode token key (validation v algorithm)) [
        | none ↦ skip
        | some claims ↦ check_claims v token discovered_issuer claims
      ]

  -- The body of the loop, given what `resolve_key` returned.
  unfoldable pub attempt : String → Option (Jwk Key × String) → Attempt
  unfolding decode_with
  attempt token none = skip
  attempt token (some (jwk, discovered_issuer)) = elim jwk.alg [
    | none ↦ skip
    | some alg ↦ elim (jwt_algorithm alg) [
      | none ↦ skip
      | some algorithm ↦ decode_with token jwk.decoding_key discovered_issuer algorithm
    ]
  ]

-- What the loop does after a round.
unfoldable pub after_attempt :
    {S : Type 0} → Attempt → S → Option ValidToken × S → Option ValidToken × S
after_attempt skip s rest = rest
after_attempt stop s rest = (none, s)
after_attempt (accept valid) s rest = (some valid, s)

-- `resolve_key` reads and fills a cache, so it passes a state on.
module _ {Url Key S : Type 0} (jwt : Jwt Key) (v : TokenValidator Url)
    (resolve_key : Url → String → S → Option (Jwk Key × String) × S) where
  unfoldable pub try_servers : String → String → List Url → S → Option ValidToken × S
  unfolding after_attempt
  try_servers token key_id [] s = (none, s)
  try_servers token key_id (server ∷ servers) s =
      let (found, s') = resolve_key server key_id s in
      after_attempt (attempt jwt v token found) s' (try_servers token key_id servers s')

  unfoldable pub validate : String → S → Option ValidToken × S
  validate token s = elim (jwt.decode_header token) [
    | none ↦ (none, s)
    | some kid ↦ elim kid [ none ↦ (none, s) | some key_id ↦ try_servers token key_id v.servers s ]
  ]
