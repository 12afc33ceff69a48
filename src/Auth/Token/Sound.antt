-- ===== src/Auth/Token/Sound.antt =====
-- What a validated token guarantees: the loop of `TokenValidator::validate` in
-- crates/apollo-mcp-server/src/auth/valid_token.rs.
use mathlib.Core.List.{Memᴰ}
use apollo_mcp_server.Prelude.{
  ◌≡◌, refl, false, Option, none, some, List, [], ◌∷◌, String, is_empty, Option-cases, ◌⊎◌, inl,
  inr, arith, eq_iff,
}
use apollo_mcp_server.Auth.Token.{
  KeyAlgorithm, Algorithm, jwt_algorithm, Jwk, Claims, scopes, ValidToken, Jwt, TokenValidator,
  Attempt, skip, stop, accept, validation, check_issuer, check_claims, attempt, after_attempt,
  try_servers, validate,
}

module _ {Url : Type 0} (v : TokenValidator Url) where
  -- The claims that the source checks itself after `decode`.
  pub record Checked (token issuer : String) (claims : Claims) (valid : ValidToken) : Type 0 where
    pub same_token : valid.token ≡ token
    pub granted : valid.scopes ≡ scopes claims
    pub has_audience : v.allow_any_audience ≡ false → is_empty claims.aud ≡ false
    pub bound_issuer : is_empty v.issuers ≡ false → claims.iss ≡ some issuer

  check_issuer_sound :
      (token issuer : String) (claims : Claims) (iss : Option String) (valid : ValidToken)
      → check_issuer v token issuer claims iss ≡ accept valid
      → (iss ≡ some issuer) × (valid ≡ record { token = token; scopes = scopes claims })
  unfolding check_issuer
  check_issuer_sound token issuer claims none valid h = absurd (ground arith)
  check_issuer_sound token issuer claims (some i) valid h =
      (ground (arith, eq_iff issuer i), ground arith)

  check_claims_sound :
      (token issuer : String) (claims : Claims) (valid : ValidToken)
      → check_claims v token issuer claims ≡ accept valid
      → Checked token issuer claims valid
  unfolding check_claims
  check_claims_sound token issuer claims valid h = record {
    same_token = ground (arith, check_issuer_sound token issuer claims claims.iss valid);
    granted = ground (arith, check_issuer_sound token issuer claims claims.iss valid);
    has_audience = λ any. ground arith;
    bound_issuer =
        λ some_issuer. ground (arith, check_issuer_sound token issuer claims claims.iss valid);
  }

module _ {Url Key : Type 0} (jwt : Jwt Key) (v : TokenValidator Url) where
  -- A key of a supported algorithm verified the token, and its claims pass the checks.
  pub record Verified (token : String) (valid : ValidToken) (jwk : Jwk Key) (issuer : String)
      : Type 0 where
    pub alg : KeyAlgorithm
    pub has_alg : jwk.alg ≡ some alg
    pub algorithm : Algorithm
    pub supported : jwt_algorithm alg ≡ some algorithm
    pub claims : Claims
    pub decoded : jwt.decode token jwk.decoding_key (validation v algorithm) ≡ some claims
    pub checked : Checked v token issuer claims valid

  attempt_sound :
      (token issuer : String) (jwk : Jwk Key) (valid : ValidToken)
      → attempt jwt v token (some (jwk, issuer)) ≡ accept valid
      → Verified token valid jwk issuer
  unfolding attempt
  attempt_sound token issuer jwk valid h = elim (Option-cases jwk.alg) [
    | inl missing ↦ absurd (ground arith)
    | inr (alg, has_alg) ↦ elim (Option-cases (jwt_algorithm alg)) [
      | inl unknown ↦ absurd (ground arith)
      | inr (algorithm, supported) ↦
          elim (Option-cases (jwt.decode token jwk.decoding_key (validation v algorithm))) [
            | inl refused ↦ absurd (ground arith)
            | inr (claims, decoded) ↦ record {
              alg = alg;
              has_alg = has_alg;
              algorithm = algorithm;
              supported = supported;
              claims = claims;
              decoded = decoded;
              checked = check_claims_sound v token issuer claims valid (ground arith);
            }
          ]
    ]
  ]

module _ {Url Key S : Type 0} (jwt : Jwt Key) (v : TokenValidator Url)
    (resolve_key : Url → String → S → Option (Jwk Key × String) × S) (Inv : S → Type 0) where
  -- Some server of the list resolved the token's key id, in a state that satisfies the invariant, to a
  -- key that verified it.
  pub record Vouched (token key_id : String) (servers : List Url) (valid : ValidToken)
      : Type 0 where
    pub server : Url
    pub listed : Memᴰ server servers
    pub before : S
    pub kept : Inv before
    pub jwk : Jwk Key
    pub issuer : String
    pub resolved : (resolve_key server key_id before).0 ≡ some (jwk, issuer)
    pub verified : Verified jwt v token valid jwk issuer

  Vouched-cons :
      {token key_id : String} {first : Url} {servers : List Url} {valid : ValidToken}
      → Vouched token key_id servers valid
      → Vouched token key_id (first ∷ servers) valid
  Vouched-cons w = record {
    server = w.server;
    listed = Memᴰ.tail w.listed;
    before = w.before;
    kept = w.kept;
    jwk = w.jwk;
    issuer = w.issuer;
    resolved = w.resolved;
    verified = w.verified;
  }

  accepted_round :
      (token key_id : String) (server : Url) (servers : List Url) (s : S) (valid : ValidToken)
      (found : Option (Jwk Key × String))
      → Inv s
      → (resolve_key server key_id s).0 ≡ found
      → attempt jwt v token found ≡ accept valid
      → Vouched token key_id (server ∷ servers) valid
  accepted_round token key_id server servers s valid none inv e h =
      absurd (unfold attempt in ground arith)
  accepted_round token key_id server servers s valid (some (jwk, issuer)) inv e h = record {
    server = server;
    listed = Memᴰ.head refl;
    before = s;
    kept = inv;
    jwk = jwk;
    issuer = issuer;
    resolved = e;
    verified = attempt_sound jwt v token issuer jwk valid h;
  }

  after_attempt-some :
      (a : Attempt) (s : S) (rest : Option ValidToken × S) (valid : ValidToken)
      → (after_attempt a s rest).0 ≡ some valid
      → (a ≡ accept valid) ⊎ (rest.0 ≡ some valid)
  unfolding after_attempt
  after_attempt-some skip s rest valid h = inr h
  after_attempt-some stop s rest valid h = absurd (ground arith)
  after_attempt-some (accept a) s rest valid h = inl (ground arith)

  -- Every call of the resolver keeps the invariant.
  abbrev pub Keeps : Type 0
  Keeps = (server : Url) (key_id : String) (s : S) → Inv s → Inv (resolve_key server key_id s).1

  try_servers_sound :
      Keeps
      → (token key_id : String) (servers : List Url) (s : S) (valid : ValidToken) → Inv s
      → (try_servers jwt v resolve_key token key_id servers s).0 ≡ some valid
      → Vouched token key_id servers valid
  unfolding try_servers
  try_servers_sound keeps token key_id [] s valid inv h = absurd (ground arith)
  try_servers_sound keeps token key_id (server ∷ servers) s valid inv h =
      let (found, s') = resolve_key server key_id s in
      elim (after_attempt-some (attempt jwt v token found) s'
        (try_servers jwt v resolve_key token key_id servers s') valid h) [
          | inl here ↦ accepted_round token key_id server servers s valid found inv refl here
          | inr later ↦ Vouched-cons (
              try_servers_sound keeps token key_id servers s' valid (keeps server key_id s inv)
                later)
        ]

  -- A token is accepted only if a configured server resolved the key id of its header to a key of a
  -- supported algorithm that verified it, and its claims pass the audience and issuer checks; the
  -- result carries the scopes of those claims. An invariant of the resolver's state that every
  -- call keeps holds when that server is asked.
  pub validate_sound :
      Keeps
      → (token : String) (s : S) (valid : ValidToken) → Inv s
      → (validate jwt v resolve_key token s).0 ≡ some valid
      → (key_id : String) × (jwt.decode_header token ≡ some (some key_id))
        × Vouched token key_id v.servers valid
  unfolding validate
  validate_sound keeps token s valid inv h = elim (Option-cases (jwt.decode_header token)) [
    | inl malformed ↦ absurd (ground arith)
    | inr (none, no_kid) ↦ absurd (ground arith)
    | inr (some key_id, has_kid) ↦
        (key_id, has_kid, try_servers_sound keeps token key_id v.servers s valid inv (ground arith))
  ]
