-- ===== src/Auth/Token/Tests.antt =====
-- Tests of the token validation, and the theorems at concrete inputs.
use apollo_mcp_server.Prelude.{
  ℕ, suc, nat_eq, ◌≡◌, refl, Bool, true, false, not, ◌&&◌, ◌||◌, Option, none, some, List, [], ◌∷◌,
  String, is_empty, any, contains, contains_iff, arith, ◌==◌, if◌then◌else◌, inl,
}
use apollo_mcp_server.Auth.Token.{
  KeyAlgorithm, Jwk, Validation, Claims, scopes, ValidToken, Jwt, TokenValidator, validation,
  check_claims, attempt, try_servers, validate, jwt_algorithm,
}
use apollo_mcp_server.Auth.Token.Words.{split_whitespace}
use apollo_mcp_server.Auth.Token.Sound.{Vouched}
use apollo_mcp_server.Auth.Token.Binding.{ChecksClaims, IsBound, validate-IsBound}

abbrev pub claims_of_ann : Claims
claims_of_ann = record {
  aud = "mcp" ∷ [];
  iss = some "https://a/";
  sub = "ann";
  scope = some "read write";
  scp = none;
}

-- A library that knows one token, and applies the checks that it is asked for.
abbrev pub audience_ok : Validation → Claims → Bool
audience_ok rules c = elim rules.aud [
  | none ↦ true
  | some accepted ↦
      not rules.validate_aud || is_empty c.aud || any (λ audience. contains accepted audience) c.aud
]

abbrev pub issuer_ok : Validation → Claims → Bool
issuer_ok rules c = elim rules.iss [
  | none ↦ true
  | some accepted ↦ elim c.iss [ none ↦ true | some issuer ↦ contains accepted issuer ]
]

abbrev pub toy_decode : String → String → Validation → Option Claims
toy_decode token key rules =
    if token == "t1"
      && key == "k1"
      && audience_ok rules claims_of_ann
      && issuer_ok rules claims_of_ann
    then some claims_of_ann
    else none

abbrev pub toy : Jwt String
toy = record {
  decode_header = λ token. if token == "t1" then some (some "kid1") else none;
  decode = toy_decode;
}

if_some :
    (b : Bool) (c claims : Claims)
    → (if b then some c else none) ≡ some claims
    → (b ≡ true) × (claims ≡ c)
if_some true c claims h = (refl, ground arith)
if_some false c claims h = absurd (ground arith)

four_true : (a b c d : Bool) → (a && b && c && d) ≡ true → (c ≡ true) × (d ≡ true)
four_true a b c d h = ground arith

decoded_claims :
    (token key : String) (rules : Validation) (claims : Claims)
    → toy_decode token key rules ≡ some claims
    → (claims ≡ claims_of_ann)
      × (audience_ok rules claims_of_ann ≡ true)
      × (issuer_ok rules claims_of_ann ≡ true)
decoded_claims token key rules claims h =
    let (passed, same) = if_some _ claims_of_ann claims h in
    let (audience, issuer) = four_true (token == "t1") (key == "k1") _ _ passed in
    (same, audience, issuer)

audience_accepted :
    (rules : Validation) (accepted : List String)
    → audience_ok rules claims_of_ann ≡ true
    → rules.validate_aud ≡ true
    → rules.aud ≡ some accepted
    → contains accepted "mcp" ≡ true
audience_accepted rules accepted h strict auds = ground arith

issuer_accepted :
    (rules : Validation) (accepted : List String)
    → issuer_ok rules claims_of_ann ≡ true
    → rules.iss ≡ some accepted
    → contains accepted "https://a/" ≡ true
issuer_accepted rules accepted h listed = ground arith

pub toy-ChecksClaims : ChecksClaims toy
toy-ChecksClaims = record {
  checks_audience = λ token key rules claims accepted h strict auds present.
      let (same, audience, issuer) = decoded_claims token key rules claims h in
      rw same (
        inl (
          (contains_iff accepted "mcp").0 (audience_accepted rules accepted audience strict auds)));
  checks_issuer = λ token key rules claims accepted named h listed present.
      let (same, audience, issuer) = decoded_claims token key rules claims h in
      let is_a : named ≡ "https://a/" = ground arith in
      rw is_a
        ((contains_iff accepted "https://a/").0 (issuer_accepted rules accepted issuer listed));
}

abbrev validator : TokenValidator ℕ
validator = record {
  audiences = "other" ∷ "mcp" ∷ [];
  issuers = "https://a/" ∷ [];
  allow_any_audience = false;
  servers = 1 ∷ 2 ∷ [];
}

-- Server 2 has the key; the state counts the calls.
abbrev resolver : ℕ → String → ℕ → Option (Jwk String × String) × ℕ
resolver server key_id calls =
    if nat_eq server 2 && key_id == "kid1"
    then (
      some (record { alg = some KeyAlgorithm.rs256; decoding_key = "k1" }, "https://a/"),
      suc calls,
    )
    else (none, suc calls)

abbrev pub ann_token : ValidToken
ann_token = record { token = "t1"; scopes = "read" ∷ "write" ∷ [] }

accepts : validate toy validator resolver "t1" 0 ≡ (some ann_token, 2)
unfolding validate try_servers attempt check_claims validation jwt_algorithm scopes split_whitespace
accepts = refl

refuses :
    validate toy (record validator { issuers = "https://b/" ∷ [] }) resolver "t1" 0 ≡ (none, 2)
unfolding validate try_servers attempt check_claims validation jwt_algorithm scopes split_whitespace
refuses = refl

validate-IsBound_example :
    (key_id : String) × (w : Vouched toy validator resolver
      (λ calls. Unit)
      "t1"
      key_id
      validator.servers
      ann_token)
    × IsBound toy validator w.jwk w.issuer w.verified.claims
validate-IsBound_example =
    validate-IsBound toy validator resolver (λ calls. Unit) toy-ChecksClaims
      (λ server key_id calls inv. tt) "t1" 0 ann_token tt (rw accepts refl)
