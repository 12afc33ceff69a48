-- ===== src/Auth/Config/Startup.antt =====
-- What a successful start of the OAuth middleware guarantees (crates/apollo-mcp-server/src/auth.rs).
use apollo_mcp_server.Prelude.{
  ℕ, suc, ◌≡◌, ◌≢◌, refl, Bool, true, false, ◌||◌, some, List, [], ◌∷◌, String, Result, ok, err,
  is_empty, any, All, contains, contains_iff, IsIn, Bool-cases, arith, ◌==◌, eq_iff, inl, inr, ◌⊎◌,
  map,
}
use apollo_mcp_server.Auth.Scopes.{OperationRequiredScopes}
use apollo_mcp_server.Auth.SkipLists.{
  SkipTokenValidation, tool_call_method, resolves_one_of_many_methods, deserialize_skip_methods,
}
use apollo_mcp_server.Auth.Config.{
  Config, UrlLib, ConfigError, deprecated_anonymous_discovery_methods, AuthState,
  resolve_skip_token_validation, parse_server, parse_servers, enable_middleware,
}

-- A method name that says by itself what is run: neither `tools/call` nor one that resolves one of
-- many resources or prompts.
abbrev pub NamesOneThing : String → Type 0
NamesOneThing method = (method ≢ tool_call_method) × ¬ (IsIn method resolves_one_of_many_methods)

NamesOneThing-of_tests :
    (method : String)
    → (method == tool_call_method) ≡ false
    → contains resolves_one_of_many_methods method ≡ false
    → NamesOneThing method
NamesOneThing-of_tests method a b = (
  λ e. ground (arith, eq_iff method tool_call_method),
  λ i. ground (arith, (contains_iff resolves_one_of_many_methods method).1 i),
)

All-NamesOneThing :
    (methods : List String)
    → any (λ method. method == tool_call_method) methods ≡ false
    → any (λ method. contains resolves_one_of_many_methods method) methods ≡ false
    → All NamesOneThing methods
All-NamesOneThing [] a b = tt
All-NamesOneThing (method ∷ methods) a b = (
  NamesOneThing-of_tests method (or_left _ _ a) (or_left _ _ b),
  All-NamesOneThing methods (or_right _ _ a) (or_right _ _ b),
)
  where
    or_left : (x y : Bool) → (x || y) ≡ false → x ≡ false
    or_left x y h = ground arith

    or_right : (x y : Bool) → (x || y) ≡ false → y ≡ false
    or_right x y h = ground arith

pub deserialize_skip_methods-NamesOneThing :
    (raw methods : List String)
    → deserialize_skip_methods raw ≡ ok methods
    → All NamesOneThing methods
unfolding deserialize_skip_methods
deserialize_skip_methods-NamesOneThing raw methods h =
    elim (Bool-cases (any (λ method. method == tool_call_method) raw)) [
      | inl call ↦ absurd (ground arith)
      | inr no_call ↦
          elim (Bool-cases (any (λ method. contains resolves_one_of_many_methods method) raw)) [
            | inl many ↦ absurd (ground arith)
            | inr no_many ↦
                let same : methods ≡ raw = ground arith in
                rw same (All-NamesOneThing raw no_call no_many)
          ]
    ]

deprecated-NamesOneThing : All NamesOneThing deprecated_anonymous_discovery_methods
deprecated-NamesOneThing = All-NamesOneThing deprecated_anonymous_discovery_methods refl refl

resolve-NamesOneThing :
    {Url : Type 0} (config : Config Url) (skip : SkipTokenValidation)
    → All NamesOneThing config.skip_token_validation.methods
    → resolve_skip_token_validation config ≡ ok skip
    → All NamesOneThing skip.methods
unfolding resolve_skip_token_validation
resolve-NamesOneThing config skip h e = elim (Bool-cases config.allow_anonymous_mcp_discovery) [
  | inr off ↦ let same : skip ≡ config.skip_token_validation = ground arith in rw same h
  | inl on ↦ elim (Bool-cases (is_empty config.skip_token_validation.methods)) [
    | inr conflict ↦ absurd (ground arith)
    | inl room ↦
        let same : skip.methods ≡ deprecated_anonymous_discovery_methods = ground arith in
        rw same deprecated-NamesOneThing
  ]
]

module _ {Url : Type 0} (lib : UrlLib Url) where
  HasHost : Url → Type 0
  HasHost url = lib.has_host url ≡ true

  parse_server-ok :
      (i : ℕ) (server : String) (url : Url)
      → parse_server lib i server ≡ ok url
      → (lib.parse server ≡ some url) × (lib.has_host url ≡ true)
  unfolding parse_server
  parse_server-ok i server url h = (ground arith, ground arith)

  parse_servers-ok :
      (i : ℕ) (servers : List String) (urls : List Url)
      → parse_servers lib i servers ≡ ok urls
      → (map lib.parse servers ≡ map some urls) × All (λ url. lib.has_host url ≡ true) urls
  unfolding parse_servers
  parse_servers-ok i [] urls h = let same : urls ≡ [] = ground arith in rw same (refl, tt)
  parse_servers-ok i (server ∷ servers) urls h =
      step (parse_server lib i server) refl (parse_servers lib (suc i) servers) refl
        (parse_servers-ok (suc i) servers)
    where
      step :
          (first : Result Url ConfigError)
          → parse_server lib i server ≡ first
          → (rest : Result (List Url) ConfigError) → parse_servers lib (suc i) servers ≡ rest
          → ((more : List Url)
              → parse_servers lib (suc i) servers ≡ ok more
              → (map lib.parse servers ≡ map some more) × All (λ url. lib.has_host url ≡ true) more)
          → (map lib.parse (server ∷ servers) ≡ map some urls)
            × All (λ url. lib.has_host url ≡ true) urls
      step (err e) p rest q ih = absurd (ground arith)
      step (ok url) p (err e) q ih = absurd (ground arith)
      step (ok url) p (ok more) q ih =
          let same : urls ≡ url ∷ more = ground arith in
          let (parsed, hosts) = ih more q in
          let (here, host) = parse_server-ok i server url p in
          rw (same, here, parsed) (refl, (host, hosts))

  -- A middleware that starts has one server for each configured one, in order, each parsed from its
  -- text and with a host; its resource is an HTTP(S) URL; and no method of its skip list is
  -- `tools/call` or one that resolves one of many resources or prompts, if the configured list went
  -- through its parser.
  pub enable_middleware-ok :
      (raw : List String) (config : Config Url)
      (required_scopes : List (String × OperationRequiredScopes)) (stateful_mode : Bool)
      (state : AuthState Url)
      → deserialize_skip_methods raw ≡ ok config.skip_token_validation.methods
      → enable_middleware lib config required_scopes stateful_mode ≡ ok state
      → (map lib.parse config.servers ≡ map some state.auth_servers)
        × All (λ url. lib.has_host url ≡ true) state.auth_servers
        × ((lib.scheme config.resource ≡ "http") ⊎ (lib.scheme config.resource ≡ "https"))
        × All NamesOneThing state.skip_token_validation.methods
  unfolding enable_middleware
  enable_middleware-ok raw config required_scopes stateful_mode state listed h =
      step (parse_servers lib 0 config.servers) refl (resolve_skip_token_validation config) refl
    where
      step :
          (servers : Result (List Url) ConfigError)
          → parse_servers lib 0 config.servers ≡ servers
          → (resolved : Result SkipTokenValidation ConfigError)
          → resolve_skip_token_validation config ≡ resolved
          → (map lib.parse config.servers ≡ map some state.auth_servers)
            × All (λ url. lib.has_host url ≡ true) state.auth_servers
            × ((lib.scheme config.resource ≡ "http") ⊎ (lib.scheme config.resource ≡ "https"))
            × All NamesOneThing state.skip_token_validation.methods
      step (err e) p resolved q = absurd (ground arith)
      step (ok urls) p (err e) q = absurd (ground arith)
      step (ok urls) p (ok skip) q =
          let same : state.auth_servers ≡ urls = ground arith in
          let same_skip : state.skip_token_validation ≡ skip = ground arith in
          let (parsed, hosts) = parse_servers-ok 0 config.servers urls p in
          (
            rw same parsed,
            rw same hosts,
            ground (
              arith,
              eq_iff (lib.scheme config.resource) "http",
              eq_iff (lib.scheme config.resource) "https",
            ),
            rw same_skip (
                resolve-NamesOneThing config skip
                  (deserialize_skip_methods-NamesOneThing raw config.skip_token_validation.methods
                    listed)
                  q),
          )
