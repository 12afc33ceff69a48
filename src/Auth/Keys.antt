-- ===== src/Auth/Keys.antt =====
-- The cache of signing keys and the fetches that fill it:
-- crates/apollo-mcp-server/src/auth/networked_key_resolver.rs. A time is a number of nanoseconds since
-- the start. The HTTP client and the parsers of URLs and algorithm names are the records
-- `Library` and `Replies`.
pub mod Schedule
pub mod Answers
pub mod Outage
mod Tests
use apollo_mcp_server.Prelude.{
  ℕ, ◌+◌, ◌-◌, ◌≡◌, ◌&&◌, is_some, Bool, true, false, not, Option, none, some, List, [], ◌∷◌,
  String, KeyEq, find, discard, assign, lookup, is_none, ltb, if◌then◌else◌,
}
use apollo_mcp_server.Auth.Token.{KeyAlgorithm, Jwk}

-- The part of the discovery document that the source reads.
pub record DiscoveryMetadata : Type 0 where
  pub issuer : String
  pub jwks_uri : String
  pub id_token_signing_alg_values_supported : List String

pub record Library (Url : Type 0) : Type 0 where
  pub urls : KeyEq Url
  -- `Url::parse`, and the removal of the query and the fragment
  pub parse : String → Option Url
  pub strip : Url → Url
  -- `KeyAlgorithm::from_str`
  pub parse_alg : String → Option KeyAlgorithm
  -- `build_discovery_urls`, or `none` if the URL has no host
  pub discovery_urls : Url → Option (List Url)

-- The replies of the network during one fetch: a GET with its timeout, parsed as JSON; `none` is any
-- failure.
pub record Replies (Url Key : Type 0) : Type 0 where
  pub get_metadata : Url → Option DiscoveryMetadata
  pub get_jwks : String → Option (List (String × Jwk Key))

pub record CachedJwks (Key : Type 0) : Type 0 where
  pub keys : List (String × Jwk Key)
  pub issuer : String
  pub fetched_at : ℕ
  pub signing_algs : List String

-- The cache and the state of the fetches. A slot holds the time at which its fetch started, which
-- tells the fetches of one issuer apart.
pub record ResolverState (Url Key : Type 0) : Type 0 where
  pub jwks_cache : List (Url × CachedJwks Key)
  pub slots : List (Url × ℕ)
  pub last_attempt : List (Url × ℕ)

pub record Timing : Type 0 where
  pub ttl : ℕ
  pub min_refresh_interval : ℕ

pub data SlotOutcome (Key : Type 0) : Type 0 where
  resolved : Jwk Key × String → SlotOutcome Key
  fetch : ℕ → SlotOutcome Key
  rate_limited : SlotOutcome Key

-- `Instant::elapsed`, which stops at zero.
abbrev pub elapsed : ℕ → ℕ → ℕ
elapsed now since = now - since

-- The last fetch of the issuer started less than the interval ago.
unfoldable pub too_soon : Timing → ℕ → Option ℕ → Bool
too_soon timing now none = false
too_soon timing now (some last) = ltb (elapsed now last) timing.min_refresh_interval

module _ {Url : Type 0} (library : Library Url) where
  unfoldable pub resolve_alg : List String → Option KeyAlgorithm
  resolve_alg [] = none
  resolve_alg (single ∷ []) = library.parse_alg single
  resolve_alg (first ∷ second ∷ rest) = none

  unfoldable pub issuer_matches : Url → String → Bool
  issuer_matches server advertised_issuer = elim (library.parse advertised_issuer) [
    | none ↦ false
    | some advertised ↦ library.urls.same (library.strip server) (library.strip advertised)
  ]

module _ {Url Key : Type 0} (library : Library Url) where
  with_alg : List String → Jwk Key → Jwk Key
  with_alg signing_algs jwk =
      if is_none jwk.alg then record jwk { alg = resolve_alg library signing_algs } else jwk

  -- `CachedJwks::lookup`
  unfoldable pub cached_lookup : CachedJwks Key → String → Option (Jwk Key × String)
  unfolding with_alg
  cached_lookup entry key_id = elim (lookup key_id entry.keys) [
    | none ↦ none
    | some jwk ↦ some (with_alg entry.signing_algs jwk, entry.issuer)
  ]

  unfoldable pub is_fresh : Timing → ℕ → CachedJwks Key → Bool
  is_fresh timing now entry = ltb (elapsed now entry.fetched_at) timing.ttl

  unfoldable pub lookup_fresh :
      Timing → ℕ → ResolverState Url Key → Url → String → Option (Jwk Key × String)
  lookup_fresh timing now st server key_id = elim (find library.urls st.jwks_cache server) [
    | none ↦ none
    | some entry ↦ if not (is_fresh timing now entry) then none else cached_lookup entry key_id
  ]

  unfoldable pub lookup_stale : ResolverState Url Key → Url → String → Option (Jwk Key × String)
  lookup_stale st server key_id = elim (find library.urls st.jwks_cache server) [
    | none ↦ none
    | some entry ↦ cached_lookup entry key_id
  ]

  unfoldable pub start_fetch :
      ℕ → ResolverState Url Key → Url → SlotOutcome Key × ResolverState Url Key
  start_fetch now st server = (
    fetch now,
    record st {
      last_attempt = assign library.urls st.last_attempt server now;
      slots = assign library.urls st.slots server now;
    },
  )

  unfoldable pub acquire_inflight_slot :
      Timing → ℕ → ResolverState Url Key → Url → String → SlotOutcome Key × ResolverState Url Key
  acquire_inflight_slot timing now st server key_id = elim (find library.urls st.slots server) [
    | some existing ↦ (fetch existing, st)
    | none ↦ elim (lookup_fresh timing now st server key_id) [
      | some result ↦ (resolved result, st)
      | none ↦
          if too_soon timing now (find library.urls st.last_attempt server)
          then (rate_limited, st)
          else start_fetch now st server
    ]
  ]

  -- The loop over the well-known URLs: the first document that can be read counts.
  unfoldable pub first_metadata : Replies Url Key → List Url → Option DiscoveryMetadata
  first_metadata replies [] = none
  first_metadata replies (url ∷ urls) =
      let others = first_metadata replies urls in
      elim (replies.get_metadata url) [ some metadata ↦ some metadata | none ↦ others ]

  unfoldable pub discover_metadata : Replies Url Key → Url → Option DiscoveryMetadata
  unfolding first_metadata
  discover_metadata replies issuer = elim (library.discovery_urls issuer) [
    | none ↦ none
    | some urls ↦ first_metadata replies urls
  ]

  fetched : ℕ → DiscoveryMetadata → Option (List (String × Jwk Key)) → Option (CachedJwks Key)
  fetched now metadata none = none
  fetched now metadata (some jwks) = some (record {
    keys = jwks;
    issuer = metadata.issuer;
    fetched_at = now;
    signing_algs = metadata.id_token_signing_alg_values_supported;
  })

  -- What the fetch future computes, with `now` the time at which the keys have arrived.
  unfoldable pub fetch_entry : Replies Url Key → ℕ → Url → Option (CachedJwks Key)
  unfolding fetched
  fetch_entry replies now server = elim (discover_metadata replies server) [
    | none ↦ none
    | some metadata ↦
        if not (issuer_matches library server metadata.issuer)
        then none
        else fetched now metadata (replies.get_jwks metadata.jwks_uri)
  ]

  store : Url → Option (CachedJwks Key) → List (Url × CachedJwks Key) → List (Url × CachedJwks Key)
  store server none cache = cache
  store server (some entry) cache = assign library.urls cache server entry

  -- The end of the fetch future: the cache is filled before the slot is given up.
  unfoldable pub finish_fetch :
      Replies Url Key → ℕ → Url → ResolverState Url Key → ResolverState Url Key
  unfolding store
  finish_fetch replies now server st = record st {
    jwks_cache = store server (fetch_entry replies now server) st.jwks_cache;
    slots = discard library.urls st.slots server;
  }

  -- `lookup_fresh(..).or_else(|| lookup_stale(..))`
  unfoldable pub answer_after_fetch :
      Timing → ℕ → ResolverState Url Key → Url → String → Option (Jwk Key × String)
  answer_after_fetch timing now st server key_id = elim (lookup_fresh timing now st server key_id) [
    | some result ↦ some result
    | none ↦ lookup_stale st server key_id
  ]

-- The shared state at one moment, with the fetches that have started so far, the newest first.
pub record World (Url Key : Type 0) : Type 0 where
  pub now : ℕ
  pub resolver : ResolverState Url Key
  pub starts : List (Url × ℕ)

module _ {Url Key : Type 0} (library : Library Url) (timing : Timing) where
  -- A fetch has started if a slot has appeared.
  started : World Url Key → ResolverState Url Key → Url → List (Url × ℕ)
  started w st server =
      if is_none (find library.urls w.resolver.slots server)
        && is_some (find library.urls st.slots server)
      then (server, w.now) ∷ w.starts
      else w.starts

  unfoldable pub after_acquire : World Url Key → Url → ResolverState Url Key → World Url Key
  unfolding started
  after_acquire w server st = record w { resolver = st; starts = started w st server }

  settle :
      (Url → World Url Key → World Url Key)
      → Url
      → String
      → World Url Key
      → SlotOutcome Key
      → Option (Jwk Key × String) × World Url Key
  settle await server key_id w (resolved result) = (some result, w)
  settle await server key_id w rate_limited = (lookup_stale library w.resolver server key_id, w)
  settle await server key_id w (fetch begun) =
      let later = await server w in
      (answer_after_fetch library timing later.now later.resolver server key_id, later)

  -- `resolve_key`, where `await` is what has become of the shared state when the fetch is done.
  unfoldable pub resolve_key :
      (Url → World Url Key → World Url Key)
      → Url
      → String
      → World Url Key
      → Option (Jwk Key × String) × World Url Key
  unfolding settle
  resolve_key await server key_id w =
      elim (lookup_fresh library timing w.now w.resolver server key_id) [
        | some result ↦ (some result, w)
        | none ↦
            let (outcome, st) =
              acquire_inflight_slot library timing w.now w.resolver server key_id in
            settle await server key_id (after_acquire w server st) outcome
      ]

  -- What the tasks of the server do to the shared state: time passes, a caller acquires a slot, or the
  -- fetch of a slot ends, with whatever the network replied.
  pub data Step (w : World Url Key) : World Url Key → Type 0 where
    pass : (span : ℕ) → Step w (record w { now = w.now + span })
    acquire :
        (server : Url) (key_id : String)
        → Step w (
            after_acquire w server
              (acquire_inflight_slot library timing w.now w.resolver server key_id).1)
    finish :
        (server : Url) (replies : Replies Url Key) (begun : ℕ)
        → find library.urls w.resolver.slots server ≡ some begun
        → Step w (record w { resolver = finish_fetch library replies w.now server w.resolver })

  pub data Reach (w : World Url Key) : World Url Key → Type 0 where
    here : Reach w w
    next : {u v : World Url Key} → Reach w u → Step u v → Reach w v

-- The state of a new middleware.
abbrev pub initial : {Url Key : Type 0} → ℕ → World Url Key
initial now = record {
  now = now;
  resolver = record { jwks_cache = []; slots = []; last_attempt = [] };
  starts = [];
}
