-- ===== src/Auth/Keys/Tests.antt =====
-- Tests of the key resolver, and its theorems at concrete inputs.
use apollo_mcp_server.Prelude.{
  ℕ, ◌+◌, ◌≡◌, refl, true, none, some, [], ◌∷◌, String, KeyEq, find, discard, assign, lookup,
  Option-cases, inl, inr, ◌==◌, eq_iff, if◌then◌else◌,
}
use apollo_mcp_server.Auth.Token.{KeyAlgorithm, Jwk}
use apollo_mcp_server.Auth.Keys.{
  Library, Replies, CachedJwks, Timing, resolve_alg, cached_lookup, is_fresh, lookup_fresh,
  lookup_stale, too_soon, start_fetch, acquire_inflight_slot, issuer_matches, discover_metadata,
  fetch_entry, finish_fetch, answer_after_fetch, World, after_acquire, resolve_key, acquire, finish,
  pass, here, next, initial,
}
use apollo_mcp_server.Auth.Keys.Answers.{Waits, resolve_key-issuer}
use apollo_mcp_server.Auth.Keys.Outage.{resolve_key_outage}
use apollo_mcp_server.Auth.Keys.Schedule.{IsSpaced, starts-IsSpaced}

abbrev texts : KeyEq String
texts = record { same = λ a b. a == b; same_iff = eq_iff }

abbrev library : Library String
library = record {
  urls = texts;
  parse = λ s. some s;
  strip = λ url. url;
  parse_alg = λ name. if name == "RS256" then some KeyAlgorithm.rs256 else none;
  discovery_urls = λ url. some (url ∷ []);
}

abbrev timing : Timing
timing = record { ttl = 600; min_refresh_interval = 60 }

abbrev replies : Replies String ℕ
replies = record {
  get_metadata = λ url. some (record {
    issuer = "https://idp/";
    jwks_uri = "https://idp/keys";
    id_token_signing_alg_values_supported = "RS256" ∷ [];
  });
  get_jwks = λ uri. some (("kid1", record { alg = none; decoding_key = 7 }) ∷ []);
}

-- The caller's fetch ends at once, if there is one.
abbrev await : String → World String ℕ → World String ℕ
await server w = elim (find texts w.resolver.slots server) [
  | none ↦ w
  | some begun ↦ record w { resolver = finish_fetch library replies w.now server w.resolver }
]

await-Waits : Waits library timing await
await-Waits server w = elim (Option-cases (find texts w.resolver.slots server)) [
  | inl free ↦ rw (free, await) here
  | inr (begun, slot) ↦ rw (slot, await) (next here (finish server replies begun slot))
]

keys_open : Unit {0}
unfolding resolve_alg cached_lookup is_fresh lookup_fresh lookup_stale too_soon start_fetch
    acquire_inflight_slot issuer_matches discover_metadata fetch_entry finish_fetch
    answer_after_fetch after_acquire resolve_key find discard assign lookup
keys_open = tt

abbrev key : Jwk ℕ
key = record { alg = some KeyAlgorithm.rs256; decoding_key = 7 }

-- The algorithm that the key omits is the one that discovery advertises.
answers :
    ((resolve_key library timing await "https://idp/" "kid1" (initial 100)).0
      ≡ some (key, "https://idp/"))
    × ((resolve_key library timing await "https://evil/" "kid1" (initial 100)).0 ≡ none)
    × ((resolve_key library timing await "https://idp/" "kid2" (initial 100)).0 ≡ none)
unfolding keys_open
answers = (refl, refl, refl)

resolve_key-issuer_example : issuer_matches library "https://idp/" "https://idp/" ≡ true
resolve_key-issuer_example =
    resolve_key-issuer library timing await 100 (initial 100) "https://idp/" "kid1" key
      "https://idp/" await-Waits here answers.0

-- The first fetch of a server.
abbrev first : World String ℕ
first =
    after_acquire library timing (initial 100) "https://idp/"
      (acquire_inflight_slot library timing 100 (initial {Url = String} {Key = ℕ} 100).resolver
        "https://idp/" "kid1").1

starts_once : first.starts ≡ ("https://idp/", 100) ∷ []
unfolding keys_open
starts_once = refl

abbrev fetched_once : World String ℕ
fetched_once = record first {
  resolver = finish_fetch library replies first.now "https://idp/" first.resolver;
}

abbrev later : World String ℕ
later = record fetched_once { now = fetched_once.now + 60 }

-- A key id that the fresh keys lack starts another fetch after 60.
abbrev second : World String ℕ
second =
    after_acquire library timing later "https://idp/"
      (acquire_inflight_slot library timing later.now later.resolver "https://idp/" "kid2").1

starts_twice : second.starts ≡ ("https://idp/", 160) ∷ ("https://idp/", 100) ∷ []
unfolding keys_open
starts_twice = refl

first_slot : find texts first.resolver.slots "https://idp/" ≡ some 100
unfolding keys_open
first_slot = refl

starts-IsSpaced_example : IsSpaced library timing second.starts
starts-IsSpaced_example = starts-IsSpaced library timing 100 second (
    next
      (next
        (next (next here (acquire "https://idp/" "kid1"))
          (finish "https://idp/" replies 100 first_slot))
        (pass 60))
      (acquire "https://idp/" "kid2"))

abbrev old_entry : CachedJwks ℕ
old_entry = record {
  keys = ("kid1", key) ∷ [];
  issuer = "https://idp/";
  fetched_at = 0;
  signing_algs = [];
}

abbrev late : World String ℕ
late = record {
  now = 10000;
  resolver = record {
    jwks_cache = ("https://idp/", old_entry) ∷ [];
    slots = [];
    last_attempt = [];
  };
  starts = [];
}

late_entry : find texts late.resolver.jwks_cache "https://idp/" ≡ some old_entry
unfolding find
late_entry = refl

late_key : cached_lookup library old_entry "kid1" ≡ some (key, "https://idp/")
unfolding cached_lookup lookup
late_key = refl

resolve_key_outage_example :
    (resolve_key library timing (λ server w. w) "https://idp/" "kid1" late).0
    ≡ some (key, "https://idp/")
resolve_key_outage_example =
    resolve_key_outage library timing (λ server w. w) late "https://idp/" "kid1" old_entry
      (key, "https://idp/") late_entry late_key (λ v h. h)
