-- ===== src/Auth/Keys/Answers.antt =====
-- Which keys `resolve_key` of crates/apollo-mcp-server/src/auth/networked_key_resolver.rs hands out.
use apollo_mcp_server.Prelude.{
  ℕ, ◌≡◌, true, some, String, find, assign, find-assign, Bool-cases, Option-cases, inl, inr, arith,
}
use apollo_mcp_server.Auth.Token.{Jwk}
use apollo_mcp_server.Auth.Keys.{
  Library, Replies, CachedJwks, ResolverState, Timing, SlotOutcome, resolved, fetch, rate_limited,
  cached_lookup, lookup_fresh, lookup_stale, start_fetch, acquire_inflight_slot, issuer_matches,
  fetch_entry, store, finish_fetch, answer_after_fetch, World, after_acquire, settle, resolve_key,
  Step, pass, acquire, finish, Reach, here, next, initial,
}

module _ {Url Key : Type 0} (library : Library Url) where
  -- Every cached entry advertises the issuer that identifies its server.
  abbrev pub IssuersMatch : ResolverState Url Key → Type 0
  IssuersMatch st =
      (server : Url) (entry : CachedJwks Key)
      → find library.urls st.jwks_cache server ≡ some entry
      → issuer_matches library server entry.issuer ≡ true

  cached_lookup-issuer :
      (entry : CachedJwks Key) (key_id : String) (jwk : Jwk Key) (issuer : String)
      → cached_lookup library entry key_id ≡ some (jwk, issuer)
      → issuer ≡ entry.issuer
  unfolding cached_lookup
  cached_lookup-issuer entry key_id jwk issuer h = ground arith

  -- An answer of the cache, fresh or stale, comes from the server's entry.
  lookup_stale-issuer :
      (st : ResolverState Url Key) (server : Url) (key_id : String) (jwk : Jwk Key)
      (issuer : String)
      → IssuersMatch st
      → lookup_stale library st server key_id ≡ some (jwk, issuer)
      → issuer_matches library server issuer ≡ true
  unfolding lookup_stale
  lookup_stale-issuer st server key_id jwk issuer inv h =
      elim (Option-cases (find library.urls st.jwks_cache server)) [
        | inl missing ↦ absurd (ground arith)
        | inr (entry, cached) ↦
            rw (cached_lookup-issuer entry key_id jwk issuer (ground arith))
              (inv server entry cached)
      ]

  pub lookup_fresh-stale :
      (timing : Timing) (now : ℕ) (st : ResolverState Url Key) (server : Url) (key_id : String)
      (result : Jwk Key × String)
      → lookup_fresh library timing now st server key_id ≡ some result
      → lookup_stale library st server key_id ≡ some result
  unfolding lookup_fresh lookup_stale
  lookup_fresh-stale timing now st server key_id result h = ground arith

  answer-stale :
      (timing : Timing) (now : ℕ) (st : ResolverState Url Key) (server : Url) (key_id : String)
      (result : Jwk Key × String)
      → answer_after_fetch library timing now st server key_id ≡ some result
      → lookup_stale library st server key_id ≡ some result
  unfolding answer_after_fetch
  answer-stale timing now st server key_id result h =
      ground (arith, lookup_fresh-stale timing now st server key_id result)

  fetch_entry-issuer :
      (replies : Replies Url Key) (now : ℕ) (server : Url) (entry : CachedJwks Key)
      → fetch_entry library replies now server ≡ some entry
      → (issuer_matches library server entry.issuer ≡ true) × (entry.fetched_at ≡ now)
  unfolding fetch_entry
  fetch_entry-issuer replies now server entry h = (ground arith, ground arith)

  assign-IssuersMatch :
      (server : Url) (new_entry : CachedJwks Key) (st : ResolverState Url Key)
      → issuer_matches library server new_entry.issuer ≡ true
      → IssuersMatch st
      → (j : Url) (entry : CachedJwks Key)
      → find library.urls (assign library.urls st.jwks_cache server new_entry) j ≡ some entry
      → issuer_matches library j entry.issuer ≡ true
  assign-IssuersMatch server new_entry st matches inv j entry h =
      let found = rw find-assign at h in
      elim (Bool-cases (library.urls.same server j)) [
        | inl same ↦
            let at_server : server ≡ j = (library.urls.same_iff server j).0 same in
            let is_new : entry ≡ new_entry = ground arith in rw (is_new, ← at_server) matches
        | inr other ↦ inv j entry (ground arith)
      ]

  finish_fetch-IssuersMatch :
      (replies : Replies Url Key) (now : ℕ) (server : Url) (st : ResolverState Url Key)
      → IssuersMatch st
      → IssuersMatch (finish_fetch library replies now server st)
  unfolding finish_fetch
  finish_fetch-IssuersMatch replies now server st inv j entry h =
      elim (Option-cases (fetch_entry library replies now server)) [
        | inl failed ↦ inv j entry (rw (failed, store) at h)
        | inr (new_entry, got) ↦
            assign-IssuersMatch server new_entry st
              (fetch_entry-issuer replies now server new_entry got).0 inv j entry
              (rw (got, store) at h)
      ]

  pub acquire-cache :
      (timing : Timing) (now : ℕ) (st : ResolverState Url Key) (server : Url) (key_id : String)
      → (acquire_inflight_slot library timing now st server key_id).1.jwks_cache ≡ st.jwks_cache
  unfolding acquire_inflight_slot start_fetch
  acquire-cache timing now st server key_id = ground arith

  Step-IssuersMatch :
      (timing : Timing) {w v : World Url Key}
      → Step library timing w v
      → IssuersMatch w.resolver
      → IssuersMatch v.resolver
  unfolding after_acquire
  Step-IssuersMatch timing (pass span) inv j entry h = inv j entry h
  Step-IssuersMatch timing {w} (acquire server key_id) inv j entry h =
      inv j entry (rw (acquire-cache timing w.now w.resolver server key_id) at h)
  Step-IssuersMatch timing {w} (finish server replies begun slot) inv j entry h =
      finish_fetch-IssuersMatch replies w.now server w.resolver inv j entry h

  pub Reach-IssuersMatch :
      (timing : Timing) {w v : World Url Key}
      → IssuersMatch w.resolver
      → Reach library timing w v
      → IssuersMatch v.resolver
  Reach-IssuersMatch timing inv here = inv
  Reach-IssuersMatch timing inv (next r step) =
      Step-IssuersMatch timing step (Reach-IssuersMatch timing inv r)

-- The state of the resolver is always one that the tasks can reach, also when a caller has waited for a
-- fetch.
abbrev pub Waits :
    {Url Key : Type 0} → Library Url → Timing → (Url → World Url Key → World Url Key) → Type 0
Waits {Url} {Key} library timing await =
    (server : Url) (w : World Url Key) → Reach library timing w (await server w)

module _ {Url Key : Type 0} (library : Library Url) (timing : Timing)
    (await : Url → World Url Key → World Url Key) where
  pub acquire-resolved :
      (now : ℕ) (st : ResolverState Url Key) (server : Url) (key_id : String)
      (result : Jwk Key × String)
      → (acquire_inflight_slot library timing now st server key_id).0 ≡ resolved result
      → lookup_fresh library timing now st server key_id ≡ some result
  unfolding acquire_inflight_slot start_fetch
  acquire-resolved now st server key_id result h = ground arith

  settle-issuer :
      (w v : World Url Key) (server : Url) (key_id : String) (outcome : SlotOutcome Key)
      (jwk : Jwk Key) (issuer : String)
      → Waits library timing await
      → IssuersMatch library w.resolver
      → IssuersMatch library v.resolver
      → ((result : Jwk Key × String)
          → outcome ≡ resolved result
          → lookup_stale library w.resolver server key_id ≡ some result)
      → (settle library timing await server key_id v outcome).0 ≡ some (jwk, issuer)
      → issuer_matches library server issuer ≡ true
  unfolding settle
  settle-issuer w v server key_id (resolved result) jwk issuer waits before after known h =
      lookup_stale-issuer library w.resolver server key_id jwk issuer before
        (known (jwk, issuer) (ground arith))
  settle-issuer w v server key_id rate_limited jwk issuer waits before after known h =
      lookup_stale-issuer library v.resolver server key_id jwk issuer after h
  settle-issuer w v server key_id (fetch begun) jwk issuer waits before after known h =
      let later = await server v in
      lookup_stale-issuer library later.resolver server key_id jwk issuer
        (Reach-IssuersMatch library timing after (waits server v))
        (answer-stale library timing later.now later.resolver server key_id (jwk, issuer) h)

  -- Whatever the tasks have done, a key that `resolve_key` hands out for a server comes with an issuer
  -- that identifies that server: their URLs are equal up to query and fragment.
  pub resolve_key-issuer :
      (now : ℕ) (w : World Url Key) (server : Url) (key_id : String) (jwk : Jwk Key)
      (issuer : String)
      → Waits library timing await
      → Reach library timing (initial now) w
      → (resolve_key library timing await server key_id w).0 ≡ some (jwk, issuer)
      → issuer_matches library server issuer ≡ true
  unfolding resolve_key
  resolve_key-issuer now w server key_id jwk issuer waits reached h =
      let inv =
        Reach-IssuersMatch library timing {w = initial now} {v = w}
          (λ j entry e. absurd (unfold find in ground arith)) reached in
      elim (Option-cases (lookup_fresh library timing w.now w.resolver server key_id)) [
        | inr (result, fresh) ↦
            lookup_stale-issuer library w.resolver server key_id jwk issuer inv (
              lookup_fresh-stale library timing w.now w.resolver server key_id (jwk, issuer)
                (ground arith))
        | inl cold ↦
            let (outcome, st) =
              acquire_inflight_slot library timing w.now w.resolver server key_id in
            settle-issuer w (after_acquire library timing w server st) server key_id outcome jwk
              issuer waits inv (Step-IssuersMatch library timing (acquire server key_id) inv)
              (λ result e.
                lookup_fresh-stale library timing w.now w.resolver server key_id result
                  (acquire-resolved w.now w.resolver server key_id result e))
              (rw (cold, resolve_key) at h)
      ]

module _ {Url Key : Type 0} (library : Library Url) (timing : Timing)
    (await : Url → World Url Key → World Url Key) where
  Reach-trans :
      {u v w : World Url Key}
      → Reach library timing u v
      → Reach library timing v w
      → Reach library timing u w
  Reach-trans r here = r
  Reach-trans r (next later step) = next (Reach-trans r later) step

  settle-Reach :
      (w v : World Url Key) (server : Url) (key_id : String) (outcome : SlotOutcome Key)
      → Waits library timing await
      → Reach library timing w v
      → Reach library timing w (settle library timing await server key_id v outcome).1
  unfolding settle
  settle-Reach w v server key_id (resolved result) waits r = r
  settle-Reach w v server key_id rate_limited waits r = r
  settle-Reach w v server key_id (fetch begun) waits r = Reach-trans r (waits server v)

  -- A call of `resolve_key` leaves a state that the tasks can reach.
  pub resolve_key-Reach :
      (start w : World Url Key) (server : Url) (key_id : String)
      → Waits library timing await
      → Reach library timing start w
      → Reach library timing start (resolve_key library timing await server key_id w).1
  unfolding resolve_key
  resolve_key-Reach start w server key_id waits r =
      elim (Option-cases (lookup_fresh library timing w.now w.resolver server key_id)) [
        | inr (result, fresh) ↦ rw (fresh, resolve_key) r
        | inl cold ↦
            let (outcome, st) =
              acquire_inflight_slot library timing w.now w.resolver server key_id in
            rw (cold, resolve_key)
              (Reach-trans r (
                settle-Reach w (after_acquire library timing w server st) server key_id outcome
                  waits (next here (acquire server key_id))))
      ]
