-- ===== src/Auth/Keys/Outage.antt =====
-- `resolve_key` of crates/apollo-mcp-server/src/auth/networked_key_resolver.rs while the authorization
-- server cannot be reached.
use apollo_mcp_server.Prelude.{ℕ, ◌≡◌, ◌∙◌, refl, some, String, find, Option-cases, inl, inr, arith}
use apollo_mcp_server.Auth.Token.{Jwk}
use apollo_mcp_server.Auth.Keys.{
  Library, CachedJwks, ResolverState, Timing, SlotOutcome, resolved, fetch, rate_limited,
  cached_lookup, lookup_fresh, lookup_stale, acquire_inflight_slot, answer_after_fetch, World,
  after_acquire, settle, resolve_key,
}
use apollo_mcp_server.Auth.Keys.Answers.{acquire-cache, acquire-resolved, lookup_fresh-stale}

module _ {Url Key : Type 0} (library : Library Url) (timing : Timing)
    (await : Url → World Url Key → World Url Key) where
  stale_of_cached :
      (st : ResolverState Url Key) (server : Url) (entry : CachedJwks Key) (key_id : String)
      → find library.urls st.jwks_cache server ≡ some entry
      → lookup_stale library st server key_id ≡ cached_lookup library entry key_id
  unfolding lookup_stale
  stale_of_cached st server entry key_id h = ground arith

  answer_of_known :
      (now : ℕ) (st : ResolverState Url Key) (server : Url) (key_id : String)
      (known : Jwk Key × String)
      → lookup_stale library st server key_id ≡ some known
      → answer_after_fetch library timing now st server key_id ≡ some known
  unfolding answer_after_fetch
  answer_of_known now st server key_id known h =
      elim (Option-cases (lookup_fresh library timing now st server key_id)) [
        | inl cold ↦ ground arith
        | inr (result, fresh) ↦
            ground (arith, lookup_fresh-stale library timing now st server key_id result)
      ]

  settle_of_known :
      (w v : World Url Key) (server : Url) (key_id : String) (outcome : SlotOutcome Key)
      (known : Jwk Key × String)
      → ((result : Jwk Key × String) → outcome ≡ resolved result → result ≡ known)
      → lookup_stale library v.resolver server key_id ≡ some known
      → lookup_stale library (await server v).resolver server key_id ≡ some known
      → (settle library timing await server key_id v outcome).0 ≡ some known
  unfolding settle
  settle_of_known w v server key_id (resolved result) known same before after =
      rw (same result refl) refl
  settle_of_known w v server key_id rate_limited known same before after = before
  settle_of_known w v server key_id (fetch begun) known same before after =
      answer_of_known (await server v).now (await server v).resolver server key_id known after

  -- While fetches leave the server's cached entry as it is, because they fail or are rate-limited, a
  -- key id of that entry is answered from it, however old it is.
  pub resolve_key_outage :
      (w : World Url Key) (server : Url) (key_id : String) (entry : CachedJwks Key)
      (known : Jwk Key × String)
      → find library.urls w.resolver.jwks_cache server ≡ some entry
      → cached_lookup library entry key_id ≡ some known
      → ((v : World Url Key)
          → find library.urls v.resolver.jwks_cache server ≡ some entry
          → find library.urls (await server v).resolver.jwks_cache server ≡ some entry)
      → (resolve_key library timing await server key_id w).0 ≡ some known
  unfolding resolve_key after_acquire
  resolve_key_outage w server key_id entry known cached found fails =
      let stale = stale_of_cached w.resolver server entry key_id cached in
      elim (Option-cases (lookup_fresh library timing w.now w.resolver server key_id)) [
        | inr (result, fresh) ↦
            ground (arith, lookup_fresh-stale library timing w.now w.resolver server key_id result)
        | inl cold ↦
            let st = (acquire_inflight_slot library timing w.now w.resolver server key_id).1 in
            let v = after_acquire library timing w server st in
            let kept : find library.urls v.resolver.jwks_cache server ≡ some entry =
              rw (acquire-cache library timing w.now w.resolver server key_id) cached in
            rw (cold, resolve_key)
              (settle_of_known w v server key_id
                (acquire_inflight_slot library timing w.now w.resolver server key_id).0 known
                (λ result e. absurd (
                  ground (
                    arith,
                    acquire-resolved library timing await w.now w.resolver server key_id result e,
                  )))
                (stale_of_cached v.resolver server entry key_id kept ∙ found)
                (stale_of_cached (await server v).resolver server entry key_id (fails v kept)
                  ∙ found))
      ]
