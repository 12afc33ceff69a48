-- ===== src/Auth/Keys/Schedule.antt =====
-- When `acquire_inflight_slot` of crates/apollo-mcp-server/src/auth/networked_key_resolver.rs starts a
-- fetch.
use apollo_mcp_server.Prelude.{
  ℕ, ◌+◌, ◌≤◌, ◌≡◌, ◌⊎◌, refl, false, ◌&&◌, Option, none, some, is_none, is_some, List, [], ◌∷◌,
  String, find, find-assign, Bool-cases, Option-cases, inl, inr, arith,
}
use apollo_mcp_server.Auth.Keys.{
  Library, ResolverState, Timing, lookup_fresh, too_soon, start_fetch, acquire_inflight_slot,
  finish_fetch, World, after_acquire, Step, pass, acquire, finish, Reach, here, next, initial,
}

module _ {Url : Type 0} (library : Library Url) (timing : Timing) where
  -- The last start of a server's fetches.
  abbrev pub last_start : List (Url × ℕ) → Url → Option ℕ
  last_start starts server = find library.urls starts server

  abbrev pub After : Option ℕ → ℕ → Type 0
  After none begun = Unit
  After (some last) begun = last + timing.min_refresh_interval ≤ begun

  -- Two fetches of one server start at least the minimal interval apart.
  abbrev pub IsSpaced : List (Url × ℕ) → Type 0
  IsSpaced [] = Unit
  IsSpaced ((server, begun) ∷ starts) = After (last_start starts server) begun × IsSpaced starts

  abbrev NotAfter : ℕ → List (Url × ℕ) → Type 0
  NotAfter now [] = Unit
  NotAfter now ((server, begun) ∷ starts) = (begun ≤ now) × NotAfter now starts

  NotAfter-mono :
      (now span : ℕ) (starts : List (Url × ℕ)) → NotAfter now starts → NotAfter (now + span) starts
  NotAfter-mono now span [] h = tt
  NotAfter-mono now span ((server, begun) ∷ starts) h =
      (omega arith, NotAfter-mono now span starts h.1)

  last_start-le :
      (now : ℕ) (starts : List (Url × ℕ)) (server : Url) (last : ℕ)
      → NotAfter now starts
      → last_start starts server ≡ some last
      → last ≤ now
  unfolding find
  last_start-le now [] server last h e = absurd (ground arith)
  last_start-le now ((j, begun) ∷ starts) server last h e =
      ground (arith, last_start-le now starts server last h.1)

  not_too_soon :
      (now : ℕ) (o : Option ℕ)
      → ((last : ℕ) → o ≡ some last → last ≤ now)
      → too_soon timing now o ≡ false
      → After o now
  unfolding too_soon
  not_too_soon now none h e = tt
  not_too_soon now (some last) h e = ground (arith, h last refl)

appeared_not : (o : Option ℕ) → (is_none o && is_some o) ≡ false
appeared_not none = refl
appeared_not (some begun) = refl

module _ {Url Key : Type 0} (library : Library Url) (timing : Timing) where
  -- The invariant of the schedule: `last_attempt` agrees with the fetches that have started.
  record IsScheduled (w : World Url Key) : Type 0 where
    agrees :
        (server : Url)
        → find library.urls w.resolver.last_attempt server
          ≡ last_start library timing w.starts server
    spaced : IsSpaced library timing w.starts
    past : NotAfter library timing w.now w.starts

  -- What `acquire_inflight_slot` does: nothing to the state, or it starts a fetch of a server that has
  -- none, when the last one is long enough ago.
  abbrev Acquired : ℕ → ResolverState Url Key → Url → ResolverState Url Key → Type 0
  Acquired now st server after =
      (after ≡ st)
      ⊎ ((find library.urls st.slots server ≡ none)
          × (too_soon timing now (find library.urls st.last_attempt server) ≡ false)
          × (after ≡ (start_fetch library now st server).1))

  acquire-Acquired :
      (now : ℕ) (st : ResolverState Url Key) (server : Url) (key_id : String)
      → Acquired now st server (acquire_inflight_slot library timing now st server key_id).1
  unfolding acquire_inflight_slot
  acquire-Acquired now st server key_id = elim (Option-cases (find library.urls st.slots server)) [
    | inr (existing, joined) ↦ inl (rw (joined, acquire_inflight_slot) refl)
    | inl free ↦ elim (Option-cases (lookup_fresh library timing now st server key_id)) [
      | inr (result, fresh) ↦ inl (rw (free, fresh, acquire_inflight_slot) refl)
      | inl cold ↦
          elim (Bool-cases (too_soon timing now (find library.urls st.last_attempt server))) [
            | inl limited ↦ inl (rw (free, cold, limited, acquire_inflight_slot) refl)
            | inr allowed ↦
                inr (free, allowed, rw (free, cold, allowed, acquire_inflight_slot) refl)
          ]
    ]
  ]

  unchanged_world :
      (w : World Url Key) (server : Url) (st : ResolverState Url Key)
      → st ≡ w.resolver
      → after_acquire library timing w server st ≡ w
  unfolding after_acquire
  unchanged_world w server st same =
      rw (same, appeared_not (find library.urls w.resolver.slots server)) refl

  abbrev begin : World Url Key → Url → World Url Key
  begin w server = record w {
    resolver = (start_fetch library w.now w.resolver server).1;
    starts = (server, w.now) ∷ w.starts;
  }

  started_world :
      (w : World Url Key) (server : Url) (st : ResolverState Url Key)
      → find library.urls w.resolver.slots server ≡ none
      → st ≡ (start_fetch library w.now w.resolver server).1
      → after_acquire library timing w server st ≡ begin w server
  unfolding after_acquire start_fetch
  started_world w server st free same =
      rw (same, free, find-assign, (library.urls.same_iff server server).1 refl) refl

  begin-IsScheduled :
      (w : World Url Key) (server : Url)
      → too_soon timing w.now (find library.urls w.resolver.last_attempt server) ≡ false
      → IsScheduled w
      → IsScheduled (begin w server)
  unfolding start_fetch
  begin-IsScheduled w server allowed h = record {
    agrees = λ j. rw find-assign (unfold find in ground (arith, h.agrees j));
    spaced = (
      not_too_soon library timing w.now (last_start library timing w.starts server)
          (λ last e. last_start-le library timing w.now w.starts server last h.past e)
          (rw (h.agrees server) at allowed),
      h.spaced,
    );
    past = (omega arith, h.past);
  }

  acquire-IsScheduled :
      (w : World Url Key) (server : Url) (st : ResolverState Url Key)
      → Acquired w.now w.resolver server st
      → IsScheduled w
      → IsScheduled (after_acquire library timing w server st)
  acquire-IsScheduled w server st (inl same) h = rw (unchanged_world w server st same) h
  acquire-IsScheduled w server st (inr (free, allowed, same)) h =
      rw (started_world w server st free same) (begin-IsScheduled w server allowed h)

  finish-IsScheduled :
      (w : World Url Key) (server : Url) (st : ResolverState Url Key)
      → st.last_attempt ≡ w.resolver.last_attempt
      → IsScheduled w
      → IsScheduled (record w { resolver = st })
  finish-IsScheduled w server st same h = record {
    agrees = λ j. rw same (h.agrees j);
    spaced = h.spaced;
    past = h.past;
  }

  Step-IsScheduled : {w v : World Url Key} → Step library timing w v → IsScheduled w → IsScheduled v
  unfolding finish_fetch
  Step-IsScheduled {w} (pass span) h = record {
    agrees = h.agrees;
    spaced = h.spaced;
    past = NotAfter-mono library timing w.now span w.starts h.past;
  }
  Step-IsScheduled {w} (acquire server key_id) h =
      acquire-IsScheduled w server _ (acquire-Acquired w.now w.resolver server key_id) h
  Step-IsScheduled {w} (finish server replies begun slot) h =
      finish-IsScheduled w server (finish_fetch library replies w.now server w.resolver) refl h

  Reach-IsScheduled :
      {w v : World Url Key} → IsScheduled w → Reach library timing w v → IsScheduled v
  Reach-IsScheduled h here = h
  Reach-IsScheduled h (next r step) = Step-IsScheduled step (Reach-IsScheduled h r)

  -- However callers, replies and time interleave, two fetches of the keys of one server never start
  -- less than the minimal refresh interval apart, whether they succeed or fail.
  pub starts-IsSpaced :
      (now : ℕ) (w : World Url Key)
      → Reach library timing (initial now) w
      → IsSpaced library timing w.starts
  starts-IsSpaced now w reached =
      (Reach-IsScheduled {w = initial now} {v = w}
        (record { agrees = λ server. refl; spaced = tt; past = tt }) reached).spaced
