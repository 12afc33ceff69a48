-- ===== src/Uplink/Polling.antt =====
-- The polling task goes on until an error that is not transient.
use mathlib.Core.Option.{some-injective}
use mathlib.Core.Path.{subst}
use apollo_mcp_server.Prelude.{
  ℕ, zero, ◌*◌, ◌<◌, ◌≡◌, ◌∙◌, inl, inr, refl, ap, sym, Bool, true, false, not, ◌||◌, Option, none,
  some, List, [], ◌∷◌, String, Result, ok, err, length, nat_eq, any, All, arith, Bool-cases,
}
use apollo_mcp_server.Uplink.{
  Error, is_transient, UplinkResponse, fresh, unchanged, failed, Endpoints, url_count, Network,
  Poller, fetch_failed, fetch_result, fetch_from, iter, try_urls, fetch, sent, breaks, remember,
  delivered, Run, next_round, after_fetch, run,
}
use apollo_mcp_server.Uplink.Rotation.{url_count-length, position, fetch-answers}

-- An error that is not transient.
abbrev pub is_final : {T : Type 0} → Result T Error → Bool
is_final (ok value) = false
is_final (err error) = not (is_transient error)

-- An outcome of a fetch after which it makes sense to ask again.
abbrev is_retried : {T : Type 0} → Result (UplinkResponse T) Error → Bool
is_retried (ok response) = true
is_retried (err error) = is_transient error

module _ {T : Type 0} where
  -- With a receiver, what a round sends is final exactly if the loop breaks.
  breaks-any :
      (result : Result (UplinkResponse T) Error) (items : List (Result T Error))
      → is_retried result ≡ true
      → any is_final (delivered true (sent result) items)
        ≡ (breaks true result || any is_final items)
  unfolding sent breaks is_transient
  breaks-any (ok (fresh response id delay)) items h = refl
  breaks-any (ok (unchanged id delay)) items h = refl
  breaks-any (ok (failed true code message)) items h = refl
  breaks-any (ok (failed false code message)) items h = refl
  breaks-any (err error) items h = rw h refl

module _ {Url : Type 0} where
  fetch_failed-is_transient :
      (endpoints : Endpoints Url) → is_transient (fetch_failed endpoints) ≡ true
  unfolding fetch_failed is_transient
  fetch_failed-is_transient endpoints = elim (Bool-cases (nat_eq (url_count endpoints) 1)) [
    | inl single ↦ rw single refl
    | inr several ↦ rw several refl
  ]

module _ {World Url R T : Type 0} (network : Network World Url R T) where
  fetch_result-is_retried :
      (answer : Option (UplinkResponse T)) (endpoints : Endpoints Url)
      → is_retried (fetch_result answer endpoints) ≡ true
  unfolding fetch_result
  fetch_result-is_retried none endpoints = fetch_failed-is_transient endpoints
  fetch_result-is_retried (some response) endpoints = refl

  fetch_from-is_retried :
      (last_id : Option String) (w : World) (endpoints : Endpoints Url)
      (started : Option (List Url × Endpoints Url)) (result : Result (UplinkResponse T) Error)
      (next : Endpoints Url) (w' : World)
      → fetch_from network last_id w endpoints started ≡ some (result, next, w')
      → is_retried result ≡ true
  unfolding fetch_from
  fetch_from-is_retried last_id w endpoints none result next w' h = absurd (cc)
  fetch_from-is_retried last_id w endpoints (some (urls, started)) result next w' h =
      subst (λ r. is_retried r ≡ true) (ap (λ o. o.0) (some-injective _ _ h))
        (fetch_result-is_retried (try_urls network last_id w urls).answer endpoints)

  remembered-endpoints :
      (result : Result (UplinkResponse T) Error) (poller : Poller Url)
      → (remember result poller).endpoints ≡ poller.endpoints
  unfolding remember
  remembered-endpoints (ok (fresh response id delay)) poller = refl
  remembered-endpoints (ok (unchanged id delay)) poller = refl
  remembered-endpoints (ok (failed retry_later code message)) poller = refl
  remembered-endpoints (err error) poller = refl

  -- What holds of a run: it ended if it sent a final error, and the position is below the bound.
  abbrev pub IsSound : ℕ → Run World Url T → Type 0
  IsSound bound r = (r.ended ≡ any is_final r.items) × (position r.poller.endpoints < bound)

  next_round-IsSound :
      (bound : ℕ) (poller : Poller Url) (result : Result (UplinkResponse T) Error) (w : World)
      (r : Run World Url T)
      → is_retried result ≡ true
      → position poller.endpoints < bound
      → IsSound bound r
      → (r' : Run World Url T) × (next_round true poller result w (some r) ≡ some r')
        × IsSound bound r'
  unfolding next_round
  next_round-IsSound bound poller result w r retried below sound =
      elim (Bool-cases (breaks true result)) [
        | inl final ↦ rw final (
          _,
          refl,
          (
            sym (breaks-any result [] retried ∙ rw final refl),
            subst (λ e. position e < bound) (sym (remembered-endpoints result poller)) below,
          ),
        )
        | inr retry ↦
            rw retry (
              _,
              refl,
              (sound.0 ∙ sym (breaks-any result r.items retried ∙ rw retry refl), sound.1),
            )
      ]

  -- With at least one URL, and as long as the receiver is there, any number of rounds of the polling
  -- task passes without a panic. The task has ended exactly if it has sent an error that is not
  -- transient, and the position of a round-robin stays below twice the number of URLs.
  pub run-IsSound :
      (w : World) (poller : Poller Url) (rounds : List Bool)
      → zero < url_count poller.endpoints
      → position poller.endpoints < 2 * url_count poller.endpoints
      → All (λ listens. listens ≡ true) rounds
      → (r : Run World Url T) × (run network w poller rounds ≡ some r)
        × IsSound (2 * url_count poller.endpoints) r
  unfolding run after_fetch fetch
  run-IsSound w poller [] some_url below there = (_, refl, (refl, below))
  run-IsSound w poller (listens ∷ rounds) some_url below there =
      let (result, next, w', fetched, same, position_below, up) =
        fetch-answers network poller.last_id w poller.endpoints some_url in
      let count =
        url_count-length next ∙ ap length same ∙ sym (url_count-length poller.endpoints) in
      let next_poller = record (remember result poller) { endpoints = next } in
      let (r, others, sound) =
        run-IsSound w' next_poller rounds (ground (arith, count)) (ground (arith, count)) there.1 in
      let retried =
        fetch_from-is_retried poller.last_id w poller.endpoints (iter poller.endpoints) result next
          w' fetched in
      let poller' = record poller { endpoints = next } in
      let (r', ran, sound') =
        next_round-IsSound (2 * url_count poller.endpoints) poller' result w' r retried
          position_below (sound.0, ground (arith, count, sound.1)) in
      (
        r',
        ap (after_fetch (λ w₁ poller₁. run network w₁ poller₁ rounds) listens poller) fetched
            ∙ ap (λ l. next_round l poller' result w' (run network w' next_poller rounds)) there.0
            ∙ ap (next_round true poller' result w') others
            ∙ ran,
        sound',
      )
