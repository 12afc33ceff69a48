-- ===== src/Server/Health/Readiness.antt =====
-- When the health check of the parent reports that the server is not ready.
use apollo_mcp_server.Prelude.{
  ℕ, zero, suc, ◌∙◌, ◌+◌, ◌≤◌, ◌≡◌, refl, true, false, Option, none, some, List, [], ◌∷◌, String,
  ltb, arith,
}
use apollo_mcp_server.Server.Health.{
  ReadinessConfig, Phase, counting, recovering, HealthCheck, up, new_health_check, record_rejection,
  on_timer, HealthEvent, rejection, timer, handle, watch, status_of, get_health_state,
}

abbrev pub rejections : List HealthEvent → ℕ
rejections [] = 0
rejections (rejection ∷ events) = suc (rejections events)
rejections (timer now ∷ events) = rejections events

record IsCalm (health : HealthCheck) (count : ℕ) : Type 0 where
  is_ready : health.ready ≡ true
  is_counting : health.phase ≡ counting
  at_most : health.rejected ≤ count

rejected-IsCalm :
    (health : HealthCheck) (count : ℕ)
    → IsCalm health count
    → IsCalm (record_rejection health) (suc count)
unfolding record_rejection
rejected-IsCalm health count h = record {
  is_ready = h.is_ready;
  is_counting = h.is_counting;
  at_most = ground (arith, h.at_most);
}

timer-IsCalm :
    (config : ReadinessConfig) (now : ℕ) (health : HealthCheck) (count : ℕ)
    → count ≤ config.allowed
    → IsCalm health count
    → IsCalm (on_timer config now health.phase health) count
unfolding on_timer
timer-IsCalm config now health count few h =
    let quiet : ltb config.allowed health.rejected ≡ false = ground (arith, h.at_most) in
    rw (h.is_counting, quiet, on_timer)
      (record { is_ready = h.is_ready; is_counting = refl; at_most = h.at_most })

watch-IsCalm :
    (config : ReadinessConfig) (events : List HealthEvent) (health : HealthCheck) (count : ℕ)
    → count + rejections events ≤ config.allowed
    → IsCalm health count
    → (watch config health events).ready ≡ true
unfolding watch handle
watch-IsCalm config [] health count few h = h.is_ready
watch-IsCalm config (rejection ∷ events) health count few h =
    watch-IsCalm config events (record_rejection health) (suc count) (omega arith)
      (rejected-IsCalm health count h)
watch-IsCalm config (timer now ∷ events) health count few h =
    watch-IsCalm config events (on_timer config now health.phase health) count few
      (timer-IsCalm config now health count (omega arith) h)

timer-live :
    (config : ReadinessConfig) (now : ℕ) (phase : Phase) (health : HealthCheck)
    → (on_timer config now phase health).live ≡ health.live
unfolding on_timer
timer-live config now counting health = ground arith
timer-live config now recovering health = refl

watch-live :
    (config : ReadinessConfig) (events : List HealthEvent) (health : HealthCheck)
    → (watch config health events).live ≡ health.live
unfolding watch handle record_rejection
watch-live config [] health = refl
watch-live config (rejection ∷ events) health = watch-live config events (record_rejection health)
watch-live config (timer now ∷ events) health =
    watch-live config events (on_timer config now health.phase health)
    ∙ timer-live config now health.phase health

state_of_flags :
    (health : HealthCheck) (query : Option String)
    → health.ready ≡ true
    → health.live ≡ true
    → get_health_state health query ≡ (up, 200)
unfolding get_health_state status_of
state_of_flags health none ready live = refl
state_of_flags health (some query) ready live = rw (ready, live, get_health_state) (ground arith)

-- A server that has rejected no more calls than are allowed since it started is reported up, whatever
-- the query asks for and however the timers fire.
pub get_health_state-few :
    (config : ReadinessConfig) (start : ℕ) (events : List HealthEvent) (query : Option String)
    → rejections events ≤ config.allowed
    → get_health_state (watch config (new_health_check config start) events) query ≡ (up, 200)
unfolding new_health_check
get_health_state-few config start events query few =
    state_of_flags (watch config (new_health_check config start) events) query
      (watch-IsCalm config events (new_health_check config start) 0 (omega arith)
        (record { is_ready = refl; is_counting = refl; at_most = omega arith }))
      (watch-live config events (new_health_check config start))

-- This many rejections in a row.
abbrev pub many : ℕ → List HealthEvent
many zero = []
many (suc n) = rejection ∷ many n

-- What rejections leave as it is.
record IsResting (health : HealthCheck) (due : ℕ) : Type 0 where
  not_ready : health.ready ≡ false
  is_recovering : health.phase ≡ recovering
  due_then : health.due ≡ due
  is_live : health.live ≡ true
