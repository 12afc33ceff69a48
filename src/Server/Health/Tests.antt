-- ===== src/Server/Health/Tests.antt =====
-- Tests of the health check, and its theorems at concrete inputs.
use apollo_mcp_server.Prelude.{◌≡◌, refl, true, none, some, [], ◌∷◌, arith}
use apollo_mcp_server.Server.Health.{
  ReadinessConfig, counting, HealthCheck, up, down, recovery_interval, new_health_check,
  record_rejection, rejection, timer, handle, watch, starts_with_upper, get_health_state,
}
use apollo_mcp_server.Server.Health.Readiness.{get_health_state-few}

abbrev config : ReadinessConfig
config = record { allowed = 1; sampling = 5; unready = none }

health_open : Unit {0}
unfolding recovery_interval new_health_check record_rejection handle watch starts_with_upper
    get_health_state
health_open = tt

abbrev crowded : HealthCheck
crowded = record { live = true; ready = true; rejected = 2; phase = counting; due = 5 }

two_rejections : watch config (new_health_check config 0) (rejection ∷ rejection ∷ []) ≡ crowded
unfolding health_open
two_rejections = refl

probes :
    (get_health_state (watch config crowded (timer 5 ∷ [])) (some "ready=1") ≡ (down, 503))
    × (get_health_state (watch config crowded (timer 5 ∷ [])) (some "Live") ≡ (up, 200))
    × (get_health_state (watch config crowded (timer 5 ∷ [])) none ≡ (up, 200))
unfolding health_open
probes = (refl, refl, refl)

get_health_state-few_example :
    get_health_state
      (watch config (new_health_check config 0) (rejection ∷ timer 5 ∷ timer 10 ∷ []))
      (some "ready")
    ≡ (up, 200)
get_health_state-few_example =
    get_health_state-few config 0 (rejection ∷ timer 5 ∷ timer 10 ∷ []) (some "ready") (omega arith)
