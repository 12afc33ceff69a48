-- ===== src/Server/Health.antt =====
-- Health checks: crates/apollo-mcp-server/src/health.rs. The task that watches the rejections is a state that
-- waits for its next timer; times are nanoseconds.
pub mod Readiness
mod Tests
use Prim.Native.Char.{code}
use apollo_mcp_server.Prelude.{
  ℕ, ◌+◌, ◌-◌, ◌*◌, Bool, true, false, ◌&&◌, Option, none, some, List, [], ◌∷◌, String, ltb, leb,
  nat_eq, if◌then◌else◌,
}

pub record ReadinessConfig : Type 0 where
  pub allowed : ℕ
  pub sampling : ℕ
  pub unready : Option ℕ

-- The watching task counts, or waits for the recovery.
pub data Phase : Type 0 where
  counting : Phase
  recovering : Phase

pub record HealthCheck : Type 0 where
  pub live : Bool
  pub ready : Bool
  pub rejected : ℕ
  pub phase : Phase
  -- When the timer fires next.
  pub due : ℕ

pub data HealthStatus : Type 0 where
  up : HealthStatus
  down : HealthStatus

unfoldable pub recovery_interval : ReadinessConfig → ℕ
recovery_interval config = elim config.unready [ some span ↦ span | none ↦ 2 * config.sampling ]

unfoldable pub new_health_check : ReadinessConfig → ℕ → HealthCheck
new_health_check config now = record {
  live = true;
  ready = true;
  rejected = 0;
  phase = counting;
  due = now + config.sampling;
}

-- `AtomicUsize::fetch_add`, which wraps around.
unfoldable pub record_rejection : HealthCheck → HealthCheck
record_rejection health = record health {
  rejected = if leb 18446744073709551615 health.rejected then 0 else health.rejected + 1;
}

-- The timer fires: a tick of the interval, or the end of the sleep.
on_timer : ReadinessConfig → ℕ → Phase → HealthCheck → HealthCheck
unfolding recovery_interval
on_timer config now counting health =
    if ltb config.allowed health.rejected
    then record health { ready = false; phase = recovering; due = now + recovery_interval config }
    else record health { due = health.due + config.sampling }
on_timer config now recovering health = record health {
  rejected = 0;
  ready = true;
  phase = counting;
  due = now + config.sampling;
}

pub data HealthEvent : Type 0 where
  rejection : HealthEvent
  timer : ℕ → HealthEvent

unfoldable pub handle : ReadinessConfig → HealthCheck → HealthEvent → HealthCheck
unfolding record_rejection on_timer
handle config health rejection = record_rejection health
handle config health (timer now) = on_timer config now health.phase health

unfoldable pub watch : ReadinessConfig → HealthCheck → List HealthEvent → HealthCheck
unfolding handle
watch config health [] = health
watch config health (event ∷ events) = watch config (handle config health event) events

abbrev upper_code : ℕ → ℕ
upper_code n = if leb 97 n && leb n 122 then n - 32 else n

-- `to_ascii_uppercase().starts_with(prefix)`, for a prefix in capital letters
unfoldable pub starts_with_upper : String → String → Bool
starts_with_upper String.[] s = true
starts_with_upper (String.◌∷◌ c prefix) String.[] = false
starts_with_upper (String.◌∷◌ c prefix) (String.◌∷◌ d s) =
    let later = starts_with_upper prefix s in
    if nat_eq (code c) (upper_code (code d)) then later else false

-- A flag as a status with its HTTP code.
status_of : Bool → HealthStatus × ℕ
status_of true = (up, 200)
status_of false = (down, 503)

unfoldable pub get_health_state : HealthCheck → Option String → HealthStatus × ℕ
unfolding status_of starts_with_upper
get_health_state health none = (up, 200)
get_health_state health (some query) =
    if starts_with_upper "READY" query
    then status_of health.ready
    else if starts_with_upper "LIVE" query
    then status_of health.live
    else (up, 200)
