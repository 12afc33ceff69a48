-- ===== src/Server/Notifications.antt =====
-- The notifications of clients about changed tools:
-- crates/apollo-mcp-server/src/server/states/tool_list_changes.rs. The watch channel is its version, and a
-- receiver is the version it has seen. Its sender lives as long as the server, so the channel is never
-- closed while a task waits.
pub mod Delivered
mod Tests
use apollo_mcp_server.Prelude.{ℕ, suc, Bool, true, false, List, [], ◌∷◌, nat_eq, if◌then◌else◌}

-- The task that forwards the changes: it waits for a change, sends a notification, or has ended.
pub data Delivery : Type 0 where
  idle : ℕ → Delivery
  sending : ℕ → Delivery
  ended : Delivery

pub data Lifecycle : Type 0 where
  awaiting_initialize : Lifecycle
  awaiting_initialized : ℕ → Lifecycle
  started_delivery : Delivery → Lifecycle

pub data SendResult : Type 0 where
  sent : SendResult
  transport_error : SendResult
  other_error : SendResult

-- One client's session, with the versions at which its notifications began, the newest first.
pub record Session : Type 0 where
  pub version : ℕ
  pub lifecycle : Lifecycle
  pub cancelled : Bool
  pub notified : List ℕ

pub data SessionEvent : Type 0 where
  publish : SessionEvent
  initialize : SessionEvent
  on_initialized : SessionEvent
  cancel : SessionEvent
  -- The task runs up to its next suspension.
  wake : SessionEvent
  -- The notification under way ends.
  reply : SendResult → SessionEvent

subscribed : Lifecycle → ℕ → Lifecycle
subscribed awaiting_initialize version = awaiting_initialized version
subscribed other version = other

delivering : Lifecycle → Lifecycle
delivering (awaiting_initialized seen) = started_delivery (idle seen)
delivering unchanged = unchanged

-- The first `select!` of the loop: shutdown goes first, then a change.
await_change : Session → Lifecycle → Session
await_change s (started_delivery (idle seen)) =
    if s.cancelled
    then record s { lifecycle = started_delivery ended }
    else if nat_eq seen s.version
    then s
    else record s {
      lifecycle = started_delivery (sending s.version);
      notified = s.version ∷ s.notified;
    }
await_change s (started_delivery (sending seen)) =
    if s.cancelled then record s { lifecycle = started_delivery ended } else s
await_change s other = s

after_send : ℕ → SendResult → Delivery
after_send seen sent = idle seen
after_send seen other_error = idle seen
after_send seen transport_error = ended

-- The second `select!`, and the policy on its result.
await_send : Session → Lifecycle → SendResult → Session
unfolding after_send
await_send s (started_delivery (sending seen)) result =
    if s.cancelled
    then record s { lifecycle = started_delivery ended }
    else record s { lifecycle = started_delivery (after_send seen result) }
await_send s other result = s

unfoldable pub on_event : Session → SessionEvent → Session
unfolding subscribed delivering await_change await_send
on_event s publish = record s { version = suc s.version }
on_event s initialize = record s { lifecycle = subscribed s.lifecycle s.version }
on_event s on_initialized = record s { lifecycle = delivering s.lifecycle }
on_event s cancel = record s { cancelled = true }
on_event s wake = await_change s s.lifecycle
on_event s (reply result) = await_send s s.lifecycle result

unfoldable pub on_events : Session → List SessionEvent → Session
unfolding on_event
on_events s [] = s
on_events s (event ∷ events) = on_events (on_event s event) events

abbrev pub new_session : ℕ → Session
new_session version = record {
  version = version;
  lifecycle = awaiting_initialize;
  cancelled = false;
  notified = [];
}
