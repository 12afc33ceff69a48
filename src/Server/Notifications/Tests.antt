-- ===== src/Server/Notifications/Tests.antt =====
-- Tests of the notifications, and their theorem at a concrete input.
use apollo_mcp_server.Prelude.{◌≡◌, refl, false, List, [], ◌∷◌}
use apollo_mcp_server.Server.Notifications.{
  sending, started_delivery, transport_error, Session, SessionEvent, publish, initialize,
  on_initialized, wake, cancel, reply, on_event, on_events, new_session,
}
use apollo_mcp_server.Server.Notifications.Delivered.{
  subscribed_at, latest, IsRising, is_live, on_events-delivers,
}

-- Two changes while the first notification is sent.
abbrev busy : List SessionEvent
busy = publish ∷ initialize ∷ on_initialized ∷ wake ∷ publish ∷ wake ∷ publish ∷ publish ∷ []

abbrev told : Session
told = record {
  version = 4;
  lifecycle = started_delivery (sending 4);
  cancelled = false;
  notified = 4 ∷ 2 ∷ [];
}

stops :
    ((on_events
        (new_session 0)
        (initialize ∷ on_initialized ∷ cancel ∷ publish ∷ wake ∷ [])).notified
      ≡ [])
    × ((on_events (new_session 0) (
          initialize
          ∷ on_initialized
          ∷ publish
          ∷ wake
          ∷ reply transport_error
          ∷ publish
          ∷ wake
          ∷ [])).notified
        ≡ 1 ∷ [])
unfolding on_event on_events
stops = (refl, refl)

on_events-delivers_example :
    IsRising (subscribed_at 0 busy) told.notified
    × (latest (subscribed_at 0 busy) told.notified ≡ 4)
unfolding on_event on_events is_live
on_events-delivers_example = on_events-delivers 0 busy told refl refl
