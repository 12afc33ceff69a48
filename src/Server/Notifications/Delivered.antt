-- ===== src/Server/Notifications/Delivered.antt =====
-- No change of the tools is lost, and none is notified twice: invariants of the parent.
use mathlib.Core.Path.{subst}
use apollo_mcp_server.Prelude.{
  ap, ℕ, suc, ◌≤◌, ◌<◌, ◌≡◌, ◌⊎◌, sym, refl, Bool, true, false, List, [], ◌∷◌, ◌++◌, nat_eq,
  Bool-cases, inl, inr, arith, if◌then◌else◌,
}
use apollo_mcp_server.Server.Notifications.{
  idle, sending, ended, Lifecycle, awaiting_initialize, awaiting_initialized, started_delivery,
  SendResult, sent, transport_error, other_error, Session, SessionEvent, publish, initialize,
  on_initialized, cancel, wake, reply, subscribed, delivering, await_change, after_send, await_send,
  on_event, on_events, new_session,
}

-- The version of the newest notification, or the one at which the session subscribed.
abbrev pub latest : ℕ → List ℕ → ℕ
latest base [] = base
latest base (v ∷ vs) = v

-- Each notification is of a newer version than all before it, and than the subscription.
abbrev pub IsRising : ℕ → List ℕ → Type 0
IsRising base [] = Unit
IsRising base (v ∷ vs) = (latest base vs < v) × IsRising base vs

-- What a live receiver has seen is what the client was told last.
IsTold : ℕ → ℕ → ℕ → List ℕ → Type 0
IsTold base seen version notified =
    (seen ≡ latest base notified) × IsRising base notified × (seen ≤ version)

abbrev Tracked : ℕ → Lifecycle → ℕ → List ℕ → Type 0
Tracked base awaiting_initialize version notified = ⊥
Tracked base (awaiting_initialized seen) version notified =
    (notified ≡ []) × (seen ≡ base) × (base ≤ version)
Tracked base (started_delivery (idle seen)) version notified = IsTold base seen version notified
Tracked base (started_delivery (sending seen)) version notified = IsTold base seen version notified
Tracked base (started_delivery ended) version notified = Unit

abbrev IsTracked : ℕ → Session → Type 0
IsTracked base s = Tracked base s.lifecycle s.version s.notified

-- The version at which the first `initialize` subscribes: the changes before it are counted.
abbrev pub subscribed_at : ℕ → List SessionEvent → ℕ
subscribed_at version [] = version
subscribed_at version (publish ∷ events) = subscribed_at (suc version) events
subscribed_at version (initialize ∷ events) = version
subscribed_at version (on_initialized ∷ events) = subscribed_at version events
subscribed_at version (cancel ∷ events) = subscribed_at version events
subscribed_at version (wake ∷ events) = subscribed_at version events
subscribed_at version (reply result ∷ events) = subscribed_at version events

published-Tracked :
    (base version : ℕ) (notified : List ℕ) (lifecycle : Lifecycle)
    → Tracked base lifecycle version notified
    → Tracked base lifecycle (suc version) notified
unfolding IsTold
published-Tracked base version notified awaiting_initialize h = h
published-Tracked base version notified (awaiting_initialized seen) h = (h.0, h.1, omega arith)
published-Tracked base version notified (started_delivery (idle seen)) h = (h.0, h.1, omega arith)
published-Tracked base version notified (started_delivery (sending seen)) h =
    (h.0, h.1, omega arith)
published-Tracked base version notified (started_delivery ended) h = tt

subscribed-Tracked :
    (base version : ℕ) (notified : List ℕ) (lifecycle : Lifecycle)
    → Tracked base lifecycle version notified
    → Tracked base (subscribed lifecycle version) version notified
unfolding subscribed
subscribed-Tracked base version notified awaiting_initialize h = absurd h
subscribed-Tracked base version notified (awaiting_initialized seen) h = h
subscribed-Tracked base version notified (started_delivery d) h = h

delivering-Tracked :
    (base version : ℕ) (notified : List ℕ) (lifecycle : Lifecycle)
    → Tracked base lifecycle version notified
    → Tracked base (delivering lifecycle) version notified
unfolding delivering IsTold
delivering-Tracked base version notified awaiting_initialize h = h
delivering-Tracked base version notified (awaiting_initialized seen) h =
    (rw (h.0) h.1, rw (h.0) tt, ground arith)
delivering-Tracked base version notified (started_delivery d) h = h

await_change-IsTracked :
    (s : Session) (base : ℕ) (lifecycle : Lifecycle)
    → s.lifecycle ≡ lifecycle
    → Tracked base lifecycle s.version s.notified
    → Tracked base
        (await_change s lifecycle).lifecycle
        (await_change s lifecycle).version
        (await_change s lifecycle).notified
unfolding await_change IsTold
await_change-IsTracked s base awaiting_initialize e h = absurd h
await_change-IsTracked s base (awaiting_initialized seen) e h = rw (e) h
await_change-IsTracked s base (started_delivery ended) e h = rw (e) tt
await_change-IsTracked s base (started_delivery (sending seen)) e h =
    elim (Bool-cases s.cancelled) [ inl stops ↦ rw (stops) tt | inr live ↦ rw (live, e) h ]
await_change-IsTracked s base (started_delivery (idle seen)) e h = elim (Bool-cases s.cancelled) [
  | inl stops ↦ rw (stops) tt
  | inr live ↦ elim (Bool-cases (nat_eq seen s.version)) [
    | inl same ↦ rw (live, same, e) h
    | inr newer ↦ rw (live, newer) (refl, (ground arith, h.1), omega arith)
  ]
]

await_send-IsTracked :
    (s : Session) (base : ℕ) (result : SendResult) (lifecycle : Lifecycle)
    → s.lifecycle ≡ lifecycle
    → Tracked base lifecycle s.version s.notified
    → Tracked base
        (await_send s lifecycle result).lifecycle
        (await_send s lifecycle result).version
        (await_send s lifecycle result).notified
unfolding await_send after_send
await_send-IsTracked s base result awaiting_initialize e h = absurd h
await_send-IsTracked s base result (awaiting_initialized seen) e h = rw (e) h
await_send-IsTracked s base result (started_delivery ended) e h = rw (e) tt
await_send-IsTracked s base result (started_delivery (idle seen)) e h = rw (e) h
await_send-IsTracked s base result (started_delivery (sending seen)) e h =
    elim (Bool-cases s.cancelled) [
      | inl stops ↦ rw (stops) tt
      | inr live ↦ rw (live) (sent_tracked result h)
    ]
  where
    sent_tracked :
        (r : SendResult)
        → IsTold base seen s.version s.notified
        → Tracked base (started_delivery (after_send seen r)) s.version s.notified
    sent_tracked sent h = h
    sent_tracked other_error h = h
    sent_tracked transport_error h = tt

on_event-IsTracked :
    (base : ℕ) (s : Session) (event : SessionEvent)
    → IsTracked base s
    → IsTracked base (on_event s event)
unfolding on_event
on_event-IsTracked base s publish h = published-Tracked base s.version s.notified s.lifecycle h
on_event-IsTracked base s initialize h = subscribed-Tracked base s.version s.notified s.lifecycle h
on_event-IsTracked base s on_initialized h =
    delivering-Tracked base s.version s.notified s.lifecycle h
on_event-IsTracked base s cancel h = h
on_event-IsTracked base s wake h = await_change-IsTracked s base s.lifecycle refl h
on_event-IsTracked base s (reply result) h = await_send-IsTracked s base result s.lifecycle refl h

on_events-IsTracked :
    (base : ℕ) (s : Session) (events : List SessionEvent)
    → IsTracked base s
    → IsTracked base (on_events s events)
unfolding on_events
on_events-IsTracked base s [] h = h
on_events-IsTracked base s (event ∷ events) h =
    on_events-IsTracked base (on_event s event) events (on_event-IsTracked base s event h)

-- From a session that waits for `initialize`: it still waits, or is tracked from its subscription on.
waiting-IsTracked :
    (version : ℕ) (cancelled : Bool) (events : List SessionEvent)
    → (later : Session)
    → on_events
        (record {
          version = version;
          lifecycle = awaiting_initialize;
          cancelled = cancelled;
          notified = [];
        })
        events
      ≡ later
    → (later.lifecycle ≡ awaiting_initialize) ⊎ IsTracked (subscribed_at version events) later
unfolding on_events on_event subscribed delivering await_change await_send
waiting-IsTracked version cancelled [] later e = inl (ap (λ s. s.lifecycle) (sym e))
waiting-IsTracked version cancelled (publish ∷ events) later e =
    waiting-IsTracked (suc version) cancelled events later e
waiting-IsTracked version cancelled (initialize ∷ events) later e = inr (
    subst (IsTracked version) e (
      on_events-IsTracked version
        (record {
          version = version;
          lifecycle = awaiting_initialized version;
          cancelled = cancelled;
          notified = [];
        })
        events (refl, refl, omega arith)))
waiting-IsTracked version cancelled (on_initialized ∷ events) later e =
    waiting-IsTracked version cancelled events later e
waiting-IsTracked version cancelled (cancel ∷ events) later e =
    waiting-IsTracked version true events later e
waiting-IsTracked version cancelled (wake ∷ events) later e =
    waiting-IsTracked version cancelled events later e
waiting-IsTracked version cancelled (reply result ∷ events) later e =
    waiting-IsTracked version cancelled events later e

delivers : Lifecycle → Bool
delivers (started_delivery (idle seen)) = true
delivers (started_delivery (sending seen)) = true
delivers other = false

-- The session's task delivers changes, and nobody has cancelled it.
unfoldable pub is_live : Session → Bool
unfolding delivers
is_live s = if s.cancelled then false else delivers s.lifecycle

-- The task has seen the last change.
abbrev HasSeen : Session → Type 0
HasSeen s =
    (s.lifecycle ≡ started_delivery (idle s.version))
    ⊎ (s.lifecycle ≡ started_delivery (sending s.version))

wake_idle :
    (s : Session) (seen : ℕ)
    → s.lifecycle ≡ started_delivery (idle seen)
    → s.cancelled ≡ false
    → HasSeen (await_change s (started_delivery (idle seen)))
unfolding await_change
wake_idle s seen e live = elim (Bool-cases (nat_eq seen s.version)) [
  | inl same ↦
      let caught_up : seen ≡ s.version = ground arith in
      rw (live, same, await_change) (inl (rw (← caught_up) e))
  | inr newer ↦ rw (live, newer, await_change) (inr refl)
]

catches_up :
    (s : Session) (lifecycle : Lifecycle)
    → s.lifecycle ≡ lifecycle
    → s.cancelled ≡ false
    → delivers lifecycle ≡ true
    → HasSeen (on_event (on_event s (reply sent)) wake)
unfolding on_event delivers await_send after_send
catches_up s awaiting_initialize e live h = absurd (ground arith)
catches_up s (awaiting_initialized seen) e live h = absurd (ground arith)
catches_up s (started_delivery ended) e live h = absurd (ground arith)
catches_up s (started_delivery (idle seen)) e live h =
    rw (e) (wake_idle (record s { lifecycle = started_delivery (idle seen) }) seen refl live)
catches_up s (started_delivery (sending seen)) e live h =
    rw (e, live)
      (wake_idle (record s { lifecycle = started_delivery (idle seen); cancelled = false }) seen
        refl refl)

on_events-append :
    (s : Session) (events more : List SessionEvent)
    → on_events s (events ++ more) ≡ on_events (on_events s events) more
unfolding on_events
on_events-append s [] more = ground arith
on_events-append s (event ∷ events) more = on_events-append (on_event s event) events more

told_of_seen :
    (s : Session) (base : ℕ)
    → HasSeen s
    → Tracked base s.lifecycle s.version s.notified
    → IsRising base s.notified × (latest base s.notified ≡ s.version)
unfolding IsTold
told_of_seen s base (inl e) h = let k = rw (e) at h in (k.1, sym k.0)
told_of_seen s base (inr e) h = let k = rw (e) at h in (k.1, sym k.0)

live_not_waiting : (s : Session) → is_live s ≡ true → s.lifecycle ≡ awaiting_initialize → ⊥
unfolding is_live delivers
live_not_waiting s live e = ground arith

-- However changes, initialization, sends and their failures follow each other: while a session delivers
-- and is not cancelled, once the notification under way is sent and the task has run, the newest
-- notification began at the current version of the tools, or there is none and nothing has changed since
-- the first `initialize`, which subscribed the session. Every notification is of a newer version than
-- the one before and than the subscription, so changes are coalesced and none is notified twice.
pub on_events-delivers :
    (start : ℕ) (events : List SessionEvent) (later : Session)
    → is_live (on_events (new_session start) events) ≡ true
    → on_events (new_session start) (events ++ reply sent ∷ wake ∷ []) ≡ later
    → IsRising (subscribed_at start events) later.notified
      × (latest (subscribed_at start events) later.notified ≡ later.version)
unfolding is_live on_events
on_events-delivers start events later live e =
    let base = subscribed_at start events in
    let s : Session = on_events (new_session start) events in
    let last : Session = on_events (new_session start) (events ++ reply sent ∷ wake ∷ []) in
    let tracked : IsTracked base s = elim (waiting-IsTracked start false events s refl) [
      | inl waits ↦ absurd (live_not_waiting s live waits)
      | inr known ↦ known
    ] in
    let after : IsTracked base last =
      rw (on_events-append) (on_events-IsTracked base s (reply sent ∷ wake ∷ []) tracked) in
    let seen : HasSeen last =
      rw (on_events-append) (catches_up s s.lifecycle refl (ground arith) (ground arith)) in
    rw (← e) (told_of_seen last base seen after)
