-- ===== src/Mqtt/Client/Session/Notify.antt =====
-- core/aiot_mqtt_api.c: in which order a client hears of its connection.
use aliyun_iot_arm.Prelude.{
  ℕ, ◌<◌, ◌≡◌, refl, sym, ap, ◌∙◌, subst, inl, inr, Bool, true, false, not, ◌&&◌, List, [], ◌∷◌,
  ◌++◌, map, arith, ◌==◌, if◌then◌else◌, Bool-cases,
}
use aliyun_iot_arm.Mqtt.Client.State.{
  Handle, Event, EventType, connect, reconnect, network_disconnect, heartbeat_disconnect, notified,
  processed,
}
use aliyun_iot_arm.Mqtt.Client.Session.{event_notify, connect_event_notify, disconnect_event_notify}

-- What the client learns of its connection, in the order in which its functions report it.
pub data Notice : Type 0 where
  is_up lost missed : Notice

unfoldable pub notify : Notice → Handle → Handle × List Event
unfolding connect_event_notify disconnect_event_notify
notify is_up h = connect_event_notify h
notify lost h = disconnect_event_notify network_disconnect h
notify missed h = disconnect_event_notify heartbeat_disconnect h

unfoldable pub notify_all : List Notice → Handle → List Event
unfolding notify
notify_all [] h = []
notify_all (notice ∷ notices) h = (notify notice h).1 ++ notify_all notices (notify notice h).0

-- The events of the client's own handler.
unfoldable pub heard : List Event → List EventType
heard [] = []
heard (notified event_type ∷ events) = event_type ∷ heard events
heard (_ ∷ events) = heard events

-- An order of events from a state: whether there was a connection, and whether there is one.
abbrev pub InOrder : (has_connected up : Bool) → List EventType → Type 0
InOrder has up [] = Unit {0}
InOrder has up (connect ∷ events) = (has ≡ false) × InOrder true true events
InOrder has up (reconnect ∷ events) = (has ≡ true) × InOrder true true events
InOrder has up (network_disconnect ∷ events) = (has && up ≡ true) × InOrder true false events
InOrder has up (heartbeat_disconnect ∷ events) = (has && up ≡ true) × InOrder true false events

heard-append : (xs ys : List Event) → heard (xs ++ ys) ≡ heard xs ++ heard ys
unfolding heard
heard-append [] ys = refl
heard-append (notified e ∷ xs) ys = ap (◌∷◌ e) (heard-append xs ys)
heard-append (processed f e ∷ xs) ys = heard-append xs ys
heard-append (x ∷ xs) ys = heard-append xs ys

heard_processed :
    (event_type : EventType) (handlers : List ℕ)
    → heard (map (λ f. processed f event_type) handlers) ≡ []
unfolding heard
heard_processed event_type [] = refl
heard_processed event_type (f ∷ handlers) = heard_processed event_type handlers

heard-event_notify :
    (h : Handle) (event_type : EventType) (events : List Event)
    → 0 < h.event_handler
    → heard (event_notify h event_type ++ events) ≡ event_type ∷ heard events
unfolding heard
heard-event_notify h event_type events some_handler =
    let set : (h.event_handler == 0) ≡ false = ground arith in
    rw (set) (
      ap (◌∷◌ event_type) (
        heard-append (map (λ f. processed f event_type) h.process_data_list) events
        ∙ ap (λ front. front ++ heard events) (heard_processed event_type h.process_data_list)))

-- What a client is to hear, from the notices alone: of each connection, and of a loss where there is a
-- connection to lose.
abbrev pub expected : (has_connected up : Bool) → List Notice → List EventType
expected has up [] = []
expected true up (is_up ∷ notices) = reconnect ∷ expected true true notices
expected false up (is_up ∷ notices) = connect ∷ expected true true notices
expected true true (lost ∷ notices) = network_disconnect ∷ expected true false notices
expected true false (lost ∷ notices) = expected true false notices
expected false up (lost ∷ notices) = expected false up notices
expected true true (missed ∷ notices) = heartbeat_disconnect ∷ expected true false notices
expected true false (missed ∷ notices) = expected true false notices
expected false up (missed ∷ notices) = expected false up notices

expected-InOrder :
    (has up : Bool) (notices : List Notice) → InOrder has up (expected has up notices)
expected-InOrder has up [] = tt
expected-InOrder true up (is_up ∷ notices) = (refl, expected-InOrder true true notices)
expected-InOrder false up (is_up ∷ notices) = (refl, expected-InOrder true true notices)
expected-InOrder true true (lost ∷ notices) = (refl, expected-InOrder true false notices)
expected-InOrder true false (lost ∷ notices) = expected-InOrder true false notices
expected-InOrder false up (lost ∷ notices) = expected-InOrder false up notices
expected-InOrder true true (missed ∷ notices) = (refl, expected-InOrder true false notices)
expected-InOrder true false (missed ∷ notices) = expected-InOrder true false notices
expected-InOrder false up (missed ∷ notices) = expected-InOrder false up notices

expected_up :
    (has up : Bool) (notices : List Notice)
    → expected has up (is_up ∷ notices)
      ≡ (if has then reconnect else connect) ∷ expected true true notices
expected_up true up notices = refl
expected_up false up notices = refl

disconnect_first :
    (event_type : EventType) (h : Handle)
    → h.has_connected && not h.disconnected ≡ true
    → disconnect_event_notify event_type h
      ≡ (record h { disconnected = true }, event_notify h event_type)
unfolding disconnect_event_notify
disconnect_first event_type h up = ground arith

disconnect_again :
    (event_type : EventType) (h : Handle)
    → h.has_connected && not h.disconnected ≡ false
    → disconnect_event_notify event_type h ≡ (h, [])
unfolding disconnect_event_notify
disconnect_again event_type h down = ground arith

-- A loss is heard of while there is a connection, and at no other time.
heard_loss :
    (event_type : EventType) (h : Handle) (rest : Handle → List Event)
    → 0 < h.event_handler
    → heard
        ((disconnect_event_notify event_type h).1 ++ rest (disconnect_event_notify event_type h).0)
      ≡ (if h.has_connected && not h.disconnected
          then event_type ∷ heard (rest (record h { disconnected = true }))
          else heard (rest h))
heard_loss event_type h rest some_handler =
    elim (Bool-cases (h.has_connected && not h.disconnected)) [
      | inl up ↦
          ap (λ r. heard (r.1 ++ rest r.0)) (disconnect_first event_type h up)
          ∙ heard-event_notify h event_type (rest (record h { disconnected = true })) some_handler
          ∙ rw up refl
      | inr silent ↦
          ap (λ r. heard (r.1 ++ rest r.0)) (disconnect_again event_type h silent) ∙ rw silent refl
    ]

expected_lost :
    (has down : Bool) (notices : List Notice)
    → (if has && not down
        then network_disconnect ∷ expected has false notices
        else expected has (not down) notices)
      ≡ expected has (not down) (lost ∷ notices)
expected_lost true true notices = refl
expected_lost true false notices = refl
expected_lost false down notices = refl

expected_missed :
    (has down : Bool) (notices : List Notice)
    → (if has && not down
        then heartbeat_disconnect ∷ expected has false notices
        else expected has (not down) notices)
      ≡ expected has (not down) (missed ∷ notices)
expected_missed true true notices = refl
expected_missed true false notices = refl
expected_missed false down notices = refl

choice :
    (c : Bool) (event_type : EventType) (xs xs' ys ys' : List EventType)
    → xs ≡ xs'
    → ys ≡ ys'
    → (if c then event_type ∷ xs else ys) ≡ (if c then event_type ∷ xs' else ys')
choice c event_type xs xs' ys ys' e e' i = if c then event_type ∷ e i else e' i

heard-notify_all :
    (notices : List Notice) (h : Handle)
    → 0 < h.event_handler
    → heard (notify_all notices h) ≡ expected h.has_connected (not h.disconnected) notices
unfolding notify_all
heard-notify_all [] h some_handler = unfold heard in refl
heard-notify_all (is_up ∷ notices) h some_handler =
    let h' = (connect_event_notify h).0 in
    heard-event_notify h (if h.has_connected then reconnect else connect) (notify_all notices h')
      some_handler
    ∙ ap (◌∷◌ (if h.has_connected then reconnect else connect))
        (heard-notify_all notices h' some_handler)
    ∙ sym (expected_up h.has_connected (not h.disconnected) notices)
heard-notify_all (lost ∷ notices) h some_handler =
    heard_loss network_disconnect h (notify_all notices) some_handler
    ∙ choice (h.has_connected && not h.disconnected) network_disconnect _ _ _ _
        (heard-notify_all notices (record h { disconnected = true }) some_handler)
        (heard-notify_all notices h some_handler)
    ∙ expected_lost h.has_connected h.disconnected notices
heard-notify_all (missed ∷ notices) h some_handler =
    heard_loss heartbeat_disconnect h (notify_all notices) some_handler
    ∙ choice (h.has_connected && not h.disconnected) heartbeat_disconnect _ _ _ _
        (heard-notify_all notices (record h { disconnected = true }) some_handler)
        (heard-notify_all notices h some_handler)
    ∙ expected_missed h.has_connected h.disconnected notices

-- A client that has a handler for events hears exactly what it is to hear, whatever its functions report
-- and in their order: each connection, the first as `connect` and every later one as `reconnect`, and
-- each loss, with its cause, while there is a connection. So it hears in order: of a first connection
-- once, and never of two losses without a connection between them.
pub notify_all-InOrder :
    (notices : List Notice) (h : Handle)
    → 0 < h.event_handler
    → (heard (notify_all notices h) ≡ expected h.has_connected (not h.disconnected) notices)
      × InOrder h.has_connected (not h.disconnected) (heard (notify_all notices h))
notify_all-InOrder notices h some_handler =
    let heard_of = heard-notify_all notices h some_handler in
    (
      heard_of,
      subst (InOrder h.has_connected (not h.disconnected)) (sym heard_of)
          (expected-InOrder h.has_connected (not h.disconnected) notices),
    )
