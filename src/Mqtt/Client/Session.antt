-- ===== src/Mqtt/Client/Session.antt =====
-- core/aiot_mqtt_api.c: the notifications of the client, reconnecting, and the receiving of one packet.
use aliyun_iot_arm.Prelude.{
  ℕ, zero, suc, ◌+◌, ◌-◌, ◌*◌, ◌/◌, ◌%◌, ◌^◌, ◌≤◌, ◌<◌, ◌≡◌, refl, sym, ap, ◌∙◌, subst, subst₂, ◌≢◌,
  ◌↔◌, ◌⊎◌, inl, inr, Bool, true, false, not, ◌&&◌, ◌||◌, Option, none, some, List, [], ◌∷◌, ◌++◌,
  map, append-nil, append_assoc, arith, bit_and, bit_or, bit_xor, ltb, leb, ◌==◌, if◌then◌else◌,
  ltb→lt, lt→ltb, leb→le, ==_iff, Bool-cases, Option-cases, length, get_elem?, set, length-append,
  length-set, get_elem?-set_self, get_elem?-set_ne, get_or, take, drop, replicate, take-append-drop,
  All, drop-append, take-append, take_all, length-take, length-drop, length-replicate, length-map,
  ℤ, pos, negsuc, inc, dec, is_zero, is_neg, eq_ℤ, sub_ℕ, neg, eq_ℤ→eq, eq_ℤ_refl, Bytes, codes,
  starts_with, str_eq, strstr, isspace, snprintf, str_eq_iff, str_eq_refl, starts_with-append,
}
use aliyun_iot_arm.Mqtt.Codes.{
  Code, state_success, state_sys_depend_nwk_closed, state_sys_depend_nwk_read_lessdata,
  state_user_input_exec_disabled, state_mqtt_connect_success, state_mqtt_packet_type_unknown,
}
use aliyun_iot_arm.Mqtt.Client.State.{
  Port, Handle, Out, Event, EventType, connect, reconnect, network_disconnect, heartbeat_disconnect,
  notified, processed,
}
use aliyun_iot_arm.Mqtt.Client.Net.{
  read, read_remainlen, read_remainbytes, byte_of, close_handle, close_world,
}
use aliyun_iot_arm.Mqtt.Client.Inbound.{
  Message, pingresp_handler, pub_handler, puback_handler, subunsuback_handler,
}
use aliyun_iot_arm.Mqtt.Client.Outbound.{exec_inc, exec_dec, out_dec, refused, heartbeat, repub}
pub mod Notify
pub mod Backoff

-- `_core_mqtt_event_notify`: the handler of the client, where there is one, and the process handlers.
abbrev pub event_notify : Handle → EventType → List Event
event_notify h event_type =
    (if h.event_handler == 0 then [] else notified event_type ∷ [])
    ++ map (λ handler. processed handler event_type) h.process_data_list

-- `_core_mqtt_connect_event_notify`
unfoldable pub connect_event_notify : Handle → Handle × List Event
connect_event_notify h =
    let event_type = if h.has_connected then reconnect else connect in
    (record h { disconnected = false; has_connected = true }, event_notify h event_type)

-- `_core_mqtt_disconnect_event_notify`
unfoldable pub disconnect_event_notify : EventType → Handle → Handle × List Event
disconnect_event_notify event_type h =
    if h.has_connected && not h.disconnected
    then (record h { disconnected = true }, event_notify h event_type)
    else (h, [])

-- The sum of a `uint32_t` and an `int32_t`.
abbrev pub add_wrap : ℕ → ℤ → ℕ
add_wrap a (pos r) = (a + r) % 2 ^ 32
add_wrap a (negsuc r) = (a % 2 ^ 32 + 2 ^ 32 - (r + 1) % 2 ^ 32) % 2 ^ 32

abbrev pub interval_of : Handle → ℕ
interval_of h =
    if h.backoff_enabled
    then add_wrap (h.reconnect_interval_ms * (h.reconnect_counter + 1)) h.rand_ms
    else h.reconnect_interval_ms

-- `CORE_MQTT_DEFAULT_RECONN_MAX_COUNTERS`
abbrev pub max_counters : ℕ
max_counters = 60

-- The counter behind an attempt.
unfoldable pub backoff : (res : Code) → Handle → Handle
backoff res h =
    if not h.backoff_enabled
    then h
    else (if eq_ℤ res state_mqtt_connect_success
        then record h { reconnect_counter = 0 }
        else (if ltb h.reconnect_counter max_counters
            then record h { reconnect_counter = h.reconnect_counter + 1 }
            else h))

-- The five bits of the first byte that `aiot_mqtt_recv` looks at.
abbrev pub packet_type : ℕ → ℕ
packet_type header = bit_and header 0xF0

abbrev pub packet_qos : ℕ → ℕ
packet_qos header = bit_and header 0x0F / 2 % 4

module _ {W : Type 0} (p : Port W) where
  abbrev pub close_out : Out W → Out W
  close_out out = record out {
    handle = close_handle out.handle;
    world = close_world p out.handle out.world;
  }

  -- The `switch` of `aiot_mqtt_recv` over the type of the packet.
  unfoldable pub dispatch :
      (decompress : Option (Message → Code × Message))
      → List Bool
      → Handle
      → (header : ℕ) (remain : Bytes) → W
      → Out W
  unfolding pingresp_handler pub_handler puback_handler subunsuback_handler
  dispatch decompress oks h header remain w =
      let acked = λ (is_suback : Bool). record (refused state_success h w) {
        events = subunsuback_handler is_suback h remain;
      } in
      let kind = packet_type header in
      if kind == 0xD0
      then pingresp_handler p h (length remain) w
      else (if kind == 0x30
          then pub_handler p decompress oks h remain (packet_qos header) w
          else (if kind == 0x40
              then puback_handler p h remain w
              else (if kind == 0x90
                  then acked true
                  else (if kind == 0xB0
                      then acked false
                      else (if kind == 0x50 || (kind == 0x60 || kind == 0x70)
                          then refused state_success h w
                          else refused state_mqtt_packet_type_unknown h w)))))

  -- The reading part of `aiot_mqtt_recv`, behind its attempts to connect.
  unfoldable pub recv_packet :
      (decompress : Option (Message → Code × Message)) → List Bool → Handle → W → Out W
  unfolding dispatch read read_remainlen read_remainbytes
  recv_packet decompress oks h w =
      let (res, header, w1) = read p h 1 w in
      let (res2, remainlen, w2) = read_remainlen p h w1 in
      let (res3, remain, w3) = read_remainbytes p h remainlen w2 in
      let out = dispatch decompress oks (record h { lost_times = 0 }) (byte_of header) remain w3 in
      if is_neg res
      then (if eq_ℤ res state_sys_depend_nwk_read_lessdata
          then refused state_success h w1
          else close_out (refused res h w1))
      else (if is_neg res2
          then close_out (refused res2 h w2)
          else (if is_neg res3
              then close_out (refused res3 h w3)
              else (if is_neg out.res then close_out out else out)))

  -- `_core_mqtt_connect` is a parameter of what follows.
  module _ (core_connect : Handle → W → Out W) where
    -- `_core_mqtt_reconnect`
    unfoldable pub reconnect_step : Handle → W → Out W
    unfolding backoff
    reconnect_step h w =
        let (now, w1) = p.time w in
        let last = if ltb now h.last_retry_time then now else h.last_retry_time in
        let h1 = record h { last_retry_time = last } in
        let out = core_connect h1 w1 in
        let (later, w2) = p.time out.world in
        if h.network
        then refused state_success h w
        else (if ltb now ((last + interval_of h) % 2 ^ 64)
            then refused state_sys_depend_nwk_closed h1 w1
            else record out {
              handle = backoff out.res (record out.handle { last_retry_time = later });
              world = w2;
            })

    -- What follows an attempt: its success is notified, its failure ends the call.
    unfoldable pub resume : Out W → Bool × Out W
    unfolding connect_event_notify
    resume attempt =
        let (h', events) = connect_event_notify (record attempt.handle { lost_times = 0 }) in
        if not (is_neg attempt.res)
        then (true, attempt)
        else (if eq_ℤ attempt.res state_mqtt_connect_success
            then (
              true,
              record attempt {
                res = state_success;
                handle = h';
                events = attempt.events ++ events;
              },
            )
            else (false, attempt))

    abbrev pub may_reconnect : Handle → Bool
    may_reconnect h = h.reconnect_enabled && not h.disconnect_api_called

    -- The first part of `aiot_mqtt_recv`: a lost connection is notified and tried again.
    unfoldable pub restore_network : Handle → W → Bool × Out W
    unfolding disconnect_event_notify reconnect_step resume
    restore_network h w =
        let (h1, lost) = disconnect_event_notify network_disconnect h in
        let h2 = if h.network then h else h1 in
        let before = if h.network then [] else lost in
        let (goes_on, out) = resume (reconnect_step h2 w) in
        if may_reconnect h2
        then (goes_on, record out { events = before ++ out.events })
        else (true, record { res = state_success; handle = h2; world = w; events = before })

    -- The second part: too many heartbeats without an answer.
    unfoldable pub restore_heartbeat : Handle → W → Bool × Out W
    unfolding disconnect_event_notify resume
    restore_heartbeat h w =
        let (h1, before) = disconnect_event_notify heartbeat_disconnect h in
        let (goes_on, out) = resume (core_connect h1 w) in
        if not (ltb h.max_lost_times h.lost_times)
        then (true, refused state_success h w)
        else (if may_reconnect h1
            then (goes_on, record out { events = before ++ out.events })
            else (true, record { res = state_success; handle = h1; world = w; events = before }))

    -- `aiot_mqtt_recv`
    unfoldable pub recv :
        (decompress : Option (Message → Code × Message)) → List Bool → Handle → W → Out W
    unfolding restore_network restore_heartbeat recv_packet
    recv decompress oks h w =
        let (goes_on, out1) = restore_network (exec_inc h) w in
        let (goes_on', out2) = restore_heartbeat out1.handle out1.world in
        let out3 = recv_packet decompress oks out2.handle out2.world in
        if not h.exec_enabled
        then refused state_user_input_exec_disabled h w
        else (if not goes_on
            then out_dec out1
            else (if not goes_on'
                then out_dec (record out2 { events = out1.events ++ out2.events })
                else out_dec
                    (record out3 { events = out1.events ++ (out2.events ++ out3.events) })))

  -- `aiot_mqtt_process`; the process handlers, which it calls without an event, are left out.
  unfoldable pub process : Handle → W → Out W
  unfolding heartbeat repub
  process h w =
      let (now, w1) = p.time w in
      let h0 = exec_inc h in
      let last = if ltb now h0.last_send_time then now else h0.last_send_time in
      let h1 = record h0 { last_send_time = last } in
      let due = leb h.heartbeat_interval_ms (now - last) in
      let beat = heartbeat p h1 w1 in
      let h2 =
        if due
        then record (beat.handle) {
          last_send_time = now;
          lost_times = (beat.handle.lost_times + 1) % 2 ^ 32;
        }
        else h1 in
      let again = repub p h2 (if due then beat.world else w1) in
      if not h.exec_enabled
      then refused state_user_input_exec_disabled h w
      else out_dec (record again { res = if due then beat.res else state_success })
