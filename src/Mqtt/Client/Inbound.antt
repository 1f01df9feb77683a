-- ===== src/Mqtt/Client/Inbound.antt =====
-- core/aiot_mqtt_api.c: the handlers of the packets that the server sends.
use aliyun_iot_arm.Prelude.{
  ℕ, zero, suc, ◌+◌, ◌-◌, ◌*◌, ◌/◌, ◌%◌, ◌^◌, ◌≤◌, ◌<◌, ◌≡◌, refl, sym, ap, ◌∙◌, subst, subst₂, ◌≢◌,
  ◌↔◌, ◌⊎◌, inl, inr, Bool, true, false, not, ◌&&◌, ◌||◌, Option, none, some, List, [], ◌∷◌, ◌++◌,
  map, append-nil, append_assoc, arith, bit_and, bit_or, bit_xor, ltb, leb, ◌==◌, if◌then◌else◌,
  ltb→lt, lt→ltb, leb→le, ==_iff, Bool-cases, Option-cases, length, get_elem?, set, length-append,
  length-set, get_elem?-set_self, get_elem?-set_ne, get_or, take, drop, replicate, take-append-drop,
  All, drop-append, take-append, take_all, length-take, length-drop, length-replicate, length-map,
  ℤ, pos, negsuc, inc, dec, is_zero, is_neg, eq_ℤ, sub_ℕ, neg, eq_ℤ→eq, eq_ℤ_refl, Bytes, codes,
  starts_with, str_eq, strstr, isspace, snprintf, str_eq_iff, str_eq_refl, starts_with-append,
}
use aliyun_iot_arm.Mqtt.Codes.{
  Code, state_success, state_mqtt_recv_invalid_pinresp_packet,
  state_mqtt_recv_invalid_publish_packet, state_mqtt_recv_invalid_puback_packet,
  state_mqtt_suback_rcode_failure, state_mqtt_suback_rcode_unknown,
  state_mqtt_connack_rcode_unacceptable_protocol_version,
  state_mqtt_connack_rcode_server_unavailable, state_mqtt_connack_rcode_bad_username_password,
  state_mqtt_connack_rcode_not_authorized, state_mqtt_connack_rcode_unknown,
}
use aliyun_iot_arm.Mqtt.Wire.{two_bytes, puback_pkt}
use aliyun_iot_arm.Mqtt.PubList.{publist_remove}
use aliyun_iot_arm.Mqtt.SubList.{SubHandler}
use aliyun_iot_arm.Mqtt.SubList.Deliver.{call_user_handler}
use aliyun_iot_arm.Mqtt.Client.State.{
  Port, Handle, Out, Event, message, heartbeat_response, pub_ack, sub_ack, unsub_ack,
}
use aliyun_iot_arm.Mqtt.Client.Net.{send_packet}
pub mod Parse

-- `_core_mqtt_connack_handle` on the second byte of the packet.
unfoldable pub connack_handle : (return_code : ℕ) → Code
connack_handle rc =
    if rc == 0
    then state_success
    else (if rc == 1
        then state_mqtt_connack_rcode_unacceptable_protocol_version
        else (if rc == 2
            then state_mqtt_connack_rcode_server_unavailable
            else (if rc == 3
                then state_mqtt_connack_rcode_bad_username_password
                else (if rc == 4
                    then state_mqtt_connack_rcode_not_authorized
                    else state_mqtt_connack_rcode_unknown))))

-- `core_mqtt_msg_t`
pub record Message : Type 0 where
  pub topic : Bytes
  pub payload : Bytes

-- What lies behind the topic: the packet identifier for QoS 1, and the payload.
unfoldable pub split_payload : (qos : ℕ) (topic rest : Bytes) → Option (ℕ × Message)
split_payload zero topic rest = some (0, record { topic = topic; payload = rest })
split_payload (suc qos) topic (hi ∷ lo ∷ rest) =
    some (two_bytes hi lo, record { topic = topic; payload = rest })
split_payload (suc qos) topic rest = none

-- The part of `_core_mqtt_pub_handler` that reads the packet, with its bounds; `none` refuses it.
unfoldable pub split_publish : (qos : ℕ) → Bytes → Option (ℕ × Message)
unfolding split_payload
split_publish qos (hi ∷ lo ∷ rest) =
    let topic_len = two_bytes hi lo in
    if ltb 1 qos || ltb (length rest) topic_len
    then none
    else split_payload qos (take topic_len rest) (drop topic_len rest)
split_publish qos input = none

-- The calls for a message, as events.
abbrev pub message_event : (qos : ℕ) → Message → SubHandler → Event
message_event qos msg call = message call.handler call.userdata qos msg.topic msg.payload

-- A call of the client's own handler, where it has one.
abbrev pub to_recv_handler : Handle → Event → List Event
to_recv_handler h event = if h.recv_handler == 0 then [] else event ∷ []

-- `_core_mqtt_subunsuback_handler` for SUBACK: one answer of three bytes after the other.
unfoldable pub suback_events : Handle → Bytes → List Event
suback_events h (hi ∷ lo ∷ rc ∷ rest) =
    let event =
      if leb rc 2
      then sub_ack (two_bytes hi lo) state_success rc
      else (if rc == 0x80
          then sub_ack (two_bytes hi lo) state_mqtt_suback_rcode_failure 0
          else sub_ack (two_bytes hi lo) state_mqtt_suback_rcode_unknown 0) in
    to_recv_handler h event ++ suback_events h rest
suback_events h rest = []

unfoldable pub unsuback_events : Handle → Bytes → List Event
unsuback_events h (hi ∷ lo ∷ rest) =
    to_recv_handler h (unsub_ack (two_bytes hi lo)) ++ unsuback_events h rest
unsuback_events h rest = []

-- `_core_mqtt_subunsuback_handler`, whose two uses differ in the type of the packet.
unfoldable pub subunsuback_handler : (is_suback : Bool) → Handle → Bytes → List Event
unfolding suback_events unsuback_events
subunsuback_handler true h input = if length input % 3 == 0 then suback_events h input else []
subunsuback_handler false h input = if length input % 2 == 0 then unsuback_events h input else []

module _ {W : Type 0} (p : Port W) where
  -- `_core_mqtt_pingresp_handler`; the round trip time is a difference of 64 bits.
  unfoldable pub pingresp_handler : Handle → (len : ℕ) → W → Out W
  pingresp_handler h len w =
      let (now, w') = p.time w in
      let rtt = (now + 2 ^ 64 - h.last_send_time) % 2 ^ 64 in
      if not (len == 0)
      then record {
        res = state_mqtt_recv_invalid_pinresp_packet;
        handle = h;
        world = w';
        events = [];
      }
      else record {
        res = state_success;
        handle = if ltb rtt 10000 then record h { rtt = (h.rtt + rtt) / 2 } else h;
        world = w';
        events = to_recv_handler h heartbeat_response;
      }

  -- `_core_mqtt_puback_send`, whose callers drop the result.
  unfoldable pub puback_send : Handle → (packet_id : ℕ) → W → Out W
  unfolding send_packet
  puback_send h packet_id w = send_packet p h (puback_pkt packet_id) w

  -- The end of `_core_mqtt_pub_handler`: a decompression, if one is set, and the calls. `oks` says
  -- whether the memory for the copy of each handler is had.
  unfoldable pub deliver :
      (decompress : Option (Message → Code × Message))
      → List Bool
      → (qos : ℕ) → Message
      → Out W
      → Out W
  unfolding call_user_handler
  deliver none oks qos msg out = record out {
    res = state_success;
    events = map (message_event qos msg) (
        call_user_handler oks out.handle.recv_handler out.handle.userdata msg.topic
          out.handle.sub_list);
  }
  deliver (some handler) oks qos msg out =
      let (res, dest) = handler msg in
      if is_neg res then record out { res = res; events = [] } else record out {
        res = state_success;
        events = map (message_event qos dest) (
            call_user_handler oks out.handle.recv_handler out.handle.userdata dest.topic
              out.handle.sub_list);
      }

  -- `_core_mqtt_pub_handler`
  unfoldable pub pub_handler :
      (decompress : Option (Message → Code × Message))
      → List Bool
      → Handle
      → (input : Bytes) (qos : ℕ) → W
      → Out W
  unfolding split_publish puback_send deliver
  pub_handler decompress oks h input qos w = elim (split_publish qos input) [
    | none ↦ record {
      res = state_mqtt_recv_invalid_publish_packet;
      handle = h;
      world = w;
      events = [];
    }
    | some (packet_id, msg) ↦ deliver decompress oks qos msg (
        if qos == 1
        then puback_send h packet_id w
        else record { res = state_success; handle = h; world = w; events = [] })
  ]

  -- `_core_mqtt_puback_handler`
  unfoldable pub puback_handler : Handle → Bytes → W → Out W
  unfolding publist_remove
  puback_handler h (hi ∷ lo ∷ []) w = record {
    res = state_success;
    handle = record h { pub_list = publist_remove (two_bytes hi lo) h.pub_list };
    world = w;
    events = to_recv_handler h (pub_ack (two_bytes hi lo));
  }
  puback_handler h input w = record {
    res = state_mqtt_recv_invalid_puback_packet;
    handle = h;
    world = w;
    events = [];
  }
