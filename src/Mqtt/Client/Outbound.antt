-- ===== src/Mqtt/Client/Outbound.antt =====
-- core/aiot_mqtt_api.c: publishing, subscribing, the heartbeat and the sending of what is not acknowledged.
use aliyun_iot_arm.Prelude.{
  ℕ, zero, suc, ◌+◌, ◌-◌, ◌*◌, ◌/◌, ◌%◌, ◌^◌, ◌≤◌, ◌<◌, ◌≡◌, refl, sym, ap, ◌∙◌, subst, subst₂, ◌≢◌,
  ◌↔◌, ◌⊎◌, inl, inr, Bool, true, false, not, ◌&&◌, ◌||◌, Option, none, some, List, [], ◌∷◌, ◌++◌,
  map, append-nil, append_assoc, arith, bit_and, bit_or, bit_xor, ltb, leb, ◌==◌, if◌then◌else◌,
  ltb→lt, lt→ltb, leb→le, ==_iff, Bool-cases, Option-cases, length, get_elem?, set, length-append,
  length-set, get_elem?-set_self, get_elem?-set_ne, get_or, take, drop, replicate, take-append-drop,
  All, drop-append, take-append, take_all, length-take, length-drop, length-replicate, length-map,
  ℤ, pos, negsuc, inc, dec, is_zero, is_neg, eq_ℤ, sub_ℕ, neg, eq_ℤ→eq, eq_ℤ_refl, Bytes, codes,
  starts_with, str_eq, strstr, isspace, snprintf, str_eq_iff, str_eq_refl, starts_with-append,
}
use aliyun_iot_arm.Mqtt.Codes.{
  Code, state_success, state_sys_depend_malloc_failed, state_sys_depend_nwk_write_lessdata,
  state_user_input_null_pointer, state_user_input_out_range, state_user_input_exec_disabled,
  state_mqtt_topic_invalid, state_mqtt_topic_too_long,
}
use aliyun_iot_arm.Mqtt.Wire.{
  sub_pkt_type, unsub_pkt_type, subunsub_pkt, pub_pkt, pingreq_pkt, disconnect_pkt,
}
use aliyun_iot_arm.Mqtt.Topic.{topic_is_valid}
use aliyun_iot_arm.Mqtt.PubList.{PubNode, publist_insert, next_packet_id}
use aliyun_iot_arm.Mqtt.SubList.{Memory, SubNode, sublist_insert, sublist_remove}
use aliyun_iot_arm.Mqtt.Client.State.{Port, Handle, Out, Event}
use aliyun_iot_arm.Mqtt.Client.Net.{write, close_handle, close_world, send_packet}
pub mod Repub
pub mod Publish
pub mod Subscribe

-- `_core_mqtt_exec_inc` and `_core_mqtt_exec_dec` on a `uint32_t`.
abbrev pub exec_inc : Handle → Handle
exec_inc h = record h { exec_count = (h.exec_count + 1) % 2 ^ 32 }

abbrev pub exec_dec : Handle → Handle
exec_dec h = record h { exec_count = (h.exec_count + (2 ^ 32 - 1)) % 2 ^ 32 }

abbrev pub out_dec : {W : Type 0} → Out W → Out W
out_dec out = record out { handle = exec_dec out.handle }

abbrev pub refused : {W : Type 0} → Code → Handle → W → Out W
refused res h w = record { res = res; handle = h; world = w; events = [] }

module _ {W : Type 0} (p : Port W) where
  -- A function that sends one packet and answers success; for `_core_mqtt_heartbeat` this is all.
  abbrev pub send_only : Handle → Bytes → W → Out W
  send_only h packet w =
      let out = send_packet p h packet w in
      record out { res = if is_neg out.res then out.res else state_success }

  unfoldable pub heartbeat : Handle → W → Out W
  unfolding send_packet
  heartbeat h w = send_only h pingreq_pkt w

  -- `_core_mqtt_disconnect`
  unfoldable pub send_disconnect : Handle → W → Out W
  unfolding send_packet
  send_disconnect h w = send_only h disconnect_pkt w

  -- `_core_mqtt_subunsub`
  unfoldable pub subunsub : Handle → (topic : Bytes) (qos pkt_type : ℕ) → W → Out W
  unfolding next_packet_id subunsub_pkt send_packet
  subunsub h topic qos pkt_type w =
      let (had, w') = p.malloc w in
      let packet_id = next_packet_id h.packet_id in
      let out =
        send_packet p (record h { packet_id = packet_id })
          (subunsub_pkt pkt_type packet_id qos topic) w' in
      if not had
      then refused state_sys_depend_malloc_failed h w'
      else record out { res = if is_neg out.res then out.res else pos packet_id }

  -- `_core_mqtt_sub` for a topic that is not null; the memory is for the list.
  unfoldable pub core_sub : Memory → Handle → (topic : Bytes) (handler qos userdata : ℕ) → W → Out W
  unfolding topic_is_valid sublist_insert subunsub
  core_sub memory h topic handler qos userdata w =
      let h1 = exec_inc h in
      let (res, nodes) = sublist_insert memory topic handler userdata h.sub_list in
      let h2 = record h1 { sub_list = nodes } in
      if length topic == 0 || ltb 1 qos
      then refused state_user_input_out_range h w
      else (if is_neg (topic_is_valid h.topic_header_check topic)
          then refused state_mqtt_topic_invalid h w
          else (if not h.exec_enabled
              then refused state_user_input_exec_disabled h w
              else (if is_neg res
                  then refused res h2 w
                  else out_dec (subunsub h2 topic qos sub_pkt_type w))))

  -- `aiot_mqtt_sub`
  unfoldable pub sub :
      Memory → Handle → (topic : Option Bytes) (handler qos userdata : ℕ) → W → Out W
  unfolding core_sub
  sub memory h none handler qos userdata w = refused state_user_input_null_pointer h w
  sub memory h (some topic) handler qos userdata w =
      if leb 128 (length topic)
      then refused state_mqtt_topic_too_long h w
      else core_sub memory h topic handler qos userdata w

  -- `_core_mqtt_unsub`
  unfoldable pub core_unsub : Handle → (topic : Bytes) → W → Out W
  unfolding topic_is_valid sublist_remove subunsub
  core_unsub h topic w =
      let h1 = record (exec_inc h) { sub_list = sublist_remove topic h.sub_list } in
      if length topic == 0
      then refused state_user_input_out_range h w
      else (if is_neg (topic_is_valid h.topic_header_check topic)
          then refused state_mqtt_topic_invalid h w
          else (if not h.exec_enabled
              then refused state_user_input_exec_disabled h w
              else out_dec (subunsub h1 topic 0 unsub_pkt_type w)))

  -- `aiot_mqtt_unsub`
  unfoldable pub unsub : Handle → (topic : Option Bytes) → W → Out W
  unfolding core_unsub
  unsub h none w = refused state_user_input_null_pointer h w
  unsub h (some topic) w =
      if leb 128 (length topic) then refused state_mqtt_topic_too_long h w else core_unsub h topic w

  -- The insertion into the list of what is not acknowledged; the clock is read when it succeeds.
  unfoldable pub remember : Memory → Handle → (packet_id : ℕ) (packet : Bytes) → W → Out W
  unfolding publist_insert
  remember memory h packet_id packet w =
      let (now, w') = p.time w in
      let (res, nodes) =
        publist_insert h.repub_list_limit memory.node_ok memory.topic_ok now packet_id packet
          h.pub_list in
      record {
        res = res;
        handle = record h { pub_list = nodes };
        world = if is_neg res then w else w';
        events = [];
      }

  -- The end of `_core_mqtt_pub`: the packet goes out, unless the list refused it.
  unfoldable pub send_kept : Out W → (packet : Bytes) (done : Code) → Out W
  unfolding send_packet
  send_kept kept packet done =
      let out = send_packet p kept.handle packet kept.world in
      if is_neg kept.res
      then kept
      else record out { res = if is_neg out.res then out.res else done }

  -- `_core_mqtt_pub`; the memory is for the node and for its copy of the packet.
  unfoldable pub core_pub : Memory → Handle → (topic payload : Bytes) (qos : ℕ) → W → Out W
  unfolding next_packet_id pub_pkt remember send_kept
  core_pub memory h topic payload qos w =
      let (had, w1) = p.malloc w in
      let packet_id = next_packet_id h.packet_id in
      let h1 = record (exec_inc h) { packet_id = packet_id } in
      let packet = pub_pkt qos packet_id topic payload in
      if not had
      then out_dec (refused state_sys_depend_malloc_failed (exec_inc h) w1)
      else (if qos == 1
          then out_dec (send_kept (remember memory h1 packet_id packet w1) packet (pos packet_id))
          else out_dec (send_kept (refused state_success (exec_inc h) w1) packet state_success))

  -- The loop of `_core_mqtt_repub`, up to the first packet that cannot be sent.
  unfoldable pub repub_loop : Handle → List PubNode → W → Code × List PubNode × W
  unfolding write
  repub_loop h [] w = (state_success, [], w)
  repub_loop h (node ∷ nodes) w =
      let (now, w1) = p.time w in
      let last = if ltb now node.last_send_time then now else node.last_send_time in
      let due = leb h.repub_timeout_ms (now - last) in
      let (res, w2) = write p h node.packet w1 in
      let node' = record node { last_send_time = if due then now else last } in
      let (res', nodes', w') = repub_loop h nodes (if due then w2 else w1) in
      if due && is_neg res then (res, node' ∷ nodes, w2) else (res', node' ∷ nodes', w')

  -- `_core_mqtt_repub`
  unfoldable pub repub : Handle → W → Out W
  unfolding repub_loop close_handle close_world
  repub h w =
      let (res, nodes, w') = repub_loop h h.pub_list w in
      let h' = record h { pub_list = nodes } in
      let closes = is_neg res && not (eq_ℤ res state_sys_depend_nwk_write_lessdata) in
      record {
        res = res;
        handle = if closes then close_handle h' else h';
        world = if closes then close_world p h' w' else w';
        events = [];
      }
