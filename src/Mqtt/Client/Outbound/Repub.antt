-- ===== src/Mqtt/Client/Outbound/Repub.antt =====
-- core/aiot_mqtt_api.c: sending again keeps what is not acknowledged.
use aliyun_iot_arm.Prelude.{
  ℕ, ◌-◌, ◌≡◌, refl, List, [], ◌∷◌, map, arith, ltb, leb, if◌then◌else◌, Bytes,
}
use aliyun_iot_arm.Mqtt.PubList.{PubNode}
use aliyun_iot_arm.Mqtt.Client.State.{Port, Handle}
use aliyun_iot_arm.Mqtt.Client.Net.{write, close_handle}
use aliyun_iot_arm.Mqtt.Client.Outbound.{repub_loop, repub}

-- A message without the time of its last sending.
abbrev pub content : PubNode → ℕ × Bytes
content node = (node.packet_id, node.packet)

repub_loop-content :
    {W : Type 0} (p : Port W) (h : Handle) (nodes : List PubNode) (w : W)
    → map content (repub_loop p h nodes w).1 ≡ map content nodes
unfolding repub_loop
repub_loop-content p h [] w = refl
repub_loop-content p h (node ∷ nodes) w =
    let (now, w1) = p.time w in
    let last = if ltb now node.last_send_time then now else node.last_send_time in
    let due = leb h.repub_timeout_ms (now - last) in
    let (res, w2) = write p h node.packet w1 in
    ground (arith, repub_loop-content p h nodes (if due then w2 else w1))

-- Whatever the network does, `_core_mqtt_repub` neither drops nor adds nor alters a message that is
-- not acknowledged: the list has the same identifiers and packets in the same order.
pub repub-content :
    {W : Type 0} (p : Port W) (h : Handle) (w : W)
    → map content (repub p h w).handle.pub_list ≡ map content h.pub_list
unfolding repub close_handle
repub-content p h w =
    let (res, nodes, w') = repub_loop p h h.pub_list w in
    let kept = repub_loop-content p h h.pub_list w in ground arith
