-- ===== src/Mqtt/PubList.antt =====
-- core/aiot_mqtt_api.c: the list of QoS 1 packets that wait for their acknowledgement.
use aliyun_iot_arm.Prelude.{
  ℕ, zero, suc, ◌+◌, ◌-◌, ◌*◌, ◌/◌, ◌%◌, ◌^◌, ◌≤◌, ◌<◌, ◌≡◌, refl, sym, ap, ◌∙◌, ◌≢◌, ◌↔◌, ◌⊎◌, inl,
  inr, Bool, true, false, not, ◌&&◌, ◌||◌, Option, none, some, List, [], ◌∷◌, ◌++◌, map, append-nil,
  append_assoc, arith, bit_and, bit_or, bit_xor, ltb, leb, ◌==◌, if◌then◌else◌, ltb→lt, lt→ltb,
  leb→le, ==_iff, Bool-cases, Option-cases, length, get_elem?, set, length-append, length-set,
  get_elem?-set_self, get_elem?-set_ne, get_or, take, drop, replicate, take-append-drop, All,
  drop-append, take-append, take_all, length-take, length-drop, length-replicate, length-map, ℤ,
  pos, negsuc, inc, dec, is_zero, is_neg, eq_ℤ, sub_ℕ, neg, eq_ℤ→eq, eq_ℤ_refl, Bytes, codes,
  starts_with, str_eq, strstr, isspace, snprintf, str_eq_iff, str_eq_refl, starts_with-append,
}
use aliyun_iot_arm.Mqtt.Codes.{
  Code, state_success, state_mqtt_publist_packet_id_roll, state_qos_cache_exceeds_limit,
  state_sys_depend_malloc_failed,
}
pub mod Laws

pub record PubNode : Type 0 where
  pub packet_id : ℕ  -- uint16
  pub packet : Bytes
  pub last_send_time : ℕ  -- uint64

-- The loop over the list; `pack_num` counts the nodes before this one. `none` lets the node in.
unfoldable pub scan_for : (packet_id repub_list_limit pack_num : ℕ) → List PubNode → Option Code
scan_for packet_id limit pack_num [] = none
scan_for packet_id limit pack_num (node ∷ nodes) =
    let rest = scan_for packet_id limit (pack_num + 1) nodes in
    if node.packet_id == packet_id
    then some state_mqtt_publist_packet_id_roll
    else (if ltb limit pack_num then some state_qos_cache_exceeds_limit else rest)

-- `_core_mqtt_publist_insert` at the time `now`; the two flags say whether the memory for the node
-- and for the packet is had.
unfoldable pub publist_insert :
    (repub_list_limit : ℕ) (node_ok packet_ok : Bool) (now packet_id : ℕ) (packet : Bytes)
    → List PubNode
    → Code × List PubNode
unfolding scan_for
publist_insert limit node_ok packet_ok now packet_id packet nodes =
    elim (scan_for packet_id limit 0 nodes) [
      | some refused ↦ (refused, nodes)
      | none ↦
          if node_ok && packet_ok
          then (
            state_success,
            nodes ++ (record { packet_id = packet_id; packet = packet; last_send_time = now } ∷ []),
          )
          else (state_sys_depend_malloc_failed, nodes)
    ]

-- The first node with the packet id is taken out.
unfoldable pub publist_remove : ℕ → List PubNode → List PubNode
publist_remove packet_id [] = []
publist_remove packet_id (node ∷ nodes) =
    let rest = publist_remove packet_id nodes in
    if node.packet_id == packet_id then nodes else node ∷ rest

-- `_core_mqtt_packet_id`: the next identifier of 16 bits, never 0.
unfoldable pub next_packet_id : ℕ → ℕ
next_packet_id packet_id = (if (packet_id + 1) % 2 ^ 16 == 0 then 0 else packet_id) + 1
