-- ===== src/Mqtt/Tests.antt =====
-- Runs of the client of core/aiot_mqtt_api.c on small states.
use aliyun_iot_arm.Prelude.{
  ◌≡◌, refl, ◌↔◌, ◌⊎◌, inl, inr, true, false, ◌&&◌, none, some, List, [], ◌∷◌, ◌++◌, map, arith,
  bit_or, ◌==◌, if◌then◌else◌, length, pos, is_neg, Bytes, codes, str_eq,
}
use mathlib.Core.Logic.{◌↔◌}
use aliyun_iot_arm.Mqtt.Codes.{
  state_success, state_sys_depend_nwk_closed, state_mqtt_topic_compare_failed,
}
use aliyun_iot_arm.Mqtt.Topic.{topic_compare, topic_is_valid}
use aliyun_iot_arm.Mqtt.Topic.Levels.{join, matches, IsFilter, topic_compare-matches}
use aliyun_iot_arm.Mqtt.Topic.Valid.{topic_is_valid_iff}
use aliyun_iot_arm.Mqtt.Wire.{remain_len_encode, high_byte, low_byte, pub_pkt, fixed_header}
use aliyun_iot_arm.Mqtt.PubList.{PubNode, publist_insert, next_packet_id}
use aliyun_iot_arm.Mqtt.PubList.Laws
use aliyun_iot_arm.Mqtt.PubList.Laws.{
  IsFree, new_node, waiting, publist_insert_cases, publist_insert-IsValid, waiting-publist_remove,
  publist_remove-IsValid, next_packet_id_range,
}
use aliyun_iot_arm.Mqtt.SubList.{Memory, SubNode, sublist_insert}
use aliyun_iot_arm.Mqtt.SubList.Laws.{userdata_of}
use aliyun_iot_arm.Mqtt.Client.State.{Port, Out, Handle, reconnect, network_disconnect}
use aliyun_iot_arm.Mqtt.Client.Net.{read_remainlen}
use aliyun_iot_arm.Mqtt.Client.RemainLen.{byte_stream, read_remainlen-encode}
use aliyun_iot_arm.Mqtt.Client.Inbound.{split_publish, puback_handler}
use aliyun_iot_arm.Mqtt.Client.Inbound.Parse.{publish_body, split_publish-body}
use aliyun_iot_arm.Mqtt.Client.Outbound.{refused, core_pub, core_sub, core_unsub, repub}
use aliyun_iot_arm.Mqtt.Client.Outbound.Repub.{content, repub-content}
use aliyun_iot_arm.Mqtt.Client.Outbound.Publish.{core_pub-exec_count, core_pub-puback}
use aliyun_iot_arm.Mqtt.Client.Outbound.Subscribe.{
  core_sub-exec_count, core_sub-userdata_of, core_unsub-userdata_of,
}
use aliyun_iot_arm.Mqtt.Client.Session.{reconnect_step}
use aliyun_iot_arm.Mqtt.Client.Session.Backoff.{reconnect_step-spaced}
use aliyun_iot_arm.Mqtt.Client.Session.Notify.{
  notify_all, heard, InOrder, is_up, lost, missed, notify_all-InOrder,
}

-- `a/+` as levels, and the topic `a/b`.
abbrev filter_levels : List Bytes
filter_levels = codes "+" ∷ []

abbrev topic_levels : List Bytes
topic_levels = codes "a" ∷ codes "b" ∷ []

topic_compare-matches_example :
    topic_compare (join (codes "a" ∷ filter_levels)) (join topic_levels) ≡ (
      if matches (codes "a" ∷ filter_levels) topic_levels
      then state_success
      else state_mqtt_topic_compare_failed)
topic_compare-matches_example =
    topic_compare-matches (codes "a") filter_levels topic_levels
      (inl ((refl, refl, refl), tt), (inr (inl refl), tt)) ((refl, tt), ((refl, tt), refl))

topic_is_valid_iff_example :
    (topic_is_valid true (b'/' ∷ join (codes "a" ∷ filter_levels)) ≡ state_success)
    ↔ IsFilter (codes "a" ∷ filter_levels)
topic_is_valid_iff_example =
    topic_is_valid_iff true (codes "a") filter_levels ((refl, tt), ((refl, tt), tt))

abbrev waiting_7 : List PubNode
waiting_7 = record { packet_id = 7; packet = codes "p"; last_send_time = 0 } ∷ []

abbrev waiting_7_8 : List PubNode
waiting_7_8 = waiting_7 ++ (record { packet_id = 8; packet = codes "q"; last_send_time = 3 } ∷ [])

publist_insert-IsValid_example :
    Laws.IsValid 20 (publist_insert 20 true true 5 8 (codes "q") waiting_7).1
publist_insert-IsValid_example =
    publist_insert-IsValid 20 true true 5 8 (codes "q") waiting_7
      (record { distinct = (tt, tt); bounded = omega arith })

abbrev subscribed : List SubNode
subscribed =
    record { topic = codes "/a"; handle_list = record { handler = 1; userdata = 9 } ∷ [] } ∷ []

abbrev all_had : Memory
all_had = record { node_ok = true; topic_ok = true; handler_ok = true }

-- A client as `aiot_mqtt_init` leaves it, but with a connection and two lists.
abbrev connected_client : Handle
connected_client = record {
  network = true;
  clientid = codes "c";
  username = codes "u";
  password = codes "p";
  keep_alive_s = 1200;
  clean_session = 1;
  heartbeat_interval_ms = 25000;
  max_lost_times = 2;
  lost_times = 0;
  last_send_time = 0;
  reconnect_enabled = true;
  reconnect_interval_ms = 2000;
  last_retry_time = 0;
  backoff_enabled = true;
  rand_ms = pos 0;
  reconnect_counter = 0;
  repub_timeout_ms = 3000;
  has_connected = true;
  disconnected = false;
  disconnect_api_called = false;
  exec_enabled = true;
  exec_count = 0;
  topic_header_check = true;
  packet_id = 8;
  sub_list = subscribed;
  pub_list = waiting_7;
  process_data_list = [];
  recv_handler = 3;
  event_handler = 0;
  userdata = 4;
  repub_list_limit = 20;
  rtt = 0;
}

read_remainlen-encode_example :
    read_remainlen byte_stream connected_client (remain_len_encode 321 ++ codes "x")
    ≡ (state_success, 321, codes "x")
read_remainlen-encode_example =
    read_remainlen-encode connected_client 321 (codes "x") refl (omega arith)

split_publish-body_example :
    (pub_pkt 1 258 (codes "/a") (codes "hi")
      ≡ fixed_header (bit_or 0x30 2) (length (publish_body 1 258 (codes "/a") (codes "hi")))
        ++ publish_body 1 258 (codes "/a") (codes "hi"))
    × (split_publish 1 (publish_body 1 258 (codes "/a") (codes "hi"))
        ≡ some (258, record { topic = codes "/a"; payload = codes "hi" }))
split_publish-body_example =
    split_publish-body 1 258 (codes "/a") (codes "hi") (omega arith) (omega arith) (omega arith)

repub-content_example :
    map content (repub byte_stream connected_client []).handle.pub_list ≡ (7, codes "p") ∷ []
repub-content_example = repub-content byte_stream connected_client []

core_pub-exec_count_example :
    (core_pub byte_stream all_had connected_client (codes "/a") (codes "hi") 1 []).handle.exec_count
    ≡ 0
core_pub-exec_count_example =
    core_pub-exec_count byte_stream all_had connected_client (codes "/a") (codes "hi") 1 []
      (omega arith)

core_pub-puback_example :
    ((core_pub byte_stream all_had connected_client (codes "/a") (codes "hi") 1 []).res
      ≡ pos (next_packet_id 8))
    × ((core_pub byte_stream all_had connected_client
          (codes "/a")
          (codes "hi")
          1
          []).handle.pub_list
        ≡ waiting_7
          ++ (record {
            packet_id = next_packet_id 8;
            packet = pub_pkt 1 (next_packet_id 8) (codes "/a") (codes "hi");
            last_send_time = 0;
          }
              ∷ []))
    × ((puback_handler byte_stream
          (core_pub byte_stream all_had connected_client (codes "/a") (codes "hi") 1 []).handle
          (high_byte (next_packet_id 8) ∷ low_byte (next_packet_id 8) ∷ [])
          []).handle.pub_list
        ≡ waiting_7)
unfolding core_pub
core_pub-puback_example =
    core_pub-puback byte_stream all_had connected_client (codes "/a") (codes "hi") [] []
      (omega arith) refl

core_sub-exec_count_example :
    ((core_sub byte_stream all_had connected_client (codes "/b") 2 1 5 []).handle.exec_count ≡ 0)
    ⊎ ((is_neg (sublist_insert all_had (codes "/b") 2 5 subscribed).0 ≡ true)
        × ((core_sub byte_stream all_had connected_client (codes "/b") 2 1 5 []).handle.exec_count
            ≡ 1))
core_sub-exec_count_example =
    core_sub-exec_count byte_stream all_had connected_client (codes "/b") 2 1 5 [] (omega arith)

core_sub-userdata_of_example :
    userdata_of
      (codes "/b")
      2
      (core_sub byte_stream all_had connected_client (codes "/b") 2 1 5 []).handle.sub_list
    ≡ (if str_eq (codes "/b") (codes "/b") && 2 == 2
        then some 5
        else userdata_of (codes "/b") 2 subscribed)
unfolding core_sub
core_sub-userdata_of_example =
    core_sub-userdata_of byte_stream all_had connected_client (codes "/b") (codes "/b") 2 1 5 2 []
      (omega arith) refl

core_unsub-userdata_of_example :
    userdata_of
      (codes "/a")
      1
      (core_unsub byte_stream connected_client (codes "/a") []).handle.sub_list
    ≡ (if str_eq (codes "/a") (codes "/a") then none else userdata_of (codes "/a") 1 subscribed)
unfolding core_unsub
core_unsub-userdata_of_example =
    core_unsub-userdata_of byte_stream connected_client (codes "/a") (codes "/a") 1 [] refl

-- A port layer whose clock stands at 10000, and an attempt to connect that always fails.
abbrev late_port : Port Bytes
late_port = record byte_stream { time = λ w. (10000, w) }

abbrev no_server : Handle → Bytes → Out Bytes
no_server h w = record { res = state_sys_depend_nwk_closed; handle = h; world = w; events = [] }

abbrev lost_client : Handle
lost_client = record connected_client {
  network = false;
  last_retry_time = 0;
  reconnect_counter = 0;
}

reconnect_step-spaced_example :
    let first = reconnect_step late_port no_server lost_client [] in
    (first.res ≡ state_sys_depend_nwk_closed)
    × (first.handle ≡ record lost_client { last_retry_time = 10000; reconnect_counter = 1 })
    × (reconnect_step late_port no_server first.handle []
        ≡ refused state_sys_depend_nwk_closed first.handle [])
reconnect_step-spaced_example =
    reconnect_step-spaced late_port no_server lost_client [] [] 0 refl refl refl (omega arith)
      (omega arith) (omega arith) (omega arith) (omega arith) refl refl (omega arith) (omega arith)
      (omega arith)

abbrev listening_client : Handle
listening_client = record connected_client { event_handler = 1 }

notify_all-InOrder_example :
    (heard (notify_all (lost ∷ missed ∷ is_up ∷ []) listening_client)
      ≡ network_disconnect ∷ reconnect ∷ [])
    × InOrder true true (heard (notify_all (lost ∷ missed ∷ is_up ∷ []) listening_client))
notify_all-InOrder_example =
    notify_all-InOrder (lost ∷ missed ∷ is_up ∷ []) listening_client (omega arith)
