-- ===== src/Mqtt/Client/Outbound/Subscribe.antt =====
-- core/aiot_mqtt_api.c: what a subscription and its end change in the client.
use aliyun_iot_arm.Prelude.{
  ℕ, ◌+◌, ◌%◌, ◌^◌, ◌<◌, ◌≡◌, refl, ap, ◌∙◌, ◌⊎◌, inl, inr, true, false, ◌&&◌, ◌||◌, none, some,
  List, [], ◌∷◌, arith, ltb, ◌==◌, if◌then◌else◌, Bool-cases, length, is_neg, Bytes, str_eq,
}
use aliyun_iot_arm.Mqtt.Codes.{state_success}
use aliyun_iot_arm.Mqtt.Wire.{sub_pkt_type, unsub_pkt_type, subunsub_pkt}
use aliyun_iot_arm.Mqtt.Topic.{topic_is_valid}
use aliyun_iot_arm.Mqtt.PubList.{next_packet_id}
use aliyun_iot_arm.Mqtt.SubList.{Memory, SubNode, sublist_insert, sublist_remove}
use aliyun_iot_arm.Mqtt.SubList
use aliyun_iot_arm.Mqtt.SubList.Laws.{
  userdata_of, userdata_of-sublist_insert, userdata_of-sublist_remove,
}
use aliyun_iot_arm.Mqtt.Client.State.{Port, Handle}
use aliyun_iot_arm.Mqtt.Client.Outbound.{exec_inc, out_dec, refused, subunsub, core_sub, core_unsub}
use aliyun_iot_arm.Mqtt.Client.Outbound.Publish.{send_packet-keeps, count_back}

subunsub-keeps :
    {W : Type 0} (p : Port W) (h : Handle) (topic : Bytes) (qos pkt_type : ℕ) (w : W)
    → ((subunsub p h topic qos pkt_type w).handle.sub_list ≡ h.sub_list)
      × ((subunsub p h topic qos pkt_type w).handle.exec_count ≡ h.exec_count)
unfolding subunsub
subunsub-keeps p h topic qos pkt_type w =
    let id = next_packet_id h.packet_id in
    let (list, count, subs) =
      send_packet-keeps p (record h { packet_id = id }) (subunsub_pkt pkt_type id qos topic)
        (p.malloc w).1 in
    elim (Bool-cases (p.malloc w).0) [
      | inl has ↦ rw has (subs, count)
      | inr lacks ↦ rw lacks (refl, refl)
    ]

-- Every way through `_core_mqtt_sub`: a check refuses and nothing changes; the list refuses, and the
-- call stays counted; or a packet is tried, with the new list.
core_sub_cases :
    {W : Type 0} (p : Port W) (memory : Memory) (h : Handle) (topic : Bytes)
    (handler qos userdata : ℕ) (w : W)
    → ((is_neg (core_sub p memory h topic handler qos userdata w).res ≡ true)
        × ((core_sub p memory h topic handler qos userdata w).handle ≡ h))
      ⊎ (((is_neg (sublist_insert memory topic handler userdata h.sub_list).0 ≡ true)
            × (core_sub p memory h topic handler qos userdata w
                ≡ refused
                    (sublist_insert memory topic handler userdata h.sub_list).0
                    (record (exec_inc h) {
                      sub_list = (sublist_insert memory topic handler userdata h.sub_list).1;
                    })
                    w))
          ⊎ ((is_neg (sublist_insert memory topic handler userdata h.sub_list).0 ≡ false)
              × (core_sub p memory h topic handler qos userdata w
                  ≡ out_dec (
                      subunsub p
                        (record (exec_inc h) {
                          sub_list = (sublist_insert memory topic handler userdata h.sub_list).1;
                        })
                        topic
                        qos
                        sub_pkt_type
                        w))))
unfolding core_sub
core_sub_cases p memory h topic handler qos userdata w =
    elim (Bool-cases (length topic == 0 || ltb 1 qos)) [
      | inl range ↦ inl (ground arith, ground arith)
      | inr in_range ↦ elim (Bool-cases (is_neg (topic_is_valid h.topic_header_check topic))) [
        | inl invalid ↦ inl (ground arith, ground arith)
        | inr valid ↦ elim (Bool-cases h.exec_enabled) [
          | inr off ↦ inl (ground arith, ground arith)
          | inl on ↦
              elim (Bool-cases
                (is_neg (sublist_insert memory topic handler userdata h.sub_list).0)) [
                  | inl full ↦ inr (inl (full, ground arith))
                  | inr fine ↦ inr (inr (fine, ground arith))
                ]
        ]
      ]
    ]

-- `_core_mqtt_sub` gives back the count of running calls that it took, or the list of subscriptions
-- refused the topic: then the call stays counted. The count is of 32 bits.
pub core_sub-exec_count :
    {W : Type 0} (p : Port W) (memory : Memory) (h : Handle) (topic : Bytes)
    (handler qos userdata : ℕ) (w : W)
    → h.exec_count < 2 ^ 32
    → ((core_sub p memory h topic handler qos userdata w).handle.exec_count ≡ h.exec_count)
      ⊎ ((is_neg (sublist_insert memory topic handler userdata h.sub_list).0 ≡ true)
          × ((core_sub p memory h topic handler qos userdata w).handle.exec_count
              ≡ (h.exec_count + 1) % 2 ^ 32))
core_sub-exec_count p memory h topic handler qos userdata w small =
    elim (core_sub_cases p memory h topic handler qos userdata w) [
      | inl (failed, same) ↦ inl (ap (λ g. g.exec_count) same)
      | inr (inl (full, run)) ↦ inr (full, ap (λ out. out.handle.exec_count) run)
      | inr (inr (fine, run)) ↦ inl (
          ap (λ out. out.handle.exec_count) run
          ∙ count_back _ h.exec_count small
              (subunsub-keeps p
                (record (exec_inc h) {
                  sub_list = (sublist_insert memory topic handler userdata h.sub_list).1;
                })
                topic qos sub_pkt_type w).1)
    ]

sublist_insert_code :
    (memory : Memory) (topic : Bytes) (handler userdata : ℕ) (nodes : List SubNode)
    → is_neg (sublist_insert memory topic handler userdata nodes).0 ≡ false
    → (sublist_insert memory topic handler userdata nodes).0 ≡ state_success
unfolding sublist_insert SubList.new_sub_node SubList.handlers_with SubList.handlerlist_insert
sublist_insert_code memory topic handler userdata [] fine = ground arith
sublist_insert_code memory topic handler userdata (node ∷ nodes) fine =
    ground (arith, sublist_insert_code memory topic handler userdata nodes)

-- When `_core_mqtt_sub` succeeds, its handler stands under its filter with its user data, and every
-- other pair of a filter and a handler is as before.
pub core_sub-userdata_of :
    {W : Type 0} (p : Port W) (memory : Memory) (h : Handle) (topic t : Bytes)
    (handler qos userdata k : ℕ) (w : W)
    → 0 < handler
    → is_neg (core_sub p memory h topic handler qos userdata w).res ≡ false
    → userdata_of t k (core_sub p memory h topic handler qos userdata w).handle.sub_list
      ≡ (if str_eq topic t && handler == k then some userdata else userdata_of t k h.sub_list)
core_sub-userdata_of p memory h topic t handler qos userdata k w some_handler done =
    elim (core_sub_cases p memory h topic handler qos userdata w) [
      | inl (failed, same) ↦ absurd (ground arith)
      | inr (inl (full, run)) ↦ absurd (ground (arith, ap (λ out. is_neg out.res) run))
      | inr (inr (fine, run)) ↦
          ap (λ out. userdata_of t k out.handle.sub_list) run
          ∙ ap (userdata_of t k)
              (subunsub-keeps p
                (record (exec_inc h) {
                  sub_list = (sublist_insert memory topic handler userdata h.sub_list).1;
                })
                topic qos sub_pkt_type w).0
          ∙ userdata_of-sublist_insert memory topic t handler userdata k h.sub_list some_handler
              (sublist_insert_code memory topic handler userdata h.sub_list fine)
    ]

-- Every way through `_core_mqtt_unsub` that does not fail: the checks pass and a packet is sent, with the
-- new list.
core_unsub_cases :
    {W : Type 0} (p : Port W) (h : Handle) (topic : Bytes) (w : W)
    → (is_neg (core_unsub p h topic w).res ≡ true)
      ⊎ (core_unsub p h topic w
          ≡ out_dec (
              subunsub p
                (record (exec_inc h) { sub_list = sublist_remove topic h.sub_list })
                topic
                0
                unsub_pkt_type
                w))
unfolding core_unsub
core_unsub_cases p h topic w = elim (Bool-cases (length topic == 0)) [
  | inl range ↦ inl (ground arith)
  | inr in_range ↦ elim (Bool-cases (is_neg (topic_is_valid h.topic_header_check topic))) [
    | inl invalid ↦ inl (ground arith)
    | inr valid ↦ elim (Bool-cases h.exec_enabled) [
      | inr off ↦ inl (ground arith)
      | inl on ↦ inr (ground arith)
    ]
  ]
]

-- When `_core_mqtt_unsub` succeeds, no handler stands under its filter any more, and the handlers under
-- every other filter are as before.
pub core_unsub-userdata_of :
    {W : Type 0} (p : Port W) (h : Handle) (topic t : Bytes) (k : ℕ) (w : W)
    → is_neg (core_unsub p h topic w).res ≡ false
    → userdata_of t k (core_unsub p h topic w).handle.sub_list
      ≡ (if str_eq topic t then none else userdata_of t k h.sub_list)
core_unsub-userdata_of p h topic t k w done = elim (core_unsub_cases p h topic w) [
  | inl failed ↦ absurd (cc)
  | inr run ↦
      ap (λ out. userdata_of t k out.handle.sub_list) run
      ∙ ap (userdata_of t k)
          (subunsub-keeps p (record (exec_inc h) { sub_list = sublist_remove topic h.sub_list })
            topic 0 unsub_pkt_type w).0
      ∙ userdata_of-sublist_remove topic t k h.sub_list
]
