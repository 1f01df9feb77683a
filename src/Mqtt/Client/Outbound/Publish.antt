-- ===== src/Mqtt/Client/Outbound/Publish.antt =====
-- core/aiot_mqtt_api.c: a message of QoS 1 waits for its acknowledgement.
use aliyun_iot_arm.Prelude.{
  ℕ, ◌+◌, ◌-◌, ◌%◌, ◌^◌, ◌<◌, ◌≡◌, refl, sym, ap, ◌∙◌, ◌⊎◌, inl, inr, true, false, not, ◌&&◌, List,
  [], ◌∷◌, ◌++◌, arith, ◌==◌, ==_iff, Bool-cases, ℤ, pos, is_neg, eq_ℤ, Bytes,
}
use aliyun_iot_arm.Mqtt.Codes.{
  state_success, state_sys_depend_nwk_write_lessdata, state_sys_depend_malloc_failed,
}
use aliyun_iot_arm.Mqtt.Wire.{pub_pkt, high_byte, low_byte}
use aliyun_iot_arm.Mqtt.PubList.{PubNode, publist_remove, next_packet_id}
use aliyun_iot_arm.Mqtt.PubList.Laws.{IsFree, publist_insert_cases, new_node, next_packet_id_range}
use aliyun_iot_arm.Mqtt.SubList.{Memory}
use aliyun_iot_arm.Mqtt.Client.State.{Port, Handle, Out}
use aliyun_iot_arm.Mqtt.Client.Net.{write, close_handle, send_packet}
use aliyun_iot_arm.Mqtt.Client.Inbound.{puback_handler}
use aliyun_iot_arm.Mqtt.Client.Inbound.Parse.{two_bytes_back}
use aliyun_iot_arm.Mqtt.Client.Outbound.{exec_inc, out_dec, refused, remember, send_kept, core_pub}

publist_remove-snoc :
    (nodes : List PubNode) (node : PubNode)
    → IsFree node.packet_id nodes
    → publist_remove node.packet_id (nodes ++ (node ∷ [])) ≡ nodes
unfolding publist_remove
publist_remove-snoc [] node free = ground arith
publist_remove-snoc (n ∷ nodes) node (other, free) =
    ground (arith, publist_remove-snoc nodes node free)

-- Sending changes neither the list nor the count of calls.
pub send_packet-keeps :
    {W : Type 0} (p : Port W) (h : Handle) (packet : Bytes) (w : W)
    → ((send_packet p h packet w).handle.pub_list ≡ h.pub_list)
      × ((send_packet p h packet w).handle.exec_count ≡ h.exec_count)
      × ((send_packet p h packet w).handle.sub_list ≡ h.sub_list)
unfolding send_packet close_handle
send_packet-keeps p h packet w =
    let (res, w') = write p h packet w in
    let closes = is_neg res && not (eq_ℤ res state_sys_depend_nwk_write_lessdata) in
    elim (Bool-cases closes) [ inl e ↦ ground arith | inr e ↦ ground arith ]

send_kept-keeps :
    {W : Type 0} (p : Port W) (kept : Out W) (packet : Bytes) (done : ℤ)
    → ((send_kept p kept packet done).handle.pub_list ≡ kept.handle.pub_list)
      × ((send_kept p kept packet done).handle.exec_count ≡ kept.handle.exec_count)
unfolding send_kept
send_kept-keeps p kept packet done =
    let (list, count, subs) = send_packet-keeps p kept.handle packet kept.world in
    elim (Bool-cases (is_neg kept.res)) [ inl e ↦ rw e (refl, refl) | inr e ↦ rw e (list, count) ]

send_kept-sent :
    {W : Type 0} (p : Port W) (kept : Out W) (packet : Bytes) (done : ℤ)
    → is_neg (send_kept p kept packet done).res ≡ false
    → (is_neg kept.res ≡ false) × ((send_kept p kept packet done).res ≡ done)
unfolding send_kept
send_kept-sent p kept packet done sent =
    let out = send_packet p kept.handle packet kept.world in
    elim (Bool-cases (is_neg kept.res)) [
      | inl e ↦ ground arith
      | inr e ↦ elim (Bool-cases (is_neg out.res)) [
        | inl f ↦ ground arith
        | inr f ↦ rw (e, f) (refl, refl)
      ]
    ]

exec_back : (n : ℕ) → n < 2 ^ 32 → ((n + 1) % 2 ^ 32 + (2 ^ 32 - 1)) % 2 ^ 32 ≡ n
exec_back n small = omega arith

remember_cases :
    {W : Type 0} (p : Port W) (memory : Memory) (h : Handle) (packet_id : ℕ) (packet : Bytes)
    (w : W)
    → ((is_neg (remember p memory h packet_id packet w).res ≡ true)
        × ((remember p memory h packet_id packet w).handle.pub_list ≡ h.pub_list))
      ⊎ ((is_neg (remember p memory h packet_id packet w).res ≡ false)
          × IsFree packet_id h.pub_list
          × ((remember p memory h packet_id packet w).handle.pub_list
              ≡ h.pub_list ++ (new_node (p.time w).0 packet_id packet ∷ [])))
unfolding remember
remember_cases p memory h packet_id packet w =
    elim (publist_insert_cases h.repub_list_limit memory.node_ok memory.topic_ok (p.time w).0
      packet_id packet h.pub_list) [
        | inl (refused, same) ↦ inl (refused, same)
        | inr (done, free, room, grown) ↦ inr (ap is_neg done, free, grown)
      ]

remember-removed :
    {W : Type 0} (p : Port W) (memory : Memory) (h : Handle) (packet_id : ℕ) (packet : Bytes)
    (w : W)
    → is_neg (remember p memory h packet_id packet w).res ≡ false
    → publist_remove packet_id (remember p memory h packet_id packet w).handle.pub_list ≡ h.pub_list
remember-removed p memory h packet_id packet w accepted =
    elim (remember_cases p memory h packet_id packet w) [
      | inl (refused', same) ↦ absurd (ground arith)
      | inr (done, free, grown) ↦
          ap (publist_remove packet_id) grown
          ∙ publist_remove-snoc h.pub_list (new_node (p.time w).0 packet_id packet) free
    ]

remember-exec_count :
    {W : Type 0} (p : Port W) (memory : Memory) (h : Handle) (packet_id : ℕ) (packet : Bytes)
    (w : W)
    → (remember p memory h packet_id packet w).handle.exec_count ≡ h.exec_count
unfolding remember
remember-exec_count p memory h packet_id packet w = refl

abbrev id_taken : Handle → Handle
id_taken h = record (exec_inc h) { packet_id = next_packet_id h.packet_id }

-- The three ways through `_core_mqtt_pub`.
core_pub_lacks :
    {W : Type 0} (p : Port W) (memory : Memory) (h : Handle) (topic payload : Bytes) (qos : ℕ)
    (w : W)
    → (p.malloc w).0 ≡ false
    → core_pub p memory h topic payload qos w
      ≡ out_dec (refused state_sys_depend_malloc_failed (exec_inc h) (p.malloc w).1)
unfolding core_pub
core_pub_lacks p memory h topic payload qos w lacks = ground arith

core_pub_with_id :
    {W : Type 0} (p : Port W) (memory : Memory) (h : Handle) (topic payload : Bytes) (w : W)
    → (p.malloc w).0 ≡ true
    → core_pub p memory h topic payload 1 w
      ≡ out_dec (
          send_kept p
            (remember p memory
              (id_taken h)
              (next_packet_id h.packet_id)
              (pub_pkt 1 (next_packet_id h.packet_id) topic payload)
              (p.malloc w).1)
            (pub_pkt 1 (next_packet_id h.packet_id) topic payload)
            (pos (next_packet_id h.packet_id)))
unfolding core_pub
core_pub_with_id p memory h topic payload w has = ground arith

core_pub_no_id :
    {W : Type 0} (p : Port W) (memory : Memory) (h : Handle) (topic payload : Bytes) (qos : ℕ)
    (w : W)
    → (p.malloc w).0 ≡ true
    → (qos == 1) ≡ false
    → core_pub p memory h topic payload qos w
      ≡ out_dec (
          send_kept p
            (refused state_success (exec_inc h) (p.malloc w).1)
            (pub_pkt qos (next_packet_id h.packet_id) topic payload)
            state_success)
unfolding core_pub
core_pub_no_id p memory h topic payload qos w has no_id = ground arith

abbrev count_of : {W : Type 0} → Out W → ℕ
count_of out = out.handle.exec_count

refused_neg :
    {W : Type 0} (out : Out W)
    → out.res ≡ state_sys_depend_malloc_failed
    → is_neg out.res ≡ false
    → ⊥
refused_neg out e f = ground arith

-- A call that counted itself in counts itself out at its end.
pub count_back :
    (n count : ℕ) → count < 2 ^ 32 → n ≡ (count + 1) % 2 ^ 32 → (n + (2 ^ 32 - 1)) % 2 ^ 32 ≡ count
count_back n count small e = omega arith

-- Every way through `_core_mqtt_pub` gives back the count of running calls that it took; the count
-- is of 32 bits.
pub core_pub-exec_count :
    {W : Type 0} (p : Port W) (memory : Memory) (h : Handle) (topic payload : Bytes) (qos : ℕ)
    (w : W)
    → h.exec_count < 2 ^ 32
    → (core_pub p memory h topic payload qos w).handle.exec_count ≡ h.exec_count
core_pub-exec_count p memory h topic payload qos w small =
    let w1 = (p.malloc w).1 in
    let id = next_packet_id h.packet_id in
    let kept = remember p memory (id_taken h) id (pub_pkt 1 id topic payload) w1 in
    let unkept = refused state_success (exec_inc h) w1 in
    elim (Bool-cases (p.malloc w).0) [
      | inr lacks ↦
          ap count_of (core_pub_lacks p memory h topic payload qos w lacks)
          ∙ exec_back h.exec_count small
      | inl has ↦ elim (Bool-cases (qos == 1)) [
        | inl with_id ↦
            ap (λ q. count_of (core_pub p memory h topic payload q w)) ((==_iff qos 1).0 with_id)
            ∙ (ap count_of (core_pub_with_id p memory h topic payload w has)
                ∙ count_back _ h.exec_count small (
                    (send_kept-keeps p kept (pub_pkt 1 id topic payload) (pos id)).1
                    ∙ remember-exec_count p memory (id_taken h) id (pub_pkt 1 id topic payload) w1))
        | inr no_id ↦
            ap count_of (core_pub_no_id p memory h topic payload qos w has no_id)
            ∙ count_back _ h.exec_count small
                (send_kept-keeps p unkept (pub_pkt qos id topic payload) state_success).1
      ]
    ]

remember-waits :
    {W : Type 0} (p : Port W) (memory : Memory) (h : Handle) (packet_id : ℕ) (packet : Bytes)
    (w : W)
    → is_neg (remember p memory h packet_id packet w).res ≡ false
    → (remember p memory h packet_id packet w).handle.pub_list
      ≡ h.pub_list ++ (new_node (p.time w).0 packet_id packet ∷ [])
remember-waits p memory h packet_id packet w accepted =
    elim (remember_cases p memory h packet_id packet w) [
      | inl (refused', same) ↦ absurd (ground arith)
      | inr (done, free, grown) ↦ grown
    ]

-- A message of QoS 1 that `_core_mqtt_pub` accepts is answered with its identifier, and waits as the last of
-- the list of those to send again, under this identifier, with the whole PUBLISH packet and the time. The
-- PUBACK of the identifier takes it, and nothing else, out of the list. The counter of identifiers is of
-- 16 bits.
pub core_pub-puback :
    {W : Type 0} (p : Port W) (memory : Memory) (h : Handle) (topic payload : Bytes) (w w' : W)
    → h.packet_id < 2 ^ 16
    → is_neg (core_pub p memory h topic payload 1 w).res ≡ false
    → let id = next_packet_id h.packet_id in
      ((core_pub p memory h topic payload 1 w).res ≡ pos id)
      × ((core_pub p memory h topic payload 1 w).handle.pub_list
          ≡ h.pub_list
            ++ (record {
              packet_id = id;
              packet = pub_pkt 1 id topic payload;
              last_send_time = (p.time (p.malloc w).1).0;
            }
                ∷ []))
      × ((puback_handler p
            (core_pub p memory h topic payload 1 w).handle
            (high_byte id ∷ low_byte id ∷ [])
            w').handle.pub_list
          ≡ h.pub_list)
unfolding puback_handler
core_pub-puback p memory h topic payload w w' small sent =
    let packet_id = next_packet_id h.packet_id in
    let packet = pub_pkt 1 packet_id topic payload in
    let w1 = (p.malloc w).1 in
    let (above, below, other) = next_packet_id_range h.packet_id small in
    elim (Bool-cases (p.malloc w).0) [
      | inr lacks ↦ absurd (
          refused_neg (core_pub p memory h topic payload 1 w)
            (ap (λ out. out.res) (core_pub_lacks p memory h topic payload 1 w lacks)) sent)
      | inl has ↦
          let run = core_pub_with_id p memory h topic payload w has in
          let (accepted, done) =
            send_kept-sent p _ packet (pos packet_id)
              (sym (ap (λ out. is_neg out.res) run) ∙ sent) in
          (
            ap (λ out. out.res) run ∙ done,
            ap (λ out. out.handle.pub_list) run
                ∙ (send_kept-keeps p _ packet (pos packet_id)).0
                ∙ remember-waits p memory (id_taken h) packet_id packet w1 accepted,
            ap (λ id. publist_remove id (core_pub p memory h topic payload 1 w).handle.pub_list)
                  (two_bytes_back packet_id below)
                ∙ ap (λ out. publist_remove packet_id out.handle.pub_list) run
                ∙ ap (publist_remove packet_id) (send_kept-keeps p _ packet (pos packet_id)).0
                ∙ remember-removed p memory (id_taken h) packet_id packet w1 accepted,
          )
    ]
