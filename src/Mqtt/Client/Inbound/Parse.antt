-- ===== src/Mqtt/Client/Inbound/Parse.antt =====
-- core/aiot_mqtt_api.c: a PUBLISH that the client writes is read back by its own handler.
use aliyun_iot_arm.Prelude.{
  ℕ, zero, suc, ◌+◌, ◌*◌, ◌^◌, ◌≤◌, ◌<◌, ◌≡◌, refl, sym, ap, ◌∙◌, some, [], ◌∷◌, ◌++◌, arith,
  bit_or, ◌==◌, if◌then◌else◌, length, length-append, take, drop, drop-append, take-append, Bytes,
}
use native.Mathlib.Nat.{div-add-mod}
use aliyun_iot_arm.Mqtt.Wire.{two_bytes, high_byte, low_byte, utf8_str, pub_pkt, fixed_header}
use aliyun_iot_arm.Mqtt.Client.Inbound.{split_payload, split_publish}

pub two_bytes_back : (n : ℕ) → n < 2 ^ 16 → two_bytes (high_byte n) (low_byte n) ≡ n
two_bytes_back n small = omega (arith, div-add-mod n 256)

-- The body of a PUBLISH: what `pub_pkt` writes behind the fixed header.
abbrev pub publish_body : (qos packet_id : ℕ) (topic payload : Bytes) → Bytes
publish_body qos packet_id topic payload =
    utf8_str topic
    ++ ((if qos == 1 then high_byte packet_id ∷ low_byte packet_id ∷ [] else []) ++ payload)

body_length :
    (qos packet_id : ℕ) (topic payload : Bytes)
    → length (publish_body qos packet_id topic payload)
      ≡ length topic + length payload + 2 + (if qos == 1 then 2 else 0)
body_length qos packet_id topic payload = ground (
  arith,
  length-append topic
      ((if qos == 1 then high_byte packet_id ∷ low_byte packet_id ∷ [] else []) ++ payload),
)

framed :
    (qos packet_id : ℕ) (topic payload : Bytes)
    → pub_pkt qos packet_id topic payload
      ≡ fixed_header (bit_or 0x30 (qos * 2)) (length (publish_body qos packet_id topic payload))
        ++ publish_body qos packet_id topic payload
unfolding pub_pkt
framed qos packet_id topic payload =
    ap (λ n. fixed_header (bit_or 0x30 (qos * 2)) n ++ publish_body qos packet_id topic payload)
      (sym (body_length qos packet_id topic payload))

parsed :
    (qos : ℕ) (topic rest : Bytes)
    → qos ≤ 1
    → length topic < 2 ^ 16
    → split_publish qos (utf8_str topic ++ rest) ≡ split_payload qos topic rest
unfolding split_publish
parsed qos topic rest hq ht =
    let len : two_bytes (high_byte (length topic)) (low_byte (length topic)) ≡ length topic =
      two_bytes_back (length topic) ht in
    let front : take (length topic) (topic ++ rest) ≡ topic = take-append topic rest in
    let back : drop (length topic) (topic ++ rest) ≡ rest = drop-append topic rest in
    rw (len, front, back, length-append topic rest) (ground arith)

-- The reader of `_core_mqtt_pub_handler` takes the body that `_core_mqtt_pub` writes apart again, into
-- the same topic, payload and, for QoS 1, identifier (0 for QoS 0), where the length of the topic and
-- the identifier are of 16 bits.
pub split_publish-body :
    (qos packet_id : ℕ) (topic payload : Bytes)
    → qos ≤ 1
    → packet_id < 2 ^ 16
    → length topic < 2 ^ 16
    → (pub_pkt qos packet_id topic payload
        ≡ fixed_header (bit_or 0x30 (qos * 2)) (length (publish_body qos packet_id topic payload))
          ++ publish_body qos packet_id topic payload)
      × (split_publish qos (publish_body qos packet_id topic payload)
          ≡ some ((if qos == 1 then packet_id else 0), record { topic = topic; payload = payload }))
split_publish-body zero packet_id topic payload hq hi ht = (
  framed zero packet_id topic payload,
  parsed zero topic payload hq ht ∙ unfold split_payload in refl,
)
split_publish-body (suc zero) packet_id topic payload hq hi ht = (
  framed 1 packet_id topic payload,
  parsed 1 topic (high_byte packet_id ∷ low_byte packet_id ∷ payload) hq ht
      ∙ unfold split_payload in
        ap (λ t. some (t, record { topic = topic; payload = payload }))
          (two_bytes_back packet_id hi),
)
split_publish-body (suc (suc qos)) packet_id topic payload hq hi ht = absurd (ground arith)
