-- ===== src/Mqtt/Wire.antt =====
-- core/aiot_mqtt_api.c: the packets that the client builds. A packet is the list of its bytes.
use aliyun_iot_arm.Prelude.{
  ℕ, zero, suc, ◌+◌, ◌*◌, ◌/◌, ◌%◌, [], ◌∷◌, ◌++◌, bit_or, ltb, ◌==◌, if◌then◌else◌, length, Bytes,
}

abbrev pub high_byte : ℕ → ℕ
high_byte n = n / 256 % 256

abbrev pub low_byte : ℕ → ℕ
low_byte n = n % 256

-- `input[0] << 8 | input[1]`
abbrev pub two_bytes : ℕ → ℕ → ℕ
two_bytes hi lo = hi * 256 + lo

-- A length and the text. The length is a `uint16_t`, and bounds what is copied.
abbrev pub utf8_str : Bytes → Bytes
utf8_str input = high_byte (length input) ∷ low_byte (length input) ∷ input

-- The `do … while` of `_core_mqtt_remain_len_encode`, on fuel.
unfoldable pub remain_len_loop : ℕ → ℕ → Bytes
remain_len_loop zero input = []
remain_len_loop (suc fuel) input =
    let rest = remain_len_loop fuel (input / 128) in
    if ltb 0 (input / 128) then bit_or (input % 128) 128 ∷ rest else input % 128 ∷ []

-- A `uint32_t` has at most five groups of seven bits.
unfoldable pub remain_len_encode : ℕ → Bytes
unfolding remain_len_loop
remain_len_encode input = remain_len_loop 5 input

-- 1 + 4 bytes in front of the variable header, which is the room for type and remaining length.
abbrev pub fixed_header : ℕ → ℕ → Bytes
fixed_header pkt_type remainlen = pkt_type ∷ remain_len_encode remainlen

abbrev pub protocol_name : Bytes
protocol_name = 0x00 ∷ 0x04 ∷ 0x4D ∷ 0x51 ∷ 0x54 ∷ 0x54 ∷ []

-- `_core_mqtt_conn_pkt` for the three texts of the login.
unfoldable pub conn_pkt :
    (clean_session keep_alive_s : ℕ) (clientid username password : Bytes) → Bytes
unfolding remain_len_encode
conn_pkt clean_session keep_alive_s clientid username password =
    let payload_len = length clientid + length username + length password + 6 in
    fixed_header 0x10 (10 + payload_len)
    ++ (protocol_name
        ++ (0x04
            ∷ bit_or 0xC0 (clean_session * 2)
            ∷ high_byte keep_alive_s
            ∷ low_byte keep_alive_s
            ∷ (utf8_str clientid ++ (utf8_str username ++ utf8_str password))))

abbrev pub sub_pkt_type : ℕ
sub_pkt_type = 0x80

abbrev pub unsub_pkt_type : ℕ
unsub_pkt_type = 0xA0

-- The packet of `_core_mqtt_subunsub`.
unfoldable pub subunsub_pkt : (pkt_type packet_id qos : ℕ) (topic : Bytes) → Bytes
unfolding remain_len_encode
subunsub_pkt pkt_type packet_id qos topic =
    let is_sub = pkt_type == sub_pkt_type in
    fixed_header (bit_or pkt_type 0x02) (4 + length topic + (if is_sub then 1 else 0))
    ++ (high_byte packet_id
        ∷ low_byte packet_id
        ∷ (utf8_str topic ++ (if is_sub then qos ∷ [] else [])))

-- The packet of `_core_mqtt_pub`.
unfoldable pub pub_pkt : (qos packet_id : ℕ) (topic payload : Bytes) → Bytes
unfolding remain_len_encode
pub_pkt qos packet_id topic payload =
    let with_id = qos == 1 in
    fixed_header (bit_or 0x30 (qos * 2))
      (length topic + length payload + 2 + (if with_id then 2 else 0))
    ++ (utf8_str topic
        ++ ((if with_id then high_byte packet_id ∷ low_byte packet_id ∷ [] else []) ++ payload))

abbrev pub puback_pkt : ℕ → Bytes
puback_pkt packet_id = 0x40 ∷ 2 ∷ high_byte packet_id ∷ low_byte packet_id ∷ []

abbrev pub pingreq_pkt : Bytes
pingreq_pkt = 0xC0 ∷ 0x00 ∷ []

abbrev pub disconnect_pkt : Bytes
disconnect_pkt = 0xE0 ∷ 0x00 ∷ []
