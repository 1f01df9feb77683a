-- ===== src/Mqtt/Client/RemainLen.antt =====
-- core/aiot_mqtt_api.c: the remaining length, written and read back.
use aliyun_iot_arm.Prelude.{
  ℕ, zero, suc, ◌+◌, ◌*◌, ◌/◌, ◌%◌, ◌^◌, ◌≤◌, ◌<◌, ◌≡◌, ap, ◌⊎◌, inl, inr, true, [], ◌∷◌, ◌++◌,
  arith, bit_and, bit_or, ltb, ◌==◌, if◌then◌else◌, Bool-cases, length, take, drop, pos, Bytes,
}
use native.Mathlib.Nat.{div-add-mod, pow-suc, one-le-pow, le-mul_of_pos_right}
use aliyun_iot_arm.Prelude.Bits.{bit_and_127, bit_and_128, bit_or_128}
use aliyun_iot_arm.Mqtt.Codes.{state_success}
use aliyun_iot_arm.Mqtt.Wire.{remain_len_loop, remain_len_encode}
use aliyun_iot_arm.Mqtt.Client.State.{Port, Handle}
use aliyun_iot_arm.Mqtt.Client.Net.{read, remainlen_loop, read_remainlen}

-- A connection that has received some bytes, which the port layer hands out in order: a read gives
-- what is there, up to the length that was asked for.
abbrev pub byte_stream : Port Bytes
byte_stream = record {
  malloc = λ s. (true, s);
  time = λ s. (0, s);
  send = λ packet s. (pos (length packet), s);
  recv = λ n s. (pos (length (take n s)), take n s, drop n s);
  deinit = λ s. [];
}

-- A byte of the encoding carries seven bits and a flag.
last_byte : (n : ℕ) → n < 128 → (bit_and n 127 ≡ n) × (bit_and n 128 ≡ 0)
last_byte n h = ground (arith, bit_and_127 n, bit_and_128 n)

inner_byte :
    (n : ℕ)
    → (bit_and (bit_or (n % 128) 128) 127 ≡ n % 128) × (bit_and (bit_or (n % 128) 128) 128 ≡ 128)
inner_byte n =
    ground (arith, bit_or_128 (n % 128), bit_and_127 (n % 128 + 128), bit_and_128 (n % 128 + 128))

read_one :
    (h : Handle) (ch : ℕ) (s : Bytes)
    → h.network ≡ true
    → read byte_stream h 1 (ch ∷ s) ≡ (pos 1, ch ∷ [], s)
unfolding read
read_one h ch s open' = rw open'

-- One round of the reading loop on a byte of the stream.
loop_step :
    (fuel : ℕ) (h : Handle) (multiplier sum ch : ℕ) (s : Bytes)
    → h.network ≡ true
    → multiplier ≤ 128 * 128 * 128
    → remainlen_loop byte_stream (suc fuel) h multiplier sum (ch ∷ s) ≡ (
        if bit_and ch 128 == 0
        then (state_success, (sum + bit_and ch 127 * multiplier) % 2 ^ 32, s)
        else remainlen_loop byte_stream fuel h
            (multiplier * 128)
            ((sum + bit_and ch 127 * multiplier) % 2 ^ 32)
            s)
unfolding remainlen_loop
loop_step fuel h multiplier sum ch s open' small =
    rw (read_one h ch s open', remainlen_loop) (ground arith)

-- The last byte ends the loop, an inner one goes on with the next seven bits.
loop_last :
    (fuel : ℕ) (h : Handle) (multiplier sum n : ℕ) (s : Bytes)
    → h.network ≡ true
    → multiplier ≤ 128 * 128 * 128
    → n < 128
    → sum + n * multiplier < 2 ^ 32
    → remainlen_loop byte_stream (suc fuel) h multiplier sum (n ∷ s)
      ≡ (state_success, sum + n * multiplier, s)
loop_last fuel h multiplier sum n s open' small hn fits =
    ground (arith, loop_step fuel h multiplier sum n s open' small, last_byte n hn)

loop_inner :
    (fuel : ℕ) (h : Handle) (multiplier sum n : ℕ) (s : Bytes)
    → h.network ≡ true
    → multiplier ≤ 128 * 128 * 128
    → sum + n % 128 * multiplier < 2 ^ 32
    → remainlen_loop byte_stream (suc fuel) h multiplier sum (bit_or (n % 128) 128 ∷ s)
      ≡ remainlen_loop byte_stream fuel h (multiplier * 128) (sum + n % 128 * multiplier) s
loop_inner fuel h multiplier sum n s open' small fits =
    ground
      (arith, loop_step fuel h multiplier sum (bit_or (n % 128) 128) s open' small, inner_byte n)

split_group : (n m : ℕ) → n * m ≡ n % 128 * m + n / 128 * (m * 128)
split_group n m = omega (arith, ap (λ (t : ℕ). t * m) (div-add-mod n 128))

encode_last : (e n : ℕ) → n < 128 → remain_len_loop (suc e) n ≡ n ∷ []
unfolding remain_len_loop
encode_last e n less = ground arith

encode_inner :
    (e n : ℕ)
    → 128 ≤ n
    → remain_len_loop (suc e) n ≡ bit_or (n % 128) 128 ∷ remain_len_loop e (n / 128)
unfolding remain_len_loop
encode_inner e n more = ground arith

lt_or_le : (m n : ℕ) → (n < m) ⊎ (m ≤ n)
lt_or_le m n = elim (Bool-cases (ltb n m)) [
  | inl e ↦ inl (ground arith)
  | inr e ↦ inr (ground arith)
]

one_group : (m k : ℕ) → m * 128 ^ suc k ≤ 128 * 128 * 128 → m ≤ 128 * 128 * 128
one_group m k small =
    omega (arith, le-mul_of_pos_right {m = 128 ^ suc k} m (one-le-pow (suc k) 128 (omega arith)))

next_group : (m k : ℕ) → m * 128 ^ suc k ≤ 128 * 128 * 128 → m * 128 * 128 ^ k ≤ 128 * 128 * 128
next_group m k small = omega (arith, ap (λ t. m * t) (pow-suc 128 k))

div_group : (n k : ℕ) → n < 128 ^ suc (suc k) → n / 128 < 128 ^ suc k
div_group n k hn = omega (arith, pow-suc 128 (suc k))

loop-encode :
    (k e f : ℕ) (h : Handle) (multiplier sum n : ℕ) (s : Bytes)
    → k < e
    → k < f
    → h.network ≡ true
    → multiplier * 128 ^ k ≤ 128 * 128 * 128
    → n < 128 ^ suc k
    → sum + n * multiplier < 2 ^ 32
    → remainlen_loop byte_stream f h multiplier sum (remain_len_loop e n ++ s)
      ≡ (state_success, sum + n * multiplier, s)
loop-encode k zero f h multiplier sum n s he hf open' small hn fits = elim he [ ]
loop-encode k (suc e) zero h multiplier sum n s he hf open' small hn fits = elim hf [ ]
loop-encode zero (suc e) (suc f) h multiplier sum n s he hf open' small hn fits =
    rw (encode_last e n (ground (arith, pow-suc 128 zero))) (
      loop_last f h multiplier sum n s open' (ground arith) (ground (arith, pow-suc 128 zero)) fits)
loop-encode (suc k) (suc e) (suc f) h multiplier sum n s he hf open' small hn fits =
    elim (lt_or_le 128 n) [
      | inl less ↦
          rw (encode_last e n less)
            (loop_last f h multiplier sum n s open' (one_group multiplier k small) less fits)
      | inr more ↦
          let groups = split_group n multiplier in
          rw
            (
              encode_inner e n more,
              loop_inner f h multiplier sum n (remain_len_loop e (n / 128) ++ s) open'
                  (one_group multiplier k small) (ground arith),
              loop-encode k e f h (multiplier * 128) (sum + n % 128 * multiplier) (n / 128) s
                  (ground arith) (ground arith) open' (next_group multiplier k small)
                  (div_group n k hn) (ground arith),
            )
            (ap (λ t. (state_success, t, s)) (ground (arith, split_group n multiplier)))
    ]

-- What `_core_mqtt_remain_len_encode` writes, `_core_mqtt_read_remainlen` reads back from an open
-- connection, whatever follows it there: it succeeds with the length, and leaves what follows unread.
-- The length is below 128^4, which is what four bytes hold.
pub read_remainlen-encode :
    (h : Handle) (n : ℕ) (s : Bytes)
    → h.network ≡ true
    → n < 128 ^ 4
    → read_remainlen byte_stream h (remain_len_encode n ++ s) ≡ (state_success, n, s)
unfolding read_remainlen remain_len_encode
read_remainlen-encode h n s open' small =
    rw
      (loop-encode 3 5 5 h 1 0 n s (omega arith) (omega arith) open' (omega arith) small
        (ground arith))
      (ap (λ t. (state_success, t, s)) (omega arith))
