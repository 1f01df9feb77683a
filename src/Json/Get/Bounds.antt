-- ===== src/Json/Get/Bounds.antt =====
-- src/json_utils.c: what the getters store fits the buffer that they are given.
use aliyun_iot_arm.Prelude.{
  ℕ, ◌+◌, ◌<◌, inl, inr, false, arith, Option-cases, length, take, drop, Bytes,
}
use aliyun_iot_arm.Json.Scan.{find_after_key, find_string_end, find_compound_end, find_plain_end}
use aliyun_iot_arm.Json.Copy.{Copied, copied, cut, rejected, or_keep}
use aliyun_iot_arm.Json.Copy.Bounds.{Fits, copy_string_value-Fits, copy_trimmed-Fits}
use aliyun_iot_arm.Json.Get.{string_at, compound_at, get_string, raw_value_at, get_raw_value}

string_at-Fits : (cursor : Bytes) (out_size : ℕ) → Fits out_size (string_at cursor out_size)
unfolding string_at
string_at-Fits cursor out_size = elim (Option-cases (find_string_end false (drop 1 cursor))) [
  | inl e ↦ rw (e, Fits) tt
  | inr (n, e) ↦ rw (e, Fits) (copy_string_value-Fits (take n (drop 1 cursor)) out_size)
]

compound_at-Fits :
    (open_char close_char : ℕ) (cursor : Bytes) (out_size : ℕ)
    → Fits out_size (compound_at open_char close_char cursor out_size)
unfolding compound_at
compound_at-Fits open_char close_char cursor out_size =
    elim (Option-cases (find_compound_end open_char close_char cursor)) [
      | inl e ↦ rw (e, Fits) tt
      | inr (n, e) ↦ rw (e, Fits) (copy_trimmed-Fits (take (n + 1) cursor) out_size)
    ]

raw_value_at-Fits : (cursor : Bytes) (out_size : ℕ) → Fits out_size (raw_value_at cursor out_size)
unfolding raw_value_at
raw_value_at-Fits cursor out_size = ground (
  arith,
  string_at-Fits cursor out_size,
  compound_at-Fits b'{' b'}' cursor out_size,
  compound_at-Fits b'[' b']' cursor out_size,
  copy_trimmed-Fits (take (find_plain_end cursor) cursor) out_size,
)

-- `json_get_string` stores at most the buffer that it is given, its NUL included, for every text, key and size.
pub get_string-Fits :
    (json key : Bytes) (out_size : ℕ) → Fits out_size (get_string json key out_size)
unfolding get_string
get_string-Fits json key out_size = elim (Option-cases (find_after_key json key)) [
  | inl e ↦ rw (e, Fits) tt
  | inr (cursor, e) ↦ rw (e, Fits) (ground (arith, string_at-Fits cursor out_size))
]

-- `json_get_raw_value` stores at most the buffer that it is given, its NUL included, for every text, key and size.
pub get_raw_value-Fits :
    (json key : Bytes) (out_size : ℕ) → Fits out_size (get_raw_value json key out_size)
unfolding get_raw_value
get_raw_value-Fits json key out_size = elim (Option-cases (find_after_key json key)) [
  | inl e ↦ rw (e, Fits) tt
  | inr (cursor, e) ↦ rw (e, Fits) (raw_value_at-Fits cursor out_size)
]

-- What a buffer that held a shorter text holds behind the call.
pub or_keep-Fits :
    (old : Bytes) (out_size : ℕ) (r : Copied)
    → length old < out_size
    → Fits out_size r
    → length (or_keep old r) < out_size
or_keep-Fits old out_size (copied w) h f = omega arith
or_keep-Fits old out_size (cut w) h f = omega arith
or_keep-Fits old out_size rejected h f = h
