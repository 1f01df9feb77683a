-- ===== src/Json/Copy/Bounds.antt =====
-- src/json_utils.c: no copy stores more than the buffer holds.
use aliyun_iot_arm.Prelude.{
  ℕ, ◌+◌, ◌-◌, ◌≤◌, ◌<◌, inl, inr, [], ◌∷◌, arith, leb, ◌==◌, Bool-cases, length, length-append,
  Bytes,
}
use aliyun_iot_arm.Json.Copy.{
  Copied, copied, cut, rejected, prepend, copy_trimmed, store_char, copy_string_loop,
  copy_string_value,
}

-- What a call that may write `room` bytes has stored: with the NUL it fits.
abbrev pub Fits : ℕ → Copied → Type 0
Fits room (copied w) = length w + 1 ≤ room
Fits room (cut w) = length w + 1 ≤ room
Fits room rejected = Unit {0}

Fits-prepend :
    (n room : ℕ) (front : Bytes) (r : Copied)
    → length front + n ≤ room
    → Fits n r
    → Fits room (prepend front r)
Fits-prepend n room front (copied w) h f = omega (arith, length-append front w)
Fits-prepend n room front (cut w) h f = omega (arith, length-append front w)
Fits-prepend n room front rejected h f = tt

store_char-Fits :
    (out_size idx ch : ℕ) (r : Copied)
    → idx < out_size
    → (idx + 1 < out_size → Fits (out_size - (idx + 1)) r)
    → Fits (out_size - idx) (store_char out_size idx ch r)
store_char-Fits out_size idx ch r h f = elim (Bool-cases (leb out_size (idx + 1))) [
  | inl full ↦ rw full (omega arith)
  | inr room ↦
      rw room (Fits-prepend (out_size - (idx + 1)) _ (ch ∷ []) r (omega arith) (f (ground arith)))
]

copy_string_loop-Fits :
    (out_size idx : ℕ) (text : Bytes)
    → idx < out_size
    → Fits (out_size - idx) (copy_string_loop out_size idx text)
unfolding copy_string_loop
copy_string_loop-Fits out_size idx [] h = omega arith
copy_string_loop-Fits out_size idx (c ∷ []) h =
    store_char-Fits out_size idx c (copied []) h (λ g. omega arith)
copy_string_loop-Fits out_size idx (c ∷ esc ∷ text) h = elim (Bool-cases (c == b'\\')) [
  | inl e ↦
      rw (e, copy_string_loop)
        (store_char-Fits out_size idx _ _ h (copy_string_loop-Fits out_size (idx + 1) text))
  | inr e ↦
      rw (e, copy_string_loop)
        (store_char-Fits out_size idx c _ h (copy_string_loop-Fits out_size (idx + 1) (esc ∷ text)))
]

-- Reading a string value stores at most the buffer, its NUL included.
pub copy_string_value-Fits :
    (span : Bytes) (out_size : ℕ) → Fits out_size (copy_string_value span out_size)
unfolding copy_string_value
copy_string_value-Fits span out_size = ground (arith, copy_string_loop-Fits out_size 0 span)

pub copy_trimmed-Fits : (span : Bytes) (out_size : ℕ) → Fits out_size (copy_trimmed span out_size)
unfolding copy_trimmed
copy_trimmed-Fits span out_size = ground arith
