-- ===== src/Utils/Hex.antt =====
-- core/utils/core_string.c: bytes as hexadecimal texts, written and read.
use aliyun_iot_arm.Prelude.Bits.{nibbles}
use aliyun_iot_arm.Prelude.{
  ℕ, ◌+◌, ◌-◌, ◌*◌, ◌/◌, ◌%◌, ◌<◌, ◌≡◌, refl, Bool, ◌&&◌, Option, none, some, [], ◌∷◌, arith,
  bit_or, ltb, leb, ◌==◌, if◌then◌else◌, length, All, Bytes,
}

-- `encode[n]`
abbrev pub hex_digit : (lowercase : Bool) → ℕ → ℕ
hex_digit lowercase n = if ltb n 10 then 48 + n else (if lowercase then 87 + n else 55 + n)

-- `core_hex2str`: `(input[i] >> 4) & 0xf` and `input[i] & 0xf` of a byte.
unfoldable pub hex2str : (lowercase : Bool) → Bytes → Bytes
hex2str lowercase [] = []
hex2str lowercase (c ∷ input) =
    hex_digit lowercase (c / 16 % 16) ∷ hex_digit lowercase (c % 16) ∷ hex2str lowercase input

-- The value of a digit; other characters have none.
abbrev pub hex_value : ℕ → Option ℕ
hex_value c =
    if leb b'0' c && leb c b'9'
    then some (c - b'0')
    else (if leb b'A' c && leb c b'F'
        then some (c - b'A' + 10)
        else (if leb b'a' c && leb c b'f' then some (c - b'a' + 10) else none))

-- The two digits of a byte over what `output` held there: a character that is no digit leaves it.
abbrev pub merge_digits : (old high low : ℕ) → ℕ
merge_digits old high low =
    let first : ℕ = elim (hex_value high) [ none ↦ old | some v ↦ v * 16 % 256 ] in
    elim (hex_value low) [ none ↦ first | some v ↦ bit_or first v ]

-- The loop of `core_str2hex` over a buffer; bytes behind its end are taken as 0.
unfoldable pub str2hex_loop : (output input : Bytes) → Bytes
str2hex_loop output [] = output
str2hex_loop output (high ∷ []) = output
str2hex_loop [] (high ∷ low ∷ input) = merge_digits 0 high low ∷ str2hex_loop [] input
str2hex_loop (old ∷ output) (high ∷ low ∷ input) =
    merge_digits old high low ∷ str2hex_loop output input

-- `core_str2hex`; `none` is STATE_USER_INPUT_OUT_RANGE.
unfoldable pub str2hex : (output input : Bytes) → Option Bytes
unfolding str2hex_loop
str2hex output input = if length input % 2 == 0 then some (str2hex_loop output input) else none

hex_value-hex_digit :
    (lowercase : Bool) (n : ℕ) → n < 16 → hex_value (hex_digit lowercase n) ≡ some n
hex_value-hex_digit lowercase n small = ground arith

merge-hex_digit :
    (lowercase : Bool) (old c : ℕ)
    → c < 256
    → merge_digits old (hex_digit lowercase (c / 16 % 16)) (hex_digit lowercase (c % 16)) ≡ c
merge-hex_digit lowercase old c byte =
    let high = hex_value-hex_digit lowercase (c / 16 % 16) (omega arith) in
    let low = hex_value-hex_digit lowercase (c % 16) (omega arith) in
    ground (arith, high, low, nibbles c byte)

length-hex2str :
    (lowercase : Bool) (input : Bytes) → length (hex2str lowercase input) ≡ 2 * length input
unfolding hex2str
length-hex2str lowercase [] = refl
length-hex2str lowercase (c ∷ input) = ground (arith, length-hex2str lowercase input)

str2hex_loop-hex2str :
    (lowercase : Bool) (output input : Bytes)
    → length output ≡ length input
    → All (λ c. c < 256) input
    → str2hex_loop output (hex2str lowercase input) ≡ input
unfolding hex2str str2hex_loop
str2hex_loop-hex2str lowercase [] [] same bytes = refl
str2hex_loop-hex2str lowercase [] (c ∷ input) same bytes = absurd (omega arith)
str2hex_loop-hex2str lowercase (old ∷ output) [] same bytes = absurd (omega arith)
str2hex_loop-hex2str lowercase (old ∷ output) (c ∷ input) same (byte, bytes) =
    let first = merge-hex_digit lowercase old c byte in
    let others = str2hex_loop-hex2str lowercase output input (omega arith) bytes in
    λ i. first i ∷ others i

-- The text that `core_hex2str` writes for some bytes, in capitals or not, is of even length, and
-- `core_str2hex` reads the bytes back from it over any buffer of their number.
pub str2hex-hex2str :
    (lowercase : Bool) (output input : Bytes)
    → length output ≡ length input
    → All (λ c. c < 256) input
    → str2hex output (hex2str lowercase input) ≡ some input
unfolding str2hex
str2hex-hex2str lowercase output input same bytes =
    let even : length (hex2str lowercase input) % 2 ≡ 0 =
      omega (arith, length-hex2str lowercase input) in
    ground (arith, str2hex_loop-hex2str lowercase output input same bytes)
