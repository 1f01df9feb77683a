-- ===== src/Prelude/Numerals.antt =====
-- Numbers in texts: `%lld` of libc's `printf`, and `atoi`.
use Prim.Native.Nat.{ℕ, zero, suc, ◌+◌, ◌-◌, ◌*◌, ◌/◌, ◌%◌}
use mathlib.Core.Bool.{Bool, ◌&&◌}
use mathlib.Core.List.{[], ◌∷◌}
use aliyun_iot_arm.Prelude.Tests.{ltb, leb, ◌==◌, if◌then◌else◌}
use aliyun_iot_arm.Prelude.Int.{ℤ, pos, negsuc, neg}
use aliyun_iot_arm.Prelude.Text.{Bytes, isspace}

-- The digits of a number in front of those that are there; 20 are enough for 64 bits.
unfoldable pub decimal_loop : ℕ → ℕ → Bytes → Bytes
decimal_loop zero n digits = digits
decimal_loop (suc fuel) n digits =
    let front = decimal_loop fuel (n / 10) ((48 + n % 10) ∷ digits) in
    if ltb n 10 then (48 + n % 10) ∷ digits else front

unfoldable pub decimal : ℕ → Bytes
unfolding decimal_loop
decimal n = decimal_loop 20 n []

abbrev pub is_digit : ℕ → Bool
is_digit c = leb 48 c && leb c 57

-- The value of the digits up to the first other character.
unfoldable pub atoi_digits : ℕ → Bytes → ℕ
atoi_digits value [] = value
atoi_digits value (c ∷ text) =
    let more = atoi_digits (value * 10 + (c - 48)) text in if is_digit c then more else value

abbrev pub negated : ℕ → ℤ
negated n = if n == 0 then pos 0 else neg n

unfoldable pub atoi_signed : Bytes → ℤ
unfolding atoi_digits
atoi_signed [] = pos 0
atoi_signed (c ∷ text) =
    if c == b'-'
    then negated (atoi_digits 0 text)
    else (if c == b'+' then pos (atoi_digits 0 text) else pos (atoi_digits 0 (c ∷ text)))

-- `atoi`, for numbers that an `int` holds.
unfoldable pub atoi : Bytes → ℤ
unfolding isspace atoi_signed
atoi [] = pos 0
atoi (c ∷ text) = let rest = atoi text in if isspace c then rest else atoi_signed (c ∷ text)

-- `%d`
abbrev pub decimal_int : ℤ → Bytes
decimal_int (pos n) = decimal n
decimal_int (negsuc n) = b'-' ∷ decimal (suc n)
