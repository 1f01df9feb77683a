-- ===== src/Utils/Decimal.antt =====
-- core/utils/core_string.c: numbers of 32 and 64 bits as decimal texts, written and read.
use aliyun_iot_arm.Prelude.{
  ℕ, zero, suc, ◌+◌, ◌-◌, ◌*◌, ◌/◌, ◌%◌, ◌^◌, ◌≤◌, ◌<◌, ◌≡◌, sym, ap, ◌∙◌, subst, inl, inr, ◌||◌,
  Option, none, some, [], ◌∷◌, ◌++◌, arith, ltb, if◌then◌else◌, Bool-cases, Bytes,
}
use native.Mathlib.Nat.{pow-suc, div-add-mod, mod-eq_of_lt}
use mathlib.Core.List.{reverse, reverse-cons}

-- The first loop of `core_uint2str`, on fuel: the digits, the last one first.
unfoldable pub digits_loop : (fuel input : ℕ) → Bytes
digits_loop zero input = []
digits_loop (suc fuel) input =
    let rest = digits_loop fuel (input / 10) in
    if ltb 0 (input / 10) then (48 + input % 10) ∷ rest else (48 + input % 10) ∷ []

-- `core_uint2str`; the second loop turns the digits around. 32 bits are at most 10 digits, which is the
-- room of `temp`.
unfoldable pub uint2str : ℕ → Bytes
unfolding digits_loop
uint2str input = reverse (digits_loop 10 input)

-- `core_uint642str`, with room for 20 digits.
unfoldable pub uint642str : ℕ → Bytes
unfolding digits_loop
uint642str input = reverse (digits_loop 20 input)

-- The loop of `core_str2uint` and `core_str2uint64`, for the number of bits of each; `none` is
-- STATE_USER_INPUT_OUT_RANGE.
unfoldable pub read_digits : (bits temp : ℕ) → Bytes → Option ℕ
read_digits bits temp [] = some temp
read_digits bits temp (c ∷ input) =
    let rest = read_digits bits ((temp * 10 + c - 48) % 2 ^ bits) input in
    if ltb c 48 || ltb 57 c then none else rest

unfoldable pub str2uint : Bytes → Option ℕ
unfolding read_digits
str2uint input = read_digits 32 0 input

unfoldable pub str2uint64 : Bytes → Option ℕ
unfolding read_digits
str2uint64 input = read_digits 64 0 input

-- The last digit of a text whose front is read.
read_digits-snoc :
    (bits temp value d : ℕ) (input : Bytes)
    → read_digits bits temp input ≡ some value
    → d < 10
    → value * 10 + d < 2 ^ bits
    → read_digits bits temp (input ++ ((48 + d) ∷ [])) ≡ some (value * 10 + d)
unfolding read_digits
read_digits-snoc bits temp value d [] e digit fits =
    let small : (value * 10 + d) % 2 ^ bits ≡ value * 10 + d = mod-eq_of_lt fits in ground arith
read_digits-snoc bits temp value d (c ∷ input) e digit fits =
    ground (arith, read_digits-snoc bits ((temp * 10 + c - 48) % 2 ^ bits) value d input)

one_digit : (bits d : ℕ) → d < 10 → 10 ≤ 2 ^ bits → read_digits bits 0 ((48 + d) ∷ []) ≡ some d
unfolding read_digits
one_digit bits d digit wide =
    let small : d % 2 ^ bits ≡ d = mod-eq_of_lt (omega arith) in ground arith

some_more : (k n : ℕ) → n < 10 ^ suc k → 0 < n / 10 → 0 < k
some_more zero n small more = absurd (omega (arith, pow-suc 10 zero))
some_more (suc k) n small more = omega arith

shorter : (k fuel n : ℕ) → k < suc fuel → n < 10 ^ suc k → 0 < n / 10 → k - 1 < fuel
shorter k fuel n enough small more = omega (arith, some_more k n small more)

fewer : (k n : ℕ) → n < 10 ^ suc k → 0 < n / 10 → n / 10 < 10 ^ suc (k - 1)
fewer zero n small more = absurd (omega (arith, some_more zero n small more))
fewer (suc k) n small more =
    let same : suc k - 1 ≡ k = omega arith in
    subst (λ t. n / 10 < 10 ^ suc t) (sym same) (omega (arith, pow-suc 10 (suc k)))

digits-read :
    (k fuel bits n : ℕ)
    → k < fuel
    → n < 10 ^ suc k
    → n < 2 ^ bits
    → 10 ≤ 2 ^ bits
    → read_digits bits 0 (reverse (digits_loop fuel n)) ≡ some n
unfolding digits_loop
digits-read k zero bits n enough small fits wide = elim enough [ ]
digits-read k (suc fuel) bits n enough small fits wide =
    let parts = div-add-mod n 10 in
    elim (Bool-cases (ltb 0 (n / 10))) [
      | inr last ↦
          let is : n % 10 ≡ n = ground (arith, parts) in
          rw (last) (
            subst (λ t. read_digits bits 0 ((48 + n % 10) ∷ []) ≡ some t) is
              (one_digit bits (n % 10) (omega arith) wide))
      | inl more ↦
          let whole : n / 10 * 10 + n % 10 ≡ n = omega (arith, parts) in
          let front =
            digits-read (k - 1) fuel bits (n / 10) (shorter k fuel n enough small (ground arith))
              (fewer k n small (ground arith)) (omega (arith, parts)) wide in
          rw (more) (
            ap (read_digits bits 0) (reverse-cons (48 + n % 10) (digits_loop fuel (n / 10)))
            ∙ (read_digits-snoc bits 0 (n / 10) (n % 10) (reverse (digits_loop fuel (n / 10))) front
                  (omega arith) (omega (arith, parts))
                ∙ ap some whole))
    ]

-- A number of 32 bits that `core_uint2str` writes, `core_str2uint` reads back, and one of 64 bits that
-- `core_uint642str` writes, `core_str2uint64` reads back.
pub str2uint-uint2str :
    (n m : ℕ)
    → n < 2 ^ 32
    → m < 2 ^ 64
    → (str2uint (uint2str n) ≡ some n) × (str2uint64 (uint642str m) ≡ some m)
unfolding str2uint str2uint64 uint2str uint642str
str2uint-uint2str n m hn hm = (
  digits-read 9 10 32 n (omega arith) (omega arith) hn (omega arith),
  digits-read 19 20 64 m (omega arith) (omega arith) hm (omega arith),
)
