-- ===== src/Utils/StringBuilder.antt =====
-- src/string_builder.c: a text that grows.
use native.Mathlib.Nat.{pow-suc}
use aliyun_iot_arm.Prelude.{
  ℕ, zero, suc, ◌+◌, ◌*◌, ◌%◌, ◌^◌, ◌≤◌, ◌<◌, ◌≡◌, ap, ◌⊎◌, inl, inr, Bool, true, false, [], ◌++◌,
  arith, ltb, leb, ◌==◌, if◌then◌else◌, Bool-cases, length, length-append, take, take_all, Bytes,
}

-- `StringBuilder`: `data` up to `length`, whose NUL stands behind it; the rest of the buffer is not read.
pub record StringBuilder : Type 0 where
  pub data_text : Bytes
  pub capacity : ℕ

-- The doubling of `sb_reserve` on a `size_t`, on fuel.
unfoldable pub grow : (fuel next_capacity needed : ℕ) → ℕ
grow zero next_capacity needed = next_capacity
grow (suc fuel) next_capacity needed =
    let more = grow fuel (next_capacity * 2 % 2 ^ 64) needed in
    if ltb next_capacity needed then more else next_capacity

-- `sb_reserve`: the answer says whether it is 0; `had` whether `realloc` gives the memory. Each round
-- doubles a capacity that is not 0, so 64 rounds reach every size of 64 bits.
unfoldable pub sb_reserve : (had : Bool) → StringBuilder → (needed : ℕ) → Bool × StringBuilder
unfolding grow
sb_reserve had builder needed =
    let next_capacity = grow 64 (if builder.capacity == 0 then 256 else builder.capacity) needed in
    if leb needed builder.capacity
    then (true, builder)
    else (if had then (true, record builder { capacity = next_capacity }) else (false, builder))

-- `sb_init`
unfoldable pub sb_init : (had : Bool) (initial_capacity : ℕ) → Bool × StringBuilder
unfolding sb_reserve
sb_init had initial_capacity =
    sb_reserve had (record { data_text = []; capacity = 0 })
      (if initial_capacity == 0 then 256 else initial_capacity)

-- `sb_append_n` of the first `length` bytes of a text that is not null.
unfoldable pub sb_append_n : (had : Bool) → StringBuilder → Bytes → (n : ℕ) → Bool × StringBuilder
unfolding sb_reserve
sb_append_n had builder text n =
    let (ok, builder') = sb_reserve had builder (length builder.data_text + n + 1) in
    if ok
    then (true, record builder' { data_text = builder'.data_text ++ take n text })
    else (false, builder')

-- `sb_append`, and `sb_appendf` for the formatted text.
unfoldable pub sb_append : (had : Bool) → StringBuilder → Bytes → Bool × StringBuilder
unfolding sb_append_n
sb_append had builder text = sb_append_n had builder text (length text)

-- The text and its NUL fit the buffer, once there is one.
abbrev pub HasRoom : StringBuilder → Type 0
HasRoom builder = length builder.data_text < builder.capacity

double_pow : (f c n : ℕ) → n ≤ c * 2 ^ suc f → n ≤ c * 2 * 2 ^ f
double_pow f c n h = omega (arith, ap (λ t. c * t) (pow-suc 2 f))

grow_reaches :
    (fuel c needed : ℕ) → needed ≤ 2 ^ 63 → needed ≤ c * 2 ^ fuel → needed ≤ grow fuel c needed
unfolding grow
grow_reaches zero c needed small h = omega arith
grow_reaches (suc f) c needed small h = elim (Bool-cases (ltb c needed)) [
  | inr enough ↦ rw enough (ground arith)
  | inl less ↦
      let whole : c * 2 % 2 ^ 64 ≡ c * 2 = ground arith in
      rw (less, whole) (grow_reaches f (c * 2) needed small (double_pow f c needed h))
]

-- Appending either fails and leaves the text as it was, or puts the new text behind the old one in a buffer
-- with room for both and the NUL; the length of both is of 63 bits.
pub sb_append_lem :
    (had : Bool) (builder : StringBuilder) (text : Bytes)
    → HasRoom builder
    → length builder.data_text + length text + 1 ≤ 2 ^ 63
    → (((sb_append had builder text).0 ≡ false) × ((sb_append had builder text).1 ≡ builder))
      ⊎ (((sb_append had builder text).0 ≡ true)
          × ((sb_append had builder text).1.data_text ≡ builder.data_text ++ text)
          × HasRoom (sb_append had builder text).1)
unfolding sb_append sb_append_n sb_reserve
sb_append_lem had builder text room small =
    let needed = length builder.data_text + length text + 1 in
    let start = if builder.capacity == 0 then 256 else builder.capacity in
    let reached : needed ≤ grow 64 start needed =
      grow_reaches 64 start needed small (ground arith) in
    let sum = length-append builder.data_text text in
    let whole = take_all (length text) text (omega arith) in
    elim (Bool-cases (leb needed builder.capacity)) [
      | inl fits ↦ inr (ground arith, ground arith, ground arith)
      | inr grows ↦ elim (Bool-cases had) [
        | inl has ↦ inr (ground arith, ground arith, ground arith)
        | inr lacks ↦ inl (ground arith, ground arith)
      ]
    ]
