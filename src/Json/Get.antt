-- ===== src/Json/Get.antt =====
-- src/json_utils.c: the value of a member, as a string, as it stands, as an object or an array.
pub mod Member
pub mod Bounds
use aliyun_iot_arm.Prelude.{
  ℕ, zero, suc, ◌+◌, ◌-◌, ◌*◌, ◌/◌, ◌%◌, ◌^◌, ◌≤◌, ◌<◌, ◌≡◌, refl, sym, ap, ◌∙◌, ◌≢◌, ◌↔◌, ◌⊎◌, inl,
  inr, Bool, true, false, not, ◌&&◌, ◌||◌, Option, none, some, List, [], ◌∷◌, ◌++◌, map, append-nil,
  append_assoc, arith, ltb, leb, ◌==◌, if◌then◌else◌, ltb→lt, lt→ltb, leb→le, ==_iff, Bool-cases,
  Option-cases, length, get_elem?, set, length-append, length-set, get_elem?-set_self,
  get_elem?-set_ne, get_or, take, drop, replicate, take-append-drop, length-take, length-drop,
  length-replicate, length-map, ℤ, pos, negsuc, inc, dec, is_zero, is_neg, eq_ℤ, sub_ℕ, neg,
  eq_ℤ→eq, eq_ℤ_refl, Bytes, codes, starts_with, str_eq, strstr, isspace, snprintf, str_eq_iff,
  str_eq_refl, starts_with-append,
}
use aliyun_iot_arm.Json.Scan.{find_after_key, find_string_end, find_compound_end, find_plain_end}
use aliyun_iot_arm.Json.Copy.{Copied, copied, cut, rejected, copy_trimmed, copy_string_value}

-- `*cursor == c`
abbrev pub points_to : ℕ → Bytes → Bool
points_to c [] = false
points_to c (d ∷ cursor) = d == c

-- A quoted value: `cursor` stands on the opening quote.
unfoldable pub string_at : Bytes → ℕ → Copied
unfolding find_string_end copy_string_value
string_at cursor out_size = elim (find_string_end false (drop 1 cursor)) [
  | none ↦ rejected
  | some n ↦ copy_string_value (take n (drop 1 cursor)) out_size
]

unfoldable pub compound_at : ℕ → ℕ → Bytes → ℕ → Copied
unfolding find_compound_end copy_trimmed
compound_at open_char close_char cursor out_size =
    elim (find_compound_end open_char close_char cursor) [
      | none ↦ rejected
      | some n ↦ copy_trimmed (take (n + 1) cursor) out_size
    ]

unfoldable pub get_string : Bytes → Bytes → ℕ → Copied
unfolding find_after_key string_at
get_string json key out_size = elim (find_after_key json key) [
  | none ↦ rejected
  | some cursor ↦ if points_to b'"' cursor then string_at cursor out_size else rejected
]

unfoldable pub raw_value_at : Bytes → ℕ → Copied
unfolding string_at compound_at find_plain_end copy_trimmed
raw_value_at cursor out_size =
    if points_to b'"' cursor
    then string_at cursor out_size
    else (if points_to b'{' cursor
        then compound_at b'{' b'}' cursor out_size
        else (if points_to b'[' cursor
            then compound_at b'[' b']' cursor out_size
            else copy_trimmed (take (find_plain_end cursor) cursor) out_size))

unfoldable pub get_raw_value : Bytes → Bytes → ℕ → Copied
unfolding find_after_key raw_value_at
get_raw_value json key out_size = elim (find_after_key json key) [
  | none ↦ rejected
  | some cursor ↦ raw_value_at cursor out_size
]

unfoldable pub get_object : Bytes → Bytes → ℕ → Copied
unfolding find_after_key compound_at
get_object json key out_size = elim (find_after_key json key) [
  | none ↦ rejected
  | some cursor ↦ if points_to b'{' cursor then compound_at b'{' b'}' cursor out_size else rejected
]

unfoldable pub get_array : Bytes → Bytes → ℕ → Copied
unfolding find_after_key compound_at
get_array json key out_size = elim (find_after_key json key) [
  | none ↦ rejected
  | some cursor ↦ if points_to b'[' cursor then compound_at b'[' b']' cursor out_size else rejected
]
