-- ===== src/Json/Scan.antt =====
-- src/json_utils.c: the scanning functions. A `cursor` is the suffix of the text that it points to,
-- and the end of a value is its distance from the cursor that it was searched from.
pub mod Total
pub mod Find
use aliyun_iot_arm.Prelude.{
  ℕ, zero, suc, ◌+◌, ◌-◌, ◌*◌, ◌/◌, ◌%◌, ◌^◌, ◌≤◌, ◌<◌, ◌≡◌, refl, sym, ap, ◌∙◌, ◌≢◌, ◌↔◌, ◌⊎◌, inl,
  inr, Bool, true, false, not, ◌&&◌, ◌||◌, Option, none, some, List, [], ◌∷◌, ◌++◌, map, append-nil,
  append_assoc, arith, ltb, leb, ◌==◌, if◌then◌else◌, ltb→lt, lt→ltb, leb→le, ==_iff, Bool-cases,
  Option-cases, length, get_elem?, set, length-append, length-set, get_elem?-set_self,
  get_elem?-set_ne, get_or, take, drop, replicate, take-append-drop, length-take, length-drop,
  length-replicate, length-map, ℤ, pos, negsuc, inc, dec, is_zero, is_neg, eq_ℤ, sub_ℕ, neg,
  eq_ℤ→eq, eq_ℤ_refl, Bytes, codes, starts_with, str_eq, strstr, isspace, snprintf, str_eq_iff,
  str_eq_refl, starts_with-append,
}
use mathlib.Core.Option

unfoldable pub skip_ws : Bytes → Bytes
unfolding isspace
skip_ws [] = []
skip_ws (c ∷ cursor) = let rest = skip_ws cursor in if isspace c then rest else c ∷ cursor

-- `"key"`, in a buffer of 128 bytes.
abbrev pub key_pattern : Bytes → Bytes
key_pattern key = snprintf 128 (b'"' ∷ (key ++ (b'"' ∷ [])))

-- `after != NULL && *after == ':'`, and then `after + 1`.
unfoldable pub after_colon : Bytes → Option Bytes
after_colon [] = none
after_colon (c ∷ cursor) = if c == b':' then some cursor else none

-- The loop over the occurrences of the pattern, on fuel.
unfoldable pub find_loop : ℕ → Bytes → Bytes → Option Bytes
unfolding strstr starts_with skip_ws after_colon
find_loop zero pattern cursor = none
find_loop (suc fuel) pattern cursor = elim (strstr pattern cursor) [
  | none ↦ none
  | some hit ↦
      let next = drop (length pattern) hit in
      let rest = find_loop fuel pattern next in
      elim (after_colon (skip_ws next)) [ some value ↦ some (skip_ws value) | none ↦ rest ]
]

-- Each round drops a pattern from the text, so its length is fuel enough.
unfoldable pub find_after_key : Bytes → Bytes → Option Bytes
unfolding find_loop
find_after_key json key = find_loop (suc (length json)) (key_pattern key) json

unfoldable pub find_string_end : Bool → Bytes → Option ℕ
find_string_end escaped [] = none
find_string_end escaped (c ∷ cursor) =
    let rest = Option.map suc (find_string_end (not escaped && c == b'\\') cursor) in
    if not escaped && c == b'"' then some 0 else rest

-- What one character does inside a string: whether the string goes on, and whether the next
-- character is escaped.
abbrev pub stays_in_string : Bool → ℕ → Bool
stays_in_string escaped c = escaped || not (c == b'"')

abbrev pub starts_escape : Bool → ℕ → Bool
starts_escape escaped c = not escaped && c == b'\\'

-- `depth` after one character outside of a string.
abbrev pub next_depth : ℕ → ℕ → ℤ → ℕ → ℤ
next_depth open_char close_char depth c =
    if c == b'"'
    then depth
    else (if c == open_char then inc depth else (if c == close_char then dec depth else depth))

-- The character that closes the value: `depth` comes down to 0 on it.
abbrev pub closes : ℕ → ℕ → ℤ → ℕ → Bool
closes open_char close_char depth c =
    not (c == b'"') && not (c == open_char) && c == close_char && is_zero (dec depth)

unfoldable pub compound_loop : ℕ → ℕ → ℤ → Bool → Bool → Bytes → Option ℕ
compound_loop open_char close_char depth in_string escaped [] = none
compound_loop open_char close_char depth true escaped (c ∷ cursor) = Option.map suc (
    compound_loop open_char close_char depth (stays_in_string escaped c) (starts_escape escaped c)
      cursor)
compound_loop open_char close_char depth false escaped (c ∷ cursor) =
    let rest =
      compound_loop open_char close_char (next_depth open_char close_char depth c) (c == b'"')
        escaped cursor in
    if closes open_char close_char depth c then some 0 else Option.map suc rest

unfoldable pub find_compound_end : ℕ → ℕ → Bytes → Option ℕ
unfolding compound_loop
find_compound_end open_char close_char cursor =
    compound_loop open_char close_char (pos 0) false false cursor

-- The distance to the `,`, `}` or `]` behind a plain value, or to the end of the text.
unfoldable pub find_plain_end : Bytes → ℕ
find_plain_end [] = 0
find_plain_end (c ∷ cursor) =
    let rest = suc (find_plain_end cursor) in
    if c == b',' || c == b'}' || c == b']' then 0 else rest
