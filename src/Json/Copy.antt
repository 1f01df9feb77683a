-- ===== src/Json/Copy.antt =====
-- src/json_utils.c: copies into a buffer of `out_size` bytes, and the escaping of strings.
pub mod Bounds
pub mod Escape
use aliyun_iot_arm.Prelude.{
  ℕ, zero, suc, ◌+◌, ◌-◌, ◌*◌, ◌/◌, ◌%◌, ◌^◌, ◌≤◌, ◌<◌, ◌≡◌, refl, sym, ap, ◌∙◌, ◌≢◌, ◌↔◌, ◌⊎◌, inl,
  inr, Bool, true, false, not, ◌&&◌, ◌||◌, Option, none, some, List, [], ◌∷◌, ◌++◌, map, append-nil,
  append_assoc, arith, ltb, leb, ◌==◌, if◌then◌else◌, ltb→lt, lt→ltb, leb→le, ==_iff, Bool-cases,
  Option-cases, length, get_elem?, set, length-append, length-set, get_elem?-set_self,
  get_elem?-set_ne, get_or, take, drop, replicate, take-append-drop, length-take, length-drop,
  length-replicate, length-map, ℤ, pos, negsuc, inc, dec, is_zero, is_neg, eq_ℤ, sub_ℕ, neg,
  eq_ℤ→eq, eq_ℤ_refl, Bytes, codes, starts_with, str_eq, strstr, isspace, snprintf, str_eq_iff,
  str_eq_refl, starts_with-append,
}
use mathlib.Core.List.{reverse}
use aliyun_iot_arm.Json.Scan.{skip_ws}

-- What a call that fills `out` answers, and what it has stored there.
pub data Copied : Type 0 where
  copied : Bytes → Copied  -- 0: this text, and the NUL behind it
  cut : Bytes → Copied  -- -1 for lack of space: these bytes, with no NUL
  rejected : Copied  -- -1, with nothing stored

abbrev pub succeeded : Copied → Bool
succeeded (copied w) = true
succeeded (cut w) = false
succeeded rejected = false

-- The bytes that were stored.
abbrev pub stored : Copied → Bytes
stored (copied w) = w
stored (cut w) = w
stored rejected = []

-- The text in a buffer that held `old` and zeros behind it, when the caller drops the result: a
-- copy that is cut has filled all of the buffer but its last byte.
abbrev pub or_keep : Bytes → Copied → Bytes
or_keep old (copied w) = w
or_keep old (cut w) = w
or_keep old rejected = old

abbrev pub prepend : Bytes → Copied → Copied
prepend front (copied w) = copied (front ++ w)
prepend front (cut w) = cut (front ++ w)
prepend front rejected = rejected

-- `span` is the text from `start` to `end`.
unfoldable pub copy_trimmed : Bytes → ℕ → Copied
unfolding skip_ws
copy_trimmed span out_size =
    let text = reverse (skip_ws (reverse (skip_ws span))) in
    if out_size == 0 || leb out_size (length text) then rejected else copied text

-- The `switch` over the character behind a backslash.
abbrev pub unescape : ℕ → ℕ
unescape esc =
    if esc == b'b'
    then 8
    else (if esc == b'f'
        then 12
        else (if esc == b'n'
            then 10
            else (if esc == b'r' then 13 else (if esc == b't' then 9 else esc))))

abbrev pub store_char : ℕ → ℕ → ℕ → Copied → Copied
store_char out_size idx ch rest = if leb out_size (idx + 1) then cut [] else prepend (ch ∷ []) rest

-- The text is what lies before `end`; a backslash in the last place is copied as it is.
unfoldable pub copy_string_loop : ℕ → ℕ → Bytes → Copied
copy_string_loop out_size idx [] = copied []
copy_string_loop out_size idx (c ∷ []) = store_char out_size idx c (copied [])
copy_string_loop out_size idx (c ∷ esc ∷ text) = elim (c == b'\\') [
  | true ↦ store_char out_size idx (unescape esc) (copy_string_loop out_size (idx + 1) text)
  | false ↦ store_char out_size idx c (copy_string_loop out_size (idx + 1) (esc ∷ text))
]

unfoldable pub copy_string_value : Bytes → ℕ → Copied
unfolding copy_string_loop
copy_string_value span out_size =
    if out_size == 0 then rejected else copy_string_loop out_size 0 span

-- The `switch` over the characters that are escaped.
abbrev pub replacement : ℕ → Option Bytes
replacement c =
    if c == b'\\'
    then some (b'\\' ∷ b'\\' ∷ [])
    else (if c == b'"'
        then some (b'\\' ∷ b'"' ∷ [])
        else (if c == 10
            then some (b'\\' ∷ b'n' ∷ [])
            else (if c == 13
                then some (b'\\' ∷ b'r' ∷ [])
                else (if c == 9 then some (b'\\' ∷ b't' ∷ []) else none))))

unfoldable pub escape_loop : ℕ → ℕ → Bytes → Copied
escape_loop out_size idx [] = copied []
escape_loop out_size idx (ch ∷ input) = elim (replacement ch) [
  | some rep ↦
      if leb out_size (idx + length rep + 1)
      then cut []
      else prepend rep (escape_loop out_size (idx + length rep) input)
  | none ↦
      if leb out_size (idx + 2)
      then cut []
      else prepend (ch ∷ []) (escape_loop out_size (idx + 1) input)
]

unfoldable pub escape_string : Bytes → ℕ → Copied
unfolding escape_loop
escape_string input out_size = if out_size == 0 then rejected else escape_loop out_size 0 input
