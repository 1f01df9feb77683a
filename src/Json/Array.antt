-- ===== src/Json/Array.antt =====
-- src/json_utils.c: `json_array_size` and `json_array_get_item`.
use aliyun_iot_arm.Prelude.{
  ℕ, ◌+◌, ◌-◌, Bool, true, false, ◌&&◌, ◌||◌, Option, none, some, [], ◌∷◌, ltb, ◌==◌, if◌then◌else◌,
  length, take, Bytes, isspace,
}
pub mod Size
use aliyun_iot_arm.Json.Scan.{skip_ws, stays_in_string, starts_escape}
use aliyun_iot_arm.Json.Copy.{Copied, rejected, copy_trimmed}

abbrev pub is_open : ℕ → Bool
is_open ch = ch == b'{' || ch == b'['

abbrev pub is_close : ℕ → Bool
is_close ch = ch == b'}' || ch == b']'

-- `array_size`'s loop; `none` is its -1, for a text that ends inside the array.
unfoldable pub size_loop :
    (depth : ℕ) (in_string escaped : Bool) (count : ℕ) (has_item : Bool) → Bytes → Option ℕ
unfolding isspace
size_loop depth in_string escaped count has_item [] = none
size_loop depth true escaped count has_item (ch ∷ cursor) =
    size_loop depth (stays_in_string escaped ch) (starts_escape escaped ch) count has_item cursor
size_loop depth false escaped count has_item (ch ∷ cursor) = elim (isspace ch) [
  | true ↦ size_loop depth false escaped count has_item cursor
  | false ↦ elim (ch == b'"') [
    | true ↦ size_loop depth true escaped count true cursor
    | false ↦ elim (is_open ch) [
      | true ↦ size_loop (depth + 1) false escaped count true cursor
      | false ↦ elim (is_close ch) [
        | true ↦ elim (ltb 0 depth) [
          | true ↦ size_loop (depth - 1) false escaped count has_item cursor
          | false ↦ elim (ch == b']') [
            | true ↦ some (if has_item then count + 1 else count)
            | false ↦ size_loop depth false escaped count has_item cursor
          ]
        ]
        | false ↦ elim (ch == b',' && depth == 0) [
          | true ↦
              size_loop depth false escaped (if has_item then count + 1 else count) false cursor
          | false ↦ size_loop depth false escaped count true cursor
        ]
      ]
    ]
  ]
]

-- Behind the `[`: -1 at the end of the text, 0 for an array with nothing in it.
unfoldable pub size_from : Bytes → Option ℕ
unfolding size_loop
size_from [] = none
size_from (c ∷ cursor) = if c == b']' then some 0 else size_loop 0 false false 0 false (c ∷ cursor)

-- The text of the array behind its `[`, or `none` where the text is no array.
abbrev pub array_body : Bytes → Option Bytes
array_body [] = none
array_body (c ∷ cursor) = if c == b'[' then some cursor else none

unfoldable pub array_size : Bytes → Option ℕ
unfolding size_from skip_ws
array_size array_json = elim (array_body (skip_ws array_json)) [
  | none ↦ none
  | some cursor ↦ size_from (skip_ws cursor)
]

-- `json_copy_trimmed(item_start, cursor, …)`, which refuses an end before the start.
unfoldable pub copy_item : Bytes → Bytes → ℕ → Copied
unfolding copy_trimmed
copy_item item_start cursor out_size =
    if ltb (length item_start) (length cursor)
    then rejected
    else copy_trimmed (take (length item_start - length cursor) item_start) out_size

unfoldable pub item_loop :
    (out_size index : ℕ) (item_start : Bytes) (current depth : ℕ) (in_string escaped : Bool)
    → Bytes
    → Copied
unfolding copy_item skip_ws
item_loop out_size index item_start current depth in_string escaped [] = rejected
item_loop out_size index item_start current depth true escaped (ch ∷ cursor) =
    item_loop out_size index item_start current depth (stays_in_string escaped ch)
      (starts_escape escaped ch) cursor
item_loop out_size index item_start current depth false escaped (ch ∷ cursor) = elim (ch == b'"') [
  | true ↦ item_loop out_size index item_start current depth true escaped cursor
  | false ↦ elim (is_open ch) [
    | true ↦ item_loop out_size index item_start current (depth + 1) false escaped cursor
    | false ↦ elim (is_close ch) [
      | true ↦ elim (ltb 0 depth) [
        | true ↦ item_loop out_size index item_start current (depth - 1) false escaped cursor
        | false ↦ elim (ch == b']') [
          | true ↦
              if current == index then copy_item item_start (ch ∷ cursor) out_size else rejected
          | false ↦ item_loop out_size index item_start current depth false escaped cursor
        ]
      ]
      | false ↦ elim (ch == b',' && depth == 0) [
        | true ↦ elim (current == index) [
          | true ↦ copy_item item_start (ch ∷ cursor) out_size
          | false ↦
              item_loop out_size index (skip_ws cursor) (current + 1) depth false escaped cursor
        ]
        | false ↦ item_loop out_size index item_start current depth false escaped cursor
      ]
    ]
  ]
]

unfoldable pub item_from : Bytes → ℕ → ℕ → Copied
unfolding item_loop
item_from [] index out_size = rejected
item_from (c ∷ cursor) index out_size =
    if c == b']'
    then rejected
    else item_loop out_size index (c ∷ cursor) 0 0 false false (c ∷ cursor)

unfoldable pub array_get_item : Bytes → ℕ → ℕ → Copied
unfolding item_from skip_ws
array_get_item array_json index out_size =
    if out_size == 0 then rejected else elim (array_body (skip_ws array_json)) [
      | none ↦ rejected
      | some cursor ↦ item_from (skip_ws cursor) index out_size
    ]
