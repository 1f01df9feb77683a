-- ===== src/Json/Array/Size.antt =====
-- src/json_utils.c: the size of an array of strings.
use aliyun_iot_arm.Prelude.{
  ℕ, ◌+◌, ◌≡◌, refl, ap, ◌∙◌, Bool, true, false, some, List, [], ◌∷◌, ◌++◌, append_assoc, arith,
  length, Bytes,
}
use aliyun_iot_arm.Json.Scan.{skip_ws}
use aliyun_iot_arm.Json.Copy.Escape.{escape_char, escaped}
use aliyun_iot_arm.Json.Array.{size_loop, size_from, array_size}

-- The items behind the first one, and the end of the array.
abbrev pub items_tail : List Bytes → Bytes
items_tail [] = b']' ∷ []
items_tail (s ∷ items) = b',' ∷ b'"' ∷ (escaped s ++ (b'"' ∷ items_tail items))

-- An array of strings, as it is written.
abbrev pub array_text : Bytes → List Bytes → Bytes
array_text s items = b'[' ∷ b'"' ∷ (escaped s ++ (b'"' ∷ items_tail items))

size_loop-escape_char :
    (depth count : ℕ) (has_item : Bool) (c : ℕ) (rest : Bytes)
    → size_loop depth true false count has_item (escape_char c ++ rest)
      ≡ size_loop depth true false count has_item rest
unfolding size_loop
size_loop-escape_char depth count has_item c rest = ground arith

-- What a string holds does not count.
size_loop-escaped :
    (depth count : ℕ) (has_item : Bool) (s rest : Bytes)
    → size_loop depth true false count has_item (escaped s ++ (b'"' ∷ rest))
      ≡ size_loop depth false false count has_item rest
size_loop-escaped depth count has_item [] rest = unfold size_loop in refl
size_loop-escaped depth count has_item (c ∷ s) rest =
    ap (size_loop depth true false count has_item)
      (append_assoc (escape_char c) (escaped s) (b'"' ∷ rest))
    ∙ (size_loop-escape_char depth count has_item c (escaped s ++ (b'"' ∷ rest))
        ∙ size_loop-escaped depth count has_item s rest)

size_loop-items_tail :
    (count : ℕ) (items : List Bytes)
    → size_loop 0 false false count true (items_tail items) ≡ some (count + 1 + length items)
unfolding size_loop
size_loop-items_tail count [] = ap some (omega arith)
size_loop-items_tail count (s ∷ items) =
    size_loop-escaped 0 (count + 1) true s (items_tail items)
    ∙ (size_loop-items_tail (count + 1) items ∙ ap some (omega arith))

-- `json_array_size` counts the strings of an array of at least one, whatever they hold: quotes, commas and
-- brackets in them do not count.
pub array_size-array_text :
    (s : Bytes) (items : List Bytes) → array_size (array_text s items) ≡ some (1 + length items)
unfolding array_size size_from skip_ws size_loop
array_size-array_text s items =
    size_loop-escaped 0 0 true s (items_tail items) ∙ size_loop-items_tail 0 items
