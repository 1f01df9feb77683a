-- ===== src/Json/Get/Member.antt =====
-- src/json_utils.c: `json_get_string` reads back what `json_escape_string` wrote between quotes.
use aliyun_iot_arm.Prelude.{
  ℕ, ◌≤◌, ◌<◌, ◌≡◌, refl, ap, ◌∙◌, subst, some, [], ◌∷◌, ◌++◌, arith, length, length-append, All,
  take-append, take_all, Bytes, strstr,
}
use aliyun_iot_arm.Json.Scan.{key_pattern, find_after_key}
use aliyun_iot_arm.Json.Scan.Find.{IsSpace}
use aliyun_iot_arm.Json.Scan.Total.{find_loop_first}
use aliyun_iot_arm.Json.Copy.{copied, escape_string}
use aliyun_iot_arm.Json.Copy.Escape.{
  escape_string-copied, escaped, copy_string_value-escaped, find_string_end-escaped,
}
use aliyun_iot_arm.Json.Get.{string_at, get_string}

abbrev pub quoted : Bytes → Bytes
quoted text = b'"' ∷ (text ++ (b'"' ∷ []))

-- `"key" : "value"`, with blanks about the colon, in front of the rest of the text.
abbrev pub member : (key ws ws' value rest : Bytes) → Bytes
member key ws ws' value rest =
    quoted key ++ (ws ++ (b':' ∷ (ws' ++ (b'"' ∷ (value ++ (b'"' ∷ rest))))))

pub key_pattern-quoted : (key : Bytes) → length key ≤ 125 → key_pattern key ≡ quoted key
key_pattern-quoted key h = take_all 127 (quoted key) (omega (arith, length-append key (b'"' ∷ [])))

string_at-escaped :
    (v rest : Bytes) (out_size : ℕ)
    → length v < out_size
    → string_at (b'"' ∷ (escaped v ++ (b'"' ∷ rest))) out_size ≡ copied v
unfolding string_at
string_at-escaped v rest out_size h =
    rw (find_string_end-escaped v rest, string_at)
      (rw (take-append (escaped v)) (copy_string_value-escaped v out_size h))

find_member :
    (front key ws ws' value rest : Bytes)
    → length key ≤ 125
    → All IsSpace ws × All IsSpace ws'
    → strstr (quoted key) (front ++ member key ws ws' value rest)
      ≡ some (member key ws ws' value rest)
    → find_after_key (front ++ member key ws ws' value rest) key
      ≡ some (b'"' ∷ (value ++ (b'"' ∷ rest)))
unfolding find_after_key
find_member front key ws ws' value rest hk spaces first =
    let text = front ++ member key ws ws' value rest in
    rw (key_pattern-quoted key hk, find_after_key)
      (find_loop_first (length text) (quoted key) text ws ws' (value ++ (b'"' ∷ rest)) b'"' first
        spaces refl)

-- The same of the escaped form itself.
pub get_string-escaped :
    (front key ws ws' v rest : Bytes) (out_size : ℕ)
    → length key ≤ 125
    → All IsSpace ws × All IsSpace ws'
    → strstr (quoted key) (front ++ member key ws ws' (escaped v) rest)
      ≡ some (member key ws ws' (escaped v) rest)
    → length v < out_size
    → get_string (front ++ member key ws ws' (escaped v) rest) key out_size ≡ copied v
unfolding get_string
get_string-escaped front key ws ws' v rest out_size hk spaces first room =
    rw (find_member front key ws ws' (escaped v) rest hk spaces first, get_string)
      (string_at-escaped v rest out_size room)

-- A text that `json_escape_string` wrote in full to a buffer of some size, and that stands as the value of
-- a member at the first place where the key stands in quotes, is read back under the key as the text that
-- was escaped, whatever this text and the rest of the message hold, in any buffer with room for it. The key
-- has at most 125 bytes, and there may be blanks about the colon.
pub get_string-member :
    (front key ws ws' v text rest : Bytes) (size out_size : ℕ)
    → escape_string v size ≡ copied text
    → length key ≤ 125
    → All IsSpace ws × All IsSpace ws'
    → strstr (quoted key) (front ++ member key ws ws' text rest)
      ≡ some (member key ws ws' text rest)
    → length v < out_size
    → get_string (front ++ member key ws ws' text rest) key out_size ≡ copied v
get_string-member front key ws ws' v text rest size out_size written hk spaces first room =
    let is = escape_string-copied v text size written in
    ap (λ t. get_string (front ++ member key ws ws' t rest) key out_size) is
    ∙ get_string-escaped front key ws ws' v rest out_size hk spaces
        (subst
          (λ t.
            strstr (quoted key) (front ++ member key ws ws' t rest)
            ≡ some (member key ws ws' t rest))
          is first)
        room
