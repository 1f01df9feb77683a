-- ===== src/Json/Copy/Escape.antt =====
-- src/json_utils.c: `json_escape_string` against the reading of string values.
use aliyun_iot_arm.Prelude.{
  ℕ, ◌+◌, ◌*◌, ◌≤◌, ◌<◌, ◌≡◌, refl, sym, ap, ◌∙◌, inl, inr, leb, Bool-cases, Option-cases, false,
  none, some, [], ◌∷◌, ◌++◌, append_assoc, arith, ◌==◌, length, length-append, Bytes,
}
use mathlib.Core.Option
use aliyun_iot_arm.Json.Scan.{find_string_end}
use aliyun_iot_arm.Json.Copy.{
  Copied, copied, cut, rejected, prepend, store_char, copy_string_loop, copy_string_value,
  replacement, escape_loop, escape_string,
}

-- One character, as it is written between quotes.
abbrev pub escape_char : ℕ → Bytes
escape_char c = elim (replacement c) [ some rep ↦ rep | none ↦ c ∷ [] ]

abbrev pub escaped : Bytes → Bytes
escaped [] = []
escaped (c ∷ s) = escape_char c ++ escaped s

escape_loop_fits :
    (out_size idx : ℕ) (s : Bytes)
    → idx + 2 * length s + 2 ≤ out_size
    → escape_loop out_size idx s ≡ copied (escaped s)
unfolding escape_loop
escape_loop_fits out_size idx [] h = refl
escape_loop_fits out_size idx (c ∷ s) h =
    ground (arith, escape_loop_fits out_size (idx + 1) s, escape_loop_fits out_size (idx + 2) s)

-- A buffer of twice the length of a text and two bytes more takes every text in its escaped form.
pub escape_string_fits :
    (s : Bytes) (out_size : ℕ)
    → 2 * length s + 2 ≤ out_size
    → escape_string s out_size ≡ copied (escaped s)
unfolding escape_string
escape_string_fits s out_size h = ground (arith, escape_loop_fits out_size 0 s)

prepend-copied :
    (front rest text : Bytes) (c : Copied)
    → ((t : Bytes) → c ≡ copied t → t ≡ rest)
    → prepend front c ≡ copied text
    → text ≡ front ++ rest
prepend-copied front rest text (copied t) is e = ground (arith, is t refl)
prepend-copied front rest text (cut t) is e = absurd (cc)
prepend-copied front rest text rejected is e = absurd (cc)

escape_loop-copied :
    (out_size idx : ℕ) (s text : Bytes)
    → escape_loop out_size idx s ≡ copied text
    → text ≡ escaped s
unfolding escape_loop
escape_loop-copied out_size idx [] text e = ground arith
escape_loop-copied out_size idx (c ∷ s) text e = elim (Option-cases (replacement c)) [
  | inl plain ↦ elim (Bool-cases (leb out_size (idx + 2))) [
    | inl full ↦ absurd (ground arith)
    | inr room ↦
        prepend-copied (c ∷ []) (escaped s) text (escape_loop out_size (idx + 1) s)
          (escape_loop-copied out_size (idx + 1) s) (ground arith)
        ∙ ground arith
  ]
  | inr (rep, special) ↦ elim (Bool-cases (leb out_size (idx + length rep + 1))) [
    | inl full ↦ absurd (ground arith)
    | inr room ↦
        prepend-copied rep (escaped s) text (escape_loop out_size (idx + length rep) s)
          (escape_loop-copied out_size (idx + length rep) s) (ground arith)
        ∙ ground arith
  ]
]

-- A text that `json_escape_string` writes in full is the escaped form, in a buffer of any size.
pub escape_string-copied :
    (s text : Bytes) (out_size : ℕ) → escape_string s out_size ≡ copied text → text ≡ escaped s
unfolding escape_string
escape_string-copied s text out_size e = ground (arith, escape_loop-copied out_size 0 s text)

copy_plain :
    (out_size idx c : ℕ) (text : Bytes)
    → (c == b'\\') ≡ false
    → copy_string_loop out_size idx (c ∷ text)
      ≡ store_char out_size idx c (copy_string_loop out_size (idx + 1) text)
unfolding copy_string_loop
copy_plain out_size idx c [] h = refl
copy_plain out_size idx c (d ∷ text) h = ground arith

copy-escape_char :
    (out_size idx c : ℕ) (text : Bytes)
    → copy_string_loop out_size idx (escape_char c ++ text)
      ≡ store_char out_size idx c (copy_string_loop out_size (idx + 1) text)
unfolding copy_string_loop
copy-escape_char out_size idx c text = ground (arith, copy_plain out_size idx c text)

copy_string_loop-escaped :
    (out_size idx : ℕ) (s : Bytes)
    → idx + length s < out_size
    → copy_string_loop out_size idx (escaped s) ≡ copied s
copy_string_loop-escaped out_size idx [] h = unfold copy_string_loop in refl
copy_string_loop-escaped out_size idx (c ∷ s) h =
    copy-escape_char out_size idx c (escaped s)
    ∙ ground (arith, copy_string_loop-escaped out_size (idx + 1) s)

-- Reading back the escaped form gives the text, in any buffer with room for it.
pub copy_string_value-escaped :
    (s : Bytes) (out_size : ℕ)
    → length s < out_size
    → copy_string_value (escaped s) out_size ≡ copied s
unfolding copy_string_value
copy_string_value-escaped s out_size h = ground (arith, copy_string_loop-escaped out_size 0 s)

-- The closing quote is found behind the escaped form, whatever it holds.
find_char :
    (c : ℕ) (rest : Bytes)
    → find_string_end false (escape_char c ++ rest)
      ≡ Option.map (λ n. length (escape_char c) + n) (find_string_end false rest)
unfolding find_string_end
find_char c rest = ground arith

pub find_string_end-escaped :
    (s rest : Bytes)
    → find_string_end false (escaped s ++ (b'"' ∷ rest)) ≡ some (length (escaped s))
find_string_end-escaped [] rest = unfold find_string_end in refl
find_string_end-escaped (c ∷ s) rest =
    ap (find_string_end false) (append_assoc (escape_char c) (escaped s) (b'"' ∷ rest))
    ∙ find_char c (escaped s ++ (b'"' ∷ rest))
    ∙ ap (Option.map (λ n. length (escape_char c) + n)) (find_string_end-escaped s rest)
    ∙ ap some (sym (length-append (escape_char c) (escaped s)))
