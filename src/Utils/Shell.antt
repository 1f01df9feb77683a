-- ===== src/Utils/Shell.antt =====
-- src/shell_utils.c: quoting a text for the shell.
use mathlib.Core.Option as Option
use aliyun_iot_arm.Prelude.{
  ℕ, ◌+◌, ◌*◌, ◌≤◌, ◌<◌, ◌≡◌, refl, ◌∙◌, subst, ◌≢◌, inl, inr, Bool, false, ◌||◌, Option, none,
  some, [], ◌∷◌, ◌++◌, arith, ltb, leb, ◌==◌, if◌then◌else◌, Bool-cases, Option-cases, length,
  Bytes, codes,
}

-- `single_quote_escape`: a quote that ends, a quoted quote, and a quote that begins again.
abbrev pub single_quote_escape : Bytes
single_quote_escape = codes "'\"'\"'"

-- The loop of `shell_quote` and what follows it; `none` is -1.
unfoldable pub quote_loop : (out_size idx : ℕ) → Bytes → Option Bytes
quote_loop out_size idx [] = some (b'\'' ∷ [])
quote_loop out_size idx (c ∷ input) =
    let behind_escape = quote_loop out_size (idx + 5) input in
    let behind_char = quote_loop out_size (idx + 1) input in
    if c == b'\''
    then (if leb out_size (idx + 5 + 2)
        then none
        else Option.map (λ out. single_quote_escape ++ out) behind_escape)
    else (if leb out_size (idx + 2) then none else Option.map (λ out. c ∷ out) behind_char)

unfoldable pub shell_quote : Bytes → (out_size : ℕ) → Option Bytes
unfolding quote_loop
shell_quote input out_size =
    if ltb out_size 3 then none else Option.map (λ out. b'\'' ∷ out) (quote_loop out_size 1 input)

-- How a shell reads a word: outside quotes, in single quotes, in double quotes.
pub data Mode : Type 0 where
  bare single double : Mode

-- The characters that a shell would act on inside double quotes.
abbrev pub acts_in_double : ℕ → Bool
acts_in_double c = c == b'$' || (c == b'`' || c == b'\\')

-- The text of a word that is all in quotes; `none` where the shell would do more than take it.
unfoldable pub read_word : Mode → Bytes → Option Bytes
read_word bare [] = some []
read_word single [] = none
read_word double [] = none
read_word bare (c ∷ word) =
    let in_single = read_word single word in
    let in_double = read_word double word in
    if c == b'\'' then in_single else (if c == b'"' then in_double else none)
read_word single (c ∷ word) =
    let behind = read_word bare word in
    let rest = read_word single word in if c == b'\'' then behind else Option.map (λ t. c ∷ t) rest
read_word double (c ∷ word) =
    let behind = read_word bare word in
    let rest = read_word double word in
    if c == b'"' then behind else (if acts_in_double c then none else Option.map (λ t. c ∷ t) rest)

read_word-escape :
    (out : Bytes)
    → read_word single (single_quote_escape ++ out)
      ≡ Option.map (λ t. b'\'' ∷ t) (read_word single out)
unfolding read_word
read_word-escape out = ground arith

read_word-char :
    (c : ℕ) (out : Bytes)
    → (c == b'\'') ≡ false
    → read_word single (c ∷ out) ≡ Option.map (λ t. c ∷ t) (read_word single out)
unfolding read_word
read_word-char c out plain = ground arith

-- What the loop leaves is read back, and lies within the buffer with its NUL.
loop_lem :
    (out_size idx : ℕ) (input out : Bytes)
    → idx + 2 ≤ out_size
    → quote_loop out_size idx input ≡ some out
    → (read_word single out ≡ some input) × (idx + length out < out_size)
unfolding quote_loop
loop_lem out_size idx [] out room e =
    let at_end : read_word single (b'\'' ∷ []) ≡ some [] = unfold read_word in refl in
    let is : b'\'' ∷ [] ≡ out = ground arith in
    subst (λ t. (read_word single t ≡ some []) × (idx + length t < out_size)) is
      (at_end, omega arith)
loop_lem out_size idx (c ∷ input) out room e = elim (Bool-cases (c == b'\'')) [
  | inl quote ↦ elim (Option-cases (quote_loop out_size (idx + 5) input)) [
    | inl failed ↦ absurd (ground arith)
    | inr (behind, done) ↦
        let fits : idx + 7 < out_size = ground arith in
        let (reads, size) = loop_lem out_size (idx + 5) input behind (omega arith) done in
        let is : single_quote_escape ++ behind ≡ out = ground arith in
        subst (λ t. (read_word single t ≡ some (c ∷ input)) × (idx + length t < out_size)) is
          (read_word-escape behind ∙ ground arith, omega arith)
  ]
  | inr plain ↦ elim (Option-cases (quote_loop out_size (idx + 1) input)) [
    | inl failed ↦ absurd (ground arith)
    | inr (behind, done) ↦
        let fits : idx + 2 < out_size = ground arith in
        let (reads, size) = loop_lem out_size (idx + 1) input behind (omega arith) done in
        let is : c ∷ behind ≡ out = ground arith in
        subst (λ t. (read_word single t ≡ some (c ∷ input)) × (idx + length t < out_size)) is
          (read_word-char c behind plain ∙ ground arith, omega arith)
  ]
]

-- What `shell_quote` leaves in the buffer, a shell reads as one word that is the input, whatever bytes this
-- holds, and takes nothing of it as syntax; with its NUL it lies within the buffer.
pub shell_quote-read_word :
    (input out : Bytes) (out_size : ℕ)
    → shell_quote input out_size ≡ some out
    → (read_word bare out ≡ some input) × (length out < out_size)
unfolding shell_quote
shell_quote-read_word input out out_size e = elim (Option-cases (quote_loop out_size 1 input)) [
  | inl failed ↦ absurd (ground arith)
  | inr (behind, done) ↦
      let room : 3 ≤ out_size = ground arith in
      let (reads, size) = loop_lem out_size 1 input behind room done in
      let is : b'\'' ∷ behind ≡ out = ground arith in
      subst (λ t. (read_word bare t ≡ some input) × (length t < out_size)) is
        (unfold read_word in reads, omega arith)
]

-- Every text is quoted in a buffer of five times its length and four bytes more.
quote_loop_enough :
    (out_size idx : ℕ) (input : Bytes)
    → idx + 5 * length input + 3 ≤ out_size
    → quote_loop out_size idx input ≢ none
unfolding quote_loop
quote_loop_enough out_size idx [] room e = ground arith
quote_loop_enough out_size idx (c ∷ input) room e = ground (
  arith,
  quote_loop_enough out_size (idx + 5) input (omega arith),
  quote_loop_enough out_size (idx + 1) input (omega arith),
)

-- A buffer of five times the length of a text and four bytes more is enough for `shell_quote`.
pub shell_quote_enough :
    (input : Bytes) (out_size : ℕ)
    → 5 * length input + 4 ≤ out_size
    → shell_quote input out_size ≢ none
unfolding shell_quote
shell_quote_enough input out_size room e =
    ground (arith, quote_loop_enough out_size 1 input (omega arith))
