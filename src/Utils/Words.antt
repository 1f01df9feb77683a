-- ===== src/Utils/Words.antt =====
-- src/shell_utils.c: how a shell reads a command with quoted words in it.
use aliyun_iot_arm.Prelude.{
  ℕ, ◌≡◌, refl, sym, ap, ◌∙◌, inl, inr, Bool, true, false, ◌&&◌, ◌||◌, Option, none, some, List, [],
  ◌∷◌, ◌++◌, append-nil, append_assoc, arith, leb, ◌==◌, if◌then◌else◌, Bool-cases, Option-cases,
  Bytes,
}
use mathlib.Core.Option as Option
use aliyun_iot_arm.Utils.Shell.{
  shell_quote, quote_loop, Mode, bare, single, double, acts_in_double, read_word,
  shell_quote-read_word,
}

-- What a command is made of: words, and the characters that the shell acts on between them.
pub data Token : Type 0 where
  word : Bytes → Token
  operator : ℕ → Token

-- What a character is outside quotes. `expands` stands for all that the reader does not follow: expansions,
-- patterns, comments, escapes, pipes, groups and control characters.
pub data Class : Type 0 where
  single_quote double_quote blank operates expands plain : Class

-- Letters, digits and `- / . _ : ,`.
abbrev pub is_plain : ℕ → Bool
is_plain c =
    (leb 97 c && leb c 122) || ((leb 65 c && leb c 90) || ((leb 44 c && leb c 58) || c == b'_'))

abbrev pub class_of : ℕ → Class
class_of c =
    if c == b'\''
    then single_quote
    else (if c == b'"'
        then double_quote
        else (if c == b' '
            then blank
            else (if c == b';' || (c == b'>' || c == b'&')
                then operates
                else (if is_plain c then plain else expands))))

-- The word that has begun, and its end.
abbrev pub begun : Option Bytes → Bytes
begun none = []
begun (some text) = text

abbrev pub ended : Option Bytes → List Token → List Token
ended none tokens = tokens
ended (some text) tokens = tokens ++ (word text ∷ [])

-- The tokens of a command behind those that are read; `none` for what the reader does not follow.
unfoldable pub read_command :
    Mode → Option Bytes → (tokens : List Token) → Bytes → Option (List Token)
read_command bare begin tokens [] = some (ended begin tokens)
read_command single begin tokens [] = none
read_command double begin tokens [] = none
read_command bare begin tokens (c ∷ text) = elim (class_of c) [
  | single_quote ↦ read_command single (some (begun begin)) tokens text
  | double_quote ↦ read_command double (some (begun begin)) tokens text
  | blank ↦ read_command bare none (ended begin tokens) text
  | operates ↦ read_command bare none (ended begin tokens ++ (operator c ∷ [])) text
  | expands ↦ none
  | plain ↦ read_command bare (some (begun begin ++ (c ∷ []))) tokens text
]
read_command single begin tokens (c ∷ text) = elim (c == b'\'') [
  | true ↦ read_command bare begin tokens text
  | false ↦ read_command single (some (begun begin ++ (c ∷ []))) tokens text
]
read_command double begin tokens (c ∷ text) = elim (c == b'"') [
  | true ↦ read_command bare begin tokens text
  | false ↦ elim (acts_in_double c) [
    | true ↦ none
    | false ↦ read_command double (some (begun begin ++ (c ∷ []))) tokens text
  ]
]

class-single_quote : (c : ℕ) → (c == b'\'') ≡ true → class_of c ≡ single_quote
class-single_quote c q = rw q refl

class-double_quote : (c : ℕ) → (c == b'\'') ≡ false → (c == b'"') ≡ true → class_of c ≡ double_quote
class-double_quote c nq d = rw (nq, d) refl

snoc_char : (front input : Bytes) (c : ℕ) → (front ++ (c ∷ [])) ++ input ≡ front ++ (c ∷ input)
snoc_char front input c = append_assoc front (c ∷ []) input

read_char :
    (c : ℕ) (behind input : Bytes) (rest : Option Bytes)
    → Option.map (λ t. c ∷ t) rest ≡ some input
    → (t : Bytes) × (rest ≡ some t) × (input ≡ c ∷ t)
read_char c behind input none e = absurd (cc)
read_char c behind input (some t) e = (t, refl, cc)

-- A word that is all in quotes adds its text to the word that has begun.
read_command-read_word :
    (mode : Mode) (front text rest input : Bytes) (tokens : List Token)
    → read_word mode text ≡ some input
    → read_command mode (some front) tokens (text ++ rest)
      ≡ read_command bare (some (front ++ input)) tokens rest
unfolding read_command read_word
read_command-read_word bare front [] rest input tokens e =
    let is : [] ≡ input = cc in
    ap (λ t. read_command bare (some t) tokens rest)
      (sym (append-nil front) ∙ ap (λ t. front ++ t) is)
read_command-read_word single front [] rest input tokens e = absurd (cc)
read_command-read_word double front [] rest input tokens e = absurd (cc)
read_command-read_word bare front (c ∷ text) rest input tokens e = elim (Bool-cases (c == b'\'')) [
  | inl q ↦
      rw (class-single_quote c q, read_command)
        (read_command-read_word single front text rest input tokens (ground (arith, e, q)))
  | inr nq ↦ elim (Bool-cases (c == b'"')) [
    | inl d ↦
        rw (class-double_quote c nq d, read_command)
          (read_command-read_word double front text rest input tokens (ground (arith, e, nq, d)))
    | inr nd ↦ absurd (ground (arith, e, nq, nd))
  ]
]
read_command-read_word single front (c ∷ text) rest input tokens e =
    elim (Bool-cases (c == b'\'')) [
      | inl q ↦
          rw (q, read_command)
            (read_command-read_word bare front text rest input tokens (ground (arith, e, q)))
      | inr nq ↦
          let (t, read, is) =
            read_char c text input (read_word single text) (ground (arith, e, nq)) in
          rw (nq, read_command)
            (read_command-read_word single (front ++ (c ∷ [])) text rest t tokens read
              ∙ ap (λ l. read_command bare (some l) tokens rest)
                  (snoc_char front t c ∙ ap (λ l. front ++ l) (sym is)))
    ]
read_command-read_word double front (c ∷ text) rest input tokens e = elim (Bool-cases (c == b'"')) [
  | inl q ↦
      rw (q, read_command)
        (read_command-read_word bare front text rest input tokens (ground (arith, e, q)))
  | inr nq ↦ elim (Bool-cases (acts_in_double c)) [
    | inl acts ↦ absurd (ground (arith, e, nq, acts))
    | inr inert ↦
        let (t, read, is) =
          read_char c text input (read_word double text) (ground (arith, e, nq, inert)) in
        rw (nq, inert, read_command)
          (read_command-read_word double (front ++ (c ∷ [])) text rest t tokens read
            ∙ ap (λ l. read_command bare (some l) tokens rest)
                (snoc_char front t c ∙ ap (λ l. front ++ l) (sym is)))
  ]
]

-- What `shell_quote` leaves begins with a quote.
shell_quote-opens :
    (input out : Bytes) (out_size : ℕ)
    → shell_quote input out_size ≡ some out
    → (behind : Bytes) × (out ≡ b'\'' ∷ behind)
unfolding shell_quote
shell_quote-opens input out out_size e = elim (Option-cases (quote_loop out_size 1 input)) [
  | inl failed ↦ absurd (ground arith)
  | inr (behind, done) ↦ (behind, ground arith)
]

-- Where a command has a text that `shell_quote` left, the shell reads the word that was quoted.
pub read_command-shell_quote :
    (input out : Bytes) (out_size : ℕ) (rest : Bytes) (tokens : List Token)
    → shell_quote input out_size ≡ some out
    → read_command bare none tokens (out ++ rest) ≡ read_command bare (some input) tokens rest
unfolding read_command
read_command-shell_quote input out out_size rest tokens e =
    let (behind, is) = shell_quote-opens input out out_size e in
    let reads : read_word bare (b'\'' ∷ behind) ≡ some input =
      ap (read_word bare) (sym is) ∙ (shell_quote-read_word input out out_size e).0 in
    let inside : read_word single behind ≡ some input = unfold read_word in reads in
    ap (λ t. read_command bare none tokens (t ++ rest)) is
    ∙ read_command-read_word single [] behind rest input tokens inside
