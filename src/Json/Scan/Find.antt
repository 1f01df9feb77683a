-- ===== src/Json/Scan/Find.antt =====
-- src/json_utils.c: what `json_find_after_key` finds.
use aliyun_iot_arm.Prelude.{
  ℕ, zero, suc, ◌≡◌, refl, sym, ap, ◌∙◌, subst, inl, inr, true, false, some, [], ◌∷◌, ◌++◌,
  append_assoc, arith, Bool-cases, Option-cases, length, drop, All, Bytes, starts_with, strstr,
  isspace,
}
use aliyun_iot_arm.Json.Scan.{skip_ws, key_pattern, after_colon, find_loop, find_after_key}

abbrev pub IsSpace : ℕ → Type 0
IsSpace c = isspace c ≡ true

-- Blanks are skipped, and what is left does not begin with one.
pub skip_ws-append : (ws s : Bytes) → All IsSpace ws → skip_ws (ws ++ s) ≡ skip_ws s
unfolding skip_ws
skip_ws-append [] s h = refl
skip_ws-append (c ∷ ws) s (hc, h) = rw hc (skip_ws-append ws s h)

pub skip_ws_cons : (c : ℕ) (s : Bytes) → isspace c ≡ false → skip_ws (c ∷ s) ≡ c ∷ s
unfolding skip_ws
skip_ws_cons c s h = rw h

pub skip_ws_splits : (s : Bytes) → (ws : Bytes) × All IsSpace ws × (s ≡ ws ++ skip_ws s)
unfolding skip_ws
skip_ws_splits [] = ([], tt, refl)
skip_ws_splits (c ∷ s) =
    let (ws, spaces, e) = skip_ws_splits s in
    elim (Bool-cases (isspace c)) [
      | inl h ↦ (c ∷ ws, (h, spaces), rw (h, skip_ws) (ap (◌∷◌ c) e))
      | inr h ↦ ([], tt, sym (skip_ws_cons c s h))
    ]

starts_with_splits : (p s : Bytes) → starts_with p s ≡ true → s ≡ p ++ drop (length p) s
unfolding starts_with
starts_with_splits [] s h = refl
starts_with_splits (a ∷ p) [] h = cc
starts_with_splits (a ∷ p) (c ∷ s) h = ground (arith, starts_with_splits p s)

pub strstr_splits :
    (p s hit : Bytes)
    → strstr p s ≡ some hit
    → (front : Bytes) × (s ≡ front ++ hit) × (hit ≡ p ++ drop (length p) hit)
unfolding strstr
strstr_splits p [] hit h = ([], ground arith, ground (arith, starts_with_splits p []))
strstr_splits p (c ∷ s) hit h = elim (Bool-cases (starts_with p (c ∷ s))) [
  | inl e ↦ ([], ground arith, ground (arith, starts_with_splits p (c ∷ s) e))
  | inr e ↦
      let (front, split, begins) = strstr_splits p s hit (ground arith) in
      (c ∷ front, ap (◌∷◌ c) split, begins)
]

pub after_colon_eq : (s value : Bytes) → after_colon s ≡ some value → s ≡ b':' ∷ value
unfolding after_colon
after_colon_eq [] value h = cc
after_colon_eq (c ∷ s) value h = ground arith

-- What lies between the start of the text and the value: the quoted key, blanks, a colon, blanks.
pub record FoundAt (json pattern value : Bytes) : Type 0 where
  pub front : Bytes
  pub before_colon : Bytes
  pub after_colon : Bytes
  pub spaces : All IsSpace before_colon × All IsSpace after_colon
  pub text_is : json ≡ front ++ (pattern ++ (before_colon ++ (b':' ∷ (after_colon ++ value))))

FoundAt-append :
    (front json pattern value : Bytes)
    → FoundAt json pattern value
    → FoundAt (front ++ json) pattern value
FoundAt-append front json pattern value f = record {
  front = front ++ f.front;
  before_colon = f.before_colon;
  after_colon = f.after_colon;
  spaces = f.spaces;
  text_is = ap (◌++◌ front) f.text_is ∙ sym (append_assoc front f.front _);
}

-- The key, then a colon: the value is found.
FoundAt-here :
    (pattern s hit next v : Bytes)
    → strstr pattern s ≡ some hit
    → next ≡ drop (length pattern) hit
    → after_colon (skip_ws next) ≡ some v
    → FoundAt s pattern (skip_ws v)
FoundAt-here pattern s hit next v h n c =
    let (front, split, begins) = strstr_splits pattern s hit h in
    let (ws, spaces, e) = skip_ws_splits next in
    let (ws', spaces', e') = skip_ws_splits v in
    record {
      front = front;
      before_colon = ws;
      after_colon = ws';
      spaces = (spaces, spaces');
      text_is =
          split
          ∙ ap (◌++◌ front) (
              begins
              ∙ ap (◌++◌ pattern) (
                  sym n ∙ e ∙ ap (◌++◌ ws) (after_colon_eq (skip_ws next) v c ∙ ap (◌∷◌ b':') e')));
    }

-- The key with no colon behind it: the search goes on behind it.
FoundAt-later :
    (pattern s hit value : Bytes)
    → strstr pattern s ≡ some hit
    → FoundAt (drop (length pattern) hit) pattern value
    → FoundAt s pattern value
FoundAt-later pattern s hit value h f =
    let (front, split, begins) = strstr_splits pattern s hit h in
    subst (λ x. FoundAt x pattern value)
      (append_assoc front pattern _ ∙ ap (◌++◌ front) (sym begins) ∙ sym split)
      (FoundAt-append (front ++ pattern) (drop (length pattern) hit) pattern value f)

find_loop-FoundAt :
    (fuel : ℕ) (pattern s value : Bytes)
    → find_loop fuel pattern s ≡ some value
    → FoundAt s pattern value
unfolding find_loop
find_loop-FoundAt zero pattern s value h = absurd (cc h)
find_loop-FoundAt (suc fuel) pattern s value h = elim (Option-cases (strstr pattern s)) [
  | inl e ↦ absurd (ground arith)
  | inr (hit, e) ↦ elim (Option-cases (after_colon (skip_ws (drop (length pattern) hit)))) [
    | inl none' ↦
        FoundAt-later pattern s hit value e
          (find_loop-FoundAt fuel pattern (drop (length pattern) hit) value (ground arith))
    | inr (v, c) ↦
        subst (FoundAt s pattern) (ground arith)
          (FoundAt-here pattern s hit (drop (length pattern) hit) v e refl c)
  ]
]

-- A value that is found stands in the text behind its quoted key, blanks, a colon and blanks.
pub find_after_key-FoundAt :
    (json key value : Bytes)
    → find_after_key json key ≡ some value
    → FoundAt json (key_pattern key) value
unfolding find_after_key
find_after_key-FoundAt json key value h =
    find_loop-FoundAt (suc (length json)) (key_pattern key) json value h
