-- ===== src/Json/Scan/Total.antt =====
-- src/json_utils.c: the fuel of `find_loop` is enough, and the first member of a text is found.
use aliyun_iot_arm.Prelude.{
  ℕ, zero, suc, ◌+◌, ◌≤◌, ◌<◌, ◌≡◌, refl, ap, ◌∙◌, inl, inr, false, some, ◌∷◌, ◌++◌, arith,
  Option-cases, length, length-append, drop, All, drop-append, Bytes, strstr, isspace,
}
use aliyun_iot_arm.Json.Scan.{find_loop}
use aliyun_iot_arm.Json.Scan.Find.{IsSpace, skip_ws-append, skip_ws_cons, strstr_splits}

length-next :
    (pattern s hit : Bytes)
    → strstr pattern s ≡ some hit
    → length (drop (length pattern) hit) + length pattern ≤ length s
length-next pattern s hit h =
    let (front, split, begins) = strstr_splits pattern s hit h in
    omega (
      arith,
      ap length split,
      length-append front hit,
      ap length begins,
      length-append pattern (drop (length pattern) hit),
    )

-- Two amounts of fuel above the length of the text give the same answer of the search for a key.
pub find_loop_enough :
    (f g : ℕ) (pattern s : Bytes)
    → length s < f
    → length s < g
    → 0 < length pattern
    → find_loop f pattern s ≡ find_loop g pattern s
unfolding find_loop
find_loop_enough zero g pattern s hf hg hp = elim hf [ ]
find_loop_enough (suc f) zero pattern s hf hg hp = elim hg [ ]
find_loop_enough (suc f) (suc g) pattern s hf hg hp = elim (Option-cases (strstr pattern s)) [
  | inl e ↦ ground arith
  | inr (hit, e) ↦
      let less = length-next pattern s hit e in
      let next = drop (length pattern) hit in
      let ih = find_loop_enough f g pattern next (omega arith) (omega arith) hp in ground arith
]

-- Where the first occurrence of the pattern has a colon behind it, the value behind that is found.
pub find_loop_first :
    (fuel : ℕ) (pattern s ws ws' value : Bytes) (c : ℕ)
    → strstr pattern s ≡ some (pattern ++ (ws ++ (b':' ∷ (ws' ++ (c ∷ value)))))
    → All IsSpace ws × All IsSpace ws'
    → isspace c ≡ false
    → find_loop (suc fuel) pattern s ≡ some (c ∷ value)
unfolding find_loop
find_loop_first fuel pattern s ws ws' value c h (hw, hw') hc =
    let colon = skip_ws-append ws (b':' ∷ (ws' ++ (c ∷ value))) hw ∙ skip_ws_cons b':' _ refl in
    let start = skip_ws-append ws' (c ∷ value) hw' ∙ skip_ws_cons c value hc in
    rw (h, find_loop) (rw (drop-append pattern) (rw colon (rw start refl)))
