-- ===== src/App/Deploy/Names.antt =====
-- src/deploy_manager.c: the name of the file that a deployment downloads.
use aliyun_iot_arm.Prelude.{
  ℕ, zero, suc, ◌-◌, ◌≤◌, ◌<◌, ◌≡◌, refl, sym, subst, ◌≢◌, inl, inr, true, [], ◌∷◌, arith, ap, ◌⊎◌,
  if◌then◌else◌, Bool-cases, length, All, take_all, Bytes, codes, snprintf,
}
use aliyun_iot_arm.App.Deploy.{is_safe, sanitize_loop, sanitize_name}

-- A letter, a digit, a dash or an underscore.
abbrev pub IsNameChar : ℕ → Type 0
IsNameChar c =
    ((97 ≤ c) × (c ≤ 122))
    ⊎ (((65 ≤ c) × (c ≤ 90)) ⊎ (((48 ≤ c) × (c ≤ 57)) ⊎ ((c ≡ 45) ⊎ (c ≡ 95))))

safe-IsNameChar : (c : ℕ) → is_safe c ≡ true → IsNameChar c
safe-IsNameChar c safe = ground arith

sanitize_loop-safe : (room : ℕ) (input : Bytes) → All IsNameChar (sanitize_loop room input)
unfolding sanitize_loop
sanitize_loop-safe zero input = tt
sanitize_loop-safe (suc room) [] = tt
sanitize_loop-safe (suc room) (ch ∷ input) = elim (Bool-cases (is_safe ch)) [
  | inl e ↦ (
    subst IsNameChar (sym (ap (λ b. if b then ch else b'_') e)) (safe-IsNameChar ch e),
    sanitize_loop-safe room input,
  )
  | inr e ↦ (
    subst IsNameChar (sym (ap (λ b. if b then ch else b'_') e)) (safe-IsNameChar 95 refl),
    sanitize_loop-safe room input,
  )
]

length-sanitize_loop : (room : ℕ) (input : Bytes) → length (sanitize_loop room input) ≤ room
unfolding sanitize_loop
length-sanitize_loop zero input = omega arith
length-sanitize_loop (suc room) [] = omega arith
length-sanitize_loop (suc room) (ch ∷ input) = omega (arith, length-sanitize_loop room input)

abbrev IsName : (output_size : ℕ) → Bytes → Type 0
IsName output_size name = (length name < output_size) × (name ≢ []) × All IsNameChar name

sanitize_loop-IsName :
    (room ch : ℕ) (input : Bytes) → IsName (suc (suc room)) (sanitize_loop (suc room) (ch ∷ input))
sanitize_loop-IsName room ch input = (
  omega (arith, length-sanitize_loop (suc room) (ch ∷ input)),
  unfold sanitize_loop in ground arith,
  sanitize_loop-safe (suc room) (ch ∷ input),
)

sanitize_name-loop :
    (room ch : ℕ) (input : Bytes)
    → sanitize_name (ch ∷ input) (suc (suc room)) ≡ sanitize_loop (suc room) (ch ∷ input)
unfolding sanitize_name sanitize_loop
sanitize_name-loop room ch input =
    let size : suc (suc room) - 1 ≡ suc room = omega arith in rw (size, sanitize_name) refl

-- The name that is made of a project's name for a buffer of eight bytes or more fits it with the NUL,
-- is not empty, and holds letters, digits, dashes and underscores of ASCII only, whatever the project's
-- name holds: no slash, no dot, no blank and no quote.
pub sanitize_name-safe :
    (input : Bytes) (output_size : ℕ)
    → 8 ≤ output_size
    → (length (sanitize_name input output_size) < output_size)
      × (sanitize_name input output_size ≢ [])
      × All IsNameChar (sanitize_name input output_size)
unfolding sanitize_name sanitize_loop
sanitize_name-safe [] output_size room =
    let whole : snprintf output_size (codes "project") ≡ codes "project" =
      take_all (output_size - 1) (codes "project") (omega arith) in
    subst (IsName output_size) (sym whole)
      (omega arith, ground arith, sanitize_loop-safe 7 (codes "project"))
sanitize_name-safe (ch ∷ input) output_size room =
    let size : output_size ≡ suc (suc (output_size - 2)) = omega arith in
    subst (λ n. IsName n (sanitize_name (ch ∷ input) n)) (sym size)
      (subst (IsName _) (sym (sanitize_name-loop (output_size - 2) ch input))
        (sanitize_loop-IsName (output_size - 2) ch input))
