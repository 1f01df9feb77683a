-- ===== src/Prelude/Bits.antt =====
-- Masks on one byte as arithmetic; each is a table of at most 256 entries, checked by evaluation.
use Prim.Native.Nat.{ℕ, zero, suc, ◌+◌, ◌*◌, ◌/◌, ◌%◌, ◌<◌, bit_and, bit_or}
use mathlib.Core.Path.{◌≡◌, refl}
use mathlib.Core.Bool.{Bool, true, ◌&&◌}
use native.Mathlib.Omega.{arith}
use aliyun_iot_arm.Prelude.Tests.{◌==◌}

module _ (f g : ℕ → ℕ) where
  agree_below : ℕ → Bool
  agree_below zero = true
  agree_below (suc n) = f n == g n && agree_below n

  agree_below→eq : (n : ℕ) → agree_below n ≡ true → (i : ℕ) → i < n → f i ≡ g i
  unfolding agree_below
  agree_below→eq zero e i h = absurd (omega arith)
  agree_below→eq (suc n) e i h = ground (arith, agree_below→eq n (ground arith) i)

pub bit_and_127 : (b : ℕ) → b < 256 → bit_and b 127 ≡ b % 128
unfolding agree_below
bit_and_127 = agree_below→eq _ _ 256 refl

pub bit_and_128 : (b : ℕ) → b < 256 → bit_and b 128 ≡ b / 128 * 128
unfolding agree_below
bit_and_128 = agree_below→eq _ _ 256 refl

pub bit_or_128 : (b : ℕ) → b < 128 → bit_or b 128 ≡ b + 128
unfolding agree_below
bit_or_128 = agree_below→eq _ _ 128 refl

pub high_nibble : (b : ℕ) → b < 256 → bit_and b 0xF0 ≡ b / 16 * 16
unfolding agree_below
high_nibble = agree_below→eq _ _ 256 refl

pub low_nibble : (b : ℕ) → b < 256 → bit_and b 0x0F ≡ b % 16
unfolding agree_below
low_nibble = agree_below→eq _ _ 256 refl

pub low_two : (b : ℕ) → b < 256 → bit_and b 3 ≡ b % 4
unfolding agree_below
low_two = agree_below→eq _ _ 256 refl

pub nibbles : (b : ℕ) → b < 256 → bit_or (b / 16 % 16 * 16 % 256) (b % 16) ≡ b
unfolding agree_below
nibbles = agree_below→eq (λ b. bit_or (b / 16 % 16 * 16 % 256) (b % 16)) (λ b. b) 256 refl
