-- ===== src/Service/Auth/Bits.antt =====
-- Go's `^` and `|` on numbers of so many bits.
use feature_voting_system.Prelude.{ℕ, zero, suc, ◌+◌, ◌*◌, ◌/◌, ◌%◌, ◌^◌, ◌<◌, ◌≡◌, refl, arith}
use Prim.Native.Nat.{max}

pub bits_xor : ℕ → ℕ → ℕ → ℕ
bits_xor zero a b = 0
bits_xor (suc k) a b = 2 * bits_xor k (a / 2) (b / 2) + (a % 2 + b % 2) % 2

pub bits_or : ℕ → ℕ → ℕ → ℕ
bits_or zero a b = 0
bits_or (suc k) a b = 2 * bits_or k (a / 2) (b / 2) + max (a % 2) (b % 2)

pub bits_xor-lt : (k a b : ℕ) → bits_xor k a b < 2 ^ k
unfolding bits_xor
bits_xor-lt zero a b = omega arith
bits_xor-lt (suc k) a b = omega (arith, bits_xor-lt k (a / 2) (b / 2))

pub bits_or-lt : (k a b : ℕ) → bits_or k a b < 2 ^ k
unfolding bits_or
bits_or-lt zero a b = omega arith
bits_or-lt (suc k) a b = omega (arith, bits_or-lt k (a / 2) (b / 2))

pub bits_xor_self : (k a : ℕ) → bits_xor k a a ≡ 0
unfolding bits_xor
bits_xor_self zero a = refl
bits_xor_self (suc k) a = omega (arith, bits_xor_self k (a / 2))

-- The bits of two numbers differ somewhere, unless the numbers are equal.
pub eq_of_bits_xor : (k a b : ℕ) → a < 2 ^ k → b < 2 ^ k → bits_xor k a b ≡ 0 → a ≡ b
unfolding bits_xor
eq_of_bits_xor zero a b la lb h = omega arith
eq_of_bits_xor (suc k) a b la lb h =
    let half : a / 2 ≡ b / 2 =
      eq_of_bits_xor k (a / 2) (b / 2) (omega arith) (omega arith) (omega arith) in
    omega arith

pub bits_or_zero : (k : ℕ) → bits_or k 0 0 ≡ 0
unfolding bits_or
bits_or_zero zero = refl
bits_or_zero (suc k) = omega (arith, bits_or_zero k)

pub zero_of_bits_or : (k a b : ℕ) → a < 2 ^ k → b < 2 ^ k → bits_or k a b ≡ 0 → (a ≡ 0) × (b ≡ 0)
unfolding bits_or
zero_of_bits_or zero a b la lb h = (omega arith, omega arith)
zero_of_bits_or (suc k) a b la lb h =
    let halves : (a / 2 ≡ 0) × (b / 2 ≡ 0) =
      zero_of_bits_or k (a / 2) (b / 2) (omega arith) (omega arith) (omega arith) in
    (omega (arith, halves.0), omega (arith, halves.1))
