-- ===== src/Base/Bits.antt =====
-- Masks never exceed what they are taken of.
use Prim.Native.Nat.{ℕ, zero, suc, ◌≤◌, ◌/◌, min, digits, bit_and, bit_and-bitwise}
use native.Mathlib.Omega.{arith}

digits_le : (n a b : ℕ) → digits (λ _. zero) min n a b ≤ b
digits_le zero a b = omega arith
digits_le (suc n) zero b = omega arith
digits_le (suc n) (suc a) b = omega (arith, digits_le n (suc a / 2) (b / 2))

pub bit_and_le : (a b : ℕ) → bit_and a b ≤ b
bit_and_le a b = simp bit_and-bitwise (digits_le a a b)
