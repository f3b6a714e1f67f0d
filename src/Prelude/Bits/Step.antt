-- ===== src/Prelude/Bits/Step.antt =====
-- One binary digit at a time. The native operations stand for a recursion with fuel, which is
-- dropped here.
use Prim.Native.Nat.{ℕ, zero, suc, ◌+◌, ◌*◌, ◌/◌, ◌%◌, ◌≤◌, ◌<◌, min, max}
use Prim.Native.Nat.{digits, bitwise, differ, bit_and, bit_or, bit_xor}
use Prim.Native.Nat.{bit_and-bitwise, bit_or-bitwise, bit_xor-bitwise}
use mathlib.Core.Path.{◌≡◌, refl, ◌∙◌}
use native.Mathlib.Omega.{arith}
use native.Mathlib.Nat.{le_refl}

module _ (z : ℕ → ℕ) (f : ℕ → ℕ → ℕ) where
  same_digits : (n m a b : ℕ) → a ≤ n → a ≤ m → digits z f n a b ≡ digits z f m a b
  same_digits zero zero a b p q = refl
  same_digits zero (suc m) zero b p q = refl
  same_digits zero (suc m) (suc a) b p q = absurd (omega arith)
  same_digits (suc n) zero zero b p q = refl
  same_digits (suc n) zero (suc a) b p q = absurd (omega arith)
  same_digits (suc n) (suc m) zero b p q = refl
  same_digits (suc n) (suc m) (suc a) b p q =
      rw (same_digits n m (suc a / 2) (b / 2) (omega arith) (omega arith))

  first_digit :
      (a b : ℕ)
      → bitwise z f (suc a) b ≡ bitwise z f (suc a / 2) (b / 2) * 2 + f (suc a % 2) (b % 2)
  first_digit a b =
      omega (arith, same_digits a (suc a / 2) (suc a / 2) (b / 2) (omega arith) (le_refl _))

pub or_step : (a b : ℕ) → bit_or a b ≡ bit_or (a / 2) (b / 2) * 2 + max (a % 2) (b % 2)
or_step zero b = simp bit_or-bitwise (omega arith)
or_step (suc a) b = simp bit_or-bitwise (first_digit (λ y. y) max a b)

pub and_step : (a b : ℕ) → bit_and a b ≡ bit_and (a / 2) (b / 2) * 2 + min (a % 2) (b % 2)
and_step zero b = simp bit_and-bitwise (omega arith)
and_step (suc a) b = simp bit_and-bitwise (first_digit (λ y. 0) min a b)

differ-zero : (b : ℕ) → differ 0 b ≡ b
differ-zero b = refl

xor_step_differ : (a b : ℕ) → bit_xor a b ≡ bit_xor (a / 2) (b / 2) * 2 + differ (a % 2) (b % 2)
xor_step_differ zero b = simp bit_xor-bitwise (omega arith)
xor_step_differ (suc a) b = simp bit_xor-bitwise (first_digit (λ y. y) differ a b)

-- Two digits differ where their sum is odd.
differ_bits : (x y : ℕ) → x < 2 → y < 2 → differ x y ≡ (x + y) % 2
differ_bits zero zero hx hy = refl
differ_bits zero (suc zero) hx hy = refl
differ_bits (suc zero) zero hx hy = refl
differ_bits (suc zero) (suc zero) hx hy = refl
differ_bits zero (suc (suc y)) hx hy = absurd (omega arith)
differ_bits (suc zero) (suc (suc y)) hx hy = absurd (omega arith)
differ_bits (suc (suc x)) y hx hy = absurd (omega arith)

pub xor_step : (a b : ℕ) → bit_xor a b ≡ bit_xor (a / 2) (b / 2) * 2 + (a + b) % 2
xor_step a b =
    xor_step_differ a b ∙ omega (arith, differ_bits (a % 2) (b % 2) (omega arith) (omega arith))
