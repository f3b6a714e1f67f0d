-- ===== src/Prelude/Printed.antt =====
-- A number that is printed by `%d` and read by `atoi` is the same number.
use Prim.Native.Nat.{ℕ, zero, suc, ◌+◌, ◌-◌, ◌*◌, ◌/◌, ◌%◌, ◌^◌, ◌<◌, ◌≤◌}
use mathlib.Core.Path.{◌≡◌, refl, ap, ◌∙◌}
use mathlib.Core.Bool.{true, false}
use mathlib.Core.Logic.{inl, inr}
use mathlib.Core.List.{[], ◌∷◌, ◌++◌}
use native.Mathlib.Omega.{arith}
use cloud_disk_server.Prelude.Tests.{ltb, ◌==◌, Bool-cases, ltb→lt, lt→ltb}
use cloud_disk_server.Prelude.Lists.{length, length-append, All, All-append}
use cloud_disk_server.Prelude.Int.{pos, to_int}
use cloud_disk_server.Prelude.Text.{Bytes, is_digit, is_space, digits, signed, skip_space, atoi}
use cloud_disk_server.Prelude.Decimal.{decimal, decimal_digits}

abbrev pub IsDigit : ℕ → Type 0
IsDigit c = (b'0' ≤ c) × (c ≤ b'9')

digit_test : (c : ℕ) → IsDigit c → is_digit c ≡ true
digit_test c (low, high) = ground (arith, low, high)

digits-snoc :
    (xs : Bytes) (acc c : ℕ)
    → All IsDigit xs
    → IsDigit c
    → digits acc (xs ++ (c ∷ [])) ≡ digits acc xs * 10 + (c - b'0')
unfolding digits
digits-snoc [] acc c all last = rw (digit_test c last) refl
digits-snoc (x ∷ xs) acc c (first, all) last =
    rw (digit_test x first) (digits-snoc xs (acc * 10 + (x - b'0')) c all last)

decimal_digits-AreDigits : (k n : ℕ) → All IsDigit (decimal_digits k n)
unfolding decimal_digits
decimal_digits-AreDigits zero n = tt
decimal_digits-AreDigits (suc k) n = elim (Bool-cases (ltb n 10)) [
  | inl e ↦ rw e ((omega arith, omega (arith, ltb→lt n 10 e)), tt)
  | inr e ↦ rw e (
      All-append IsDigit (decimal_digits k (n / 10)) ((b'0' + n % 10) ∷ [])
        (decimal_digits-AreDigits k (n / 10)) ((omega arith, omega arith), tt))
]

-- The numbers of at most so many digits lie below this.
abbrev power_of_ten : ℕ → ℕ
power_of_ten zero = 1
power_of_ten (suc k) = 10 * power_of_ten k

not_small : (n : ℕ) → ltb n 10 ≡ false → 10 ≤ n
not_small n e = ground (arith, e)

one_digit : (n : ℕ) → n < 10 → digits 0 ((b'0' + n) ∷ []) ≡ n
unfolding digits
one_digit n small = rw (digit_test (b'0' + n) (omega arith, omega (arith, small))) (omega arith)

-- A number with a digit more than the one before it.
more_digits :
    (k n : ℕ)
    → digits 0 (decimal_digits k (n / 10)) ≡ n / 10
    → digits 0 (decimal_digits k (n / 10) ++ ((b'0' + n % 10) ∷ [])) ≡ n
more_digits k n e =
    digits-snoc (decimal_digits k (n / 10)) 0 (b'0' + n % 10) (decimal_digits-AreDigits k (n / 10))
      (omega arith, omega arith)
    ∙ omega (arith, e)

digits-decimal : (k n : ℕ) → n < power_of_ten (suc k) → digits 0 (decimal_digits (suc k) n) ≡ n
unfolding decimal_digits
digits-decimal zero n small =
    rw (lt→ltb n 10 (omega (arith, small))) (one_digit n (omega (arith, small)))
digits-decimal (suc k) n small = elim (Bool-cases (ltb n 10)) [
  | inl e ↦ rw e (one_digit n (ltb→lt n 10 e))
  | inr e ↦ rw e (more_digits (suc k) n (digits-decimal k (n / 10) (omega (arith, small))))
]

some_digit : (k n : ℕ) → 0 < length (decimal_digits (suc k) n)
unfolding decimal_digits
some_digit k n = elim (Bool-cases (ltb n 10)) [
  | inl e ↦ rw e (omega arith)
  | inr e ↦ rw e (omega (arith, length-append (decimal_digits k (n / 10)) ((b'0' + n % 10) ∷ [])))
]

not_space : (c : ℕ) → IsDigit c → is_space c ≡ false
not_space c (low, high) = ground (arith, low)

atoi-digits : (xs : Bytes) → All IsDigit xs → 0 < length xs → atoi xs ≡ to_int (pos (digits 0 xs))
unfolding atoi signed skip_space
atoi-digits [] all some = absurd (omega (arith, some))
atoi-digits (x ∷ xs) (first, all) some =
    rw (not_space x first)
      (rw (not_sign x 45 first (omega arith), not_sign x 43 first (omega arith)) refl)
  where
    not_sign : (c s : ℕ) → IsDigit c → s < b'0' → (c == s) ≡ false
    not_sign c s (low, high) h = ground (arith, low, h)

to_int-small : (n : ℕ) → n < 2 ^ 31 → to_int (pos n) ≡ pos n
to_int-small n small = ground (arith, small)

-- A number below 2 ^ 31, which is what an `int` holds from 0 on.
pub atoi-decimal : (n : ℕ) → n < 2 ^ 31 → atoi (decimal (pos n)) ≡ pos n
unfolding decimal
atoi-decimal n small =
    atoi-digits (decimal_digits 10 n) (decimal_digits-AreDigits 10 n) (some_digit 9 n)
    ∙ ap (λ (k : ℕ). to_int (pos k)) (digits-decimal 9 n (omega (arith, small)))
    ∙ to_int-small n small

pub decimal-AreDigits : (n : ℕ) → All IsDigit (decimal (pos n))
unfolding decimal
decimal-AreDigits n = decimal_digits-AreDigits 10 n
