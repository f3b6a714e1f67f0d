-- ===== src/Prelude/Bits/Words.antt =====
-- Laws of the bit operations, each by induction on a bound of the numbers.
use Prim.Native.Nat.{ℕ, zero, suc, ◌+◌, ◌-◌, ◌*◌, ◌/◌, ◌%◌, ◌^◌, ◌≤◌, ◌<◌, min, max}
use Prim.Native.Nat.{bit_and, bit_or, bit_xor, bit_and-bitwise, bit_xor-bitwise}
use mathlib.Core.Path.{◌≡◌, refl, sym, ap, ◌∙◌}
use native.Mathlib.Omega.{arith}
use native.Mathlib.Nat.{pow-suc, pow-succ', one-le-pow, div-div-eq-div-mul, div-add-mod}
use cloud_disk_server.Prelude.Bits.Step.{or_step, and_step, xor_step}

xor_half : (a b : ℕ) → bit_xor a b / 2 ≡ bit_xor (a / 2) (b / 2)
xor_half a b = omega (arith, xor_step a b)

xor_low : (a b : ℕ) → bit_xor a b % 2 ≡ (a + b) % 2
xor_low a b = omega (arith, xor_step a b)

and_half : (a b : ℕ) → bit_and a b / 2 ≡ bit_and (a / 2) (b / 2)
and_half a b = omega (arith, and_step a b)

and_low : (a b : ℕ) → bit_and a b % 2 ≡ min (a % 2) (b % 2)
and_low a b = omega (arith, and_step a b)

or_half : (a b : ℕ) → bit_or a b / 2 ≡ bit_or (a / 2) (b / 2)
or_half a b = omega (arith, or_step a b)

or_low : (a b : ℕ) → bit_or a b % 2 ≡ max (a % 2) (b % 2)
or_low a b = omega (arith, or_step a b)

-- Two numbers with the same last digit and the same rest are equal.
same_halves : (a b : ℕ) → a / 2 ≡ b / 2 → a % 2 ≡ b % 2 → a ≡ b
same_halves a b p q = omega arith

xor_comm_bound : (n a b : ℕ) → a ≤ n → b ≤ n → bit_xor a b ≡ bit_xor b a
xor_comm_bound zero zero zero p q = refl
xor_comm_bound zero (suc a) b p q = absurd (omega arith)
xor_comm_bound zero zero (suc b) p q = absurd (omega arith)
xor_comm_bound (suc n) a b p q = omega (
  arith,
  xor_step a b,
  xor_step b a,
  xor_comm_bound n (a / 2) (b / 2) (omega arith) (omega arith),
)

pub xor_comm : (a b : ℕ) → bit_xor a b ≡ bit_xor b a
xor_comm a b = xor_comm_bound (a + b) a b (omega arith) (omega arith)

xor_assoc_bound :
    (n a b c : ℕ) → a ≤ n → b ≤ n → c ≤ n → bit_xor (bit_xor a b) c ≡ bit_xor a (bit_xor b c)
xor_assoc_bound zero zero zero zero p q r = refl
xor_assoc_bound zero (suc a) b c p q r = absurd (omega arith)
xor_assoc_bound zero zero (suc b) c p q r = absurd (omega arith)
xor_assoc_bound zero zero zero (suc c) p q r = absurd (omega arith)
xor_assoc_bound (suc n) a b c p q r =
    let ih = xor_assoc_bound n (a / 2) (b / 2) (c / 2) (omega arith) (omega arith) (omega arith) in
    same_halves _ _
      (xor_half (bit_xor a b) c
        ∙ rw (xor_half a b) (ih ∙ sym (xor_half a (bit_xor b c) ∙ rw (xor_half b c))))
      (omega (arith, xor_low (bit_xor a b) c, xor_low a b, xor_low a (bit_xor b c), xor_low b c))

pub xor_assoc : (a b c : ℕ) → bit_xor (bit_xor a b) c ≡ bit_xor a (bit_xor b c)
xor_assoc a b c = xor_assoc_bound (a + b + c) a b c (omega arith) (omega arith) (omega arith)

xor_self_bound : (n a : ℕ) → a ≤ n → bit_xor a a ≡ 0
xor_self_bound n zero p = refl
xor_self_bound zero (suc a) p = absurd (omega arith)
xor_self_bound (suc n) (suc a) p =
    omega (arith, xor_step (suc a) (suc a), xor_self_bound n (suc a / 2) (omega arith))

pub xor_self : (a : ℕ) → bit_xor a a ≡ 0
xor_self a = xor_self_bound a a (omega arith)

zero-xor : (b : ℕ) → bit_xor 0 b ≡ b
zero-xor b = bit_xor-bitwise 0 b

pub xor-zero : (a : ℕ) → bit_xor a 0 ≡ a
xor-zero a = xor_comm a 0 ∙ zero-xor a

-- The same number twice is nothing.
pub xor_cancel : (a b : ℕ) → bit_xor (bit_xor a b) b ≡ a
xor_cancel a b = xor_assoc a b b ∙ rw (xor_self b) (xor-zero a)

pub xor_cancel_left : (a b : ℕ) → bit_xor a (bit_xor a b) ≡ b
xor_cancel_left a b = sym (xor_assoc a a b) ∙ rw (xor_self a) (zero-xor b)

-- The same number on both sides cancels out.
pub xor_pairs : (a b w : ℕ) → bit_xor (bit_xor a w) (bit_xor b w) ≡ bit_xor a b
xor_pairs a b w =
    xor_assoc a w (bit_xor b w)
    ∙ ap (bit_xor a) (ap (bit_xor w) (xor_comm b w) ∙ xor_cancel_left w b)

-- Shifts go under the exclusive or.
half_shr : (k a : ℕ) → a / 2 ^ suc k ≡ a / 2 / 2 ^ k
half_shr k a = rw (pow-succ' 2 k) (sym (div-div-eq-div-mul a 2 (2 ^ k)))

pub xor-shr : (k a b : ℕ) → bit_xor a b / 2 ^ k ≡ bit_xor (a / 2 ^ k) (b / 2 ^ k)
xor-shr zero a b = ground arith
xor-shr (suc k) a b =
    half_shr k (bit_xor a b)
    ∙ rw (xor_half a b, half_shr k a, half_shr k b) (xor-shr k (a / 2) (b / 2))

double_shl : (k a : ℕ) → a * 2 ^ suc k ≡ a * 2 ^ k * 2
double_shl k a = omega (arith, ap (λ (t : ℕ). a * t) (pow-suc 2 k))

half_double : (a : ℕ) → a * 2 / 2 ≡ a
half_double a = omega arith

xor_double : (a b : ℕ) → bit_xor (a * 2) (b * 2) ≡ bit_xor a b * 2
xor_double a b =
    same_halves _ _
      (xor_half (a * 2) (b * 2) ∙ rw (half_double a, half_double b, half_double (bit_xor a b)))
      (omega (arith, xor_low (a * 2) (b * 2)))

pub xor-shl : (k a b : ℕ) → bit_xor a b * 2 ^ k ≡ bit_xor (a * 2 ^ k) (b * 2 ^ k)
xor-shl zero a b = ground arith
xor-shl (suc k) a b =
    double_shl k (bit_xor a b)
    ∙ rw (double_shl k a, double_shl k b, xor_double (a * 2 ^ k) (b * 2 ^ k), xor-shl k a b) refl

pub xor_lt : (k a b : ℕ) → a < 2 ^ k → b < 2 ^ k → bit_xor a b < 2 ^ k
xor_lt zero zero zero p q = omega arith
xor_lt zero (suc a) b p q = absurd (omega arith)
xor_lt zero zero (suc b) p q = absurd (omega arith)
xor_lt (suc k) a b p q = omega (
  arith,
  pow-suc 2 k,
  xor_step a b,
  xor_lt k (a / 2) (b / 2) (omega (arith, pow-suc 2 k)) (omega (arith, pow-suc 2 k)),
)

pub or_lt : (k a b : ℕ) → a < 2 ^ k → b < 2 ^ k → bit_or a b < 2 ^ k
or_lt zero zero zero p q = omega arith
or_lt zero (suc a) b p q = absurd (omega arith)
or_lt zero zero (suc b) p q = absurd (omega arith)
or_lt (suc k) a b p q = omega (
  arith,
  pow-suc 2 k,
  or_step a b,
  or_lt k (a / 2) (b / 2) (omega (arith, pow-suc 2 k)) (omega (arith, pow-suc 2 k)),
)

and-le_bound : (n a b : ℕ) → a ≤ n → b ≤ n → bit_and a b ≤ b
and-le_bound zero zero b p q = omega (arith, bit_and-bitwise 0 b)
and-le_bound zero (suc a) b p q = absurd (omega arith)
and-le_bound (suc n) a b p q =
    omega (arith, and_step a b, and-le_bound n (a / 2) (b / 2) (omega arith) (omega arith))

-- A mask bounds what it lets through.
pub and-le : (a m : ℕ) → bit_and a m ≤ m
and-le a m = and-le_bound (a + m) a m (omega arith) (omega arith)

or-zero : (a : ℕ) → bit_or a 0 ≡ a
or-zero a = go a a (omega arith)
  where
    go : (n a : ℕ) → a ≤ n → bit_or a 0 ≡ a
    go zero zero p = refl
    go zero (suc a) p = absurd (omega arith)
    go (suc n) a p = omega (arith, or_step a 0, go n (a / 2) (omega arith))

-- An or of disjoint fields is a sum.
pub or_sum : (k q r : ℕ) → r < 2 ^ k → bit_or (q * 2 ^ k) r ≡ q * 2 ^ k + r
or_sum zero q r h = ground (arith, or-zero q)
or_sum (suc k) q r h = ground (
  arith,
  or_step (q * 2 ^ suc k) r,
  double_shl k q,
  or_sum k q (r / 2) (omega (arith, pow-suc 2 k)),
)

and-zero : (a : ℕ) → bit_and a 0 ≡ 0
and-zero a = omega (arith, and-le a 0)

and_sum : (k q r : ℕ) → r < 2 ^ k → bit_and (q * 2 ^ k + r) (2 ^ k - 1) ≡ r
and_sum zero q r h = omega (arith, and-le (q * 1 + r) 0)
and_sum (suc k) q r h = ground (
  arith,
  and_step (q * 2 ^ suc k + r) (2 ^ suc k - 1),
  double_shl k q,
  pow-suc 2 k,
  one-le-pow k 2,
  and_sum k q (r / 2) (omega (arith, pow-suc 2 k)),
)

-- A mask of k ones is the remainder by 2 ^ k.
pub and_ones : (k a : ℕ) → bit_and a (2 ^ k - 1) ≡ a % 2 ^ k
and_ones k a = ground (arith, one-le-pow k 2, and_sum k (a / 2 ^ k) (a % 2 ^ k))

half_mod_parts :
    (m q r s a : ℕ) → 2 * m * q + r ≡ a → m * q + s ≡ a / 2 → (r / 2 ≡ s) × (r % 2 ≡ a % 2)
half_mod_parts m q r s a whole half = (grind arith, grind arith)

half_mod : (k a : ℕ) → (a % 2 ^ suc k / 2 ≡ a / 2 % 2 ^ k) × (a % 2 ^ suc k % 2 ≡ a % 2)
half_mod k a =
    half_mod_parts (2 ^ k) (a / 2 / 2 ^ k) (a % 2 ^ suc k) (a / 2 % 2 ^ k) a
      (rw (sym (half_shr k a), sym (pow-succ' 2 k)) (div-add-mod a (2 ^ suc k)))
      (div-add-mod (a / 2) (2 ^ k))

mod_one : (a : ℕ) → a % 2 ^ 0 ≡ 0
mod_one a = omega arith

pub xor_mod : (k a b : ℕ) → bit_xor a b % 2 ^ k ≡ bit_xor (a % 2 ^ k) (b % 2 ^ k)
xor_mod zero a b = rw (mod_one (bit_xor a b), mod_one a, mod_one b) refl
xor_mod (suc k) a b =
    same_halves _ _
      ((half_mod k (bit_xor a b)).0
        ∙ ap (λ (t : ℕ). t % 2 ^ k) (xor_half a b)
        ∙ xor_mod k (a / 2) (b / 2)
        ∙ sym (
            xor_half (a % 2 ^ suc k) (b % 2 ^ suc k)
            ∙ rw ((half_mod k a).0, (half_mod k b).0) refl))
      (omega (
        arith,
        (half_mod k (bit_xor a b)).1,
        (half_mod k a).1,
        (half_mod k b).1,
        xor_low a b,
        xor_low (a % 2 ^ suc k) (b % 2 ^ suc k),
      ))
