-- ===== src/Prelude/Finite.antt =====
-- Statements about the numbers below a bound, by a test of each of them.
use Prim.Native.Nat.{ℕ, zero, suc, ◌<◌}
use mathlib.Core.Path.{◌≡◌}
use mathlib.Core.Bool.{Bool, true, ◌&&◌}
use native.Mathlib.Omega.{arith}
use cloud_disk_server.Prelude.Tests.{◌==◌, ==_iff}

-- A test of every number below a bound.
unfoldable pub every : (ℕ → Bool) → ℕ → Bool
every test zero = true
every test (suc n) = test 0 && every (λ k. test (suc k)) n

pub and_true : (a b : Bool) → (a && b) ≡ true → (a ≡ true) × (b ≡ true)
and_true a b h = ground arith

pub every_holds : (test : ℕ → Bool) (n k : ℕ) → every test n ≡ true → k < n → test k ≡ true
unfolding every
every_holds test zero k h lt = absurd (omega arith)
every_holds test (suc n) zero h lt = (and_true (test 0) _ h).0
every_holds test (suc n) (suc k) h lt =
    every_holds (λ k. test (suc k)) n k (and_true (test 0) _ h).1 (omega arith)

abbrev pub same : (ℕ → ℕ) → (ℕ → ℕ) → ℕ → Bool
same f g k = f k == g k

pub same_values : (f g : ℕ → ℕ) (n k : ℕ) → every (same f g) n ≡ true → k < n → f k ≡ g k
same_values f g n k h lt = (==_iff (f k) (g k)).0 (every_holds (same f g) n k h lt)
