-- ===== src/Prelude/Decimal.antt =====
-- `%d` of printf: an integer in base ten.
use Prim.Native.Nat.{ℕ, zero, suc, ◌+◌, ◌/◌, ◌%◌}
use mathlib.Core.List.{[], ◌∷◌, ◌++◌}
use cloud_disk_server.Prelude.Tests.{ltb, if◌then◌else◌}
use cloud_disk_server.Prelude.Text.{Bytes}
use cloud_disk_server.Prelude.Int.{ℤ, pos, negsuc}

-- At most so many digits.
unfoldable pub decimal_digits : ℕ → ℕ → Bytes
decimal_digits zero n = []
decimal_digits (suc k) n =
    let rest = decimal_digits k (n / 10) in
    if ltb n 10 then (b'0' + n) ∷ [] else rest ++ ((b'0' + n % 10) ∷ [])

-- A 32-bit `int` has at most ten digits.
unfoldable pub decimal : ℤ → Bytes
unfolding decimal_digits
decimal (pos n) = decimal_digits 10 n
decimal (negsuc n) = b'-' ∷ decimal_digits 10 (suc n)
