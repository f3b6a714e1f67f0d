-- ===== src/Prelude/Buffer.antt =====
-- Char arrays of C: raw bytes of a fixed size, and the string functions that write them.
use mathlib.Core.Path.{◌≡◌, refl}
use mathlib.Core.Option.{Option, none, some}
use mathlib.Core.Option
use mathlib.Core.List.{[], ◌∷◌, ◌++◌}
use Prim.Native.Nat.{ℕ, ◌+◌, ◌-◌, ◌≤◌, ◌<◌}
use native.Mathlib.Omega.{arith}
use cloud_disk_server.Prelude.Tests.{◌==◌, if◌then◌else◌}
use cloud_disk_server.Prelude.Lists.{length, take, drop, replicate, All, length-append}
use cloud_disk_server.Prelude.Lists.{length-take, length-drop, length-replicate}
use cloud_disk_server.Prelude.Text.{Bytes}

-- The string that starts an array: the bytes before the first NUL; `none` if there is no NUL, so
-- that a reader runs off the end.
unfoldable pub c_str : Bytes → Option Bytes
c_str [] = none
c_str (c ∷ cs) = let rest = c_str cs in if c == 0 then some [] else Option.map (◌∷◌ c) rest

-- No NUL inside: the list is what `strlen` and its like see.
abbrev pub IsString : Bytes → Type 0
IsString = All (λ c. 0 < c)

-- What `strncpy(dst, src, n)` leaves in `dst`: `n` bytes are written, NULs after the end of `src`,
-- and no NUL if `src` has `n` bytes or more.
abbrev pub strncpy : Bytes → Bytes → ℕ → Bytes
strncpy dst src n = take n src ++ (replicate (n - length src) 0 ++ drop n dst)

-- What `strcpy(dst, src)` leaves in `dst`.
abbrev pub strcpy : Bytes → Bytes → Bytes
strcpy dst src = src ++ (0 ∷ drop (length src + 1) dst)

pub c_str-append-nul : (s rest : Bytes) → IsString s → c_str (s ++ 0 ∷ rest) ≡ some s
unfolding c_str
c_str-append-nul [] rest h = refl
c_str-append-nul (c ∷ cs) rest h = ground (arith, c_str-append-nul cs rest h.1)

pub length-strncpy :
    (dst src : Bytes) (n : ℕ) → n ≤ length dst → length (strncpy dst src n) ≡ length dst
length-strncpy dst src n h = omega (
  arith,
  length-append (take n src) (replicate (n - length src) 0 ++ drop n dst),
  length-append (replicate (n - length src) 0) (drop n dst),
  length-take n src,
  length-replicate {A = ℕ} (n - length src) 0,
  length-drop n dst,
)
