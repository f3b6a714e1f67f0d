-- ===== src/Prelude/Text.antt =====
-- C strings: the bytes before the terminating NUL, as a list of numbers.
use Prim.Native.Nat.{ℕ, zero, suc, ◌+◌, ◌-◌, ◌*◌}
use Prim.Native.Char.{code}
use Prim.Native.String.{String}
use mathlib.Core.Path.{◌≡◌, refl}
use mathlib.Core.Bool.{Bool, true, false, ◌&&◌, ◌||◌}
use mathlib.Core.List.{List, [], ◌∷◌}
use native.Mathlib.Omega.{arith}
use cloud_disk_server.Prelude.Tests.{leb, ◌==◌, if◌then◌else◌}
use cloud_disk_server.Prelude.Int.{ℤ, pos, negsuc, to_int}

abbrev pub Bytes : Type 0
Bytes = List ℕ

-- The bytes of an ASCII literal.
abbrev pub codes : String → Bytes
codes String.[] = []
codes (String.◌∷◌ c s) = code c ∷ codes s

-- `strcmp(a, b) == 0`.
unfoldable pub eqb : Bytes → Bytes → Bool
eqb [] [] = true
eqb [] (y ∷ ys) = false
eqb (x ∷ xs) [] = false
eqb (x ∷ xs) (y ∷ ys) = x == y && eqb xs ys

pub eqb_refl : (xs : Bytes) → eqb xs xs ≡ true
unfolding eqb
eqb_refl [] = refl
eqb_refl (x ∷ xs) = ground (arith, eqb_refl xs)

pub eqb→eq : (xs ys : Bytes) → eqb xs ys ≡ true → xs ≡ ys
unfolding eqb
eqb→eq [] [] h = refl
eqb→eq [] (y ∷ ys) h = cc
eqb→eq (x ∷ xs) [] h = cc
eqb→eq (x ∷ xs) (y ∷ ys) h = ground (arith, eqb→eq xs ys)

-- `isspace` in the C locale.
abbrev pub is_space : ℕ → Bool
is_space c = c == 32 || leb 9 c && leb c 13

abbrev pub is_digit : ℕ → Bool
is_digit c = leb b'0' c && leb c b'9'

-- The digits that `strtol` reads in base ten, to a number.
unfoldable pub digits : ℕ → Bytes → ℕ
digits acc [] = acc
digits acc (c ∷ cs) =
    let rest = digits (acc * 10 + (c - b'0')) cs in if is_digit c then rest else acc

abbrev negate : ℕ → ℤ
negate zero = pos 0
negate (suc n) = negsuc n

unfoldable pub signed : Bytes → ℤ
unfolding digits
signed [] = pos 0
signed (c ∷ cs) =
    if c == b'-'
    then negate (digits 0 cs)
    else if c == b'+'
    then pos (digits 0 cs)
    else pos (digits 0 (c ∷ cs))

unfoldable pub skip_space : Bytes → Bytes
skip_space [] = []
skip_space (c ∷ cs) = let rest = skip_space cs in if is_space c then rest else c ∷ cs

-- `atoi`, which is `(int)strtol(s, NULL, 10)` on numbers that fit a `long`.
unfoldable pub atoi : Bytes → ℤ
unfolding signed skip_space
atoi s = to_int (signed (skip_space s))
