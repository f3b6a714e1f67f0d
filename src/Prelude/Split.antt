-- ===== src/Prelude/Split.antt =====
-- A text that is split at each place of a byte.
use Prim.Native.Nat.{ℕ}
use mathlib.Core.Path.{◌≡◌, refl}
use mathlib.Core.Logic.{◌≢◌}
use mathlib.Core.List.{List, [], ◌∷◌, ◌++◌}
use native.Mathlib.Omega.{arith}
use cloud_disk_server.Prelude.Tests.{◌==◌, if◌then◌else◌}
use cloud_disk_server.Prelude.Lists.{All}
use cloud_disk_server.Prelude.Text.{Bytes}

abbrev pub onto_first : ℕ → List Bytes → List Bytes
onto_first x [] = (x ∷ []) ∷ []
onto_first x (w ∷ ws) = (x ∷ w) ∷ ws

unfoldable pub split : ℕ → Bytes → List Bytes
split sep [] = [] ∷ []
split sep (x ∷ xs) = let rest = split sep xs in if x == sep then [] ∷ rest else onto_first x rest

abbrev pub HasNo : ℕ → Bytes → Type 0
HasNo sep = All (λ x. x ≢ sep)

pub split-piece :
    (sep : ℕ) (w rest : Bytes) → HasNo sep w → split sep (w ++ (sep ∷ rest)) ≡ w ∷ split sep rest
unfolding split
split-piece sep [] rest lacks = ground arith
split-piece sep (x ∷ xs) rest (first, lacks) =
    rw (split-piece sep xs rest lacks) (ground (arith, first))

pub split-last : (sep : ℕ) (w : Bytes) → HasNo sep w → split sep w ≡ w ∷ []
unfolding split
split-last sep [] lacks = refl
split-last sep (x ∷ xs) (first, lacks) = rw (split-last sep xs lacks) (ground (arith, first))
