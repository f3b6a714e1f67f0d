-- ===== src/Util/Strstr.antt =====
-- `strstr` of the C library on an array whose bytes up to the first NUL are the string, and where
-- it finds what it looks for.
use cloud_disk_server.Prelude.{ℕ, suc, ◌≡◌, ◌≢◌, refl, arith, Bool, true, false, ◌&&◌, ◌==◌}
use cloud_disk_server.Prelude.{Option, none, some, [], ◌∷◌, ◌++◌, length, All, if◌then◌else◌}
use cloud_disk_server.Prelude.Text.{Bytes}
use mathlib.Core.Option

unfoldable pub starts_with : Bytes → Bytes → Bool
starts_with [] text = true
starts_with (y ∷ ys) [] = false
starts_with (y ∷ ys) (x ∷ xs) = x == y && starts_with ys xs

-- The offset of the first place; `none` is NULL, and also what an array without a NUL would give.
-- The string that is looked for is not empty.
unfoldable pub strstr : Bytes → Bytes → Option ℕ
unfolding starts_with
strstr [] sub = none
strstr (x ∷ xs) sub =
    let rest = strstr xs sub in
    if x == 0
    then none
    else if starts_with sub (x ∷ xs)
    then some 0
    else Option.map (λ n. suc n) rest

-- No byte is `c`, and none is NUL.
abbrev pub Lacks : ℕ → Bytes → Type 0
Lacks c = All (λ x. (x ≢ c) × (x ≢ 0))

pub starts_with-append : (sub rest : Bytes) → starts_with sub (sub ++ rest) ≡ true
unfolding starts_with
starts_with-append [] rest = refl
starts_with-append (y ∷ ys) rest = ground (arith, starts_with-append ys rest)

-- A text that has not the first byte of what is looked for is passed over.
pub strstr-append :
    (pre : Bytes) (c : ℕ) (sub post : Bytes)
    → Lacks c pre
    → c ≢ 0
    → strstr (pre ++ (c ∷ (sub ++ post))) (c ∷ sub) ≡ some (length pre)
unfolding strstr
strstr-append [] c sub post h nonzero = ground (arith, starts_with-append (c ∷ sub) post)
strstr-append (x ∷ pre) c sub post h nonzero =
    ground (arith, h.0.0, h.0.1, strstr-append pre c sub post h.1 nonzero)

pub strstr-Lacks :
    (text : Bytes) (c : ℕ) (sub : Bytes) → Lacks c text → strstr text (c ∷ sub) ≡ none
unfolding strstr
strstr-Lacks [] c sub h = refl
strstr-Lacks (x ∷ text) c sub h = ground (arith, h.0.0, h.0.1, strstr-Lacks text c sub h.1)
