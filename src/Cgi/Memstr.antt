-- ===== src/Cgi/Memstr.antt =====
-- `memstr` of common/util_cgi.c: the search for a string in data that may hold NULs.
use cloud_disk_server.Prelude.{ℕ, zero, suc, ◌+◌, ◌-◌, Option, none, some, [], ◌∷◌}
use cloud_disk_server.Prelude.{Bool, false, ◌&&◌, ◌==◌, if◌then◌else◌, length, take, drop}
use cloud_disk_server.Prelude.Text.{Bytes, eqb}

-- `*cur == *substr`, where both have a byte.
unfoldable pub same_first : Bytes → Bytes → Bool
same_first (x ∷ xs) (y ∷ ys) = x == y
same_first _ _ = false

-- The two tests of a round.
unfoldable pub matches : Bytes → Bytes → Bool
matches cur sub = same_first cur sub && eqb (take (length sub) cur) sub

-- The rounds that are left, from the offset `i` on.
unfoldable pub memstr_loop : ℕ → ℕ → Bytes → Bytes → Option ℕ
memstr_loop zero i cur sub = none
memstr_loop (suc n) i cur sub =
    let rest = memstr_loop n (suc i) (drop 1 cur) sub in if matches cur sub then some i else rest

-- The offset of the pointer returned; `full_data` has `full_data_len` bytes, and no pointer is
-- NULL.
unfoldable pub memstr : Bytes → Bytes → Option ℕ
memstr [] sub = none
memstr (x ∷ xs) [] = none
memstr (x ∷ xs) (y ∷ ys) = memstr_loop (length (x ∷ xs) + 1 - length (y ∷ ys)) 0 (x ∷ xs) (y ∷ ys)
