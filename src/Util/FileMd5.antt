-- ===== src/Util/FileMd5.antt =====
-- `Compute_file_md5` of common/util_cgi.c over what the calls of `open` and `read` give.
use cloud_disk_server.Prelude.{
  ◌≡◌, refl, ap, arith, ◌<◌, Option, none, some, List, true, false, [], ◌∷◌, ◌++◌, map,
}
use cloud_disk_server.Prelude.{ltb, ◌==◌, ◌||◌, if◌then◌else◌, length, All}
use cloud_disk_server.Prelude.Text.{Bytes}
use cloud_disk_server.Md5.Context.{Md5Ctx, init, update, final, hex}
use cloud_disk_server.Md5.Spec.{update_all, joined, IsPiece, md5, final-md5}

-- The loop, over the bytes that the reads give; `none` is a read that fails. Behind the end of the
-- list a read gives no bytes.
unfoldable pub md5_loop : Md5Ctx → List (Option Bytes) → Option Md5Ctx
md5_loop md5 [] = some (update md5 [])
md5_loop md5 (none ∷ reads) = none
md5_loop md5 (some block ∷ reads) =
    let rest = md5_loop (update md5 block) reads in
    if length block == 0 || ltb (length block) 1024 then some (update md5 block) else rest

-- The text that is written to `md5_str`; `none` is the return value -1, which leaves it. `stack` is
-- the buffer of the context before, and there are no reads if the file cannot be opened.
unfoldable pub compute_file_md5 : Bytes → Option (List (Option Bytes)) → Option Bytes
compute_file_md5 stack none = none
compute_file_md5 stack (some reads) = elim (md5_loop (init stack) reads) [
  | none ↦ none
  | some md5 ↦ some (hex (final md5))
]

-- A read of a whole block.
abbrev pub IsBlock : Bytes → Type 0
IsBlock p = length p ≡ 1024

ends_lem : (p : Bytes) → length p < 1024 → (length p == 0 || ltb (length p) 1024) ≡ true
ends_lem p h = ground (arith, h)

goes_on_lem : (p : Bytes) → IsBlock p → (length p == 0 || ltb (length p) 1024) ≡ false
goes_on_lem p h = rw h refl

md5_loop_lem :
    (ctx : Md5Ctx) (blocks : List Bytes) (last : Bytes) (more : List (Option Bytes))
    → All IsBlock blocks
    → length last < 1024
    → md5_loop ctx (map some blocks ++ (some last ∷ more))
      ≡ some (update_all ctx (blocks ++ (last ∷ [])))
unfolding md5_loop update_all
md5_loop_lem ctx [] last more full short = rw (ends_lem last short) refl
md5_loop_lem ctx (b ∷ blocks) last more full short =
    rw (goes_on_lem b full.0) (md5_loop_lem (update ctx b) blocks last more full.1 short)

IsBlock-IsPiece :
    (blocks : List Bytes) (last : Bytes)
    → All IsBlock blocks
    → length last < 1024
    → All IsPiece (blocks ++ (last ∷ []))
IsBlock-IsPiece [] last full short = (omega arith, tt)
IsBlock-IsPiece (b ∷ blocks) last full short =
    (omega (arith, full.0), IsBlock-IsPiece blocks last full.1 short)

-- If the file can be opened, the reads give whole blocks of 1024 bytes and then a shorter one, and
-- the context's buffer has 64 bytes, the text is the digest of RFC 1321 of all of them in
-- hexadecimal, whatever reads would follow.
pub compute_file_md5-md5 :
    (stack : Bytes) (blocks : List Bytes) (last : Bytes) (more : List (Option Bytes))
    → length stack ≡ 64
    → All IsBlock blocks
    → length last < 1024
    → compute_file_md5 stack (some (map some blocks ++ (some last ∷ more)))
      ≡ some (hex (md5 (joined (blocks ++ (last ∷ [])))))
unfolding compute_file_md5
compute_file_md5-md5 stack blocks last more size full short =
    rw (md5_loop_lem (init stack) blocks last more full short, compute_file_md5)
      (ap (λ (d : Bytes). some (hex d))
        (final-md5 stack (blocks ++ (last ∷ [])) size (IsBlock-IsPiece blocks last full short)))
