-- ===== src/Md5/Blocks.antt =====
-- The blocks of a message, whichever way its bytes come in.
use cloud_disk_server.Prelude.{take-append_left, drop-append_left, drop-drop}
use cloud_disk_server.Prelude.{
  ℕ, zero, suc, ◌+◌, ◌*◌, ◌≤◌, ◌≡◌, refl, ap, ◌∙◌, arith, ◌++◌, length, take, drop, length-drop,
}
use cloud_disk_server.Prelude.Text.{Bytes}
use cloud_disk_server.Md5.Transform.{Digest, transform}
use cloud_disk_server.Md5.Context.{blocks}

pub blocks_at : {m n : ℕ} (s : Digest) (xs : Bytes) → m ≡ n → blocks m s xs ≡ blocks n s xs
blocks_at s xs e = ap (λ (k : ℕ). blocks k s xs) e

-- So many blocks do not look at what follows.
pub blocks-append :
    (n : ℕ) (s : Digest) (xs ys : Bytes)
    → n * 64 ≤ length xs
    → blocks n s (xs ++ ys) ≡ blocks n s xs
unfolding blocks
blocks-append zero s xs ys h = refl
blocks-append (suc n) s xs ys h =
    rw (take-append_left 64 xs ys (omega arith), drop-append_left 64 xs ys (omega arith))
      (blocks-append n (transform s (take 64 xs)) (drop 64 xs) ys
        (omega (arith, length-drop 64 xs)))

pub blocks-add :
    (m n : ℕ) (s : Digest) (xs : Bytes)
    → blocks (m + n) s xs ≡ blocks n (blocks m s xs) (drop (m * 64) xs)
unfolding blocks
blocks-add zero n s xs = blocks_at {m = 0 + n} {n = n} s xs (omega arith)
blocks-add (suc m) n s xs =
    blocks_at {m = suc m + n} {n = suc (m + n)} s xs (omega arith)
    ∙ blocks-add m n (transform s (take 64 xs)) (drop 64 xs)
    ∙ ap (blocks n (blocks m (transform s (take 64 xs)) (drop 64 xs)))
        (drop-drop (m * 64) 64 xs ∙ ap (λ (k : ℕ). drop k xs) (omega arith))
