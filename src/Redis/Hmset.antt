-- ===== src/Redis/Hmset.antt =====
-- `make_hmset_command` of common/redis_op.c with its accounting of the buffer.
use cloud_disk_server.Prelude.{ℕ, ◌+◌, ◌*◌, List, [], ◌∷◌, ◌++◌}
use cloud_disk_server.Prelude.{leb, if◌then◌else◌, length, take}
use cloud_disk_server.Prelude.Outcome.{Outcome, done, fault, ◌>>=◌}
use cloud_disk_server.Prelude.Text.{Bytes, codes}

-- FIELD_ID_SIZE and VALUES_ID_SIZE of include/redis_op.h.
abbrev pub field_id_size : ℕ
field_id_size = 100

abbrev pub values_id_size : ℕ
values_id_size = 1024

abbrev pub megabyte : ℕ
megabyte = 1024 * 1024

-- The variables of the function: `capacity` is the size of the block that `cmd` points to, and
-- `buf_size` what the function takes it for.
pub record Hmset : Type 0 where
  pub cmd : Bytes
  pub buf_size : ℕ
  pub use_size : ℕ
  pub capacity : ℕ

-- `strncat(cmd, piece, n)`, which writes a NUL after at most `n` bytes of `piece`.
unfoldable pub strncat : Hmset → Bytes → ℕ → Outcome Hmset
strncat s piece n =
    if leb (length s.cmd + length (take n piece) + 1) s.capacity
    then done (record s { cmd = s.cmd ++ take n piece })
    else fault

-- `use_size += n`, and the `realloc` that follows a full buffer. `malloc` and `realloc` succeed
-- here.
unfoldable pub account : Hmset → ℕ → Hmset
account s n =
    if leb s.buf_size (s.use_size + n)
    then record s {
      use_size = s.use_size + n;
      buf_size = s.buf_size + megabyte;
      capacity = s.use_size + n + megabyte;
    }
    else record s { use_size = s.use_size + n }

-- One round of the loop.
unfoldable pub put_pair : Hmset → Bytes → Bytes → Outcome Hmset
unfolding strncat account
put_pair s field value = do
  s₁ ← strncat s (codes " ") 1
  s₂ ← strncat (account s₁ 1) field field_id_size
  s₃ ← strncat (account s₂ (length field)) (codes " ") 1
  s₄ ← strncat (account s₃ 1) value values_id_size
  done (account s₄ (length value))

unfoldable pub put_pairs : Hmset → List (Bytes × Bytes) → Outcome Hmset
put_pairs s [] = done s
put_pairs s ((f, v) ∷ rest) = do s' ← put_pair s f v; put_pairs s' rest

abbrev pub empty_buffer : Hmset
empty_buffer = record { cmd = []; buf_size = megabyte; use_size = 0; capacity = megabyte }

-- The 200 is added whatever the length of the key.
unfoldable pub make_hmset_command : Bytes → List (Bytes × Bytes) → Outcome Bytes
unfolding put_pairs put_pair
make_hmset_command key pairs = do
  s₁ ← strncat empty_buffer (codes "hmset") 6
  s₂ ← strncat s₁ (codes " ") 1
  s₃ ← strncat s₂ key 200
  s ← put_pairs (record s₃ { use_size = 5 + 1 + 200 }) pairs
  done s.cmd
