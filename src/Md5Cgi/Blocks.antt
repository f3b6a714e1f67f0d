-- ===== src/Md5Cgi/Blocks.antt =====
-- The two blocks of src_cgi/md5_cgi.c that live from one request to the next, and how a text gets
-- into one.
use cloud_disk_server.Prelude.{ℕ, ◌-◌, ◌&&◌, leb, if◌then◌else◌, length, drop, replicate, ◌++◌}
use cloud_disk_server.Prelude.Outcome.{Outcome, done, fault}
use cloud_disk_server.Prelude.Text.{Bytes}
use cloud_disk_server.Prelude.Buffer.{strncpy}

-- `MEMSET_ARRAY_ZERO` on a pointer: `sizeof` is the size of the pointer.
abbrev pub clear : ℕ → Bytes → Bytes
clear pointer_bytes block = replicate pointer_bytes 0 ++ drop pointer_bytes block

-- `strncpy(block, text + 1, strlen(text) - 2)`, which takes the quotes off: no NUL is written. A
-- text of less than two bytes gives a huge count.
unfoldable pub unquote : Bytes → Bytes → Outcome Bytes
unquote block text =
    if leb 2 (length text) && leb (length text - 2) (length block)
    then done (strncpy block (drop 1 text) (length text - 2))
    else fault
