-- ===== src/Redis/Runs.antt =====
-- The theorems on common/redis_op.c at concrete inputs.
use cloud_disk_server.Prelude.{ℕ, ◌==◌, none, true, false, some, List, [], ◌∷◌, ◌++◌, ◌≡◌, refl}
use cloud_disk_server.Prelude.{arith, length, replicate, drop, ◌+◌, ◌↔◌}
use cloud_disk_server.Prelude.Int.{pos}
use cloud_disk_server.Prelude.Outcome.{done, fault}
use cloud_disk_server.Prelude.Text.{Bytes, codes, eqb}
use cloud_disk_server.Redis.Hiredis.{Hiredis, Command, raw}
use cloud_disk_server.Redis.Sessions.{rop_set_string-rop_get_string}
use cloud_disk_server.Redis.Ranges.{zrevrange_copies, IsCopied}
use cloud_disk_server.Redis.Keys.{pipeline}
use cloud_disk_server.Redis.Strings.{rop_set_string, rop_get_string}
use cloud_disk_server.Redis.Zset.{rop_zset_zrevrange}
use cloud_disk_server.Redis.Pipeline.{
  pipeline-fault_iff, pipeline-zero_iff, Taken, Replied, CutShort,
}
use cloud_disk_server.Redis.HmsetText.{make_hmset_command-words}
use cloud_disk_server.Redis.Hmset.{make_hmset_command}
use cloud_disk_server.Redis.Memory.{Strings, memory, memory_store, nothing, names}

rop_set_string-rop_get_string_example :
    (t : Strings) × (rop_set_string memory (some tt) (codes "token_1") (codes "7") nothing
      ≡ done (pos 0, t))
    × (rop_get_string memory (some tt) (codes "token_1") (replicate 4 0) t
        ≡ done ((pos 0, codes "7" ++ (0 ∷ drop (length (codes "7") + 1) (replicate 4 0))), t))
    × ((j : Bytes) → eqb (codes "token_1") j ≡ false → t j ≡ nothing j)
rop_set_string-rop_get_string_example =
    rop_set_string-rop_get_string memory tt memory_store (codes "token_1") (codes "7")
      (replicate 4 0) nothing (omega arith)

abbrev two_commands : List Command
two_commands = raw (codes "PING") ∷ raw (codes "PING") ∷ []

-- A connection that is lost behind the first reply; the state counts the replies.
abbrev flaky : Hiredis
flaky = record {
  Context = Unit;
  Server = ℕ;
  command = λ c cmd s. (none, s);
  append_command = λ c cmd s. (true, s);
  get_reply = λ c s. (s == 0, s + 1);
  connect = λ host port s. (some tt, s);
  connect_timeout = λ host port seconds s. (some tt, s);
  connect_unix = λ path s. (some tt, s);
  failed = λ c. false;
  free = λ c s. s;
}

pipeline-fault_iff_example :
    (pipeline flaky (some tt) two_commands 0 ≡ fault)
    ↔ ((t : ℕ) × Taken flaky tt 0 two_commands t × CutShort flaky tt t (length two_commands))
pipeline-fault_iff_example = pipeline-fault_iff flaky tt two_commands 0

freed_twice : pipeline flaky (some tt) two_commands 0 ≡ fault
freed_twice =
    (pipeline-fault_iff flaky tt two_commands 0).1
      (0, (refl, (refl, refl)), (1, 1, omega arith, omega arith, (refl, refl), refl))

pipeline-zero_iff_example :
    (pipeline memory (some tt) two_commands nothing ≡ done (pos 0, nothing)) ↔ (
      (t : Strings) × Taken memory tt nothing two_commands t
      × Replied memory tt t (length two_commands) nothing)
pipeline-zero_iff_example = pipeline-zero_iff memory tt two_commands nothing nothing

make_hmset_command-words_example :
    make_hmset_command (codes "user") ((codes "name", codes "ann") ∷ [])
    ≡ done (codes "hmset user name ann")
make_hmset_command-words_example =
    make_hmset_command-words (codes "user") ((codes "name", codes "ann") ∷ []) (omega arith)
      ((omega arith, omega arith), tt) (omega arith)

abbrev two_rows : List Bytes
two_rows = replicate 1024 255 ∷ replicate 1024 255 ∷ replicate 1024 255 ∷ []

zrevrange_copies_example :
    (rows : List Bytes) × (rop_zset_zrevrange memory
        (some tt)
        (codes "board")
        (pos 0)
        (pos 4)
        two_rows
        nothing
      ≡ done (record { retn = pos 0; values = rows; get_num = some (pos 2) }, nothing))
    × IsCopied 2 names two_rows rows
zrevrange_copies_example =
    zrevrange_copies memory tt nothing (codes "board") 0 4 names two_rows nothing refl (omega arith)
      (omega arith) (omega arith) (omega arith) ((omega arith, tt), ((omega arith, tt), tt))
      (refl, (refl, (refl, tt)))
