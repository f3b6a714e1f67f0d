-- ===== src/Redis/Keys.antt =====
-- The operations on whole keys, and the raw and pipelined commands, of common/redis_op.c.
use cloud_disk_server.Prelude.{ℕ, not, Option, none, some, List, [], ◌∷◌, map}
use cloud_disk_server.Prelude.{Bool, true, false, if◌then◌else◌}
use cloud_disk_server.Prelude.Outcome.{done, fault}
use cloud_disk_server.Prelude.Int.{ℤ, pos, to_int, of_word32, ltb_ℤ, eqb_ℤ}
use cloud_disk_server.Prelude.Text.{Bytes, codes}
use cloud_disk_server.Redis.Hiredis.{Hiredis, RedisReply, Command, args, raw, text, number}
use cloud_disk_server.Redis.Hiredis.{M, ◌>>=◌, ret, follow, minus_one, is_integer, is_array}
use cloud_disk_server.Redis.Hiredis.{redis_command, redis_append_command, redis_get_reply}

-- `retn` after a call that only looks at whether there is a reply.
abbrev replied : Option RedisReply → ℤ
replied none = minus_one
replied (some r) = pos 0

module _ (h : Hiredis) where
  open h use {Context, Server}

  unfoldable pub rop_selectdatabase : Option Context → ℕ → M Server ℤ
  rop_selectdatabase conn db_no = do
    reply ← redis_command h conn (args (text (codes "select") ∷ number (of_word32 db_no) ∷ []))
    ret (replied reply)

  unfoldable pub rop_flush_database : Option Context → M Server ℤ
  rop_flush_database conn = do
    reply ← redis_command h conn (args (text (codes "FLUSHDB") ∷ []))
    ret (replied reply)

  unfoldable pub rop_is_key_exist : Option Context → Bytes → M Server ℤ
  rop_is_key_exist conn key = do
    reply ← redis_command h conn (args (text (codes "EXISTS") ∷ text key ∷ []))
    r ← follow reply
    ret (
        if not (is_integer r.kind)
        then minus_one
        else if eqb_ℤ r.integer (pos 1)
        then pos 1
        else pos 0)

  unfoldable pub rop_del_key : Option Context → Bytes → M Server ℤ
  rop_del_key conn key = do
    reply ← redis_command h conn (args (text (codes "DEL") ∷ text key ∷ []))
    r ← follow reply
    ret (
        if not (is_integer r.kind)
        then minus_one
        else if ltb_ℤ (pos 0) r.integer
        then pos 0
        else minus_one)

  -- The two tests stand one after the other, so that the second decides.
  unfoldable pub rop_set_key_lifecycle : Option Context → Bytes → ℤ → M Server ℤ
  rop_set_key_lifecycle conn key delete_time = do
    reply ←
        redis_command h conn
          (args (text (codes "EXPIREAT") ∷ text key ∷ number (to_int delete_time) ∷ []))
    r ← follow reply
    ret (if eqb_ℤ r.integer (pos 1) then pos 0 else minus_one)

  unfoldable pub rop_set_key_expire : Option Context → Bytes → ℕ → M Server ℤ
  rop_set_key_expire conn key seconds = do
    reply ←
        redis_command h conn
          (args (text (codes "EXPIRE") ∷ text key ∷ number (of_word32 seconds) ∷ []))
    r ← follow reply
    ret (if eqb_ℤ r.integer (pos 1) then pos 0 else minus_one)

  -- The lines that are printed; `none` is a NULL that `printf` is given.
  unfoldable pub rop_show_keys : Option Context → Bytes → M Server (List (Option Bytes))
  rop_show_keys conn pattern_text = do
    reply ← redis_command h conn (args (text (codes "keys") ∷ text pattern_text ∷ []))
    r ← follow reply
    ret (if not (is_array r.kind) then [] else r.element)

  unfoldable pub rop_redis_command : Option Context → Bytes → M Server ℤ
  rop_redis_command conn cmd = do reply ← redis_command h conn (raw cmd); ret (replied reply)

  -- The first loop of the pipelined calls: `retn` when it ends, which is -1 at the first command
  -- that is not taken, and then the loop stops.
  unfoldable pub append_loop : Option Context → List Command → M Server ℤ
  append_loop conn [] = ret (pos 0)
  append_loop conn (c ∷ cs) = do
    taken ← redis_append_command h conn c
    if taken then append_loop conn cs else ret minus_one

  -- `redisGetReply` leaves `reply` as it was when it fails, and the branch for that frees `reply`: it
  -- is NULL in the first round, and in every later one the reply that is freed already.
  abbrev pub commit_failed : Bool → M Server ℤ
  commit_failed true s = fault
  commit_failed false s = done (minus_one, s)

  -- The second loop reads one reply for each command, up to the first that fails, and frees it.
  -- `freed` says that a reply was freed before.
  unfoldable pub commit_loop : Option Context → Bool → List Command → M Server ℤ
  commit_loop conn freed [] = ret (pos 0)
  commit_loop conn freed (c ∷ cs) = do
    received ← redis_get_reply h conn
    if received then commit_loop conn true cs else commit_failed freed

  -- Both loops, as the four pipelined calls have them.
  unfoldable pub pipeline : Option Context → List Command → M Server ℤ
  unfolding append_loop commit_loop
  pipeline conn cmds = do
    retn ← append_loop conn cmds
    if eqb_ℤ retn (pos 0) then commit_loop conn false cmds else ret minus_one

  unfoldable pub rop_redis_append : Option Context → List Bytes → M Server ℤ
  unfolding pipeline
  rop_redis_append conn cmds = pipeline conn (map raw cmds)
