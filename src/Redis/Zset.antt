-- ===== src/Redis/Zset.antt =====
-- The sorted sets of common/redis_op.c.
use cloud_disk_server.Prelude.{◌-◌, not, Option, none}
use cloud_disk_server.Prelude.{List, [], ◌∷◌, ◌++◌, map, set, if◌then◌else◌}
use cloud_disk_server.Prelude.Int.{ℤ, pos, to_int, eqb_ℤ}
use cloud_disk_server.Prelude.Text.{Bytes, codes, eqb, atoi}
use cloud_disk_server.Redis.Hmset.{values_id_size}
use cloud_disk_server.Redis.Hiredis.{Hiredis, Command, args, text, number}
use cloud_disk_server.Redis.Hiredis.{M, ◌>>=◌, ret, follow, minus_one, is_integer, is_string}
use cloud_disk_server.Redis.Hiredis.{is_array, redis_command, lift}
use cloud_disk_server.Redis.Keys.{pipeline}
use cloud_disk_server.Redis.Lists.{copy_row, copy_range, RangeResult}

abbrev pub zincrby_command : Bytes → Bytes → Command
zincrby_command key member =
    args (text (codes "ZINCRBY") ∷ text key ∷ text (codes "1") ∷ text member ∷ [])

abbrev pub zrevrange_command : Bytes → ℤ → ℤ → Command
zrevrange_command key from_pos end_pos =
    args (text (codes "ZREVRANGE") ∷ text key ∷ number from_pos ∷ number end_pos ∷ [])

-- `strncpy` and then `values[i][VALUES_ID_SIZE-1] = 0`.
unfoldable pub copy_row_nul : Bytes → Bytes → Bytes
copy_row_nul row str = set (copy_row row str) (values_id_size - 1) 0

module _ (h : Hiredis) where
  open h use {Context, Server}

  unfoldable pub rop_zset_add : Option Context → Bytes → ℤ → Bytes → M Server ℤ
  rop_zset_add conn key score member = do
    reply ←
        redis_command h conn
          (args (text (codes "ZADD") ∷ text key ∷ number score ∷ text member ∷ []))
    r ← follow reply
    ret (if eqb_ℤ r.integer (pos 1) then pos 0 else minus_one)

  unfoldable pub rop_zset_zrem : Option Context → Bytes → Bytes → M Server ℤ
  rop_zset_zrem conn key member = do
    reply ← redis_command h conn (args (text (codes "ZREM") ∷ text key ∷ text member ∷ []))
    r ← follow reply
    ret (if eqb_ℤ r.integer (pos 1) then pos 0 else minus_one)

  unfoldable pub rop_zset_del_all : Option Context → Bytes → M Server ℤ
  rop_zset_del_all conn key = do
    reply ← redis_command h conn (
        args
          (text (codes "ZREMRANGEBYRANK") ∷ text key ∷ text (codes "0") ∷ text (codes "-1") ∷ []))
    r ← follow reply
    ret (if not (is_integer r.kind) then minus_one else pos 0)

  unfoldable pub rop_zset_zrevrange :
      Option Context → Bytes → ℤ → ℤ → List Bytes → M Server RangeResult
  unfolding copy_range copy_row_nul
  rop_zset_zrevrange conn key from_pos end_pos values = do
    reply ← redis_command h conn (zrevrange_command key from_pos end_pos)
    r ← follow reply
    if not (is_array r.kind)
        then ret (record { retn = minus_one; values = values; get_num = none })
        else lift (copy_range copy_row_nul from_pos end_pos r values)

  unfoldable pub rop_zset_increment : Option Context → Bytes → Bytes → M Server ℤ
  rop_zset_increment conn key member = do
    reply ← redis_command h conn (zincrby_command key member)
    r ← follow reply
    str ← follow r.str
    ret (if eqb str (codes "OK") then pos 0 else minus_one)

  unfoldable pub rop_zset_zcard : Option Context → Bytes → M Server ℤ
  rop_zset_zcard conn key = do
    reply ← redis_command h conn (args (text (codes "ZCARD") ∷ text key ∷ []))
    r ← follow reply
    ret (if not (is_integer r.kind) then minus_one else to_int r.integer)

  -- `rop_test_reply_type` before the test only logs the type.
  unfoldable pub rop_zset_get_score : Option Context → Bytes → Bytes → M Server ℤ
  rop_zset_get_score conn key member = do
    reply ← redis_command h conn (args (text (codes "ZSCORE") ∷ text key ∷ text member ∷ []))
    r ← follow reply
    if not (is_string r.kind) then ret minus_one else do str ← follow r.str; ret (atoi str)

  unfoldable pub rop_zset_exit : Option Context → Bytes → Bytes → M Server ℤ
  rop_zset_exit conn key member = do
    reply ← redis_command h conn (
        args (
          text (codes "zlexcount")
          ∷ text key
          ∷ text (codes "[" ++ member)
          ∷ text (codes "[" ++ member)
          ∷ []))
    r ← follow reply
    ret (if not (is_integer r.kind) then minus_one else to_int r.integer)

  unfoldable pub rop_zset_increment_append : Option Context → Bytes → List Bytes → M Server ℤ
  unfolding pipeline
  rop_zset_increment_append conn key values = pipeline h conn (map (zincrby_command key) values)
