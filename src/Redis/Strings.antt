-- ===== src/Redis/Strings.antt =====
-- The plain strings of common/redis_op.c.
use cloud_disk_server.Prelude.{ℕ, not, Option, none, some, [], ◌∷◌}
use cloud_disk_server.Prelude.{if◌then◌else◌, length}
use cloud_disk_server.Prelude.Int.{ℤ, pos}
use cloud_disk_server.Prelude.Text.{Bytes, codes, eqb}
use cloud_disk_server.Redis.Hiredis.{Hiredis, RedisReply, args, text, number}
use cloud_disk_server.Redis.Hiredis.{
  M, ◌>>=◌, ret, follow, minus_one, is_string, redis_command, lift,
}
use cloud_disk_server.Redis.Hash.{store_string}

module _ (h : Hiredis) where
  open h use {Context, Server}

  -- `strcmp(reply->str, "OK")` on a reply that is not NULL.
  abbrev compare_ok : RedisReply → M Server ℤ
  compare_ok r = do str ← follow r.str; ret (if eqb str (codes "OK") then pos 0 else minus_one)

  set_string : Option Context → Bytes → Bytes → M Server ℤ
  set_string none key value = ret minus_one
  set_string (some conn) key value = do
    reply ← redis_command h (some conn) (args (text (codes "set") ∷ text key ∷ text value ∷ []))
    elim reply [ none ↦ ret minus_one | some r ↦ compare_ok r ]

  unfoldable pub rop_set_string : Option Context → Bytes → Bytes → M Server ℤ
  unfolding set_string
  rop_set_string conn key value = set_string conn key value

  unfoldable pub rop_setex_string : Option Context → Bytes → ℕ → Bytes → M Server ℤ
  rop_setex_string conn key seconds value = do
    reply ←
        redis_command h conn
          (args (text (codes "setex") ∷ text key ∷ number (pos seconds) ∷ text value ∷ []))
    r ← follow reply
    compare_ok r

  -- `retn`, and what the array `value` holds afterwards.
  unfoldable pub rop_get_string : Option Context → Bytes → Bytes → M Server (ℤ × Bytes)
  unfolding store_string
  rop_get_string conn key value = do
    reply ← redis_command h conn (args (text (codes "get") ∷ text key ∷ []))
    r ← follow reply
    if not (is_string r.kind) then ret (minus_one, value) else do
      str ← follow r.str
      value' ← lift (store_string value str (length str))
      ret (pos 0, value')
