-- ===== src/Redis/Hash.antt =====
-- The hash tables of common/redis_op.c.
use cloud_disk_server.Prelude.{ℕ, ◌+◌, Option, none, some, List, [], ◌∷◌, ◌++◌}
use cloud_disk_server.Prelude.{ltb, if◌then◌else◌, length, take, drop, map}
use cloud_disk_server.Prelude.Int.{ℤ, pos, of_word32, eqb_ℤ}
use cloud_disk_server.Prelude.Outcome.{Outcome, done, fault}
use cloud_disk_server.Prelude.Text.{Bytes, codes, eqb}
use cloud_disk_server.Redis.Hmset.{values_id_size, make_hmset_command}
use cloud_disk_server.Redis.Hiredis.{Hiredis, RedisReply, Command, args, raw, text, number}
use cloud_disk_server.Redis.Hiredis.{M, ◌>>=◌, ret, follow, minus_one, is_integer, is_string}
use cloud_disk_server.Redis.Hiredis.{redis_command, lift}
use cloud_disk_server.Redis.Keys.{pipeline}

abbrev pub hset_command : Bytes → Bytes × Bytes → Command
hset_command key (f, v) = args (text (codes "hset") ∷ text key ∷ text f ∷ text v ∷ [])

-- `strncpy(value, reply->str, len); value[len] = '\0'`: what the array `value` holds afterwards, if
-- it has room. The reply is a text without a NUL, as everything is that the program writes with
-- `%s`: behind a NUL `strncpy` puts zeros where this has the bytes of the reply, and the string in
-- the array is the same.
unfoldable pub store_string : Bytes → Bytes → ℕ → Outcome Bytes
store_string value str len =
    if ltb len (length value) then done (take len str ++ (0 ∷ drop (len + 1) value)) else fault

module _ (h : Hiredis) where
  open h use {Context, Server}

  unfoldable pub rop_hash_set_append : Option Context → Bytes → List (Bytes × Bytes) → M Server ℤ
  unfolding pipeline
  rop_hash_set_append conn key pairs = pipeline h conn (map (hset_command key) pairs)

  unfoldable pub rop_hash_set : Option Context → Bytes → Bytes → Bytes → M Server ℤ
  rop_hash_set conn key field value = do
    reply ← redis_command h conn (hset_command key (field, value))
    ret (elim reply [ none ↦ minus_one | some r ↦ if is_integer r.kind then pos 0 else minus_one ])

  -- `reply->len` is the length of `str`, and `value` is unchanged on failure.
  abbrev copy_reply : Bytes → RedisReply → M Server (ℤ × Bytes)
  copy_reply value r = do
    str ← follow r.str
    value' ← lift (
        store_string value str
          (if ltb values_id_size (length str) then values_id_size else length str))
    ret (pos 0, value')

  unfoldable pub rop_hash_get : Option Context → Bytes → Bytes → Bytes → M Server (ℤ × Bytes)
  unfolding store_string
  rop_hash_get conn key field value = do
    reply ← redis_command h conn (args (text (codes "hget") ∷ text key ∷ text field ∷ []))
    elim reply [
      | none ↦ ret (minus_one, value)
      | some r ↦ if is_string r.kind then copy_reply value r else ret (minus_one, value)
    ]

  -- When the reply is not 1, the text that is logged has four `%s` for three arguments, and
  -- `vsprintf` reads an argument that is not there.
  unfoldable pub rop_hash_del : Option Context → Bytes → Bytes → M Server ℤ
  rop_hash_del conn key field = do
    reply ← redis_command h conn (args (text (codes "hdel") ∷ text key ∷ text field ∷ []))
    r ← follow reply
    if eqb_ℤ r.integer (pos 1) then ret (pos 0) else λ s. fault

  unfoldable pub rop_create_or_replace_hash_table :
      Option Context → Bytes → List (Bytes × Bytes) → M Server ℤ
  unfolding make_hmset_command
  rop_create_or_replace_hash_table conn key pairs = do
    cmd ← lift (make_hmset_command key pairs)
    reply ← redis_command h conn (raw cmd)
    r ← follow reply
    str ← follow r.str
    ret (if eqb str (codes "OK") then pos 0 else minus_one)

  unfoldable pub rop_hincrement_one_field : Option Context → Bytes → Bytes → ℕ → M Server ℤ
  rop_hincrement_one_field conn key field num = do
    reply ←
        redis_command h conn
          (args (text (codes "HINCRBY") ∷ text key ∷ text field ∷ number (of_word32 num) ∷ []))
    ret (elim reply [ none ↦ minus_one | some r ↦ pos 0 ])
