-- ===== src/Config/Verify.antt =====
-- `verify_token` of common/util_cgi.c.
use cloud_disk_server.Prelude.{Option, none, some, [], ◌++◌}
use cloud_disk_server.Prelude.Int.{ℤ}
use cloud_disk_server.Prelude.Outcome.{Outcome, done, fault}
use cloud_disk_server.Prelude.Text.{Bytes, codes}
use cloud_disk_server.Redis.Hiredis.{Hiredis, M, ◌>>=◌, ret, lift, minus_one}
use cloud_disk_server.Redis.Connect.{rop_connectdb_nopwd, rop_disconnect}
use cloud_disk_server.Redis.Hash.{rop_hash_get}
use cloud_disk_server.Util.Names.{fitted}
use cloud_disk_server.Config.Read.{Source, cfg_path, get_cfg_value}

-- A string of an array of zeros, which stays empty if nothing is written.
unfoldable pub or_empty : Outcome (ℤ × Option Bytes) → Outcome Bytes
or_empty fault = fault
or_empty (done (code, none)) = done []
or_empty (done (code, some value)) = done value

module _ (h : Hiredis) (src : Source) where
  open h use {Context, Server}

  -- Behind the connection; `user_id` is the array of the caller.
  unfoldable pub read_user : Bytes → Bytes → Option Context → M Server (ℤ × Bytes)
  read_user key user_id none = ret (minus_one, user_id)
  read_user key user_id (some c) = do
    got ← rop_hash_get h (some c) key (codes "userId") user_id
    λ s. done (got, rop_disconnect h (some c) s)

  -- `key` is an array of 128 bytes, the address one of 30 and the port one of 10.
  unfoldable pub verify_token : Bytes → Bytes → M Server (ℤ × Bytes)
  verify_token token user_id = do
    key ← lift (fitted 128 (codes "token_" ++ token))
    redis_ip ← lift (or_empty (get_cfg_value src 30 cfg_path (codes "redis") (codes "ip")))
    redis_port ← lift (or_empty (get_cfg_value src 10 cfg_path (codes "redis") (codes "port")))
    conn ← rop_connectdb_nopwd h redis_ip redis_port
    read_user key user_id conn
