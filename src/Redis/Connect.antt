-- ===== src/Redis/Connect.antt =====
-- The connections of common/redis_op.c.
use cloud_disk_server.Prelude.{ℕ, Option, none, some, ◌++◌}
use cloud_disk_server.Prelude.{if◌then◌else◌, ltb, length}
use cloud_disk_server.Prelude.Int.{to_word}
use cloud_disk_server.Prelude.Outcome.{done, fault}
use cloud_disk_server.Prelude.Text.{Bytes, codes, atoi}
use cloud_disk_server.Redis.Hiredis.{Hiredis, raw, M, ◌>>=◌, ret, lift, redis_command}

-- REDIS_COMMAND_SIZE of include/redis_op.h.
abbrev pub redis_command_size : ℕ
redis_command_size = 300

module _ (h : Hiredis) where
  open h use {Context, Server, connect, connect_timeout, connect_unix, failed, free}

  -- The check after each kind of connect: NULL is passed on, and a context that carries an error is
  -- freed and gives NULL.
  checked : Option Context → M Server (Option Context)
  checked none s = ret none s
  checked (some c) s = if failed c then ret none (free c s) else ret (some c) s

  connect_tcp : Bytes → Bytes → M Server (Option Context)
  connect_tcp ip_str port_str s = done (connect ip_str (to_word 16 (atoi port_str)) s)

  -- `sprintf` writes the command into `char auth_cmd[REDIS_COMMAND_SIZE]`, and the authentication
  -- looks only at whether there is a reply. The context is not freed if there is none.
  authenticate : Bytes → Option Context → M Server (Option Context)
  authenticate pwd none = ret none
  authenticate pwd (some c) = do
    auth_cmd ← lift (
        if ltb (length (codes "auth " ++ pwd)) redis_command_size
        then done (codes "auth " ++ pwd)
        else fault)
    reply ← redis_command h (some c) (raw auth_cmd)
    ret (elim reply [ none ↦ none | some r ↦ some c ])

  unfoldable pub rop_connectdb_nopwd : Bytes → Bytes → M Server (Option Context)
  unfolding checked connect_tcp
  rop_connectdb_nopwd ip_str port_str = do conn ← connect_tcp ip_str port_str; checked conn

  unfoldable pub rop_connectdb : Bytes → Bytes → Bytes → M Server (Option Context)
  unfolding checked connect_tcp authenticate
  rop_connectdb ip_str port_str pwd = do
    conn ← connect_tcp ip_str port_str
    conn' ← checked conn
    authenticate pwd conn'

  unfoldable pub rop_connectdb_unix : Bytes → Bytes → M Server (Option Context)
  unfolding checked authenticate
  rop_connectdb_unix sock_path pwd = do
    conn ← λ s. done (connect_unix sock_path s)
    conn' ← checked conn
    authenticate pwd conn'

  -- `timeout` in microseconds.
  unfoldable pub rop_connectdb_timeout : Bytes → Bytes → ℕ → M Server (Option Context)
  unfolding checked
  rop_connectdb_timeout ip_str port_str timeout = do
    conn ← λ s. done (connect_timeout ip_str (to_word 16 (atoi port_str)) timeout s)
    checked conn

  unfoldable pub rop_disconnect : Option Context → Server → Server
  rop_disconnect none s = s
  rop_disconnect (some c) s = free c s
