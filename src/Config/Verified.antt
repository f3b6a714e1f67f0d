-- ===== src/Config/Verified.antt =====
-- `verify_token` of common/util_cgi.c, from the configuration to the field that is read, on a
-- server that answers as documented.
use cloud_disk_server.Prelude.{◌<◌, Option, none, some, ◌++◌, ◌≡◌, refl, ap, ◌∙◌, arith, length}
use cloud_disk_server.Prelude.Outcome.{Outcome, done}
use cloud_disk_server.Prelude.Text.{Bytes, codes}
use cloud_disk_server.Redis.Hiredis.{Hiredis, bind_done, lift, minus_one}
use cloud_disk_server.Redis.Hash.{rop_hash_get}
use cloud_disk_server.Redis.Connect.{rop_connectdb_nopwd, rop_disconnect}
use cloud_disk_server.Redis.HashStore.{HashStore}
use cloud_disk_server.Redis.HashTrip.{read_back, HasRoom, rop_hash_get-held}
use cloud_disk_server.Util.Names.{fitted, fitted_lem}
use cloud_disk_server.Config.Read.{Source, cfg_path, get_cfg_value, get_cfg_value-Holds, Holds}
use cloud_disk_server.Config.Verify.{or_empty, read_user, verify_token}

module _ (h : Hiredis) (src : Source) (c : h.Context) (st : HashStore h c) where
  open h use {Context, Server, free}
  open st use {field_at}

  abbrev pub user_key : Bytes → Bytes
  user_key token = codes "token_" ++ token

  read_user_lem :
      (key user_id : Bytes) (s : Server)
      → HasRoom user_id (field_at s key (codes "userId"))
      → read_user h src key user_id (some c) s
        ≡ done (read_back (field_at s key (codes "userId")) user_id, free c s)
  unfolding read_user rop_disconnect
  read_user_lem key user_id s room =
      bind_done (rop_hash_get h (some c) key (codes "userId") user_id) _
        (rop_hash_get-held h c st key (codes "userId") _ user_id s refl room)

  module _ (token user_id ip port : Bytes) (s s' : Server)
      (held_ip : Holds src (codes "redis") (codes "ip") ip)
      (held_port : Holds src (codes "redis") (codes "port") port) (ip_fits : length ip < 30)
      (port_fits : length port < 10) (token_fits : length token < 122) where
    -- Behind the connection, whatever came of it.
    verify_token_connected :
        (conn : Option Context)
        → rop_connectdb_nopwd h ip port s ≡ done (conn, s')
        → verify_token h src token user_id s ≡ read_user h src (user_key token) user_id conn s'
    unfolding verify_token or_empty
    verify_token_connected conn made =
        bind_done (lift (fitted 128 (user_key token))) _
          (ap (λ (o : Outcome Bytes). lift o s) (fitted_lem 128 (user_key token) (omega arith)))
        ∙ bind_done (lift (or_empty (get_cfg_value src 30 cfg_path (codes "redis") (codes "ip")))) _
            (ap (λ o. lift (or_empty o) s)
              (get_cfg_value-Holds src 30 (codes "redis") (codes "ip") ip held_ip ip_fits))
        ∙ bind_done (lift (or_empty (get_cfg_value src 10 cfg_path (codes "redis") (codes "port"))))
            _
            (ap (λ o. lift (or_empty o) s)
              (get_cfg_value-Holds src 10 (codes "redis") (codes "port") port held_port port_fits))
        ∙ bind_done (rop_connectdb_nopwd h ip port) _ made

    -- If the configuration has an address and a port of Redis that fit their arrays, a connection
    -- to them is made and the token has less than 122 bytes: on a server that answers HGET as
    -- documented, `verify_token` returns 0 and the field `userId` of the table of the token, if
    -- that is a string of at most 1024 bytes which the caller's array has room for with its NUL,
    -- and -1 with the array as it was if there is none; and the connection is freed.
    pub verify_token-read_back :
        rop_connectdb_nopwd h ip port s ≡ done (some c, s')
        → HasRoom user_id (field_at s' (user_key token) (codes "userId"))
        → verify_token h src token user_id s
          ≡ done (read_back (field_at s' (user_key token) (codes "userId")) user_id, free c s')
    verify_token-read_back made room =
        verify_token_connected (some c) made ∙ read_user_lem (user_key token) user_id s' room

    pub verify_token_unconnected :
        rop_connectdb_nopwd h ip port s ≡ done (none, s')
        → verify_token h src token user_id s ≡ done ((minus_one, user_id), s')
    unfolding read_user
    verify_token_unconnected made = verify_token_connected none made
