-- ===== src/Config/Start.antt =====
-- `mysql_initialise` and `redis_initialise` of src_cgi/init.c and `msql_conn` of
-- common/deal_mysql.c.
use cloud_disk_server.Prelude.{◌<◌, ◌≡◌, refl, length, Bool, true, false, Option, none, some}
use cloud_disk_server.Prelude.Int.{ℤ, pos}
use cloud_disk_server.Prelude.Outcome.{Outcome, done, fault, deref}
use cloud_disk_server.Prelude.Text.{Bytes, codes}
use cloud_disk_server.Redis.Hiredis.{Hiredis, M, ◌>>=◌, ret, lift, minus_one, bind_done}
use cloud_disk_server.Redis.Connect.{rop_connectdb_nopwd}
use cloud_disk_server.Cgi.Mysql.{Mysql, execute}
use cloud_disk_server.Config.Read.{Source, cfg_path, get_cfg_value, get_cfg_value-Holds, Holds}

-- The calls by which the MySQL client library connects: `mysql_init`, `mysql_real_connect` to the
-- local host, which tells whether it does not return NULL, and `mysql_close`.
pub record Connector : Type 1 where
  pub Handle : Type 0
  pub World : Type 0
  pub mysql_init : World → Option Handle × World
  pub mysql_real_connect : Handle → Bytes → Bytes → Bytes → World → Bool × World
  pub mysql_close : Handle → World → World

module _ (k : Connector) where
  open k use {Handle, World, mysql_init, mysql_real_connect, mysql_close}

  unfoldable pub connected_handle : Handle → Bool × World → Option Handle × World
  connected_handle conn (true, w) = (some conn, w)
  connected_handle conn (false, w) = (none, mysql_close conn w)

  unfoldable pub initialised : Bytes → Bytes → Bytes → Option Handle × World → Option Handle × World
  initialised user_name passwd db_name (none, w) = (none, w)
  initialised user_name passwd db_name (some conn, w) =
      connected_handle conn (mysql_real_connect conn user_name passwd db_name w)

  unfoldable pub msql_conn : Bytes → Bytes → Bytes → World → Option Handle × World
  msql_conn user_name passwd db_name w = initialised user_name passwd db_name (mysql_init w)

-- `mysql_initialise` behind the connection. A failure of the statement is dropped.
module _ (k : Connector) (m : Mysql) where
  open k use {Handle, World}
  open m use {Database}

  unfoldable pub after_names :
      Handle → World → Outcome (ℤ × Database) → Outcome ((ℤ × Option Handle) × (World × Database))
  after_names conn w fault = fault
  after_names conn w (done (ret, db)) = done ((pos 0, some conn), (w, db))

  unfoldable pub named :
      Option Handle → World → Database → Outcome ((ℤ × Option Handle) × (World × Database))
  named none w db = done ((minus_one, none), (w, db))
  named (some conn) w db = after_names conn w (execute m true (codes "set names utf8") db)

  -- What is returned, and the global `mysql_conn`.
  unfoldable pub mysql_initialise :
      World → Database → Outcome ((ℤ × Option Handle) × (World × Database))
  mysql_initialise w db =
      let made = msql_conn k (codes "root") (codes "mhqhdubuntumm") (codes "cloud_disk") w in
      named made.0 made.1 db

module _ (h : Hiredis) (src : Source) where
  open h use {Context, Server}

  -- A string of the configuration in a block of `malloc`, which is read without having been written
  -- if there is none.
  unfoldable pub setting : Bytes → Outcome Bytes
  setting key = elim (get_cfg_value src 128 cfg_path (codes "redis") key) [
    | done (code, value) ↦ deref value
    | fault ↦ fault
  ]

  -- What the program returns for a connection.
  unfoldable pub start_code : Option Context → ℤ
  start_code none = minus_one
  start_code (some c) = pos 1

  -- What is returned, and the global `redis_conn`.
  unfoldable pub redis_initialise : M Server (ℤ × Option Context)
  redis_initialise = do
    ip_str ← lift (setting (codes "ip"))
    port_str ← lift (setting (codes "port"))
    conn ← rop_connectdb_nopwd h ip_str port_str
    ret (start_code conn, conn)

  setting-Holds :
      (key value : Bytes)
      → Holds src (codes "redis") key value
      → length value < 128
      → setting key ≡ done value
  unfolding setting
  setting-Holds key value at fits =
      rw (get_cfg_value-Holds src 128 (codes "redis") key value at fits, setting) refl

  -- If the configuration has an address and a port of Redis, each of less than 128 bytes,
  -- `redis_initialise` does what connecting to them does, keeps the connection, and returns 1 if
  -- there is one and -1 if there is none.
  redis_initialise-Holds :
      (ip port : Bytes) (conn : Option Context) (s s' : Server)
      → Holds src (codes "redis") (codes "ip") ip
      → Holds src (codes "redis") (codes "port") port
      → length ip < 128
      → length port < 128
      → rop_connectdb_nopwd h ip port s ≡ done (conn, s')
      → redis_initialise s ≡ done ((start_code conn, conn), s')
  unfolding redis_initialise
  redis_initialise-Holds ip port conn s s' held_ip held_port fits_ip fits_port made =
      rw
        (
          setting-Holds (codes "ip") ip held_ip fits_ip,
          setting-Holds (codes "port") port held_port fits_port,
        )
        (bind_done (rop_connectdb_nopwd h ip port) (λ c. ret (start_code c, c)) made)
