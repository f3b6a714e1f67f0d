-- ===== src/Config/Runs.antt =====
-- The configuration at a concrete file.
use cloud_disk_server.Prelude.{none, if◌then◌else◌, replicate, some, ◌≡◌, refl, arith}
use cloud_disk_server.Prelude.Outcome.{done}
use cloud_disk_server.Prelude.Text.{Bytes, codes, eqb}
use cloud_disk_server.Redis.Connect.{rop_connectdb_nopwd}
use cloud_disk_server.Redis.HashTrip.{read_back}
use cloud_disk_server.Redis.HashMemory.{Tables, tables, tables_store}
use cloud_disk_server.Config.Verify.{verify_token}
use cloud_disk_server.Config.Verified.{verify_token-read_back}
use cloud_disk_server.Config.Read.{Source, Holds}

-- A file whose values are the keys themselves.
abbrev keys : Source
keys = record {
  Node = Bytes;
  file = λ path. some (codes "{}");
  parse = λ text. some text;
  item = λ node key. some key;
  value_string = λ node. some node;
}

-- A server on which the token `ab` is that of the user 7.
abbrev one_token : Tables
one_token k f = if eqb (codes "token_ab") k then some (codes "7") else none

tables_connect :
    rop_connectdb_nopwd tables (codes "ip") (codes "port") one_token ≡ done (some tt, one_token)
unfolding rop_connectdb_nopwd
tables_connect = refl

verify_token-read_back_example :
    verify_token tables keys (codes "ab") (replicate 4 0) one_token
    ≡ done (read_back (some (codes "7")) (replicate 4 0), one_token)
unfolding eqb
verify_token-read_back_example =
    verify_token-read_back tables keys tt tables_store (codes "ab") (replicate 4 0) (codes "ip")
      (codes "port") one_token one_token
      (Holds.held (codes "{}") (codes "{}") (codes "redis") (codes "ip") refl refl refl refl refl)
      (Holds.held (codes "{}") (codes "{}") (codes "redis") (codes "port") refl refl refl refl refl)
      (omega arith) (omega arith) (omega arith) tables_connect (omega arith, omega arith)
