-- ===== src/Upload/Handler.antt =====
-- The handling of one request by src_cgi/upload_cgi.c.
use cloud_disk_server.Prelude.{Bool, Option, none, some, [], ◌∷◌, ltb, if◌then◌else◌, length, take}
use cloud_disk_server.Prelude.Int.{ℤ, pos, pos_part, eqb_ℤ}
use cloud_disk_server.Prelude.Outcome.{Outcome, done, fault, ◌>>=◌}
use cloud_disk_server.Prelude.Text.{Bytes, codes, atoi}
use cloud_disk_server.Redis.Hiredis.{Hiredis, minus_one}
use cloud_disk_server.Cgi.Mysql.{Mysql}
use cloud_disk_server.Cgi.Token.{check_user}
use cloud_disk_server.Cgi.Login.{Response, json, error}
use cloud_disk_server.Upload.Body.{body_size, parse_body}
use cloud_disk_server.Upload.Store.{System, save_file}

-- What a request brings: `getenv` of HTTP_TOKEN and CONTENT_LENGTH, and the bytes that `getchar`
-- gives before it fails.
pub record Request : Type 0 where
  pub token : Option Bytes
  pub content_length : Option Bytes
  pub input : Bytes

-- "not permitted, log in first".
abbrev pub not_permitted : Bytes
not_permitted =
    0xE6 ∷ 0x9D ∷ 0x83 ∷ 0xE9 ∷ 0x99 ∷ 0x90 ∷ 0xE4 ∷ 0xB8 ∷ 0x8D ∷ 0xE8 ∷ 0xB6 ∷ 0xB3 ∷ 0x2C ∷ 0xE6
    ∷ 0x8B ∷ 0x92 ∷ 0xE7 ∷ 0xBB ∷ 0x9D ∷ 0xE8 ∷ 0xAE ∷ 0xBF ∷ 0xE9 ∷ 0x97 ∷ 0xAE ∷ 0x2E ∷ 0xE8
    ∷ 0xAF ∷ 0xB7 ∷ 0xE6 ∷ 0x82 ∷ 0xA8 ∷ 0xE5 ∷ 0x85 ∷ 0x88 ∷ 0xE7 ∷ 0x99 ∷ 0xBB ∷ 0xE5 ∷ 0xBD
    ∷ 0x95 ∷ 0xE5 ∷ 0x90 ∷ 0x8E ∷ 0xE5 ∷ 0x86 ∷ 0x8D ∷ 0xE8 ∷ 0xAE ∷ 0xBF ∷ 0xE9 ∷ 0x97 ∷ 0xAE
    ∷ 0x21 ∷ []

-- `len`: `strtol`, as an `int`.
unfoldable pub request_length : Option Bytes → ℤ
request_length none = pos 0
request_length (some text) = atoi text

-- The bytes that the loop reads.
unfoldable pub read_body : Request → Bytes
read_body r = take (pos_part (request_length (r.content_length))) (r.input)

pub record World (Server Database Disk : Type 0) : Type 0 where
  pub server : Server
  pub database : Database
  pub disk : Disk

module _ (h : Hiredis) (m : Mysql) (sys : System) where
  open h use {Context, Server}
  open m use {Database}
  open sys use {Disk}

  -- Behind the check of the user; a body that does not fit `buf` is written beyond it.
  unfoldable pub take_upload :
      Bool
      → Bytes
      → Request
      → ℤ
      → World Server Database Disk
      → Outcome (Response × World Server Database Disk)
  take_upload connected stack r uid w =
      let saved = (do
        parsed ← parse_body (read_body r) (pos_part (request_length (r.content_length)))
        end ← save_file m sys connected stack uid parsed.0 parsed.1 (w.database) (w.disk)
        done (end.0, record { server = w.server; database = end.1.0; disk = end.1.1 })) in
      if ltb body_size (length (read_body r)) then fault else saved

  unfoldable pub judged_upload :
      Bool
      → Bytes
      → Request
      → ℤ
      → World Server Database Disk
      → Outcome (Response × World Server Database Disk)
  judged_upload connected stack r uid w =
      let taken = take_upload connected stack r uid w in
      if eqb_ℤ uid minus_one then done (json error (codes "msg") not_permitted, w) else taken

  -- One round of the loop over the requests. `connected` tells whether `mysql_conn` is not NULL,
  -- `stack` is what lies under the digest's buffer, and the blocks that `malloc` is asked for at
  -- the start are there.
  unfoldable pub upload :
      Option Context
      → Bool
      → Bytes
      → Request
      → World Server Database Disk
      → Outcome (Response × World Server Database Disk)
  upload redis_conn connected stack r w = do
    user ← check_user h redis_conn (r.token) (w.server)
    judged_upload connected stack r user.0
        (record { server = user.1; database = w.database; disk = w.disk })
