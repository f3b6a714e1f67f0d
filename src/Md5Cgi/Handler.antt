-- ===== src/Md5Cgi/Handler.antt =====
-- The handling of one request by src_cgi/md5_cgi.c.
use cloud_disk_server.Prelude.{Bool, true, false, ℕ, Option, none, some, [], ◌∷◌, ◌++◌}
use cloud_disk_server.Prelude.{ltb, if◌then◌else◌, length}
use cloud_disk_server.Prelude.Int.{ℤ, pos, ltb_ℤ, eqb_ℤ}
use cloud_disk_server.Prelude.Outcome.{Outcome, done, fault, deref, ◌>>=◌}
use cloud_disk_server.Prelude.Text.{Bytes, codes, atoi}
use cloud_disk_server.Prelude.Buffer.{c_str}
use cloud_disk_server.Redis.Hiredis.{Hiredis, minus_one}
use cloud_disk_server.Cgi.Mysql.{Mysql, process_result_one}
use cloud_disk_server.Cgi.Token.{check_user}
use cloud_disk_server.Cgi.Login.{Request, Response, silent, json, success, error}
use cloud_disk_server.Util.UserFile.{insert_user_file_list_table}
use cloud_disk_server.Upload.Handler.{not_permitted}
use cloud_disk_server.Md5Cgi.Blocks.{clear, unquote}

-- The query of `check_file_exists`.
unfoldable pub exists_sql : Bytes → Bytes
exists_sql file_md5 =
    codes
      "SELECT                        uid                    FROM                        user_file_list                    LEFT JOIN file_info ON user_file_list.file_id = file_info.file_id                    WHERE                    file_info.md5 = "
    ++ (file_md5 ++ codes "                    limit 1")

-- `query_result`, an array of 1024 zeros, as it is read behind the query.
unfoldable pub result_number : Option Bytes → Outcome ℤ
result_number none = done (pos 0)
result_number (some field) = if ltb (length field) 1024 then done (atoi field) else fault

-- "the parameters are wrong", "stored at once", "the file cannot be stored at once".
abbrev pub bad_parameters : Bytes
bad_parameters =
    0xE5 ∷ 0x8F ∷ 0x82 ∷ 0xE6 ∷ 0x95 ∷ 0xB0 ∷ 0xE6 ∷ 0x9C ∷ 0x89 ∷ 0xE8 ∷ 0xAF ∷ 0xAF ∷ 0x21 ∷ []

abbrev pub instant_done : Bytes
instant_done =
    0xE7 ∷ 0xA7 ∷ 0x92 ∷ 0xE4 ∷ 0xBC ∷ 0xA0 ∷ 0xE6 ∷ 0x88 ∷ 0x90 ∷ 0xE5 ∷ 0x8A ∷ 0x9F ∷ []

abbrev pub instant_failed : Bytes
instant_failed =
    0xE6 ∷ 0x96 ∷ 0x87 ∷ 0xE4 ∷ 0xBB ∷ 0xB6 ∷ 0xE6 ∷ 0x97 ∷ 0xA0 ∷ 0xE6 ∷ 0xB3 ∷ 0x95 ∷ 0xE7 ∷ 0xA7
    ∷ 0x92 ∷ 0xE4 ∷ 0xBC ∷ 0xA0 ∷ []

-- What was read for a request: no bytes announced; no memory or fewer bytes than announced; or a
-- text, with its fields `filename` and `md5` as cJSON prints them.
pub data Received : Type 0 where
  empty_body : Received
  short_body : Received
  body : Request → Received

pub record Asked : Type 0 where
  pub token : Option Bytes
  pub received : Received

-- The program between two requests. `file_md5` and `filename` are blocks of 512 bytes.
pub record Process (Server Database : Type 0) : Type 0 where
  pub server : Server
  pub database : Database
  pub file_md5 : Bytes
  pub filename : Bytes

module _ (m : Mysql) where
  open m use {Database}

  unfoldable pub check_file_exists : Bytes → Database → Outcome (ℤ × Database)
  check_file_exists file_md5 db =
      let found = process_result_one m (exists_sql file_md5) db in
      let number = result_number found.0.1 in
      if ltb (length (exists_sql file_md5)) 1024
      then (do ret ← number; done (ret, found.1))
      else fault

  -- The branch of a file that is there.
  unfoldable pub share_file :
      Bool
      → ℤ
      → Bytes
      → Bytes
      → Bytes
      → Bytes
      → Database
      → Outcome (Response × (Database × (Bytes × Bytes)))
  share_file connected uid md5 filename_tmp file_md5 filename db = do
    md5_block ← unquote file_md5 md5
    name_block ← unquote filename filename_tmp
    md5_text ← deref (c_str md5_block)
    name_text ← deref (c_str name_block)
    row ← insert_user_file_list_table m connected uid md5_text name_text db
    done (
      if eqb_ℤ row.0 minus_one then silent else json success (codes "msg") instant_done,
      (row.1, (md5_block, name_block)),
    )

  -- Behind the query for the file, with the cleared blocks.
  unfoldable pub found_file :
      Bool
      → ℤ
      → Bytes
      → Bytes
      → Bytes
      → Bytes
      → ℤ
      → Database
      → Outcome (Response × (Database × (Bytes × Bytes)))
  found_file connected uid md5 filename_tmp file_md5 filename ret db =
      let shared = share_file connected uid md5 filename_tmp file_md5 filename db in
      if ltb_ℤ (pos 0) ret
      then shared
      else done (json error (codes "msg") instant_failed, (db, (file_md5, filename)))

  unfoldable pub answer_request :
      Bool
      → ℤ
      → Request
      → Bytes
      → Bytes
      → Database
      → Outcome (Response × (Database × (Bytes × Bytes)))
  answer_request connected uid Request.unparsed file_md5 filename db =
      done (json error (codes "msg") bad_parameters, (db, (file_md5, filename)))
  answer_request connected uid (Request.fields none md5) file_md5 filename db =
      done (json error (codes "msg") bad_parameters, (db, (file_md5, filename)))
  answer_request connected uid (Request.fields (some filename_tmp) none) file_md5 filename db =
      done (json error (codes "msg") bad_parameters, (db, (file_md5, filename)))
  answer_request connected uid (Request.fields (some filename_tmp) (some md5)) file_md5 filename
        db =
      do
        found ← check_file_exists md5 db
        found_file connected uid md5 filename_tmp file_md5 filename found.0 found.1

module _ (h : Hiredis) (m : Mysql) (redis_conn : Option (h.Context)) (connected : Bool)
    (pointer_bytes : ℕ) where
  open h use {Server}
  open m use {Database}

  -- Behind the check of the user; the flag tells whether the program goes on.
  unfoldable pub take_request :
      ℤ → Received → Process Server Database → Outcome (Response × (Bool × Process Server Database))
  take_request uid Received.empty_body p = done (silent, (true, p))
  take_request uid Received.short_body p = done (silent, (false, p))
  take_request uid (Received.body request) p = do
    end ←
        answer_request m connected uid request (clear pointer_bytes (p.file_md5))
          (clear pointer_bytes (p.filename)) (p.database)
    done (
      end.0,
      (
        true,
        record {
          server = p.server;
          database = end.1.0;
          file_md5 = end.1.1.0;
          filename = end.1.1.1;
        },
      ),
    )

  unfoldable pub judged_request :
      ℤ → Received → Process Server Database → Outcome (Response × (Bool × Process Server Database))
  judged_request uid received p =
      let taken = take_request uid received p in
      if eqb_ℤ uid minus_one
      then done (json error (codes "msg") not_permitted, (false, p))
      else taken

  -- One round of the loop over the requests; one that is refused leaves the loop.
  unfoldable pub handle :
      Asked → Process Server Database → Outcome (Response × (Bool × Process Server Database))
  handle r p = do
    user ← check_user h redis_conn (r.token) (p.server)
    judged_request user.0 (r.received) (record {
      server = user.1;
      database = p.database;
      file_md5 = p.file_md5;
      filename = p.filename;
    })
