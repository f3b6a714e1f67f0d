-- ===== src/Upload/Stored.antt =====
-- What a whole upload leaves, from the request to the rows.
use cloud_disk_server.Prelude.{
  ℕ, ◌≤◌, ◌<◌, ◌≡◌, refl, arith, true, false, not, Option, some, List, [], ◌∷◌, ◌++◌, map, length,
  All, ltb, lt→ltb, take_all,
}
use native.Mathlib.Nat.{le_refl}
use cloud_disk_server.Prelude.Int.{ℤ, pos, eqb_ℤ}
use cloud_disk_server.Prelude.Outcome.{done}
use cloud_disk_server.Prelude.Text.{Bytes, codes}
use cloud_disk_server.Redis.Hiredis.{Hiredis, minus_one}
use cloud_disk_server.Md5.Context.{hex}
use cloud_disk_server.Md5.Spec.{joined, md5}
use cloud_disk_server.Cgi.Mysql.{Mysql, QueryResult, execute, executed}
use cloud_disk_server.Cgi.Token.{check_user}
use cloud_disk_server.Cgi.Login.{Response, json, success}
use cloud_disk_server.Util.Names.{get_extension, fitted_lem}
use cloud_disk_server.Util.FileMd5.{IsBlock, compute_file_md5-md5}
use cloud_disk_server.Util.UserFile.{user_file_sql, insert_user_file_list_table}
use cloud_disk_server.Upload.Body.{body_size}
use cloud_disk_server.Upload.Form.{Form, IsForm, body_of, parse_body_form, length-body_of}
use cloud_disk_server.Upload.Store.{
  System, upload_done, child_text, digest_text, file_info_sql, second_row, store_rows, checked_rows,
  register, written, opened, save_file, size_of,
}
use cloud_disk_server.Upload.Handler.{
  Request, request_length, read_body, World, take_upload, judged_upload, upload,
}

module _ (m : Mysql) where
  open m use {Database, query}

  execute_lem :
      (sql : Bytes) (db : Database)
      → (query sql db).0 ≡ QueryResult.no_result
      → execute m true sql db ≡ done (pos 1, (query sql db).1)
  unfolding execute executed
  execute_lem sql db e = rw e refl

  -- The database behind the two statements.
  abbrev pub both_rows : ℤ → Bytes → Bytes → Bytes → ℕ → Bytes → Database → Database
  both_rows uid filename file_id file_md5 file_size file_suffix db =
      (query (user_file_sql uid file_md5 filename)
        (query (file_info_sql file_id file_md5 file_size file_suffix) db).1).1

  module _ (uid : ℤ) (filename file_id file_md5 : Bytes) (file_size : ℕ) (file_suffix : Bytes)
      (db : Database) where
    abbrev first_sql : Bytes
    first_sql = file_info_sql file_id file_md5 file_size file_suffix

    abbrev second_sql : Bytes
    second_sql = user_file_sql uid file_md5 filename

    store_rows_lem :
        length first_sql < 1024
        → length second_sql < 1024
        → (query first_sql db).0 ≡ QueryResult.no_result
        → (query second_sql (query first_sql db).1).0 ≡ QueryResult.no_result
        → store_rows m true uid filename file_id file_md5 file_size file_suffix db
          ≡ done (
            json success (codes "msg") upload_done,
            both_rows uid filename file_id file_md5 file_size file_suffix db,
          )
    unfolding store_rows second_row insert_user_file_list_table
    store_rows_lem fits_first fits_second no_error_first no_error_second =
        rw
          (
            lt→ltb _ _ fits_first,
            execute_lem first_sql db no_error_first,
            lt→ltb _ _ fits_second,
            execute_lem second_sql _ no_error_second,
          )
          refl

not_beyond : (n : ℕ) → n ≤ body_size → ltb body_size n ≡ false
not_beyond n h = ground (arith, h)

positive : (n : ℕ) → 0 < n → ltb 0 n ≡ true
positive n h = lt→ltb 0 n h

hex_some : (text : Bytes) → 0 < length (hex (md5 text))
unfolding hex
hex_some text = omega arith

-- Behind the check of the user, a well-formed body comes to what `save_file` does with its name and
-- content.
pub upload_form :
    (h : Hiredis) (m : Mysql) (sys : System) (redis_conn : Option (h.Context)) (stack : Bytes)
    (f : Form) (uid : ℤ) (r : Request) (w : World (h.Server) (m.Database) (sys.Disk))
    (server : h.Server) (answer : Response) (db : m.Database) (end : sys.Disk)
    → IsForm f
    → check_user h redis_conn (r.token) (w.server) ≡ done (uid, server)
    → eqb_ℤ uid minus_one ≡ false
    → request_length (r.content_length) ≡ pos (length (body_of f))
    → r.input ≡ body_of f
    → length (body_of f) ≤ body_size
    → save_file m sys true stack uid (f.name) (some (f.content)) (w.database) (w.disk)
      ≡ done (answer, (db, end))
    → upload h m sys redis_conn true stack r w
      ≡ done (answer, record { server = server; database = db; disk = end })
unfolding upload judged_upload take_upload read_body
upload_form h m sys redis_conn stack f uid r w server answer db end form user known size input fits
      saved =
    rw
      (
        user,
        known,
        size,
        input,
        take_all (length (body_of f)) (body_of f) (le_refl _),
        not_beyond (length (body_of f)) fits,
        parse_body_form f form (length (body_of f)) (length-body_of f),
      )
      (rw saved refl)

-- A session, a well-formed body that has all the bytes announced, and a disk and a database that
-- report no error.
module _ (m : Mysql) (sys : System) (stack : Bytes) (f : Form) (uid : ℤ) (blocks : List Bytes)
    (last : Bytes) (more : List (Option Bytes)) (file_id suffix : Bytes) where
  open m use {Database, query}
  open sys use {Disk, exists, open_out, write, reads, fdfs}

  abbrev path : Bytes
  path = codes "/tmp/" ++ f.name

  abbrev digest : Bytes
  digest = hex (md5 (joined (blocks ++ (last ∷ []))))

  abbrev pub stored_rows : Database → Database
  stored_rows = both_rows m uid (f.name) file_id digest (length (f.content)) suffix

  abbrev pub info_sql : Bytes
  info_sql = file_info_sql file_id digest (length (f.content)) suffix

  abbrev pub user_sql : Bytes
  user_sql = user_file_sql uid digest (f.name)

  module _ (db : Database) (stack_size : length stack ≡ 64) (content_some : 0 < length (f.content))
      (id_some : 0 < length file_id) (full : All IsBlock blocks) (short : length last < 1024)
      (suffix_of : get_extension 513 (f.name) ≡ done suffix) (fits_info : length info_sql < 1024)
      (fits_user : length user_sql < 1024)
      (no_error_info : (query info_sql db).0 ≡ QueryResult.no_result)
      (no_error_user : (query user_sql (query info_sql db).1).0 ≡ QueryResult.no_result) where
    checked_rows_lem :
        checked_rows m true uid (f.name) file_id digest (length (f.content)) suffix db
        ≡ done (json success (codes "msg") upload_done, stored_rows db)
    unfolding checked_rows
    checked_rows_lem =
        rw
          (
            positive _ id_some,
            positive _ (hex_some (joined (blocks ++ (last ∷ [])))),
            positive _ content_some,
          )
          (store_rows_lem m uid (f.name) file_id digest (length (f.content)) suffix db fits_info
            fits_user no_error_info no_error_user)

    register_lem :
        (disk : Disk)
        → child_text (fdfs path disk) ≡ done file_id
        → reads path disk ≡ some (map some blocks ++ (some last ∷ more))
        → register m sys true stack uid (f.name) (some (f.content)) path db disk
          ≡ done (json success (codes "msg") upload_done, stored_rows db)
    unfolding register digest_text size_of
    register_lem disk id_of read =
        rw
          (
            id_of,
            suffix_of,
            read,
            compute_file_md5-md5 stack blocks last more stack_size full short,
          )
          checked_rows_lem

    pub save_file_lem :
        (disk opened_disk end : Disk)
        → length path < 1024
        → open_out (not (exists path disk)) path disk ≡ (true, opened_disk)
        → write path (some (f.content)) opened_disk ≡ (true, end)
        → child_text (fdfs path end) ≡ done file_id
        → reads path end ≡ some (map some blocks ++ (some last ∷ more))
        → save_file m sys true stack uid (f.name) (some (f.content)) db disk
          ≡ done (json success (codes "msg") upload_done, (stored_rows db, end))
    unfolding save_file opened written
    save_file_lem disk opened_disk end fits open_ok write_ok id_of read =
        rw (fitted_lem 1024 path fits)
          (rw open_ok (rw write_ok (rw (register_lem end id_of read) refl)))

    -- An upload by a user with a session, of a well-formed body with a file that is not empty: the
    -- answer is success, the disk is the one that the write leaves, and the database has taken the
    -- two statements, which hold the digest of RFC 1321 of what is read back from the file.
    -- Well-formed is what the parser's theorem asks for. The conditions: no call of the system or
    -- of the database fails, the file is read in whole blocks of 1024 bytes and a shorter one, the
    -- child names the stored file, and the body, the path, the suffix and the statements fit their
    -- arrays.
    upload_stored :
        (h : Hiredis) (redis_conn : Option (h.Context)) (r : Request)
        (w : World (h.Server) Database Disk) (server : h.Server) (opened_disk end : Disk)
        → IsForm f
        → check_user h redis_conn (r.token) (w.server) ≡ done (uid, server)
        → eqb_ℤ uid minus_one ≡ false
        → request_length (r.content_length) ≡ pos (length (body_of f))
        → r.input ≡ body_of f
        → length (body_of f) ≤ body_size
        → w.database ≡ db
        → length path < 1024
        → open_out (not (exists path (w.disk))) path (w.disk) ≡ (true, opened_disk)
        → write path (some (f.content)) opened_disk ≡ (true, end)
        → child_text (fdfs path end) ≡ done file_id
        → reads path end ≡ some (map some blocks ++ (some last ∷ more))
        → upload h m sys redis_conn true stack r w
          ≡ done (
            json success (codes "msg") upload_done,
            record { server = server; database = stored_rows db; disk = end },
          )
    upload_stored h redis_conn r w server opened_disk end form user known size input fits same_db
          path_fits open_ok write_ok id_of read =
        upload_form h m sys redis_conn stack f uid r w server
          (json success (codes "msg") upload_done) (stored_rows db) end form user known size input
          fits
          (rw same_db
            (save_file_lem (w.disk) opened_disk end path_fits open_ok write_ok id_of read))
