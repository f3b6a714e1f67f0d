-- ===== src/Md5Cgi/Shared.antt =====
-- A file that the server has, given to another user by src_cgi/md5_cgi.c.
use cloud_disk_server.Prelude.{
  ℕ, ◌≤◌, ◌<◌, ◌≡◌, refl, ap, ◌∙◌, arith, true, false, Option, some, List, ◌∷◌, ◌++◌, length, drop,
  lt→ltb,
}
use cloud_disk_server.Prelude.Int.{ℤ, pos, eqb_ℤ, ltb_ℤ}
use cloud_disk_server.Prelude.Outcome.{done}
use cloud_disk_server.Prelude.Text.{Bytes, codes, atoi}
use cloud_disk_server.Prelude.Buffer.{c_str, IsString, c_str-append-nul}
use cloud_disk_server.Redis.Hiredis.{Hiredis, minus_one}
use cloud_disk_server.Cgi.Mysql.{
  Mysql, QueryResult, process_result_one, first_field, execute, executed,
}
use cloud_disk_server.Cgi.Token.{check_user}
use cloud_disk_server.Cgi.Login.{Request, json, success}
use cloud_disk_server.Util.UserFile.{user_file_sql, insert_user_file_list_table}
use cloud_disk_server.Md5Cgi.Blocks.{clear, unquote}
use cloud_disk_server.Md5Cgi.Clean.{IsClean, unquote_digest, length-clear}
use cloud_disk_server.Md5Cgi.Stale.{
  quoted, inside-quoted, unquote-quoted, behind_clear, length-quoted,
}
use cloud_disk_server.Md5Cgi.Handler.{
  Received, Process, exists_sql, result_number, instant_done, check_file_exists, share_file,
  found_file, answer_request, take_request, judged_request, handle,
}

-- A name in a block that has a NUL behind the bytes that are written.
name_lem :
    (n : ℕ) (block name more : Bytes)
    → n ≤ length name
    → length name ≤ length block
    → IsString name
    → drop (length name) block ≡ 0 ∷ more
    → (b : Bytes) × (unquote (clear n block) (quoted name) ≡ done b) × (c_str b ≡ some name)
name_lem n block name more small fits string nul = (
  name ++ drop (length name) (clear n block),
  unquote-quoted (clear n block) name (omega (arith, length-clear n block (omega arith))),
  ap (λ (t : Bytes). c_str (name ++ t)) (behind_clear n (length name) block small ∙ nul)
      ∙ c_str-append-nul name more string,
)

module _ (m : Mysql) where
  open m use {Database, query}

  abbrev pub asked_db : Bytes → Database → Database
  asked_db digest db = (query (exists_sql (quoted digest)) db).1

  insert_lem :
      (uid : ℤ) (digest name : Bytes) (db : Database)
      → length (user_file_sql uid digest name) < 1024
      → (query (user_file_sql uid digest name) db).0 ≡ QueryResult.no_result
      → insert_user_file_list_table m true uid digest name db
        ≡ done (pos 1, (query (user_file_sql uid digest name) db).1)
  unfolding insert_user_file_list_table execute executed
  insert_lem uid digest name db fits e = rw (lt→ltb _ _ fits, e) refl

  check_file_exists_lem :
      (digest field : Bytes) (fields_left : List (Option Bytes))
      (rows_left : List (List (Option Bytes))) (db : Database)
      → length (exists_sql (quoted digest)) < 1024
      → length field < 1024
      → (query (exists_sql (quoted digest)) db).0
        ≡ QueryResult.rows ((some field ∷ fields_left) ∷ rows_left)
      → check_file_exists m (quoted digest) db ≡ done (atoi field, asked_db digest db)
  unfolding check_file_exists process_result_one first_field result_number
  check_file_exists_lem digest field fields_left rows_left db fits small e =
      rw (e, lt→ltb _ _ fits, lt→ltb _ _ small) refl

  share_file_lem :
      (uid : ℤ) (digest name file_md5 filename md5_block name_block : Bytes) (db : Database)
      → unquote file_md5 (quoted digest) ≡ done md5_block
      → c_str md5_block ≡ some digest
      → unquote filename (quoted name) ≡ done name_block
      → c_str name_block ≡ some name
      → length (user_file_sql uid digest name) < 1024
      → (query (user_file_sql uid digest name) db).0 ≡ QueryResult.no_result
      → share_file m true uid (quoted digest) (quoted name) file_md5 filename db
        ≡ done (
          json success (codes "msg") instant_done,
          ((query (user_file_sql uid digest name) db).1, (md5_block, name_block)),
        )
  unfolding share_file
  share_file_lem uid digest name file_md5 filename md5_block name_block db a b c d fits e =
      rw (a, c) (rw (b, d) (rw (insert_lem uid digest name db fits e) refl))

-- What `quoted` puts around a digest is taken off again.
digest_lem :
    (n : ℕ) (block digest : Bytes)
    → n ≤ 32
    → IsClean block
    → length digest ≡ 32
    → IsString digest
    → (b : Bytes) × (unquote (clear n block) (quoted digest) ≡ done b) × (c_str b ≡ some digest)
digest_lem n block digest small clean size string =
    let (b, taken, clean_b, read) =
      unquote_digest n block (quoted digest) small clean (omega (arith, length-quoted digest, size))
        (rw (inside-quoted digest) string) in
    (b, taken, read ∙ ap some (inside-quoted digest))

module _ (h : Hiredis) (m : Mysql) (redis_conn : Option (h.Context)) (n : ℕ) where
  open h use {Server}
  open m use {Database, query}

  -- A user with a session asks for a file by a digest of 32 bytes without a NUL, which the query
  -- finds a user for: the answer is success, the database has taken the query and then the row of
  -- the user with exactly that digest and that name, and the program goes on. The conditions: the
  -- block of the digest has 512 bytes with zeros behind its first 32, the name has no NUL, is at
  -- least as long as a pointer of at most 32 bytes, and fits a block that has a NUL behind as many
  -- bytes, the first field of the query is a text below 1024 bytes of a number above 0, the
  -- statements are below 1024 bytes, and the database reports no error.
  pub handle_shared :
      (token : Option Bytes) (p : Process Server Database) (server : Server) (uid : ℤ)
      (digest name more field : Bytes) (fields_left : List (Option Bytes))
      (rows_left : List (List (Option Bytes)))
      → check_user h redis_conn token (p.server) ≡ done (uid, server)
      → eqb_ℤ uid minus_one ≡ false
      → n ≤ 32
      → IsClean (p.file_md5)
      → length digest ≡ 32
      → IsString digest
      → n ≤ length name
      → length name ≤ length (p.filename)
      → IsString name
      → drop (length name) (p.filename) ≡ 0 ∷ more
      → length (exists_sql (quoted digest)) < 1024
      → length field < 1024
      → ltb_ℤ (pos 0) (atoi field) ≡ true
      → (query (exists_sql (quoted digest)) (p.database)).0
        ≡ QueryResult.rows ((some field ∷ fields_left) ∷ rows_left)
      → length (user_file_sql uid digest name) < 1024
      → (query (user_file_sql uid digest name) (asked_db m digest (p.database))).0
        ≡ QueryResult.no_result
      → (q : Process Server Database) × (handle h m redis_conn true n
            (record {
              token = token;
              received = Received.body (Request.fields (some (quoted name)) (some (quoted digest)));
            })
            p
          ≡ done (json success (codes "msg") instant_done, (true, q)))
        × (q.database ≡ (query (user_file_sql uid digest name) (asked_db m digest (p.database))).1)
  unfolding handle judged_request take_request answer_request found_file
  handle_shared token p server uid digest name more field fields_left rows_left user known small
        clean size string long fits name_string nul fits_query small_field above rows fits_row
        no_error =
      let (b, taken_b, read_b) = digest_lem n (p.file_md5) digest small clean size string in
      let (c, taken_c, read_c) = name_lem n (p.filename) name more long fits name_string nul in
      (
        record {
          server = server;
          database = (query (user_file_sql uid digest name) (asked_db m digest (p.database))).1;
          file_md5 = b;
          filename = c;
        },
        rw
            (
              user,
              known,
              check_file_exists_lem m digest field fields_left rows_left (p.database) fits_query
                  small_field rows,
              above,
            )
            (rw
              (share_file_lem m uid digest name _ _ b c (asked_db m digest (p.database)) taken_b
                read_b taken_c read_c fits_row no_error)
              refl),
        refl,
      )
