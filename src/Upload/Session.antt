-- ===== src/Upload/Session.antt =====
-- From the login of src_cgi/login_cgi.c to an upload by src_cgi/upload_cgi.c with the token that it
-- gave.
use cloud_disk_server.Prelude.{
  ◌<◌, ◌≤◌, ◌≡◌, refl, true, false, Option, some, List, ◌∷◌, ◌++◌, length, if◌then◌else◌,
}
use cloud_disk_server.Prelude.Int.{pos, eqb_ℤ}
use cloud_disk_server.Prelude.Outcome.{done}
use cloud_disk_server.Prelude.Text.{Bytes, codes, eqb, atoi}
use cloud_disk_server.Prelude.Buffer.{IsString}
use cloud_disk_server.Redis.Hiredis.{Hiredis, minus_one}
use cloud_disk_server.Redis.Store.{Store}
use cloud_disk_server.Md5.Context.{hex, md5_to_hex_string}
use cloud_disk_server.Md5.Spec.{md5}
use cloud_disk_server.Cgi.Mysql.{Mysql, QueryResult}
use cloud_disk_server.Cgi.Login.{Request, Ambient, login, login_query, json, success}
use cloud_disk_server.Cgi.LoginTrip.{login-check_user}
use cloud_disk_server.Util.Names.{get_extension}
use cloud_disk_server.Upload.Body.{body_size}
use cloud_disk_server.Upload.Form.{Form, IsForm, body_of}
use cloud_disk_server.Upload.Store.{System, upload_done, child_text}
use cloud_disk_server.Upload.Handler.{request_length, upload}
use cloud_disk_server.Upload.Stored.{both_rows, upload_form}
use cloud_disk_server.Upload.Disk.{Files, left, left_info_sql, left_user_sql, save_file-left}

module _ (h : Hiredis) (c : h.Context) (st : Store h c) (m : Mysql) (sys : System)
    (files : Files sys) where
  open h use {Server}
  open m use {Database, query}
  open sys use {Disk, fdfs}
  open files use {file_at}

  -- A user logs in, and uploads a file with the token of the answer: the file is stored under the
  -- number that the login found, with the digest of what then stands in the file on the disk. The
  -- server answers SET, GET and EXPIRE as documented, and the disk is one of files that may be read
  -- and written. The conditions on the login, on the body of the upload, and on the child, the
  -- suffix, the database and the statements are those of the two handlers; the number is not -1.
  pub login-upload :
      (a : Ambient) (username password uid : Bytes) (fields_left : List (Option Bytes))
      (rows_left : List (List (Option Bytes))) (db db' : Database) (s : Server) (stack : Bytes)
      (f : Form) (content_length : Option Bytes) (file_id suffix : Bytes) (disk : Disk)
      → query (login_query username (md5_to_hex_string a.stack password)) db
        ≡ (QueryResult.rows ((some uid ∷ fields_left) ∷ rows_left), db')
      → length username < 900
      → 0 < length uid
      → length uid < 512
      → IsString uid
      → eqb_ℤ (atoi uid) minus_one ≡ false
      → IsForm f
      → request_length content_length ≡ pos (length (body_of f))
      → length (body_of f) ≤ body_size
      → length stack ≡ 64
      → 0 < length (f.content)
      → 0 < length file_id
      → get_extension 513 (f.name) ≡ done suffix
      → length (left_info_sql m sys files stack f (atoi uid) file_id suffix db' disk) < 1024
      → length (left_user_sql m sys files stack f (atoi uid) file_id suffix db' disk) < 1024
      → (query (left_info_sql m sys files stack f (atoi uid) file_id suffix db' disk) db').0
        ≡ QueryResult.no_result
      → (query
          (left_user_sql m sys files stack f (atoi uid) file_id suffix db' disk)
          (query (left_info_sql m sys files stack f (atoi uid) file_id suffix db' disk) db').1).0
        ≡ QueryResult.no_result
      → length (codes "/tmp/" ++ f.name) < 1024
      → ((d : Disk) → child_text (fdfs (codes "/tmp/" ++ f.name) d) ≡ done file_id)
      → (t : Bytes) × (s' : Server) × (end : Disk) × (login h m
            (some c)
            a
            (Request.fields (some username) (some password))
            db
            s
          ≡ done ((json success (codes "token") t, db'), s'))
        × (upload h m sys
              (some c)
              true
              stack
              (record { token = some t; content_length = content_length; input = body_of f })
              (record { server = s'; database = db'; disk = disk })
            ≡ done (
              json success (codes "msg") upload_done,
              record {
                server = s';
                database =
                    both_rows m
                      (atoi uid)
                      (f.name)
                      file_id
                      (hex (md5 (left m sys files stack f (atoi uid) file_id suffix db' disk)))
                      (length (f.content))
                      suffix
                      db';
                disk = end;
              },
            ))
        × ((q : Bytes)
            → file_at end q ≡ (
                if eqb (codes "/tmp/" ++ f.name) q
                then some (left m sys files stack f (atoi uid) file_id suffix db' disk)
                else file_at disk q))
  login-upload a username password uid fields_left rows_left db db' s stack f content_length file_id
        suffix disk found short nonempty fits string known form size body_fits stack_size
        content_some id_some suffix_of fits_info fits_user ok_info ok_user path_fits id_of =
      let (t, s', logged, size_t, checked) =
        login-check_user h c st m a username password uid fields_left rows_left db db' s found short
          nonempty fits string in
      let (end, saved, behind) =
        save_file-left m sys files stack f (atoi uid) file_id suffix db' disk stack_size
          content_some id_some suffix_of fits_info fits_user ok_info ok_user path_fits id_of in
      (
        t,
        s',
        end,
        logged,
        upload_form h m sys (some c) stack f (atoi uid)
            (record { token = some t; content_length = content_length; input = body_of f })
            (record { server = s'; database = db'; disk = disk }) s'
            (json success (codes "msg") upload_done)
            (both_rows m (atoi uid) (f.name) file_id
              (hex (md5 (left m sys files stack f (atoi uid) file_id suffix db' disk)))
              (length (f.content)) suffix db')
            end form checked known size refl body_fits saved,
        behind,
      )
