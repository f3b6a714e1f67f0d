-- ===== src/Upload/DiskRuns.antt =====
-- An upload over a longer file of the same name.
use cloud_disk_server.Prelude.{
  ◌≡◌, ◌<◌, refl, arith, true, none, some, length, replicate, if◌then◌else◌,
}
use cloud_disk_server.Prelude.Int.{pos}
use cloud_disk_server.Prelude.Decimal.{decimal, decimal_digits}
use cloud_disk_server.Prelude.Outcome.{done}
use cloud_disk_server.Prelude.Text.{Bytes, codes, eqb}
use cloud_disk_server.Md5.Context.{hex}
use cloud_disk_server.Md5.Spec.{md5}
use cloud_disk_server.Cgi.Login.{json, success}
use cloud_disk_server.Util.UserFile.{user_file_sql}
use cloud_disk_server.Upload.Store.{upload_done, file_info_sql, save_file}
use cloud_disk_server.Upload.Stored.{both_rows}
use cloud_disk_server.Upload.Disk.{save_file-left}
use cloud_disk_server.Upload.DiskMemory.{Contents, memory_disk, memory_files}
use cloud_disk_server.Upload.Session.{login-upload}
use cloud_disk_server.Prelude.{ℕ, suc, ap, get_or, ◌==◌, [], ◌∷◌}
use cloud_disk_server.Prelude.Text.{atoi, signed, digits, skip_space}
use cloud_disk_server.Redis.Memory.{Strings, memory, memory_store, nothing}
use cloud_disk_server.Cgi.Mysql.{Mysql, QueryResult}
use cloud_disk_server.Cgi.Login.{Ambient, Request, login, login_query}
use cloud_disk_server.Md5.Context.{md5_to_hex_string}
use cloud_disk_server.Upload.Form.{body_of}
use cloud_disk_server.Upload.Handler.{upload}
use cloud_disk_server.Upload.Runs.{
  form-IsForm, length_lem, form, no_rows, suffix_lem, child_text_lem,
}

-- The file of the same name is `old!`.
abbrev old_disk : Contents
old_disk p = if eqb p (codes "/tmp/a.txt") then some (codes "old!") else none

info_fits : length (file_info_sql (codes "M00/1") (hex (md5 (codes "hid!"))) 2 (codes "txt")) < 1024
unfolding file_info_sql decimal decimal_digits hex
info_fits = omega arith

user_fits : length (user_file_sql (pos 7) (hex (md5 (codes "hid!"))) (codes "a.txt")) < 1024
unfolding user_file_sql decimal decimal_digits hex
user_fits = omega arith

save_file-left_example :
    (end : Contents) × (save_file no_rows memory_disk true
        (replicate 64 0)
        (pos 7)
        (codes "a.txt")
        (some (codes "hi"))
        0
        old_disk
      ≡ done (
        json success (codes "msg") upload_done,
        (
          both_rows no_rows
              (pos 7)
              (codes "a.txt")
              (codes "M00/1")
              (hex (md5 (codes "hid!")))
              2
              (codes "txt")
              0,
          end,
        ),
      ))
    × ((q : Bytes)
        → end q ≡ (if eqb (codes "/tmp/a.txt") q then some (codes "hid!") else old_disk q))
unfolding eqb
save_file-left_example =
    save_file-left no_rows memory_disk memory_files (replicate 64 0) form (pos 7) (codes "M00/1")
      (codes "txt") 0 old_disk refl (omega arith) (omega arith) suffix_lem info_fits user_fits refl
      refl (omega arith) (λ d. child_text_lem)

-- A database that finds the user 7 and takes every other statement.
abbrev one_user : Mysql
one_user = record { Database = ℕ; query = answered }
  where
    answered : Bytes → ℕ → QueryResult × ℕ
    answered sql db =
        if get_or sql 0 0 == b's'
        then (QueryResult.rows ((some (codes "7") ∷ []) ∷ []), db)
        else (QueryResult.no_result, suc db)

abbrev counting : Ambient
counting = record {
  rand = λ i. i;
  stack = replicate 64 0;
  token = replicate 513 0;
  pointer_bytes = 8;
}

query_lem :
    one_user.query (login_query (codes "ann") (md5_to_hex_string counting.stack (codes "pw"))) 0
    ≡ (QueryResult.rows ((some (codes "7") ∷ []) ∷ []), 0)
unfolding login_query
query_lem = refl

info_lem :
    (db : ℕ)
    → one_user.query (file_info_sql (codes "M00/1") (hex (md5 (codes "hid!"))) 2 (codes "txt")) db
      ≡ (QueryResult.no_result, suc db)
unfolding file_info_sql
info_lem db = refl

user_lem :
    (db : ℕ)
    → one_user.query (user_file_sql (pos 7) (hex (md5 (codes "hid!"))) (codes "a.txt")) db
      ≡ (QueryResult.no_result, suc db)
unfolding user_file_sql
user_lem db = refl

login-upload_example :
    (t : Bytes) × (s' : Strings) × (end : Contents) × (login memory one_user
        (some tt)
        counting
        (Request.fields (some (codes "ann")) (some (codes "pw")))
        0
        nothing
      ≡ done ((json success (codes "token") t, 0), s'))
    × (upload memory one_user memory_disk
          (some tt)
          true
          (replicate 64 0)
          (record { token = some t; content_length = some (codes "59"); input = body_of form })
          (record { server = s'; database = 0; disk = old_disk })
        ≡ done (
          json success (codes "msg") upload_done,
          record {
            server = s';
            database =
                both_rows one_user
                  (pos 7)
                  (codes "a.txt")
                  (codes "M00/1")
                  (hex (md5 (codes "hid!")))
                  2
                  (codes "txt")
                  0;
            disk = end;
          },
        ))
    × ((q : Bytes)
        → end q ≡ (if eqb (codes "/tmp/a.txt") q then some (codes "hid!") else old_disk q))
unfolding eqb atoi signed digits skip_space
login-upload_example =
    login-upload memory tt memory_store one_user memory_disk memory_files counting (codes "ann")
      (codes "pw") (codes "7") [] [] 0 0 nothing (replicate 64 0) form (some (codes "59"))
      (codes "M00/1") (codes "txt") old_disk query_lem (omega arith) (omega arith) (omega arith)
      (omega arith, tt) refl form-IsForm length_lem (omega arith) refl (omega arith) (omega arith)
      suffix_lem info_fits user_fits (ap (λ r. r.0) (info_lem 0)) (ap (λ r. r.0) (user_lem _))
      (omega arith) (λ d. child_text_lem)
