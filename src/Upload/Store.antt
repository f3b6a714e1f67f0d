-- ===== src/Upload/Store.antt =====
-- src_cgi/upload_cgi.c from the file that was read out of the body on: what is written to the disk
-- and to the database.
use cloud_disk_server.Prelude.{
  ℕ, ◌-◌, Bool, true, false, not, ◌&&◌, ltb, if◌then◌else◌, length, take, replicate,
}
use cloud_disk_server.Prelude.{Option, none, some, List, [], ◌∷◌, ◌++◌}
use cloud_disk_server.Prelude.Int.{ℤ, pos, eqb_ℤ}
use cloud_disk_server.Prelude.Decimal.{decimal}
use cloud_disk_server.Prelude.Outcome.{Outcome, done, fault, deref, ◌>>=◌}
use cloud_disk_server.Prelude.Text.{Bytes, codes}
use cloud_disk_server.Prelude.Buffer.{c_str}
use cloud_disk_server.Redis.Hiredis.{minus_one}
use cloud_disk_server.Cgi.Mysql.{Mysql, execute}
use cloud_disk_server.Cgi.Login.{Response, silent, json, success, error}
use cloud_disk_server.Util.Names.{fitted, get_extension}
use cloud_disk_server.Util.FileMd5.{compute_file_md5}
use cloud_disk_server.Util.UserFile.{insert_user_file_list_table}

-- The calls of the operating system, and `fdfs_upload_file`, over an abstract disk. `exists` is an
-- `access` that returns 0; `open_out` opens a file to write, with O_CREAT if it is told so, and
-- tells whether it could; `write` writes at the start of the file just opened, where `none` is a
-- count below zero, and does not return -1 for `true`; `reads` are the bytes that each `read` gives
-- from the start of a file on, if it can be opened; `fdfs` is what the one `read` from the pipe
-- gives, `none` for -1.
pub record System : Type 1 where
  pub Disk : Type 0
  pub exists : Bytes → Disk → Bool
  pub open_out : Bool → Bytes → Disk → Bool × Disk
  pub write : Bytes → Option Bytes → Disk → Bool × Disk
  pub reads : Bytes → Disk → Option (List (Option Bytes))
  pub fdfs : Bytes → Disk → Option Bytes

-- "the file was stored", "the file could not be stored".
abbrev pub upload_done : Bytes
upload_done =
    0xE6 ∷ 0x96 ∷ 0x87 ∷ 0xE4 ∷ 0xBB ∷ 0xB6 ∷ 0xE4 ∷ 0xB8 ∷ 0x8A ∷ 0xE4 ∷ 0xBC ∷ 0xA0 ∷ 0xE6 ∷ 0x88
    ∷ 0x90 ∷ 0xE5 ∷ 0x8A ∷ 0x9F ∷ 0x21 ∷ []

abbrev pub upload_failed : Bytes
upload_failed =
    0xE6 ∷ 0x96 ∷ 0x87 ∷ 0xE4 ∷ 0xBB ∷ 0xB6 ∷ 0xE4 ∷ 0xB8 ∷ 0x8A ∷ 0xE4 ∷ 0xBC ∷ 0xA0 ∷ 0xE5 ∷ 0xA4
    ∷ 0xB1 ∷ 0xE8 ∷ 0xB4 ∷ 0xA5 ∷ 0x21 ∷ []

-- `file_id`, an array of 1024 zeros into which the output of the child is read.
unfoldable pub child_text : Option Bytes → Outcome Bytes
child_text none = done []
child_text (some output) = deref (c_str (take 1024 output ++ replicate (1024 - length output) 0))

-- `file_md5` begins with zeros.
unfoldable pub digest_text : Option Bytes → Bytes
digest_text none = []
digest_text (some text) = text

unfoldable pub file_info_sql : Bytes → Bytes → ℕ → Bytes → Bytes
file_info_sql file_id file_md5 file_size file_suffix =
    codes "insert into file_info values('"
    ++ (file_id
        ++ (codes "','"
            ++ (file_md5
                ++ (codes "',"
                    ++ (decimal (pos file_size)
                        ++ (codes ",'" ++ (file_suffix ++ codes "',1,NOW())")))))))

module _ (m : Mysql) where
  open m use {Database}

  -- What `execute` returned for the first statement; what the second one returns is dropped.
  unfoldable pub second_row :
      Bool → ℤ → Bytes → Bytes → ℤ → Database → Outcome (Response × Database)
  second_row connected uid file_md5 filename ret db =
      let inserted = insert_user_file_list_table m connected uid file_md5 filename db in
      if eqb_ℤ ret minus_one
      then done (json error (codes "msg") upload_failed, db)
      else (do row ← inserted; done (json success (codes "msg") upload_done, row.1))

  -- The two statements, the first in a block of 1024 bytes.
  unfoldable pub store_rows :
      Bool → ℤ → Bytes → Bytes → Bytes → ℕ → Bytes → Database → Outcome (Response × Database)
  store_rows connected uid filename file_id file_md5 file_size file_suffix db =
      let sql = file_info_sql file_id file_md5 file_size file_suffix in
      let stored = execute m connected sql db in
      if ltb (length sql) 1024
      then (do row ← stored; second_row connected uid file_md5 filename row.0 row.1)
      else fault

  -- The test of the three values.
  unfoldable pub checked_rows :
      Bool → ℤ → Bytes → Bytes → Bytes → ℕ → Bytes → Database → Outcome (Response × Database)
  checked_rows connected uid filename file_id file_md5 file_size file_suffix db =
      let stored = store_rows connected uid filename file_id file_md5 file_size file_suffix db in
      if ltb 0 (length file_id) && ltb 0 (length file_md5) && ltb 0 file_size
      then stored
      else done (silent, db)

-- `file_size`, where a size below zero is taken as 0: both fail the test.
unfoldable pub size_of : Option Bytes → ℕ
size_of none = 0
size_of (some content) = length content

module _ (m : Mysql) (sys : System) where
  open m use {Database}
  open sys use {Disk, exists, open_out, write, reads, fdfs}

  -- Behind a write that did not fail.
  unfoldable pub register :
      Bool
      → Bytes
      → ℤ
      → Bytes
      → Option Bytes
      → Bytes
      → Database
      → Disk
      → Outcome (Response × Database)
  register connected stack uid filename content path db disk = do
    file_id ← child_text (fdfs path disk)
    file_suffix ← get_extension 513 filename
    checked_rows m connected uid filename file_id
        (digest_text (compute_file_md5 stack (reads path disk))) (size_of content) file_suffix db

  unfoldable pub written :
      Bool
      → Bytes
      → ℤ
      → Bytes
      → Option Bytes
      → Bytes
      → Database
      → Bool × Disk
      → Outcome (Response × (Database × Disk))
  written connected stack uid filename content path db (false, disk) = done (silent, (db, disk))
  written connected stack uid filename content path db (true, disk) = do
    stored ← register connected stack uid filename content path db disk
    done (stored.0, (stored.1, disk))

  unfoldable pub opened :
      Bool
      → Bytes
      → ℤ
      → Bytes
      → Option Bytes
      → Bytes
      → Database
      → Bool × Disk
      → Outcome (Response × (Database × Disk))
  opened connected stack uid filename content path db (false, disk) = done (silent, (db, disk))
  opened connected stack uid filename content path db (true, disk) =
      written connected stack uid filename content path db (write path content disk)

  -- From the name and the content on; the path is an array of 1024 bytes.
  unfoldable pub save_file :
      Bool
      → Bytes
      → ℤ
      → Bytes
      → Option Bytes
      → Database
      → Disk
      → Outcome (Response × (Database × Disk))
  save_file connected stack uid filename content db disk = do
    path ← fitted 1024 (codes "/tmp/" ++ filename)
    opened connected stack uid filename content path db
        (open_out (not (exists path disk)) path disk)
