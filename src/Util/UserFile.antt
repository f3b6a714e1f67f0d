-- ===== src/Util/UserFile.antt =====
-- `insert_user_file_list_table` of common/util_cgi.c.
use cloud_disk_server.Prelude.{Bool, ltb, if◌then◌else◌, length, ◌++◌}
use cloud_disk_server.Prelude.Int.{ℤ}
use cloud_disk_server.Prelude.Decimal.{decimal}
use cloud_disk_server.Prelude.Outcome.{Outcome, fault}
use cloud_disk_server.Prelude.Text.{Bytes, codes}
use cloud_disk_server.Cgi.Mysql.{Mysql, execute}

unfoldable pub user_file_sql : ℤ → Bytes → Bytes → Bytes
user_file_sql uid file_md5 filename =
    codes "INSERT INTO user_file_list VALUES(NULL,"
    ++ (decimal uid
        ++ (codes ",(SELECT file_info.file_id FROM file_info where md5='"
            ++ (file_md5 ++ (codes "' limit 1),'" ++ (filename ++ codes "',NOW(),0,0)")))))

module _ (m : Mysql) where
  open m use {Database}

  -- The statement is written into an array of 1024 bytes. `connected` tells whether `mysql_conn` is
  -- not NULL.
  unfoldable pub insert_user_file_list_table :
      Bool → ℤ → Bytes → Bytes → Database → Outcome (ℤ × Database)
  insert_user_file_list_table connected uid file_md5 filename db =
      let sql = user_file_sql uid file_md5 filename in
      let answer = execute m connected sql db in if ltb (length sql) 1024 then answer else fault
