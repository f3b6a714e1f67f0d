-- ===== src/MyFiles.antt =====
-- src_cgi/myfiles_cgi.c: the list of the files of a user.
pub mod Listed
mod Runs
use cloud_disk_server.Prelude.{
  Bool, true, false, List, [], ◌∷◌, ◌++◌, Option, none, some, ltb, if◌then◌else◌,
}
use cloud_disk_server.Prelude.Int.{ℤ}
use cloud_disk_server.Prelude.Decimal.{decimal}
use cloud_disk_server.Prelude.Outcome.{Outcome, done, fault, deref, ◌>>=◌}
use cloud_disk_server.Prelude.Text.{Bytes, codes, eqb}
use cloud_disk_server.Redis.Hiredis.{Hiredis}
use cloud_disk_server.Cgi.Mysql.{Mysql, QueryResult}
use cloud_disk_server.Cgi.Token.{check_user}

unfoldable pub list_sql : ℤ → Bytes
list_sql uid =
    codes
      "        SELECT            id,            uid,            user_file_list.file_id,            filename,            user_file_list.createtime,            shared_status,            pv,            md5,            size,            type,            count        FROM            user_file_list        LEFT JOIN file_info ON file_info.file_id = user_file_list.file_id        WHERE            uid = "
    ++ (decimal uid ++ codes "        ")

-- The loop over the columns of a row: the fields of its object, by the names of the columns. A
-- field that is NULL is copied as a string.
unfoldable pub row_object : List Bytes → List (Option Bytes) → Outcome (List (Bytes × Bytes))
row_object [] row = done []
row_object (name ∷ names) [] = fault
row_object (name ∷ names) (none ∷ row) = fault
row_object (name ∷ names) (some text ∷ row) = do
  rest ← row_object names row
  done ((name, text) ∷ rest)

-- The loop over the rows: the objects of the array.
unfoldable pub row_objects :
    List Bytes → List (List (Option Bytes)) → Outcome (List (List (Bytes × Bytes)))
row_objects names [] = done []
row_objects names (row ∷ rows) = do
  object ← row_object names row
  rest ← row_objects names rows
  done (object ∷ rest)

-- A set of results that is NULL is read.
unfoldable pub result_objects : List Bytes → QueryResult → Outcome (List (List (Bytes × Bytes)))
result_objects names QueryResult.failed = fault
result_objects names QueryResult.no_result = fault
result_objects names (QueryResult.rows rows) = row_objects names rows

module _ (m : Mysql) where
  open m use {Database, query}

  -- The array that is printed. `names` are the columns of the result.
  unfoldable pub get_file_list :
      List Bytes → ℤ → Database → Outcome (List (List (Bytes × Bytes)) × Database)
  get_file_list names uid db = do
    objects ← result_objects names (query (list_sql uid) db).0
    done (objects, (query (list_sql uid) db).1)

-- What was read: no bytes announced; a text that is no JSON; or the field `action` as cJSON prints
-- it, which is NULL for `none`.
pub data Received : Type 0 where
  empty_body unparsed : Received
  action : Option Bytes → Received

module _ (h : Hiredis) (m : Mysql) where
  open h use {Context, Server}
  open m use {Database}

  -- What is printed is `none` if nothing is. The number that `check_user` gave is not looked at.
  unfoldable pub list_action :
      List Bytes
      → ℤ
      → Received
      → Database
      → Outcome (Option (List (List (Bytes × Bytes))) × Database)
  list_action names uid Received.empty_body db = done (none, db)
  list_action names uid Received.unparsed db = fault
  list_action names uid (Received.action none) db = fault
  list_action names uid (Received.action (some text)) db =
      let listed = (do list ← get_file_list m names uid db; done (some list.0, list.1)) in
      if eqb text (34 ∷ (codes "get_list" ++ (34 ∷ []))) then listed else done (none, db)

  -- One round of the loop over the requests, for a body that can be read.
  unfoldable pub my_files :
      Option Context
      → List Bytes
      → Option Bytes
      → Received
      → Server × Database
      → Outcome (Option (List (List (Bytes × Bytes))) × (Server × Database))
  my_files redis_conn names token received w = do
    user ← check_user h redis_conn token w.0
    list ← list_action names user.0 received w.1
    done (list.0, (user.1, list.1))
