-- ===== src/Cgi/Mysql.antt =====
-- `process_result_one` and `execute` of common/deal_mysql.c over the MySQL client library as a
-- parameter.
use cloud_disk_server.Prelude.{Bool, true, false, ◌&&◌, ◌==◌, ltb, if◌then◌else◌, length}
use cloud_disk_server.Prelude.{Option, none, List, [], ◌∷◌, ◌++◌}
use cloud_disk_server.Prelude.Outcome.{Outcome, done, fault, ◌>>=◌}
use cloud_disk_server.Prelude.Int.{ℤ, pos}
use cloud_disk_server.Prelude.Text.{Bytes, codes}
use cloud_disk_server.Redis.Hiredis.{minus_one}

-- What `mysql_query` and `mysql_store_result` give: a failure of the first, NULL from the second,
-- or the rows, each a list of fields that may be NULL.
pub data QueryResult : Type 0 where
  failed no_result : QueryResult
  rows : List (List (Option Bytes)) → QueryResult

pub record Mysql : Type 1 where
  pub Database : Type 0
  pub query : Bytes → Database → QueryResult × Database

-- The value returned and the text that is copied to `buf`, which is not NULL for the callers;
-- `none` leaves the buffer. A row has at least one field.
unfoldable pub first_field : QueryResult → ℤ × Option Bytes
first_field QueryResult.failed = (minus_one, none)
first_field QueryResult.no_result = (minus_one, none)
first_field (QueryResult.rows []) = (pos 1, none)
first_field (QueryResult.rows ([] ∷ rest)) = (pos 0, none)
first_field (QueryResult.rows ((field ∷ fields) ∷ rest)) = (pos 0, field)

-- A format that prints as it stands, without an argument.
unfoldable pub no_conversion : Bytes → Bool
no_conversion [] = true
no_conversion (c ∷ []) = if c == b'%' then false else true
no_conversion (c ∷ d ∷ cs) =
    let behind = no_conversion cs in
    let next = no_conversion (d ∷ cs) in if c == b'%' then (d == b'%' && behind) else next

-- The text that is written into `log` for a statement that fails.
abbrev pub error_text : Bytes → Bytes
error_text sql_cmd = codes "ERROR:" ++ (sql_cmd ++ (10 ∷ []))

-- What `execute` does with the value of `mysql_query`. The text in `log`, an array of 1024 bytes,
-- is the format of the log call, which has no arguments for it.
unfoldable pub executed : QueryResult → Bytes → Outcome ℤ
executed QueryResult.failed sql_cmd =
    if ltb (length (error_text sql_cmd)) 1024 && no_conversion (error_text sql_cmd)
    then done minus_one
    else fault
executed QueryResult.no_result sql_cmd = done (pos 1)
executed (QueryResult.rows set) sql_cmd = done (pos 1)

module _ (m : Mysql) where
  open m use {Database, query}

  unfoldable pub process_result_one : Bytes → Database → (ℤ × Option Bytes) × Database
  process_result_one sql_cmd db = (first_field (query sql_cmd db).0, (query sql_cmd db).1)

  -- `connected` tells whether `conn` is not NULL.
  unfoldable pub execute : Bool → Bytes → Database → Outcome (ℤ × Database)
  execute connected sql_cmd db =
      let made = query sql_cmd db in
      let answer = executed made.0 sql_cmd in
      if connected then (do ret ← answer; done (ret, made.1)) else done (minus_one, db)
