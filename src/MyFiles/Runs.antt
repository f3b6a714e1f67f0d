-- ===== src/MyFiles/Runs.antt =====
-- The list of files at concrete rows.
use cloud_disk_server.Prelude.{[], ◌∷◌, ◌≡◌, refl, arith, some, none}
use cloud_disk_server.Prelude.Int.{pos}
use cloud_disk_server.Prelude.Outcome.{done, fault}
use cloud_disk_server.Prelude.Text.{codes}
use cloud_disk_server.Cgi.Mysql.{Mysql, QueryResult}
use cloud_disk_server.MyFiles.{get_file_list}
use cloud_disk_server.MyFiles.Listed.{get_file_list-zip, get_file_list-null}

abbrev one_row : Mysql
one_row = record {
  Database = Unit;
  query = λ text db. (QueryResult.rows ((some (codes "1") ∷ some (codes "a.txt") ∷ []) ∷ []), db);
}

get_file_list-zip_example :
    get_file_list one_row (codes "id" ∷ codes "filename" ∷ []) (pos 7) tt
    ≡ done (((codes "id", codes "1") ∷ (codes "filename", codes "a.txt") ∷ []) ∷ [], tt)
get_file_list-zip_example =
    get_file_list-zip one_row (codes "id" ∷ codes "filename" ∷ []) (pos 7) tt
      ((codes "1" ∷ codes "a.txt" ∷ []) ∷ []) refl (refl, tt)

-- A row of user_file_list without its row of file_info.
abbrev no_info : Mysql
no_info = record {
  Database = Unit;
  query = λ text db. (QueryResult.rows ((some (codes "1") ∷ none ∷ []) ∷ []), db);
}

get_file_list-null_example :
    get_file_list no_info (codes "id" ∷ codes "md5" ∷ []) (pos 7) tt ≡ fault
get_file_list-null_example =
    get_file_list-null no_info (codes "id" ∷ codes "md5" ∷ []) (pos 7) tt [] (codes "1" ∷ []) [] []
      refl tt (omega arith)
