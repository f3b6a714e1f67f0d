-- ===== src/Util/Runs.antt =====
-- The theorems on common/util_cgi.c at concrete texts.
use cloud_disk_server.Prelude.{[], ◌∷◌, ◌≡◌, refl, arith, some}
use cloud_disk_server.Prelude.Int.{pos}
use cloud_disk_server.Prelude.Outcome.{done}
use cloud_disk_server.Prelude.Text.{codes}
use cloud_disk_server.Util.Strstr.{strstr, starts_with}
use cloud_disk_server.Util.Names.{get_extension, get_file_suffix, two_dots}
use cloud_disk_server.Util.Query.{query_parse_key_value, query_parse_key_value_found, IsEnd}
use cloud_disk_server.Util.Replace.{str_replace, str_replace-join}

two_dots_example :
    (get_extension 513 (codes "a.tar.gz") ≡ done (codes "tar.gz"))
    × (get_file_suffix 513 (codes "a.tar.gz") ≡ done (codes "gz"))
two_dots_example =
    two_dots (codes "a") (codes "tar") (codes "gz") 513 (omega arith, tt)
      (omega arith, (omega arith, tt)) (omega arith) (omega arith)

found_lem : strstr (codes "a=1&key=v&b=2") (codes "key") ≡ some 4
unfolding strstr starts_with
found_lem = refl

query_parse_key_value_found_example :
    query_parse_key_value 8 (codes "a=1&key=v&b=2") (codes "key") ≡ done (pos 0, some (codes "v"))
query_parse_key_value_found_example =
    query_parse_key_value_found 8 (codes "a=1&") (codes "key") (codes "v") (codes "&b=2") found_lem
      ((omega arith, omega arith), tt) (IsEnd.next (codes "b=2")) (omega arith)

str_replace-join_example :
    str_replace 64 (codes "a, b, c") (codes ", ") (codes "--") ≡ done (codes "a--b--c")
str_replace-join_example =
    str_replace-join b',' (codes " ") (codes "--") 64 (codes "a") (codes "b" ∷ codes "c" ∷ [])
      (omega arith, tt) ((omega arith, tt), ((omega arith, tt), tt)) (omega arith) (omega arith)
