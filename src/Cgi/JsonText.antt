-- ===== src/Cgi/JsonText.antt =====
-- The JSON that `return_json` and `return_status` of common/util_cgi.c build, over cJSON as a
-- parameter.
use cloud_disk_server.Prelude.{Option, List, [], ◌∷◌, ◌++◌, ℕ}
use cloud_disk_server.Prelude.Text.{Bytes, codes}
use cloud_disk_server.Cgi.Login.{Response, silent, json}
use cloud_disk_server.Cgi.Register.{printed}

-- A value of an object, as `cJSON_CreateNumber` or `cJSON_CreateString` makes it.
pub data Value : Type 0 where
  of_number : ℕ → Value
  of_string : Bytes → Value

-- `print` is `cJSON_Print` of an object with these fields, in order.
module _ (print : List (Bytes × Value) → Option Bytes) where
  -- What is printed for an answer, with a line end; `printf` prints a NULL as glibc does.
  unfoldable pub response_text : Response → Bytes
  response_text silent = []
  response_text (json code key value) =
      printed (print ((codes "status", of_number code) ∷ (key, of_string value) ∷ [])) ++ (10 ∷ [])

  unfoldable pub return_status : Bytes → Option Bytes
  return_status status_num = print ((codes "code", of_string status_num) ∷ [])
