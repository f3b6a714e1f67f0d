-- ===== src/Upload/Runs.antt =====
-- The theorems on uploads at concrete inputs.
use cloud_disk_server.Prelude.{
  ℕ, zero, suc, ◌≡◌, ◌<◌, refl, ap, arith, get_or, ◌==◌, true, false, none, some, [], ◌∷◌, ◌++◌,
  length, drop, if◌then◌else◌,
}
use cloud_disk_server.Prelude.Int.{pos}
use cloud_disk_server.Prelude.Outcome.{done}
use cloud_disk_server.Prelude.Buffer.{c_str}
use cloud_disk_server.Prelude.Text.{Bytes, codes, eqb, atoi, signed, digits, skip_space}
use cloud_disk_server.Redis.Memory.{Strings, memory, memory_store}
use cloud_disk_server.Cgi.Login.{json, error}
use cloud_disk_server.Upload.Refused.{upload_no_token}
use cloud_disk_server.Cgi.Mysql.{Mysql, QueryResult}
use cloud_disk_server.Cgi.FirstPlace.{IsAt}
use cloud_disk_server.Util.Strstr.{strstr, starts_with}
use cloud_disk_server.Util.Names.{get_extension, first_dot, fitted}
use cloud_disk_server.Upload.Body.{parse_body, crlf}
use cloud_disk_server.Upload.Form.{Form, IsForm, body_of, parse_body_form}
use cloud_disk_server.Upload.Store.{System, child_text}
use cloud_disk_server.Upload.Handler.{not_permitted, request_length, upload}

-- A server that holds the user 7 for the token `ab`.
abbrev one_session : Strings
one_session k = if eqb (codes "token_ab") k then some (codes "7") else none

abbrev pub form : Form
form = record {
  line = codes "--X";
  head = codes "Disposition: ";
  name = codes "a.txt";
  middle = 13 ∷ 10 ∷ codes "Type: text";
  content = codes "hi";
  tail = codes "--";
}

first_differs : (xs ys : Bytes) → (get_or xs 0 0 == get_or ys 0 0) ≡ false → ¬ (xs ≡ ys)
first_differs xs ys h = λ e. ground (arith, h, ap (λ (t : Bytes). get_or t 0 0) e)

first_line_lem : (j : ℕ) → j < 4 → ¬ IsAt (codes "hi" ++ (crlf ++ codes "--X")) (codes "--X") j
first_line_lem zero h = first_differs _ _ refl
first_line_lem (suc zero) h = first_differs _ _ refl
first_line_lem (suc (suc zero)) h = first_differs _ _ refl
first_line_lem (suc (suc (suc zero))) h = first_differs _ _ refl
first_line_lem (suc (suc (suc (suc j)))) h = absurd (omega arith)

pub form-IsForm : IsForm form
unfolding strstr starts_with
form-IsForm = record {
  line_size = omega arith;
  line_bytes =
      ((omega arith, omega arith), ((omega arith, omega arith), ((omega arith, omega arith), tt)));
  line_some = omega arith;
  name_size = omega arith;
  name_bytes = (
    (omega arith, omega arith),
    (
      (omega arith, omega arith),
      ((omega arith, omega arith), ((omega arith, omega arith), ((omega arith, omega arith), tt))),
    ),
  );
  first_mark = refl;
  first_empty = refl;
  first_line = first_line_lem;
}

parse_body_form_example : parse_body (body_of form) 59 ≡ done (codes "a.txt", some (codes "hi"))
parse_body_form_example = parse_body_form form form-IsForm 59 (omega arith)

abbrev one_file : System
one_file = record {
  Disk = Bytes;
  exists = λ path disk. false;
  open_out = λ create path disk. (true, disk);
  write = λ path content disk. elim content [
    | none ↦ (true, disk)
    | some text ↦ (true, text ++ drop (length text) disk)
  ];
  reads = λ path disk. some (some disk ∷ []);
  fdfs = λ path disk. some (codes "M00/1");
}

abbrev pub no_rows : Mysql
no_rows = record { Database = ℕ; query = λ text db. (QueryResult.no_result, suc db) }

pub suffix_lem : get_extension 513 (codes "a.txt") ≡ done (codes "txt")
unfolding get_extension first_dot fitted
suffix_lem = refl

pub child_text_lem : child_text (some (codes "M00/1")) ≡ done (codes "M00/1")
unfolding child_text c_str
child_text_lem = refl

pub length_lem : request_length (some (codes "59")) ≡ pos (length (body_of form))
unfolding request_length atoi signed digits skip_space
length_lem = refl

upload_no_token_example :
    upload memory no_rows one_file
      (some tt)
      true
      []
      (record { token = none; content_length = some (codes "59"); input = body_of form })
      (record { server = one_session; database = 0; disk = codes "old" })
    ≡ done (
      json error (codes "msg") not_permitted,
      record { server = one_session; database = 0; disk = codes "old" },
    )
unfolding eqb
upload_no_token_example =
    upload_no_token memory tt memory_store no_rows one_file true [] (some (codes "59"))
      (body_of form) (record { server = one_session; database = 0; disk = codes "old" }) refl
