-- ===== src/Cgi/Register.antt =====
-- The handling of one request by src_cgi/reg_cgi.c, from the parsed text on.
use cloud_disk_server.Prelude.{
  Bool, ℕ, Option, none, some, [], ◌∷◌, ◌++◌, ◌==◌, ltb, if◌then◌else◌, length,
}
use cloud_disk_server.Prelude.Int.{ℤ, eqb_ℤ}
use cloud_disk_server.Prelude.Outcome.{Outcome, done, fault, ◌>>=◌}
use cloud_disk_server.Prelude.Text.{Bytes, codes}
use cloud_disk_server.Redis.Hiredis.{minus_one}
use cloud_disk_server.Md5.Context.{md5_to_hex_string}
use cloud_disk_server.Cgi.Mysql.{Mysql, process_result_one, execute, no_conversion}
use cloud_disk_server.Cgi.Login.{Response, json, success}

-- The other codes of include/init.h.
abbrev pub error_exists : ℕ
error_exists = 2

abbrev pub error_other : ℕ
error_other = 10

-- "registered", "the registration failed, check the parameters or ask the administrator", "the user
-- name or nickname is already registered".
abbrev pub registered : Bytes
registered =
    0xE6 ∷ 0xB3 ∷ 0xA8 ∷ 0xE5 ∷ 0x86 ∷ 0x8C ∷ 0xE6 ∷ 0x88 ∷ 0x90 ∷ 0xE5 ∷ 0x8A ∷ 0x9F ∷ 0x21 ∷ []

abbrev pub not_registered : Bytes
not_registered =
    0xE6 ∷ 0xB3 ∷ 0xA8 ∷ 0xE5 ∷ 0x86 ∷ 0x8C ∷ 0xE9 ∷ 0x94 ∷ 0x99 ∷ 0xE8 ∷ 0xAF ∷ 0xAF ∷ 0x2C ∷ 0xE8
    ∷ 0xAF ∷ 0xB7 ∷ 0xE6 ∷ 0xA3 ∷ 0x80 ∷ 0xE6 ∷ 0x9F ∷ 0xA5 ∷ 0xE6 ∷ 0xB3 ∷ 0xA8 ∷ 0xE5 ∷ 0x86
    ∷ 0x8C ∷ 0xE5 ∷ 0x8F ∷ 0x82 ∷ 0xE6 ∷ 0x95 ∷ 0xB0 ∷ 0xE5 ∷ 0x90 ∷ 0x8E ∷ 0xE9 ∷ 0x87 ∷ 0x8D
    ∷ 0xE8 ∷ 0xAF ∷ 0x95 ∷ 0xE6 ∷ 0x88 ∷ 0x96 ∷ 0xE8 ∷ 0x81 ∷ 0x94 ∷ 0xE7 ∷ 0xB3 ∷ 0xBB ∷ 0xE7
    ∷ 0xB3 ∷ 0xBB ∷ 0xE7 ∷ 0xBB ∷ 0x9F ∷ 0xE7 ∷ 0xAE ∷ 0xA1 ∷ 0xE7 ∷ 0x90 ∷ 0x86 ∷ 0xE5 ∷ 0x91
    ∷ 0x98 ∷ 0x21 ∷ []

abbrev pub name_taken : Bytes
name_taken =
    0xE7 ∷ 0x94 ∷ 0xA8 ∷ 0xE6 ∷ 0x88 ∷ 0xB7 ∷ 0xE5 ∷ 0x90 ∷ 0x8D ∷ 0xE6 ∷ 0x88 ∷ 0x96 ∷ 0xE6 ∷ 0x98
    ∷ 0xB5 ∷ 0xE7 ∷ 0xA7 ∷ 0xB0 ∷ 0xE5 ∷ 0xB7 ∷ 0xB2 ∷ 0xE7 ∷ 0xBB ∷ 0x8F ∷ 0xE8 ∷ 0xA2 ∷ 0xAB
    ∷ 0xE6 ∷ 0xB3 ∷ 0xA8 ∷ 0xE5 ∷ 0x86 ∷ 0x8C ∷ 0x21 ∷ []

-- The fields as cJSON prints them, `none` for NULL.
pub record Fields : Type 0 where
  pub username : Option Bytes
  pub nickname : Option Bytes
  pub password : Option Bytes
  pub phone : Option Bytes
  pub email : Option Bytes

-- A body that is no JSON, of which cJSON is asked for a field of NULL, or the fields.
pub data Form : Type 0 where
  unparsed : Form
  parsed : Fields → Form

-- A NULL that is printed by `%s`, as glibc does.
unfoldable pub printed : Option Bytes → Bytes
printed none = codes "(null)"
printed (some text) = text

-- `phone` and `email`.
unfoldable pub or_null : Option Bytes → Bytes
or_null none = codes "NULL"
or_null (some text) = text

unfoldable pub name_sql : Option Bytes → Bytes
name_sql username = codes "select name from user where name =" ++ printed username

unfoldable pub insert_sql : Fields → Bytes → Bytes
insert_sql f md5_text =
    codes "insert into user values(NULL,"
    ++ (printed (f.username)
        ++ (44
            ∷ (printed (f.nickname)
                ++ (44
                    ∷ 34
                    ∷ (md5_text
                        ++ (34
                            ∷ 44
                            ∷ (or_null (f.phone)
                                ++ (codes ",NOW()," ++ (or_null (f.email) ++ codes ");")))))))))

-- `strlen(query_result)` behind the query: no field leaves the empty text.
unfoldable pub found_name : Option Bytes → Outcome ℕ
found_name none = done 0
found_name (some field) = if ltb (length field) 1024 then done (length field) else fault

-- What is answered to the value of `execute`; for a failure the statement is the format of a log
-- call.
unfoldable pub answer_insert : Bytes → ℤ → Outcome Response
answer_insert sql ret =
    if eqb_ℤ ret minus_one
    then (if no_conversion sql then done (json error_other (codes "msg") not_registered) else fault)
    else done (json success (codes "msg") registered)

module _ (m : Mysql) where
  open m use {Database}

  unfoldable pub insert_user : Bool → Fields → Bytes → Database → Outcome (Response × Database)
  insert_user connected f md5_text db =
      let sql = insert_sql f md5_text in
      let inserted = (do
        row ← execute m connected sql db
        response ← answer_insert sql row.0
        done (response, row.1)) in
      if ltb (length sql) 1024 then inserted else fault

  -- Behind the query for the name.
  unfoldable pub register_name :
      Bool → Fields → Bytes → ℕ → Database → Outcome (Response × Database)
  register_name connected f md5_text found db =
      let inserted = insert_user connected f md5_text db in
      if found == 0 then inserted else done (json error_exists (codes "msg") name_taken, db)

  -- `stack` is the buffer of the digest's context before; the blocks have 1024 bytes.
  unfoldable pub registration : Bool → Bytes → Form → Database → Outcome (Response × Database)
  registration connected stack Form.unparsed db = fault
  registration connected stack (Form.parsed f) db =
      let sql = name_sql (f.username) in
      let answer = process_result_one m sql db in
      let registered_name = (λ (md5_text : Bytes). do
        found ← found_name answer.0.1
        register_name connected f md5_text found answer.1) in
      elim (f.password) [
        | none ↦ fault
        | some password ↦
            let result = registered_name (md5_to_hex_string stack password) in
            if ltb (length sql) 1024 then result else fault
      ]
