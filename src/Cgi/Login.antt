-- ===== src/Cgi/Login.antt =====
-- The handling of one request by src_cgi/login_cgi.c, from the parsed text on.
use cloud_disk_server.Prelude.{ℕ, Option, none, some, [], ◌∷◌, ◌++◌}
use cloud_disk_server.Prelude.{◌==◌, ltb, if◌then◌else◌, length, take, drop}
use cloud_disk_server.Prelude.Int.{eqb_ℤ}
use cloud_disk_server.Prelude.Outcome.{done, fault}
use cloud_disk_server.Prelude.Text.{Bytes, codes}
use cloud_disk_server.Redis.Hiredis.{Hiredis, M, ◌>>=◌, ret, lift, minus_one}
use cloud_disk_server.Redis.Keys.{rop_set_key_expire}
use cloud_disk_server.Redis.Strings.{rop_set_string}
use cloud_disk_server.Md5.Context.{md5_to_hex_string}
use cloud_disk_server.Cgi.Mysql.{Mysql, process_result_one}
use cloud_disk_server.Cgi.Token.{random_chars, token_key}

-- What `return_json` prints, if it is called.
pub data Response : Type 0 where
  silent : Response
  json : ℕ → Bytes → Bytes → Response

-- The codes of include/init.h.
abbrev pub success : ℕ
success = 1

abbrev pub error : ℕ
error = 3

-- The two messages of the source, in UTF-8: "not a permitted client program", "login failed, the
-- user name or the password is wrong".
abbrev pub bad_client : Bytes
bad_client =
    0xE9 ∷ 0x9D ∷ 0x9E ∷ 0xE6 ∷ 0xB3 ∷ 0x95 ∷ 0xE7 ∷ 0x9A ∷ 0x84 ∷ 0xE5 ∷ 0xAE ∷ 0xA2 ∷ 0xE6 ∷ 0x88
    ∷ 0xB7 ∷ 0xE7 ∷ 0xAB ∷ 0xAF ∷ 0xE7 ∷ 0xA8 ∷ 0x8B ∷ 0xE5 ∷ 0xBA ∷ 0x8F ∷ 0x21 ∷ []

abbrev pub bad_login : Bytes
bad_login =
    0xE7 ∷ 0x99 ∷ 0xBB ∷ 0xE5 ∷ 0xBD ∷ 0x95 ∷ 0xE5 ∷ 0xA4 ∷ 0xB1 ∷ 0xE8 ∷ 0xB4 ∷ 0xA5 ∷ 0x20 ∷ 0xE7
    ∷ 0x94 ∷ 0xA8 ∷ 0xE6 ∷ 0x88 ∷ 0xB7 ∷ 0xE5 ∷ 0x90 ∷ 0x8D ∷ 0xE6 ∷ 0x88 ∷ 0x96 ∷ 0xE5 ∷ 0xAF
    ∷ 0x86 ∷ 0xE7 ∷ 0xA0 ∷ 0x81 ∷ 0xE9 ∷ 0x94 ∷ 0x99 ∷ 0xE8 ∷ 0xAF ∷ 0xAF ∷ 0x21 ∷ []

-- The body of a request: no JSON, or the two fields as cJSON prints them, `none` if one is missing.
pub data Request : Type 0 where
  unparsed : Request
  fields : Option Bytes → Option Bytes → Request

-- What a request comes with that the program does not choose: the numbers of `rand`, the bytes of
-- the stack under MD5_CTX, the 513 bytes of the block `token` from the request before, and the size
-- of a pointer.
pub record Ambient : Type 0 where
  pub rand : ℕ → ℕ
  pub stack : Bytes
  pub token : Bytes
  pub pointer_bytes : ℕ

-- `genRandomString(32, token)` and `MD5ToHexString(token, sizeof(token), md5_token)`: the size is
-- that of the pointer.
unfoldable pub new_token : Ambient → Bytes
new_token a =
    md5_to_hex_string a.stack (take a.pointer_bytes (random_chars a.rand 31 0 ++ drop 31 a.token))

module _ (h : Hiredis) where
  open h use {Context, Server}

  -- The branch of a user that was found. What the second call returns is only logged.
  unfoldable pub store_token : Option Context → Ambient → Bytes → M Server Response
  store_token redis_conn a query_result = do
    token ← lift (token_key 513 (some (new_token a)))
    set ← rop_set_string h redis_conn token query_result
    if eqb_ℤ set minus_one then ret silent else do
      expire ← rop_set_key_expire h redis_conn token 43200
      ret (json success (codes "token") (new_token a))

  -- The branch behind the query. `query_result` starts with zeros, so that no field is the empty
  -- text; `strcpy` writes the field into it, a block of 1024 bytes.
  unfoldable pub answer_login : Option Context → Ambient → Option Bytes → M Server Response
  answer_login redis_conn a none = ret (json error (codes "msg") bad_login)
  answer_login redis_conn a (some field) =
      if length field == 0
      then ret (json error (codes "msg") bad_login)
      else if ltb (length field) 1024
      then store_token redis_conn a field
      else λ s. fault

-- The query, written into a block of 1024 bytes.
unfoldable pub login_query : Bytes → Bytes → Bytes
login_query username md5_text =
    codes "select id from user where name ="
    ++ (username ++ (codes " and password='" ++ (md5_text ++ codes "'")))

module _ (h : Hiredis) (m : Mysql) where
  open h use {Context, Server}
  open m use {Database}

  unfoldable pub login :
      Option Context → Ambient → Request → Database → M Server (Response × Database)
  login redis_conn a Request.unparsed db s = done ((silent, db), s)
  login redis_conn a (Request.fields none password) db s =
      done ((json error (codes "msg") bad_client, db), s)
  login redis_conn a (Request.fields (some username) none) db s =
      done ((json error (codes "msg") bad_client, db), s)
  login redis_conn a (Request.fields (some username) (some password)) db s =
      let sql = login_query username (md5_to_hex_string a.stack password) in
      let found = process_result_one m sql db in
      if ltb (length sql) 1024
      then (do response ← answer_login h redis_conn a found.0.1; ret (response, found.1)) s
      else fault
