-- ===== src/Cgi/LoginTrip.antt =====
-- From the login to the check of the token that it gave out, on a server that answers as
-- documented.
use cloud_disk_server.Prelude.{◌+◌, ◌<◌, Option, some, List, ◌∷◌, ◌++◌, ◌≡◌, refl, ◌∙◌, arith}
use cloud_disk_server.Prelude.{length, length-append, if◌then◌else◌}
use cloud_disk_server.Prelude.{lt→ltb}
use cloud_disk_server.Prelude.Int.{ℤ, pos, eqb_ℤ}
use cloud_disk_server.Prelude.Outcome.{done}
use cloud_disk_server.Prelude.Text.{Bytes, codes, atoi, eqb, eqb_refl}
use cloud_disk_server.Prelude.Buffer.{IsString}
use cloud_disk_server.Redis.Hiredis.{Hiredis, minus_one, bind_done, lift, redis_command}
use cloud_disk_server.Redis.Keys.{rop_set_key_expire}
use cloud_disk_server.Redis.Strings.{rop_set_string}
use cloud_disk_server.Redis.Store.{Store, set_command, expire_command, held}
use cloud_disk_server.Redis.Sessions.{rop_set_string_lem}
use cloud_disk_server.Md5.Context.{md5_to_hex_string}
use cloud_disk_server.Md5.HexText.{md5_to_hex_string-IsHexDigit}
use cloud_disk_server.Cgi.Token.{check_user, token_key}
use cloud_disk_server.Cgi.Mysql.{Mysql, QueryResult, first_field, process_result_one}
use cloud_disk_server.Cgi.Login.{
  Request, login, login_query, answer_login, Ambient, new_token, store_token, json, success,
}
use cloud_disk_server.Cgi.Sessions.{key_of, token_key_lem, nonempty_test, check_user_held}

pub length-md5_to_hex_string : (stack text : Bytes) → length (md5_to_hex_string stack text) ≡ 32
length-md5_to_hex_string stack text = (md5_to_hex_string-IsHexDigit stack text).0

pub length-new_token : (a : Ambient) → length (new_token a) ≡ 32
unfolding new_token
length-new_token a = length-md5_to_hex_string _ _

pub length-login_query :
    (username md5_text : Bytes)
    → length (login_query username md5_text) ≡ length username + length md5_text + 48
unfolding login_query
length-login_query username md5_text = omega (
  arith,
  length-append username (codes " and password='" ++ (md5_text ++ codes "'")),
  length-append md5_text (codes "'"),
)

first_field_row :
    (v : Bytes) (fields_left : List (Option Bytes)) (rows_left : List (List (Option Bytes)))
    → first_field (QueryResult.rows ((some v ∷ fields_left) ∷ rows_left)) ≡ (pos 0, some v)
unfolding first_field
first_field_row v fields_left rows_left = refl

module _ (h : Hiredis) (c : h.Context) (st : Store h c) where
  open h use {Server, command}
  open st use {value_at, set_reply, set_value, get_reply, expire_reply, expire_value}

  expire_lem :
      (k : Bytes) (s : Server)
      → (r : ℤ) × (rop_set_key_expire h (some c) k 43200 s
          ≡ done (r, (command c (expire_command k (pos 43200)) s).1))
  unfolding rop_set_key_expire redis_command
  expire_lem k s = (
    if eqb_ℤ (pos (held (value_at s k))) (pos 1) then pos 0 else minus_one,
    rw (expire_reply s k 43200 (omega arith)) refl,
  )

  module _ (a : Ambient) (uid : Bytes) (s : Server) where
    abbrev pub key : Bytes
    key = key_of (new_token a)

    abbrev pub set_state : Server
    set_state = (command c (set_command key uid) s).1

    abbrev pub last_state : Server
    last_state = (command c (expire_command key (pos 43200)) set_state).1

    pub store_token_lem :
        store_token h (some c) a uid s
        ≡ done (json success (codes "token") (new_token a), last_state)
    unfolding store_token
    store_token_lem =
        bind_done (lift (token_key 513 (some (new_token a)))) _
          (rw (token_key_lem 513 (new_token a) (omega (arith, length-new_token a))) refl)
        ∙ bind_done (rop_set_string h (some c) key uid) _ (rop_set_string_lem h c st key uid s)
        ∙ bind_done (rop_set_key_expire h (some c) key 43200) _ ((expire_lem key set_state).1)

    pub value_after :
        (j : Bytes) → value_at last_state j ≡ (if eqb key j then some uid else value_at s j)
    value_after j = expire_value set_state key 43200 j (omega arith) ∙ set_value s key uid j

    held_value : value_at last_state key ≡ some uid
    held_value = value_after key ∙ rw (eqb_refl key) refl

    pub answer_lem :
        0 < length uid
        → length uid < 512
        → answer_login h (some c) a (some uid) s
          ≡ done (json success (codes "token") (new_token a), last_state)
    unfolding answer_login
    answer_lem nonempty fits =
        rw (nonempty_test uid nonempty, lt→ltb (length uid) 1024 (omega arith)) store_token_lem

  -- A login whose query finds a row, with a user name of less than 900 bytes and a number of 1 to
  -- 511 bytes in the first field, answers with a token of 32 bytes, and `check_user` with that
  -- token then returns the number of the user, whatever the random numbers, the stack and the block
  -- of the request before held; the server answers SET, GET and EXPIRE as documented.
  pub login-check_user :
      (m : Mysql) (a : Ambient) (username password uid : Bytes) (fields_left : List (Option Bytes))
      (rows_left : List (List (Option Bytes))) (db db' : m.Database) (s : Server)
      → m.query (login_query username (md5_to_hex_string a.stack password)) db
        ≡ (QueryResult.rows ((some uid ∷ fields_left) ∷ rows_left), db')
      → length username < 900
      → 0 < length uid
      → length uid < 512
      → IsString uid
      → (t : Bytes) × (s' : Server) × (login h m
            (some c)
            a
            (Request.fields (some username) (some password))
            db
            s
          ≡ done ((json success (codes "token") t, db'), s'))
        × (length t ≡ 32)
        × (check_user h (some c) (some t) s' ≡ done (atoi uid, s'))
  unfolding login process_result_one
  login-check_user m a username password uid fields_left rows_left db db' s found short nonempty
        fits ok =
      (
        new_token a,
        last_state a uid s,
        rw
            (
              lt→ltb (length (login_query username (md5_to_hex_string a.stack password))) 1024 (
                  omega (
                    arith,
                    length-login_query username (md5_to_hex_string a.stack password),
                    length-md5_to_hex_string a.stack password,
                  )),
              found,
              first_field_row uid fields_left rows_left,
            )
            (bind_done (answer_login h (some c) a (some uid)) _ (answer_lem a uid s nonempty fits)),
        length-new_token a,
        check_user_held h c st (new_token a) (last_state a uid s)
            (omega (arith, length-new_token a)) (omega (arith, length-new_token a)) uid
            (held_value a uid s) ok fits,
      )
