-- ===== src/Cgi/Registered.antt =====
-- A user that src_cgi/reg_cgi.c registers is one that src_cgi/login_cgi.c lets in.
use cloud_disk_server.Prelude.{
  ◌<◌, ◌≡◌, refl, ap, ◌∙◌, true, Option, some, List, [], ◌∷◌, length, lt→ltb,
}
use cloud_disk_server.Prelude.Outcome.{done}
use cloud_disk_server.Prelude.Text.{Bytes, codes, atoi}
use cloud_disk_server.Prelude.Buffer.{IsString}
use cloud_disk_server.Redis.Hiredis.{Hiredis}
use cloud_disk_server.Redis.Store.{Store}
use cloud_disk_server.Md5.Context.{hex, md5_to_hex_string}
use cloud_disk_server.Md5.Spec.{md5, IsPiece, md5_to_hex_string-md5}
use cloud_disk_server.Cgi.Mysql.{
  Mysql, QueryResult, process_result_one, first_field, execute, executed,
}
use cloud_disk_server.Cgi.Token.{check_user}
use cloud_disk_server.Cgi.Login.{Ambient, Request, json, success, login, login_query}
use cloud_disk_server.Cgi.LoginTrip.{login-check_user}
use cloud_disk_server.Cgi.Register.{
  Fields, parsed, registered, name_sql, insert_sql, found_name, answer_insert, insert_user,
  register_name, registration,
}

-- The digest of a password, as RFC 1321 defines it.
abbrev pub digest_of : Bytes → Bytes
digest_of password = hex (md5 password)

module _ (m : Mysql) (f : Fields) (db : m.Database) where
  open m use {Database, query}

  abbrev free_db : Database
  free_db = (query (name_sql (f.username)) db).1

  abbrev pub registered_db : Bytes → Database
  registered_db digest = (query (insert_sql f digest) free_db).1

  pub registration_lem :
      (stack password digest : Bytes)
      → f.password ≡ some password
      → md5_to_hex_string stack password ≡ digest
      → length (name_sql (f.username)) < 1024
      → length (insert_sql f digest) < 1024
      → (query (name_sql (f.username)) db).0 ≡ QueryResult.rows []
      → (query (insert_sql f digest) free_db).0 ≡ QueryResult.no_result
      → registration m true stack (parsed f) db
        ≡ done (json success (codes "msg") registered, registered_db digest)
  unfolding registration process_result_one found_name first_field register_name insert_user execute
      executed answer_insert insert_sql
  registration_lem stack password digest given same fits_name fits_insert free taken =
      rw (given, lt→ltb _ _ fits_name, free, same, lt→ltb _ _ fits_insert, taken) refl

module _ (h : Hiredis) (c : h.Context) (st : Store h c) where
  open h use {Server}

  -- A registration of a name that no row has, with a password of less than 2 ^ 32 - 64 bytes, where the
  -- database takes the insert and then has a row for the name and the digest of the password: it is
  -- answered with success, and a login with the same name and password is answered with a token
  -- that `check_user` takes for the number in the row, whatever lay under the digests' buffers. The
  -- statements are below 1024 bytes, the name below 900, the number has 1 to 511 bytes, and the
  -- server answers SET, GET and EXPIRE as documented.
  pub registration-login :
      (m : Mysql) (f : Fields) (stack : Bytes) (a : Ambient) (username password uid : Bytes)
      (fields_left : List (Option Bytes)) (rows_left : List (List (Option Bytes)))
      (db db' : m.Database) (s : Server)
      → f.username ≡ some username
      → f.password ≡ some password
      → length stack ≡ 64
      → length (a.stack) ≡ 64
      → IsPiece password
      → length (name_sql (f.username)) < 1024
      → length (insert_sql f (digest_of password)) < 1024
      → (m.query (name_sql (f.username)) db).0 ≡ QueryResult.rows []
      → (m.query (insert_sql f (digest_of password)) (m.query (name_sql (f.username)) db).1).0
        ≡ QueryResult.no_result
      → m.query
          (login_query username (digest_of password))
          (registered_db m f db (digest_of password))
        ≡ (QueryResult.rows ((some uid ∷ fields_left) ∷ rows_left), db')
      → length username < 900
      → 0 < length uid
      → length uid < 512
      → IsString uid
      → (end : m.Database) × (registration m true stack (parsed f) db
          ≡ done (json success (codes "msg") registered, end))
        × ((t : Bytes) × (s' : Server) × (login h m
                (some c)
                a
                (Request.fields (some username) (some password))
                end
                s
              ≡ done ((json success (codes "token") t, db'), s'))
            × (length t ≡ 32)
            × (check_user h (some c) (some t) s' ≡ done (atoi uid, s')))
  registration-login m f stack a username password uid fields_left rows_left db db' s name given
        size_stack size_a small fits_name fits_insert free taken found short nonempty fits ok =
      (
        registered_db m f db (digest_of password),
        registration_lem m f db stack password (digest_of password) given
            (md5_to_hex_string-md5 stack password size_stack small) fits_name fits_insert free
            taken,
        login-check_user h c st m a username password uid fields_left rows_left
            (registered_db m f db (digest_of password)) db' s
            (ap
                (λ (d : Bytes).
                  m.query (login_query username d) (registered_db m f db (digest_of password)))
                (md5_to_hex_string-md5 (a.stack) password size_a small)
              ∙ found)
            short nonempty fits ok,
      )
