-- ===== src/Cgi/Refined.antt =====
-- The loop of src_cgi/login_cgi.c does what the map of the sessions says.
use cloud_disk_server.Prelude.{
  ◌<◌, Bool, true, false, Option, none, some, List, [], ◌∷◌, ◌≡◌, refl, ◌∙◌, arith, if◌then◌else◌,
  length, lt→ltb, All,
}
use cloud_disk_server.Prelude.Outcome.{done}
use cloud_disk_server.Prelude.Text.{Bytes, codes, eqb}
use cloud_disk_server.Prelude.Buffer.{IsString}
use cloud_disk_server.Redis.Hiredis.{Hiredis, M, bind_done}
use cloud_disk_server.Redis.Store.{Store}
use cloud_disk_server.Md5.Context.{md5_to_hex_string}
use cloud_disk_server.Cgi.Mysql.{Mysql, process_result_one}
use cloud_disk_server.Cgi.Token.{check_user}
use cloud_disk_server.Cgi.Body.{Body, no_body, exited, text_at, receive}
use cloud_disk_server.Cgi.Login.{
  Request, Response, json, success, login, login_query, answer_login, Ambient, new_token,
}
use cloud_disk_server.Cgi.LoginLoop.{Visit, handle_body, next_visit, serve_logins}
use cloud_disk_server.Cgi.Sessions.{key_of, session_user, IsSession, check_user_at}
use cloud_disk_server.Cgi.LoginTrip.{
  length-login_query, length-md5_to_hex_string, answer_lem, last_state, value_after,
}
use cloud_disk_server.Cgi.SessionMap.{
  Sessions, Verdict, answer_of, sessions_after, sign_in, of_field, verdict, verdict_of, expected,
  Expected, expected_next, IsShort, IsShortBody, IsShortRequest, HasShortIds,
}

module _ (h : Hiredis) (c : h.Context) (st : Store h c) where
  open h use {Server}
  open st use {value_at}

  -- The server holds the sessions.
  abbrev Agrees : Server → Sessions → Type 0
  Agrees s sessions =
      (t : Bytes) → (value_at s (key_of t) ≡ sessions t) × IsSession h c st (sessions t)

  chosen-IsSession :
      (b : Bool) (uid : Bytes) (o : Option Bytes)
      → IsString uid × (length uid < 512)
      → IsSession h c st o
      → IsSession h c st (if b then some uid else o)
  chosen-IsSession true uid o ok held = ok
  chosen-IsSession false uid o ok held = held

  sign_in-Agrees :
      (a : Ambient) (uid : Bytes) (s : Server) (sessions : Sessions)
      → IsString uid × (length uid < 512)
      → Agrees s sessions
      → Agrees (last_state h c st a uid s) (sign_in (new_token a) uid sessions)
  unfolding eqb
  sign_in-Agrees a uid s sessions ok agrees t = (
    value_after h c st a uid s (key_of t) ∙ rw (agrees t).0 refl,
    chosen-IsSession (eqb (new_token a) t) uid (sessions t) ok (agrees t).1,
  )

  -- What is answered is what the map of the sessions says, and the server then holds them.
  abbrev Answers : Ambient → Verdict → Sessions → Response → Server → Type 0
  Answers a v sessions answer s =
      (answer_of a v ≡ some answer) × Agrees s (sessions_after a v sessions)

  field_lem :
      (a : Ambient) (field : Option Bytes) (s : Server) (sessions : Sessions)
      → ((uid : Bytes) → field ≡ some uid → IsString uid × (length uid < 512))
      → Agrees s sessions
      → (answer : Response) × (s' : Server) × (answer_login h (some c) a field s
          ≡ done (answer, s'))
        × Answers a (of_field field) sessions answer s'
  unfolding answer_login
  field_lem a none s sessions ok agrees = (_, s, refl, (refl, agrees))
  field_lem a (some []) s sessions ok agrees = (_, s, refl, (refl, agrees))
  field_lem a (some (x ∷ xs)) s sessions ok agrees = (
    json success (codes "token") (new_token a),
    last_state h c st a (x ∷ xs) s,
    answer_lem h c st a (x ∷ xs) s (omega arith) (ok (x ∷ xs) refl).1,
    (refl, sign_in-Agrees a (x ∷ xs) s sessions (ok (x ∷ xs) refl) agrees),
  )

  module _ (m : Mysql) (parse : Bytes → Request) (ids : HasShortIds m parse) where
    open m use {Database}

    login_lem :
        (a : Ambient) (r : Request) (db : Database) (s : Server) (sessions : Sessions)
        → IsShortRequest m parse r
        → Agrees s sessions
        → (answer : Response) × (s' : Server) × (login h m (some c) a r db s
            ≡ done ((answer, (verdict_of m parse a r db).1), s'))
          × Answers a (verdict_of m parse a r db).0 sessions answer s'
    unfolding login
    login_lem a Request.unparsed db s sessions short agrees = (_, s, refl, (refl, agrees))
    login_lem a (Request.fields none password) db s sessions short agrees =
        (_, s, refl, (refl, agrees))
    login_lem a (Request.fields (some username) none) db s sessions short agrees =
        (_, s, refl, (refl, agrees))
    login_lem a (Request.fields (some username) (some password)) db s sessions short agrees = (
      made.0,
      made.1,
      rw
          (lt→ltb (length sql) 1024 (
            omega (
              arith,
              length-login_query username (md5_to_hex_string a.stack password),
              length-md5_to_hex_string a.stack password,
            )))
          (bind_done (answer_login h (some c) a (process_result_one m sql db).0.1) _ made.2),
      made.3,
    )
      where
        sql : Bytes
        sql = login_query username (md5_to_hex_string a.stack password)

        made :
            (answer : Response) × (s' : Server) × (answer_login h
                (some c)
                a
                (process_result_one m sql db).0.1
                s
              ≡ done (answer, s'))
            × Answers a (of_field (process_result_one m sql db).0.1) sessions answer s'
        made = field_lem a (process_result_one m sql db).0.1 s sessions (ids sql db) agrees

    body_lem :
        (a : Ambient) (body : Body) (db : Database) (s : Server) (sessions : Sessions)
        → IsShortBody m parse body
        → Agrees s sessions
        → (s' : Server) × (handle_body h m parse (some c) a body db s
            ≡ done ((answer_of a (verdict m parse a body db).0, (verdict m parse a body db).1), s'))
          × Agrees s' (sessions_after a (verdict m parse a body db).0 sessions)
    unfolding handle_body
    body_lem a no_body db s sessions short agrees = (s, refl, agrees)
    body_lem a exited db s sessions short agrees = (s, refl, agrees)
    body_lem a (text_at text) db s sessions short agrees = (
      made.1,
      bind_done (login h m (some c) a (parse text) db) _ made.2 ∙ rw (made.3.0) refl,
      made.3.1,
    )
      where
        made :
            (answer : Response) × (s' : Server) × (login h m (some c) a (parse text) db s
              ≡ done ((answer, (verdict_of m parse a (parse text) db).1), s'))
            × Answers a (verdict_of m parse a (parse text) db).0 sessions answer s'
        made = login_lem a (parse text) db s sessions short agrees

    next_lem :
        (o : Option Response) (db : Database) (s : Server) (sessions : Sessions)
        (rest : M Server (List Response × (Bool × Database))) (e : Expected m parse)
        → Agrees s sessions
        → (s' : Server) × (rest s ≡ done (e.0, s')) × Agrees s' e.1
        → (s' : Server) × (next_visit h m parse (o, db) rest s
            ≡ done ((expected_next m parse o db sessions e).0, s'))
          × Agrees s' (expected_next m parse o db sessions e).1
    unfolding next_visit
    next_lem none db s sessions rest e agrees made = (s, refl, agrees)
    next_lem (some answer) db s sessions rest e agrees made =
        (made.0, bind_done rest _ made.1, made.2)

    -- The loop over the visits from a state that holds the sessions.
    abbrev Serves : List Visit → Database → Server → Sessions → Type 0
    Serves vs db s sessions =
        (s' : Server) × (serve_logins h m parse (some c) vs db s
          ≡ done ((expected m parse vs sessions db).0, s'))
        × Agrees s' (expected m parse vs sessions db).1

    serve-cons :
        (v : Visit) (vs : List Visit) (db : Database) (s : Server) (sessions : Sessions)
        → IsShort m parse v
        → Agrees s sessions
        → ((db' : Database) (s' : Server) (later : Sessions)
            → Agrees s' later
            → Serves vs db' s' later)
        → Serves (v ∷ vs) db s sessions
    unfolding serve_logins expected
    serve-cons v vs db s sessions short agrees rest = (
      later.0,
      bind_done (handle_body h m parse (some c) (v.ambient) (receive (v.incoming)) db) _ made.1
          ∙ later.1,
      later.2,
    )
      where
        seen : Verdict × Database
        seen = verdict m parse (v.ambient) (receive (v.incoming)) db

        next : Sessions
        next = sessions_after (v.ambient) seen.0 sessions

        made :
            (s' : Server) × (handle_body h m parse (some c) (v.ambient) (receive (v.incoming)) db s
              ≡ done ((answer_of (v.ambient) seen.0, seen.1), s'))
            × Agrees s' next
        made = body_lem (v.ambient) (receive (v.incoming)) db s sessions short agrees

        later :
            (s' : Server) × (next_visit h m parse
                (answer_of (v.ambient) seen.0, seen.1)
                (serve_logins h m parse (some c) vs seen.1)
                made.0
              ≡ done (
                (expected_next m parse
                    (answer_of (v.ambient) seen.0)
                    seen.1
                    next
                    (expected m parse vs next seen.1)).0,
                s',
              ))
            × Agrees s'
                (expected_next m parse
                  (answer_of (v.ambient) seen.0)
                  seen.1
                  next
                  (expected m parse vs next seen.1)).1
        later =
            next_lem (answer_of (v.ambient) seen.0) seen.1 made.0 next
              (serve_logins h m parse (some c) vs seen.1) (expected m parse vs next seen.1) made.2
              (rest seen.1 made.0 next made.2)

    serve_lem :
        (vs : List Visit) (db : Database) (s : Server) (sessions : Sessions)
        → All (IsShort m parse) vs
        → Agrees s sessions
        → Serves vs db s sessions
    unfolding serve_logins expected
    serve_lem [] db s sessions short agrees = (s, refl, agrees)
    serve_lem (v ∷ vs) db s sessions short agrees =
        serve-cons v vs db s sessions short.0 agrees
          (λ db' s' later held. serve_lem vs db' s' later short.1 held)

    -- Any requests to the login program: the answers, the database and whether the program still
    -- runs are those that the map of the sessions says, in which each login that is granted puts
    -- the number of the user under its token, over what was there. `check_user` behind them
    -- returns, for each token of 1 to 505 bytes, the number that the map then has, and 0 for a
    -- token that it has not. The server answers SET, GET and EXPIRE as documented and holds the map
    -- that is started from; the names of users are shorter than 900 bytes, and their numbers are
    -- strings of less than 512 bytes.
    pub serve_logins-expected :
        (vs : List Visit) (db : Database) (s : Server) (sessions : Sessions) (t : Bytes)
        → All (IsShort m parse) vs
        → Agrees s sessions
        → 0 < length t
        → length t < 506
        → (s' : Server) × (serve_logins h m parse (some c) vs db s
            ≡ done ((expected m parse vs sessions db).0, s'))
          × (check_user h (some c) (some t) s'
              ≡ done (session_user h c st ((expected m parse vs sessions db).1 t), s'))
    serve_logins-expected vs db s sessions t short agrees nonempty fits = (
      served.0,
      served.1,
      check_user_at h c st t served.0 _ nonempty fits (served.2 t).0 (served.2 t).1,
    )
      where
        served : Serves vs db s sessions
        served = serve_lem vs db s sessions short agrees
