-- ===== src/Cgi/Runs.antt =====
-- The theorems on tokens and the login at concrete inputs.
use cloud_disk_server.Prelude.{
  ℕ, zero, suc, ◌<◌, true, false, Option, none, some, List, All, [], ◌∷◌, ◌≡◌, refl, arith, length,
  replicate, if◌then◌else◌, ◌%◌,
}
use cloud_disk_server.Prelude.Int.{pos}
use cloud_disk_server.Prelude.Outcome.{done}
use cloud_disk_server.Prelude.Text.{Bytes, codes, atoi, eqb, signed, digits, skip_space}
use cloud_disk_server.Prelude.Buffer.{IsString}
use mathlib.Core.Path.{subst}
use cloud_disk_server.Redis.Memory.{Strings, memory, memory_store, nothing}
use cloud_disk_server.Cgi.Mysql.{Mysql, QueryResult, process_result_one, first_field}
use cloud_disk_server.Cgi.Token.{check_user}
use cloud_disk_server.Cgi.Login.{Ambient, Request, json, success, login, new_token}
use cloud_disk_server.Cgi.Sessions.{session_user, check_user-session_user}
use cloud_disk_server.Cgi.LoginTrip.{length-new_token, login-check_user}
use cloud_disk_server.Cgi.Memstr.{memstr}
use cloud_disk_server.Cgi.FirstPlace.{IsFirst, memstr-IsFirst}
use cloud_disk_server.Md5.Context.{hex}
use cloud_disk_server.Cgi.Register.{
  Fields, parsed, registered, registration, insert_sql, name_sql, printed, or_null,
}
use cloud_disk_server.Cgi.Registered.{digest_of, registration-login}
use cloud_disk_server.Cgi.Body.{
  Incoming, Body, no_body, exited, text_at, announced, receive, content_type, idle,
}
use cloud_disk_server.Cgi.Idle.{idle_cut}
use cloud_disk_server.Cgi.LoginLoop.{Visit, serve_logins}
use cloud_disk_server.Cgi.SessionMap.{Sessions, expected, IsShort, IsShortBody, HasShortIds}
use cloud_disk_server.Cgi.Refined.{serve_logins-expected}
use cloud_disk_server.Cgi.Guessing.{new_token_agree}

-- A server that holds the user 7 for the token `ab`, and nothing else.
abbrev one_session : Strings
one_session k = if eqb (codes "token_ab") k then some (codes "7") else none

check_user-session_user_example :
    check_user memory (some tt) (some (codes "ab")) one_session ≡ done (pos 7, one_session)
unfolding atoi signed digits skip_space eqb
check_user-session_user_example =
    check_user-session_user memory tt memory_store (codes "ab") one_session (omega arith)
      (omega arith) ((omega arith, tt), omega arith)

-- A database that finds the user 7 whatever it is asked.
abbrev one_user : Mysql
one_user = record {
  Database = Unit;
  query = λ text db. (QueryResult.rows ((some (codes "7") ∷ []) ∷ []), db);
}

abbrev counting : Ambient
counting = record {
  rand = λ i. i;
  stack = replicate 64 0;
  token = replicate 513 0;
  pointer_bytes = 8;
}

abbrev repeating : Ambient
repeating = record {
  rand = λ i. i % 16;
  stack = replicate 64 1;
  token = replicate 513 1;
  pointer_bytes = 8;
}

login-check_user_example :
    (t : Bytes) × (s : Strings) × (login memory one_user
        (some tt)
        counting
        (Request.fields (some (codes "ann")) (some (codes "pw")))
        tt
        nothing
      ≡ done ((json success (codes "token") t, tt), s))
    × (length t ≡ 32)
    × (check_user memory (some tt) (some t) s ≡ done (atoi (codes "7"), s))
login-check_user_example =
    login-check_user memory tt memory_store one_user counting (codes "ann") (codes "pw") (codes "7")
      [] [] tt tt nothing refl (omega arith) (omega arith) (omega arith) (omega arith, tt)

new_token_agree_example : new_token counting ≡ new_token repeating
new_token_agree_example =
    new_token_agree counting repeating refl refl refl refl (λ i h. omega (arith, h))

memstr-IsFirst_example :
    IsFirst (codes "xaab") (codes "ab") 3 0 (memstr (codes "xaab") (codes "ab"))
memstr-IsFirst_example = memstr-IsFirst (codes "xaab") b'a' (codes "b")

-- A database that has no row for the first statement, takes the second, and then has the user 7.
abbrev new_user : Mysql
new_user = record { Database = ℕ; query = answers }
  where
    answers : Bytes → ℕ → QueryResult × ℕ
    answers text zero = (QueryResult.rows [], 1)
    answers text (suc zero) = (QueryResult.no_result, 2)
    answers text n = (QueryResult.rows ((some (codes "7") ∷ []) ∷ []), n)

abbrev ann : Fields
ann = record {
  username = some (codes "ann");
  nickname = some (codes "ann");
  password = some (codes "pw");
  phone = none;
  email = none;
}

insert_fits : length (insert_sql ann (digest_of (codes "pw"))) < 1024
unfolding insert_sql printed or_null hex
insert_fits = omega arith

name_fits : length (name_sql (some (codes "ann"))) < 1024
unfolding name_sql printed
name_fits = omega arith

registration-login_example :
    (end : ℕ) × (registration new_user true (replicate 64 3) (parsed ann) 0
      ≡ done (json success (codes "msg") registered, end))
    × ((t : Bytes) × (s : Strings) × (login memory new_user
            (some tt)
            counting
            (Request.fields (some (codes "ann")) (some (codes "pw")))
            end
            nothing
          ≡ done ((json success (codes "token") t, 2), s))
        × (length t ≡ 32)
        × (check_user memory (some tt) (some t) s ≡ done (atoi (codes "7"), s)))
registration-login_example =
    registration-login memory tt memory_store new_user ann (replicate 64 3) counting (codes "ann")
      (codes "pw") (codes "7") [] [] 0 2 nothing refl refl refl refl (omega arith) name_fits
      insert_fits refl refl refl (omega arith) (omega arith) (omega arith) (omega arith, tt)

-- A request that announces two bytes and brings the text `{}`, and one that brings one byte less.
abbrev sends : Bytes → Incoming
sends text = record {
  content_length = some (codes "2");
  stdin = text;
  memory = λ n. true;
  beyond = [];
}

two_bytes : announced (some (codes "2")) ≡ pos 2
unfolding announced signed digits skip_space
two_bytes = refl

abbrev visits : List Visit
visits =
    record { incoming = sends (codes "{}"); ambient = counting }
    ∷ record { incoming = sends (codes "{"); ambient = repeating }
    ∷ []

abbrev ann_logs_in : Bytes → Request
ann_logs_in text = Request.fields (some (codes "ann")) (some (codes "pw"))

abbrev no_sessions : Sessions
no_sessions t = none

all-IsShort : (vs : List Visit) → All (IsShort one_user ann_logs_in) vs
all-IsShort [] = tt
all-IsShort (v ∷ vs) = (short_body (receive (v.incoming)), all-IsShort vs)
  where
    short_body : (b : Body) → IsShortBody one_user ann_logs_in b
    short_body no_body = tt
    short_body exited = tt
    short_body (text_at text) = omega arith

abbrev IsShortId : Option Bytes → Type 0
IsShortId none = Unit
IsShortId (some uid) = IsString uid × (length uid < 512)

seven_is_short : HasShortIds one_user ann_logs_in
unfolding process_result_one first_field
seven_is_short sql db uid e = subst IsShortId e ((omega arith, tt), omega arith)

serve_logins-expected_example :
    (s' : Strings) × (serve_logins memory one_user ann_logs_in (some tt) visits tt nothing
      ≡ done ((expected one_user ann_logs_in visits no_sessions tt).0, s'))
    × (check_user memory (some tt) (some (new_token counting)) s'
        ≡ done (
          session_user memory tt memory_store
              ((expected one_user ann_logs_in visits no_sessions tt).1 (new_token counting)),
          s',
        ))
serve_logins-expected_example =
    serve_logins-expected memory tt memory_store one_user ann_logs_in seven_is_short visits tt
      nothing no_sessions (new_token counting) (all-IsShort visits) (λ t. (refl, tt))
      (omega (arith, length-new_token counting)) (omega (arith, length-new_token counting))

idle_cut_example :
    idle (sends (codes "{}") ∷ sends (codes "{") ∷ sends (codes "{}") ∷ [])
    ≡ (content_type ∷ content_type ∷ [], false)
unfolding announced signed digits skip_space
idle_cut_example =
    idle_cut 2 (sends (codes "{}") ∷ []) (sends (codes "{")) (sends (codes "{}") ∷ [])
      ((omega arith, refl), tt) two_bytes (omega arith)
