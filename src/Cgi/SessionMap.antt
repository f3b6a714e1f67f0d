-- ===== src/Cgi/SessionMap.antt =====
-- What the loop of src_cgi/login_cgi.c amounts to: a map from tokens to users that the logins
-- write.
use cloud_disk_server.Prelude.{
  ◌<◌, Bool, true, false, Option, none, some, List, [], ◌∷◌, ◌≡◌, if◌then◌else◌, length,
}
use cloud_disk_server.Prelude.Text.{Bytes, codes, eqb}
use cloud_disk_server.Prelude.Buffer.{IsString}
use cloud_disk_server.Md5.Context.{md5_to_hex_string}
use cloud_disk_server.Cgi.Mysql.{Mysql, process_result_one}
use cloud_disk_server.Cgi.Body.{Body, no_body, exited, text_at, receive}
use cloud_disk_server.Cgi.Login.{
  Request, Response, silent, json, success, error, bad_client, bad_login, login_query, Ambient,
  new_token,
}
use cloud_disk_server.Cgi.LoginLoop.{Visit}

-- The user of each token.
abbrev pub Sessions : Type 0
Sessions = Bytes → Option Bytes

abbrev pub sign_in : Bytes → Bytes → Sessions → Sessions
sign_in t uid sessions j = if eqb t j then some uid else sessions j

-- What comes of a request.
pub data Verdict : Type 0 where
  ended ignored malformed unknown : Verdict
  granted : Bytes → Verdict

abbrev pub answer_of : Ambient → Verdict → Option Response
answer_of a Verdict.ended = none
answer_of a Verdict.ignored = some silent
answer_of a Verdict.malformed = some (json error (codes "msg") bad_client)
answer_of a Verdict.unknown = some (json error (codes "msg") bad_login)
answer_of a (Verdict.granted uid) = some (json success (codes "token") (new_token a))

abbrev pub sessions_after : Ambient → Verdict → Sessions → Sessions
sessions_after a (Verdict.granted uid) sessions = sign_in (new_token a) uid sessions
sessions_after a _ sessions = sessions

abbrev pub of_field : Option Bytes → Verdict
of_field none = Verdict.unknown
of_field (some []) = Verdict.unknown
of_field (some (c ∷ cs)) = Verdict.granted (c ∷ cs)

module _ (m : Mysql) (parse : Bytes → Request) where
  open m use {Database}

  abbrev pub verdict_of : Ambient → Request → Database → Verdict × Database
  verdict_of a Request.unparsed db = (Verdict.ignored, db)
  verdict_of a (Request.fields none password) db = (Verdict.malformed, db)
  verdict_of a (Request.fields (some username) none) db = (Verdict.malformed, db)
  verdict_of a (Request.fields (some username) (some password)) db =
      let found =
        process_result_one m (login_query username (md5_to_hex_string a.stack password)) db in
      (of_field found.0.1, found.1)

  abbrev pub verdict : Ambient → Body → Database → Verdict × Database
  verdict a no_body db = (Verdict.ignored, db)
  verdict a exited db = (Verdict.ended, db)
  verdict a (text_at text) db = verdict_of a (parse text) db

  -- What is answered and what the sessions are behind the requests.
  abbrev pub Expected : Type 0
  Expected = (List Response × (Bool × Database)) × Sessions

  abbrev pub expected_next : Option Response → Database → Sessions → Expected → Expected
  expected_next none db sessions rest = (([], (false, db)), sessions)
  expected_next (some answer) db sessions rest = ((answer ∷ rest.0.0, rest.0.1), rest.1)

  unfoldable pub expected : List Visit → Sessions → Database → Expected
  expected [] sessions db = (([], (true, db)), sessions)
  expected (v ∷ vs) sessions db =
      let seen = verdict (v.ambient) (receive (v.incoming)) db in
      let later = sessions_after (v.ambient) seen.0 sessions in
      expected_next (answer_of (v.ambient) seen.0) seen.1 later (expected vs later seen.1)

  -- A user name of less than 900 bytes.
  abbrev pub IsShortRequest : Request → Type 0
  IsShortRequest (Request.fields (some username) (some password)) = length username < 900
  IsShortRequest _ = Unit

  abbrev pub IsShortBody : Body → Type 0
  IsShortBody (text_at text) = IsShortRequest (parse text)
  IsShortBody _ = Unit

  abbrev pub IsShort : Visit → Type 0
  IsShort v = IsShortBody (receive (v.incoming))

  -- Every number of a user is a string of less than 512 bytes.
  abbrev pub HasShortIds : Type 0
  HasShortIds =
      (sql : Bytes) (db : Database) (uid : Bytes)
      → (process_result_one m sql db).0.1 ≡ some uid
      → IsString uid × (length uid < 512)
