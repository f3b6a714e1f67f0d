-- ===== src/Cgi/LoginLoop.antt =====
-- The loop of src_cgi/login_cgi.c over the requests.
use cloud_disk_server.Prelude.{Bool, true, false, Option, none, some, List, [], ◌∷◌}
use cloud_disk_server.Prelude.Text.{Bytes}
use cloud_disk_server.Redis.Hiredis.{Hiredis, M, ◌>>=◌, ret}
use cloud_disk_server.Cgi.Mysql.{Mysql}
use cloud_disk_server.Cgi.Body.{Incoming, Body, no_body, exited, text_at, receive}
use cloud_disk_server.Cgi.Login.{Request, Response, silent, Ambient, login}

-- A request, and what the program finds in memory and from `rand` when it handles it.
pub record Visit : Type 0 where
  pub incoming : Incoming
  pub ambient : Ambient

-- `parse` is `cJSON_Parse` on the text at `receivData`, with the two fields as cJSON prints them.
module _ (h : Hiredis) (m : Mysql) (parse : Bytes → Request) where
  open h use {Context, Server}
  open m use {Database}

  -- The answer, `none` where the program ends with `exit(1)`.
  unfoldable pub handle_body :
      Option Context → Ambient → Body → Database → M Server (Option Response × Database)
  handle_body redis_conn a no_body db = ret (some silent, db)
  handle_body redis_conn a exited db = ret (none, db)
  handle_body redis_conn a (text_at text) db = do
    answer ← login h m redis_conn a (parse text) db
    ret (some answer.0, answer.1)

  unfoldable pub next_visit :
      Option Response × Database
      → M Server (List Response × (Bool × Database))
      → M Server (List Response × (Bool × Database))
  next_visit (none, db) rest = ret ([], (false, db))
  next_visit (some answer, db) rest = do later ← rest; ret (answer ∷ later.0, later.1)

  -- The answers in order, and whether the program still runs behind them.
  unfoldable pub serve_logins :
      Option Context → List Visit → Database → M Server (List Response × (Bool × Database))
  serve_logins redis_conn [] db = ret ([], (true, db))
  serve_logins redis_conn (v ∷ vs) db = do
    end ← handle_body redis_conn (v.ambient) (receive (v.incoming)) db
    next_visit end (serve_logins redis_conn vs end.1)
