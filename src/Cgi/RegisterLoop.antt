-- ===== src/Cgi/RegisterLoop.antt =====
-- The loop of src_cgi/reg_cgi.c over the requests.
use cloud_disk_server.Prelude.{Bool, true, false, Option, none, some, List, [], ◌∷◌}
use cloud_disk_server.Prelude.Outcome.{Outcome, done, ◌>>=◌}
use cloud_disk_server.Prelude.Text.{Bytes}
use cloud_disk_server.Cgi.Mysql.{Mysql}
use cloud_disk_server.Cgi.Body.{Incoming, Body, no_body, exited, text_at, receive}
use cloud_disk_server.Cgi.Login.{Response, silent}
use cloud_disk_server.Cgi.Register.{Form, registration}

-- A request, and the stack under the buffer of the digest's context.
pub record Applicant : Type 0 where
  pub request : Incoming
  pub under : Bytes

-- `connected` tells whether `mysql_conn` is not NULL; `parse` is `cJSON_Parse` on the text at
-- `receivData`, with the fields as cJSON prints them.
module _ (m : Mysql) (connected : Bool) (parse : Bytes → Form) where
  open m use {Database}

  -- The answer, `none` where the program ends with `exit(1)`.
  unfoldable pub handle_form : Bytes → Body → Database → Outcome (Option Response × Database)
  handle_form stack no_body db = done (some silent, db)
  handle_form stack exited db = done (none, db)
  handle_form stack (text_at text) db = do
    answer ← registration m connected stack (parse text) db
    done (some answer.0, answer.1)

  unfoldable pub next_applicant :
      Option Response × Database
      → Outcome (List Response × (Bool × Database))
      → Outcome (List Response × (Bool × Database))
  next_applicant (none, db) rest = done ([], (false, db))
  next_applicant (some answer, db) rest = do later ← rest; done (answer ∷ later.0, later.1)

  -- The answers in order, and whether the program still runs behind them.
  unfoldable pub serve_registrations :
      List Applicant → Database → Outcome (List Response × (Bool × Database))
  serve_registrations [] db = done ([], (true, db))
  serve_registrations (a ∷ more) db = do
    end ← handle_form (a.under) (receive (a.request)) db
    next_applicant end (serve_registrations more end.1)
