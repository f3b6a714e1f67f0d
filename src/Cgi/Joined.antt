-- ===== src/Cgi/Joined.antt =====
-- The loop of src_cgi/reg_cgi.c does what the set of names says.
use cloud_disk_server.Prelude.{true, Option, none, some, List, [], ◌∷◌, ◌≡◌, refl, All}
use cloud_disk_server.Prelude.Outcome.{done}
use cloud_disk_server.Prelude.Text.{Bytes}
use cloud_disk_server.Cgi.Mysql.{Mysql}
use cloud_disk_server.Cgi.Body.{Body, no_body, exited, text_at, receive}
use cloud_disk_server.Cgi.Login.{Response}
use cloud_disk_server.Cgi.Register.{Form}
use cloud_disk_server.Cgi.RegisterLoop.{Applicant, handle_form, next_applicant, serve_registrations}
use cloud_disk_server.Cgi.UserSet.{Users, Names, received, told_next, told, IsProperBody, IsProper}
use cloud_disk_server.Cgi.Joins.{Agrees, form_lem}

module _ (m : Mysql) (users : Users m) (parse : Bytes → Form) where
  open m use {Database}
  open users use {taken, same}

  body_lem :
      (stack : Bytes) (body : Body) (db : Database) (names : Names)
      → IsProperBody parse body
      → Agrees m users parse db names
      → (db' : Database) × (handle_form m true parse stack body db
          ≡ done ((received same parse body names).0, db'))
        × Agrees m users parse db' (received same parse body names).1
  unfolding handle_form
  body_lem stack no_body db names proper agrees = (db, refl, agrees)
  body_lem stack exited db names proper agrees = (db, refl, agrees)
  body_lem stack (text_at text) db names proper agrees =
      let (db', e, held) = form_lem m users parse stack (parse text) db names proper agrees in
      (db', rw e refl, held)

  -- The loop over the requests from a database that has the names.
  abbrev Serves : List Applicant → Database → Names → Type 0
  Serves requests db names =
      (db' : Database) × (serve_registrations m true parse requests db
        ≡ done ((told same parse requests names).0.0, ((told same parse requests names).0.1, db')))
      × Agrees m users parse db' (told same parse requests names).1

  next_lem :
      (o : Option Response) (db : Database) (names : Names) (more : List Applicant)
      → Agrees m users parse db names
      → Serves more db names
      → (db' : Database) × (next_applicant m true parse
            (o, db)
            (serve_registrations m true parse more db)
          ≡ done (
            (told_next same parse o names (told same parse more names)).0.0,
            ((told_next same parse o names (told same parse more names)).0.1, db'),
          ))
        × Agrees m users parse db' (told_next same parse o names (told same parse more names)).1
  unfolding next_applicant
  next_lem none db names more agrees later = (db, refl, agrees)
  next_lem (some answer) db names more agrees (db', e, held) = (db', rw e refl, held)

  serve_lem :
      (requests : List Applicant) (db : Database) (names : Names)
      → All (IsProper parse) requests
      → Agrees m users parse db names
      → Serves requests db names
  unfolding serve_registrations told
  serve_lem [] db names proper agrees = (db, refl, agrees)
  serve_lem (a ∷ more) db names (proper, others) agrees =
      let (db', e, held) = body_lem (a.under) (receive (a.request)) db names proper agrees in
      let (end, done_later, behind) =
        next_lem (received same parse (receive (a.request)) names).0 db'
          (received same parse (receive (a.request)) names).1 more held
          (serve_lem more db' (received same parse (receive (a.request)) names).1 others held) in
      (end, rw e done_later, behind)

  -- Any requests to the registration program that are no body, a body cut short, or the fields of a
  -- user, on a database that answers as documented: the answers, and whether the program still
  -- runs, are those that the set of names says, in which a name is taken from the first request for
  -- it or for one that is the same on, and every later one is answered with the code for a name
  -- that exists; and the names of the database behind them are those of the set. Nicknames are in
  -- no such set: a user whose nickname another one has is registered. A user gives a name, a
  -- nickname and a password and may give a phone and an e-mail; all but the password are texts of
  -- printable ASCII in quotes, not empty and without a quote or backslash inside; and the statement
  -- without the digest is below 992 bytes.
  pub serve_registrations-told :
      (requests : List Applicant) (db : Database)
      → All (IsProper parse) requests
      → (db' : Database) × (serve_registrations m true parse requests db
          ≡ done (
            (told same parse requests (taken db)).0.0,
            ((told same parse requests (taken db)).0.1, db'),
          ))
        × ((j : Bytes) → taken db' j ≡ (told same parse requests (taken db)).1 j)
  serve_registrations-told requests db proper = serve_lem requests db (taken db) proper (λ j. refl)
