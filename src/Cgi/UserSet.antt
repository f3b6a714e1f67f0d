-- ===== src/Cgi/UserSet.antt =====
-- What the loop of src_cgi/reg_cgi.c amounts to: a set of names, over a database that answers as
-- documented.
use cloud_disk_server.Prelude.{
  ℕ, ◌<◌, ◌≤◌, ◌≢◌, Bool, true, false, ◌||◌, Option, none, some, List, [], ◌∷◌, ◌++◌, ◌≡◌,
  if◌then◌else◌, length, All,
}
use cloud_disk_server.Prelude.Text.{Bytes, codes}
use cloud_disk_server.Cgi.Mysql.{Mysql, QueryResult}
use cloud_disk_server.Md5.HexText.{IsHexDigit}
use cloud_disk_server.Cgi.Body.{Body, no_body, exited, text_at, receive}
use cloud_disk_server.Cgi.Login.{Response, silent, json, success}
use cloud_disk_server.Cgi.Register.{
  Fields, Form, registered, name_taken, error_exists, name_sql, insert_sql,
}
use cloud_disk_server.Cgi.RegisterLoop.{Applicant}

-- A printing character of ASCII that means nothing inside a literal of SQL.
abbrev pub IsInner : ℕ → Type 0
IsInner x = (32 ≤ x) × (x < 127) × (x ≢ 34) × (x ≢ 92)

-- A text in two quotes that is not empty, as cJSON prints a string and SQL reads one.
abbrev pub IsLiteral : Bytes → Type 0
IsLiteral n =
    (inner : Bytes) × (n ≡ 34 ∷ (inner ++ (34 ∷ []))) × (0 < length inner) × All IsInner inner

abbrev pub IsMaybe : Option Bytes → Type 0
IsMaybe none = Unit
IsMaybe (some text) = IsLiteral text

abbrev pub IsGiven : Option Bytes → Type 0
IsGiven none = ⊥
IsGiven (some text) = IsLiteral text

-- The fields of a user of the name `n`, who gives a nickname and a password.
pub record IsUser (n : Bytes) (f : Fields) : Type 0 where
  pub has_name : f.username ≡ some n
  pub name_literal : IsLiteral n
  pub nickname_given : IsGiven (f.nickname)
  pub phone_maybe : IsMaybe (f.phone)
  pub email_maybe : IsMaybe (f.email)

-- What the database is taken to answer: `taken db` are the names that have a row, and `same` tells
-- whether two names are equal under the collation of the column. The query for a name gives the row
-- if there is one and changes nothing; a statement that inserts a user whose name is free is taken,
-- as its columns have room, and the name, with all that are the same, is then taken.
pub record Users (m : Mysql) : Type 0 where
  pub taken : m.Database → Bytes → Bool
  pub same : Bytes → Bytes → Bool
  pub name_free :
      (db : m.Database) (n : Bytes)
      → IsLiteral n
      → taken db n ≡ false
      → m.query (name_sql (some n)) db ≡ (QueryResult.rows [], db)
  pub name_found :
      (db : m.Database) (n : Bytes)
      → IsLiteral n
      → taken db n ≡ true
      → (v : Bytes) × (0 < length v)
        × (length v < 1024)
        × (m.query (name_sql (some n)) db ≡ (QueryResult.rows ((some v ∷ []) ∷ []), db))
  pub insert_reply :
      (db : m.Database) (n : Bytes) (f : Fields) (digest : Bytes)
      → IsUser n f
      → All IsHexDigit digest
      → taken db n ≡ false
      → (m.query (insert_sql f digest) db).0 ≡ QueryResult.no_result
  pub insert_value :
      (db : m.Database) (n : Bytes) (f : Fields) (digest j : Bytes)
      → IsUser n f
      → All IsHexDigit digest
      → taken db n ≡ false
      → taken (m.query (insert_sql f digest) db).1 j ≡ (same n j || taken db j)

abbrev pub Names : Type 0
Names = Bytes → Bool

module _ (same : Bytes → Bytes → Bool) (parse : Bytes → Form) where
  -- What is answered to a name, and the names behind it.
  abbrev pub joins : Option Bytes → Names → Response × Names
  joins none names = (silent, names)
  joins (some n) names =
      if names n
      then (json error_exists (codes "msg") name_taken, names)
      else (json success (codes "msg") registered, λ j. same n j || names j)

  abbrev pub asked_name : Form → Option Bytes
  asked_name Form.unparsed = none
  asked_name (Form.parsed f) = f.username

  abbrev pub received : Body → Names → Option Response × Names
  received no_body names = (some silent, names)
  received exited names = (none, names)
  received (text_at text) names =
      (some (joins (asked_name (parse text)) names).0, (joins (asked_name (parse text)) names).1)

  abbrev pub Told : Type 0
  Told = (List Response × Bool) × Names

  abbrev pub told_next : Option Response → Names → Told → Told
  told_next none names later = (([], false), names)
  told_next (some answer) names later = ((answer ∷ later.0.0, later.0.1), later.1)

  -- The answers to the requests, whether the program still runs, and the names that are then taken.
  unfoldable pub told : List Applicant → Names → Told
  told [] names = (([], true), names)
  told (a ∷ more) names =
      let answered = received (receive (a.request)) names in
      told_next answered.0 answered.1 (told more answered.1)

-- A request that is no body, a body cut short, or the fields of a user whose statement fits its
-- block.
abbrev pub IsProperForm : Form → Type 0
IsProperForm Form.unparsed = ⊥
IsProperForm (Form.parsed f) =
    (n : Bytes) × (password : Bytes) × IsUser n f
    × (f.password ≡ some password)
    × (length (insert_sql f []) < 992)

abbrev pub IsProperBody : (Bytes → Form) → Body → Type 0
IsProperBody parse (text_at text) = IsProperForm (parse text)
IsProperBody parse _ = Unit

abbrev pub IsProper : (Bytes → Form) → Applicant → Type 0
IsProper parse a = IsProperBody parse (receive (a.request))
