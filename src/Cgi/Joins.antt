-- ===== src/Cgi/Joins.antt =====
-- One registration by src_cgi/reg_cgi.c does what the set of names says.
use cloud_disk_server.Prelude.{
  ℕ, ◌==◌, ◌+◌, ◌<◌, true, false, ◌||◌, some, [], ◌∷◌, ◌++◌, ◌≡◌, refl, ap, ◌∙◌, arith, length,
  lt→ltb, All, length-append, Bool-cases, inl, inr,
}
use cloud_disk_server.Prelude.Int.{pos}
use cloud_disk_server.Prelude.Outcome.{done}
use cloud_disk_server.Prelude.Text.{Bytes, codes}
use cloud_disk_server.Md5.Context.{md5_to_hex_string}
use cloud_disk_server.Md5.HexText.{IsHexDigit, md5_to_hex_string-IsHexDigit}
use cloud_disk_server.Cgi.Mysql.{Mysql, QueryResult, process_result_one, first_field}
use cloud_disk_server.Cgi.Login.{Response, json, success}
use cloud_disk_server.Cgi.Register.{
  Fields, Form, printed, or_null, name_sql, insert_sql, found_name, register_name, registration,
  error_exists, name_taken, registered,
}
use cloud_disk_server.Cgi.Registered.{registration_lem, registered_db}
use cloud_disk_server.Cgi.UserSet.{IsUser, Users, Names, joins, asked_name, IsProperForm}

-- What stands behind the digest, and behind the name, in the statement.
abbrev tail : Fields → Bytes
tail f = or_null (f.phone) ++ (codes ",NOW()," ++ (or_null (f.email) ++ codes ");"))

abbrev behind_name : Fields → Bytes → Bytes
behind_name f d = printed (f.nickname) ++ (44 ∷ 34 ∷ (d ++ (34 ∷ 44 ∷ tail f)))

length-insert_sql :
    (f : Fields) (d : Bytes)
    → length (insert_sql f d)
      ≡ 34
        + length (printed (f.username))
        + length (printed (f.nickname))
        + length d
        + length (tail f)
unfolding insert_sql
length-insert_sql f d = omega (
  arith,
  length-append (printed (f.username)) (44 ∷ behind_name f d),
  length-append (printed (f.nickname)) (44 ∷ 34 ∷ (d ++ (34 ∷ 44 ∷ tail f))),
  length-append d (34 ∷ 44 ∷ tail f),
)

fits_insert :
    (f : Fields) (d : Bytes)
    → length (insert_sql f []) < 992
    → length d ≡ 32
    → length (insert_sql f d) < 1024
fits_insert f d fits size = omega (arith, length-insert_sql f d, length-insert_sql f [], fits, size)

fits_name : (f : Fields) → length (insert_sql f []) < 992 → length (name_sql (f.username)) < 1024
unfolding name_sql
fits_name f fits = omega (arith, length-insert_sql f [], fits)

module _ (m : Mysql) (users : Users m) (parse : Bytes → Form) where
  open m use {Database, query}
  open users use {taken, same, name_free, name_found, insert_reply, insert_value}

  abbrev pub Agrees : Database → Names → Type 0
  Agrees db names = (j : Bytes) → taken db j ≡ names j

  -- A registration answers as the set says, and leaves it.
  abbrev Joins : Bytes → Fields → Database → Response × Names → Type 0
  Joins stack f db end =
      (db' : Database) × (registration m true stack (Form.parsed f) db ≡ done (end.0, db'))
      × Agrees db' end.1

  module _ (stack n password : Bytes) (f : Fields) (db : Database) (names : Names)
      (user : IsUser n f) (given : f.password ≡ some password)
      (fits : length (insert_sql f []) < 992) (agrees : Agrees db names) where
    abbrev digest : Bytes
    digest = md5_to_hex_string stack password

    is_hex : All IsHexDigit digest
    is_hex = (md5_to_hex_string-IsHexDigit stack password).1

    free_query : taken db n ≡ false → query (name_sql (f.username)) db ≡ (QueryResult.rows [], db)
    free_query free = rw (user.has_name) (name_free db n (user.name_literal) free)

    free_lem :
        taken db n ≡ false
        → Joins stack f db (json success (codes "msg") registered, λ j. same n j || names j)
    free_lem free = (
      registered_db m f db digest,
      registration_lem m f db stack password digest given refl (fits_name f fits)
          (fits_insert f digest fits (md5_to_hex_string-IsHexDigit stack password).0)
          (ap (λ r. r.0) (free_query free))
          (ap (λ r. (query (insert_sql f digest) r.1).0) (free_query free)
            ∙ insert_reply db n f digest user is_hex free),
      λ j.
          ap (λ r. taken (query (insert_sql f digest) r.1).1 j) (free_query free)
          ∙ insert_value db n f digest j user is_hex free
          ∙ rw (agrees j) refl,
    )

    found_query :
        (v : Bytes)
        → query (name_sql (some n)) db ≡ (QueryResult.rows ((some v ∷ []) ∷ []), db)
        → process_result_one m (name_sql (f.username)) db ≡ ((pos 0, some v), db)
    unfolding process_result_one first_field
    found_query v e = rw (user.has_name) (ap (λ r. (first_field r.0, r.1)) e)

    found_lem : (v : Bytes) → length v < 1024 → found_name (some v) ≡ done (length v)
    unfolding found_name
    found_lem v short = rw (lt→ltb (length v) 1024 short) refl

    exists_lem :
        (k : ℕ)
        → 0 < k
        → register_name m true f digest k db ≡ done (json error_exists (codes "msg") name_taken, db)
    unfolding register_name
    exists_lem k some_bytes = rw (not_zero k some_bytes) refl
      where
        not_zero : (k : ℕ) → 0 < k → (k == 0) ≡ false
        not_zero k h = ground (arith, h)

    taken_lem :
        taken db n ≡ true → Joins stack f db (json error_exists (codes "msg") name_taken, names)
    unfolding registration
    taken_lem held =
        let (v, nonempty, short, e) = name_found db n (user.name_literal) held in
        (
          db,
          rw given (
              rw (lt→ltb (length (name_sql (f.username))) 1024 (fits_name f fits))
                (rw (found_query v e) (rw (found_lem v short) (exists_lem (length v) nonempty)))),
          agrees,
        )

    registration_joins : Joins stack f db (joins same parse (f.username) names)
    unfolding registration
    registration_joins = rw (user.has_name) (elim (Bool-cases (names n)) [
      | inl e ↦ rw e (taken_lem (agrees n ∙ e))
      | inr e ↦ rw e (free_lem (agrees n ∙ e))
    ])

  pub form_lem :
      (stack : Bytes) (r : Form) (db : Database) (names : Names)
      → IsProperForm r
      → Agrees db names
      → (db' : Database) × (registration m true stack r db
          ≡ done ((joins same parse (asked_name same parse r) names).0, db'))
        × Agrees db' (joins same parse (asked_name same parse r) names).1
  form_lem stack Form.unparsed db names proper agrees = absurd proper
  form_lem stack (Form.parsed f) db names (n, password, user, given, fits) agrees =
      registration_joins stack n password f db names user given fits agrees
