-- ===== src/Cgi/JoinRuns.antt =====
-- Two registrations of the same name, and a request that is cut short.
use cloud_disk_server.Prelude.{
  ℕ, ◌≤◌, ◌<◌, ◌≡◌, refl, arith, true, none, some, List, [], ◌∷◌, ◌++◌, All, length, replicate,
}
use cloud_disk_server.Prelude.Outcome.{done}
use cloud_disk_server.Prelude.Text.{Bytes, codes}
use cloud_disk_server.Cgi.Body.{Body, no_body, exited, text_at, receive}
use cloud_disk_server.Cgi.Register.{Fields, Form, insert_sql, printed, or_null}
use cloud_disk_server.Cgi.RegisterLoop.{Applicant, serve_registrations}
use cloud_disk_server.Cgi.UserSet.{Names, IsInner, IsLiteral, IsUser, IsProperBody, IsProper, told}
use cloud_disk_server.Cgi.UserMemory.{kept_names, kept_users, nobody}
use cloud_disk_server.Cgi.Joined.{serve_registrations-told}

abbrev quoted_ann : Bytes
quoted_ann = 34 ∷ (codes "ann" ++ (34 ∷ []))

abbrev ann : Fields
ann = record {
  username = some quoted_ann;
  nickname = some quoted_ann;
  password = some (codes "pw");
  phone = none;
  email = none;
}

abbrev ann_registers : Bytes → Form
ann_registers text = Form.parsed ann

abbrev bringing : Bytes → Applicant
bringing text = record {
  request = record {
    content_length = some (codes "2");
    stdin = text;
    memory = λ n. true;
    beyond = [];
  };
  under = replicate 64 0;
}

abbrev applicants : List Applicant
applicants = bringing (codes "{}") ∷ bringing (codes "{}") ∷ bringing (codes "{") ∷ []

letter-IsInner : (x : ℕ) → b'a' ≤ x → x ≤ b'z' → IsInner x
letter-IsInner x low high = (
  omega (arith, low),
  omega (arith, high),
  (λ e. absurd (omega (arith, e, low))),
  (λ e. absurd (omega (arith, e, low))),
)

ann-IsLiteral : IsLiteral quoted_ann
ann-IsLiteral = (
  codes "ann",
  refl,
  omega arith,
  (
    letter-IsInner b'a' (omega arith) (omega arith),
    (
      letter-IsInner b'n' (omega arith) (omega arith),
      (letter-IsInner b'n' (omega arith) (omega arith), tt),
    ),
  ),
)

ann-IsUser : IsUser quoted_ann ann
ann-IsUser = record {
  has_name = refl;
  name_literal = ann-IsLiteral;
  nickname_given = ann-IsLiteral;
  phone_maybe = tt;
  email_maybe = tt;
}

ann_fits : length (insert_sql ann []) < 992
unfolding insert_sql printed or_null
ann_fits = omega arith

body-IsProperBody : (b : Body) → IsProperBody ann_registers b
body-IsProperBody no_body = tt
body-IsProperBody exited = tt
body-IsProperBody (text_at text) = (quoted_ann, codes "pw", ann-IsUser, refl, ann_fits)

all-IsProper : (requests : List Applicant) → All (IsProper ann_registers) requests
all-IsProper [] = tt
all-IsProper (a ∷ more) = (body-IsProperBody (receive (a.request)), all-IsProper more)

serve_registrations-told_example :
    (end : Names) × (serve_registrations kept_names true ann_registers applicants nobody
      ≡ done (
        (told kept_users.same ann_registers applicants nobody).0.0,
        ((told kept_users.same ann_registers applicants nobody).0.1, end),
      ))
    × ((j : Bytes) → end j ≡ (told kept_users.same ann_registers applicants nobody).1 j)
serve_registrations-told_example =
    serve_registrations-told kept_names kept_users ann_registers applicants nobody
      (all-IsProper applicants)
