-- ===== src/Cgi/UserMemory.antt =====
-- A database in memory that keeps the names of users and answers as documented.
use cloud_disk_server.Prelude.{
  ◌<◌, Bool, true, false, ◌||◌, Option, some, [], ◌∷◌, ◌++◌, append_assoc, append-nil, ◌≡◌, refl,
  sym, ap, ◌∙◌, arith, ◌==◌, if◌then◌else◌, length, get_or, All,
}
use cloud_disk_server.Prelude.Text.{Bytes, codes, eqb}
use cloud_disk_server.Cgi.Mysql.{Mysql, QueryResult}
use cloud_disk_server.Cgi.Register.{Fields, name_sql, insert_sql, printed}
use cloud_disk_server.Cgi.UserSet.{Names, Users, IsUser, IsLiteral, IsInner}

-- The first literal of a statement, with its quotes.
unfoldable pub till_quote : Bytes → Bytes
till_quote [] = []
till_quote (x ∷ xs) = let rest = till_quote xs in if x == 34 then 34 ∷ [] else x ∷ rest

unfoldable pub from_quote : Bytes → Bytes
from_quote [] = []
from_quote (x ∷ xs) = let rest = from_quote xs in if x == 34 then 34 ∷ till_quote xs else rest

abbrev pub rows_for : Bool → QueryResult
rows_for true = QueryResult.rows ((some (codes "1") ∷ []) ∷ [])
rows_for false = QueryResult.rows []

abbrev pub answered : Bool → Bytes → Names → QueryResult × Names
answered true n names = (rows_for (names n), names)
answered false n names = (QueryResult.no_result, λ j. eqb n j || names j)

abbrev pub kept_names : Mysql
kept_names = record {
  Database = Names;
  query = λ sql names. answered (get_or sql 0 0 == b's') (from_quote sql) names;
}

till_lem :
    (inner rest : Bytes)
    → All IsInner inner
    → till_quote (inner ++ (34 ∷ rest)) ≡ inner ++ (34 ∷ [])
unfolding till_quote
till_lem [] rest plain = refl
till_lem (x ∷ xs) rest (plain, more) = rw (till_lem xs rest more) (ground (arith, plain.2))

literal_lem : (n rest : Bytes) → IsLiteral n → from_quote (n ++ rest) ≡ n
unfolding from_quote
literal_lem n rest (inner, e, nonempty, plain) =
    rw e
      (ap (◌∷◌ 34) (ap till_quote (append_assoc inner (34 ∷ []) rest) ∙ till_lem inner rest plain))

alone_lem : (n : Bytes) → IsLiteral n → from_quote n ≡ n
alone_lem n literal = ap from_quote (sym (append-nil n)) ∙ literal_lem n [] literal

printed_lem :
    (u : Option Bytes) (n rest : Bytes)
    → u ≡ some n
    → IsLiteral n
    → from_quote (printed u ++ rest) ≡ n
unfolding printed
printed_lem u n rest e literal = rw e (literal_lem n rest literal)

pub select_lem :
    (names : Names) (n : Bytes)
    → IsLiteral n
    → kept_names.query (name_sql (some n)) names ≡ (rows_for (names n), names)
unfolding name_sql printed from_quote
select_lem names n literal = ap (λ (k : Bytes). (rows_for (names k), names)) (alone_lem n literal)

pub insert_lem :
    (names : Names) (n : Bytes) (f : Fields) (digest : Bytes)
    → IsUser n f
    → kept_names.query (insert_sql f digest) names
      ≡ (QueryResult.no_result, λ j. eqb n j || names j)
unfolding insert_sql from_quote
insert_lem names n f digest user =
    ap (λ (k : Bytes). (QueryResult.no_result, λ j. eqb k j || names j))
      (printed_lem (f.username) n _ (user.has_name) (user.name_literal))

pub free_lem :
    (names : Names) (n : Bytes)
    → IsLiteral n
    → names n ≡ false
    → kept_names.query (name_sql (some n)) names ≡ (QueryResult.rows [], names)
free_lem names n literal free =
    select_lem names n literal ∙ ap (λ (b : Bool). (rows_for b, names)) free

pub found_lem :
    (names : Names) (n : Bytes)
    → IsLiteral n
    → names n ≡ true
    → (v : Bytes) × (0 < length v)
      × (length v < 1024)
      × (kept_names.query (name_sql (some n)) names
          ≡ (QueryResult.rows ((some v ∷ []) ∷ []), names))
found_lem names n literal there = (
  codes "1",
  omega arith,
  omega arith,
  select_lem names n literal ∙ ap (λ (b : Bool). (rows_for b, names)) there,
)

abbrev pub kept_users : Users kept_names
kept_users = record {
  taken = λ names n. names n;
  same = eqb;
  name_free = free_lem;
  name_found = found_lem;
  insert_reply =
      λ names n f digest user is_hex free. ap (λ r. r.0) (insert_lem names n f digest user);
  insert_value =
      λ names n f digest j user is_hex free. ap (λ r. r.1 j) (insert_lem names n f digest user);
}

abbrev pub nobody : Names
nobody n = false
