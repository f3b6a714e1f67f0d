-- ===== src/MyFiles/Listed.antt =====
-- What src_cgi/myfiles_cgi.c prints of the rows of the database.
use cloud_disk_server.Prelude.{
  ◌<◌, ◌≡◌, refl, arith, List, [], ◌∷◌, ◌++◌, Option, none, some, map, length, All,
}
use cloud_disk_server.Prelude.Int.{ℤ}
use cloud_disk_server.Prelude.Outcome.{done, fault}
use cloud_disk_server.Prelude.Text.{Bytes}
use cloud_disk_server.Cgi.Mysql.{Mysql, QueryResult}
use cloud_disk_server.MyFiles.{list_sql, row_object, row_objects, result_objects, get_file_list}

-- Each name with the text in its place.
abbrev pub zip : List Bytes → List Bytes → List (Bytes × Bytes)
zip [] texts = []
zip (name ∷ names) [] = []
zip (name ∷ names) (text ∷ texts) = (name, text) ∷ zip names texts

-- Rows without a NULL.
abbrev pub full : List (List Bytes) → List (List (Option Bytes))
full texts = map (map some) texts

row_object-zip :
    (names texts : List Bytes)
    → length texts ≡ length names
    → row_object names (map some texts) ≡ done (zip names texts)
unfolding row_object
row_object-zip [] texts e = refl
row_object-zip (name ∷ names) [] e = absurd (omega arith)
row_object-zip (name ∷ names) (text ∷ texts) e = rw (row_object-zip names texts (omega arith)) refl

row_object-null :
    (names before : List Bytes) (after : List (Option Bytes))
    → length before < length names
    → row_object names (map some before ++ (none ∷ after)) ≡ fault
unfolding row_object
row_object-null [] before after h = absurd (omega arith)
row_object-null (name ∷ names) [] after h = refl
row_object-null (name ∷ names) (text ∷ before) after h =
    rw (row_object-null names before after (omega arith)) refl

row_objects-zip :
    (names : List Bytes) (texts : List (List Bytes))
    → All (λ row. length row ≡ length names) texts
    → row_objects names (full texts) ≡ done (map (zip names) texts)
unfolding row_objects
row_objects-zip names [] h = refl
row_objects-zip names (row ∷ texts) h =
    rw (row_object-zip names row h.0) (rw (row_objects-zip names texts h.1) refl)

row_objects-null :
    (names : List Bytes) (texts : List (List Bytes)) (before : List Bytes)
    (after : List (Option Bytes)) (more : List (List (Option Bytes)))
    → All (λ row. length row ≡ length names) texts
    → length before < length names
    → row_objects names (full texts ++ ((map some before ++ (none ∷ after)) ∷ more)) ≡ fault
unfolding row_objects
row_objects-null names [] before after more h short =
    rw (row_object-null names before after short) refl
row_objects-null names (row ∷ texts) before after more h short =
    rw (row_object-zip names row h.0)
      (rw (row_objects-null names texts before after more h.1 short) refl)

module _ (m : Mysql) (names : List Bytes) (uid : ℤ) (db : m.Database) where
  open m use {query}

  -- If the query gives rows without a NULL, each with one field for each column, the array has one
  -- object for each row, in order, with the text of each column under its name.
  pub get_file_list-zip :
      (texts : List (List Bytes))
      → (query (list_sql uid) db).0 ≡ QueryResult.rows (full texts)
      → All (λ row. length row ≡ length names) texts
      → get_file_list m names uid db ≡ done (map (zip names) texts, (query (list_sql uid) db).1)
  unfolding get_file_list result_objects
  get_file_list-zip texts e h = rw e (rw (row_objects-zip names texts h) refl)

  -- If the query gives rows without a NULL, each with one field for each column, and then a row
  -- with a NULL in the place of a column, as the join gives for a file that file_info does not
  -- have, NULL is copied as a string, whatever rows follow.
  pub get_file_list-null :
      (texts : List (List Bytes)) (before : List Bytes) (after : List (Option Bytes))
      (more : List (List (Option Bytes)))
      → (query (list_sql uid) db).0
        ≡ QueryResult.rows (full texts ++ ((map some before ++ (none ∷ after)) ∷ more))
      → All (λ row. length row ≡ length names) texts
      → length before < length names
      → get_file_list m names uid db ≡ fault
  unfolding get_file_list result_objects
  get_file_list-null texts before after more e h short =
      rw e (rw (row_objects-null names texts before after more h short) refl)
