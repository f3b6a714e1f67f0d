-- ===== src/Cgi/MysqlText.antt =====
-- What `process_result_test` and `print_error` of common/deal_mysql.c print.
use cloud_disk_server.Prelude.{
  ℕ, ◌≢◌, ◌≡◌, refl, ap, ap₂, ◌∙◌, arith, Option, none, some, List, [], ◌∷◌, ◌++◌, map, length, All,
  All-append,
}
use cloud_disk_server.Prelude.Int.{pos}
use cloud_disk_server.Prelude.Decimal.{decimal}
use cloud_disk_server.Prelude.Split.{split, HasNo, split-piece, split-last}
use cloud_disk_server.Prelude.Text.{Bytes, codes}

-- A field; one that is NULL is printed as a word.
abbrev pub shown : Option Bytes → Bytes
shown none = codes "NULL"
shown (some text) = text

-- The loop over the columns, and a tab before each but the first.
unfoldable pub row_text : Option Bytes → List (Option Bytes) → Bytes
row_text field [] = shown field
row_text field (next ∷ rest) = shown field ++ (9 ∷ row_text next rest)

-- A row has a first field and the others.
abbrev pub Row : Type 0
Row = Option Bytes × List (Option Bytes)

unfoldable pub rows_text : List Row → Bytes
rows_text [] = []
rows_text ((first, others) ∷ rest) = row_text first others ++ (10 ∷ rows_text rest)

-- `print_error`, with the values of `mysql_errno` and `mysql_error`.
unfoldable pub print_error : Bytes → ℕ × Bytes → Bytes
print_error title (number, message) =
    title
    ++ (codes ":"
        ++ (10
            ∷ (codes "Error "
                ++ (decimal (pos number) ++ (codes " (" ++ (message ++ (41 ∷ 10 ∷ [])))))))

-- What stands on the standard output, and on that for errors. The last value is the error of
-- `mysql_fetch_row`, if there is one.
unfoldable pub process_result_test : List Row → Option (ℕ × Bytes) → Bytes × Bytes
process_result_test rows none =
    (rows_text rows ++ (decimal (pos (length rows)) ++ (codes " rows returned " ++ (10 ∷ []))), [])
process_result_test rows (some e) =
    (rows_text rows, print_error (codes "mysql_fetch_row() failed") e)

-- A field without a tab or a line end in it.
abbrev pub IsCell : Option Bytes → Type 0
IsCell field = HasNo 9 (shown field) × HasNo 10 (shown field)

abbrev pub IsPlainRow : Row → Type 0
IsPlainRow (first, others) = IsCell first × All IsCell others

split-row_text :
    (first : Option Bytes) (others : List (Option Bytes))
    → IsCell first
    → All IsCell others
    → split 9 (row_text first others) ≡ shown first ∷ map shown others
unfolding row_text
split-row_text first [] cell cells = split-last 9 (shown first) cell.0
split-row_text first (next ∷ rest) cell (next_cell, cells) =
    split-piece 9 (shown first) (row_text next rest) cell.0
    ∙ ap (◌∷◌ (shown first)) (split-row_text next rest next_cell cells)

row_text-HasNo :
    (first : Option Bytes) (others : List (Option Bytes))
    → IsCell first
    → All IsCell others
    → HasNo 10 (row_text first others)
unfolding row_text
row_text-HasNo first [] cell cells = cell.1
row_text-HasNo first (next ∷ rest) cell (next_cell, cells) =
    All-append (λ x. x ≢ 10) (shown first) (9 ∷ row_text next rest) cell.1
      ((λ e. absurd (omega (arith, e))), row_text-HasNo next rest next_cell cells)

abbrev cells_of : Row → List Bytes
cells_of (first, others) = shown first ∷ map shown others

-- The rows whose fields have no tab and no line end can be read back from what is printed: the
-- lines, split at the tabs, are the fields, with the word for those that are NULL, before one last
-- empty line.
pub split-rows_text :
    (rows : List Row)
    → All IsPlainRow rows
    → map (split 9) (split 10 (rows_text rows)) ≡ map cells_of rows ++ (([] ∷ []) ∷ [])
unfolding rows_text split
split-rows_text [] plain = refl
split-rows_text ((first, others) ∷ rest) ((cell, cells), plain) =
    ap (map (split 9)) (
      split-piece 10 (row_text first others) (rows_text rest)
        (row_text-HasNo first others cell cells))
    ∙ ap₂ (λ (c : List Bytes) (cs : List (List Bytes)). c ∷ cs)
        (split-row_text first others cell cells) (split-rows_text rest plain)
