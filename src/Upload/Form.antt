-- ===== src/Upload/Form.antt =====
-- What src_cgi/upload_cgi.c reads out of a body as browsers send it.
use cloud_disk_server.Prelude.{
  ℕ, ◌+◌, ◌-◌, ◌≤◌, ◌<◌, ◌≡◌, refl, sym, ap, ◌∙◌, arith, none, some, [], ◌∷◌, ◌++◌, length, take,
  drop, ltb, if◌then◌else◌, append_assoc, length-append, length-drop, take-append, drop-append,
  take-append_left, take-append_right, drop-append_left, drop-drop,
}
use cloud_disk_server.Prelude.Outcome.{done}
use cloud_disk_server.Prelude.Text.{Bytes}
use cloud_disk_server.Util.Names.{fitted_lem}
use cloud_disk_server.Util.Strstr.{strstr, Lacks, strstr-append}
use cloud_disk_server.Cgi.Memstr.{memstr}
use cloud_disk_server.Cgi.FirstPlace.{IsAt, memstr_found}
use cloud_disk_server.Upload.Body.{
  crlf, filename_mark, separator, file_name, content_before, file_content, parse_body,
}

-- A separator line, the headers with the name of the file, the content, and the separator again.
pub record Form : Type 0 where
  pub line : Bytes
  pub head : Bytes
  pub name : Bytes
  pub middle : Bytes
  pub content : Bytes
  pub tail : Bytes

module _ (f : Form) where
  -- From the mark on.
  abbrev pub marked : Bytes
  marked =
      filename_mark
      ++ (f.name
          ++ ((34 ∷ f.middle) ++ (crlf ++ crlf ++ (f.content ++ (crlf ++ (f.line ++ f.tail))))))

  abbrev pub body_of : Bytes
  body_of = f.line ++ (crlf ++ (f.head ++ marked))

-- The line and the name are shorter than their arrays and end at the byte that ends them; the mark
-- and the empty line are the first ones; and the line stands in the content and behind it only
-- where the content has ended.
pub record IsForm (f : Form) : Type 0 where
  pub line_size : length (f.line) < 1024
  pub line_bytes : Lacks 13 (f.line)
  pub line_some : 0 < length (f.line)
  pub name_size : length (f.name) < 1024
  pub name_bytes : Lacks 34 (f.name)
  pub first_mark : strstr (body_of f) filename_mark ≡ some (length (f.line ++ (crlf ++ f.head)))
  pub first_empty :
      strstr (marked f) (crlf ++ crlf)
      ≡ some (length (filename_mark ++ (f.name ++ (34 ∷ f.middle))))
  pub first_line :
      (j : ℕ) → j < length (f.content) + 2 → ¬ IsAt (f.content ++ (crlf ++ f.line)) (f.line) j

separator_lem :
    (line rest : Bytes)
    → length line < 1024
    → Lacks 13 line
    → separator (line ++ (crlf ++ rest)) ≡ done line
unfolding separator
separator_lem line rest size lacks =
    rw (strstr-append line 13 (10 ∷ []) rest lacks (omega arith), take-append line (crlf ++ rest))
      (fitted_lem 1024 line size)

file_name_lem :
    (name rest : Bytes)
    → length name < 1024
    → Lacks 34 name
    → file_name (name ++ (34 ∷ rest)) ≡ done name
unfolding file_name
file_name_lem name rest size lacks =
    rw (strstr-append name 34 [] rest lacks (omega arith), take-append name (34 ∷ rest))
      (fitted_lem 1024 name size)

take_append_at : (n : ℕ) (xs ys : Bytes) → length xs ≡ n → take n (xs ++ ys) ≡ xs
take_append_at n xs ys e = rw (sym e) (take-append xs ys)

drop_append_at : (n : ℕ) (xs ys : Bytes) → length xs ≡ n → drop n (xs ++ ys) ≡ ys
drop_append_at n xs ys e = rw (sym e) (drop-append xs ys)

-- What stands at an offset is not changed by what follows.
IsAt-front :
    (front more sub : Bytes) (j : ℕ)
    → j + length sub ≤ length front
    → IsAt (front ++ more) sub j
    → IsAt front sub j
IsAt-front front more sub j fits at =
    sym (
      ap (take (length sub)) (drop-append_left j front more (omega arith))
      ∙ take-append_left (length sub) (drop j front) more (omega (arith, length-drop j front)))
    ∙ at

behind_lead : (lead line more : Bytes) → IsAt (lead ++ (line ++ more)) line (length lead)
behind_lead lead line more = rw (drop-append lead (line ++ more)) (take-append line more)

cut_lem :
    (n : ℕ) (rest content : Bytes)
    → take n rest ≡ content
    → (if ltb (n + 2) 2 then none else some (take (n + 2 - 2) rest)) ≡ some content
cut_lem n rest content e = ground (arith, e)

module _ (content : Bytes) (y : ℕ) (ys : Bytes) where
  abbrev line : Bytes
  line = y ∷ ys

  abbrev lead : Bytes
  lead = content ++ crlf

  length-lead : length lead ≡ length content + 2
  length-lead = length-append content crlf

  regroup : (more : Bytes) → (content ++ (crlf ++ line)) ++ more ≡ lead ++ (line ++ more)
  regroup more =
      ap (λ (t : Bytes). t ++ more) (sym (append_assoc content crlf line))
      ∙ append_assoc lead line more

  length-front : length (content ++ (crlf ++ line)) ≡ length content + 2 + length line
  length-front = length-append content (crlf ++ line) ∙ omega arith

  found_line :
      (more : Bytes)
      → ((j : ℕ) → j < length content + 2 → ¬ IsAt (content ++ (crlf ++ line)) line j)
      → memstr ((content ++ (crlf ++ line)) ++ more) line ≡ some (length content + 2)
  found_line more first =
      memstr_found _ y ys (length content + 2)
        (coe 0 1 (i. IsAt (sym (regroup more) i) line (length-lead i)) (behind_lead lead line more))
        (omega (arith, length-append (content ++ (crlf ++ line)) more, length-front))
        (λ j before at.
          first j before
            (IsAt-front (content ++ (crlf ++ line)) more line j (omega (arith, length-front)) at))

  content_before_lem :
      (tail : Bytes) (len : ℕ)
      → length content + 2 + length line ≤ len
      → ((j : ℕ) → j < length content + 2 → ¬ IsAt (content ++ (crlf ++ line)) line j)
      → content_before ((content ++ (crlf ++ line)) ++ tail) len line ≡ done (some content)
  unfolding content_before
  content_before_lem tail len reach first =
      rw
        (
          append_assoc (content ++ (crlf ++ line)) tail _,
          take-append_right len (content ++ (crlf ++ line)) _ (omega (arith, length-front)),
          found_line _ first,
        )
        (ap done (
          cut_lem (length content) _ content (
            ap (take (length content)) (append_assoc content (crlf ++ line) tail)
            ∙ take-append content _)))

-- The same with a line that is given by its length.
content_of :
    (content line tail : Bytes) (len : ℕ)
    → 0 < length line
    → length content + 2 + length line ≤ len
    → ((j : ℕ) → j < length content + 2 → ¬ IsAt (content ++ (crlf ++ line)) line j)
    → content_before (content ++ (crlf ++ (line ++ tail))) len line ≡ done (some content)
content_of content [] tail len nonempty reach first = absurd (omega arith)
content_of content (y ∷ ys) tail len nonempty reach first =
    ap (λ (t : Bytes). content_before t len (y ∷ ys))
      (sym (append_assoc content (crlf ++ (y ∷ ys)) tail))
    ∙ content_before_lem content y ys tail len reach first

-- A body is longer than its content, a line end and its separator line.
pub length-body_of : (f : Form) → length (f.content) + 2 + length (f.line) ≤ length (body_of f)
length-body_of f = omega (
  arith,
  length-append (f.line) (crlf ++ (f.head ++ marked f)),
  length-append (f.head) (marked f),
  length-append (f.name)
      ((34 ∷ f.middle) ++ (crlf ++ crlf ++ (f.content ++ (crlf ++ (f.line ++ f.tail))))),
  length-append (f.middle) (crlf ++ crlf ++ (f.content ++ (crlf ++ (f.line ++ f.tail)))),
  length-append (f.content) (crlf ++ (f.line ++ f.tail)),
)

module _ (f : Form) (h : IsForm f) where
  abbrev front : Bytes
  front = f.line ++ (crlf ++ f.head)

  body_front : body_of f ≡ front ++ marked f
  body_front = sym (append_assoc (f.line) (crlf ++ f.head) (marked f))

  at_mark : drop (length front) (body_of f) ≡ marked f
  at_mark = ap (drop (length front)) body_front ∙ drop-append front (marked f)

  behind_mark : drop (length front + 10) (body_of f) ≡ drop 10 (marked f)
  behind_mark = sym (drop-drop 10 (length front) (body_of f)) ∙ ap (drop 10) at_mark

  abbrev headers : Bytes
  headers = filename_mark ++ (f.name ++ (34 ∷ f.middle))

  abbrev after : Bytes
  after = f.content ++ (crlf ++ (f.line ++ f.tail))

  marked-headers : marked f ≡ headers ++ (crlf ++ crlf ++ after)
  marked-headers =
      ap (λ (t : Bytes). filename_mark ++ t)
        (sym (append_assoc (f.name) (34 ∷ f.middle) (crlf ++ crlf ++ after)))

  behind_empty : drop (length headers + 4) (marked f) ≡ after
  behind_empty =
      sym (drop-drop 4 (length headers) (marked f))
      ∙ ap (drop 4)
          (ap (drop (length headers)) marked-headers ∙ drop-append headers (crlf ++ crlf ++ after))

  file_content_lem :
      (len : ℕ)
      → length (f.content) + 2 + length (f.line) ≤ len
      → file_content (marked f) len (f.line) ≡ done (some (f.content))
  unfolding file_content
  file_content_lem len reach =
      rw (h.first_empty, behind_empty)
        (content_of (f.content) (f.line) (f.tail) len (h.line_some) reach (h.first_line))

  -- Of a well-formed body the name and the content are read out, if the announced length is at
  -- least that of the content, a line end and the separator line together. Well-formed is a separator line, headers with the name in quotes, an empty line, the content, a
  -- line end and the separator again, where the line is not empty and the name ends at its quote,
  -- both are shorter than their arrays and have no NUL, the mark and the empty line are the first
  -- ones, and the separator does not stand earlier behind the headers.
  pub parse_body_form :
      (len : ℕ)
      → length (f.content) + 2 + length (f.line) ≤ len
      → parse_body (body_of f) len ≡ done (f.name, some (f.content))
  unfolding parse_body
  parse_body_form len reach =
      rw
        (
          separator_lem (f.line) (f.head ++ marked f) (h.line_size) (h.line_bytes),
          h.first_mark,
          behind_mark,
          at_mark,
          file_name_lem (f.name)
              (f.middle ++ (crlf ++ crlf ++ (f.content ++ (crlf ++ (f.line ++ f.tail)))))
              (h.name_size) (h.name_bytes),
          file_content_lem len reach,
        )
        refl
