-- ===== src/Upload/Body.antt =====
-- How src_cgi/upload_cgi.c takes the file out of the body of a request.
use cloud_disk_server.Prelude.{ℕ, ◌+◌, ◌-◌, Option, none, some, [], ◌∷◌, ◌++◌}
use cloud_disk_server.Prelude.{ltb, if◌then◌else◌, length, take, drop, replicate}
use cloud_disk_server.Prelude.Outcome.{Outcome, done, deref, ◌>>=◌}
use cloud_disk_server.Prelude.Text.{Bytes, codes}
use cloud_disk_server.Util.Names.{fitted}
use cloud_disk_server.Util.Strstr.{strstr}
use cloud_disk_server.Cgi.Memstr.{memstr}

-- `SIZE`, the bytes of `buf`.
abbrev pub body_size : ℕ
body_size = 1024000000

abbrev pub crlf : Bytes
crlf = 13 ∷ 10 ∷ []

-- `filename="`.
abbrev pub filename_mark : Bytes
filename_mark = codes "filename=" ++ (34 ∷ [])

-- `explore_content`, an array of 1024 bytes: the text before the first line end.
unfoldable pub separator : Bytes → Outcome Bytes
separator body = do explore_end ← deref (strstr body crlf); fitted 1024 (take explore_end body)

-- `filename`, an array of 1024 bytes, from what stands behind the mark.
unfoldable pub file_name : Bytes → Outcome Bytes
file_name text = do
  filename_end ← deref (strstr text (34 ∷ []))
  fitted 1024 (take filename_end text)

-- The bytes between `file_content_begin` and `file_content_end`, from what stands at the mark on;
-- `none` if the end is before the begin. `memstr` searches `len` bytes, no more, which may reach
-- into the zeros behind the body. A NULL from `memstr` gives a pointer to no object.
unfoldable pub content_before : Bytes → ℕ → Bytes → Outcome (Option Bytes)
content_before rest len explore_content = do
  end ← deref (memstr (take len (rest ++ replicate (len - length rest) 0)) explore_content)
  done (if ltb end 2 then none else some (take (end - 2) rest))

unfoldable pub file_content : Bytes → ℕ → Bytes → Outcome (Option Bytes)
file_content marked len explore_content = do
  i ← deref (strstr marked (crlf ++ crlf))
  content_before (drop (i + 4) marked) len explore_content

-- The steps from the read body on, which is followed by zeros in `buf`: the name and the content.
unfoldable pub parse_body : Bytes → ℕ → Outcome (Bytes × Option Bytes)
parse_body body len = do
  explore_content ← separator body
  i ← deref (strstr body filename_mark)
  filename ← file_name (drop (i + 10) body)
  content ← file_content (drop i body) len explore_content
  done (filename, content)
