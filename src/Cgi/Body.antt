-- ===== src/Cgi/Body.antt =====
-- How the handlers of src_cgi/ read the body of a request, all with the same lines but for
-- upload_cgi.c; and the handlers that do no more than that, dealfile_cgi.c, dealsharefile_cgi.c and
-- sharefiles_cgi.c.
use cloud_disk_server.Prelude.{
  ℕ, zero, suc, Bool, true, false, Option, none, some, List, [], ◌∷◌, ◌++◌, ltb, if◌then◌else◌,
  length, take,
}
use cloud_disk_server.Prelude.Int.{ℤ, pos, negsuc}
use cloud_disk_server.Prelude.Text.{Bytes, codes, signed, skip_space}

-- What a request comes with: `getenv("CONTENT_LENGTH")`, the bytes on standard input, whether
-- `malloc` has the memory, and what lies behind the block that it gives.
pub record Incoming : Type 0 where
  pub content_length : Option Bytes
  pub stdin : Bytes
  pub memory : ℕ → Bool
  pub beyond : Bytes

-- No body; `exit(1)`; or the text at `receivData`, to which no NUL is written.
pub data Body : Type 0 where
  no_body exited : Body
  text_at : Bytes → Body

-- `len`: `atol`, of numbers that fit a `long`.
unfoldable pub announced : Option Bytes → ℤ
announced none = pos 0
announced (some text) = signed (skip_space text)

-- A body of `len` bytes, of which `fread` gives those that there are.
unfoldable pub read_bytes : ℕ → Incoming → Body
read_bytes len r =
    let text = text_at (take len (r.stdin) ++ r.beyond) in
    let read = if ltb (length (r.stdin)) len then exited else text in
    if r.memory len then read else exited

unfoldable pub receive_length : ℤ → Incoming → Body
receive_length (negsuc n) r = no_body
receive_length (pos zero) r = no_body
receive_length (pos (suc n)) r = read_bytes (suc n) r

unfoldable pub receive : Incoming → Body
receive r = receive_length (announced (r.content_length)) r

-- The line that every handler prints first.
abbrev pub content_type : Bytes
content_type = codes "Content-type: text/html;charset=utf-8" ++ (13 ∷ 10 ∷ 13 ∷ 10 ∷ [])

-- Whether an idle handler goes on behind a body.
unfoldable pub survives : Body → Bool
survives exited = false
survives no_body = true
survives (text_at text) = true

-- What the idle handlers print for the requests, up to the one that ends the program, and whether
-- they still run.
unfoldable pub idle : List Incoming → List Bytes × Bool
idle [] = ([], true)
idle (r ∷ rs) =
    let rest = idle rs in
    if survives (receive r) then (content_type ∷ rest.0, rest.1) else (content_type ∷ [], false)

-- The three programs.
abbrev pub dealfile : List Incoming → List Bytes × Bool
dealfile = idle

abbrev pub dealsharefile : List Incoming → List Bytes × Bool
dealsharefile = idle

abbrev pub sharefiles : List Incoming → List Bytes × Bool
sharefiles = idle
