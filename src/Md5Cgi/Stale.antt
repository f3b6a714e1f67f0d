-- ===== src/Md5Cgi/Stale.antt =====
-- What src_cgi/md5_cgi.c leaves of the name before, and where its loop ends.
use cloud_disk_server.Prelude.{
  ℕ, suc, ◌+◌, ◌-◌, ◌≤◌, ◌≡◌, refl, sym, ap, ◌∙◌, arith, Bool, false, Option, some, List, [], ◌∷◌,
  ◌++◌, length, take, drop, replicate, append_assoc, length-append, drop-append_right, drop-append,
  take-append, drop-drop, drop_at, length-replicate,
}
use cloud_disk_server.Prelude.Outcome.{done, ◌>>=◌}
use cloud_disk_server.Prelude.Text.{Bytes, codes}
use cloud_disk_server.Prelude.Buffer.{c_str, IsString, c_str-append-nul}
use cloud_disk_server.Redis.Hiredis.{Hiredis, minus_one}
use cloud_disk_server.Cgi.Mysql.{Mysql}
use cloud_disk_server.Cgi.Token.{check_user}
use cloud_disk_server.Cgi.Login.{Response, json, error}
use cloud_disk_server.Upload.Handler.{not_permitted}
use cloud_disk_server.Md5Cgi.Blocks.{clear, unquote}
use cloud_disk_server.Md5Cgi.Clean.{inside, unquote_kept, length-clear}
use cloud_disk_server.Md5Cgi.Handler.{Asked, Process, handle, judged_request}
use cloud_disk_server.Md5Cgi.Loop.{serve, continued, Reach, before, serve-append}

-- A text in two quotes.
abbrev pub quoted : Bytes → Bytes
quoted text = 34 ∷ (text ++ (34 ∷ []))

pub length-quoted : (text : Bytes) → length (quoted text) ≡ length text + 2
length-quoted text = omega (arith, length-append text (34 ∷ []))

pub inside-quoted : (text : Bytes) → inside (quoted text) ≡ text
inside-quoted text =
    ap (λ (k : ℕ). take k (text ++ (34 ∷ []))) {y = length text} (omega (arith, length-quoted text))
    ∙ take-append text (34 ∷ [])

pub unquote-quoted :
    (block text : Bytes)
    → length text ≤ length block
    → unquote block (quoted text) ≡ done (text ++ drop (length text) block)
unquote-quoted block text h =
    unquote_kept block (quoted text) (omega (arith, length-quoted text))
      (omega (arith, length-quoted text))
    ∙ ap done (
        ap (λ (t : Bytes). t ++ drop (length (quoted text) - 2) block) (inside-quoted text)
        ∙ ap (λ (k : ℕ). text ++ drop k block) {y = length text}
            (omega (arith, length-quoted text)))

-- Behind the cleared bytes the block is as it was.
pub behind_clear : (n k : ℕ) (block : Bytes) → n ≤ k → drop k (clear n block) ≡ drop k block
behind_clear n k block h =
    drop-append_right k (replicate n 0) (drop n block) (omega (arith, length-replicate {A = ℕ} n 0))
    ∙ ap (λ (j : ℕ). drop (k - j) (drop n block)) (length-replicate {A = ℕ} n 0)
    ∙ drop-drop (k - n) n block
    ∙ drop_at {m = n + (k - n)} {n = k} block (omega arith)

-- A name that is put into the block behind a longer one, after the bytes of a pointer are cleared,
-- has the rest of the longer name behind it: this is what the block then holds as a string, for a
-- name at least as long as a pointer, where the block holds the longer name and a NUL behind it,
-- and no byte of what is read is a NUL.
pub stale_name :
    (n : ℕ) (old rest name more : Bytes)
    → length name ≡ length old
    → n ≤ length name
    → IsString (name ++ rest)
    → (b : Bytes) × (unquote (clear n ((old ++ rest) ++ (0 ∷ more))) (quoted name) ≡ done b)
      × (c_str b ≡ some (name ++ rest))
stale_name n old rest name more same small string = (
  name ++ drop (length name) (clear n block),
  unquote-quoted (clear n block) name
      (omega (arith, length-clear n block (omega (arith, block_size)), block_size)),
  ap (λ (t : Bytes). c_str (name ++ t)) tail
      ∙ ap c_str (sym (append_assoc name rest (0 ∷ more)))
      ∙ c_str-append-nul (name ++ rest) more string,
)
  where
    block : Bytes
    block = (old ++ rest) ++ (0 ∷ more)

    block_size : length block ≡ length old + length rest + suc (length more)
    block_size = length-append (old ++ rest) (0 ∷ more) ∙ omega (arith, length-append old rest)

    tail : drop (length name) (clear n block) ≡ rest ++ (0 ∷ more)
    tail =
        behind_clear n (length name) block small
        ∙ ap (λ (k : ℕ). drop k block) same
        ∙ ap (drop (length old)) (append_assoc old rest (0 ∷ more))
        ∙ drop-append old (rest ++ (0 ∷ more))

module _ (h : Hiredis) (m : Mysql) (redis_conn : Option (h.Context)) (connected : Bool)
    (n : ℕ) where
  open h use {Server}
  open m use {Database}

  handle_refused :
      (r : Asked) (p : Process Server Database) (server : Server)
      → check_user h redis_conn (r.token) (p.server) ≡ done (minus_one, server)
      → handle h m redis_conn connected n r p
        ≡ done (
          json error (codes "msg") not_permitted,
          (
            false,
            record {
              server = server;
              database = p.database;
              file_md5 = p.file_md5;
              filename = p.filename;
            },
          ),
        )
  unfolding handle judged_request
  handle_refused r p server e = rw e refl

  serve_refused :
      (r : Asked) (rs : List Asked) (p : Process Server Database) (server : Server)
      → check_user h redis_conn (r.token) (p.server) ≡ done (minus_one, server)
      → serve h m redis_conn connected n (r ∷ rs) p
        ≡ done (
          json error (codes "msg") not_permitted ∷ [],
          (
            false,
            record {
              server = server;
              database = p.database;
              file_md5 = p.file_md5;
              filename = p.filename;
            },
          ),
        )
  unfolding serve continued
  serve_refused r rs p server e = rw (handle_refused r p server e) refl

  -- Requests that are answered, then one that is refused: what is served are the answers and the
  -- refusal, and the program has left its loop, so that no request behind it gets an answer.
  pub serve-refused :
      (p q : Process Server Database) (rs : List Asked) (answers : List Response) (r : Asked)
      (later : List Asked) (server : Server)
      → Reach h m redis_conn connected n p rs answers q
      → check_user h redis_conn (r.token) (q.server) ≡ done (minus_one, server)
      → serve h m redis_conn connected n (rs ++ (r ∷ later)) p
        ≡ done (
          answers ++ (json error (codes "msg") not_permitted ∷ []),
          (
            false,
            record {
              server = server;
              database = q.database;
              file_md5 = q.file_md5;
              filename = q.filename;
            },
          ),
        )
  serve-refused p q rs answers r later server reach e =
      serve-append h m redis_conn connected n p q rs answers (r ∷ later) reach
      ∙ ap (λ o. o >>= before h m redis_conn connected n answers) (serve_refused r later q server e)
