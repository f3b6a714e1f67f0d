-- ===== src/Cgi/Idle.antt =====
-- What the handlers that only read the body of a request print: dealfile_cgi.c, dealsharefile_cgi.c
-- and sharefiles_cgi.c of src_cgi/.
use cloud_disk_server.Prelude.{
  ℕ, zero, suc, ◌+◌, ◌≤◌, ◌<◌, ◌≡◌, refl, ap, arith, Bool, true, false, List, [], ◌∷◌, ◌++◌,
  if◌then◌else◌, length, replicate, All, lt→ltb,
}
use cloud_disk_server.Prelude.Int.{ℤ, pos, negsuc}
use cloud_disk_server.Cgi.Body.{
  Incoming, exited, announced, read_bytes, receive_length, receive, content_type, survives, idle,
}

-- A request whose announced bytes are all there, with memory for them.
abbrev IsWholeAt : ℤ → Incoming → Type 0
IsWholeAt (negsuc n) r = Unit
IsWholeAt (pos n) r = (n ≤ length (r.stdin)) × (r.memory n ≡ true)

abbrev pub IsWhole : Incoming → Type 0
IsWhole r = IsWholeAt (announced (r.content_length)) r

receive_whole : (len : ℤ) (r : Incoming) → IsWholeAt len r → survives (receive_length len r) ≡ true
unfolding receive_length read_bytes survives
receive_whole (negsuc n) r whole = refl
receive_whole (pos zero) r whole = refl
receive_whole (pos (suc n)) r whole = rw whole.1 (ground (arith, whole.0))

no_survivor : (memory : Bool) → survives (if memory then exited else exited) ≡ false
unfolding survives
no_survivor true = refl
no_survivor false = refl

receive_short :
    (n : ℕ) (r : Incoming) → length (r.stdin) < n → survives (receive_length (pos n) r) ≡ false
unfolding receive_length read_bytes
receive_short zero r short = elim short [ ]
receive_short (suc n) r short =
    rw (lt→ltb (length (r.stdin)) (suc n) short) (no_survivor (r.memory (suc n)))

-- Requests whose announced bytes are all there and for whose bodies there is memory, then one that is
-- cut short: each of them gets the line that is printed first and nothing else, the program ends,
-- and no request behind it gets anything.
pub idle_cut :
    (n : ℕ) (rs : List Incoming) (r : Incoming) (later : List Incoming)
    → All IsWhole rs
    → announced (r.content_length) ≡ pos n
    → length (r.stdin) < n
    → idle (rs ++ (r ∷ later)) ≡ (replicate (length rs + 1) content_type, false)
unfolding idle receive
idle_cut n [] r later whole e short = rw e (rw (receive_short n r short) refl)
idle_cut n (q ∷ rs) r later whole e short =
    rw (receive_whole (announced (q.content_length)) q whole.0) (
      rw (idle_cut n rs r later whole.1 e short) (
        ap (λ (k : ℕ). (replicate k content_type, false)) {x = suc (length rs + 1)}
          {y = suc (length rs) + 1} (omega arith)))
