-- ===== src/Cgi/Sessions.antt =====
-- `check_user` of common/util_cgi.c on a server that answers as documented.
use cloud_disk_server.Prelude.{ℕ, ◌+◌, ◌<◌, Option, none, some, [], ◌++◌, ◌≡◌, refl, ◌∙◌, arith}
use cloud_disk_server.Prelude.{length, drop, replicate}
use cloud_disk_server.Prelude.{false, lt→ltb, ◌==◌}
use cloud_disk_server.Prelude.Int.{ℤ, pos}
use cloud_disk_server.Prelude.Outcome.{done}
use cloud_disk_server.Prelude.Text.{Bytes, codes, atoi}
use cloud_disk_server.Prelude.Buffer.{c_str, IsString, c_str-append-nul}
use cloud_disk_server.Redis.Hiredis.{Hiredis, minus_one, bind_done, lift}
use cloud_disk_server.Redis.Strings.{rop_get_string}
use cloud_disk_server.Redis.Store.{Store}
use cloud_disk_server.Redis.Sessions.{rop_get_string-some, rop_get_string-none}
use cloud_disk_server.Cgi.Token.{check_user, token_key, judged}

abbrev pub key_of : Bytes → Bytes
key_of t = codes "token_" ++ t

pub token_key_lem : (n : ℕ) (t : Bytes) → length t + 6 < n → token_key n (some t) ≡ done (key_of t)
unfolding token_key
token_key_lem n t h = rw (lt→ltb (length (key_of t)) n (omega arith)) refl

pub nonempty_test : (t : Bytes) → 0 < length t → (length t == 0) ≡ false
nonempty_test t h = ground arith

module _ (h : Hiredis) (c : h.Context) (st : Store h c) where
  open h use {Server, command}
  open st use {value_at, set_reply, set_value, get_reply, expire_reply, expire_value}

  module _ (t : Bytes) (s : Server) (nonempty : 0 < length t) (short : length t < 506) where
    judged_lem :
        (buffer text : Bytes) → c_str buffer ≡ some text → judged (some t) buffer ≡ done (atoi text)
    unfolding judged
    judged_lem buffer text str = rw (nonempty_test t nonempty) (rw str refl)

    check_user_read :
        (z : ℤ) (buffer text : Bytes)
        → rop_get_string h (some c) (key_of t) (replicate 512 0) s ≡ done ((z, buffer), s)
        → c_str buffer ≡ some text
        → check_user h (some c) (some t) s ≡ done (atoi text, s)
    unfolding check_user
    check_user_read z buffer text got str =
        bind_done (lift (token_key 512 (some t))) _ (rw (token_key_lem 512 t (omega arith)) refl)
        ∙ bind_done (rop_get_string h (some c) (key_of t) (replicate 512 0)) _ got
        ∙ rw (judged_lem buffer text str) refl

    pub check_user_held :
        (v : Bytes)
        → value_at s (key_of t) ≡ some v
        → IsString v
        → length v < 512
        → check_user h (some c) (some t) s ≡ done (atoi v, s)
    check_user_held v e ok fits =
        check_user_read (pos 0) _ v
          (rop_get_string-some h c st (key_of t) v (replicate 512 0) s e fits)
          (c_str-append-nul v (drop (length v + 1) (replicate 512 0)) ok)

    check_user_unknown :
        value_at s (key_of t) ≡ none → check_user h (some c) (some t) s ≡ done (pos 0, s)
    unfolding atoi
    check_user_unknown e =
        check_user_read minus_one (replicate 512 0) []
          (rop_get_string-none h c st (key_of t) (replicate 512 0) s e)
          (c_str-append-nul [] (replicate 511 0) tt)

  -- The user that a token stands for.
  abbrev pub session_user : Option Bytes → ℤ
  session_user none = pos 0
  session_user (some v) = atoi v

  abbrev pub IsSession : Option Bytes → Type 0
  IsSession none = Unit
  IsSession (some v) = IsString v × (length v < 512)

  pub check_user_at :
      (t : Bytes) (s : Server) (o : Option Bytes)
      → 0 < length t
      → length t < 506
      → value_at s (key_of t) ≡ o
      → IsSession o
      → check_user h (some c) (some t) s ≡ done (session_user o, s)
  check_user_at t s none nonempty short e ok = check_user_unknown t s nonempty short e
  check_user_at t s (some v) nonempty short e ok = check_user_held t s nonempty short v e ok.0 ok.1

  -- On a server that answers GET as documented, for a token of 1 to 505 bytes `check_user` returns
  -- the number that the server holds for it, and 0, not -1, if the server holds nothing for it; the
  -- server is left as it is. What is held is a string of less than 512 bytes.
  pub check_user-session_user :
      (t : Bytes) (s : Server)
      → 0 < length t
      → length t < 506
      → IsSession (value_at s (key_of t))
      → check_user h (some c) (some t) s ≡ done (session_user (value_at s (key_of t)), s)
  check_user-session_user t s nonempty short ok =
      check_user_at t s (value_at s (key_of t)) nonempty short refl ok
