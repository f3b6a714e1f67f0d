-- ===== src/Upload/Refused.antt =====
-- Uploads without a token.
use cloud_disk_server.Prelude.{Option, none, some, Bool, ◌≡◌, refl, replicate}
use cloud_disk_server.Prelude.Outcome.{done}
use cloud_disk_server.Prelude.Text.{Bytes, codes}
use cloud_disk_server.Redis.Hiredis.{Hiredis, minus_one, bind_done, lift}
use cloud_disk_server.Redis.Strings.{rop_get_string}
use cloud_disk_server.Redis.Store.{Store}
use cloud_disk_server.Redis.Sessions.{rop_get_string-none}
use cloud_disk_server.Cgi.Mysql.{Mysql}
use cloud_disk_server.Cgi.Token.{check_user, token_key, judged}
use cloud_disk_server.Cgi.Login.{json, error}
use cloud_disk_server.Upload.Store.{System}
use cloud_disk_server.Upload.Handler.{World, not_permitted, judged_upload, upload}

module _ (h : Hiredis) (c : h.Context) (st : Store h c) where
  open h use {Server}
  open st use {value_at}

  check_user-none :
      (s : Server)
      → value_at s (codes "token_(null)") ≡ none
      → check_user h (some c) none s ≡ done (minus_one, s)
  unfolding check_user judged token_key
  check_user-none s nothing_held =
      bind_done (rop_get_string h (some c) (codes "token_(null)") (replicate 512 0))
        (λ got. lift (judged none got.1))
        (rop_get_string-none h c st (codes "token_(null)") (replicate 512 0) s nothing_held)

  -- On a server that answers GET as documented and holds nothing for the text that a missing token
  -- is printed as, an upload without a token, whatever it brings, is answered with an error, and
  -- the server, the database and the disk are as before.
  pub upload_no_token :
      (m : Mysql) (sys : System) (connected : Bool) (stack : Bytes) (length_text : Option Bytes)
      (input : Bytes) (w : World Server m.Database sys.Disk)
      → value_at (w.server) (codes "token_(null)") ≡ none
      → upload h m sys
          (some c)
          connected
          stack
          (record { token = none; content_length = length_text; input = input })
          w
        ≡ done (json error (codes "msg") not_permitted, w)
  unfolding upload judged_upload
  upload_no_token m sys connected stack length_text input w nothing_held =
      rw (check_user-none (w.server) nothing_held) refl
