-- ===== src/Md5Cgi/Invariant.antt =====
-- What holds of the program of src_cgi/md5_cgi.c between any two requests.
use cloud_disk_server.Prelude.{
  ℕ, ◌-◌, ◌≤◌, ◌≡◌, ◌∙◌, arith, Bool, Option, none, some, List, length, drop, All, leb, ◌&&◌,
}
use cloud_disk_server.Prelude.Int.{ℤ, pos, eqb_ℤ, ltb_ℤ}
use cloud_disk_server.Prelude.Outcome.{
  done, deref, OnDone, OnDone-bind, OnDone-any, OnDone-if, OnDone-test,
}
use cloud_disk_server.Prelude.Text.{Bytes}
use cloud_disk_server.Prelude.Buffer.{c_str, IsString, length-strncpy}
use cloud_disk_server.Redis.Hiredis.{Hiredis, minus_one}
use cloud_disk_server.Cgi.Mysql.{Mysql}
use cloud_disk_server.Cgi.Token.{check_user}
use cloud_disk_server.Cgi.Login.{Request, Response}
use cloud_disk_server.Util.UserFile.{insert_user_file_list_table}
use cloud_disk_server.Md5Cgi.Blocks.{clear, unquote}
use cloud_disk_server.Md5Cgi.Clean.{
  IsClean, IsDigestText, clear-IsClean, length-clear, kept-IsClean, unquote_kept, unquote_digest,
  inside,
}
use cloud_disk_server.Md5Cgi.Handler.{
  Received, Asked, Process, check_file_exists, share_file, found_file, answer_request, take_request,
  judged_request, handle,
}
use cloud_disk_server.Md5Cgi.Loop.{Step, served, Reach, none_yet, and_then}

-- Both blocks have their size, and `file_md5` has zeros behind a digest.
pub record IsSound {Server Database : Type 0} (p : Process Server Database) : Type 0 where
  pub md5_clean : IsClean (p.file_md5)
  pub name_size : length (p.filename) ≡ 512

-- A request whose field `md5` is 32 bytes in quotes, if it has one.
abbrev pub IsDigestBody : Received → Type 0
IsDigestBody (Received.body (Request.fields name (some md5))) = IsDigestText md5
IsDigestBody _ = Unit

abbrev AreSound : Bytes → Bytes → Type 0
AreSound file_md5 filename = IsClean file_md5 × (length filename ≡ 512)

unquote-IsClean :
    (block text : Bytes) → IsDigestText text → IsClean block → OnDone IsClean (unquote block text)
unquote-IsClean block text h c =
    rw (unquote_kept block text (omega (arith, h)) (omega (arith, h, c.size)))
      (kept-IsClean block text h c)

unquote_size :
    (block text : Bytes) → length block ≡ 512 → OnDone (λ b. length b ≡ 512) (unquote block text)
unfolding unquote
unquote_size block text size =
    OnDone-test (λ (b : Bytes). length b ≡ 512)
      (leb 2 (length text) && leb (length text - 2) (length block)) _
      (λ e. length-strncpy block (drop 1 text) (length text - 2) (ground (arith, e)) ∙ size)

module _ (m : Mysql) (connected : Bool) (uid : ℤ) where
  open m use {Database}

  abbrev LeavesSound : Response × (Database × (Bytes × Bytes)) → Type 0
  LeavesSound a = AreSound a.1.1.0 a.1.1.1

  share_file_sound :
      (md5 name file_md5 filename : Bytes) (db : Database)
      → IsDigestText md5
      → AreSound file_md5 filename
      → OnDone LeavesSound (share_file m connected uid md5 name file_md5 filename db)
  unfolding share_file
  share_file_sound md5 name file_md5 filename db h sound =
      OnDone-bind IsClean LeavesSound (unquote file_md5 md5) _
        (unquote-IsClean file_md5 md5 h sound.0)
        (λ b clean.
          OnDone-bind (λ t. length t ≡ 512) LeavesSound (unquote filename name) _
            (unquote_size filename name sound.1)
            (λ n size. OnDone-bind _ LeavesSound (deref (c_str b)) _ (OnDone-any _) (λ t any.
              OnDone-bind _ LeavesSound (deref (c_str n)) _ (OnDone-any _) (λ u any'.
                OnDone-bind _ LeavesSound (insert_user_file_list_table m connected uid t u db) _
                  (OnDone-any _) (λ row any''. (clean, size))))))

  answer_sound :
      (request : Request) (file_md5 filename : Bytes) (db : Database)
      → IsDigestBody (Received.body request)
      → AreSound file_md5 filename
      → OnDone LeavesSound (answer_request m connected uid request file_md5 filename db)
  unfolding answer_request found_file
  answer_sound Request.unparsed file_md5 filename db h sound = sound
  answer_sound (Request.fields none none) file_md5 filename db h sound = sound
  answer_sound (Request.fields none (some md5)) file_md5 filename db h sound = sound
  answer_sound (Request.fields (some name) none) file_md5 filename db h sound = sound
  answer_sound (Request.fields (some name) (some md5)) file_md5 filename db h sound =
      OnDone-bind _ LeavesSound (check_file_exists m md5 db) _ (OnDone-any _) (λ found any.
        OnDone-if LeavesSound (ltb_ℤ (pos 0) found.0)
          (share_file m connected uid md5 name file_md5 filename found.1) _
          (share_file_sound md5 name file_md5 filename found.1 h sound) sound)

module _ (h : Hiredis) (m : Mysql) (redis_conn : Option (h.Context)) (connected : Bool)
    (n : ℕ) where
  open h use {Server}
  open m use {Database}

  abbrev GoesSound : Response × (Bool × Process Server Database) → Type 0
  GoesSound a = IsSound a.1.1

  take_request_sound :
      (uid : ℤ) (received : Received) (p : Process Server Database)
      → n ≤ 32
      → IsDigestBody received
      → IsSound p
      → OnDone GoesSound (take_request h m redis_conn connected n uid received p)
  unfolding take_request
  take_request_sound uid Received.empty_body p small body sound = sound
  take_request_sound uid Received.short_body p small body sound = sound
  take_request_sound uid (Received.body request) p small body sound =
      OnDone-bind (LeavesSound m connected uid) GoesSound
        (answer_request m connected uid request (clear n (p.file_md5)) (clear n (p.filename))
          (p.database))
        _
        (answer_sound m connected uid request _ _ (p.database) body (
          clear-IsClean n (p.file_md5) small (sound.md5_clean),
          length-clear n (p.filename) (omega (arith, sound.name_size)) ∙ sound.name_size,
        ))
        (λ end ok. record { md5_clean = ok.0; name_size = ok.1 })

  handle_sound :
      (r : Asked) (p : Process Server Database)
      → n ≤ 32
      → IsDigestBody (r.received)
      → IsSound p
      → OnDone GoesSound (handle h m redis_conn connected n r p)
  unfolding handle judged_request
  handle_sound r p small body sound =
      OnDone-bind (λ a. Unit {0}) GoesSound (check_user h redis_conn (r.token) (p.server)) _
        (OnDone-any _)
        (λ user any.
          OnDone-if GoesSound (eqb_ℤ user.0 minus_one) _ _
            (record { md5_clean = sound.md5_clean; name_size = sound.name_size })
            (take_request_sound user.0 (r.received) _ small body
              (record { md5_clean = sound.md5_clean; name_size = sound.name_size })))

  Step-IsSound :
      (r : Asked) (p q : Process Server Database) (a : Response)
      → n ≤ 32
      → IsDigestBody (r.received)
      → IsSound p
      → Step h m redis_conn connected n r p a q
      → IsSound q
  Step-IsSound r p _ _ small body sound (served a q e) =
      coe 0 1 (i. OnDone GoesSound (e i)) (handle_sound r p small body sound)

  -- Where a pointer has at most 32 bytes, requests whose digests are 32 bytes in quotes lead from a
  -- process with blocks of 512 bytes, of which `file_md5` has zeros behind its first 32, only to
  -- such processes.
  pub Reach-IsSound :
      (rs : List Asked) (answers : List Response) (p q : Process Server Database)
      → n ≤ 32
      → All (λ r. IsDigestBody (r.received)) rs
      → IsSound p
      → Reach h m redis_conn connected n p rs answers q
      → IsSound q
  Reach-IsSound _ _ _ _ small bodies sound (none_yet p) = sound
  Reach-IsSound _ _ _ _ small bodies sound (and_then p q t r rs answer answers taken reach) =
      Reach-IsSound rs answers q t small bodies.1
        (Step-IsSound r p q answer small bodies.0 sound taken) reach

  -- Where a pointer has at most 32 bytes, in any process that requests with digests of 32 bytes in
  -- quotes lead to, from one with blocks of 512 bytes, of which `file_md5` has zeros behind its
  -- first 32, a digest of 32 bytes without a NUL in quotes is put into the cleared block without a
  -- fault, and the string in the block is the digest alone.
  pub reached_digest :
      (rs : List Asked) (answers : List Response) (p q : Process Server Database) (text : Bytes)
      → n ≤ 32
      → All (λ r. IsDigestBody (r.received)) rs
      → IsSound p
      → Reach h m redis_conn connected n p rs answers q
      → IsDigestText text
      → IsString (inside text)
      → (b : Bytes) × (unquote (clear n (q.file_md5)) text ≡ done b)
        × (c_str b ≡ some (inside text))
  reached_digest rs answers p q text small bodies sound reach digest string =
      let (b, taken, clean, read) =
        unquote_digest n (q.file_md5) text small
          (Reach-IsSound rs answers p q small bodies sound reach).md5_clean digest string in
      (b, taken, read)
