-- ===== src/Md5Cgi/Runs.antt =====
-- The theorems on src_cgi/md5_cgi.c at concrete requests.
use cloud_disk_server.Prelude.{
  ℕ, suc, Bool, true, false, none, some, [], ◌∷◌, ◌++◌, ◌≡◌, refl, arith, replicate, ltb, ◌&&◌,
  if◌then◌else◌,
}
use cloud_disk_server.Prelude.Int.{pos}
use cloud_disk_server.Prelude.{zero, length, ◌<◌}
use cloud_disk_server.Prelude.Int.{ltb_ℤ}
use cloud_disk_server.Prelude.Decimal.{decimal, decimal_digits}
use cloud_disk_server.Util.UserFile.{user_file_sql}
use cloud_disk_server.Md5Cgi.Shared.{handle_shared}
use cloud_disk_server.Prelude.Outcome.{done}
use cloud_disk_server.Prelude.Buffer.{c_str, IsString}
use cloud_disk_server.Prelude.Text.{Bytes, codes, eqb, atoi, signed, digits, skip_space}
use cloud_disk_server.Redis.Hiredis.{minus_one, redis_command}
use cloud_disk_server.Redis.Strings.{rop_get_string}
use cloud_disk_server.Redis.Memory.{Strings, memory, memory_store}
use cloud_disk_server.Cgi.Mysql.{Mysql, QueryResult, process_result_one, first_field}
use cloud_disk_server.Cgi.Token.{check_user, token_key, judged}
use cloud_disk_server.Cgi.Login.{Request, json, error, success}
use cloud_disk_server.Cgi.Sessions.{check_user-session_user}
use cloud_disk_server.Upload.Handler.{not_permitted}
use cloud_disk_server.Md5Cgi.Blocks.{clear, unquote}
use cloud_disk_server.Md5Cgi.Clean.{inside}
use cloud_disk_server.Md5Cgi.Handler.{
  Received, Asked, Process, handle, judged_request, take_request, answer_request, found_file,
  check_file_exists, result_number, exists_sql, instant_failed, instant_done,
}
use cloud_disk_server.Md5Cgi.Loop.{served, Reach, none_yet, and_then, serve}
use cloud_disk_server.Md5Cgi.Invariant.{IsSound, Reach-IsSound, reached_digest}
use cloud_disk_server.Md5Cgi.Stale.{quoted, stale_name, serve-refused}

-- A server that holds the user 7 for the token `ab`, and a database without rows.
abbrev one_session : Strings
one_session k = if eqb (codes "token_ab") k then some (codes "7") else none

abbrev no_files : Mysql
no_files = record { Database = ℕ; query = λ text db. (QueryResult.rows [], suc db) }

abbrev digest : Bytes
digest = replicate 32 b'a'

abbrev asked : Asked
asked = record {
  token = some (codes "ab");
  received = Received.body (Request.fields (some (quoted (codes "a.txt"))) (some (quoted digest)));
}

-- A request without a token.
abbrev nobody : Asked
nobody = record { token = none; received = Received.empty_body }

abbrev process : ℕ → Process Strings ℕ
process n = record {
  server = one_session;
  database = n;
  file_md5 = replicate 512 0;
  filename = replicate 512 0;
}

user_lem : check_user memory (some tt) (some (codes "ab")) one_session ≡ done (pos 7, one_session)
unfolding eqb atoi signed digits skip_space
user_lem =
    check_user-session_user memory tt memory_store (codes "ab") one_session (omega arith)
      (omega arith) ((omega arith, tt), omega arith)

handle_lem :
    handle memory no_files (some tt) true 8 asked (process 0)
    ≡ done (json error (codes "msg") instant_failed, (true, process 1))
unfolding handle judged_request take_request answer_request found_file check_file_exists
    result_number process_result_one first_field exists_sql
handle_lem = rw user_lem refl

reach :
    Reach memory no_files
      (some tt)
      true
      8
      (process 0)
      (asked ∷ [])
      (json error (codes "msg") instant_failed ∷ [])
      (process 1)
reach =
    and_then (process 0) (process 1) (process 1) asked [] _ [] (served _ (process 1) handle_lem)
      (none_yet (process 1))

process-IsSound : IsSound (process 0)
process-IsSound = record { md5_clean = record { size = refl; zeros = refl }; name_size = refl }

Reach-IsSound_example : IsSound (process 1)
Reach-IsSound_example =
    Reach-IsSound memory no_files (some tt) true 8 (asked ∷ [])
      (json error (codes "msg") instant_failed ∷ []) (process 0) (process 1) (omega arith)
      (refl, tt) process-IsSound reach

abbrev has_no_nul : Bytes → Bool
has_no_nul [] = true
has_no_nul (c ∷ cs) = ltb 0 c && has_no_nul cs

no_nul-IsString : (s : Bytes) → has_no_nul s ≡ true → IsString s
no_nul-IsString [] h = tt
no_nul-IsString (c ∷ cs) h = (ground (arith, h), no_nul-IsString cs (ground (arith, h)))

digest-IsString : IsString (inside (quoted digest))
digest-IsString = no_nul-IsString (inside (quoted digest)) refl

reached_digest_example :
    (b : Bytes) × (unquote (clear 8 ((process 1).file_md5)) (quoted digest) ≡ done b)
    × (c_str b ≡ some (inside (quoted digest)))
reached_digest_example =
    reached_digest memory no_files (some tt) true 8 (asked ∷ [])
      (json error (codes "msg") instant_failed ∷ []) (process 0) (process 1) (quoted digest)
      (omega arith) (refl, tt) process-IsSound reach refl digest-IsString

nobody_lem : check_user memory (some tt) none one_session ≡ done (minus_one, one_session)
unfolding check_user token_key judged rop_get_string redis_command eqb
nobody_lem = refl

serve-refused_example :
    serve memory no_files (some tt) true 8 (asked ∷ nobody ∷ asked ∷ []) (process 0)
    ≡ done (
      json error (codes "msg") instant_failed ∷ json error (codes "msg") not_permitted ∷ [],
      (false, process 1),
    )
serve-refused_example =
    serve-refused memory no_files (some tt) true 8 (process 0) (process 1) (asked ∷ [])
      (json error (codes "msg") instant_failed ∷ []) nobody (asked ∷ []) one_session reach
      nobody_lem

stale_name_example :
    (b : Bytes) × (unquote
        (clear 8 (codes "holiday1.jpeg" ++ (0 ∷ replicate 20 0)))
        (quoted (codes "notes_01"))
      ≡ done b)
    × (c_str b ≡ some (codes "notes_01.jpeg"))
stale_name_example =
    stale_name 8 (codes "holiday1") (codes ".jpeg") (codes "notes_01") (replicate 20 0) refl
      (omega arith) (no_nul-IsString (codes "notes_01.jpeg") refl)

-- A database that finds the user 3 for the first statement, and takes the others.
abbrev one_owner : Mysql
one_owner = record { Database = ℕ; query = answers }
  where
    answers : Bytes → ℕ → QueryResult × ℕ
    answers text zero = (QueryResult.rows ((some (codes "3") ∷ []) ∷ []), 1)
    answers text n = (QueryResult.no_result, suc n)

query_fits : length (exists_sql (quoted digest)) < 1024
unfolding exists_sql
query_fits = omega arith

row_fits : length (user_file_sql (pos 7) digest (codes "notes_01")) < 1024
unfolding user_file_sql decimal decimal_digits
row_fits = omega arith

owner_lem : ltb_ℤ (pos 0) (atoi (codes "3")) ≡ true
unfolding atoi signed digits skip_space
owner_lem = refl

handle_shared_example :
    (q : Process Strings ℕ) × (handle memory one_owner
        (some tt)
        true
        8
        (record {
          token = some (codes "ab");
          received =
              Received.body
                (Request.fields (some (quoted (codes "notes_01"))) (some (quoted digest)));
        })
        (process 0)
      ≡ done (json success (codes "msg") instant_done, (true, q)))
    × (q.database ≡ 2)
handle_shared_example =
    handle_shared memory one_owner (some tt) 8 (some (codes "ab")) (process 0) one_session (pos 7)
      digest (codes "notes_01") (replicate 503 0) (codes "3") [] [] user_lem refl (omega arith)
      (process-IsSound.md5_clean) refl (no_nul-IsString digest refl) (omega arith) (omega arith)
      (no_nul-IsString (codes "notes_01") refl) refl query_fits (omega arith) owner_lem refl
      row_fits refl
