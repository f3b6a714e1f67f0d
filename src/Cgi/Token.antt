-- ===== src/Cgi/Token.antt =====
-- Tokens: `genRandomString` and `check_user` of common/util_cgi.c.
use cloud_disk_server.Prelude.{ℕ, zero, suc, ◌+◌, ◌%◌, Option, none, some, [], ◌∷◌, ◌++◌}
use cloud_disk_server.Prelude.{◌==◌, ltb, if◌then◌else◌, length, replicate}
use cloud_disk_server.Prelude.Int.{ℤ}
use cloud_disk_server.Prelude.Outcome.{Outcome, done, fault}
use cloud_disk_server.Prelude.Text.{Bytes, codes, atoi}
use cloud_disk_server.Prelude.Buffer.{c_str}
use cloud_disk_server.Redis.Hiredis.{Hiredis, M, ◌>>=◌, lift, minus_one}
use cloud_disk_server.Redis.Strings.{rop_get_string}

-- One character for a flag and a random number.
unfoldable pub random_char : ℕ → ℕ → ℕ
random_char flag n =
    if flag == 0
    then b'A' + n % 26
    else if flag == 1
    then b'a' + n % 26
    else if flag == 2
    then b'0' + n % 10
    else b'x'

-- So many characters, with the numbers that `rand` gives from the index `i` on.
unfoldable pub random_chars : (ℕ → ℕ) → ℕ → ℕ → Bytes
random_chars rand zero i = []
random_chars rand (suc n) i = random_char (rand i % 3) (rand (i + 1)) ∷ random_chars rand n (i + 2)

-- `sprintf(buffer, "token_%s", token)` in an array of `size` bytes; a NULL is printed as glibc
-- does.
unfoldable pub token_key : ℕ → Option Bytes → Outcome Bytes
token_key size none = done (codes "token_(null)")
token_key size (some token) =
    if ltb (length (codes "token_" ++ token)) size then done (codes "token_" ++ token) else fault

-- The tests of `check_user` behind the read, with the array `result` as it then is.
unfoldable pub judged : Option Bytes → Bytes → Outcome ℤ
judged none result = done minus_one
judged (some t) result =
    if length t == 0
    then done minus_one
    else elim (c_str result) [ none ↦ fault | some str ↦ done (atoi str) ]

module _ (h : Hiredis) where
  open h use {Context, Server}

  -- `token` is `getenv("HTTP_TOKEN")`.
  unfoldable pub check_user : Option Context → Option Bytes → M Server ℤ
  check_user redis_conn token = do
    token_md5 ← lift (token_key 512 token)
    got ← rop_get_string h redis_conn token_md5 (replicate 512 0)
    lift (judged token got.1)
