-- ===== src/Config/Read.antt =====
-- `get_cfg_value` and `get_mysql_info` of common/cfg.c over the file system and cJSON as
-- parameters.
use cloud_disk_server.Prelude.{ℕ, ◌<◌, ◌≡◌, refl, length, Option, none, some, if◌then◌else◌}
use cloud_disk_server.Prelude.Int.{ℤ, pos, eqb_ℤ}
use cloud_disk_server.Prelude.Outcome.{Outcome, done, deref, ◌>>=◌}
use cloud_disk_server.Prelude.Text.{Bytes, codes}
use cloud_disk_server.Redis.Hiredis.{minus_one}
use cloud_disk_server.Util.Names.{fitted, fitted_lem}

-- What `fopen` and `fread` give for a path, `none` if the file cannot be opened; what `cJSON_Parse`
-- makes of a text and a NUL, `cJSON_GetObjectItem`, and the field `valuestring`, which is NULL for
-- a value that is no string.
pub record Source : Type 1 where
  pub Node : Type 0
  pub file : Bytes → Option Bytes
  pub parse : Bytes → Option Node
  pub item : Node → Bytes → Option Node
  pub value_string : Node → Option Bytes

-- `CFG_PATH`.
abbrev pub cfg_path : Bytes
cfg_path = codes "./conf/cfg.json"

module _ (src : Source) where
  open src use {Node, file, parse, item, value_string}

  -- The value of a node, copied to an array of `size` bytes.
  unfoldable pub copied_value : ℕ → Option Node → Outcome (ℤ × Option Bytes)
  copied_value size none = done (minus_one, none)
  copied_value size (some son) = do
    text ← deref (value_string son)
    value ← fitted size text
    done (pos 0, some value)

  unfoldable pub in_title : ℕ → Bytes → Option Node → Outcome (ℤ × Option Bytes)
  in_title size key none = done (minus_one, none)
  in_title size key (some father) = copied_value size (item father key)

  unfoldable pub in_root : ℕ → Bytes → Bytes → Option Node → Outcome (ℤ × Option Bytes)
  in_root size title key none = done (minus_one, none)
  in_root size title key (some root) = in_title size key (item root title)

  unfoldable pub in_file : ℕ → Bytes → Bytes → Option Bytes → Outcome (ℤ × Option Bytes)
  in_file size title key none = done (minus_one, none)
  in_file size title key (some text) = in_root size title key (parse text)

  -- What is returned, and the string that is written to `value`, an array of `size` bytes, if one
  -- is. No argument is NULL, and `calloc` gives the memory.
  unfoldable pub get_cfg_value : ℕ → Bytes → Bytes → Bytes → Outcome (ℤ × Option Bytes)
  get_cfg_value size profile title key = in_file size title key (file profile)

  -- The third value of `get_mysql_info`, unless the one before it failed.
  unfoldable pub third_value : ℕ → ℤ × Option Bytes → Outcome (ℤ × (Option Bytes × Option Bytes))
  third_value db_size pwd =
      let read = (do
        name ← get_cfg_value db_size cfg_path (codes "mysql") (codes "database")
        done (if eqb_ℤ name.0 minus_one then minus_one else pos 0, (pwd.1, name.1))) in
      if eqb_ℤ pwd.0 minus_one then done (minus_one, (pwd.1, none)) else read

  unfoldable pub second_value :
      ℕ → ℕ → ℤ × Option Bytes → Outcome (ℤ × (Option Bytes × (Option Bytes × Option Bytes)))
  second_value pwd_size db_size user =
      let read = (do
        pwd ← get_cfg_value pwd_size cfg_path (codes "mysql") (codes "password")
        rest ← third_value db_size pwd
        done (rest.0, (user.1, rest.1))) in
      if eqb_ℤ user.0 minus_one then done (minus_one, (user.1, (none, none))) else read

  -- What is returned, and the three strings in arrays of the sizes given, as far as they are
  -- written.
  unfoldable pub get_mysql_info :
      ℕ → ℕ → ℕ → Outcome (ℤ × (Option Bytes × (Option Bytes × Option Bytes)))
  get_mysql_info user_size pwd_size db_size = do
    user ← get_cfg_value user_size cfg_path (codes "mysql") (codes "user")
    second_value pwd_size db_size user

  -- Where a key of a title leads to a string.
  pub data Holds (title key value : Bytes) : Type 0 where
    held :
        (text : Bytes) (root father son : Node)
        → file cfg_path ≡ some text
        → parse text ≡ some root
        → item root title ≡ some father
        → item father key ≡ some son
        → value_string son ≡ some value
        → Holds title key value

  pub get_cfg_value-Holds :
      (size : ℕ) (title key value : Bytes)
      → Holds title key value
      → length value < size
      → get_cfg_value size cfg_path title key ≡ done (pos 0, some value)
  unfolding get_cfg_value in_file in_root in_title copied_value
  get_cfg_value-Holds size title key value (held text root father son f p i j v) fits =
      rw (f, in_file)
        (rw (p, in_root)
          (rw (i, in_title) (rw (j, copied_value) (rw v (rw (fitted_lem size value fits) refl)))))

  -- If the configuration has the three strings of the database and each fits its array with its
  -- NUL, `get_mysql_info` writes them and returns 0.
  get_mysql_info-Holds :
      (user_size pwd_size db_size : ℕ) (user pwd db : Bytes)
      → Holds (codes "mysql") (codes "user") user
      → Holds (codes "mysql") (codes "password") pwd
      → Holds (codes "mysql") (codes "database") db
      → length user < user_size
      → length pwd < pwd_size
      → length db < db_size
      → get_mysql_info user_size pwd_size db_size ≡ done (pos 0, (some user, (some pwd, some db)))
  unfolding get_mysql_info second_value third_value
  get_mysql_info-Holds user_size pwd_size db_size user pwd db hu hp hd fu fp fd =
      rw (get_cfg_value-Holds user_size _ _ user hu fu) (
        rw (get_cfg_value-Holds pwd_size _ _ pwd hp fp)
          (rw (get_cfg_value-Holds db_size _ _ db hd fd) refl))
