-- ===== src/LogFile.antt =====
-- common/make_log.c: the directories and the text of a log.
pub mod Month
mod Runs
use cloud_disk_server.Prelude.{
  ℕ, zero, suc, ◌+◌, ◌*◌, ◌-◌, ◌/◌, ◌%◌, ◌≡◌, refl, sym, ap, ◌∙◌, Bool, true, false, ltb,
  if◌then◌else◌, length, take, replicate,
}
use cloud_disk_server.Prelude.{Option, none, some, List, [], ◌∷◌, ◌++◌}
use cloud_disk_server.Prelude.Int.{ℤ, pos}
use cloud_disk_server.Prelude.Outcome.{Outcome, done, fault, ◌>>=◌}
use cloud_disk_server.Prelude.Decimal.{decimal}
use cloud_disk_server.Prelude.Text.{Bytes, codes}
use cloud_disk_server.Util.Names.{fitted}

-- The calls of the operating system: an `access` that returns 0, a `mkdir` that does, and an `open`
-- to append with a `write` of a text, which tells whether all of it was written.
pub record Dirs : Type 1 where
  pub Disk : Type 0
  pub exists : Bytes → Disk → Bool
  pub mkdir : Bytes → Disk → Bool × Disk
  pub append : Bytes → Bytes → Disk → Bool × Disk

-- The fields of `localtime`, with the year and the month as they are printed.
pub record Time : Type 0 where
  pub year : ℕ
  pub month : ℕ
  pub day : ℕ
  pub hour : ℕ
  pub minute : ℕ
  pub second : ℕ

-- `%0wd`: at least so many digits.
unfoldable pub padded_decimal : ℕ → ℕ → Bytes
padded_decimal w n = replicate (w - length (decimal (pos n))) b'0' ++ decimal (pos n)

-- The five directories of `make_path`, from the top on.
unfoldable pub directories : Bytes → Time → List Bytes
directories module_name now =
    let third = codes "./logs/" ++ module_name in
    let y = third ++ (codes "/" ++ (padded_decimal 4 (now.year) ++ codes "/")) in
    let m = y ++ (codes "/" ++ (padded_decimal 2 (now.month) ++ codes "/")) in
    codes "." ∷ codes "./logs" ∷ third ∷ y ∷ m ∷ []

-- `d_dir`, the longest name, which is written but not used.
unfoldable pub day_directory : Bytes → Time → Bytes
day_directory module_name now =
    codes "./logs/"
    ++ (module_name
        ++ (codes "/"
            ++ (padded_decimal 4 (now.year)
                ++ (codes "//"
                    ++ (padded_decimal 2 (now.month)
                        ++ (codes "//" ++ (padded_decimal 2 (now.day) ++ codes "/")))))))

-- The path of the log, which `snprintf` cuts at 1023 bytes.
unfoldable pub log_path : Bytes → Bytes → Time → Bytes
log_path module_name proc_name now = take 1023 (
    codes "./logs/"
    ++ (module_name
        ++ (codes "/"
            ++ (padded_decimal 4 (now.year)
                ++ (codes "/"
                    ++ (padded_decimal 2 (now.month)
                        ++ (codes "/"
                            ++ (proc_name
                                ++ (codes "-"
                                    ++ (padded_decimal 2 (now.day) ++ codes ".log"))))))))))

-- The line of a message, which `snprintf` cuts at 4095 bytes.
unfoldable pub log_line : Bytes → ℕ → Time → Bytes → Bytes
log_line filename line now mesg = take 4095 (
    codes "["
    ++ (padded_decimal 4 (now.year)
        ++ (codes "-"
            ++ (padded_decimal 2 (now.month)
                ++ (codes "-"
                    ++ (padded_decimal 2 (now.day)
                        ++ (codes " "
                            ++ (padded_decimal 2 (now.hour)
                                ++ (codes ":"
                                    ++ (padded_decimal 2 (now.minute)
                                        ++ (codes ":"
                                            ++ (padded_decimal 2 (now.second)
                                                ++ (codes "]--["
                                                    ++ (filename
                                                        ++ (codes ":"
                                                            ++ (decimal (pos line)
                                                            ++ (codes "]--" ++ mesg)))))))))))))))))

module _ (dirs : Dirs) where
  open dirs use {Disk, exists, mkdir, append}

  -- A directory and those below it, up to one that cannot be made.
  unfoldable pub make_from : List Bytes → Disk → Disk
  make_from [] disk = disk
  make_from (p ∷ ps) disk =
      let made = mkdir p disk in let rest = make_from ps made.1 in if made.0 then rest else made.1

  -- The branches of `make_path`: from the first directory that is missing on.
  unfoldable pub make_missing : List Bytes → Disk → Disk
  make_missing [] disk = disk
  make_missing (p ∷ ps) disk =
      let below = make_missing ps disk in
      let made = make_from (p ∷ ps) disk in if exists p disk then below else made

  -- The path, and the disk with its directories; the names of the directories have arrays of 1024
  -- bytes.
  unfoldable pub make_path : Bytes → Bytes → Time → Disk → Outcome (Bytes × Disk)
  make_path module_name proc_name now disk =
      if ltb (length (day_directory module_name now)) 1024
      then done
          (log_path module_name proc_name now, make_missing (directories module_name now) disk)
      else fault

  -- What `out_put_file` leaves; an error of `open` or `write` is only printed.
  unfoldable pub out_put_file : Bytes → Bytes → Disk → Disk
  out_put_file path buf disk = (append path buf disk).1

  -- `mesg` is the message with its arguments in it, which `vsprintf` writes into an array of 4096
  -- bytes.
  unfoldable pub dumpmsg_to_file : Bytes → Bytes → Bytes → ℕ → Time → Bytes → Disk → Outcome Disk
  dumpmsg_to_file module_name proc_name filename line now mesg disk = do
    text ← fitted 4096 mesg
    made ← make_path module_name proc_name now disk
    done (out_put_file made.0 (log_line filename line now text) made.1)
