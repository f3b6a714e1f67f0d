-- ===== src/LogFile/Month.antt =====
-- `make_path` of common/make_log.c makes the directory that the log is written to.
use cloud_disk_server.Prelude.{
  ◌<◌, ◌≡◌, refl, true, false, Bool-cases, inl, inr, lt→ltb, length, List, [], ◌∷◌, ◌++◌,
}
use cloud_disk_server.Prelude.Outcome.{done}
use cloud_disk_server.Prelude.Text.{Bytes, codes}
use cloud_disk_server.LogFile.{
  Dirs, Time, padded_decimal, directories, day_directory, log_path, make_from, make_missing,
  make_path,
}

-- The directory of a month.
abbrev pub month_directory : Bytes → Time → Bytes
month_directory module_name now =
    (codes "./logs/" ++ module_name ++ (codes "/" ++ (padded_decimal 4 (now.year) ++ codes "/")))
    ++ (codes "/" ++ (padded_decimal 2 (now.month) ++ codes "/"))

module _ (dirs : Dirs) where
  open dirs use {Disk, exists, mkdir}

  -- The calls of `mkdir` succeed, each on what the one before left.
  abbrev pub Succeed : List Bytes → Disk → Type 0
  Succeed [] disk = Unit
  Succeed (p ∷ ps) disk = ((mkdir p disk).0 ≡ true) × Succeed ps (mkdir p disk).1

  -- The calls from the first directory that is missing on succeed.
  abbrev pub MissingSucceed : List Bytes → Disk → Type 0
  MissingSucceed [] disk = Unit
  MissingSucceed (p ∷ ps) disk =
      (exists p disk ≡ true → MissingSucceed ps disk)
      × (exists p disk ≡ false → Succeed (p ∷ ps) disk)

  abbrev last_of : Bytes → List Bytes → Bytes
  last_of p [] = p
  last_of p (q ∷ ps) = last_of q ps

  module _
      (is_made : (p : Bytes) (disk : Disk)
        → (mkdir p disk).0 ≡ true
        → exists p (mkdir p disk).1 ≡ true) where
    make_from_last :
        (p : Bytes) (ps : List Bytes) (disk : Disk)
        → Succeed (p ∷ ps) disk
        → exists (last_of p ps) (make_from dirs (p ∷ ps) disk) ≡ true
    unfolding make_from
    make_from_last p [] disk h = rw h.0 (is_made p disk h.0)
    make_from_last p (q ∷ ps) disk h = rw h.0 (make_from_last q ps (mkdir p disk).1 h.1)

    make_missing_last :
        (p : Bytes) (ps : List Bytes) (disk : Disk)
        → MissingSucceed (p ∷ ps) disk
        → exists (last_of p ps) (make_missing dirs (p ∷ ps) disk) ≡ true
    unfolding make_missing
    make_missing_last p [] disk h = elim (Bool-cases (exists p disk)) [
      | inl e ↦ rw e e
      | inr e ↦ rw e (make_from_last p [] disk (h.1 e))
    ]
    make_missing_last p (q ∷ ps) disk h = elim (Bool-cases (exists p disk)) [
      | inl e ↦ rw e (make_missing_last q ps disk (h.0 e))
      | inr e ↦ rw e (make_from_last p (q ∷ ps) disk (h.1 e))
    ]

    -- Where a directory exists once `mkdir` has made it, and the calls of `mkdir` from the first
    -- missing directory on succeed, `make_path` gives the path of the log and leaves a disk with
    -- the directory of the month, whichever directories were missing; the name of the day's
    -- directory fits its array.
    pub make_path-month :
        (module_name proc_name : Bytes) (now : Time) (disk : Disk)
        → length (day_directory module_name now) < 1024
        → MissingSucceed (directories module_name now) disk
        → (end : Disk) × (make_path dirs module_name proc_name now disk
            ≡ done (log_path module_name proc_name now, end))
          × (exists (month_directory module_name now) end ≡ true)
    unfolding make_path directories
    make_path-month module_name proc_name now disk fits h = (
      make_missing dirs (directories module_name now) disk,
      rw (lt→ltb _ _ fits) refl,
      make_missing_last (codes ".") _ disk h,
    )
