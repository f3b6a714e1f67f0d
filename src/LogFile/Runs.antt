-- ===== src/LogFile/Runs.antt =====
-- The directories of a log at a concrete time.
use cloud_disk_server.Prelude.{
  Bool, true, false, ◌||◌, List, [], ◌∷◌, ◌≡◌, ◌<◌, refl, arith, length,
}
use cloud_disk_server.Prelude.Decimal.{decimal, decimal_digits}
use cloud_disk_server.Prelude.Outcome.{done}
use cloud_disk_server.Prelude.Text.{Bytes, codes, eqb, eqb_refl}
use cloud_disk_server.LogFile.{Dirs, Time, day_directory, padded_decimal, log_path, make_path}
use cloud_disk_server.LogFile.Month.{month_directory, Succeed, MissingSucceed, make_path-month}

abbrev member : Bytes → List Bytes → Bool
member p [] = false
member p (q ∷ qs) = eqb q p || member p qs

-- The directories that exist, to which every call adds.
abbrev listed : Dirs
listed = record {
  Disk = List Bytes;
  exists = member;
  mkdir = λ p disk. (true, p ∷ disk);
  append = λ path text disk. (true, disk);
}

abbrev noon : Time
noon = record { year = 2017; month = 1; day = 13; hour = 12; minute = 0; second = 0 }

is_made_lem : (p : Bytes) (disk : List Bytes) → member p (p ∷ disk) ≡ true
is_made_lem p disk = rw (eqb_refl p) refl

fits_lem : length (day_directory (codes "cgi") noon) < 1024
unfolding day_directory padded_decimal decimal decimal_digits
fits_lem = omega arith

Succeed-all : (ps : List Bytes) (disk : List Bytes) → Succeed listed ps disk
Succeed-all [] disk = tt
Succeed-all (p ∷ ps) disk = (refl, Succeed-all ps (p ∷ disk))

missing_all : (ps : List Bytes) (disk : List Bytes) → MissingSucceed listed ps disk
missing_all [] disk = tt
missing_all (p ∷ ps) disk = (λ e. missing_all ps disk, λ e. Succeed-all (p ∷ ps) disk)

-- On a disk with the top directory alone.
make_path-month_example :
    (end : List Bytes) × (make_path listed (codes "cgi") (codes "reg") noon (codes "." ∷ [])
      ≡ done (log_path (codes "cgi") (codes "reg") noon, end))
    × (member (month_directory (codes "cgi") noon) end ≡ true)
make_path-month_example =
    make_path-month listed (λ p disk h. is_made_lem p disk) (codes "cgi") (codes "reg") noon
      (codes "." ∷ []) fits_lem (missing_all _ (codes "." ∷ []))
