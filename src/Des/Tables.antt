-- ===== src/Des/Tables.antt =====
-- The tables of common/des.c: the choices of the key schedule.
use cloud_disk_server.Prelude.{ℕ, List, [], ◌∷◌}

abbrev pub pc1 : List ℕ
pc1 =
    56 ∷ 48 ∷ 40 ∷ 32 ∷ 24 ∷ 16 ∷ 8 ∷ 0 ∷ 57 ∷ 49 ∷ 41 ∷ 33 ∷ 25 ∷ 17 ∷ 9 ∷ 1 ∷ 58 ∷ 50 ∷ 42 ∷ 34
    ∷ 26 ∷ 18 ∷ 10 ∷ 2 ∷ 59 ∷ 51 ∷ 43 ∷ 35 ∷ 62 ∷ 54 ∷ 46 ∷ 38 ∷ 30 ∷ 22 ∷ 14 ∷ 6 ∷ 61 ∷ 53 ∷ 45
    ∷ 37 ∷ 29 ∷ 21 ∷ 13 ∷ 5 ∷ 60 ∷ 52 ∷ 44 ∷ 36 ∷ 28 ∷ 20 ∷ 12 ∷ 4 ∷ 27 ∷ 19 ∷ 11 ∷ 3 ∷ []

abbrev pub pc2 : List ℕ
pc2 =
    13 ∷ 16 ∷ 10 ∷ 23 ∷ 0 ∷ 4 ∷ 2 ∷ 27 ∷ 14 ∷ 5 ∷ 20 ∷ 9 ∷ 22 ∷ 18 ∷ 11 ∷ 3 ∷ 25 ∷ 7 ∷ 15 ∷ 6 ∷ 26
    ∷ 19 ∷ 12 ∷ 1 ∷ 40 ∷ 51 ∷ 30 ∷ 36 ∷ 46 ∷ 54 ∷ 29 ∷ 39 ∷ 50 ∷ 44 ∷ 32 ∷ 47 ∷ 43 ∷ 48 ∷ 38 ∷ 55
    ∷ 33 ∷ 52 ∷ 45 ∷ 41 ∷ 49 ∷ 35 ∷ 28 ∷ 31 ∷ []

abbrev pub bytebit : List ℕ
bytebit = 0o200 ∷ 0o100 ∷ 0o40 ∷ 0o20 ∷ 0o10 ∷ 0o4 ∷ 0o2 ∷ 0o1 ∷ []

abbrev pub totrot : List ℕ
totrot = 1 ∷ 2 ∷ 4 ∷ 6 ∷ 8 ∷ 10 ∷ 12 ∷ 14 ∷ 15 ∷ 17 ∷ 19 ∷ 21 ∷ 23 ∷ 25 ∷ 27 ∷ 28 ∷ []

abbrev pub bigbyte : List ℕ
bigbyte =
    0x800000 ∷ 0x400000 ∷ 0x200000 ∷ 0x100000 ∷ 0x80000 ∷ 0x40000 ∷ 0x20000 ∷ 0x10000 ∷ 0x8000
    ∷ 0x4000 ∷ 0x2000 ∷ 0x1000 ∷ 0x800 ∷ 0x400 ∷ 0x200 ∷ 0x100 ∷ 0x80 ∷ 0x40 ∷ 0x20 ∷ 0x10 ∷ 0x8
    ∷ 0x4 ∷ 0x2 ∷ 0x1 ∷ []
