-- ===== src/Upload/DiskMemory.antt =====
-- A disk in memory, whose calls do as documented.
use cloud_disk_server.Prelude.{
  ℕ, zero, suc, ◌*◌, ◌<◌, ◌≤◌, ◌≡◌, refl, ap, ◌∙◌, arith, Bool, true, false, not, Option, none,
  some, List, [], ◌∷◌, ◌++◌, append-nil, map, length, take, drop, All, if◌then◌else◌, ltb, ltb→lt,
  Bool-cases, inl, inr, length-take, take-append-drop, length-drop,
}
use cloud_disk_server.Prelude.Text.{Bytes, codes, eqb}
use cloud_disk_server.Md5.Spec.{joined}
use cloud_disk_server.Util.FileMd5.{IsBlock}
use cloud_disk_server.Upload.Store.{System}
use cloud_disk_server.Upload.Disk.{Files, is_there, text_of}

abbrev pub Contents : Type 0
Contents = Bytes → Option Bytes

abbrev pub set_file : Bytes → Bytes → Contents → Contents
set_file p text d q = if eqb p q then some text else d q

abbrev pub opening : Bool → Option Bytes → Bytes → Contents → Bool × Contents
opening create (some old) p d = (true, set_file p old d)
opening true none p d = (true, set_file p [] d)
opening false none p d = (false, d)

abbrev pub writing : Option Bytes → Option Bytes → Bytes → Contents → Bool × Contents
writing (some old) (some content) p d = (true, set_file p (content ++ drop (length content) old) d)
writing _ _ p d = (false, d)

-- The blocks of a text, at most so many, and the rest.
abbrev pub in_blocks : ℕ → Bytes → List Bytes × Bytes
in_blocks zero text = ([], text)
in_blocks (suc n) text =
    let rest = in_blocks n (drop 1024 text) in
    if ltb (length text) 1024 then ([], text) else (take 1024 text ∷ rest.0, rest.1)

abbrev pub reading : Option Bytes → Option (List (Option Bytes))
reading none = none
reading (some text) =
    let cut = in_blocks (length text) text in some (map some cut.0 ++ (some cut.1 ∷ []))

abbrev pub memory_disk : System
memory_disk = record {
  Disk = Contents;
  exists = λ p d. is_there (d p);
  open_out = λ create p d. opening create (d p) p d;
  write = λ p content d. writing (d p) content p d;
  reads = λ p d. reading (d p);
  fdfs = λ p d. some (codes "M00/1");
}

-- Blocks that make up a text.
abbrev pub AreBlocks : Bytes → List Bytes × Bytes → Type 0
AreBlocks text cut =
    All IsBlock cut.0 × (length cut.1 < 1024) × (joined (cut.0 ++ (cut.1 ∷ [])) ≡ text)

not_below : (n : ℕ) → ltb n 1024 ≡ false → 1024 ≤ n
not_below n e = ground (arith, e)

block_lem :
    (text : Bytes) (cut : List Bytes × Bytes)
    → 1024 ≤ length text
    → AreBlocks (drop 1024 text) cut
    → AreBlocks text (take 1024 text ∷ cut.0, cut.1)
block_lem text cut long (full, short, whole) = (
  (length-take 1024 text ∙ omega (arith, long), full),
  short,
  ap (◌++◌ (take 1024 text)) whole ∙ take-append-drop 1024 text,
)

in_blocks-AreBlocks :
    (n : ℕ) (text : Bytes) → length text ≤ n * 1023 → AreBlocks text (in_blocks n text)
in_blocks-AreBlocks zero text small = (tt, omega (arith, small), append-nil text)
in_blocks-AreBlocks (suc n) text small = elim (Bool-cases (ltb (length text) 1024)) [
  | inl e ↦ rw e (tt, ltb→lt (length text) 1024 e, append-nil text)
  | inr e ↦ rw e (
      block_lem text (in_blocks n (drop 1024 text)) (not_below (length text) e) (
        in_blocks-AreBlocks n (drop 1024 text)
          (omega (arith, length-drop 1024 text, small, not_below (length text) e))))
]

pub opening_ok :
    (o : Option Bytes) (p : Bytes) (d : Contents) → (opening (not (is_there o)) o p d).0 ≡ true
opening_ok none p d = refl
opening_ok (some old) p d = refl

pub opening_value :
    (o : Option Bytes) (p q : Bytes) (d : Contents)
    → (opening (not (is_there o)) o p d).1 q ≡ (if eqb p q then some (text_of o) else d q)
opening_value none p q d = refl
opening_value (some old) p q d = refl

pub whole_blocks : (text : Bytes) → AreBlocks text (in_blocks (length text) text)
whole_blocks text = in_blocks-AreBlocks (length text) text (omega arith)

abbrev pub memory_files : Files memory_disk
memory_files = record {
  file_at = λ d p. d p;
  exists_lem = λ d p. refl;
  open_ok = λ d p. opening_ok (d p) p d;
  open_value = λ d p q. opening_value (d p) p q d;
  write_ok = λ d p content old e. ap (λ o. (writing o (some content) p d).0) e;
  write_value = λ d p content old q e. ap (λ o. (writing o (some content) p d).1 q) e;
  read_back = λ d p text e. record {
    full_blocks = (in_blocks (length text) text).0;
    last = (in_blocks (length text) text).1;
    full = (whole_blocks text).0;
    short = (whole_blocks text).1;
    whole = (whole_blocks text).2;
    given_blocks = ap reading e;
  };
}
