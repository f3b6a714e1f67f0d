-- ===== src/Redis/HmsetText.antt =====
-- The text of `make_hmset_command`, and that it stays inside its buffer.
use cloud_disk_server.Prelude.{ℕ, ◌+◌, ◌≤◌, ◌<◌, List, [], ◌∷◌, ◌++◌, ◌≡◌, refl, sym, arith}
use cloud_disk_server.Prelude.{length, take_all, All, length-append, append_assoc, append-nil}
use cloud_disk_server.Prelude.Outcome.{done}
use cloud_disk_server.Prelude.Text.{Bytes, codes}
use cloud_disk_server.Redis.Hmset.{
  Hmset, field_id_size, values_id_size, megabyte, strncat, account, put_pair, put_pairs,
  make_hmset_command,
}

-- The words of the command, one space before each.
abbrev pub pair_words : List (Bytes × Bytes) → Bytes
pair_words [] = []
pair_words ((f, v) ∷ rest) = codes " " ++ (f ++ (codes " " ++ (v ++ pair_words rest)))

-- A field and a value that fit the arrays of the caller with their NULs.
abbrev pub Fits : Bytes × Bytes → Type 0
Fits (f, v) = (length f < field_id_size) × (length v < values_id_size)

-- The bytes that the loop counts.
abbrev pub pair_size : List (Bytes × Bytes) → ℕ
pair_size [] = 0
pair_size ((f, v) ∷ rest) = 2 + length f + length v + pair_size rest

abbrev IsWithin : Hmset → Type 0
IsWithin s = (length s.cmd ≤ s.use_size) × (s.capacity ≡ megabyte) × (s.buf_size ≡ megabyte)

strncat_room :
    (s : Hmset) (piece : Bytes) (n : ℕ)
    → length piece ≤ n
    → length s.cmd + length piece + 1 ≤ s.capacity
    → strncat s piece n ≡ done (record s { cmd = s.cmd ++ piece })
unfolding strncat
strncat_room s piece n fit room = rw (take_all n piece fit) (ground arith)

abbrev grow : Hmset → Bytes → Hmset
grow s piece = record s { cmd = s.cmd ++ piece; use_size = s.use_size + length piece }

module _ (s : Hmset) (piece : Bytes) (within : IsWithin s)
    (room : s.use_size + length piece < megabyte) where
  strncat_lem :
      (n : ℕ) → length piece ≤ n → strncat s piece n ≡ done (record s { cmd = s.cmd ++ piece })
  strncat_lem n fit = strncat_room s piece n fit (omega arith)

  account_lem : account (record s { cmd = s.cmd ++ piece }) (length piece) ≡ grow s piece
  unfolding account
  account_lem = ground arith

  grow-IsWithin : IsWithin (grow s piece)
  grow-IsWithin = (omega (arith, length-append s.cmd piece), within.1, within.2)

put_pair_lem :
    (s : Hmset) (f v : Bytes)
    → IsWithin s
    → Fits (f, v)
    → s.use_size + (2 + length f + length v) < megabyte
    → put_pair s f v ≡ done (grow (grow (grow (grow s (codes " ")) f) (codes " ")) v)
unfolding put_pair
put_pair_lem s f v w fit room =
    let space : Bytes = codes " " in
    let w₁ = grow-IsWithin s space w (omega arith) in
    let w₂ = grow-IsWithin (grow s space) f w₁ (omega arith) in
    let w₃ = grow-IsWithin (grow (grow s space) f) space w₂ (omega arith) in
    rw
      (
        strncat_lem s space w (omega arith) 1 (omega arith),
        account_lem s space w (omega arith),
        strncat_lem (grow s space) f w₁ (omega arith) field_id_size (omega arith),
        account_lem (grow s space) f w₁ (omega arith),
        strncat_lem (grow (grow s space) f) space w₂ (omega arith) 1 (omega arith),
        account_lem (grow (grow s space) f) space w₂ (omega arith),
        strncat_lem (grow (grow (grow s space) f) space) v w₃ (omega arith) values_id_size
            (omega arith),
        account_lem (grow (grow (grow s space) f) space) v w₃ (omega arith),
      )
      refl

put_pairs_lem :
    (pairs : List (Bytes × Bytes)) (s : Hmset)
    → IsWithin s
    → All Fits pairs
    → s.use_size + pair_size pairs < megabyte
    → (s' : Hmset) × (put_pairs s pairs ≡ done s') × (s'.cmd ≡ s.cmd ++ pair_words pairs)
unfolding put_pairs
put_pairs_lem [] s w fits room = (s, refl, sym (append-nil s.cmd))
put_pairs_lem ((f, v) ∷ rest) s w (fit, fits) room =
    let space : Bytes = codes " " in
    let w₁ = grow-IsWithin s space w (omega arith) in
    let w₂ = grow-IsWithin (grow s space) f w₁ (omega arith) in
    let w₃ = grow-IsWithin (grow (grow s space) f) space w₂ (omega arith) in
    let t : Hmset = grow (grow (grow (grow s space) f) space) v in
    let w₄ = grow-IsWithin (grow (grow (grow s space) f) space) v w₃ (omega arith) in
    let (s', e, text) = put_pairs_lem rest t w₄ fits (omega arith) in
    (s', rw (put_pair_lem s f v w fit (omega arith)) e, simp (text, append_assoc))

-- With a key of at most 200 bytes, and fields and values that fit their arrays, the command is the
-- word hmset, the key, and each field and value, separated by single spaces, as long as its length
-- with the key counted as 200 stays below one megabyte; and no write leaves the buffer.
pub make_hmset_command-words :
    (key : Bytes) (pairs : List (Bytes × Bytes))
    → length key ≤ 200
    → All Fits pairs
    → 206 + pair_size pairs < megabyte
    → make_hmset_command key pairs ≡ done (codes "hmset " ++ (key ++ pair_words pairs))
unfolding make_hmset_command strncat
make_hmset_command-words key pairs short fits room =
    let start : Hmset = record {
      cmd = codes "hmset " ++ key;
      buf_size = megabyte;
      use_size = 206;
      capacity = megabyte;
    } in
    let (s', e, text) = put_pairs_lem pairs start (omega arith) fits (omega arith) in
    rw
      (
        strncat_room
            (record {
              cmd = codes "hmset ";
              buf_size = megabyte;
              use_size = 0;
              capacity = megabyte;
            })
            key 200 short (omega arith),
        e,
        text,
      )
      refl
