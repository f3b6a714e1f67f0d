-- ===== src/Redis/Ranges.antt =====
-- What the range calls leave in the caller's array.
use cloud_disk_server.Prelude.{ℕ, zero, suc, ◌+◌, ◌-◌, ◌≤◌, ◌<◌, ◌^◌, min, none, some}
use cloud_disk_server.Prelude.{List, [], ◌∷◌, ◌++◌, ◌≡◌, refl, ap, ◌∙◌, arith}
use cloud_disk_server.Prelude.{length, get_elem?, set, take, drop, replicate, All, length-take}
use cloud_disk_server.Prelude.{map, length-map}
use cloud_disk_server.Prelude.Int.{pos, ◌+ℤ◌, ◌-ℤ◌}
use cloud_disk_server.Prelude.Outcome.{done}
use cloud_disk_server.Prelude.Text.{Bytes}
use cloud_disk_server.Prelude.Buffer.{c_str, IsString, strncpy, c_str-append-nul}
use cloud_disk_server.Redis.Hmset.{values_id_size}
use cloud_disk_server.Redis.Hiredis.{Hiredis, RedisReply, ReplyType, redis_command}
use cloud_disk_server.Redis.Lists.{copy_loop, copy_range, requested, max_count}
use cloud_disk_server.Redis.Zset.{copy_row_nul, zrevrange_command, rop_zset_zrevrange}

-- An array of bulk strings.
abbrev pub array_reply : List Bytes → RedisReply
array_reply es = record {
  kind = ReplyType.array_reply;
  integer = pos 0;
  str = none;
  element = map some es;
}

set-append_right :
    (xs ys : Bytes) (i v : ℕ) → length xs ≤ i → set (xs ++ ys) i v ≡ xs ++ set ys (i - length xs) v
set-append_right [] ys i v h = rw (sub_zero i)
  where
    sub_zero : (i : ℕ) → i - 0 ≡ i
    sub_zero i = omega arith
set-append_right (x ∷ xs) ys zero v h = absurd (omega arith)
set-append_right (x ∷ xs) ys (suc i) v h =
    ap (◌∷◌ x)
      (set-append_right xs ys i v (omega arith) ∙ ap (λ (k : ℕ). xs ++ set ys k v) (omega arith))

-- A NUL written over a NUL, or behind it, leaves the string.
set_nul : (rest : Bytes) (i : ℕ) → (ys : Bytes) × (set (0 ∷ rest) i 0 ≡ 0 ∷ ys)
set_nul rest zero = (rest, refl)
set_nul rest (suc i) = (set rest i 0, refl)

IsString-take : (n : ℕ) (s : Bytes) → IsString s → IsString (take n s)
IsString-take zero s h = tt
IsString-take (suc n) [] h = tt
IsString-take (suc n) (x ∷ s) h = (h.0, IsString-take n s h.1)

drop_one : (n : ℕ) (row : Bytes) → length row ≡ suc n → (x : ℕ) × (drop n row ≡ x ∷ [])
drop_one n [] h = absurd (omega arith)
drop_one zero (x ∷ []) h = (x, refl)
drop_one zero (x ∷ y ∷ row) h = absurd (omega arith)
drop_one (suc n) (x ∷ row) h = drop_one n row (omega arith)

tail_nul :
    (k i x : ℕ) → (k ≡ 0 → i ≡ 0) → (ys : Bytes) × (set (replicate k 0 ++ x ∷ []) i 0 ≡ 0 ∷ ys)
tail_nul zero i x h = ([], ap (λ (j : ℕ). set (x ∷ []) j 0) (h refl))
tail_nul (suc k) i x h = set_nul (replicate k 0 ++ x ∷ []) i

-- `strncpy(row, str, n)` and `row[n] = 0` in an array of n + 1 bytes leave the first n bytes of
-- `str`.
c_str-strncpy-set :
    (n : ℕ) (row str : Bytes)
    → length row ≡ suc n
    → IsString str
    → c_str (set (strncpy row str n) n 0) ≡ some (take n str)
c_str-strncpy-set n row str size ok =
    let (x, last) = drop_one n row size in
    let (ys, nul) =
      tail_nul (n - length str) (n - length (take n str)) x
        (λ z. omega (arith, length-take n str)) in
    ap c_str (
      set-append_right (take n str) (replicate (n - length str) 0 ++ drop n row) n 0
        (omega (arith, length-take n str))
      ∙ ap (λ (t : Bytes). take n str ++ t)
          (ap (λ (d : Bytes). set (replicate (n - length str) 0 ++ d) (n - length (take n str)) 0)
              last
            ∙ nul))
    ∙ c_str-append-nul (take n str) ys (IsString-take n str ok)

-- What the loop leaves: at each index below `n` the string of the element, cut to what a row holds,
-- and the other rows as they were.
pub record IsCopied (n : ℕ) (es : List Bytes) (rows rows' : List Bytes) : Type 0 where
  pub copied :
      (i : ℕ) (e : Bytes)
      → i < n
      → get_elem? es i ≡ some e
      → (row : Bytes) × (get_elem? rows' i ≡ some row) × (c_str row ≡ some (take 1023 e))
  pub kept : (i : ℕ) → n ≤ i → get_elem? rows' i ≡ get_elem? rows i

abbrev pub IsRow : Bytes → Type 0
IsRow row = length row ≡ values_id_size

module _ (n : ℕ) (e row row₁ : Bytes) (es rows rows' : List Bytes)
    (stored : c_str row₁ ≡ some (take 1023 e)) (rest : IsCopied n es rows rows') where
  copied_cons :
      (i : ℕ) (d : Bytes)
      → i < suc n
      → get_elem? (e ∷ es) i ≡ some d
      → (r : Bytes) × (get_elem? (row₁ ∷ rows') i ≡ some r) × (c_str r ≡ some (take 1023 d))
  copied_cons zero d lt at = (row₁, refl, cc)
  copied_cons (suc i) d lt at = rest.copied i d (omega arith) at

  kept_cons : (i : ℕ) → suc n ≤ i → get_elem? (row₁ ∷ rows') i ≡ get_elem? (row ∷ rows) i
  kept_cons zero le = absurd (omega arith)
  kept_cons (suc i) le = rest.kept i (omega arith)

  IsCopied-cons : IsCopied (suc n) (e ∷ es) (row ∷ rows) (row₁ ∷ rows')
  IsCopied-cons = record { copied = copied_cons; kept = kept_cons }

copy_row_nul_lem :
    (row str : Bytes)
    → IsRow row
    → IsString str
    → c_str (copy_row_nul row str) ≡ some (take 1023 str)
unfolding copy_row_nul
copy_row_nul_lem row str size ok = c_str-strncpy-set 1023 row str size ok

copy_loop-IsCopied :
    (n : ℕ) (es rows : List Bytes)
    → n ≤ length es
    → n ≤ length rows
    → All IsString es
    → All IsRow rows
    → (rows' : List Bytes) × (copy_loop copy_row_nul n (map some es) rows ≡ done rows')
      × IsCopied n es rows rows'
unfolding copy_loop
copy_loop-IsCopied zero es rows fit room strings sized =
    (rows, refl, record { copied = λ i e l _. absurd (omega arith); kept = λ i _. refl })
copy_loop-IsCopied (suc n) [] rows fit room strings sized = absurd (omega arith)
copy_loop-IsCopied (suc n) (e ∷ es) [] fit room strings sized = absurd (omega arith)
copy_loop-IsCopied (suc n) (e ∷ es) (row ∷ rows) fit room strings sized =
    let (rows', eq, rest) =
      copy_loop-IsCopied n es rows (omega arith) (omega arith) strings.1 sized.1 in
    (
      copy_row_nul row e ∷ rows',
      rw eq,
      IsCopied-cons n e row _ es rows rows' (copy_row_nul_lem row e sized.0 strings.0) rest,
    )

-- A request for `from_pos` to `end_pos`, both counted in, of a reply with any number of elements.
count_lem :
    (elements from_pos end_pos : ℕ)
    → from_pos ≤ end_pos
    → end_pos < 2 ^ 31 - 1
    → elements < 2 ^ 31
    → max_count elements (requested (pos from_pos) (pos end_pos))
      ≡ pos (min elements (end_pos + 1 - from_pos))
unfolding max_count requested ◌+ℤ◌ ◌-ℤ◌
count_lem elements from_pos end_pos le hi small = ground arith

module _ (h : Hiredis) (c : h.Context) (s : h.Server) (key : Bytes) (from_pos end_pos : ℕ)
    (es rows : List Bytes) where
  abbrev wanted : ℕ
  wanted = min (length es) (end_pos + 1 - from_pos)

  copy_range_lem :
      from_pos ≤ end_pos
      → end_pos < 2 ^ 31 - 1
      → length es < 2 ^ 31
      → (rows' : List Bytes) → copy_loop copy_row_nul wanted (map some es) rows ≡ done rows'
      → copy_range copy_row_nul (pos from_pos) (pos end_pos) (array_reply es) rows
        ≡ done (record { retn = pos 0; values = rows'; get_num = some (pos wanted) })
  unfolding copy_range
  copy_range_lem le hi small rows' e =
      rw (length-map es (λ x. some x), count_lem (length es) from_pos end_pos le hi small)
        (ground arith)

  -- For positions from 0 to 2 ^ 31 - 2 in order, a reply with an array of fewer than 2 ^ 31
  -- strings, and rows of 1024 bytes for all that is asked for, `rop_zset_zrevrange` returns 0, the
  -- number it reports is the lesser of the array's length and the length of the span with both
  -- ends, that many rows hold the strings of the reply in order, cut to 1023 bytes and ended by
  -- NUL, and the other rows are kept.
  pub zrevrange_copies :
      (t : h.Server)
      → h.command c (zrevrange_command key (pos from_pos) (pos end_pos)) s
        ≡ (some (array_reply es), t)
      → from_pos ≤ end_pos
      → end_pos < 2 ^ 31 - 1
      → length es < 2 ^ 31
      → wanted ≤ length rows
      → All IsString es
      → All IsRow rows
      → (rows' : List Bytes) × (rop_zset_zrevrange h
            (some c)
            key
            (pos from_pos)
            (pos end_pos)
            rows
            s
          ≡ done (record { retn = pos 0; values = rows'; get_num = some (pos wanted) }, t))
        × IsCopied wanted es rows rows'
  unfolding rop_zset_zrevrange redis_command
  zrevrange_copies t answer le hi small room strings sized =
      let (rows', e, rest) = copy_loop-IsCopied wanted es rows (omega arith) room strings sized in
      (rows', rw (answer, copy_range_lem le hi small rows' e), rest)
