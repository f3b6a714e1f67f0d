-- ===== src/Des/RoundTrip.antt =====
-- `DesDec` gives back what `DesEnc` was given, where an `unsigned long` has 32 bits.
use cloud_disk_server.Prelude.{
  ℕ, zero, suc, ◌+◌, ◌-◌, ◌*◌, ◌/◌, ◌%◌, ◌≤◌, ◌<◌, ◌≡◌, refl, sym, ap, ◌∙◌, arith, List, [], ◌∷◌,
  ◌++◌, All, some, length, get_elem?, take, drop, replicate, append-nil, length-append, length-take,
  length-drop, length-replicate, take-append-drop, take_all, take-append, drop-append, All-append,
}
use cloud_disk_server.Prelude.Text.{Bytes}
use cloud_disk_server.Des.Schedule.{Direction}
use cloud_disk_server.Des.Block.{scrunch, unscrun, desfunc}
use cloud_disk_server.Des.Bytes.{IsByte, scrunch-unscrun, unscrun-scrunch, unscrun-bytes}
use cloud_disk_server.Des.Inverse.{keys_for, desfunc_undo, encrypted_words}
use cloud_disk_server.Des.Keys.{length-schedule}
use cloud_disk_server.Des.Api.{
  Platform, ok, des_raw, each_block, expand_key, myic_des, pad_add, strip_pad, des_enc, des_dec,
  des_keybytes, user_password_key,
}

-- A platform with 4 bytes in an `unsigned long`; the array on the stack has its 32 entries.
abbrev pub with_stack : (ℕ → List ℕ) → Platform
with_stack stack = record { long_bytes = 4; stack = stack }

-- A block through one direction.
abbrev coded : Direction → List ℕ → Bytes → Bytes
coded edf key bytes = unscrun (desfunc 32 (scrunch 32 bytes) (keys_for edf key))

All-take : (n : ℕ) (xs : Bytes) → All IsByte xs → All IsByte (take n xs)
All-take zero xs h = tt
All-take (suc n) [] h = tt
All-take (suc n) (x ∷ xs) h = (h.0, All-take n xs h.1)

All-drop : (n : ℕ) (xs : Bytes) → All IsByte xs → All IsByte (drop n xs)
All-drop zero xs h = h
All-drop (suc n) [] h = h
All-drop (suc n) (x ∷ xs) h = All-drop n xs h.1

-- `drop n` of n entries, or of fewer, is nothing.
drop_all {ℓ} : {A : Type ℓ} (n : ℕ) (xs : List A) → length xs ≤ n → drop n xs ≡ []
drop_all zero [] h = refl
drop_all zero (x ∷ xs) h = absurd (omega arith)
drop_all (suc n) [] h = refl
drop_all (suc n) (x ∷ xs) h = drop_all n xs (omega arith)

coded_undo :
    (key bs : List ℕ)
    → length bs ≡ 8
    → All IsByte bs
    → coded Direction.de1 key (coded Direction.en0 key bs) ≡ bs
coded_undo key bs n bytes =
    let (same, words) = unscrun-scrunch bs n bytes in
    rw
      (
        scrunch-unscrun (desfunc 32 (scrunch 32 bs) (keys_for Direction.en0 key))
            (encrypted_words key (scrunch 32 bs) words),
        desfunc_undo key (scrunch 32 bs) words,
      )
      same

module _ (stack : ℕ → List ℕ) (whole : (i : ℕ) → length (stack i) ≡ 32) (key : List ℕ) where
  des_raw_lem :
      (edf : Direction) (i : ℕ) (bytes : Bytes)
      → des_raw (with_stack stack) i (keys_for edf key) des_keybytes bytes 8
        ≡ ok (coded edf key (take 8 bytes))
  unfolding des_raw
  des_raw_lem edf i bytes =
      ap (λ (ks : List ℕ). ok (unscrun (desfunc 32 (scrunch 32 (take 8 bytes)) ks)))
        (ap (λ (t : List ℕ). keys_for edf key ++ t)
            (drop_all (length (keys_for edf key)) (stack i)
              (omega (arith, whole i, length-schedule edf key)))
          ∙ append-nil (keys_for edf key))

  each_block_undo :
      (n i : ℕ) (bytes : Bytes)
      → length bytes ≡ 8 * n
      → All IsByte bytes
      → (coded_bytes : Bytes) × (each_block
            (with_stack stack)
            n
            i
            (keys_for Direction.en0 key)
            bytes
          ≡ ok coded_bytes)
        × (length coded_bytes ≡ 8 * n)
        × ((j : ℕ)
            → each_block (with_stack stack) n j (keys_for Direction.de1 key) coded_bytes ≡ ok bytes)
  unfolding each_block
  each_block_undo zero i [] size bytes = ([], refl, refl, λ j. refl)
  each_block_undo zero i (b ∷ bs) size bytes = absurd (omega arith)
  each_block_undo (suc n) i bs size bytes =
      let (rest, e, len, back) =
        each_block_undo n (suc i) (drop 8 bs) (omega (arith, length-drop 8 bs))
          (All-drop 8 bs bytes) in
      let block : Bytes = coded Direction.en0 key (take 8 bs) in
      let block_size : length block ≡ 8 = (unscrun-bytes _).1 in
      let first : take 8 (block ++ rest) ≡ block =
        ap (λ (k : ℕ). take k (block ++ rest)) (sym block_size) ∙ take-append block rest in
      let others : drop 8 (block ++ rest) ≡ rest =
        ap (λ (k : ℕ). drop k (block ++ rest)) (sym block_size) ∙ drop-append block rest in
      let undone : coded Direction.de1 key (take 8 (block ++ rest)) ≡ take 8 bs =
        rw first
          (coded_undo key (take 8 bs) (omega (arith, length-take 8 bs)) (All-take 8 bs bytes)) in
      (
        block ++ rest,
        rw (des_raw_lem Direction.en0 i bs, e),
        omega (arith, length-append block rest),
        λ j.
            rw (des_raw_lem Direction.de1 j (block ++ rest), others, back (suc j), undone)
              (ap ok (take-append-drop 8 bs)),
      )

  expand_key_lem :
      (edf : Direction) → expand_key (with_stack stack) edf key 8 ≡ ok (keys_for edf key)
  unfolding expand_key
  expand_key_lem edf =
      ap ok (take_all 32 (keys_for edf key) (omega (arith, length-schedule edf key)))

  myic_des_lem :
      (edf : Direction) (bytes : Bytes)
      → length bytes % 8 ≡ 0
      → myic_des (with_stack stack) edf key 8 bytes (length bytes)
        ≡ each_block (with_stack stack) (length bytes / 8) 0 (keys_for edf key) bytes
  unfolding myic_des
  myic_des_lem edf bytes whole_blocks = rw (expand_key_lem edf) (ground arith)

  -- With an `unsigned long` of 4 bytes, a key of 8 bytes and data of a multiple of 8 bytes, the
  -- call for encryption ends with data of the same length, which the call for decryption turns back
  -- into what was given, whatever the arrays of 32 longs on the stack held before.
  myic_des_undo :
      (bytes : Bytes)
      → length bytes % 8 ≡ 0
      → All IsByte bytes
      → (c : Bytes) × (myic_des (with_stack stack) Direction.en0 key 8 bytes (length bytes) ≡ ok c)
        × (length c ≡ length bytes)
        × (myic_des (with_stack stack) Direction.de1 key 8 c (length c) ≡ ok bytes)
  myic_des_undo bytes whole_blocks h =
      let (c, e, len, back) = each_block_undo (length bytes / 8) 0 bytes (omega arith) h in
      let same : length c ≡ length bytes = omega arith in
      (
        c,
        myic_des_lem Direction.en0 bytes whole_blocks ∙ e,
        same,
        myic_des_lem Direction.de1 c (omega arith)
            ∙ ap (λ (n : ℕ). each_block (with_stack stack) (n / 8) 0 (keys_for Direction.de1 key) c)
                same
            ∙ back 0,
      )

pad_size : (bytes : Bytes) → length (pad_add 0 bytes) ≡ length bytes + (8 - length bytes % 8)
unfolding pad_add
pad_size bytes =
    length-append bytes (replicate (8 - length bytes % 8) (8 - length bytes % 8))
    ∙ ap (λ (n : ℕ). length bytes + n)
        (length-replicate (8 - length bytes % 8) (8 - length bytes % 8))

All-replicate : (n b : ℕ) → IsByte b → All IsByte (replicate n b)
All-replicate zero b h = tt
All-replicate (suc n) b h = (h, All-replicate n b h)

pad-IsByte : (bytes : Bytes) → All IsByte bytes → All IsByte (pad_add 0 bytes)
unfolding pad_add
pad-IsByte bytes h =
    All-append IsByte bytes _ h (All-replicate (8 - length bytes % 8) _ (omega arith))

get_elem?-append_right :
    (xs ys : Bytes) (i j : ℕ) → i ≡ length xs + j → get_elem? (xs ++ ys) i ≡ get_elem? ys j
get_elem?-append_right [] ys i j e = ap (get_elem? ys) (omega arith)
get_elem?-append_right (x ∷ xs) ys zero j e = absurd (omega arith)
get_elem?-append_right (x ∷ xs) ys (suc i) j e = get_elem?-append_right xs ys i j (omega arith)

get_elem?-replicate : (n i b : ℕ) → i < n → get_elem? (replicate n b) i ≡ some b
get_elem?-replicate zero i b h = absurd (omega arith)
get_elem?-replicate (suc n) zero b h = refl
get_elem?-replicate (suc n) (suc i) b h = get_elem?-replicate n i b (omega arith)

-- A padding of 1 to 8 equal bytes is taken off.
strip_pad-append :
    (bytes : Bytes) (n : ℕ) → 0 < n → n ≤ 8 → strip_pad (bytes ++ replicate n n) ≡ ok bytes
unfolding strip_pad
strip_pad-append bytes n pos le =
    let size : length (bytes ++ replicate n n) ≡ length bytes + n =
      length-append bytes (replicate n n)
      ∙ ap (λ (k : ℕ). length bytes + k) (length-replicate n n) in
    let last : get_elem? (bytes ++ replicate n n) (length (bytes ++ replicate n n) - 1) ≡ some n =
      get_elem?-append_right bytes (replicate n n) _ (n - 1) (omega arith)
      ∙ get_elem?-replicate n (n - 1) n (omega arith) in
    let kept : take (length (bytes ++ replicate n n) - n) (bytes ++ replicate n n) ≡ bytes =
      ap (λ (k : ℕ). take k (bytes ++ replicate n n)) (omega arith)
      ∙ take-append bytes (replicate n n) in
    rw (last, strip_pad) (ground (arith, kept))

-- Padding to a multiple of 8 bytes is taken off again: `DesDec` returns the data that `DesEnc`
-- padded.
strip_pad-pad_add : (bytes : Bytes) → strip_pad (pad_add 0 bytes) ≡ ok bytes
unfolding pad_add
strip_pad-pad_add bytes = strip_pad-append bytes (8 - length bytes % 8) (omega arith) (omega arith)

-- With an `unsigned long` of 4 bytes, `DesEnc` of any bytes succeeds, its output is as long as the
-- next multiple of 8 above the input, and `DesDec` of that output returns the input, whatever the
-- arrays of 32 longs on the stack held before.
pub des_dec-des_enc :
    (stack : ℕ → List ℕ)
    → ((i : ℕ) → length (stack i) ≡ 32)
    → (bytes : Bytes) → All IsByte bytes
    → (c : Bytes) × (des_enc (with_stack stack) bytes ≡ ok c)
      × (length c ≡ (length bytes / 8 + 1) * 8)
      × (des_dec (with_stack stack) c ≡ ok bytes)
unfolding des_enc des_dec
des_dec-des_enc stack whole bytes h =
    let (c, e, len, back) =
      myic_des_undo stack whole user_password_key (pad_add 0 bytes) (omega (arith, pad_size bytes))
        (pad-IsByte bytes h) in
    (c, e, omega (arith, pad_size bytes), rw back (strip_pad-pad_add bytes))
