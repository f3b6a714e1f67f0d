-- ===== src/Des/Cipher.antt =====
-- The cipher function f(R, K) of the standard (FIPS 46-3), and that `fval` of common/des.c computes
-- it: the expansion E of the half block, the six bits of the subkey for each box, the S-boxes and
-- the permutation P.
use cloud_disk_server.Prelude.{
  ℕ, ◌+◌, ◌-◌, ◌*◌, ◌/◌, ◌%◌, ◌^◌, ◌<◌, ◌≡◌, ◌⊎◌, inl, inr, refl, sym, ap, ap₂, ◌∙◌, arith, List,
  [], ◌∷◌, false, ◌==◌, if◌then◌else◌, get_or,
}
use cloud_disk_server.Prelude.Bits.{bit_and, bit_or, bit_xor}
use cloud_disk_server.Prelude.Bits.Words.{and_ones, or_sum, xor-shr, xor_mod}
use cloud_disk_server.Des.Schedule.{shl, ◌>>>◌}
use cloud_disk_server.Des.Block.{fval}
use cloud_disk_server.Des.Standard.{
  permuted, standard_entry, table_of, is_miscopied, table-standard_entry,
}

-- The bit selection table E: the bits of R, from 1, that each of the eight groups of six is.
abbrev pub e_bits : List (List ℕ)
e_bits =
    (32 ∷ 1 ∷ 2 ∷ 3 ∷ 4 ∷ 5 ∷ [])
    ∷ (4 ∷ 5 ∷ 6 ∷ 7 ∷ 8 ∷ 9 ∷ [])
    ∷ (8 ∷ 9 ∷ 10 ∷ 11 ∷ 12 ∷ 13 ∷ [])
    ∷ (12 ∷ 13 ∷ 14 ∷ 15 ∷ 16 ∷ 17 ∷ [])
    ∷ (16 ∷ 17 ∷ 18 ∷ 19 ∷ 20 ∷ 21 ∷ [])
    ∷ (20 ∷ 21 ∷ 22 ∷ 23 ∷ 24 ∷ 25 ∷ [])
    ∷ (24 ∷ 25 ∷ 26 ∷ 27 ∷ 28 ∷ 29 ∷ [])
    ∷ (28 ∷ 29 ∷ 30 ∷ 31 ∷ 32 ∷ 1 ∷ [])
    ∷ []

abbrev pub expanded : ℕ → ℕ → ℕ
expanded k r = permuted (get_or e_bits k []) r 0

-- A half block as the source holds it: one bit to the left round the word.
abbrev pub held_left : ℕ → ℕ
held_left r = r * 2 % 2 ^ 32 + r / 2 ^ 31

expanded_odd :
    (r : ℕ)
    → r < 2 ^ 32
    → (expanded 7 r ≡ held_left r % 64)
      × (expanded 5 r ≡ held_left r / 2 ^ 8 % 64)
      × (expanded 3 r ≡ held_left r / 2 ^ 16 % 64)
      × (expanded 1 r ≡ held_left r / 2 ^ 24 % 64)
unfolding permuted
expanded_odd r h = (omega arith, omega arith, omega arith, omega arith)

-- The word that `work` is before the key: the half four bits to the right.
abbrev moved : ℕ → ℕ
moved x = x % 16 * 2 ^ 28 + x / 2 ^ 4

expanded_even :
    (r : ℕ)
    → r < 2 ^ 32
    → (expanded 6 r ≡ moved (held_left r) % 64)
      × (expanded 4 r ≡ moved (held_left r) / 2 ^ 8 % 64)
      × (expanded 2 r ≡ moved (held_left r) / 2 ^ 16 % 64)
      × (expanded 0 r ≡ moved (held_left r) / 2 ^ 24 % 64)
unfolding permuted
expanded_even r h = (omega arith, omega arith, omega arith, omega arith)

-- The six bits of a subkey for each box: the two words of the source hold those of the first, third,
-- fifth and seventh box, and those of the others, a byte for each.
abbrev pub key_bits : ℕ → ℕ → ℕ → ℕ
key_bits k0 k1 k = (if k % 2 == 0 then k0 else k1) / 2 ^ (24 - 8 * (k / 2)) % 64

-- What a box is given: its group of the expanded half under its bits of the subkey.
abbrev pub box_input : ℕ → ℕ → ℕ → ℕ → ℕ
box_input k0 k1 r k = bit_xor (expanded k r) (key_bits k0 k1 k)

-- The boxes of a list put together, each under P.
abbrev pub together : ℕ → ℕ → ℕ → List ℕ → ℕ → ℕ
together k0 k1 r [] f = f
together k0 k1 r (k ∷ ks) f =
    together k0 k1 r ks (bit_or f (standard_entry k (box_input k0 k1 r k)))

abbrev pub cipher_function : ℕ → ℕ → ℕ → ℕ
cipher_function k0 k1 r =
    together k0 k1 r (4 ∷ 2 ∷ 0 ∷ 7 ∷ 5 ∷ 3 ∷ 1 ∷ []) (standard_entry 6 (box_input k0 k1 r 6))

high_lem :
    (bits x : ℕ)
    → (bits ≡ 32) ⊎ (bits ≡ 64)
    → (q : ℕ) × (shl bits x 28 ≡ q * 2 ^ 28) × (q % 16 ≡ x % 16)
high_lem bits x (inl e) = (x % 16, rw e (omega arith), omega arith)
high_lem bits x (inr e) = (x % 2 ^ 36, rw e (omega arith), omega arith)

-- The half four bits to the right, in the low 32 bits and whatever stands above them.
turned_lem :
    (bits x : ℕ)
    → (bits ≡ 32) ⊎ (bits ≡ 64)
    → x < 2 ^ 32
    → bit_or (shl bits x 28) (x >>> 4) % 2 ^ 32 ≡ moved x
turned_lem bits x width h =
    let (q, e, low) = high_lem bits x width in
    rw (e, or_sum 28 q (x / 2 ^ 4) (omega arith)) (omega arith)

-- Six bits of a word under a key, from a bit on.
slice_lem :
    (n w k e : ℕ)
    → e ≡ w / 2 ^ n % 64
    → bit_and (bit_xor w k >>> n) 0x3f ≡ bit_xor e (k / 2 ^ n % 64)
slice_lem n w k e h =
    and_ones 6 (bit_xor w k >>> n)
    ∙ ap (λ (t : ℕ). t % 64) (xor-shr n w k)
    ∙ xor_mod 6 (w / 2 ^ n) (k / 2 ^ n)
    ∙ ap (λ (t : ℕ). bit_xor t (k / 2 ^ n % 64)) (sym h)

slice_low : (w k e : ℕ) → e ≡ w % 64 → bit_and (bit_xor w k) 0x3f ≡ bit_xor e (k / 2 ^ 0 % 64)
slice_low w k e h = and_ones 6 (bit_xor w k) ∙ xor_mod 6 w k ∙ ap₂ bit_xor (sym h) (omega arith)

-- A table at six bits that are those of the box.
entry_lem :
    (k y i : ℕ)
    → k < 8
    → bit_and y 0x3f ≡ i
    → is_miscopied k i ≡ false
    → get_or (table_of k) (bit_and y 0x3f) 0 ≡ standard_entry k i
entry_lem k y i box same right =
    (table-standard_entry k (bit_and y 0x3f) box (omega (arith, and_ones 6 y))).1 (rw same right)
    ∙ ap (standard_entry k) same

module _ (bits k0 k1 r : ℕ) (width : (bits ≡ 32) ⊎ (bits ≡ 64)) (half : r < 2 ^ 32) where
  abbrev x : ℕ
  x = held_left r

  abbrev work : ℕ
  work = bit_or (shl bits x 28) (x >>> 4)

  held_small : x < 2 ^ 32
  held_small = omega arith

  turned : work % 2 ^ 32 ≡ moved x
  turned = turned_lem bits x width held_small

  first_boxes :
      (expanded 6 r ≡ work % 64)
      × (expanded 4 r ≡ work / 2 ^ 8 % 64)
      × (expanded 2 r ≡ work / 2 ^ 16 % 64)
      × (expanded 0 r ≡ work / 2 ^ 24 % 64)
  first_boxes =
      let (seventh, fifth, third, first) = expanded_even r half in
      (
        seventh ∙ omega (arith, turned),
        fifth ∙ omega (arith, turned),
        third ∙ omega (arith, turned),
        first ∙ omega (arith, turned),
      )

  -- For an `unsigned long` of 32 or 64 bits, any half of 32 bits that is held as the source holds it
  -- and any two words of the subkey, the round function of the source is the cipher function of the
  -- standard, if the fifth box is not given 46, 53, 54 or 55: the expansion E of the half under the
  -- subkey, six bits for each box, the S-boxes and the permutation P, held in the same way.
  pub fval-cipher_function :
      is_miscopied 4 (box_input k0 k1 r 4) ≡ false
      → fval bits k0 k1 (held_left r) ≡ cipher_function k0 k1 r
  unfolding fval table_of
  fval-cipher_function right =
      let (seventh, fifth, third, first) = first_boxes in
      let (eighth, sixth, fourth, second) = expanded_odd r half in
      ap₂ bit_or
        (ap₂ bit_or
          (ap₂ bit_or
            (ap₂ bit_or
              (ap₂ bit_or
                (ap₂ bit_or
                  (ap₂ bit_or
                    (entry_lem 6 _ (box_input k0 k1 r 6) (omega arith)
                      (slice_low work k0 (expanded 6 r) seventh) refl)
                    (entry_lem 4 _ (box_input k0 k1 r 4) (omega arith)
                      (slice_lem 8 work k0 (expanded 4 r) fifth) right))
                  (entry_lem 2 _ (box_input k0 k1 r 2) (omega arith)
                    (slice_lem 16 work k0 (expanded 2 r) third) refl))
                (entry_lem 0 _ (box_input k0 k1 r 0) (omega arith)
                  (slice_lem 24 work k0 (expanded 0 r) first) refl))
              (entry_lem 7 _ (box_input k0 k1 r 7) (omega arith)
                (slice_low x k1 (expanded 7 r) eighth) refl))
            (entry_lem 5 _ (box_input k0 k1 r 5) (omega arith)
              (slice_lem 8 x k1 (expanded 5 r) sixth) refl))
          (entry_lem 3 _ (box_input k0 k1 r 3) (omega arith)
            (slice_lem 16 x k1 (expanded 3 r) fourth) refl))
        (entry_lem 1 _ (box_input k0 k1 r 1) (omega arith) (slice_lem 24 x k1 (expanded 1 r) second)
          refl)
