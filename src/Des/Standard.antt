-- ===== src/Des/Standard.antt =====
-- The tables SP1 to SP8 of common/des.c against those that the S-boxes of the standard (FIPS 46-3)
-- give.
use cloud_disk_server.Prelude.{
  ℕ, ◌+◌, ◌-◌, ◌*◌, ◌/◌, ◌%◌, ◌^◌, ◌<◌, ◌≡◌, ◌↔◌, refl, arith, Bool, true, false, not, ◌&&◌, ◌||◌,
  List, [], ◌∷◌, ◌==◌, if◌then◌else◌, get_or,
}
use cloud_disk_server.Prelude.Finite.{every, every_holds}
use cloud_disk_server.Des.Boxes.{sp1, sp2, sp3, sp4, sp5, sp6, sp7, sp8}

-- The S-boxes, each with its four rows of 16 one behind the other.
unfoldable s_boxes : List (List ℕ)
s_boxes =
    (14 ∷ 4 ∷ 13 ∷ 1 ∷ 2 ∷ 15 ∷ 11 ∷ 8 ∷ 3 ∷ 10 ∷ 6 ∷ 12 ∷ 5 ∷ 9 ∷ 0 ∷ 7 ∷ 0 ∷ 15 ∷ 7 ∷ 4 ∷ 14 ∷ 2
      ∷ 13 ∷ 1 ∷ 10 ∷ 6 ∷ 12 ∷ 11 ∷ 9 ∷ 5 ∷ 3 ∷ 8 ∷ 4 ∷ 1 ∷ 14 ∷ 8 ∷ 13 ∷ 6 ∷ 2 ∷ 11 ∷ 15 ∷ 12 ∷ 9
      ∷ 7 ∷ 3 ∷ 10 ∷ 5 ∷ 0 ∷ 15 ∷ 12 ∷ 8 ∷ 2 ∷ 4 ∷ 9 ∷ 1 ∷ 7 ∷ 5 ∷ 11 ∷ 3 ∷ 14 ∷ 10 ∷ 0 ∷ 6 ∷ 13
      ∷ [])
    ∷ (15 ∷ 1 ∷ 8 ∷ 14 ∷ 6 ∷ 11 ∷ 3 ∷ 4 ∷ 9 ∷ 7 ∷ 2 ∷ 13 ∷ 12 ∷ 0 ∷ 5 ∷ 10 ∷ 3 ∷ 13 ∷ 4 ∷ 7 ∷ 15 ∷ 2
        ∷ 8 ∷ 14 ∷ 12 ∷ 0 ∷ 1 ∷ 10 ∷ 6 ∷ 9 ∷ 11 ∷ 5 ∷ 0 ∷ 14 ∷ 7 ∷ 11 ∷ 10 ∷ 4 ∷ 13 ∷ 1 ∷ 5 ∷ 8 ∷ 12
        ∷ 6 ∷ 9 ∷ 3 ∷ 2 ∷ 15 ∷ 13 ∷ 8 ∷ 10 ∷ 1 ∷ 3 ∷ 15 ∷ 4 ∷ 2 ∷ 11 ∷ 6 ∷ 7 ∷ 12 ∷ 0 ∷ 5 ∷ 14 ∷ 9
        ∷ [])
    ∷ (10 ∷ 0 ∷ 9 ∷ 14 ∷ 6 ∷ 3 ∷ 15 ∷ 5 ∷ 1 ∷ 13 ∷ 12 ∷ 7 ∷ 11 ∷ 4 ∷ 2 ∷ 8 ∷ 13 ∷ 7 ∷ 0 ∷ 9 ∷ 3 ∷ 4
        ∷ 6 ∷ 10 ∷ 2 ∷ 8 ∷ 5 ∷ 14 ∷ 12 ∷ 11 ∷ 15 ∷ 1 ∷ 13 ∷ 6 ∷ 4 ∷ 9 ∷ 8 ∷ 15 ∷ 3 ∷ 0 ∷ 11 ∷ 1 ∷ 2
        ∷ 12 ∷ 5 ∷ 10 ∷ 14 ∷ 7 ∷ 1 ∷ 10 ∷ 13 ∷ 0 ∷ 6 ∷ 9 ∷ 8 ∷ 7 ∷ 4 ∷ 15 ∷ 14 ∷ 3 ∷ 11 ∷ 5 ∷ 2 ∷ 12
        ∷ [])
    ∷ (7 ∷ 13 ∷ 14 ∷ 3 ∷ 0 ∷ 6 ∷ 9 ∷ 10 ∷ 1 ∷ 2 ∷ 8 ∷ 5 ∷ 11 ∷ 12 ∷ 4 ∷ 15 ∷ 13 ∷ 8 ∷ 11 ∷ 5 ∷ 6
        ∷ 15 ∷ 0 ∷ 3 ∷ 4 ∷ 7 ∷ 2 ∷ 12 ∷ 1 ∷ 10 ∷ 14 ∷ 9 ∷ 10 ∷ 6 ∷ 9 ∷ 0 ∷ 12 ∷ 11 ∷ 7 ∷ 13 ∷ 15 ∷ 1
        ∷ 3 ∷ 14 ∷ 5 ∷ 2 ∷ 8 ∷ 4 ∷ 3 ∷ 15 ∷ 0 ∷ 6 ∷ 10 ∷ 1 ∷ 13 ∷ 8 ∷ 9 ∷ 4 ∷ 5 ∷ 11 ∷ 12 ∷ 7 ∷ 2
        ∷ 14 ∷ [])
    ∷ (2 ∷ 12 ∷ 4 ∷ 1 ∷ 7 ∷ 10 ∷ 11 ∷ 6 ∷ 8 ∷ 5 ∷ 3 ∷ 15 ∷ 13 ∷ 0 ∷ 14 ∷ 9 ∷ 14 ∷ 11 ∷ 2 ∷ 12 ∷ 4
        ∷ 7 ∷ 13 ∷ 1 ∷ 5 ∷ 0 ∷ 15 ∷ 10 ∷ 3 ∷ 9 ∷ 8 ∷ 6 ∷ 4 ∷ 2 ∷ 1 ∷ 11 ∷ 10 ∷ 13 ∷ 7 ∷ 8 ∷ 15 ∷ 9
        ∷ 12 ∷ 5 ∷ 6 ∷ 3 ∷ 0 ∷ 14 ∷ 11 ∷ 8 ∷ 12 ∷ 7 ∷ 1 ∷ 14 ∷ 2 ∷ 13 ∷ 6 ∷ 15 ∷ 0 ∷ 9 ∷ 10 ∷ 4 ∷ 5
        ∷ 3 ∷ [])
    ∷ (12 ∷ 1 ∷ 10 ∷ 15 ∷ 9 ∷ 2 ∷ 6 ∷ 8 ∷ 0 ∷ 13 ∷ 3 ∷ 4 ∷ 14 ∷ 7 ∷ 5 ∷ 11 ∷ 10 ∷ 15 ∷ 4 ∷ 2 ∷ 7
        ∷ 12 ∷ 9 ∷ 5 ∷ 6 ∷ 1 ∷ 13 ∷ 14 ∷ 0 ∷ 11 ∷ 3 ∷ 8 ∷ 9 ∷ 14 ∷ 15 ∷ 5 ∷ 2 ∷ 8 ∷ 12 ∷ 3 ∷ 7 ∷ 0
        ∷ 4 ∷ 10 ∷ 1 ∷ 13 ∷ 11 ∷ 6 ∷ 4 ∷ 3 ∷ 2 ∷ 12 ∷ 9 ∷ 5 ∷ 15 ∷ 10 ∷ 11 ∷ 14 ∷ 1 ∷ 7 ∷ 6 ∷ 0 ∷ 8
        ∷ 13 ∷ [])
    ∷ (4 ∷ 11 ∷ 2 ∷ 14 ∷ 15 ∷ 0 ∷ 8 ∷ 13 ∷ 3 ∷ 12 ∷ 9 ∷ 7 ∷ 5 ∷ 10 ∷ 6 ∷ 1 ∷ 13 ∷ 0 ∷ 11 ∷ 7 ∷ 4 ∷ 9
        ∷ 1 ∷ 10 ∷ 14 ∷ 3 ∷ 5 ∷ 12 ∷ 2 ∷ 15 ∷ 8 ∷ 6 ∷ 1 ∷ 4 ∷ 11 ∷ 13 ∷ 12 ∷ 3 ∷ 7 ∷ 14 ∷ 10 ∷ 15
        ∷ 6 ∷ 8 ∷ 0 ∷ 5 ∷ 9 ∷ 2 ∷ 6 ∷ 11 ∷ 13 ∷ 8 ∷ 1 ∷ 4 ∷ 10 ∷ 7 ∷ 9 ∷ 5 ∷ 0 ∷ 15 ∷ 14 ∷ 2 ∷ 3
        ∷ 12 ∷ [])
    ∷ (13 ∷ 2 ∷ 8 ∷ 4 ∷ 6 ∷ 15 ∷ 11 ∷ 1 ∷ 10 ∷ 9 ∷ 3 ∷ 14 ∷ 5 ∷ 0 ∷ 12 ∷ 7 ∷ 1 ∷ 15 ∷ 13 ∷ 8 ∷ 10
        ∷ 3 ∷ 7 ∷ 4 ∷ 12 ∷ 5 ∷ 6 ∷ 11 ∷ 0 ∷ 14 ∷ 9 ∷ 2 ∷ 7 ∷ 11 ∷ 4 ∷ 1 ∷ 9 ∷ 12 ∷ 14 ∷ 2 ∷ 0 ∷ 6
        ∷ 10 ∷ 13 ∷ 15 ∷ 3 ∷ 5 ∷ 8 ∷ 2 ∷ 1 ∷ 14 ∷ 7 ∷ 4 ∷ 10 ∷ 8 ∷ 13 ∷ 15 ∷ 12 ∷ 9 ∷ 0 ∷ 3 ∷ 5 ∷ 6
        ∷ 11 ∷ [])
    ∷ []

-- The permutation P: the bit of the input, from 1, that each bit of the output is.
unfoldable p_bits : List ℕ
p_bits =
    16 ∷ 7 ∷ 20 ∷ 21 ∷ 29 ∷ 12 ∷ 28 ∷ 17 ∷ 1 ∷ 15 ∷ 23 ∷ 26 ∷ 5 ∷ 18 ∷ 31 ∷ 10 ∷ 2 ∷ 8 ∷ 24 ∷ 14
    ∷ 32 ∷ 27 ∷ 3 ∷ 9 ∷ 19 ∷ 13 ∷ 30 ∷ 6 ∷ 22 ∷ 11 ∷ 4 ∷ 25 ∷ []

-- What a box gives for six bits: the outer two are the row, the inner four the column.
unfoldable substituted : ℕ → ℕ → ℕ
substituted k i = get_or (get_or s_boxes k []) ((i / 32 * 2 + i % 2) * 16 + i / 2 % 16) 0

-- The bits that a permutation takes from a word of 32 bits, the first of them at the top.
unfoldable pub permuted : List ℕ → ℕ → ℕ → ℕ
permuted [] word acc = acc
permuted (p ∷ ps) word acc = permuted ps word (acc * 2 + word / 2 ^ (32 - p) % 2)

-- The entry of a table: the output of the box in its place, under P, and one bit to the left round
-- the word, as the halves of a block are held.
pub standard_entry : ℕ → ℕ → ℕ
standard_entry k i =
    let word = permuted p_bits (substituted k i * 2 ^ (28 - 4 * k)) 0 in
    word * 2 % 2 ^ 32 + word / 2 ^ 31

-- The table of each box, from 0.
unfoldable pub table_of : ℕ → List ℕ
table_of k = get_or (sp1 ∷ sp2 ∷ sp3 ∷ sp4 ∷ sp5 ∷ sp6 ∷ sp7 ∷ sp8 ∷ []) k []

-- The entries 46 and 53 to 55 of SP5.
abbrev pub is_miscopied : ℕ → ℕ → Bool
is_miscopied k i = k == 4 && (i == 46 || i == 53 || i == 54 || i == 55)

abbrev agrees : ℕ → ℕ → Bool
agrees k i = (get_or (table_of k) i 0 == standard_entry k i)

abbrev told : ℕ → ℕ → Bool
told k i = if agrees k i then not (is_miscopied k i) else is_miscopied k i

all_told : every (λ k. every (told k) 64) 8 ≡ true
unfolding every table_of standard_entry s_boxes p_bits substituted permuted sp1 sp2 sp3 sp4 sp5 sp6
    sp7 sp8
all_told = refl

told_iff : (a b : ℕ) (c : Bool) → (if (a == b) then not c else c) ≡ true → (a ≡ b) ↔ (c ≡ false)
told_iff a b c h = ground (arith, h)

-- Each entry of the eight tables is the one that the S-boxes and the permutation of the standard
-- give, if and only if it is not one of the entries 46, 53, 54 and 55 of SP5.
pub table-standard_entry :
    (k i : ℕ)
    → k < 8
    → i < 64
    → (get_or (table_of k) i 0 ≡ standard_entry k i) ↔ (is_miscopied k i ≡ false)
table-standard_entry k i box six =
    told_iff (get_or (table_of k) i 0) (standard_entry k i) (is_miscopied k i)
      (every_holds (told k) 64 i (every_holds (λ k. every (told k) 64) 8 k all_told box) six)
