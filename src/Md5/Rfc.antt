-- ===== src/Md5/Rfc.antt =====
-- MD5 as RFC 1321 describes it, in section 3 of its text, and that the block function of
-- common/md5.c is the one described. Nothing here but the records of four words and of the 64
-- lines is taken from the code: the table is computed from the sine, and the order of the words,
-- the shifts and the initial words are written from the text.
use cloud_disk_server.Prelude.{
  ℕ, zero, suc, ◌+◌, ◌-◌, ◌*◌, ◌/◌, ◌%◌, ◌^◌, ◌≡◌, refl, ap, ◌∙◌, arith, List, [], ◌∷◌, length,
  take, drop, get_or, ltb, if◌then◌else◌, ◌≤◌, length-take, length-drop,
}
use cloud_disk_server.Prelude.Bits.{bit_and, bit_or, bit_xor}
use cloud_disk_server.Prelude.Text.{Bytes}
use cloud_disk_server.Md5.Transform.{
  Digest, Line, step, steps, decode, f_mix, g_mix, h_mix, i_mix, f_lines, g_lines, h_lines, i_lines,
  transform,
}
use cloud_disk_server.Md5.Context.{start, blocks}

-- Terms of the series of the sine of x in units of 2 ^ -256, each from the one before, where
-- `odd` is the exponent: the ones that are added and the ones that are subtracted.
abbrev sine_terms : ℕ → ℕ → ℕ → ℕ → ℕ → ℕ → ℕ
sine_terms zero x odd term plus minus = if ltb plus minus then minus - plus else plus - minus
sine_terms (suc n) x odd term plus minus =
    sine_terms n x (odd + 2) (term * x * x / ((odd + 1) * (odd + 2))) minus (plus + term)

-- The absolute value of the sine of x radians, in units of 2 ^ -256.
abbrev sine : ℕ → ℕ
sine x = sine_terms 160 x 1 (x * 2 ^ 256) 0 0

-- T[i + 1] of the text: the integer part of 2 ^ 32 times the absolute value of the sine of i + 1.
abbrev sine_word : ℕ → ℕ
sine_word i = sine (i + 1) / 2 ^ 224

-- The four functions of three words.
abbrev selected : ℕ → ℕ → ℕ → ℕ
selected x y z = bit_or (bit_and x y) (bit_and (2 ^ 32 - 1 - x) z)

abbrev selected_by_last : ℕ → ℕ → ℕ → ℕ
selected_by_last x y z = bit_or (bit_and x z) (bit_and y (2 ^ 32 - 1 - z))

abbrev parity : ℕ → ℕ → ℕ → ℕ
parity x y z = bit_xor (bit_xor x y) z

abbrev mixed : ℕ → ℕ → ℕ → ℕ
mixed x y z = bit_xor y (bit_or x (2 ^ 32 - 1 - z))

-- x <<< n.
abbrev circular_shift : ℕ → ℕ → ℕ
circular_shift x n = bit_or (x * 2 ^ n % 2 ^ 32) (x / 2 ^ (32 - n))

-- [abcd k s i]: a = b + ((a + mix(b, c, d) + X[k] + T[i]) <<< s), after which the next operation
-- has the words in the order d, a, b, c.
abbrev operation : (ℕ → ℕ → ℕ → ℕ) → List ℕ → ℕ → ℕ → ℕ → Digest → Digest
operation mix x k s t v = record {
  a = v.d;
  b = (v.b + circular_shift ((v.a + mix v.b v.c v.d + get_or x k 0 + t) % 2 ^ 32) s) % 2 ^ 32;
  c = v.b;
  d = v.c;
}

-- A round of so many operations from operation i on. The words of X are taken from word `first`
-- on and `apart` apart, and the shifts are the four given, in turn.
unfoldable pub operations : (ℕ → ℕ → ℕ → ℕ) → List ℕ → ℕ → ℕ → List ℕ → ℕ → ℕ → Digest → Digest
operations mix x first apart shifts zero i v = v
operations mix x first apart shifts (suc n) i v =
    operations mix x first apart shifts n (i + 1)
      (operation mix x ((first + i % 16 * apart) % 16) (get_or shifts (i % 4) 0) (sine_word i) v)

-- The words of a block, "with the low-order byte given first".
unfoldable pub words : ℕ → Bytes → List ℕ
words zero block = []
words (suc n) block =
    bit_or
      (bit_or (bit_or (get_or block 0 0) (get_or block 1 0 * 2 ^ 8)) (get_or block 2 0 * 2 ^ 16))
      (get_or block 3 0 * 2 ^ 24 % 2 ^ 32)
    ∷ words n (drop 4 block)

abbrev sums : Digest → Digest → Digest
sums v w = record {
  a = (v.a + w.a) % 2 ^ 32;
  b = (v.b + w.b) % 2 ^ 32;
  c = (v.c + w.c) % 2 ^ 32;
  d = (v.d + w.d) % 2 ^ 32;
}

-- Four rounds of 16 operations, and the words they began with added.
unfoldable pub process : Digest → Bytes → Digest
process v block =
    let x = words 16 block in
    let w = operations mixed x 0 7 (6 ∷ 10 ∷ 15 ∷ 21 ∷ []) 16 48 (
      operations parity x 5 3 (4 ∷ 11 ∷ 16 ∷ 23 ∷ []) 16 32 (
        operations selected_by_last x 1 5 (5 ∷ 9 ∷ 14 ∷ 20 ∷ []) 16 16
          (operations selected x 0 1 (7 ∷ 12 ∷ 17 ∷ 22 ∷ []) 16 0 v))) in
    sums v w

-- "word A: 01 23 45 67", the low-order byte first, and so on.
abbrev pub initial : Digest
initial = record { a = 0x67452301; b = 0xefcdab89; c = 0x98badcfe; d = 0x10325476 }

unfoldable pub process_blocks : ℕ → Digest → Bytes → Digest
process_blocks zero v bytes = v
process_blocks (suc n) v bytes = process_blocks n (process v (take 64 bytes)) (drop 64 bytes)

-- The lines of a round as the text gives them.
abbrev described : ℕ → ℕ → List ℕ → ℕ → ℕ → List Line
described first apart shifts zero i = []
described first apart shifts (suc n) i =
    record {
      word = (first + i % 16 * apart) % 16;
      shift = get_or shifts (i % 4) 0;
      constant = sine_word i;
    }
    ∷ described first apart shifts n (i + 1)

f_lines-described : f_lines ≡ described 0 1 (7 ∷ 12 ∷ 17 ∷ 22 ∷ []) 16 0
f_lines-described = refl

g_lines-described : g_lines ≡ described 1 5 (5 ∷ 9 ∷ 14 ∷ 20 ∷ []) 16 16
g_lines-described = refl

h_lines-described : h_lines ≡ described 5 3 (4 ∷ 11 ∷ 16 ∷ 23 ∷ []) 16 32
h_lines-described = refl

i_lines-described : i_lines ≡ described 0 7 (6 ∷ 10 ∷ 15 ∷ 21 ∷ []) 16 48
i_lines-described = refl

sum_lem : (p q r t : ℕ) → (((p + q) % 2 ^ 32 + r) % 2 ^ 32 + t) % 2 ^ 32 ≡ (p + q + r + t) % 2 ^ 32
sum_lem p q r t = omega arith

sum_swap : (p q : ℕ) → (p + q) % 2 ^ 32 ≡ (q + p) % 2 ^ 32
sum_swap p q = omega arith

step_lem :
    (mix : ℕ → ℕ → ℕ → ℕ) (x : List ℕ) (k s t : ℕ) (v : Digest)
    → step mix x (record { word = k; shift = s; constant = t }) v ≡ operation mix x k s t v
unfolding step
step_lem mix x k s t v =
    ap (λ (b : ℕ). record { a = v.d; b = b; c = v.b; d = v.c })
      (ap (λ (n : ℕ). (circular_shift n s + v.b) % 2 ^ 32)
          (sum_lem v.a (mix v.b v.c v.d) (get_or x k 0) t)
        ∙ sum_swap (circular_shift ((v.a + mix v.b v.c v.d + get_or x k 0 + t) % 2 ^ 32) s) v.b)

steps-described :
    (mix : ℕ → ℕ → ℕ → ℕ) (x : List ℕ) (first apart : ℕ) (shifts : List ℕ) (n i : ℕ) (v : Digest)
    → steps mix x (described first apart shifts n i) v ≡ operations mix x first apart shifts n i v
unfolding steps operations
steps-described mix x first apart shifts zero i v = refl
steps-described mix x first apart shifts (suc n) i v =
    ap (steps mix x (described first apart shifts n (i + 1)))
      (step_lem mix x ((first + i % 16 * apart) % 16) (get_or shifts (i % 4) 0) (sine_word i) v)
    ∙ steps-described mix x first apart shifts n (i + 1)
        (operation mix x ((first + i % 16 * apart) % 16) (get_or shifts (i % 4) 0) (sine_word i) v)

decode-words : (n : ℕ) (block : Bytes) → length block ≡ n * 4 → decode block ≡ words n block
unfolding decode words
decode-words zero [] h = refl
decode-words zero (p ∷ block) h = absurd (omega arith)
decode-words (suc n) [] h = absurd (omega arith)
decode-words (suc n) (p ∷ []) h = absurd (omega arith)
decode-words (suc n) (p ∷ q ∷ []) h = absurd (omega arith)
decode-words (suc n) (p ∷ q ∷ r ∷ []) h = absurd (omega arith)
decode-words (suc n) (p ∷ q ∷ r ∷ s ∷ block) h =
    ap (◌∷◌ (bit_or (bit_or (bit_or p (q * 2 ^ 8)) (r * 2 ^ 16)) (s * 2 ^ 24 % 2 ^ 32)))
      (decode-words n block (omega arith))

rounds_lem :
    (x : List ℕ) (v : Digest)
    → steps i_mix x i_lines
        (steps h_mix x h_lines (steps g_mix x g_lines (steps f_mix x f_lines v)))
      ≡ operations mixed x 0 7 (6 ∷ 10 ∷ 15 ∷ 21 ∷ []) 16 48 (
          operations parity x 5 3 (4 ∷ 11 ∷ 16 ∷ 23 ∷ []) 16 32 (
            operations selected_by_last x 1 5
              (5 ∷ 9 ∷ 14 ∷ 20 ∷ [])
              16
              16
              (operations selected x 0 1 (7 ∷ 12 ∷ 17 ∷ 22 ∷ []) 16 0 v)))
rounds_lem x v =
    ap
      (λ (ls : List Line).
        steps i_mix x ls (steps h_mix x h_lines (steps g_mix x g_lines (steps f_mix x f_lines v))))
      i_lines-described
    ∙ steps-described i_mix x 0 7 (6 ∷ 10 ∷ 15 ∷ 21 ∷ []) 16 48
        (steps h_mix x h_lines (steps g_mix x g_lines (steps f_mix x f_lines v)))
    ∙ ap (operations mixed x 0 7 (6 ∷ 10 ∷ 15 ∷ 21 ∷ []) 16 48) (
        ap (λ (ls : List Line). steps h_mix x ls (steps g_mix x g_lines (steps f_mix x f_lines v)))
          h_lines-described
        ∙ steps-described h_mix x 5 3 (4 ∷ 11 ∷ 16 ∷ 23 ∷ []) 16 32
            (steps g_mix x g_lines (steps f_mix x f_lines v))
        ∙ ap (operations parity x 5 3 (4 ∷ 11 ∷ 16 ∷ 23 ∷ []) 16 32) (
            ap (λ (ls : List Line). steps g_mix x ls (steps f_mix x f_lines v)) g_lines-described
            ∙ steps-described g_mix x 1 5 (5 ∷ 9 ∷ 14 ∷ 20 ∷ []) 16 16 (steps f_mix x f_lines v)
            ∙ ap (operations selected_by_last x 1 5 (5 ∷ 9 ∷ 14 ∷ 20 ∷ []) 16 16) (
                ap (λ (ls : List Line). steps f_mix x ls v) f_lines-described
                ∙ steps-described f_mix x 0 1 (7 ∷ 12 ∷ 17 ∷ 22 ∷ []) 16 0 v)))

transform_lem :
    (v : Digest) (block : Bytes) → length block ≡ 64 → transform v block ≡ process v block
unfolding transform process
transform_lem v block h =
    ap
      (λ (x : List ℕ). sums v (
        steps i_mix x i_lines
          (steps h_mix x h_lines (steps g_mix x g_lines (steps f_mix x f_lines v)))))
      (decode-words 16 block h)
    ∙ ap (sums v) (rounds_lem (words 16 block) v)

-- The blocks of the code are those of the text, from the same words on.
pub blocks_lem :
    (n : ℕ) (v : Digest) (bytes : Bytes)
    → n * 64 ≤ length bytes
    → blocks n v bytes ≡ process_blocks n v bytes
unfolding blocks process_blocks
blocks_lem zero v bytes h = refl
blocks_lem (suc n) v bytes h =
    ap (λ (w : Digest). blocks n w (drop 64 bytes))
      (transform_lem v (take 64 bytes) (omega (arith, length-take 64 bytes)))
    ∙ blocks_lem n (process v (take 64 bytes)) (drop 64 bytes) (omega (arith, length-drop 64 bytes))

pub start_lem : start ≡ initial
start_lem = refl
