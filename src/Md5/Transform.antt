-- ===== src/Md5/Transform.antt =====
-- The block function of common/md5.c with the macros of include/md5.h.
use cloud_disk_server.Prelude.{ℕ, ◌+◌, ◌-◌, ◌*◌, ◌/◌, ◌%◌, ◌^◌, List, [], ◌∷◌, get_or}
use cloud_disk_server.Prelude.Bits.{bit_and, bit_or, bit_xor}

-- `unsigned int state[4]`, and the variables a, b, c, d of the block function.
pub record Digest : Type 0 where
  pub a : ℕ
  pub b : ℕ
  pub c : ℕ
  pub d : ℕ

abbrev complement : ℕ → ℕ
complement x = 2 ^ 32 - 1 - x

abbrev pub add : ℕ → ℕ → ℕ
add x y = (x + y) % 2 ^ 32

abbrev pub f_mix : ℕ → ℕ → ℕ → ℕ
f_mix x y z = bit_or (bit_and x y) (bit_and (complement x) z)

abbrev pub g_mix : ℕ → ℕ → ℕ → ℕ
g_mix x y z = bit_or (bit_and x z) (bit_and y (complement z))

abbrev pub h_mix : ℕ → ℕ → ℕ → ℕ
h_mix x y z = bit_xor (bit_xor x y) z

abbrev pub i_mix : ℕ → ℕ → ℕ → ℕ
i_mix x y z = bit_xor y (bit_or x (complement z))

abbrev rotate_left : ℕ → ℕ → ℕ
rotate_left x n = bit_or (x * 2 ^ n % 2 ^ 32) (x / 2 ^ (32 - n))

-- The arguments of one of the 64 lines.
pub record Line : Type 0 where
  pub word : ℕ
  pub shift : ℕ
  pub constant : ℕ

-- One line. The next one has the variables in the order d, a, b, c.
unfoldable pub step : (ℕ → ℕ → ℕ → ℕ) → List ℕ → Line → Digest → Digest
step mix x l s =
    let sum = add (add (add s.a (mix s.b s.c s.d)) (get_or x l.word 0)) l.constant in
    record { a = s.d; b = add (rotate_left sum l.shift) s.b; c = s.b; d = s.c }

unfoldable pub steps : (ℕ → ℕ → ℕ → ℕ) → List ℕ → List Line → Digest → Digest
unfolding step
steps mix x [] s = s
steps mix x (l ∷ ls) s = steps mix x ls (step mix x l s)

abbrev pub f_lines : List Line
f_lines =
    record { word = 0; shift = 7; constant = 0xd76aa478 }
    ∷ record { word = 1; shift = 12; constant = 0xe8c7b756 }
    ∷ record { word = 2; shift = 17; constant = 0x242070db }
    ∷ record { word = 3; shift = 22; constant = 0xc1bdceee }
    ∷ record { word = 4; shift = 7; constant = 0xf57c0faf }
    ∷ record { word = 5; shift = 12; constant = 0x4787c62a }
    ∷ record { word = 6; shift = 17; constant = 0xa8304613 }
    ∷ record { word = 7; shift = 22; constant = 0xfd469501 }
    ∷ record { word = 8; shift = 7; constant = 0x698098d8 }
    ∷ record { word = 9; shift = 12; constant = 0x8b44f7af }
    ∷ record { word = 10; shift = 17; constant = 0xffff5bb1 }
    ∷ record { word = 11; shift = 22; constant = 0x895cd7be }
    ∷ record { word = 12; shift = 7; constant = 0x6b901122 }
    ∷ record { word = 13; shift = 12; constant = 0xfd987193 }
    ∷ record { word = 14; shift = 17; constant = 0xa679438e }
    ∷ record { word = 15; shift = 22; constant = 0x49b40821 }
    ∷ []

abbrev pub g_lines : List Line
g_lines =
    record { word = 1; shift = 5; constant = 0xf61e2562 }
    ∷ record { word = 6; shift = 9; constant = 0xc040b340 }
    ∷ record { word = 11; shift = 14; constant = 0x265e5a51 }
    ∷ record { word = 0; shift = 20; constant = 0xe9b6c7aa }
    ∷ record { word = 5; shift = 5; constant = 0xd62f105d }
    ∷ record { word = 10; shift = 9; constant = 0x2441453 }
    ∷ record { word = 15; shift = 14; constant = 0xd8a1e681 }
    ∷ record { word = 4; shift = 20; constant = 0xe7d3fbc8 }
    ∷ record { word = 9; shift = 5; constant = 0x21e1cde6 }
    ∷ record { word = 14; shift = 9; constant = 0xc33707d6 }
    ∷ record { word = 3; shift = 14; constant = 0xf4d50d87 }
    ∷ record { word = 8; shift = 20; constant = 0x455a14ed }
    ∷ record { word = 13; shift = 5; constant = 0xa9e3e905 }
    ∷ record { word = 2; shift = 9; constant = 0xfcefa3f8 }
    ∷ record { word = 7; shift = 14; constant = 0x676f02d9 }
    ∷ record { word = 12; shift = 20; constant = 0x8d2a4c8a }
    ∷ []

abbrev pub h_lines : List Line
h_lines =
    record { word = 5; shift = 4; constant = 0xfffa3942 }
    ∷ record { word = 8; shift = 11; constant = 0x8771f681 }
    ∷ record { word = 11; shift = 16; constant = 0x6d9d6122 }
    ∷ record { word = 14; shift = 23; constant = 0xfde5380c }
    ∷ record { word = 1; shift = 4; constant = 0xa4beea44 }
    ∷ record { word = 4; shift = 11; constant = 0x4bdecfa9 }
    ∷ record { word = 7; shift = 16; constant = 0xf6bb4b60 }
    ∷ record { word = 10; shift = 23; constant = 0xbebfbc70 }
    ∷ record { word = 13; shift = 4; constant = 0x289b7ec6 }
    ∷ record { word = 0; shift = 11; constant = 0xeaa127fa }
    ∷ record { word = 3; shift = 16; constant = 0xd4ef3085 }
    ∷ record { word = 6; shift = 23; constant = 0x4881d05 }
    ∷ record { word = 9; shift = 4; constant = 0xd9d4d039 }
    ∷ record { word = 12; shift = 11; constant = 0xe6db99e5 }
    ∷ record { word = 15; shift = 16; constant = 0x1fa27cf8 }
    ∷ record { word = 2; shift = 23; constant = 0xc4ac5665 }
    ∷ []

abbrev pub i_lines : List Line
i_lines =
    record { word = 0; shift = 6; constant = 0xf4292244 }
    ∷ record { word = 7; shift = 10; constant = 0x432aff97 }
    ∷ record { word = 14; shift = 15; constant = 0xab9423a7 }
    ∷ record { word = 5; shift = 21; constant = 0xfc93a039 }
    ∷ record { word = 12; shift = 6; constant = 0x655b59c3 }
    ∷ record { word = 3; shift = 10; constant = 0x8f0ccc92 }
    ∷ record { word = 10; shift = 15; constant = 0xffeff47d }
    ∷ record { word = 1; shift = 21; constant = 0x85845dd1 }
    ∷ record { word = 8; shift = 6; constant = 0x6fa87e4f }
    ∷ record { word = 15; shift = 10; constant = 0xfe2ce6e0 }
    ∷ record { word = 6; shift = 15; constant = 0xa3014314 }
    ∷ record { word = 13; shift = 21; constant = 0x4e0811a1 }
    ∷ record { word = 4; shift = 6; constant = 0xf7537e82 }
    ∷ record { word = 11; shift = 10; constant = 0xbd3af235 }
    ∷ record { word = 2; shift = 15; constant = 0x2ad7d2bb }
    ∷ record { word = 9; shift = 21; constant = 0xeb86d391 }
    ∷ []

-- `MD5Decode` of a block of 64 bytes.
unfoldable pub decode : List ℕ → List ℕ
decode (p ∷ q ∷ r ∷ s ∷ rest) =
    bit_or (bit_or (bit_or p (q * 2 ^ 8)) (r * 2 ^ 16)) (s * 2 ^ 24 % 2 ^ 32) ∷ decode rest
decode _ = []

unfoldable pub transform : Digest → List ℕ → Digest
unfolding steps decode
transform s block =
    let x = decode block in
    let t =
      steps i_mix x i_lines
        (steps h_mix x h_lines (steps g_mix x g_lines (steps f_mix x f_lines s))) in
    record { a = add s.a t.a; b = add s.b t.b; c = add s.c t.c; d = add s.d t.d }
