-- ===== src/Base64/Codec.antt =====
-- `base64_encode` and `base64_decode` of common/base64.c.
use cloud_disk_server.Prelude.{ℕ, ◌+◌, ◌*◌, ◌/◌, ◌%◌, ◌^◌, [], ◌∷◌}
use cloud_disk_server.Prelude.{get_or, ◌==◌, if◌then◌else◌}
use cloud_disk_server.Prelude.Bits.{bit_and, bit_or}
use cloud_disk_server.Prelude.Outcome.{Outcome, done, fault, ◌>>=◌}
use cloud_disk_server.Prelude.Text.{Bytes, codes}

-- `base64char`, whose byte 64 is its NUL.
abbrev pub base64char : Bytes
base64char = codes "ABCDEFGHIJKLMNOPQRSTUVWXYZabcdefghijklmnopqrstuvwxyz0123456789+/"

abbrev pub char_at : ℕ → ℕ
char_at k = get_or base64char k 0

-- `(unsigned char)(x << k)`.
abbrev pub shl8 : ℕ → ℕ → ℕ
shl8 x k = x * 2 ^ k % 2 ^ 8

-- The four values of `current`, from one, two or three bytes.
unfoldable pub first_six : ℕ → ℕ
first_six x = bit_and (x / 2 ^ 2) 0x3F

unfoldable pub second_six : ℕ → ℕ → ℕ
second_six x y = bit_or (bit_and (shl8 x 4) 0x30) (bit_and (y / 2 ^ 4) 0x0F)

unfoldable pub third_six : ℕ → ℕ → ℕ
third_six y z = bit_or (bit_and (shl8 y 2) 0x3C) (bit_and (z / 2 ^ 6) 0x03)

unfoldable pub fourth_six : ℕ → ℕ
fourth_six z = bit_and z 0x3F

-- The loop, three bytes in a round; the string that is written.
unfoldable pub base64_encode : Bytes → Bytes
base64_encode [] = []
base64_encode (x ∷ []) =
    char_at (first_six x) ∷ char_at (bit_and (shl8 x 4) 0x30) ∷ b'=' ∷ b'=' ∷ []
base64_encode (x ∷ y ∷ []) =
    char_at (first_six x) ∷ char_at (second_six x y) ∷ char_at (bit_and (shl8 y 2) 0x3C) ∷ b'=' ∷ []
base64_encode (x ∷ y ∷ z ∷ rest) =
    char_at (first_six x)
    ∷ char_at (second_six x y)
    ∷ char_at (third_six y z)
    ∷ char_at (fourth_six z)
    ∷ base64_encode rest

-- The loop over `k` for one character: the last index that has it, or 0xFF.
unfoldable pub find_index : Bytes → ℕ → ℕ → ℕ → ℕ
find_index [] k c found = found
find_index (d ∷ ds) k c found = find_index ds (k + 1) c (if d == c then k else found)

unfoldable pub index_of : ℕ → ℕ
unfolding find_index
index_of c = find_index base64char 0 c 0xFF

-- The three bytes that a round may write.
unfoldable pub first_byte : ℕ → ℕ → ℕ
first_byte p q = bit_or (bit_and (shl8 p 2) 0xFC) (bit_and (q / 2 ^ 4) 0x03)

unfoldable pub second_byte : ℕ → ℕ → ℕ
second_byte q r = bit_or (bit_and (shl8 q 4) 0xF0) (bit_and (r / 2 ^ 2) 0x0F)

unfoldable pub third_byte : ℕ → ℕ → ℕ
third_byte r s = bit_or (bit_and (shl8 r 6) 0xF0) (bit_and s 0x3F)

-- The loop over the string, four characters in a round; the bytes that are written. A string that
-- ends within a round is read beyond its NUL, unless an equals sign before the NUL ends the loop.
unfoldable pub base64_decode : Bytes → Outcome Bytes
base64_decode [] = done []
base64_decode (a ∷ b ∷ c ∷ d ∷ text) =
    let one = first_byte (index_of a) (index_of b) in
    let two = second_byte (index_of b) (index_of c) in
    let three = third_byte (index_of c) (index_of d) in
    let rest = base64_decode text in
    if c == b'='
    then done (one ∷ [])
    else if d == b'='
    then done (one ∷ two ∷ [])
    else (do bytes ← rest; done (one ∷ two ∷ three ∷ bytes))
base64_decode (a ∷ b ∷ c ∷ []) =
    if c == b'=' then done (first_byte (index_of a) (index_of b) ∷ []) else fault
base64_decode (a ∷ b ∷ []) = fault
base64_decode (a ∷ []) = fault
