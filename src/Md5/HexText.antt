-- ===== src/Md5/HexText.antt =====
-- The shape of the text that MD5ToHexString of common/md5.c writes.
use cloud_disk_server.Prelude.{
  ℕ, ◌*◌, ◌/◌, ◌%◌, ◌<◌, ◌≤◌, ◌⊎◌, inl, inr, ◌≡◌, refl, arith, [], ◌∷◌, ◌++◌, length, All,
  All-append, ◌∙◌, ltb, ltb→lt, Bool-cases,
}
use cloud_disk_server.Prelude.Text.{Bytes}
use cloud_disk_server.Md5.Context.{
  md5_to_hex_string, final, finish, encode_state, encode, hex, hex_digit, update, init,
}
use cloud_disk_server.Md5.Transform.{Digest}

-- 0 to 9 and a to f.
abbrev pub IsHexDigit : ℕ → Type 0
IsHexDigit c = ((b'0' ≤ c) × (c ≤ b'9')) ⊎ ((b'a' ≤ c) × (c ≤ b'f'))

hex_digit-IsHexDigit : (n : ℕ) → n < 16 → IsHexDigit (hex_digit n)
hex_digit-IsHexDigit n small = elim (Bool-cases (ltb n 10)) [
  | inl e ↦ rw e (inl (omega arith, omega (arith, ltb→lt n 10 e)))
  | inr e ↦ rw e (inr (omega arith, omega (arith, small)))
]

hex-IsHexDigit : (bs : Bytes) → All (λ b. b < 256) bs → All IsHexDigit (hex bs)
unfolding hex
hex-IsHexDigit [] small = tt
hex-IsHexDigit (b ∷ bs) small = (
  hex_digit-IsHexDigit (b / 16) (omega (arith, small.0)),
  (hex_digit-IsHexDigit (b % 16) (omega arith), hex-IsHexDigit bs small.1),
)

abbrev IsByte : ℕ → Type 0
IsByte b = b < 256

encode-IsByte : (w : ℕ) → All IsByte (encode w)
encode-IsByte w = (omega arith, (omega arith, (omega arith, (omega arith, tt))))

encode_state-IsByte : (s : Digest) → All IsByte (encode_state s)
unfolding encode_state
encode_state-IsByte s =
    All-append IsByte (encode s.a) (encode s.b ++ (encode s.c ++ encode s.d)) (encode-IsByte s.a) (
      All-append IsByte (encode s.b) (encode s.c ++ encode s.d) (encode-IsByte s.b)
        (All-append IsByte (encode s.c) (encode s.d) (encode-IsByte s.c) (encode-IsByte s.d)))

length_encoded : (s : Digest) → 2 * length (encode_state s) ≡ 32
unfolding encode_state
length_encoded s = refl

pub length-hex : (bs : Bytes) → length (hex bs) ≡ 2 * length bs
unfolding hex
length-hex [] = refl
length-hex (b ∷ bs) = omega (arith, length-hex bs)

-- Whatever the input is, and whatever the stack held, the text of the digest has 32 characters,
-- each of them 0 to 9 or a to f, so that nothing in it ends the string or the quotes that a
-- statement puts it in.
pub md5_to_hex_string-IsHexDigit :
    (stack input : Bytes)
    → (length (md5_to_hex_string stack input) ≡ 32) × All IsHexDigit (md5_to_hex_string stack input)
unfolding md5_to_hex_string final
md5_to_hex_string-IsHexDigit stack input = (
  length-hex (encode_state s) ∙ length_encoded s,
  hex-IsHexDigit (encode_state s) (encode_state-IsByte s),
)
  where
    s : Digest
    s = (finish (update (init stack) input)).state
