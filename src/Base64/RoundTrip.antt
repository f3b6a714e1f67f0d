-- ===== src/Base64/RoundTrip.antt =====
-- `base64_decode` after `base64_encode` of common/base64.c.
use cloud_disk_server.Prelude.{ℕ, ◌+◌, ◌*◌, ◌/◌, ◌%◌, ◌^◌, ◌<◌, ◌≡◌, refl, ap, ap₂, ◌∙◌, arith}
use cloud_disk_server.Prelude.{Bool, true, false, [], ◌∷◌, All, ◌==◌, not}
use cloud_disk_server.Prelude.Bits.{bit_and}
use cloud_disk_server.Prelude.Bits.Words.{or_sum, and_ones}
use cloud_disk_server.Prelude.Finite.{every, every_holds, same_values}
use cloud_disk_server.Prelude.Outcome.{done}
use cloud_disk_server.Prelude.Text.{Bytes}
use cloud_disk_server.Base64.Codec.{
  char_at, shl8, first_six, second_six, third_six, fourth_six, base64_encode, index_of, first_byte,
  second_byte, third_byte, base64_decode,
}

not-true : (b : Bool) → not b ≡ true → b ≡ false
not-true b h = ground arith

-- The fields of a byte, as numbers.
high_two : (x : ℕ) → x < 256 → bit_and (shl8 x 4) 0x30 ≡ x % 4 * 16
unfolding every
high_two x h = same_values (λ x. bit_and (shl8 x 4) 0x30) (λ x. x % 4 * 16) 256 x refl h

low_four : (y : ℕ) → y < 256 → bit_and (shl8 y 2) 0x3C ≡ y % 16 * 4
unfolding every
low_four y h = same_values (λ y. bit_and (shl8 y 2) 0x3C) (λ y. y % 16 * 4) 256 y refl h

six_up : (p : ℕ) → p < 64 → bit_and (shl8 p 2) 0xFC ≡ p * 4
unfolding every
six_up p h = same_values (λ p. bit_and (shl8 p 2) 0xFC) (λ p. p * 4) 64 p refl h

four_up : (q : ℕ) → q < 64 → bit_and (shl8 q 4) 0xF0 ≡ q % 16 * 16
unfolding every
four_up q h = same_values (λ q. bit_and (shl8 q 4) 0xF0) (λ q. q % 16 * 16) 64 q refl h

two_up : (r : ℕ) → r < 64 → bit_and (shl8 r 6) 0xF0 ≡ r % 4 * 64
unfolding every
two_up r h = same_values (λ r. bit_and (shl8 r 6) 0xF0) (λ r. r % 4 * 64) 64 r refl h

first_six_lem : (x : ℕ) → x < 256 → first_six x ≡ x / 4
unfolding first_six
first_six_lem x h = omega (arith, and_ones 6 (x / 2 ^ 2))

second_six_lem : (x y : ℕ) → x < 256 → y < 256 → second_six x y ≡ x % 4 * 16 + y / 16
unfolding second_six
second_six_lem x y hx hy =
    rw (high_two x hx, and_ones 4 (y / 2 ^ 4))
      (or_sum 4 (x % 4) (y / 16 % 16) (omega arith) ∙ omega arith)

third_six_lem : (y z : ℕ) → y < 256 → z < 256 → third_six y z ≡ y % 16 * 4 + z / 64
unfolding third_six
third_six_lem y z hy hz =
    rw (low_four y hy, and_ones 2 (z / 2 ^ 6))
      (or_sum 2 (y % 16) (z / 64 % 4) (omega arith) ∙ omega arith)

fourth_six_lem : (z : ℕ) → fourth_six z ≡ z % 64
unfolding fourth_six
fourth_six_lem z = and_ones 6 z

first_byte_lem : (p q : ℕ) → p < 64 → q < 64 → first_byte p q ≡ p * 4 + q / 16
unfolding first_byte
first_byte_lem p q hp hq =
    rw (six_up p hp, and_ones 2 (q / 2 ^ 4)) (or_sum 2 p (q / 16 % 4) (omega arith) ∙ omega arith)

second_byte_lem : (q r : ℕ) → q < 64 → r < 64 → second_byte q r ≡ q % 16 * 16 + r / 4
unfolding second_byte
second_byte_lem q r hq hr =
    rw (four_up q hq, and_ones 4 (r / 2 ^ 2))
      (or_sum 4 (q % 16) (r / 4 % 16) (omega arith) ∙ omega arith)

third_byte_lem : (r s : ℕ) → r < 64 → s < 64 → third_byte r s ≡ r % 4 * 64 + s
unfolding third_byte
third_byte_lem r s hr hs =
    rw (two_up r hr, and_ones 6 s) (or_sum 6 (r % 4) (s % 64) (omega arith) ∙ omega arith)

-- The table has each index in its place, and no equals sign.
index-char : (k : ℕ) → k < 64 → index_of (char_at k) ≡ k
unfolding every index_of
index-char k h = same_values (λ k. index_of (char_at k)) (λ k. k) 64 k refl h

char_no_equals : (k : ℕ) → k < 64 → (char_at k == b'=') ≡ false
unfolding every
char_no_equals k h = not-true _ (every_holds (λ k. not (char_at k == b'=')) 64 k refl h)

abbrev pub IsByte : ℕ → Type 0
IsByte x = x < 256

-- Two characters give the first byte, whatever low bits the second has.
one_lem :
    (p q : ℕ)
    → p < 64
    → q < 64
    → first_byte (index_of (char_at p)) (index_of (char_at q)) ≡ p * 4 + q / 16
one_lem p q hp hq = rw (index-char p hp, index-char q hq) (first_byte_lem p q hp hq)

two_lem :
    (q r : ℕ)
    → q < 64
    → r < 64
    → second_byte (index_of (char_at q)) (index_of (char_at r)) ≡ q % 16 * 16 + r / 4
two_lem q r hq hr = rw (index-char q hq, index-char r hr) (second_byte_lem q r hq hr)

three_lem :
    (r s : ℕ)
    → r < 64
    → s < 64
    → third_byte (index_of (char_at r)) (index_of (char_at s)) ≡ r % 4 * 64 + s
three_lem r s hr hs = rw (index-char r hr, index-char s hs) (third_byte_lem r s hr hs)

-- Any bytes, each below 256, encoded and decoded, are the same bytes.
pub base64_decode-encode :
    (bytes : Bytes) → All IsByte bytes → base64_decode (base64_encode bytes) ≡ done bytes
unfolding base64_decode base64_encode
base64_decode-encode [] h = refl
base64_decode-encode (x ∷ []) h =
    rw
      (
        high_two x h.0,
        first_six_lem x h.0,
        one_lem (x / 4) (x % 4 * 16) (omega (arith, h.0)) (omega arith),
      )
      (ap (λ (a : ℕ). done (a ∷ [])) (omega arith))
base64_decode-encode (x ∷ y ∷ []) h =
    rw
      (
        first_six_lem x h.0,
        second_six_lem x y h.0 h.1.0,
        low_four y h.1.0,
        char_no_equals (y % 16 * 4) (omega arith),
        one_lem (x / 4) (x % 4 * 16 + y / 16) (omega (arith, h.0)) (omega (arith, h.1.0)),
        two_lem (x % 4 * 16 + y / 16) (y % 16 * 4) (omega (arith, h.1.0)) (omega arith),
      )
      (ap₂ (λ (a b : ℕ). done (a ∷ b ∷ [])) (omega (arith, h.1.0)) (omega (arith, h.1.0)))
base64_decode-encode (x ∷ y ∷ z ∷ rest) h =
    rw
      (
        first_six_lem x h.0,
        second_six_lem x y h.0 h.1.0,
        third_six_lem y z h.1.0 h.1.1.0,
        fourth_six_lem z,
        char_no_equals (y % 16 * 4 + z / 64) (omega (arith, h.1.1.0)),
        char_no_equals (z % 64) (omega arith),
        one_lem (x / 4) (x % 4 * 16 + y / 16) (omega (arith, h.0)) (omega (arith, h.1.0)),
        two_lem (x % 4 * 16 + y / 16) (y % 16 * 4 + z / 64) (omega (arith, h.1.0))
            (omega (arith, h.1.1.0)),
        three_lem (y % 16 * 4 + z / 64) (z % 64) (omega (arith, h.1.1.0)) (omega arith),
        base64_decode-encode rest h.1.1.1,
      )
      (ap₂ (λ (a : ℕ) (bytes : Bytes). done (a ∷ bytes)) (omega (arith, h.0, h.1.0))
        (ap₂ (λ (b c : ℕ). b ∷ c ∷ rest) (omega (arith, h.1.0, h.1.1.0)) (omega (arith, h.1.1.0))))
