-- ===== src/Md5/Context.antt =====
-- The context of common/md5.c: a digest that takes its input in pieces.
use cloud_disk_server.Prelude.{ℕ, zero, suc, ◌+◌, ◌-◌, ◌*◌, ◌/◌, ◌%◌, ◌^◌, [], ◌∷◌, ◌++◌}
use cloud_disk_server.Prelude.{ltb, leb, if◌then◌else◌, length, take, drop, replicate}
use cloud_disk_server.Prelude.Text.{Bytes}
use cloud_disk_server.Md5.Transform.{Digest, transform}

-- MD5_CTX. The array `count` is `low` and `high`.
pub record Md5Ctx : Type 0 where
  pub low : ℕ
  pub high : ℕ
  pub state : Digest
  pub buffer : Bytes

abbrev pub start : Digest
start = record { a = 0x67452301; b = 0xEFCDAB89; c = 0x98BADCFE; d = 0x10325476 }

-- MD5Init on a context whose buffer holds the 64 bytes `buffer`.
unfoldable pub init : Bytes → Md5Ctx
init buffer = record { low = 0; high = 0; state = start; buffer = buffer }

-- The loop over the whole blocks of the input that is left.
unfoldable pub blocks : ℕ → Digest → Bytes → Digest
blocks zero s bytes = s
blocks (suc n) s bytes = blocks n (transform s (take 64 bytes)) (drop 64 bytes)

-- `memcpy(&buffer[index], bytes, n)` for the n bytes given.
unfoldable pub put : Bytes → ℕ → Bytes → Bytes
put buffer index bytes = take index buffer ++ (bytes ++ drop (index + length bytes) buffer)

-- The new count: a sum that wraps carries one.
unfoldable pub count_low : ℕ → ℕ → ℕ
count_low low inputlen = (low + inputlen * 2 ^ 3 % 2 ^ 32) % 2 ^ 32

unfoldable pub count_high : ℕ → ℕ → ℕ → ℕ
count_high low high inputlen =
    let carried =
      if ltb (count_low low inputlen) (inputlen * 2 ^ 3 % 2 ^ 32)
      then (high + 1) % 2 ^ 32
      else high in
    (carried + inputlen / 2 ^ 29) % 2 ^ 32

-- `index`, the bytes that wait in the buffer.
unfoldable pub waiting : ℕ → ℕ
waiting low = low / 2 ^ 3 % 64

-- The part of MD5Update behind the count: the digest and the buffer, with `index` bytes waiting.
-- It is the code for an input of less than 2 ^ 32 - 64 bytes. The length is an `unsigned int`, and
-- with a longer input `i + 64` in the loop's test can wrap, so that the loop reads on beyond the
-- input and does not end; MD5Transform of such reads is not modelled.
unfoldable pub absorb : Digest → Bytes → ℕ → Bytes → Digest × Bytes
absorb s buffer index input =
    let partlen = 64 - index in
    let full = put buffer index (take partlen input) in
    let n = (length input - partlen) / 64 in
    if leb partlen (length input)
    then (
      blocks n (transform s full) (drop partlen input),
      put full 0 (drop (n * 64) (drop partlen input)),
    )
    else (s, put buffer index input)

unfoldable pub update : Md5Ctx → Bytes → Md5Ctx
update ctx input =
    let taken = absorb ctx.state ctx.buffer (waiting ctx.low) input in
    record {
      low = count_low ctx.low (length input);
      high = count_high ctx.low ctx.high (length input);
      state = taken.0;
      buffer = taken.1;
    }

-- `MD5Encode` of one word.
abbrev pub encode : ℕ → Bytes
encode w = w % 256 ∷ w / 2 ^ 8 % 256 ∷ w / 2 ^ 16 % 256 ∷ w / 2 ^ 24 % 256 ∷ []

abbrev pub padding : Bytes
padding = 0x80 ∷ replicate 63 0

unfoldable pub encode_state : Digest → Bytes
encode_state s = encode s.a ++ (encode s.b ++ (encode s.c ++ encode s.d))

unfoldable pub pad_length : ℕ → ℕ
pad_length index = if ltb index 56 then 56 - index else 120 - index

-- MD5Final up to the last `MD5Encode`: the padding, and the count as it was before.
unfoldable pub finish : Md5Ctx → Md5Ctx
finish ctx =
    update (update ctx (take (pad_length (waiting ctx.low)) padding))
      (encode ctx.low ++ encode ctx.high)

unfoldable pub final : Md5Ctx → Bytes
final ctx = encode_state (finish ctx).state

-- `sprintf` with `%02x` of a byte.
abbrev pub hex_digit : ℕ → ℕ
hex_digit n = if ltb n 10 then b'0' + n else b'a' + (n - 10)

unfoldable pub hex : Bytes → Bytes
hex [] = []
hex (b ∷ bs) = hex_digit (b / 16) ∷ hex_digit (b % 16) ∷ hex bs

-- MD5ToHexString: the string that it writes, for an input that MD5Update takes (`absorb`). The
-- context stands on the stack, so that its buffer starts with whatever is there.
unfoldable pub md5_to_hex_string : Bytes → Bytes → Bytes
md5_to_hex_string stack input = hex (final (update (init stack) input))
