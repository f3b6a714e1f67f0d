-- ===== src/Md5/Spec.antt =====
-- The digest of a message as RFC 1321 defines it, and that common/md5.c computes it in pieces.
use cloud_disk_server.Prelude.{
  ℕ, zero, suc, ◌+◌, ◌-◌, ◌*◌, ◌/◌, ◌%◌, ◌^◌, ◌≤◌, ◌<◌, ◌≡◌, refl, sym, ap, ap₂, ◌∙◌, arith, List,
  [], ◌∷◌, ◌++◌, length, take, replicate, All, length-append, length-replicate, append_assoc,
  append-nil,
}
use cloud_disk_server.Prelude.Text.{Bytes}
use cloud_disk_server.Md5.Transform.{Digest}
use cloud_disk_server.Md5.Context.{
  Md5Ctx, start, init, blocks, count_low, count_high, waiting, update, encode, padding,
  encode_state, pad_length, finish, final, hex, md5_to_hex_string,
}
use cloud_disk_server.Md5.Rfc.{initial, process_blocks, blocks_lem}
use cloud_disk_server.Md5.Held.{IsHeld, absorb-IsHeld}

-- The bytes of a number from the lowest on, so many of them.
abbrev pub little_endian : ℕ → ℕ → Bytes
little_endian zero w = []
little_endian (suc n) w = w % 256 ∷ little_endian n (w / 256)

-- A one bit, zeros up to 8 bytes below a multiple of 64, and the number of bits modulo 2 ^ 64.
abbrev pub padded : Bytes → Bytes
padded message =
    message
    ++ ((0x80 ∷ replicate ((119 - length message % 64) % 64) 0)
        ++ little_endian 8 (length message * 8 % 2 ^ 64))

abbrev pub digest_bytes : Digest → Bytes
digest_bytes s =
    little_endian 4 s.a ++ (little_endian 4 s.b ++ (little_endian 4 s.c ++ little_endian 4 s.d))

-- The digest of RFC 1321: its block function on every 64 bytes of the padded message, from its
-- four initial words on. Neither the words nor the function are those of the code.
abbrev pub md5 : Bytes → Bytes
md5 message = digest_bytes (process_blocks (length (padded message) / 64) initial (padded message))

-- What a context is after a message.
pub record Absorbed (message : Bytes) (ctx : Md5Ctx) : Type 0 where
  pub low_bits : ctx.low ≡ length message * 8 % 2 ^ 32
  pub high_bits : ctx.high ≡ length message * 8 / 2 ^ 32 % 2 ^ 32
  pub held : IsHeld start message ctx.state ctx.buffer

count_low_lem : (m n : ℕ) → n < 2 ^ 32 → count_low (m * 8 % 2 ^ 32) n ≡ (m + n) * 8 % 2 ^ 32
unfolding count_low
count_low_lem m n h = omega arith

count_high_lem :
    (m n : ℕ)
    → n < 2 ^ 32
    → count_high (m * 8 % 2 ^ 32) (m * 8 / 2 ^ 32 % 2 ^ 32) n ≡ (m + n) * 8 / 2 ^ 32 % 2 ^ 32
unfolding count_high count_low
count_high_lem m n h = ground arith

waiting_lem : (m : ℕ) → waiting (m * 8 % 2 ^ 32) ≡ m % 64
unfolding waiting
waiting_lem m = omega arith

init-Absorbed : (buffer : Bytes) → length buffer ≡ 64 → Absorbed [] (init buffer)
unfolding init blocks
init-Absorbed buffer size = record {
  low_bits = refl;
  high_bits = refl;
  held = record { digested = refl; kept = refl; size = size };
}

update-Absorbed :
    (message : Bytes) (ctx : Md5Ctx) (xs : Bytes)
    → length xs < 2 ^ 32
    → Absorbed message ctx
    → Absorbed (message ++ xs) (update ctx xs)
unfolding update
update-Absorbed message ctx xs small h = record {
  low_bits =
      ap (λ (l : ℕ). count_low l (length xs)) (h.low_bits)
      ∙ count_low_lem (length message) (length xs) small
      ∙ ap (λ (n : ℕ). n * 8 % 2 ^ 32) (sym (length-append message xs));
  high_bits =
      ap₂ (λ (l u : ℕ). count_high l u (length xs)) (h.low_bits) (h.high_bits)
      ∙ count_high_lem (length message) (length xs) small
      ∙ ap (λ (n : ℕ). n * 8 / 2 ^ 32 % 2 ^ 32) (sym (length-append message xs));
  held =
      rw (ap waiting (h.low_bits) ∙ waiting_lem (length message))
        (absorb-IsHeld start message ctx.state ctx.buffer (h.held) xs);
}

unfoldable pub update_all : Md5Ctx → List Bytes → Md5Ctx
update_all ctx [] = ctx
update_all ctx (p ∷ pieces) = update_all (update ctx p) pieces

abbrev pub joined : List Bytes → Bytes
joined [] = []
joined (p ∷ pieces) = p ++ joined pieces

-- A piece for which `i + 64`, an `unsigned int`, does not wrap in the loop of MD5Update: with one
-- of 2 ^ 32 - 64 bytes or more the loop may read beyond the piece and not end.
abbrev pub IsPiece : Bytes → Type 0
IsPiece p = length p + 64 < 2 ^ 32

update_all-Absorbed :
    (pieces : List Bytes) (message : Bytes) (ctx : Md5Ctx)
    → All IsPiece pieces
    → Absorbed message ctx
    → Absorbed (message ++ joined pieces) (update_all ctx pieces)
unfolding update_all
update_all-Absorbed [] message ctx small h = rw (append-nil message) h
update_all-Absorbed (p ∷ pieces) message ctx small h =
    rw (sym (append_assoc message p (joined pieces))) (
      update_all-Absorbed pieces (message ++ p) (update ctx p) small.1
        (update-Absorbed message ctx p (omega (arith, small.0)) h))

take-replicate : (k n b : ℕ) → k ≤ n → take k (replicate n b) ≡ replicate k b
take-replicate zero n b h = refl
take-replicate (suc k) zero b h = absurd (omega arith)
take-replicate (suc k) (suc n) b h = ap (◌∷◌ b) (take-replicate k n b (omega arith))

cons : {x y : ℕ} {xs ys : Bytes} → x ≡ y → xs ≡ ys → x ∷ xs ≡ y ∷ ys
cons e f = ap₂ ◌∷◌ e f

encode_lem : (w : ℕ) → encode w ≡ little_endian 4 w
encode_lem w = cons refl (cons refl (cons (omega arith) (cons (omega arith) refl)))

bits_lem :
    (n : ℕ) → encode (n % 2 ^ 32) ++ encode (n / 2 ^ 32 % 2 ^ 32) ≡ little_endian 8 (n % 2 ^ 64)
bits_lem n = cons (omega arith) (
    cons (omega arith) (
      cons (omega arith) (
        cons (omega arith) (
          cons (omega arith) (cons (omega arith) (cons (omega arith) (cons (omega arith) refl)))))))

pad_bytes : (r : ℕ) → r < 64 → take (pad_length r) padding ≡ 0x80 ∷ replicate ((119 - r) % 64) 0
unfolding pad_length
pad_bytes r h =
    ap (λ (k : ℕ). take k padding) {y = suc ((119 - r) % 64)} (ground arith)
    ∙ ap (◌∷◌ 0x80) (take-replicate ((119 - r) % 64) 63 0 (omega arith))

encode_state_lem : (s : Digest) → encode_state s ≡ digest_bytes s
unfolding encode_state
encode_state_lem s =
    ap₂ ◌++◌ (encode_lem s.a)
      (ap₂ ◌++◌ (encode_lem s.b) (ap₂ ◌++◌ (encode_lem s.c) (encode_lem s.d)))

module _ (message : Bytes) (ctx : Md5Ctx) (h : Absorbed message ctx) where
  abbrev pad : Bytes
  pad = 0x80 ∷ replicate ((119 - length message % 64) % 64) 0

  abbrev bits : Bytes
  bits = little_endian 8 (length message * 8 % 2 ^ 64)

  finish_lem : finish ctx ≡ update (update ctx pad) bits
  unfolding finish
  finish_lem =
      ap₂ (λ (x y : Bytes). update (update ctx x) y)
        (ap (λ (k : ℕ). take (pad_length k) padding)
            (ap waiting (h.low_bits) ∙ waiting_lem (length message))
          ∙ pad_bytes (length message % 64) (omega arith))
        (ap₂ (λ (l u : ℕ). encode l ++ encode u) (h.low_bits) (h.high_bits)
          ∙ bits_lem (length message * 8))

  finish-Absorbed : Absorbed (padded message) (update (update ctx pad) bits)
  finish-Absorbed = rw (sym (append_assoc message pad bits)) (
      update-Absorbed (message ++ pad) (update ctx pad) bits (omega arith) (
        update-Absorbed message ctx pad
          (omega (arith, length-replicate {A = ℕ} ((119 - length message % 64) % 64) 0)) h))

  final_lem : final ctx ≡ md5 message
  unfolding final
  final_lem =
      ap (λ (c : Md5Ctx). encode_state c.state) finish_lem
      ∙ encode_state_lem (update (update ctx pad) bits).state
      ∙ ap digest_bytes (finish-Absorbed.held.digested)
      ∙ ap digest_bytes
          (blocks_lem (length (padded message) / 64) start (padded message) (omega arith))

-- A digest started on any buffer of 64 bytes and given a message in pieces of less than 2 ^ 32 - 64
-- bytes is the digest of RFC 1321 of the pieces put together, where the words it begins with, the
-- order of the words of a block, the shifts and the table, the sine's integer parts, are those of
-- the text and not the code's.
pub final-md5 :
    (buffer : Bytes) (pieces : List Bytes)
    → length buffer ≡ 64
    → All IsPiece pieces
    → final (update_all (init buffer) pieces) ≡ md5 (joined pieces)
final-md5 buffer pieces size small =
    final_lem (joined pieces) (update_all (init buffer) pieces)
      (update_all-Absorbed pieces [] (init buffer) small (init-Absorbed buffer size))

-- The text that MD5ToHexString writes for an input of less than 2 ^ 32 - 64 bytes is the digest of RFC
-- 1321 in hexadecimal, whatever the 64 bytes of the context's buffer held before.
pub md5_to_hex_string-md5 :
    (stack input : Bytes)
    → length stack ≡ 64
    → IsPiece input
    → md5_to_hex_string stack input ≡ hex (md5 input)
unfolding md5_to_hex_string update_all
md5_to_hex_string-md5 stack input size small =
    ap hex (final-md5 stack (input ∷ []) size (small, tt) ∙ ap md5 (append-nil input))
