-- ===== src/Des/Block.antt =====
-- One block of common/des.c: `scrunch`, `unscrun` and `desfunc`. The shifts to the left are cut to
-- the `bits` of an `unsigned long`.
use cloud_disk_server.Prelude.{ℕ, List, [], ◌∷◌, get_or}
use cloud_disk_server.Prelude.Bits.{bit_and, bit_or, bit_xor}
use cloud_disk_server.Des.Schedule.{shl, ◌>>>◌}
use cloud_disk_server.Des.Boxes.{sp1, sp2, sp3, sp4, sp5, sp6, sp7, sp8}

-- The variables `leftt` and `right`, and the two words of a block.
pub record Halves : Type 0 where
  pub leftt : ℕ
  pub right : ℕ

abbrev byte_of : ℕ → ℕ
byte_of x = bit_and x 0xff

-- Four bytes, the first at the top, as one word.
unfoldable pub scrunch_word : ℕ → ℕ → ℕ → ℕ → ℕ → ℕ
scrunch_word bits a b c d =
    bit_or
      (bit_or (bit_or (shl bits (byte_of a) 24) (shl bits (byte_of b) 16)) (shl bits (byte_of c) 8))
      (byte_of d)

-- 8 bytes to two words; the array has 8 bytes.
unfoldable pub scrunch : ℕ → List ℕ → Halves
scrunch bits cp =
    let at = get_or cp in
    record {
      leftt = scrunch_word bits (at 0 0) (at 1 0) (at 2 0) (at 3 0);
      right = scrunch_word bits (at 4 0) (at 5 0) (at 6 0) (at 7 0);
    }

unfoldable pub unscrun : Halves → List ℕ
unscrun w =
    byte_of (w.leftt >>> 24)
    ∷ byte_of (w.leftt >>> 16)
    ∷ byte_of (w.leftt >>> 8)
    ∷ byte_of w.leftt
    ∷ byte_of (w.right >>> 24)
    ∷ byte_of (w.right >>> 16)
    ∷ byte_of (w.right >>> 8)
    ∷ byte_of w.right
    ∷ []

-- work = ((leftt >> k) ^ right) & mask; right ^= work; leftt ^= work << k;
unfoldable pub swap_down : ℕ → ℕ → ℕ → Halves → Halves
swap_down bits k mask s =
    let work = bit_and (bit_xor (s.leftt >>> k) s.right) mask in
    record { leftt = bit_xor s.leftt (shl bits work k); right = bit_xor s.right work }

-- work = ((right >> k) ^ leftt) & mask; leftt ^= work; right ^= work << k;
unfoldable pub swap_up : ℕ → ℕ → ℕ → Halves → Halves
swap_up bits k mask s =
    let work = bit_and (bit_xor (s.right >>> k) s.leftt) mask in
    record { leftt = bit_xor s.leftt work; right = bit_xor s.right (shl bits work k) }

-- work = (leftt ^ right) & 0xaaaaaaaa; leftt ^= work; right ^= work;
unfoldable pub swap_odd : Halves → Halves
swap_odd s =
    let work = bit_and (bit_xor s.leftt s.right) 0xaaaaaaaa in
    record { leftt = bit_xor s.leftt work; right = bit_xor s.right work }

-- ((x << 1) | ((x >> 31) & 1)) & 0xffffffff
unfoldable pub rotate_left : ℕ → ℕ → ℕ
rotate_left bits x = bit_and (bit_or (shl bits x 1) (bit_and (x >>> 31) 1)) 0xffffffff

-- (x << 31) | (x >> 1)
unfoldable pub rotate_right : ℕ → ℕ → ℕ
rotate_right bits x = bit_or (shl bits x 31) (x >>> 1)

-- The part of `desfunc` before the rounds.
unfoldable pub enter : ℕ → Halves → Halves
enter bits block =
    let s = swap_down bits 4 0x0f0f0f0f block in
    let s = swap_down bits 16 0x0000ffff s in
    let s = swap_up bits 2 0x33333333 s in
    let s = swap_up bits 8 0x00ff00ff s in
    let s = swap_odd (record s { right = rotate_left bits s.right }) in
    record s { leftt = rotate_left bits s.leftt }

-- `fval`: the eight tables at six bits each of the word and its rotation, under two key words.
unfoldable pub fval : ℕ → ℕ → ℕ → ℕ → ℕ
fval bits k0 k1 x =
    let work = bit_xor (bit_or (shl bits x 28) (x >>> 4)) k0 in
    let work' = bit_xor x k1 in
    let f = get_or sp7 (bit_and work 0x3f) 0 in
    let f = bit_or f (get_or sp5 (bit_and (work >>> 8) 0x3f) 0) in
    let f = bit_or f (get_or sp3 (bit_and (work >>> 16) 0x3f) 0) in
    let f = bit_or f (get_or sp1 (bit_and (work >>> 24) 0x3f) 0) in
    let f = bit_or f (get_or sp8 (bit_and work' 0x3f) 0) in
    let f = bit_or f (get_or sp6 (bit_and (work' >>> 8) 0x3f) 0) in
    let f = bit_or f (get_or sp4 (bit_and (work' >>> 16) 0x3f) 0) in
    bit_or f (get_or sp2 (bit_and (work' >>> 24) 0x3f) 0)

-- One pass of the loop body, which takes four key words.
unfoldable pub two_rounds : ℕ → ℕ → ℕ → ℕ → ℕ → Halves → Halves
unfolding fval
two_rounds bits k0 k1 k2 k3 s =
    let l = bit_xor s.leftt (fval bits k0 k1 s.right) in
    record { leftt = l; right = bit_xor s.right (fval bits k2 k3 l) }

-- The loop over the array of keys, four at a time; `keys` has 32 words.
unfoldable pub rounds : ℕ → List ℕ → Halves → Halves
unfolding two_rounds
rounds bits (k0 ∷ k1 ∷ k2 ∷ k3 ∷ ks) s = rounds bits ks (two_rounds bits k0 k1 k2 k3 s)
rounds bits _ s = s

-- The part of `desfunc` after the rounds; block[0] = right and block[1] = leftt.
unfoldable pub leave : ℕ → Halves → Halves
leave bits s =
    let s = swap_odd (record s { right = rotate_right bits s.right }) in
    let s = swap_down bits 8 0x00ff00ff (record s { leftt = rotate_right bits s.leftt }) in
    let s = swap_down bits 2 0x33333333 s in
    let s = swap_up bits 16 0x0000ffff s in
    let s = swap_up bits 4 0x0f0f0f0f s in record { leftt = s.right; right = s.leftt }

unfoldable pub desfunc : ℕ → Halves → List ℕ → Halves
unfolding enter rounds leave swap_down swap_up swap_odd rotate_left rotate_right
desfunc bits block keys = leave bits (rounds bits keys (enter bits block))
