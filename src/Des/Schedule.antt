-- ===== src/Des/Schedule.antt =====
-- The key schedule of common/des.c: `deskey` and `cookey`. The shifts to the left are cut to the
-- `bits` of an `unsigned long`.
use cloud_disk_server.Prelude.{ℕ, suc, ◌+◌, ◌-◌, ◌*◌, ◌/◌, ◌%◌, ◌^◌}
use cloud_disk_server.Prelude.{List, [], ◌∷◌, map, get_or, set, take, drop, replicate}
use cloud_disk_server.Prelude.{ltb, ◌==◌, if◌then◌else◌}
use cloud_disk_server.Prelude.Bits.{bit_and, bit_or}
use cloud_disk_server.Des.Tables.{pc1, pc2, bytebit, totrot, bigbyte}

-- `x << k` in an unsigned type of the given width, and `x >> k`.
infixl 75 ◌>>>◌
abbrev pub shl : ℕ → ℕ → ℕ → ℕ
shl bits x k = x * 2 ^ k % 2 ^ bits

abbrev pub ◌>>>◌ : ℕ → ℕ → ℕ
x >>> k = x / 2 ^ k

-- `edf`: EN0 or DE1.
pub data Direction : Type 0 where
  en0 de1 : Direction

-- The array `pc1m`: a one for each chosen bit of the key that is set.
unfoldable pub chosen_bits : List ℕ → List ℕ
chosen_bits key =
    map
      (λ l. if bit_and (get_or key (l >>> 3) 0) (get_or bytebit (bit_and l 7) 0) == 0 then 0 else 1)
      pc1

-- `pcr[j]`: each half of 28 bits rotated.
unfoldable pub rotated : List ℕ → ℕ → ℕ → ℕ
rotated pc1m rot j =
    let l = j + rot in
    if ltb j 28
    then (if ltb l 28 then get_or pc1m l 0 else get_or pc1m (l - 28) 0)
    else (if ltb l 56 then get_or pc1m l 0 else get_or pc1m (l - 28) 0)

-- The loop that collects `kn[m]` or `kn[n]`, over the choices and the bits that they set.
unfoldable pub collect : (ℕ → ℕ) → List ℕ → List ℕ → ℕ → ℕ
collect pcr [] bits acc = acc
collect pcr (p ∷ ps) [] acc = acc
collect pcr (p ∷ ps) (b ∷ bits) acc = collect pcr ps bits (if pcr p == 0 then acc else bit_or acc b)

unfoldable pub half_key : List ℕ → ℕ → List ℕ → ℕ
unfolding collect rotated
half_key pc1m rot choice = collect (rotated pc1m rot) choice bigbyte 0

abbrev pub slot : Direction → ℕ → ℕ
slot Direction.en0 i = i * 2
slot Direction.de1 i = (15 - i) * 2

-- The rounds of `deskey` from `i` on, with the rotations that are left.
unfoldable pub fill_keys : Direction → List ℕ → ℕ → List ℕ → List ℕ → List ℕ
fill_keys edf pc1m i [] kn = kn
fill_keys edf pc1m i (rot ∷ rots) kn = fill_keys edf pc1m (suc i) rots (
    set (set kn (slot edf i) (half_key pc1m rot (take 24 pc2))) (suc (slot edf i))
      (half_key pc1m rot (drop 24 pc2)))

unfoldable pub deskey : List ℕ → Direction → List ℕ
unfolding fill_keys
deskey key edf = fill_keys edf (chosen_bits key) 0 totrot (replicate 32 0)

-- The two words that `cookey` makes of a pair of raw words.
unfoldable pub cook_first : ℕ → ℕ → ℕ → ℕ
cook_first bits raw0 raw1 =
    bit_or
      (bit_or
        (bit_or (shl bits (bit_and raw0 0x00fc0000) 6) (shl bits (bit_and raw0 0x00000fc0) 10))
        (bit_and raw1 0x00fc0000 >>> 10))
      (bit_and raw1 0x00000fc0 >>> 6)

unfoldable pub cook_second : ℕ → ℕ → ℕ → ℕ
cook_second bits raw0 raw1 =
    bit_or
      (bit_or
        (bit_or (shl bits (bit_and raw0 0x0003f000) 12) (shl bits (bit_and raw0 0x0000003f) 16))
        (bit_and raw1 0x0003f000 >>> 4))
      (bit_and raw1 0x0000003f)

unfoldable pub cookey : ℕ → List ℕ → List ℕ
cookey bits (raw0 ∷ raw1 ∷ rest) =
    cook_first bits raw0 raw1 ∷ cook_second bits raw0 raw1 ∷ cookey bits rest
cookey bits _ = []
