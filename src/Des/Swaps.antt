-- ===== src/Des/Swaps.antt =====
-- The steps of `desfunc` before and after the rounds undo one another, where an `unsigned long` has
-- 32 bits.
use cloud_disk_server.Prelude.{ℕ, ◌+◌, ◌*◌, ◌/◌, ◌%◌, ◌^◌, ◌≤◌, ◌<◌, ◌≡◌, refl, ap, ap₂, ◌∙◌, arith}
use cloud_disk_server.Prelude.Bits.{bit_and, bit_xor}
use cloud_disk_server.Prelude.Bits.Words.{
  xor_comm, xor_cancel, xor-shr, xor_lt, xor_pairs, and-le, or_sum, and_ones,
}
use native.Mathlib.Nat.{mod-lt, mod-eq_of_lt, mul-div_left}
use cloud_disk_server.Des.Schedule.{shl, ◌>>>◌}
use cloud_disk_server.Des.Block.{Halves, swap_down, swap_up, swap_odd, rotate_left, rotate_right}

abbrev pub IsWord : ℕ → Type 0
IsWord x = x < 2 ^ 32

abbrev pub AreWords : Halves → Type 0
AreWords s = IsWord s.leftt × IsWord s.right

-- The two words exchanged.
abbrev pub flip : Halves → Halves
flip s = record { leftt = s.right; right = s.leftt }

abbrev pub halves : ℕ → ℕ → Halves
halves l r = record { leftt = l; right = r }

-- What `x ^= work << k` does to `x >> k`.
module _ (k mask : ℕ) (fits : mask * 2 ^ k < 2 ^ 32) (pos : 0 < 2 ^ k) where
  shl_exact : (w : ℕ) → w ≤ mask → shl 32 w k ≡ w * 2 ^ k
  shl_exact w le = mod-eq_of_lt (grind arith)

  shifted : (x w : ℕ) → w ≤ mask → bit_xor x (shl 32 w k) >>> k ≡ bit_xor (x >>> k) w
  shifted x w le =
      rw (shl_exact w le, xor-shr k x (w * 2 ^ k)) (ap (bit_xor (x / 2 ^ k)) (mul-div_left w pos))

  -- The same work comes out the second time.
  same_work :
      (x y w : ℕ)
      → bit_and (bit_xor (x >>> k) y) mask ≡ w
      → bit_and (bit_xor (bit_xor x (shl 32 w k) >>> k) (bit_xor y w)) mask ≡ w
  same_work x y w e =
      let le : w ≤ mask = rw (← e) (and-le _ mask) in rw (shifted x w le, xor_pairs (x >>> k) y w) e

  pub swap_down_twice : (s : Halves) → swap_down 32 k mask (swap_down 32 k mask s) ≡ s
  unfolding swap_down
  swap_down_twice s =
      rw (same_work s.leftt s.right _ refl) (ap₂ halves (xor_cancel _ _) (xor_cancel _ _))

  pub swap_up_twice : (s : Halves) → swap_up 32 k mask (swap_up 32 k mask s) ≡ s
  unfolding swap_up
  swap_up_twice s =
      rw (same_work s.right s.leftt _ refl) (ap₂ halves (xor_cancel _ _) (xor_cancel _ _))

  pub swap_down-AreWords :
      (s : Halves) → IsWord mask → AreWords s → AreWords (swap_down 32 k mask s)
  unfolding swap_down
  swap_down-AreWords s small h = (
    xor_lt 32 s.leftt _ h.0 (mod-lt _ (omega arith)),
    xor_lt 32 s.right _ h.1 (omega (arith, and-le (bit_xor (s.leftt >>> k) s.right) mask)),
  )

  pub swap_up-AreWords : (s : Halves) → IsWord mask → AreWords s → AreWords (swap_up 32 k mask s)
  unfolding swap_up
  swap_up-AreWords s small h = (
    xor_lt 32 s.leftt _ h.0 (omega (arith, and-le (bit_xor (s.right >>> k) s.leftt) mask)),
    xor_lt 32 s.right _ h.1 (mod-lt _ (omega arith)),
  )

pub swap_odd_twice : (s : Halves) → swap_odd (swap_odd s) ≡ s
unfolding swap_odd
swap_odd_twice s =
    rw (xor_pairs s.leftt s.right (bit_and (bit_xor s.leftt s.right) 0xaaaaaaaa))
      (ap₂ halves (xor_cancel _ _) (xor_cancel _ _))

pub swap_odd-AreWords : (s : Halves) → AreWords s → AreWords (swap_odd s)
unfolding swap_odd
swap_odd-AreWords s h =
    let small = and-le (bit_xor s.leftt s.right) 0xaaaaaaaa in
    (xor_lt 32 s.leftt _ h.0 (omega (arith, small)), xor_lt 32 s.right _ h.1 (omega (arith, small)))

-- The exchange treats the two words alike.
pub swap_odd-flip : (s : Halves) → swap_odd (flip s) ≡ flip (swap_odd s)
unfolding swap_odd
swap_odd-flip s = rw (xor_comm s.right s.leftt)

rotate_left_sum : (x : ℕ) → IsWord x → rotate_left 32 x ≡ x % 2 ^ 31 * 2 + x / 2 ^ 31
unfolding rotate_left
rotate_left_sum x h =
    and_ones 32 _
    ∙ rw (and_ones 1 (x >>> 31), doubled, or_sum 1 (x % 2 ^ 31) (x / 2 ^ 31 % 2) (omega arith))
        (omega arith)
  where
    doubled : shl 32 x 1 ≡ x % 2 ^ 31 * 2 ^ 1
    doubled = omega arith

rotate_right_sum : (x : ℕ) → IsWord x → rotate_right 32 x ≡ x % 2 * 2 ^ 31 + x / 2
unfolding rotate_right
rotate_right_sum x h = rw moved (or_sum 31 (x % 2) (x / 2) (omega arith))
  where
    moved : shl 32 x 31 ≡ x % 2 * 2 ^ 31
    moved = omega arith

pub rotate_left-IsWord : (x : ℕ) → IsWord x → IsWord (rotate_left 32 x)
rotate_left-IsWord x h = rw (rotate_left_sum x h) (omega arith)

pub rotate_right-IsWord : (x : ℕ) → IsWord x → IsWord (rotate_right 32 x)
rotate_right-IsWord x h = rw (rotate_right_sum x h) (omega arith)

pub rotate_right-left : (x : ℕ) → IsWord x → rotate_right 32 (rotate_left 32 x) ≡ x
rotate_right-left x h =
    rotate_right_sum _ (rotate_left-IsWord x h) ∙ rw (rotate_left_sum x h) (omega arith)

pub rotate_left-right : (x : ℕ) → IsWord x → rotate_left 32 (rotate_right 32 x) ≡ x
rotate_left-right x h =
    rotate_left_sum _ (rotate_right-IsWord x h) ∙ rw (rotate_right_sum x h) (omega arith)
