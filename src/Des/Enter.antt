-- ===== src/Des/Enter.antt =====
-- `enter` and `leave`, the parts of `desfunc` around the rounds, are inverse but for an exchange of
-- the two words.
use cloud_disk_server.Prelude.{ℕ, ◌≡◌, refl, ◌∙◌, arith}
use cloud_disk_server.Des.Block.{
  Halves, swap_down, swap_up, swap_odd, rotate_left, rotate_right, enter, leave,
}
use cloud_disk_server.Des.Swaps.{
  AreWords, flip, swap_down_twice, swap_up_twice, swap_odd_twice, swap_down-AreWords,
  swap_up-AreWords, swap_odd-AreWords, swap_odd-flip, rotate_left-IsWord, rotate_right-IsWord,
  rotate_right-left, rotate_left-right,
}

abbrev d4 : Halves → Halves
d4 = swap_down 32 4 0x0f0f0f0f

abbrev d16 : Halves → Halves
d16 = swap_down 32 16 0x0000ffff

abbrev u2 : Halves → Halves
u2 = swap_up 32 2 0x33333333

abbrev u8 : Halves → Halves
u8 = swap_up 32 8 0x00ff00ff

d4_twice : (s : Halves) → d4 (d4 s) ≡ s
d4_twice = swap_down_twice 4 0x0f0f0f0f (omega arith) (omega arith)

d16_twice : (s : Halves) → d16 (d16 s) ≡ s
d16_twice = swap_down_twice 16 0x0000ffff (omega arith) (omega arith)

u2_twice : (s : Halves) → u2 (u2 s) ≡ s
u2_twice = swap_up_twice 2 0x33333333 (omega arith) (omega arith)

u8_twice : (s : Halves) → u8 (u8 s) ≡ s
u8_twice = swap_up_twice 8 0x00ff00ff (omega arith) (omega arith)

swaps_words : (s : Halves) → AreWords s → AreWords (u8 (u2 (d16 (d4 s))))
swaps_words s h = swap_up-AreWords 8 0x00ff00ff (omega arith) (omega arith) _ (omega arith) (
    swap_up-AreWords 2 0x33333333 (omega arith) (omega arith) _ (omega arith) (
      swap_down-AreWords 16 0x0000ffff (omega arith) (omega arith) _ (omega arith)
        (swap_down-AreWords 4 0x0f0f0f0f (omega arith) (omega arith) s (omega arith) h)))

swaps_back_words : (s : Halves) → AreWords s → AreWords (d4 (d16 (u2 (u8 s))))
swaps_back_words s h = swap_down-AreWords 4 0x0f0f0f0f (omega arith) (omega arith) _ (omega arith) (
    swap_down-AreWords 16 0x0000ffff (omega arith) (omega arith) _ (omega arith) (
      swap_up-AreWords 2 0x33333333 (omega arith) (omega arith) _ (omega arith)
        (swap_up-AreWords 8 0x00ff00ff (omega arith) (omega arith) s (omega arith) h)))

-- The middle of `enter`: rotate one word, exchange, rotate the other; and the way back.
spin : Halves → Halves
spin s =
    let t = swap_odd (record s { right = rotate_left 32 s.right }) in
    record t { leftt = rotate_left 32 t.leftt }

unspin : Halves → Halves
unspin s =
    let t = swap_odd (record s { leftt = rotate_right 32 s.leftt }) in
    record t { right = rotate_right 32 t.right }

unspin-spin : (s : Halves) → AreWords s → unspin (spin s) ≡ s
unfolding spin unspin
unspin-spin s h =
    let r : Halves = record s { right = rotate_left 32 s.right } in
    let words = swap_odd-AreWords r (h.0, rotate_left-IsWord s.right h.1) in
    rw
      (
        rotate_right-left (swap_odd r).leftt words.0,
        swap_odd_twice r,
        rotate_right-left s.right h.1,
      )
      refl

spin-unspin : (s : Halves) → AreWords s → spin (unspin s) ≡ s
unfolding spin unspin
spin-unspin s h =
    let r : Halves = record s { leftt = rotate_right 32 s.leftt } in
    let words = swap_odd-AreWords r (rotate_right-IsWord s.leftt h.0, h.1) in
    rw
      (
        rotate_left-right (swap_odd r).right words.1,
        swap_odd_twice r,
        rotate_left-right s.leftt h.0,
      )
      refl

spin-AreWords : (s : Halves) → AreWords s → AreWords (spin s)
unfolding spin
spin-AreWords s h =
    let words = swap_odd-AreWords _ (h.0, rotate_left-IsWord s.right h.1) in
    (rotate_left-IsWord _ words.0, words.1)

unspin-AreWords : (s : Halves) → AreWords s → AreWords (unspin s)
unfolding unspin
unspin-AreWords s h =
    let words = swap_odd-AreWords _ (rotate_right-IsWord s.leftt h.0, h.1) in
    (words.0, rotate_right-IsWord _ words.1)

enter_lem : (s : Halves) → enter 32 s ≡ spin (u8 (u2 (d16 (d4 s))))
unfolding enter spin
enter_lem s = refl

swap_down-flip :
    (k mask : ℕ) (s : Halves) → swap_down 32 k mask (flip s) ≡ flip (swap_up 32 k mask s)
unfolding swap_down swap_up
swap_down-flip k mask s = refl

swap_up-flip : (k mask : ℕ) (s : Halves) → swap_up 32 k mask (flip s) ≡ flip (swap_down 32 k mask s)
unfolding swap_down swap_up
swap_up-flip k mask s = refl

leave_lem : (s : Halves) → leave 32 (flip s) ≡ d4 (d16 (u2 (u8 (unspin s))))
unfolding leave unspin
leave_lem s =
    let r : Halves = record s { leftt = rotate_right 32 s.leftt } in
    rw
      (
        swap_odd-flip r,
        swap_down-flip 8 0x00ff00ff (unspin s),
        swap_down-flip 2 0x33333333 (u8 (unspin s)),
        swap_up-flip 16 0x0000ffff (u2 (u8 (unspin s))),
        swap_up-flip 4 0x0f0f0f0f (d16 (u2 (u8 (unspin s)))),
      )
      refl

-- With an `unsigned long` of 32 bits, the initial permutation of two words, the exchange of the
-- halves and the final permutation give the words back.
pub leave-enter : (s : Halves) → AreWords s → leave 32 (flip (enter 32 s)) ≡ s
leave-enter s h =
    leave_lem (enter 32 s)
    ∙ rw
        (
          enter_lem s,
          unspin-spin (u8 (u2 (d16 (d4 s)))) (swaps_words s h),
          u8_twice (u2 (d16 (d4 s))),
          u2_twice (d16 (d4 s)),
          d16_twice (d4 s),
        )
        (d4_twice s)

pub enter-leave : (s : Halves) → AreWords s → enter 32 (leave 32 (flip s)) ≡ s
enter-leave s h =
    let t = unspin s in
    rw (leave_lem s, enter_lem (d4 (d16 (u2 (u8 t)))))
      (rw (d4_twice (d16 (u2 (u8 t))), d16_twice (u2 (u8 t)), u2_twice (u8 t), u8_twice t)
        (spin-unspin s h))

pub enter-AreWords : (s : Halves) → AreWords s → AreWords (enter 32 s)
enter-AreWords s h = rw (enter_lem s) (spin-AreWords _ (swaps_words s h))

pub leave-AreWords : (s : Halves) → AreWords s → AreWords (leave 32 (flip s))
leave-AreWords s h = rw (leave_lem s) (swaps_back_words _ (unspin-AreWords s h))
