-- ===== src/Des/Bytes.antt =====
-- `scrunch` and `unscrun` are inverse, where an `unsigned long` has 32 bits.
use cloud_disk_server.Prelude.{
  ℕ, ◌+◌, ◌*◌, ◌%◌, ◌^◌, ◌<◌, ◌≡◌, refl, ap₂, ◌∙◌, arith, List, [], ◌∷◌, All, length,
}
use cloud_disk_server.Prelude.Bits.{bit_and}
use cloud_disk_server.Prelude.Bits.Words.{or_sum, and_ones, and-le}
use cloud_disk_server.Des.Schedule.{◌>>>◌}
use cloud_disk_server.Des.Block.{Halves, scrunch_word, scrunch, unscrun}
use cloud_disk_server.Des.Swaps.{IsWord, AreWords, halves}

abbrev pub IsByte : ℕ → Type 0
IsByte b = b < 256

abbrev word : ℕ → ℕ → ℕ → ℕ → ℕ
word a b c d = ((a * 256 + b) * 256 + c) * 256 + d

scrunch_word_sum :
    (a b c d : ℕ)
    → IsByte a
    → IsByte b
    → IsByte c
    → IsByte d
    → scrunch_word 32 a b c d ≡ word a b c d
unfolding scrunch_word
scrunch_word_sum a b c d ha hb hc hd =
    rw
      (
        and_ones 8 a,
        and_ones 8 b,
        and_ones 8 c,
        and_ones 8 d,
        top,
        or_sum 24 a (b % 2 ^ 8 * 2 ^ 16 % 2 ^ 32) (omega arith),
        upper,
        or_sum 16 (a * 256 + b) (c % 2 ^ 8 * 2 ^ 8 % 2 ^ 32) (omega arith),
        middle,
        or_sum 8 ((a * 256 + b) * 256 + c) (d % 2 ^ 8) (omega arith),
      )
      (omega arith)
  where
    top : a % 2 ^ 8 * 2 ^ 24 % 2 ^ 32 ≡ a * 2 ^ 24
    top = omega arith

    upper : a * 2 ^ 24 + b % 2 ^ 8 * 2 ^ 16 % 2 ^ 32 ≡ (a * 256 + b) * 2 ^ 16
    upper = omega arith

    middle : (a * 256 + b) * 2 ^ 16 + c % 2 ^ 8 * 2 ^ 8 % 2 ^ 32 ≡ ((a * 256 + b) * 256 + c) * 2 ^ 8
    middle = omega arith

word_bytes :
    (a b c d : ℕ)
    → IsByte a
    → IsByte b
    → IsByte c
    → IsByte d
    → let w = word a b c d in
      IsWord w
      × (bit_and (w >>> 24) 0xff ≡ a)
      × (bit_and (w >>> 16) 0xff ≡ b)
      × (bit_and (w >>> 8) 0xff ≡ c)
      × (bit_and w 0xff ≡ d)
word_bytes a b c d ha hb hc hd =
    let w : ℕ = word a b c d in
    (
      omega arith,
      and_ones 8 (w >>> 24) ∙ omega arith,
      and_ones 8 (w >>> 16) ∙ omega arith,
      and_ones 8 (w >>> 8) ∙ omega arith,
      and_ones 8 w ∙ omega arith,
    )

word_of_bytes :
    (w : ℕ)
    → IsWord w
    → scrunch_word 32
        (bit_and (w >>> 24) 0xff)
        (bit_and (w >>> 16) 0xff)
        (bit_and (w >>> 8) 0xff)
        (bit_and w 0xff)
      ≡ w
word_of_bytes w h =
    rw (and_ones 8 (w >>> 24), and_ones 8 (w >>> 16), and_ones 8 (w >>> 8), and_ones 8 w)
      (scrunch_word_sum _ _ _ _ (omega arith) (omega arith) (omega arith) (omega arith)
        ∙ omega arith)

pub scrunch-unscrun : (s : Halves) → AreWords s → scrunch 32 (unscrun s) ≡ s
unfolding scrunch unscrun
scrunch-unscrun s h = ap₂ halves (word_of_bytes s.leftt h.0) (word_of_bytes s.right h.1)

-- A list of eight, written out.
eight :
    (bs : List ℕ)
    → length bs ≡ 8
    → (a b c d e f g h : ℕ) × (bs ≡ a ∷ b ∷ c ∷ d ∷ e ∷ f ∷ g ∷ h ∷ [])
eight (a ∷ b ∷ c ∷ d ∷ e ∷ f ∷ g ∷ h ∷ []) n = (a, b, c, d, e, f, g, h, refl)
eight [] n = absurd (omega arith)
eight (a ∷ []) n = absurd (omega arith)
eight (a ∷ b ∷ []) n = absurd (omega arith)
eight (a ∷ b ∷ c ∷ []) n = absurd (omega arith)
eight (a ∷ b ∷ c ∷ d ∷ []) n = absurd (omega arith)
eight (a ∷ b ∷ c ∷ d ∷ e ∷ []) n = absurd (omega arith)
eight (a ∷ b ∷ c ∷ d ∷ e ∷ f ∷ []) n = absurd (omega arith)
eight (a ∷ b ∷ c ∷ d ∷ e ∷ f ∷ g ∷ []) n = absurd (omega arith)
eight (a ∷ b ∷ c ∷ d ∷ e ∷ f ∷ g ∷ h ∷ i ∷ bs) n = absurd (omega arith)

abbrev Unscrunches : List ℕ → Type 0
Unscrunches bs = (unscrun (scrunch 32 bs) ≡ bs) × AreWords (scrunch 32 bs)

unscrun_eight :
    (a b c d e f g h : ℕ)
    → All IsByte (a ∷ b ∷ c ∷ d ∷ e ∷ f ∷ g ∷ h ∷ [])
    → Unscrunches (a ∷ b ∷ c ∷ d ∷ e ∷ f ∷ g ∷ h ∷ [])
unfolding unscrun scrunch
unscrun_eight a b c d e f g h (ha, (hb, (hc, (hd, (he, (hf, (hg, (hh, _)))))))) =
    let u = word_bytes a b c d ha hb hc hd in
    let v = word_bytes e f g h he hf hg hh in
    rw (scrunch_word_sum a b c d ha hb hc hd, scrunch_word_sum e f g h he hf hg hh)
      (rw (u.1, u.2, u.3, u.4, v.1, v.2, v.3, v.4) refl, (u.0, v.0))

-- With an `unsigned long` of 32 bits, eight bytes gathered into two words and spread again are the
-- same eight bytes, and the two words are below 2 ^ 32.
pub unscrun-scrunch :
    (bs : List ℕ)
    → length bs ≡ 8
    → All IsByte bs
    → (unscrun (scrunch 32 bs) ≡ bs) × AreWords (scrunch 32 bs)
unscrun-scrunch bs n bytes =
    let (a, b, c, d, e, f, g, h, same) = eight bs n in
    rw same (unscrun_eight a b c d e f g h (rw same at bytes))

-- What `unscrun` writes are eight bytes.
pub unscrun-bytes : (s : Halves) → All IsByte (unscrun s) × (length (unscrun s) ≡ 8)
unfolding unscrun
unscrun-bytes s = (
  (
    masked (s.leftt >>> 24),
    (
      masked (s.leftt >>> 16),
      (
        masked (s.leftt >>> 8),
        (
          masked s.leftt,
          (
            masked (s.right >>> 24),
            (masked (s.right >>> 16), (masked (s.right >>> 8), (masked s.right, tt))),
          ),
        ),
      ),
    ),
  ),
  refl,
)
  where
    masked : (x : ℕ) → IsByte (bit_and x 0xff)
    masked x = omega (arith, and-le x 0xff)
