-- ===== src/Des/Rounds.antt =====
-- The rounds of `desfunc` under the reversed keys undo the rounds under the keys, whatever the
-- tables SP1 to SP8 hold.
use cloud_disk_server.Prelude.{ℕ, zero, suc, ◌*◌, ◌^◌, ◌≡◌, refl, ap, ◌∙◌, arith}
use cloud_disk_server.Prelude.{List, [], ◌∷◌, ◌++◌, All, get_or, length, Bool, true, ◌&&◌, ltb}
use cloud_disk_server.Prelude.Bits.{bit_xor}
use cloud_disk_server.Prelude.Bits.Words.{xor_cancel, xor_lt, or_lt}
use cloud_disk_server.Des.Boxes.{sp1, sp2, sp3, sp4, sp5, sp6, sp7, sp8}
use cloud_disk_server.Des.Block.{Halves, fval, rounds}
use cloud_disk_server.Des.Swaps.{IsWord, AreWords, flip}

-- One round with its exchange of the words; two of them are one pass of the source's loop.
abbrev feistel : ℕ × ℕ → Halves → Halves
feistel (k0, k1) s = record { leftt = s.right; right = bit_xor s.leftt (fval 32 k0 k1 s.right) }

abbrev pub rounds_of : List (ℕ × ℕ) → Halves → Halves
rounds_of [] s = s
rounds_of (k ∷ ks) s = rounds_of ks (feistel k s)

-- The keys two by two, and the words of a list of pairs in order.
abbrev pub in_pairs : List ℕ → List (ℕ × ℕ)
in_pairs (a ∷ b ∷ rest) = (a, b) ∷ in_pairs rest
in_pairs _ = []

abbrev pub back_to_front : List (ℕ × ℕ) → List (ℕ × ℕ)
back_to_front [] = []
back_to_front (k ∷ ks) = back_to_front ks ++ k ∷ []

feistel_undo : (k : ℕ × ℕ) (s : Halves) → feistel k (flip (feistel k s)) ≡ flip s
feistel_undo (k0, k1) s =
    ap (λ (l : ℕ). record { leftt = s.right; right = l })
      (xor_cancel s.leftt (fval 32 k0 k1 s.right))

rounds_of-append :
    (ks : List (ℕ × ℕ)) (k : ℕ × ℕ) (s : Halves)
    → rounds_of (ks ++ k ∷ []) s ≡ feistel k (rounds_of ks s)
rounds_of-append [] k s = refl
rounds_of-append (j ∷ ks) k s = rounds_of-append ks k (feistel j s)

pub rounds_of_undo :
    (ks : List (ℕ × ℕ)) (s : Halves) → rounds_of (back_to_front ks) (flip (rounds_of ks s)) ≡ flip s
rounds_of_undo [] s = refl
rounds_of_undo (k ∷ ks) s =
    rounds_of-append (back_to_front ks) k (flip (rounds_of ks (feistel k s)))
    ∙ ap (feistel k) (rounds_of_undo ks (feistel k s))
    ∙ feistel_undo k s

-- The loop of the source is those rounds, where the number of keys is a multiple of four.
pub rounds_lem :
    (n : ℕ) (keys : List ℕ) (s : Halves)
    → length keys ≡ 4 * n
    → rounds 32 keys s ≡ rounds_of (in_pairs keys) s
unfolding rounds
rounds_lem zero [] s e = refl
rounds_lem zero (k ∷ keys) s e = absurd (omega arith)
rounds_lem (suc n) [] s e = absurd (omega arith)
rounds_lem (suc n) (a ∷ []) s e = absurd (omega arith)
rounds_lem (suc n) (a ∷ b ∷ []) s e = absurd (omega arith)
rounds_lem (suc n) (a ∷ b ∷ c ∷ []) s e = absurd (omega arith)
rounds_lem (suc n) (a ∷ b ∷ c ∷ d ∷ keys) s e = rounds_lem n keys _ (omega arith)

-- Every entry of the tables is a word of 32 bits.
get_or-IsWord : (t : List ℕ) (i : ℕ) → All IsWord t → IsWord (get_or t i 0)
get_or-IsWord [] i h = omega arith
get_or-IsWord (x ∷ t) zero h = h.0
get_or-IsWord (x ∷ t) (suc i) h = get_or-IsWord t i h.1

words : List ℕ → Bool
words [] = true
words (x ∷ xs) = ltb x (2 ^ 32) && words xs

words_sound : (t : List ℕ) → words t ≡ true → All IsWord t
unfolding words
words_sound [] h = tt
words_sound (x ∷ xs) h = (ground arith, words_sound xs (ground arith))

sp1-IsWord : (i : ℕ) → IsWord (get_or sp1 i 0)
unfolding sp1 words
sp1-IsWord i = get_or-IsWord sp1 i (words_sound sp1 refl)

sp2-IsWord : (i : ℕ) → IsWord (get_or sp2 i 0)
unfolding sp2 words
sp2-IsWord i = get_or-IsWord sp2 i (words_sound sp2 refl)

sp3-IsWord : (i : ℕ) → IsWord (get_or sp3 i 0)
unfolding sp3 words
sp3-IsWord i = get_or-IsWord sp3 i (words_sound sp3 refl)

sp4-IsWord : (i : ℕ) → IsWord (get_or sp4 i 0)
unfolding sp4 words
sp4-IsWord i = get_or-IsWord sp4 i (words_sound sp4 refl)

sp5-IsWord : (i : ℕ) → IsWord (get_or sp5 i 0)
unfolding sp5 words
sp5-IsWord i = get_or-IsWord sp5 i (words_sound sp5 refl)

sp6-IsWord : (i : ℕ) → IsWord (get_or sp6 i 0)
unfolding sp6 words
sp6-IsWord i = get_or-IsWord sp6 i (words_sound sp6 refl)

sp7-IsWord : (i : ℕ) → IsWord (get_or sp7 i 0)
unfolding sp7 words
sp7-IsWord i = get_or-IsWord sp7 i (words_sound sp7 refl)

sp8-IsWord : (i : ℕ) → IsWord (get_or sp8 i 0)
unfolding sp8 words
sp8-IsWord i = get_or-IsWord sp8 i (words_sound sp8 refl)

fval-IsWord : (k0 k1 x : ℕ) → IsWord (fval 32 k0 k1 x)
unfolding fval
fval-IsWord k0 k1 x =
    or_lt 32 _ _
      (or_lt 32 _ _
        (or_lt 32 _ _
          (or_lt 32 _ _
            (or_lt 32 _ _ (or_lt 32 _ _ (or_lt 32 _ _ (sp7-IsWord _) (sp5-IsWord _)) (sp3-IsWord _))
              (sp1-IsWord _))
            (sp8-IsWord _))
          (sp6-IsWord _))
        (sp4-IsWord _))
      (sp2-IsWord _)

feistel-AreWords : (k : ℕ × ℕ) (s : Halves) → AreWords s → AreWords (feistel k s)
feistel-AreWords (k0, k1) s h = (h.1, xor_lt 32 s.leftt _ h.0 (fval-IsWord k0 k1 s.right))

pub rounds_of-AreWords : (ks : List (ℕ × ℕ)) (s : Halves) → AreWords s → AreWords (rounds_of ks s)
rounds_of-AreWords [] s h = h
rounds_of-AreWords (k ∷ ks) s h = rounds_of-AreWords ks (feistel k s) (feistel-AreWords k s h)
