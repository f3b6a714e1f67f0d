-- ===== src/Des/Inverse.antt =====
-- Decryption of a block undoes encryption, where an `unsigned long` has 32 bits.
use cloud_disk_server.Prelude.{ℕ, ◌≡◌, ap, List}
use cloud_disk_server.Des.Schedule.{Direction, deskey, cookey}
use cloud_disk_server.Des.Block.{Halves, enter, leave, desfunc}
use cloud_disk_server.Des.Swaps.{AreWords, flip}
use cloud_disk_server.Des.Enter.{leave-enter, enter-leave, enter-AreWords, leave-AreWords}
use cloud_disk_server.Des.Rounds.{
  in_pairs, rounds_of, rounds_of_undo, rounds_lem, rounds_of-AreWords,
}
use cloud_disk_server.Des.Keys.{length-schedule, schedule_reversed}

abbrev pub keys_for : Direction → List ℕ → List ℕ
keys_for edf key = cookey 32 (deskey key edf)

desfunc_lem :
    (edf : Direction) (key : List ℕ) (s : Halves)
    → desfunc 32 s (keys_for edf key)
      ≡ leave 32 (rounds_of (in_pairs (keys_for edf key)) (enter 32 s))
unfolding desfunc
desfunc_lem edf key s =
    ap (leave 32) (rounds_lem 8 (keys_for edf key) (enter 32 s) (length-schedule edf key))

module _ (key : List ℕ) (s : Halves) (words : AreWords s) where
  abbrev ks : List (ℕ × ℕ)
  ks = in_pairs (keys_for Direction.en0 key)

  -- What the rounds of the encryption come to.
  abbrev mid : Halves
  mid = rounds_of ks (enter 32 s)

  mid-AreWords : AreWords mid
  mid-AreWords = rounds_of-AreWords ks (enter 32 s) (enter-AreWords s words)

  pub encrypted_words : AreWords (desfunc 32 s (keys_for Direction.en0 key))
  encrypted_words =
      rw (desfunc_lem Direction.en0 key s)
        (leave-AreWords (flip mid) (mid-AreWords.1, mid-AreWords.0))

  -- With an `unsigned long` of 32 bits and any key, decryption of a block of two words gives back
  -- what encryption with that key was given.
  pub desfunc_undo :
      desfunc 32 (desfunc 32 s (keys_for Direction.en0 key)) (keys_for Direction.de1 key) ≡ s
  desfunc_undo =
      rw
        (
          desfunc_lem Direction.en0 key s,
          desfunc_lem Direction.de1 key (leave 32 mid),
          schedule_reversed 32 key,
          enter-leave (flip mid) (mid-AreWords.1, mid-AreWords.0),
          rounds_of_undo ks (enter 32 s),
        )
        (leave-enter s words)
