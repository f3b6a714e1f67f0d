-- ===== src/Util/Trim.antt =====
-- `trim_space` of common/util_cgi.c.
use cloud_disk_server.Prelude.{
  ℕ, zero, suc, ◌+◌, ◌-◌, ◌<◌, ◌≡◌, refl, ap, ◌∙◌, arith, true, false, ◌&&◌,
}
use cloud_disk_server.Prelude.{
  [], ◌∷◌, ◌++◌, length, take, drop, get_or, All, ltb, lt→ltb, if◌then◌else◌,
}
use cloud_disk_server.Prelude.{length-append, drop-append, take-append}
use cloud_disk_server.Prelude.Outcome.{Outcome, done, fault}
use cloud_disk_server.Prelude.Text.{Bytes, is_space}

-- The first loop: the index of the first byte that is no white space, or of the NUL.
unfoldable pub skip_front : Bytes → ℕ
skip_front [] = 0
skip_front (c ∷ cs) = let rest = skip_front cs in if is_space c then suc rest else 0

-- The second loop, from the index `j` down to `i`.
unfoldable pub skip_back : Bytes → ℕ → ℕ → ℕ
skip_back text i zero = 0
skip_back text i (suc j) =
    let rest = skip_back text i j in
    if is_space (get_or text (suc j) 0) && ltb i (suc j) then rest else suc j

-- The string that is left in place. Of an empty string the byte before the array is read. The copy
-- moves bytes towards the front, one by one.
unfoldable pub trim_space : Bytes → Outcome Bytes
trim_space [] = fault
trim_space (c ∷ cs) =
    let i = skip_front (c ∷ cs) in
    let j = skip_back (c ∷ cs) i (length (c ∷ cs) - 1) in done (take (j + 1 - i) (drop i (c ∷ cs)))

abbrev pub IsBlank : Bytes → Type 0
IsBlank = All (λ c. is_space c ≡ true)

-- It starts and ends with a byte that is no white space.
abbrev pub IsTrimmed : Bytes → Type 0
IsTrimmed text =
    (0 < length text)
    × (is_space (get_or text 0 0) ≡ false)
    × (is_space (get_or text (length text - 1) 0) ≡ false)

skip_front-append :
    (front text : Bytes)
    → IsBlank front
    → 0 < length text
    → is_space (get_or text 0 0) ≡ false
    → skip_front (front ++ text) ≡ length front
unfolding skip_front
skip_front-append [] [] h some_left starts = absurd (omega arith)
skip_front-append [] (c ∷ text) h some_left starts = rw starts
skip_front-append (x ∷ front) text h some_left starts =
    rw (h.0) (ap suc (skip_front-append front text h.1 some_left starts))

get_or-append_right :
    (xs ys : Bytes) (i j : ℕ) → i ≡ length xs + j → get_or (xs ++ ys) i 0 ≡ get_or ys j 0
get_or-append_right [] ys i j e = ap (λ (k : ℕ). get_or ys k 0) (omega arith)
get_or-append_right (x ∷ xs) ys zero j e = absurd (omega arith)
get_or-append_right (x ∷ xs) ys (suc i) j e = get_or-append_right xs ys i j (omega arith)

get_or-append_left : (xs ys : Bytes) (i : ℕ) → i < length xs → get_or (xs ++ ys) i 0 ≡ get_or xs i 0
get_or-append_left [] ys i h = absurd (omega arith)
get_or-append_left (x ∷ xs) ys zero h = refl
get_or-append_left (x ∷ xs) ys (suc i) h = get_or-append_left xs ys i (omega arith)

All-get_or : (P : Bytes) (i : ℕ) → IsBlank P → i < length P → is_space (get_or P i 0) ≡ true
All-get_or [] i h lt = absurd (omega arith)
All-get_or (x ∷ xs) zero h lt = h.0
All-get_or (x ∷ xs) (suc i) h lt = All-get_or xs i h.1 (omega arith)

module _ (front text back : Bytes) (h : IsTrimmed text) (blank : IsBlank back) where
  abbrev whole : Bytes
  whole = front ++ (text ++ back)

  stop_here : (j : ℕ) → j ≡ length front + length text - 1 → skip_back whole (length front) j ≡ j
  unfolding skip_back
  stop_here zero e = refl
  stop_here (suc j) e =
      rw
        (
          get_or-append_right front (text ++ back) (suc j) (length text - 1) (omega (arith, h.0))
              ∙ get_or-append_left text back (length text - 1) (omega (arith, h.0)),
          h.2,
        )
        refl

  pass_on :
      (j k : ℕ)
      → suc j ≡ length front + length text + k
      → k < length back
      → skip_back whole (length front) (suc j) ≡ skip_back whole (length front) j
  unfolding skip_back
  pass_on j k e lt =
      rw
        (
          get_or-append_right front (text ++ back) (suc j) (length text + k) (omega arith)
              ∙ get_or-append_right text back (length text + k) k refl,
          All-get_or back k blank lt,
          lt→ltb (length front) (suc j) (omega (arith, h.0)),
        )
        refl

  skip_back_lem :
      (k j : ℕ)
      → j + 1 ≡ length front + length text + k
      → k < length back + 1
      → skip_back whole (length front) j + 1 ≡ length front + length text
  skip_back_lem zero j e lt = ap (λ (n : ℕ). n + 1) (stop_here j (omega arith)) ∙ omega (arith, h.0)
  skip_back_lem (suc k) zero e lt = absurd (omega (arith, h.0))
  skip_back_lem (suc k) (suc j) e lt =
      ap (λ (n : ℕ). n + 1) (pass_on j k (omega arith) (omega arith))
      ∙ skip_back_lem k j (omega arith) (omega arith)

trim_space_cut :
    (text : Bytes)
    → 0 < length text
    → trim_space text
      ≡ done (
          take
            (skip_back text (skip_front text) (length text - 1) + 1 - skip_front text)
            (drop (skip_front text) text))
unfolding trim_space
trim_space_cut [] h = absurd (omega arith)
trim_space_cut (c ∷ cs) h = refl

-- White space before and behind a text is taken off, and the text is left as it is, where it starts
-- and ends with bytes that are no white space.
trim_space_trimmed :
    (front text back : Bytes)
    → IsBlank front
    → IsTrimmed text
    → IsBlank back
    → trim_space (front ++ (text ++ back)) ≡ done text
trim_space_trimmed front text back before h behind =
    let size : length (front ++ (text ++ back)) ≡ length front + (length text + length back) =
      length-append front (text ++ back)
      ∙ ap (λ (n : ℕ). length front + n) (length-append text back) in
    let i : skip_front (front ++ (text ++ back)) ≡ length front =
      skip_front-append front (text ++ back) before (omega (arith, h.0, length-append text back))
        (ap is_space (get_or-append_left text back 0 (h.0)) ∙ h.1) in
    trim_space_cut (front ++ (text ++ back)) (omega (arith, size, h.0))
    ∙ rw
        (
          i,
          skip_back_lem front text back h behind (length back)
              (length (front ++ (text ++ back)) - 1) (omega (arith, size, h.0)) (omega arith),
          drop-append front (text ++ back),
        )
        (ap done (
          ap (λ (n : ℕ). take n (text ++ back)) {y = length text} (omega arith)
          ∙ take-append text back))

skip_front_blank : (text : Bytes) → IsBlank text → skip_front text ≡ length text
unfolding skip_front
skip_front_blank [] h = refl
skip_front_blank (c ∷ cs) h = rw (h.0) (ap suc (skip_front_blank cs h.1))

skip_back_stop : (text : Bytes) (i j : ℕ) → j < i → skip_back text i j ≡ j
unfolding skip_back
skip_back_stop text i zero h = refl
skip_back_stop text i (suc j) h = ground (arith, h)

-- A text of white space only, of one byte at least, becomes empty.
pub trim_space_blank : (text : Bytes) → 0 < length text → IsBlank text → trim_space text ≡ done []
trim_space_blank text some_left blank =
    trim_space_cut text some_left
    ∙ rw
        (
          skip_front_blank text blank,
          skip_back_stop text (length text) (length text - 1) (omega arith),
        )
        (ap done (ap (λ (n : ℕ). take n (drop (length text) text)) {y = 0} (omega arith)))
