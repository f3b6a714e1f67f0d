-- ===== src/Cgi/FirstPlace.antt =====
-- `memstr` of common/util_cgi.c finds the first place.
use cloud_disk_server.Prelude.{
  ℕ, zero, suc, ◌+◌, ◌-◌, ◌≤◌, ◌<◌, Option, none, some, [], ◌∷◌, ◌≡◌, sym, ◌∙◌, ap, arith,
}
use cloud_disk_server.Prelude.{
  true, false, ◌==◌, length, take, drop, Bool-cases, ==_iff, ltb, ltb→lt,
}
use cloud_disk_server.Prelude.Text.{Bytes, eqb, eqb_refl, eqb→eq}
use cloud_disk_server.Prelude.{get_or, inl, inr, ◌⊎◌}
use cloud_disk_server.Prelude.{drop-drop, drop_at}
use cloud_disk_server.Cgi.Memstr.{same_first, matches, memstr_loop, memstr}

-- `sub` stands at the offset `i` of `full`.
abbrev pub IsAt : Bytes → Bytes → ℕ → Type 0
IsAt full sub i = take (length sub) (drop i full) ≡ sub

-- What a search over `n` offsets from `i` on gives: the first place among them, or none if there is
-- none.
abbrev pub IsFirst : Bytes → Bytes → ℕ → ℕ → Option ℕ → Type 0
IsFirst full sub n i none = (j : ℕ) → i ≤ j → j < i + n → ¬ IsAt full sub j
IsFirst full sub n i (some k) =
    (i ≤ k) × (k < i + n) × IsAt full sub k × ((j : ℕ) → i ≤ j → j < k → ¬ IsAt full sub j)

matches-true : (cur sub : Bytes) → matches cur sub ≡ true → take (length sub) cur ≡ sub
unfolding matches
matches-true cur sub h = eqb→eq _ _ (ground (arith, h))

matches_at :
    (cur : Bytes) (y : ℕ) (ys : Bytes)
    → take (length (y ∷ ys)) cur ≡ y ∷ ys
    → matches cur (y ∷ ys) ≡ true
unfolding matches same_first
matches_at [] y ys h = cc
matches_at (x ∷ xs) y ys h =
    let e : x ≡ y = ap (λ (l : Bytes). get_or l 0 0) h in
    let f : eqb (take (length (y ∷ ys)) (x ∷ xs)) (y ∷ ys) ≡ true =
      ap (λ (l : Bytes). eqb l (y ∷ ys)) h ∙ eqb_refl (y ∷ ys) in
    ground (arith, (==_iff x y).1 e, f)

at_or_behind : (i j : ℕ) → i ≤ j → (i ≡ j) ⊎ (suc i ≤ j)
at_or_behind i j h = elim (Bool-cases (i == j)) [
  | inl e ↦ inl ((==_iff i j).0 e)
  | inr e ↦ inr (ground (arith, e, h))
]

module _ (full : Bytes) (y : ℕ) (ys : Bytes) where
  abbrev sub : Bytes
  sub = y ∷ ys

  missed : (i : ℕ) → matches (drop i full) sub ≡ false → ¬ IsAt full sub i
  missed i e at = cc (e, matches_at (drop i full) y ys at)

  extend :
      (n i : ℕ) (o : Option ℕ)
      → ¬ IsAt full sub i
      → IsFirst full sub n (suc i) o
      → IsFirst full sub (suc n) i o
  extend n i none miss rest = λ j le lt. elim (at_or_behind i j le) [
    | inl e ↦ rw (sym e) miss
    | inr behind ↦ rest j behind (omega arith)
  ]
  extend n i (some k) miss (le, lt, at, before) = (
    omega arith,
    omega arith,
    at,
    λ j a b. elim (at_or_behind i j a) [ inl e ↦ rw (sym e) miss | inr behind ↦ before j behind b ],
  )

  memstr_loop_lem : (n i : ℕ) → IsFirst full sub n i (memstr_loop n i (drop i full) sub)
  unfolding memstr_loop
  memstr_loop_lem zero i = λ j a b. absurd (omega arith)
  memstr_loop_lem (suc n) i = elim (Bool-cases (matches (drop i full) sub)) [
    | inl e ↦
        rw e (
          omega arith,
          omega arith,
          matches-true (drop i full) sub e,
          λ j a b. absurd (omega arith),
        )
    | inr e ↦
        rw (e, drop-drop 1 i full ∙ drop_at {m = i + 1} {n = suc i} full (omega arith))
          (extend n i _ (missed i e) (memstr_loop_lem n (suc i)))
  ]

-- For a string that is not empty `memstr` returns the first offset at which it stands in the data
-- as a whole, and NULL if there is none.
pub memstr-IsFirst :
    (full : Bytes) (y : ℕ) (ys : Bytes)
    → IsFirst full (y ∷ ys) (length full + 1 - length (y ∷ ys)) 0 (memstr full (y ∷ ys))
unfolding memstr
memstr-IsFirst [] y ys = λ j a b. absurd (omega arith)
memstr-IsFirst (x ∷ xs) y ys =
    memstr_loop_lem (x ∷ xs) y ys (length (x ∷ xs) + 1 - length (y ∷ ys)) 0

only_first :
    (full : Bytes) (y : ℕ) (ys : Bytes) (k : ℕ) (o : Option ℕ)
    → IsFirst full (y ∷ ys) (length full + 1 - length (y ∷ ys)) 0 o
    → IsAt full (y ∷ ys) k
    → k + length (y ∷ ys) ≤ length full
    → ((j : ℕ) → j < k → ¬ IsAt full (y ∷ ys) j)
    → o ≡ some k
only_first full y ys k none first at fits before = absurd (first k (omega arith) (omega arith) at)
only_first full y ys k (some i) (le, lt, at_i, before_i) at fits before =
    elim (Bool-cases (ltb i k)) [
      | inl earlier ↦ absurd (before i (ltb→lt i k earlier) at_i)
      | inr behind ↦ elim (at_or_behind k i (ground (arith, behind))) [
        | inl e ↦ ap some (sym e)
        | inr later ↦ absurd (before_i k (omega arith) later at)
      ]
    ]

-- A place before which there is none is the one that `memstr` returns.
pub memstr_found :
    (full : Bytes) (y : ℕ) (ys : Bytes) (k : ℕ)
    → IsAt full (y ∷ ys) k
    → k + length (y ∷ ys) ≤ length full
    → ((j : ℕ) → j < k → ¬ IsAt full (y ∷ ys) j)
    → memstr full (y ∷ ys) ≡ some k
memstr_found full y ys k = only_first full y ys k _ (memstr-IsFirst full y ys)
