-- ===== src/Util/Replace.antt =====
-- `str_replace` of common/util_cgi.c.
use cloud_disk_server.Prelude.{ℕ, zero, suc, ◌-◌, ◌<◌, ◌≡◌, ◌≢◌, refl, sym, ap, ◌∙◌, arith}
use cloud_disk_server.Prelude.{
  [], ◌∷◌, ◌++◌, length, All, ltb, if◌then◌else◌, ◌&&◌, append-nil, lt→ltb, List,
}
use cloud_disk_server.Prelude.Outcome.{Outcome, done, fault}
use cloud_disk_server.Prelude.Text.{Bytes}
use cloud_disk_server.Util.Strstr.{starts_with, starts_with-append}
use cloud_disk_server.Util.Names.{fitted, fitted_lem}

-- The loop over what is left of the string. After a place the string goes on behind the
-- replacement, so that `skipped` bytes of what was found are passed over. An empty string is found
-- nowhere.
unfoldable pub replaced : Bytes → Bytes → ℕ → Bytes → Bytes
replaced find replacement skipped [] = []
replaced find replacement (suc k) (c ∷ cs) = replaced find replacement k cs
replaced find replacement zero (c ∷ cs) =
    let found = replacement ++ replaced find replacement (length find - 1) cs in
    let missed = c ∷ replaced find replacement 0 cs in
    if ltb 0 (length find) && starts_with find (c ∷ cs) then found else missed

-- In an array of `size` bytes. The string grows or shrinks with each place, so that it is longest
-- before the first or behind the last.
unfoldable pub str_replace : ℕ → Bytes → Bytes → Bytes → Outcome Bytes
str_replace size src find replacement = elim (fitted size src) [
  | done text ↦ fitted size (replaced find replacement 0 text)
  | fault ↦ fault
]

replaced_skip :
    (find replacement front rest : Bytes)
    → replaced find replacement (length front) (front ++ rest) ≡ replaced find replacement 0 rest
unfolding replaced
replaced_skip find replacement [] rest = refl
replaced_skip find replacement (c ∷ front) rest = replaced_skip find replacement front rest

module _ (c : ℕ) (cs replacement : Bytes) where
  abbrev LacksFirst : Bytes → Type 0
  LacksFirst = All (λ x. x ≢ c)

  replaced_here :
      (rest : Bytes)
      → replaced (c ∷ cs) replacement 0 ((c ∷ cs) ++ rest)
        ≡ replacement ++ replaced (c ∷ cs) replacement 0 rest
  unfolding replaced
  replaced_here rest =
      rw (lt→ltb 0 (suc (length cs)) (omega arith), starts_with-append (c ∷ cs) rest, replaced)
        (ap (λ (t : Bytes). replacement ++ t)
          (ap (λ (k : ℕ). replaced (c ∷ cs) replacement k (cs ++ rest)) {y = length cs}
              (omega arith)
            ∙ replaced_skip (c ∷ cs) replacement cs rest))

  replaced_pass :
      (front rest : Bytes)
      → LacksFirst front
      → replaced (c ∷ cs) replacement 0 (front ++ rest)
        ≡ front ++ replaced (c ∷ cs) replacement 0 rest
  unfolding replaced starts_with
  replaced_pass [] rest h = refl
  replaced_pass (x ∷ front) rest h = ground (arith, h.0, replaced_pass front rest h.1)

  -- Pieces with a text between each two.
  abbrev pub join : Bytes → Bytes → List Bytes → Bytes
  join between piece [] = piece
  join between piece (next ∷ pieces) = piece ++ (between ++ join between next pieces)

  replaced-join :
      (piece : Bytes) (pieces : List Bytes)
      → LacksFirst piece
      → All LacksFirst pieces
      → replaced (c ∷ cs) replacement 0 (join (c ∷ cs) piece pieces) ≡ join replacement piece pieces
  unfolding replaced
  replaced-join piece [] h hs =
      ap (replaced (c ∷ cs) replacement 0) (sym (append-nil piece))
      ∙ (replaced_pass piece [] h ∙ append-nil piece)
  replaced-join piece (next ∷ pieces) h hs =
      replaced_pass piece _ h
      ∙ ap (λ (t : Bytes). piece ++ t)
          (replaced_here _
            ∙ ap (λ (t : Bytes). replacement ++ t) (replaced-join next pieces hs.0 hs.1))

  -- In a text whose pieces lack the first byte of what is looked for, every place between them is
  -- replaced, if the text and what it becomes have room in the array with their NUL.
  pub str_replace-join :
      (size : ℕ) (piece : Bytes) (pieces : List Bytes)
      → LacksFirst piece
      → All LacksFirst pieces
      → length (join (c ∷ cs) piece pieces) < size
      → length (join replacement piece pieces) < size
      → str_replace size (join (c ∷ cs) piece pieces) (c ∷ cs) replacement
        ≡ done (join replacement piece pieces)
  unfolding str_replace
  str_replace-join size piece pieces h hs before after =
      rw (fitted_lem size _ before, str_replace)
        (rw (replaced-join piece pieces h hs) (fitted_lem size _ after))
