-- ===== src/Util/Names.antt =====
-- `get_extension` and `get_file_suffix` of common/util_cgi.c. An array of the caller is given by
-- its size, and a write outside it is a fault.
use cloud_disk_server.Prelude.{
  ℕ, zero, suc, ◌+◌, ◌-◌, ◌<◌, ◌≤◌, ◌≡◌, ◌≢◌, refl, sym, ap, ◌∙◌, arith,
}
use cloud_disk_server.Prelude.{
  [], ◌∷◌, ◌++◌, length, drop, get_or, All, ltb, lt→ltb, ◌==◌, if◌then◌else◌,
}
use cloud_disk_server.Prelude.{length-append, drop_at, append_assoc}
use cloud_disk_server.Prelude.Outcome.{Outcome, done, fault}
use cloud_disk_server.Prelude.Text.{Bytes, codes}

-- A string that is written with its NUL into an array of so many bytes.
unfoldable pub fitted : ℕ → Bytes → Outcome Bytes
fitted size text = if ltb (length text) size then done text else fault

pub fitted_lem : (size : ℕ) (text : Bytes) → length text < size → fitted size text ≡ done text
unfolding fitted
fitted_lem size text h = rw (lt→ltb _ _ h) refl

-- The first loop of `get_extension`: the index of the first dot, or the length.
unfoldable pub first_dot : Bytes → ℕ
first_dot [] = 0
first_dot (c ∷ cs) = let rest = first_dot cs in if c == b'.' then 0 else suc rest

unfoldable pub get_extension : ℕ → Bytes → Outcome Bytes
get_extension size name =
    let i = first_dot name in fitted size (if ltb i (length name) then drop (i + 1) name else [])

-- The second loop of `get_file_suffix`: from an offset back to a dot or to the front. The byte at
-- the length of the name is its NUL.
unfoldable pub last_stop : Bytes → ℕ → ℕ
last_stop name zero = 0
last_stop name (suc k) =
    let rest = last_stop name k in if get_or name (suc k) 0 == b'.' then suc k else rest

unfoldable pub get_file_suffix : ℕ → Bytes → Outcome Bytes
get_file_suffix size name =
    let k = last_stop name (length name) in
    fitted size (
      if get_or name k 0 == b'.'
      then (if length name - (k + 1) == 0 then codes "null" else drop (k + 1) name)
      else codes "null")

abbrev pub NoDot : Bytes → Type 0
NoDot = All (λ c. c ≢ b'.')

first_dot-append : (pre post : Bytes) → NoDot pre → first_dot (pre ++ (b'.' ∷ post)) ≡ length pre
unfolding first_dot
first_dot-append [] post h = refl
first_dot-append (c ∷ pre) post h = ground (arith, h.0, first_dot-append pre post h.1)

first_dot-NoDot : (name : Bytes) → NoDot name → first_dot name ≡ length name
unfolding first_dot
first_dot-NoDot [] h = refl
first_dot-NoDot (c ∷ name) h = ground (arith, h.0, first_dot-NoDot name h.1)

get_or-NoDot : (name : Bytes) (i : ℕ) → NoDot name → get_or name i 0 ≢ b'.'
get_or-NoDot [] i h = ground arith
get_or-NoDot (c ∷ name) zero h = h.0
get_or-NoDot (c ∷ name) (suc i) h = get_or-NoDot name i h.1

get_or_behind :
    (pre : Bytes) (c : ℕ) (post : Bytes) (i : ℕ)
    → get_or (pre ++ (c ∷ post)) (length pre + 1 + i) 0 ≡ get_or post i 0
get_or_behind [] c post i = ap (λ (k : ℕ). get_or (c ∷ post) k 0) {y = suc i} (omega arith)
get_or_behind (x ∷ pre) c post i =
    ap (λ (k : ℕ). get_or (x ∷ (pre ++ (c ∷ post))) k 0) {x = suc (length pre) + 1 + i}
      {y = suc (length pre + 1 + i)} (omega arith)
    ∙ get_or_behind pre c post i

get_or_at : (pre : Bytes) (c : ℕ) (post : Bytes) → get_or (pre ++ (c ∷ post)) (length pre) 0 ≡ c
get_or_at [] c post = refl
get_or_at (x ∷ pre) c post = get_or_at pre c post

drop_behind : (pre post : Bytes) → drop (length pre + 1) (pre ++ (b'.' ∷ post)) ≡ post
drop_behind [] post = refl
drop_behind (x ∷ pre) post =
    drop_at {m = suc (length pre) + 1} {n = suc (length pre + 1)} (x ∷ (pre ++ (b'.' ∷ post)))
      (omega arith)
    ∙ drop_behind pre post

module _ (pre post : Bytes) (none_left : NoDot post) where
  abbrev dotted : Bytes
  dotted = pre ++ (b'.' ∷ post)

  stop_here : (i : ℕ) → i ≡ length pre → last_stop dotted i ≡ i
  unfolding last_stop
  stop_here zero e = refl
  stop_here (suc j) e =
      ground (arith, ap (λ (k : ℕ). get_or dotted k 0) e ∙ get_or_at pre b'.' post)

  pass_on : (j k : ℕ) → suc j ≡ length pre + 1 + k → last_stop dotted (suc j) ≡ last_stop dotted j
  unfolding last_stop
  pass_on j k e = ground (
    arith,
    ap (λ (k : ℕ). get_or dotted k 0) e ∙ get_or_behind pre b'.' post k,
    get_or-NoDot post k none_left,
  )

  last_stop_at : (k i : ℕ) → i ≡ length pre + k → last_stop dotted i ≡ length pre
  last_stop_at zero i e = stop_here i (omega arith) ∙ omega arith
  last_stop_at (suc k) zero e = absurd (omega arith)
  last_stop_at (suc k) (suc j) e = pass_on j k (omega arith) ∙ last_stop_at k j (omega arith)

  dotted_size : length dotted ≡ length pre + 1 + length post
  dotted_size = omega (arith, length-append pre (b'.' ∷ post))

  -- A name with a last dot and something behind it: `get_file_suffix` gives what stands behind the
  -- last dot, if it fits the array with its NUL.
  pub get_file_suffix-dotted :
      (size : ℕ) → 0 < length post → length post < size → get_file_suffix size dotted ≡ done post
  unfolding get_file_suffix fitted
  get_file_suffix-dotted size some_left fits =
      rw
        (
          last_stop_at (length post + 1) (length dotted) (omega (arith, dotted_size)),
          get_or_at pre b'.' post,
        )
        (rw (drop_behind pre post) (ground (arith, dotted_size, fits)))

extension :
    (pre post : Bytes) (size : ℕ)
    → NoDot pre
    → length post < size
    → get_extension size (pre ++ (b'.' ∷ post)) ≡ done post
unfolding get_extension fitted
extension pre post size none_before fits =
    rw (first_dot-append pre post none_before, drop_behind pre post)
      (ground (arith, length-append pre (b'.' ∷ post), fits))

-- A name of three parts, the first and the last without a dot and the last not empty, in an array
-- that has room: `get_extension` gives all behind the first dot, and `get_file_suffix` what is
-- behind the last.
pub two_dots :
    (pre mid post : Bytes) (size : ℕ)
    → NoDot pre
    → NoDot post
    → 0 < length post
    → length (mid ++ (b'.' ∷ post)) < size
    → (get_extension size (pre ++ (b'.' ∷ (mid ++ (b'.' ∷ post)))) ≡ done (mid ++ (b'.' ∷ post)))
      × (get_file_suffix size (pre ++ (b'.' ∷ (mid ++ (b'.' ∷ post)))) ≡ done post)
two_dots pre mid post size before behind some_left fits = (
  extension pre (mid ++ (b'.' ∷ post)) size before fits,
  ap (get_file_suffix size) (sym (append_assoc pre (b'.' ∷ mid) (b'.' ∷ post)))
      ∙ get_file_suffix-dotted (pre ++ (b'.' ∷ mid)) post behind size some_left
          (omega (arith, length-append mid (b'.' ∷ post))),
)

-- A name without a dot has the empty extension and the suffix "null".
pub no_dot :
    (name : Bytes) (size : ℕ)
    → NoDot name
    → 5 ≤ size
    → (get_extension size name ≡ done []) × (get_file_suffix size name ≡ done (codes "null"))
unfolding get_extension get_file_suffix fitted
no_dot name size none_in room = (
  rw (first_dot-NoDot name none_in) (ground (arith, room)),
  ground (arith, get_or-NoDot name (last_stop name (length name)) none_in, room),
)
