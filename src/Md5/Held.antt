-- ===== src/Md5/Held.antt =====
-- What the context of common/md5.c holds of a message whose bytes came in pieces.
use cloud_disk_server.Prelude.{
  ℕ, suc, ◌+◌, ◌-◌, ◌*◌, ◌/◌, ◌%◌, ◌≤◌, ◌<◌, ◌≡◌, sym, ap, ap₂, ◌∙◌, arith, ◌++◌, length, take,
  drop, leb, inl, inr, length-append, length-take, length-drop, take-append, append-nil,
  append_assoc, Bool-cases, leb→le,
}
use cloud_disk_server.Prelude.Text.{Bytes}
use cloud_disk_server.Md5.Transform.{Digest, transform}
use cloud_disk_server.Md5.Context.{blocks, put, absorb}
use cloud_disk_server.Prelude.{
  drop-append_left, take-append_right, drop-append_right, drop-drop, drop_all, drop_at,
}
use cloud_disk_server.Md5.Blocks.{blocks_at, blocks-append, blocks-add}

-- `s` and the first bytes of `buffer` are what has been made of a message so far.
pub record IsHeld (first : Digest) (message : Bytes) (s : Digest) (buffer : Bytes) : Type 0 where
  pub digested : s ≡ blocks (length message / 64) first message
  pub kept : take (length message % 64) buffer ≡ drop (length message / 64 * 64) message
  pub size : length buffer ≡ 64

module _ (first : Digest) (message : Bytes) (s : Digest) (buffer : Bytes)
    (held : IsHeld first message s buffer) (xs : Bytes) where
  abbrev index : ℕ
  index = length message % 64

  abbrev tail_part : Bytes
  tail_part = drop (length message / 64 * 64) message

  tail_size : length tail_part ≡ index
  tail_size = omega (arith, length-drop (length message / 64 * 64) message)

  message_tail : drop (length message / 64 * 64) (message ++ xs) ≡ tail_part ++ xs
  message_tail = drop-append_left (length message / 64 * 64) message xs (omega arith)

  -- Blocks of the longer message from the whole blocks of the shorter on.
  further :
      (n : ℕ)
      → blocks (length message / 64 + n) first (message ++ xs) ≡ blocks n s (tail_part ++ xs)
  further n =
      blocks-add (length message / 64) n first (message ++ xs)
      ∙ ap₂ (blocks n)
          (blocks-append (length message / 64) first message xs (omega arith) ∙ sym (held.digested))
          message_tail

  put_lem :
      (ys : Bytes) → put buffer index ys ≡ tail_part ++ (ys ++ drop (index + length ys) buffer)
  unfolding put
  put_lem ys = ap (λ (t : Bytes). t ++ (ys ++ drop (index + length ys) buffer)) (held.kept)

  length-put : (ys : Bytes) → length ys ≤ 64 - index → length (put buffer index ys) ≡ 64
  length-put ys h =
      ap length (put_lem ys)
      ∙ omega (
        arith,
        length-append tail_part (ys ++ drop (index + length ys) buffer),
        length-append ys (drop (index + length ys) buffer),
        length-drop (index + length ys) buffer,
        held.size,
        tail_size,
      )

  whole_size : length (message ++ xs) ≡ length message + length xs
  whole_size = length-append message xs

  short_kept : take (length (tail_part ++ xs)) (put buffer index xs) ≡ tail_part ++ xs
  short_kept =
      ap (take (length (tail_part ++ xs)))
        (put_lem xs ∙ sym (append_assoc tail_part xs (drop (index + length xs) buffer)))
      ∙ take-append (tail_part ++ xs) (drop (index + length xs) buffer)

  absorb_short : length xs < 64 - index → IsHeld first (message ++ xs) s (put buffer index xs)
  unfolding blocks
  absorb_short short = record {
    digested =
        sym (further 0)
        ∙ blocks_at {m = length message / 64 + 0} {n = length (message ++ xs) / 64} first
            (message ++ xs) (omega (arith, whole_size));
    kept =
        ap (λ (k : ℕ). take k (put buffer index xs))
          (omega (arith, whole_size, tail_size, length-append tail_part xs))
        ∙ short_kept
        ∙ sym message_tail
        ∙ drop_at (message ++ xs) (omega (arith, whole_size));
    size = length-put xs (omega arith);
  }

  module _ (long : 64 - index ≤ length xs) where
    abbrev more : ℕ
    more = (length xs - (64 - index)) / 64

    abbrev full : Bytes
    full = put buffer index (take (64 - index) xs)

    abbrev rest : Bytes
    rest = drop (more * 64) (drop (64 - index) xs)

    taken_size : length (take (64 - index) xs) ≡ 64 - index
    taken_size = omega (arith, length-take (64 - index) xs)

    rest_size : length rest ≡ (length message + length xs) % 64
    rest_size =
        omega (arith, length-drop (more * 64) (drop (64 - index) xs), length-drop (64 - index) xs)

    full_lem : full ≡ take 64 (tail_part ++ xs)
    full_lem =
        put_lem (take (64 - index) xs)
        ∙ ap (λ (t : Bytes). tail_part ++ (take (64 - index) xs ++ t))
            (drop_all _ buffer (omega (arith, taken_size, held.size)))
        ∙ ap (λ (t : Bytes). tail_part ++ t) (append-nil (take (64 - index) xs))
        ∙ sym (
            take-append_right 64 tail_part xs (omega (arith, tail_size))
            ∙ ap (λ (k : ℕ). tail_part ++ take k xs) (omega (arith, tail_size)))

    behind_lem : drop 64 (tail_part ++ xs) ≡ drop (64 - index) xs
    behind_lem =
        drop-append_right 64 tail_part xs (omega (arith, tail_size))
        ∙ drop_at xs (omega (arith, tail_size))

    rest_lem : drop ((length message / 64 + suc more) * 64) (message ++ xs) ≡ rest
    rest_lem =
        drop_at {n = length message / 64 * 64 + (64 + more * 64)} (message ++ xs) (omega arith)
        ∙ sym (drop-drop (64 + more * 64) (length message / 64 * 64) (message ++ xs))
        ∙ ap (drop (64 + more * 64)) message_tail
        ∙ sym (drop-drop (more * 64) 64 (tail_part ++ xs))
        ∙ ap (drop (more * 64)) behind_lem

    put_front : (b : Bytes) → put b 0 rest ≡ rest ++ drop (length rest) b
    unfolding put
    put_front b = ap (λ (k : ℕ). rest ++ drop k b) (omega arith)

    absorb_long :
        IsHeld first
          (message ++ xs)
          (blocks more (transform s full) (drop (64 - index) xs))
          (put full 0 rest)
    unfolding blocks
    absorb_long = record {
      digested =
          ap₂ (λ (t u : Bytes). blocks more (transform s t) u) full_lem (sym behind_lem)
          ∙ sym (further (suc more))
          ∙ blocks_at {m = length message / 64 + suc more} {n = length (message ++ xs) / 64} first
              (message ++ xs) (omega (arith, whole_size));
      kept =
          ap (take (length (message ++ xs) % 64)) (put_front full)
          ∙ ap (λ (k : ℕ). take k (rest ++ drop (length rest) full))
              (omega (arith, whole_size, rest_size))
          ∙ take-append rest (drop (length rest) full)
          ∙ sym rest_lem
          ∙ drop_at (message ++ xs) (omega (arith, whole_size));
      size =
          ap length (put_front full)
          ∙ omega (
            arith,
            length-append rest (drop (length rest) full),
            length-drop (length rest) full,
            length-put (take (64 - index) xs) (omega (arith, taken_size)),
            rest_size,
          );
    }

  pub absorb-IsHeld :
      IsHeld first (message ++ xs) (absorb s buffer index xs).0 (absorb s buffer index xs).1
  unfolding absorb
  absorb-IsHeld = elim (Bool-cases (leb (64 - index) (length xs))) [
    | inl e ↦ rw e (absorb_long (leb→le _ _ e))
    | inr e ↦ rw e (absorb_short (ground (arith, e)))
  ]
