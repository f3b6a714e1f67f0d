-- ===== src/Md5Cgi/Clean.antt =====
-- What the blocks of src_cgi/md5_cgi.c hold from one request to the next.
use cloud_disk_server.Prelude.{
  ℕ, ◌+◌, ◌-◌, ◌≤◌, ◌≡◌, sym, ap, ◌∙◌, arith, some, ◌++◌, length, take, drop, replicate, le→leb,
  length-append, length-take, length-drop, length-replicate, drop-append_right, drop-append,
  drop-drop, drop_at,
}
use cloud_disk_server.Prelude.Outcome.{done}
use cloud_disk_server.Prelude.Text.{Bytes}
use cloud_disk_server.Prelude.Buffer.{c_str, IsString, c_str-append-nul, strncpy}
use cloud_disk_server.Md5Cgi.Blocks.{clear, unquote}

-- A block of 512 bytes with zeros behind its first 32.
pub record IsClean (block : Bytes) : Type 0 where
  pub size : length block ≡ 512
  pub zeros : drop 32 block ≡ replicate 480 0

pub length-clear :
    (n : ℕ) (block : Bytes) → n ≤ length block → length (clear n block) ≡ length block
length-clear n block h = omega (
  arith,
  length-append (replicate n 0) (drop n block),
  length-replicate {A = ℕ} n 0,
  length-drop n block,
)

clear_tail : (n : ℕ) (block : Bytes) → n ≤ 32 → drop 32 (clear n block) ≡ drop 32 block
clear_tail n block h =
    drop-append_right 32 (replicate n 0) (drop n block)
      (omega (arith, length-replicate {A = ℕ} n 0))
    ∙ ap (λ (k : ℕ). drop (32 - k) (drop n block)) (length-replicate {A = ℕ} n 0)
    ∙ drop-drop (32 - n) n block
    ∙ drop_at {m = n + (32 - n)} {n = 32} block (omega arith)

pub clear-IsClean : (n : ℕ) (block : Bytes) → n ≤ 32 → IsClean block → IsClean (clear n block)
clear-IsClean n block h c = record {
  size = length-clear n block (omega (arith, c.size)) ∙ c.size;
  zeros = clear_tail n block h ∙ c.zeros;
}

-- What is written of a text in its two quotes.
abbrev pub inside : Bytes → Bytes
inside text = take (length text - 2) (drop 1 text)

unquoted :
    (block text : Bytes)
    → 2 ≤ length text
    → strncpy block (drop 1 text) (length text - 2) ≡ inside text ++ drop (length text - 2) block
unquoted block text h =
    ap (λ (k : ℕ). inside text ++ (replicate k 0 ++ drop (length text - 2) block)) {y = 0}
      (omega (arith, length-drop 1 text))

abbrev pub IsDigestText : Bytes → Type 0
IsDigestText text = length text ≡ 34

length-inside : (text : Bytes) → length (inside text) ≡ length text - 2
length-inside text = omega (arith, length-take (length text - 2) (drop 1 text), length-drop 1 text)

digest_size : (text : Bytes) → IsDigestText text → length (inside text) ≡ 32
digest_size text h = omega (arith, h, length-inside text)

abbrev pub kept : Bytes → Bytes → Bytes
kept block text = inside text ++ drop (length text - 2) block

kept_zeros :
    (block text : Bytes)
    → IsDigestText text
    → IsClean block
    → drop (length text - 2) block ≡ replicate 480 0
kept_zeros block text h c =
    drop_at {m = length text - 2} {n = 32} block (omega (arith, h)) ∙ c.zeros

pub kept-IsClean :
    (block text : Bytes) → IsDigestText text → IsClean block → IsClean (kept block text)
kept-IsClean block text h c = record {
  size = omega (
    arith,
    length-append (inside text) (drop (length text - 2) block),
    length-drop (length text - 2) block,
    c.size,
    digest_size text h,
    h,
  );
  zeros =
      ap (λ (k : ℕ). drop k (kept block text)) (sym (digest_size text h))
      ∙ drop-append (inside text) (drop (length text - 2) block)
      ∙ kept_zeros block text h c;
}

pub unquote_kept :
    (block text : Bytes)
    → 2 ≤ length text
    → length text ≤ length block + 2
    → unquote block text ≡ done (kept block text)
unfolding unquote
unquote_kept block text h k =
    rw (le→leb 2 (length text) h, le→leb (length text - 2) (length block) (omega arith))
      (ap done (unquoted block text h))

-- A text of 32 bytes in quotes, put into a block whose first bytes are cleared: the block has zeros
-- behind the text again, and the text is what is read from it.
pub unquote_digest :
    (n : ℕ) (block text : Bytes)
    → n ≤ 32
    → IsClean block
    → IsDigestText text
    → IsString (inside text)
    → (b : Bytes) × (unquote (clear n block) text ≡ done b)
      × IsClean b
      × (c_str b ≡ some (inside text))
unquote_digest n block text small c h string =
    let cleared : IsClean (clear n block) = clear-IsClean n block small c in
    (
      kept (clear n block) text,
      unquote_kept (clear n block) text (omega (arith, h)) (omega (arith, h, cleared.size)),
      kept-IsClean (clear n block) text h cleared,
      ap (λ (t : Bytes). c_str (inside text ++ t)) (kept_zeros (clear n block) text h cleared)
          ∙ c_str-append-nul (inside text) (replicate 479 0) string,
    )
