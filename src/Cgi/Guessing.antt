-- ===== src/Cgi/Guessing.antt =====
-- How much of the random string a token of src_cgi/login_cgi.c hangs on.
use cloud_disk_server.Prelude.{
  ℕ, zero, suc, ◌+◌, ◌*◌, ◌%◌, ◌^◌, ◌<◌, ◌≡◌, refl, sym, ◌∙◌, ap, ap₂, arith, ◌∷◌, ◌++◌, length,
  take, drop,
}
use cloud_disk_server.Prelude.Text.{Bytes}
use cloud_disk_server.Md5.Context.{md5_to_hex_string, hex}
use cloud_disk_server.Md5.Spec.{md5, md5_to_hex_string-md5}
use cloud_disk_server.Cgi.Token.{random_char, random_chars}
use cloud_disk_server.Cgi.Login.{Ambient, new_token}

-- The first 8 bytes of the block `token`.
unfoldable eight_chars : (ℕ → ℕ) → Bytes
eight_chars rand = random_chars rand 8 0

front_lem :
    (rand : ℕ → ℕ) (block : Bytes)
    → take 8 (random_chars rand 31 0 ++ drop 31 block) ≡ eight_chars rand
unfolding random_chars eight_chars
front_lem rand block = refl

random_chars_agree :
    (rand rand' : ℕ → ℕ) (n i : ℕ)
    → ((j : ℕ) → j < i + 2 * n → rand j ≡ rand' j)
    → random_chars rand n i ≡ random_chars rand' n i
unfolding random_chars
random_chars_agree rand rand' zero i same = refl
random_chars_agree rand rand' (suc n) i same =
    ap₂ ◌∷◌
      (ap₂ (λ (f x : ℕ). random_char (f % 3) x) (same i (omega arith)) (same (i + 1) (omega arith)))
      (random_chars_agree rand rand' n (i + 2) (λ j h. same j (omega arith)))

eight_small : (rand : ℕ → ℕ) → length (eight_chars rand) + 64 < 2 ^ 32
unfolding eight_chars random_chars
eight_small rand = omega arith

new_token_lem :
    (a : Ambient)
    → a.pointer_bytes ≡ 8
    → length a.stack ≡ 64
    → new_token a ≡ hex (md5 (eight_chars a.rand))
unfolding new_token
new_token_lem a wide size =
    ap (λ (n : ℕ). md5_to_hex_string a.stack (take n (random_chars a.rand 31 0 ++ drop 31 a.token)))
      wide
    ∙ ap (md5_to_hex_string a.stack) (front_lem a.rand a.token)
    ∙ md5_to_hex_string-md5 a.stack (eight_chars a.rand) size (eight_small a.rand)

-- Where a pointer has 8 bytes, two tokens are the same as soon as the first 16 random numbers of
-- their strings of 31 characters are, whatever the other numbers, the blocks from the requests
-- before and the 64 bytes on the stack are.
pub new_token_agree :
    (a b : Ambient)
    → a.pointer_bytes ≡ 8
    → b.pointer_bytes ≡ 8
    → length a.stack ≡ 64
    → length b.stack ≡ 64
    → ((i : ℕ) → i < 16 → a.rand i ≡ b.rand i)
    → new_token a ≡ new_token b
unfolding eight_chars
new_token_agree a b wide_a wide_b size_a size_b same =
    new_token_lem a wide_a size_a
    ∙ ap (λ (t : Bytes). hex (md5 t))
        (random_chars_agree a.rand b.rand 8 0 (λ j h. same j (omega arith)))
    ∙ sym (new_token_lem b wide_b size_b)
