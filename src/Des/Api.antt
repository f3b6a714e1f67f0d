-- ===== src/Des/Api.antt =====
-- The functions of common/des.c over whole data. A platform says how wide an `unsigned long` is and
-- what an array on the stack holds before it is written.
use cloud_disk_server.Prelude.{ℕ, zero, suc, ◌-◌, ◌*◌, ◌/◌, ◌%◌, not, ◌||◌, List, [], ◌++◌}
use cloud_disk_server.Prelude.{none, some, length, get_elem?, take, drop, replicate}
use cloud_disk_server.Prelude.{ltb, ◌==◌, if◌then◌else◌}
use cloud_disk_server.Prelude.Text.{Bytes, codes}
use cloud_disk_server.Des.Schedule.{Direction, deskey, cookey}
use cloud_disk_server.Des.Block.{scrunch, unscrun, desfunc}

-- `long_bytes` is 4 or 8. `stack i` is what the array `ek[32]` holds when the block `i` is entered.
pub record Platform : Type 0 where
  pub long_bytes : ℕ
  pub stack : ℕ → List ℕ

abbrev pub long_bits : Platform → ℕ
long_bits p = p.long_bytes * 8

-- 0 with what was written, an error code, or a read outside an array.
pub data Status {ℓ} (A : Type ℓ) : Type ℓ where
  ok : A → Status A
  code : ℕ → Status A
  fault : Status A

infixl 5 ◌>>=◌
abbrev pub ◌>>=◌ {ℓ κ} : {A : Type ℓ} {B : Type κ} → Status A → (A → Status B) → Status B
ok a >>= f = f a
code n >>= f = code n
fault >>= f = fault

-- `memcpy` of DES_KEYBYTES = 128 bytes out of an array of longs: so many longs are copied.
abbrev pub des_keybytes : ℕ
des_keybytes = 128

abbrev pub copied_longs : Platform → ℕ
copied_longs p = des_keybytes / p.long_bytes

-- OPENCOMM_DesExpandEncKey and OPENCOMM_DesExpandDecKey: the bytes written, as longs.
unfoldable pub expand_key : Platform → Direction → List ℕ → ℕ → Status (List ℕ)
expand_key p edf key key_len =
    if not (key_len == 8)
    then code 0xEE20
    else ok (take (copied_longs p) (cookey (long_bits p) (deskey key edf)))

-- OPENCOMM_DesEncRaw and OPENCOMM_DesDecRaw, which are the same code. The key is copied over the
-- front of the array `ek` of 32 longs.
unfoldable pub des_raw : Platform → ℕ → List ℕ → ℕ → Bytes → ℕ → Status Bytes
des_raw p i key key_len bytes len =
    if not (len == 8)
    then code 0xEE20
    else if not (key_len == des_keybytes)
    then code 0xEE20
    else ok (
        unscrun (
          desfunc (long_bits p) (scrunch (long_bits p) (take 8 bytes))
            (key ++ drop (length key) (p.stack i))))

-- The loop over the blocks from the block `i` on, with the number of blocks left.
unfoldable pub each_block : Platform → ℕ → ℕ → List ℕ → Bytes → Status Bytes
each_block p zero i key bytes = ok []
each_block p (suc n) i key bytes = do
  block ← des_raw p i key des_keybytes bytes 8
  rest ← each_block p n (suc i) key (drop 8 bytes)
  ok (block ++ rest)

-- myic_DESEncrypt and myic_DESDecrypt.
unfoldable pub myic_des : Platform → Direction → Bytes → ℕ → Bytes → ℕ → Status Bytes
myic_des p edf key key_len bytes len =
    if not (len % 8 == 0)
    then code 0xEE20
    else if not (key_len == 8)
    then code 0xEE20
    else do expanded ← expand_key p edf key key_len; each_block p (len / 8) 0 expanded bytes

-- CW_dataPadAdd: to the next multiple of 8, or of 16 for any other `tag`; `malloc` succeeds.
unfoldable pub pad_add : ℕ → Bytes → Bytes
pad_add tag bytes =
    let unit = if tag == 0 then 8 else 16 in
    let pad_len = unit - length bytes % unit in bytes ++ replicate pad_len pad_len

abbrev pub user_password_key : Bytes
user_password_key = codes "abcd1234"

unfoldable pub des_enc : Platform → Bytes → Status Bytes
des_enc p bytes =
    let padded = pad_add 0 bytes in
    myic_des p Direction.en0 user_password_key (length user_password_key) padded (length padded)

unfoldable pub des_enc_raw : Platform → Bytes → Status Bytes
des_enc_raw p bytes =
    myic_des p Direction.en0 user_password_key (length user_password_key) bytes (length bytes)

-- What `DesDec` does with the decrypted data: the last byte, as a signed char, must be from 1 to 8.
unfoldable pub strip_pad : Bytes → Status Bytes
strip_pad plain = elim (get_elem? plain (length plain - 1)) [
  | none ↦ fault
  | some pad ↦ if pad == 0 || ltb 8 pad then code 20 else ok (take (length plain - pad) plain)
]

unfoldable pub des_dec : Platform → Bytes → Status Bytes
des_dec p bytes = do
  plain ← myic_des p Direction.de1 user_password_key (length user_password_key) bytes (length bytes)
  strip_pad plain

unfoldable pub des_dec_raw : Platform → Bytes → Status Bytes
des_dec_raw p bytes =
    myic_des p Direction.de1 user_password_key (length user_password_key) bytes (length bytes)
