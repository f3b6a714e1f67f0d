-- ===== src/Des/Runs.antt =====
-- Known answers for DES, and the theorems at concrete inputs.
use cloud_disk_server.Prelude.{get_or, ◌↔◌, false, inl}
use cloud_disk_server.Des.Cipher.{held_left, cipher_function, box_input, fval-cipher_function}
use cloud_disk_server.Des.Block.{fval}
use cloud_disk_server.Des.Standard.{
  table_of, standard_entry, is_miscopied, permuted, table-standard_entry,
}
use cloud_disk_server.Prelude.{
  ℕ, List, [], ◌∷◌, ◌≡◌, refl, replicate, arith, length, All, ◌+◌, ◌*◌, ◌/◌,
}
use cloud_disk_server.Prelude.Text.{Bytes, codes}
use cloud_disk_server.Des.Schedule.{
  Direction, deskey, half_key, chosen_bits, cookey, cook_first, cook_second,
}
use cloud_disk_server.Des.Block.{Halves, scrunch, scrunch_word, unscrun, desfunc}
use cloud_disk_server.Des.Bytes.{IsByte}
use cloud_disk_server.Des.Inverse.{keys_for, desfunc_undo}
use cloud_disk_server.Des.RoundTrip.{with_stack, des_dec-des_enc}
use cloud_disk_server.Des.Boxes.{sp1, sp2, sp3, sp4, sp5, sp6, sp7, sp8}
use cloud_disk_server.Des.Api.{
  Platform, ok, myic_des, each_block, des_raw, expand_key, des_enc, des_dec,
}

abbrev ilp32 : Platform
ilp32 = record { long_bytes = 4; stack = λ i. replicate 32 0 }

abbrev sample_key : Bytes
sample_key = 0x13 ∷ 0x34 ∷ 0x57 ∷ 0x79 ∷ 0x9B ∷ 0xBC ∷ 0xDF ∷ 0xF1 ∷ []

abbrev sample_block : Bytes
sample_block = 0x01 ∷ 0x23 ∷ 0x45 ∷ 0x67 ∷ 0x89 ∷ 0xAB ∷ 0xCD ∷ 0xEF ∷ []

-- DES gives 85E813540F0AB405 here: the table SP5 of the source differs from the standard.
known_answer :
    myic_des ilp32 Direction.en0 sample_key 8 sample_block 8
    ≡ ok (0x1E ∷ 0xCE ∷ 0xAF ∷ 0xFE ∷ 0x1C ∷ 0x65 ∷ 0x52 ∷ 0x96 ∷ [])
unfolding myic_des expand_key scrunch scrunch_word unscrun desfunc each_block des_raw deskey
    half_key chosen_bits cookey cook_first cook_second sp1 sp2 sp3 sp4 sp5 sp6 sp7 sp8
known_answer = refl

abbrev zeros : ℕ → List ℕ
zeros i = replicate 32 0

abbrev sample_halves : Halves
sample_halves = record { leftt = 0x01234567; right = 0x89ABCDEF }

des_dec-des_enc_example :
    (c : Bytes) × (des_enc (with_stack zeros) (codes "ab") ≡ ok c)
    × (length c ≡ (length (codes "ab") / 8 + 1) * 8)
    × (des_dec (with_stack zeros) c ≡ ok (codes "ab"))
des_dec-des_enc_example =
    des_dec-des_enc zeros (λ i. refl) (codes "ab") (omega arith, (omega arith, tt))

sample_block-AreBytes : All IsByte sample_block
sample_block-AreBytes = (
  omega arith,
  (
    omega arith,
    (omega arith, (omega arith, (omega arith, (omega arith, (omega arith, (omega arith, tt)))))),
  ),
)

desfunc_undo_example :
    desfunc 32
      (desfunc 32 sample_halves (keys_for Direction.en0 sample_key))
      (keys_for Direction.de1 sample_key)
    ≡ sample_halves
desfunc_undo_example = desfunc_undo sample_key sample_halves (omega arith, omega arith)

table-standard_entry_example :
    (get_or (table_of 4) 46 0 ≡ standard_entry 4 46) ↔ (is_miscopied 4 46 ≡ false)
table-standard_entry_example = table-standard_entry 4 46 (omega arith) (omega arith)

fifth_right : is_miscopied 4 (box_input 0 7 1 4) ≡ false
unfolding permuted
fifth_right = refl

fval-cipher_function_example : fval 32 0 7 (held_left 1) ≡ cipher_function 0 7 1
fval-cipher_function_example = fval-cipher_function 32 0 7 1 (inl refl) (omega arith) fifth_right
