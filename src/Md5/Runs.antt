-- ===== src/Md5/Runs.antt =====
-- Known answers for MD5.
use cloud_disk_server.Prelude.{◌≡◌, refl, replicate, List, [], ◌∷◌, arith}
use cloud_disk_server.Prelude.Text.{Bytes, codes}
use cloud_disk_server.Md5.Transform.{transform, steps, step, decode}
use cloud_disk_server.Md5.Context.{
  md5_to_hex_string, init, update, absorb, blocks, put, count_low, count_high, waiting, finish,
  pad_length, encode_state, final, hex,
}
use cloud_disk_server.Md5.HexText.{IsHexDigit, md5_to_hex_string-IsHexDigit}
use cloud_disk_server.Prelude.{length, All}
use cloud_disk_server.Md5.Spec.{md5, update_all, final-md5}

known_answer :
    md5_to_hex_string (replicate 64 0) (codes "message digest")
    ≡ codes "f96b697d7cb7938d525a2f31aaf161d0"
unfolding md5_to_hex_string init update absorb blocks put count_low count_high waiting finish
    pad_length encode_state final hex transform steps step decode
known_answer = refl

abbrev stale : Bytes
stale = replicate 64 7

abbrev two_pieces : List Bytes
two_pieces = codes "message " ∷ codes "digest" ∷ []

final-md5_example : final (update_all (init stale) two_pieces) ≡ md5 (codes "message digest")
final-md5_example = final-md5 stale two_pieces refl (omega arith, (omega arith, tt))

md5_to_hex_string-IsHexDigit_example :
    (length (md5_to_hex_string stale (codes "message digest")) ≡ 32)
    × All IsHexDigit (md5_to_hex_string stale (codes "message digest"))
md5_to_hex_string-IsHexDigit_example = md5_to_hex_string-IsHexDigit stale (codes "message digest")
