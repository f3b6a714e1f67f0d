-- ===== src/Base64/Runs.antt =====
-- The round trip of common/base64.c at concrete bytes.
use cloud_disk_server.Prelude.{[], ◌∷◌, ◌≡◌, refl, arith}
use cloud_disk_server.Prelude.Outcome.{done}
use cloud_disk_server.Prelude.Text.{codes}
use cloud_disk_server.Base64.Codec.{
  base64_encode, base64_decode, first_six, second_six, third_six, fourth_six,
}
use cloud_disk_server.Base64.RoundTrip.{base64_decode-encode}

base64_decode-encode_example :
    base64_decode (base64_encode (0 ∷ 255 ∷ 16 ∷ 131 ∷ [])) ≡ done (0 ∷ 255 ∷ 16 ∷ 131 ∷ [])
base64_decode-encode_example =
    base64_decode-encode (0 ∷ 255 ∷ 16 ∷ 131 ∷ [])
      (omega arith, (omega arith, (omega arith, (omega arith, tt))))

encode_test : base64_encode (codes "any ca") ≡ codes "YW55IGNh"
unfolding base64_encode first_six second_six third_six fourth_six
encode_test = refl

encode_padded_test : base64_encode (codes "a") ≡ codes "YQ=="
unfolding base64_encode first_six
encode_padded_test = refl
