-- ===== src/Tests/Base64.antt =====
-- Texts of Base64 with and without padding.
use jamm_vpn.Base.{◌≡◌, refl, [], ◌∷◌, arith}
use jamm_vpn.Base.Text.{bytes}
use jamm_vpn.Error.{ok}
use jamm_vpn.Base64.{encode_standard, decode_loose}
use jamm_vpn.Base64.RoundTrip.{decode_loose-encode_standard}

encode_two : encode_standard (bytes "fo") ≡ bytes "Zm8="
unfolding encode_standard
encode_two = refl

-- The other alphabet, without padding and with a space.
decode_url : decode_loose (bytes "-_ 8") ≡ ok (0xfb ∷ 0xff ∷ [])
unfolding decode_loose
decode_url = refl

decode_loose-encode_standard_example :
    decode_loose (encode_standard (0 ∷ 255 ∷ 7 ∷ 128 ∷ [])) ≡ ok (0 ∷ 255 ∷ 7 ∷ 128 ∷ [])
decode_loose-encode_standard_example =
    decode_loose-encode_standard (0 ∷ 255 ∷ 7 ∷ 128 ∷ [])
      (omega arith, (omega arith, (omega arith, (omega arith, tt))))
