-- ===== src/Tests/Vless.antt =====
-- A VLESS identifier.
use jamm_vpn.Base.{ℕ, ◌≡◌, refl, some, List, [], ◌∷◌}
use jamm_vpn.Base.Text.{Str, bytes}
use jamm_vpn.Addr.Parse.{to_digit}
use jamm_vpn.Vless.{without_dashes, hex_pair, hex_pairs, parse_uuid}

abbrev text : Str
text = bytes "00000000-0000-0000-0000-0000000000fF"

abbrev user : List ℕ
user = 0 ∷ 0 ∷ 0 ∷ 0 ∷ 0 ∷ 0 ∷ 0 ∷ 0 ∷ 0 ∷ 0 ∷ 0 ∷ 0 ∷ 0 ∷ 0 ∷ 0 ∷ 255 ∷ []

parsed : parse_uuid text ≡ some user
unfolding parse_uuid without_dashes hex_pairs hex_pair to_digit
parsed = refl
