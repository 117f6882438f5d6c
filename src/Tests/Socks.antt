-- ===== src/Tests/Socks.antt =====
-- A SOCKS5 client that asks for a name server, and one whose domain is too long.
use jamm_vpn.Base.{
  ℕ, zero, suc, ◌+◌, ◌*◌, ◌^◌, ◌≡◌, refl, true, none, some, List, [], ◌∷◌, ◌++◌, arith,
}
use jamm_vpn.Base.Text.{Str}
use jamm_vpn.Base.Octets.{to_be, from_be}
use jamm_vpn.Base.Utf8.{is_utf8}
use jamm_vpn.Error.{ok}
use jamm_vpn.Addr.{Target, domain, socket, v4}
use jamm_vpn.Socks.{Socks5Config, handle_client, socks5_connect, encode_target, read_target}
use jamm_vpn.Socks.Agree.{said, heard, connect_agrees}
use jamm_vpn.Socks.Wrap.{read-encode_target_wraps}

abbrev server : Target
server = socket (v4 (8 * 2 ^ 24 + 8 * 2 ^ 16 + 8 * 2 ^ 8 + 8)) 53

abbrev no_user : Socks5Config
no_user = record { username = none; password = none }

connect_agrees_example :
    (handle_client (λ t. true) (said server ++ (1 ∷ [])) ≡ (heard, ok (some server, 1 ∷ [])))
    × (socks5_connect no_user server (heard ++ (2 ∷ []))
        ≡ (said server, ok (0 ∷ 0 ∷ 0 ∷ 0 ∷ 0 ∷ 0 ∷ [], 2 ∷ [])))
connect_agrees_example =
    connect_agrees (λ t. true) no_user server (1 ∷ []) (2 ∷ []) (omega arith, omega arith) refl refl

abbrev repeat : ℕ → Str
repeat zero = []
repeat (suc n) = b'a' ∷ repeat n

-- A name of 300 bytes is read as its first 44.
read-encode_target_wraps_example :
    (body : List ℕ) × (encode_target (domain (repeat 300) 80) ≡ 3 ∷ body)
    × (read_target 3 (body ++ (1 ∷ []))
        ≡ ([], ok (domain (repeat 44) (b'a' * 256 + b'a'), repeat 254 ++ (0 ∷ 80 ∷ 1 ∷ []))))
unfolding is_utf8 from_be to_be
read-encode_target_wraps_example = read-encode_target_wraps (repeat 300) 80 (1 ∷ []) (omega arith)
