-- ===== src/Tests/WireGuard.antt =====
-- Settings of AmneziaWG with a hash of zeros and a generator of zeros.
use jamm_vpn.Base.{
  ℕ, zero, suc, ◌≡◌, refl, inl, false, some, List, [], ◌∷◌, ◌++◌, arith, length, nth,
}
use jamm_vpn.Base.Octets.{to_le}
use jamm_vpn.WireGuard.Obfs.{
  Blake2s, Rng, AwgObfuscation, AwgObfs, Kind, kinds, wrap, unwrap, recognised, s_for, h_for,
  t_init, t_resp, t_cookie, len_init, len_resp, len_cookie, undress,
}
use jamm_vpn.WireGuard.Obfs.RoundTrip.{handshake}
use jamm_vpn.WireGuard.Obfs.Messages.{unwrap-wrap-handshake, unwrap-wrap_data}
use jamm_vpn.WireGuard.Obfs.Canonical.{IsCanonical, unwrap-IsCanonical}

abbrev zeros : ℕ → List ℕ
zeros zero = []
zeros (suc n) = 0 ∷ zeros n

length-zeros : (n : ℕ) → length (zeros n) ≡ n
length-zeros zero = refl
length-zeros (suc n) = omega (arith, length-zeros n)

abbrev blank : Blake2s
blank = record { hash = λ m. zeros 32; mac = λ k m. zeros 16 }

abbrev still : Rng
still = record { range = λ k lo hi. lo; fill = λ k n. zeros n }

abbrev settings : AwgObfuscation
settings = record {
  jc = 3;
  jmin = 10;
  jmax = 20;
  s1 = 8;
  s2 = 12;
  h1 = 11;
  h2 = 22;
  h3 = 33;
  h4 = 44;
}

abbrev client : AwgObfs
client = record { params = some settings; our_public = zeros 32; peer_public = 1 ∷ zeros 31 }

abbrev server : AwgObfs
server = record { params = some settings; our_public = 1 ∷ zeros 31; peer_public = zeros 32 }

unwrap-wrap-handshake_example :
    (first : List (List ℕ)) × (dg : List ℕ) × (wrap blank still client
        (handshake blank (1 ∷ zeros 31) 1 (zeros 112) (zeros 16))
      ≡ first ++ (dg ∷ []))
    × (unwrap blank server dg ≡ some (handshake blank (1 ∷ zeros 31) 1 (zeros 112) (zeros 16)))
unwrap-wrap-handshake_example =
    unwrap-wrap-handshake blank still settings client server 1 (zeros 112) (zeros 16) (λ k m. refl)
      (λ draw n. length-zeros n) (omega arith, omega arith, omega arith, omega arith) refl refl refl
      (inl (refl, refl)) refl (λ e. omega (arith, e))

not_init : recognised settings (to_le 4 44 ++ zeros 28) (t_init, len_init, false) ≡ false
unfolding recognised s_for to_le
not_init = refl

not_resp : recognised settings (to_le 4 44 ++ zeros 28) (t_resp, len_resp, false) ≡ false
unfolding recognised s_for to_le
not_resp = refl

not_cookie : recognised settings (to_le 4 44 ++ zeros 28) (t_cookie, len_cookie, false) ≡ false
unfolding recognised s_for to_le
not_cookie = refl

unwrap-wrap_data_example :
    (dg : List ℕ) × (wrap blank still client (to_le 4 4 ++ zeros 28) ≡ dg ∷ [])
    × (unwrap blank server dg ≡ some (to_le 4 4 ++ zeros 28))
unwrap-wrap_data_example =
    unwrap-wrap_data blank still settings client server (zeros 28) (λ draw n. length-zeros n)
      (omega arith, omega arith, omega arith, omega arith) refl refl (omega arith) not_init not_resp
      not_cookie

keepalive : unwrap blank server (44 ∷ 0 ∷ 0 ∷ 0 ∷ zeros 28) ≡ some (4 ∷ 0 ∷ 0 ∷ 0 ∷ zeros 28)
unfolding unwrap recognised s_for h_for undress to_le
keepalive = refl

unwrap-IsCanonical_example :
    (i : ℕ) × (k : Kind) × (nth i kinds ≡ some k) × IsCanonical (4 ∷ 0 ∷ 0 ∷ 0 ∷ zeros 28) k
unwrap-IsCanonical_example =
    unwrap-IsCanonical blank settings server (44 ∷ 0 ∷ 0 ∷ 0 ∷ zeros 28) (4 ∷ 0 ∷ 0 ∷ 0 ∷ zeros 28)
      (λ k m. refl) refl keepalive
