-- ===== src/WireGuard/Obfs.antt =====
-- crates/net/src/wireguard/obfs.rs and `AwgObfuscation` of wireguard/config.rs: WireGuard's packets
-- with other types, random bytes in front and junk before them. The hash BLAKE2s and the random
-- generator are parameters.
pub mod RoundTrip
pub mod Messages
pub mod Canonical
use jamm_vpn.Base.{
  ℕ, zero, suc, ◌+◌, ◌-◌, Bool, true, false, not, Option, none, some, List, [], ◌∷◌, ◌++◌, ltb, leb,
  ◌==◌, ◌&&◌, ◌||◌, if◌then◌else◌, length, take, drop,
}
use jamm_vpn.Base.Octets.{to_le, from_le}
use jamm_vpn.Base.Text.{Str, bytes}

-- BLAKE2s of 32 bytes, and with a key of 16 bytes.
pub record Blake2s : Type 0 where
  pub hash : List ℕ → List ℕ
  pub mac : List ℕ → List ℕ → List ℕ

-- The draws of the generator, numbered: a number of a range, and so many bytes.
pub record Rng : Type 0 where
  pub range : ℕ → ℕ → ℕ → ℕ
  pub fill : ℕ → ℕ → List ℕ

pub record AwgObfuscation : Type 0 where
  pub jc : ℕ
  pub jmin : ℕ
  pub jmax : ℕ
  pub s1 : ℕ
  pub s2 : ℕ
  pub h1 : ℕ
  pub h2 : ℕ
  pub h3 : ℕ
  pub h4 : ℕ

unfoldable pub is_identity : AwgObfuscation → Bool
is_identity a =
    a.jc == 0 && a.s1 == 0 && a.s2 == 0 && a.h1 == 1 && a.h2 == 2 && a.h3 == 3 && a.h4 == 4

abbrev pub label_mac1 : Str
label_mac1 = bytes "mac1----"

abbrev pub t_init : ℕ
t_init = 1

abbrev pub t_resp : ℕ
t_resp = 2

abbrev pub t_cookie : ℕ
t_cookie = 3

abbrev pub t_data : ℕ
t_data = 4

abbrev pub len_init : ℕ
len_init = 148

abbrev pub len_resp : ℕ
len_resp = 92

abbrev pub len_cookie : ℕ
len_cookie = 64

abbrev pub data_header : ℕ
data_header = 16

abbrev pub data_min : ℕ
data_min = data_header + 16

unfoldable pub mac1_key : Blake2s → List ℕ → List ℕ
mac1_key B receiver_pub = B.hash (label_mac1 ++ receiver_pub)

unfoldable pub fix_mac1 : Blake2s → List ℕ → List ℕ → List ℕ
fix_mac1 B receiver_pub msg =
    let len = length msg in
    if not (len == len_init) && not (len == len_resp)
    then msg
    else (let off = len - 32 in
        take off msg ++ (B.mac (mac1_key B receiver_pub) (take off msg) ++ drop (off + 16) msg))

pub record AwgObfs : Type 0 where
  pub params : Option AwgObfuscation
  pub our_public : List ℕ
  pub peer_public : List ℕ

abbrev filter_identity : Option AwgObfuscation → Option AwgObfuscation
filter_identity none = none
filter_identity (some a) = if is_identity a then none else some a

unfoldable pub new : Option AwgObfuscation → List ℕ → List ℕ → AwgObfs
new params our_public peer_public = record {
  params = filter_identity params;
  our_public = our_public;
  peer_public = peer_public;
}

unfoldable pub h_for : AwgObfuscation → ℕ → ℕ
h_for a t =
    if t == t_init
    then a.h1
    else if t == t_resp
    then a.h2
    else if t == t_cookie
    then a.h3
    else if t == t_data
    then a.h4
    else t

unfoldable pub s_for : AwgObfuscation → ℕ → ℕ
s_for a t = if t == t_init then a.s1 else if t == t_resp then a.s2 else 0

-- The size of the junk packet number `k`.
abbrev junk_size : Rng → AwgObfuscation → ℕ → ℕ
junk_size R a k =
    let lo = a.jmin in
    let hi = if leb a.jmax lo then lo else a.jmax in if ltb lo hi then R.range k lo hi else lo

abbrev pub junk : Rng → AwgObfuscation → ℕ → List (List ℕ)
junk R a zero = []
junk R a (suc k) = R.fill k (junk_size R a k) ∷ junk R a k

-- The packet itself, with the bytes `pad` in front.
unfoldable pub dress : Blake2s → AwgObfuscation → List ℕ → List ℕ → List ℕ → ℕ → List ℕ
dress B a peer_public pad packet t =
    let typed = to_le 4 (h_for a t) ++ drop 4 packet in
    pad ++ (if t == t_init || t == t_resp then fix_mac1 B peer_public typed else typed)

abbrev wrap_with : Blake2s → Rng → AwgObfuscation → List ℕ → List ℕ → List (List ℕ)
wrap_with B R a peer_public packet =
    if ltb (length packet) 4
    then packet ∷ []
    else (let t = from_le (take 4 packet) in
        let first = if t == t_init && ltb 0 a.jc then junk R a a.jc else [] in
        first ++ (dress B a peer_public (R.fill a.jc (s_for a t)) packet t ∷ []))

abbrev wrap_packet : Blake2s → Rng → Option AwgObfuscation → List ℕ → List ℕ → List (List ℕ)
wrap_packet B R none peer_public packet = packet ∷ []
wrap_packet B R (some a) peer_public packet = wrap_with B R a peer_public packet

unfoldable pub wrap : Blake2s → Rng → AwgObfs → List ℕ → List (List ℕ)
wrap B R o packet = wrap_packet B R o.params o.peer_public packet

-- A type, the size of its packets and whether that is the least size.
abbrev pub Kind : Type 0
Kind = ℕ × ℕ × Bool

abbrev pub kinds : List Kind
kinds =
    (t_init, len_init, false)
    ∷ (t_resp, len_resp, false)
    ∷ (t_cookie, len_cookie, false)
    ∷ (t_data, data_min, true)
    ∷ []

-- The datagram is one of the kind.
unfoldable pub recognised : AwgObfuscation → List ℕ → Kind → Bool
recognised a dg (t, fixed, is_transport) =
    let l = length dg in
    let pad = s_for a t in
    let size_ok = if is_transport then leb (pad + fixed) l else l == pad + fixed in
    if ltb l (pad + 4)
    then false
    else if not size_ok
    then false
    else from_le (take 4 (drop pad dg)) == h_for a t

-- The packet of a type in a datagram.
unfoldable pub undress : Blake2s → AwgObfuscation → List ℕ → List ℕ → ℕ → List ℕ
undress B a our_public dg t =
    let pkt = to_le 4 t ++ drop 4 (drop (s_for a t) dg) in
    if t == t_init || t == t_resp then fix_mac1 B our_public pkt else pkt

abbrev pub unwrap_kinds : Blake2s → AwgObfuscation → List ℕ → List ℕ → List Kind → Option (List ℕ)
unwrap_kinds B a our_public dg [] = none
unwrap_kinds B a our_public dg (k ∷ ks) =
    if recognised a dg k
    then some (undress B a our_public dg k.0)
    else unwrap_kinds B a our_public dg ks

abbrev unwrap_datagram : Blake2s → Option AwgObfuscation → List ℕ → List ℕ → Option (List ℕ)
unwrap_datagram B none our_public dg = some dg
unwrap_datagram B (some a) our_public dg = unwrap_kinds B a our_public dg kinds

unfoldable pub unwrap : Blake2s → AwgObfs → List ℕ → Option (List ℕ)
unwrap B o dg = unwrap_datagram B o.params o.our_public dg
