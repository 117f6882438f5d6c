-- ===== src/Udp.antt =====
-- crates/net/src/udp.rs: the datagrams of SOCKS5 UDP ASSOCIATE. A slice that would be out of range
-- stops the task: `panicked`.
pub mod Datagram
pub mod Association
pub mod Binding
pub mod Client
use jamm_vpn.Base.{
  ℕ, ◌+◌, ◌%◌, List, [], ◌∷◌, ◌++◌, ltb, ◌==◌, if◌then◌else◌, length, take, drop, min,
}
use jamm_vpn.Base.Octets.{to_be, from_be}
use jamm_vpn.Base.Utf8.{from_utf8_lossy}
use jamm_vpn.Error.{Result, ok, err}
use jamm_vpn.Addr.{v4, v6, Target, domain, socket}

pub data UdpError : Type 0 where
  unexpected_eof unknown_atyp panicked : UdpError

-- The error `short`.
abbrev pub short {ℓ} : {A : Type ℓ} → Result UdpError A
short = err unexpected_eof

-- The branch of a domain name: the datagram, and what stands behind its first four bytes.
unfoldable pub parse_host : ℕ → List ℕ → List ℕ → Result UdpError (ℕ × Target × ℕ)
parse_host frag buf [] = err panicked
parse_host frag buf (len ∷ tail) =
    let end = 5 + len + 2 in
    if ltb (length buf) end
    then short
    else ok (
      frag,
      domain (from_utf8_lossy (take len (drop 5 buf))) (from_be (take 2 (drop (5 + len) buf))),
      end,
    )

unfoldable pub parse_fields : ℕ → ℕ → List ℕ → List ℕ → Result UdpError (ℕ × Target × ℕ)
parse_fields frag atyp buf rest =
    if atyp == 0x01
    then (if ltb (length buf) 10
        then short
        else ok
            (frag, socket (v4 (from_be (take 4 (drop 4 buf)))) (from_be (take 2 (drop 8 buf))), 10))
    else if atyp == 0x04
    then (if ltb (length buf) 22
        then short
        else ok (
          frag,
          socket (v6 (from_be (take 16 (drop 4 buf)))) (from_be (take 2 (drop 20 buf))),
          22,
        ))
    else if atyp == 0x03
    then parse_host frag buf rest
    else err unknown_atyp

unfoldable pub parse_udp_datagram : List ℕ → Result UdpError (ℕ × Target × ℕ)
parse_udp_datagram (r0 ∷ r1 ∷ frag ∷ atyp ∷ rest) =
    parse_fields frag atyp (r0 ∷ r1 ∷ frag ∷ atyp ∷ rest) rest
parse_udp_datagram _ = short

-- RSV and FRAG, the address, the payload.
unfoldable pub encode_udp_datagram : Target → List ℕ → List ℕ
encode_udp_datagram (socket (v4 a) p) payload =
    0 ∷ 0 ∷ 0 ∷ 0x01 ∷ (to_be 4 a ++ (to_be 2 p ++ payload))
encode_udp_datagram (socket (v6 a) p) payload =
    0 ∷ 0 ∷ 0 ∷ 0x04 ∷ (to_be 16 a ++ (to_be 2 p ++ payload))
encode_udp_datagram (domain host p) payload =
    let len = min (length host) 255 in
    0 ∷ 0 ∷ 0 ∷ 0x03 ∷ len % 256 ∷ (take len host ++ (to_be 2 p ++ payload))
