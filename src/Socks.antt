-- ===== src/Socks.antt =====
-- SOCKS5 at both ends: the server of crates/net/src/inbound.rs and the client of
-- crates/net/src/outbound.rs. A side of a connection is a program over what the other side sends:
-- it yields what it wrote, and its result with what it left unread, or its error. The stream ends
-- behind the input. Copying the connection's data is left out.
pub mod Agree
pub mod Wrap
use jamm_vpn.Base.{
  ℕ, zero, suc, ◌+◌, ◌%◌, ◌≡◌, Bool, true, false, not, Option, none, some, List, [], ◌∷◌, ◌++◌, ltb,
  ◌==◌, if◌then◌else◌, length, take, drop,
}
use jamm_vpn.Base.Octets.{to_be, from_be}
use jamm_vpn.Base.Text.{Str}
use jamm_vpn.Base.Utf8.{is_utf8}
use jamm_vpn.Error.{Result, ok, err}
use jamm_vpn.Addr.{IpAddr, v4, v6, Target, domain, socket}

pub data SocksError : Type 0 where
  unexpected_eof bad_version bad_domain unknown_atyp unsupported_command connect_failed
        auth_rejected no_method connect_rejected :
      SocksError

abbrev pub Io : Type 0 → Type 0
Io A = List ℕ → List ℕ × Result SocksError (A × List ℕ)

abbrev pub pure : {A : Type 0} → A → Io A
pure a s = ([], ok (a, s))

abbrev pub fail : {A : Type 0} → SocksError → Io A
fail e s = ([], err e)

-- What a step wrote stands before what the rest writes.
abbrev pub continue :
    {A B : Type 0}
    → (A → Io B)
    → List ℕ × Result SocksError (A × List ℕ)
    → List ℕ × Result SocksError (B × List ℕ)
continue f (out, err e) = (out, err e)
continue f (out, ok (a, s)) = (out ++ (f a s).0, (f a s).1)

infixl 5 ◌>>=◌
abbrev pub ◌>>=◌ : {A B : Type 0} → Io A → (A → Io B) → Io B
(m >>= f) s = continue f (m s)

unfoldable pub read_exact : ℕ → Io (List ℕ)
read_exact n s =
    if ltb (length s) n then ([], err unexpected_eof) else ([], ok (take n s, drop n s))

abbrev pub write_all : List ℕ → Io (List ℕ)
write_all bs s = (bs, ok ([], s))

-- One byte and a port: `read_exact` of 1 and 2 bytes.
unfoldable pub read_uint : ℕ → Io ℕ
read_uint n = do bs ← read_exact n; pure (from_be bs)

pub data SocksRequest : Type 0 where
  connect : Target → SocksRequest
  udp_associate : SocksRequest

-- An answer with the address 0.0.0.0:0.
unfoldable pub reply : ℕ → List ℕ
reply rep = 0x05 ∷ rep ∷ 0x00 ∷ 0x01 ∷ 0 ∷ 0 ∷ 0 ∷ 0 ∷ 0 ∷ 0 ∷ []

unfoldable pub reply_addr : ℕ → IpAddr → ℕ → List ℕ
reply_addr rep (v4 a) port = 0x05 ∷ rep ∷ 0x00 ∷ 0x01 ∷ (to_be 4 a ++ to_be 2 port)
reply_addr rep (v6 a) port = 0x05 ∷ rep ∷ 0x00 ∷ 0x04 ∷ (to_be 16 a ++ to_be 2 port)

-- `String::from_utf8` of a domain, and its port.
unfoldable pub read_domain : Io Target
unfolding read_uint
read_domain = do
  len ← read_uint 1
  host ← read_exact len
  (if is_utf8 host then (do port ← read_uint 2; pure (domain host port)) else fail bad_domain)

unfoldable pub read_target : ℕ → Io Target
unfolding read_uint read_domain
read_target atyp =
    if atyp == 0x01
    then (do a ← read_exact 4; port ← read_uint 2; pure (socket (v4 (from_be a)) port))
    else if atyp == 0x04
    then (do a ← read_exact 16; port ← read_uint 2; pure (socket (v6 (from_be a)) port))
    else if atyp == 0x03
    then read_domain
    else fail unknown_atyp

unfoldable pub by_command : ℕ → Target → Io SocksRequest
unfolding reply
by_command cmd addr =
    if cmd == 0x01
    then pure (connect addr)
    else if cmd == 0x03
    then pure udp_associate
    else (do _ ← write_all (reply 0x07); fail unsupported_command)

-- A byte of an array that is longer than the index.
abbrev pub octet : ℕ → List ℕ → ℕ
octet i [] = 0
octet zero (b ∷ bs) = b
octet (suc i) (b ∷ bs) = octet i bs

-- What stands behind a greeting of version 5.
unfoldable pub read_request : ℕ → Io SocksRequest
unfolding read_target by_command
read_request nmethods = do
  methods ← read_exact nmethods
  _ ← write_all (0x05 ∷ 0x00 ∷ [])
  rhead ← read_exact 4
  addr ← read_target (octet 3 rhead)
  by_command (octet 1 rhead) addr

unfoldable pub socks_handshake : Io SocksRequest
unfolding read_request
socks_handshake = do
  head ← read_exact 2
  (if octet 0 head == 0x05 then read_request (octet 1 head) else fail bad_version)

-- The answer of `relay_through`, whose `opens` says whether the outbound reaches a target.
unfoldable pub relay_through : (Target → Bool) → Target → Io (Option Target)
unfolding reply
relay_through opens target =
    if opens target
    then (do _ ← write_all (reply 0x00); pure (some target))
    else (do _ ← write_all (reply 0x05); fail connect_failed)

-- A connection of the server, up to the target whose data it copies.
unfoldable pub handle_client : (Target → Bool) → Io (Option Target)
unfolding socks_handshake relay_through reply
handle_client opens = do
  request ← socks_handshake
  elim request [
    | connect target ↦ relay_through opens target
    | udp_associate ↦ do _ ← write_all (reply 0x07); pure none
  ]

pub record Socks5Config : Type 0 where
  pub username : Option Str
  pub password : Option Str

abbrev or_default : Option Str → Str
or_default none = []
or_default (some s) = s

unfoldable pub is_some : Option Str → Bool
is_some none = false
is_some (some s) = true

-- The user's name and password, and whether the server accepts them.
unfoldable pub authenticate : Socks5Config → Io (List ℕ)
authenticate cfg = do
  let user = or_default cfg.username
  let pass = or_default cfg.password
  _ ← write_all (0x01 ∷ length user % 256 ∷ (user ++ (length pass % 256 ∷ pass)))
  ar ← read_exact 2
  (if octet 1 ar == 0x00 then pure [] else fail auth_rejected)

-- The method that the server chose.
unfoldable pub choose_method : Socks5Config → ℕ → Io (List ℕ)
unfolding authenticate
choose_method cfg method =
    if method == 0x00 then pure [] else if method == 0x02 then authenticate cfg else fail no_method

unfoldable pub encode_target : Target → List ℕ
encode_target (domain host p) = 0x03 ∷ length host % 256 ∷ (host ++ to_be 2 p)
encode_target (socket (v4 a) p) = 0x01 ∷ (to_be 4 a ++ to_be 2 p)
encode_target (socket (v6 a) p) = 0x04 ∷ (to_be 16 a ++ to_be 2 p)

unfoldable pub bound_length : ℕ → Io ℕ
unfolding read_uint
bound_length atyp =
    if atyp == 0x01
    then pure 4
    else if atyp == 0x04
    then pure 16
    else if atyp == 0x03
    then read_uint 1
    else fail unknown_atyp

-- The server's answer to the request.
unfoldable pub read_reply : Io (List ℕ)
unfolding bound_length
read_reply = do
  head ← read_exact 4
  (if octet 1 head == 0x00
      then (do len ← bound_length (octet 3 head); read_exact (len + 2))
      else fail connect_rejected)

unfoldable pub socks5_connect : Socks5Config → Target → Io (List ℕ)
unfolding is_some choose_method encode_target read_reply
socks5_connect cfg target = do
  _ ← write_all (0x05 ∷ 0x01 ∷ (if is_some cfg.username then 0x02 else 0x00) ∷ [])
  method ← read_exact 2
  _ ← (if octet 0 method == 0x05 then choose_method cfg (octet 1 method) else fail bad_version)
  _ ← write_all (0x05 ∷ 0x01 ∷ 0x00 ∷ encode_target target)
  read_reply
