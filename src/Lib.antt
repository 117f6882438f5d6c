-- ===== src/Lib.antt =====
-- JammVPN: split tunnelling, routing and fake addresses.
--
-- The program sends each connection of a computer through a VPN or past it. A driver intercepts a
-- connection and asks the split engine (crates/core/src/split) whether it goes to the tunnel; the
-- tunnel's engine (crates/net/src/engine.rs) then chooses an outbound by the user's rules
-- (crates/core/src/routing), which name domains, networks, and categories of the geo databases
-- (crates/core/src/geo). In TUN mode domains are answered with fake addresses
-- (crates/net/src/fakeip.rs), which the engine turns back into domains.
--
-- The files, by the code they model:
--   Base        lists, bits, texts as their bytes, UTF-8 and maps: what the code uses of Rust's
--               standard library
--   Base64      crates/core/src/base64.rs
--   Error       crates/core/src/error.rs
--   Addr        std::net::IpAddr with its parser (Addr/Parse), crates/net/src/target.rs
--   Socks       crates/net/src/inbound.rs, and the SOCKS5 client of crates/net/src/outbound.rs
--   Split       Cidr: crates/core/src/split/cidr.rs; Config: split/config.rs; Engine: split/engine.rs
--   Routing     Domain: crates/core/src/routing/domain.rs; Rule: routing/rule.rs and engine.rs
--   FakeIp      crates/net/src/fakeip.rs
--   Dns         crates/net/src/dns/message.rs; Dns/Cache: the cache of dns/mod.rs and its callers
--   Geo         Protobuf: crates/core/src/geo/protobuf.rs; Site: geo/geosite.rs; Ip: geo/geoip.rs
--   Engine      crates/net/src/engine.rs: the criteria of a rule and the outbound of an action;
--               Engine/Walk: `route` and `resolve_target`
--   Tuic        crates/net/src/tuic/proto.rs: commands, addresses and UDP fragments
--   Hysteria2   crates/net/src/hysteria2/proto.rs: QUIC integers and UDP datagrams;
--               Hysteria2/Stream: requests and responses; an address is the text of the target
--   Trojan      crates/net/src/trojan.rs; the hash of the password is a parameter
--   Udp         crates/net/src/udp.rs: datagrams of SOCKS5 UDP ASSOCIATE; Udp/Association: the loop
--               of an association and the tasks of its flows
--   Vless       crates/net/src/vless.rs
--   Shadowsocks crates/net/src/shadowsocks: Crypto: crypto.rs; Udp: udp.rs; Stream: stream.rs
--               (Stream/Writer: the half that writes); Replay and Session: ss2022_udp.rs;
--               Outbound: the keys and addresses of outbound.rs; the ciphers and hashes are the
--               record `Primitives` of parameters
--   WireGuard   Obfs: crates/net/src/wireguard/obfs.rs and the settings of wireguard/config.rs
--   Tests       concrete runs
-- The folder of a file holds what is proved of it.
--
-- State is passed on: `allocate` maps a pool to the pool after it, the walk of `route` keeps the
-- resolver's answer and the pending block in a record. Machine integers are natural numbers with
-- their wrap-around written out (% 2 ^ w). Errors are values of Result or Option. A reader of
-- protobuf is what is left of its buffer. The loops of the geo databases run on fuel, the length of
-- the message, which is enough since every round reads at least a byte; so do the chunks of a UDP
-- payload. A cache that calls share is a relation between systems, in which the steps of the calls
-- come in any order and a call may be dropped, as the timeout of the HTTP side of engine.rs does; an association is a function from its events, which carry what the system and
-- the engine answer; a side of a SOCKS5 handshake is a program over the bytes of the other side; the
-- stream below a Shadowsocks stream is the list of what it answers to each poll. The loop of `fill`
-- runs on as much fuel as it needs bytes, which is enough since every round that goes on adds one,
-- the loop of `evp_bytes_to_key` on the key's length; `drain`, the reader's client, on a poll for
-- each byte and each wait, and one more. The
-- resolver of the engine is a parameter, a function from a name to addresses or a failure; so are the
-- outbounds other than the direct one, a type, and whether a channel takes a payload, a test. The
-- bound of 129 rounds on a name in a DNS message is the program's own.
--
-- Not modelled: sockets, files, logs, the user interface, the Windows drivers, cryptography and the
-- other protocols of the outbounds.
pub mod Base
pub mod Base64
pub mod Error
pub mod Addr
pub mod Shadowsocks
pub mod Socks
pub mod WireGuard
pub mod Split
pub mod Routing
pub mod FakeIp
pub mod Geo
pub mod Dns
pub mod Engine
pub mod Tuic
pub mod Hysteria2
pub mod Trojan
pub mod Udp
pub mod Vless
pub mod Tests
