-- ===== src/Hysteria2/Stream.antt =====
-- crates/net/src/hysteria2/proto.rs: the request and the response on a stream. A reader is what is
-- left of its stream, which ends there; an address is its text.
use Prim.Native.Nat.{bit_and, bit_or}
use jamm_vpn.Base.{
  ℕ, zero, suc, ◌+◌, ◌*◌, ◌/◌, ◌%◌, ◌^◌, ◌≡◌, refl, ap, sym, inl, inr, Bool, none, some, List, [],
  ◌∷◌, ◌++◌, ltb, ◌==◌, arith, if◌then◌else◌, length, take, drop, Bool-cases,
}
use jamm_vpn.Base.Text.{Str}
use jamm_vpn.Base.Utf8.{from_utf8_lossy}
use jamm_vpn.Error.{Result, ok, err, ◌>>=◌}
use jamm_vpn.Hysteria2.{put_varint, extra_of, read_octets, read_varint_buf}

pub data StreamError : Type 0 where
  unexpected_eof long_message long_padding : StreamError

abbrev pub tcp_request_id : ℕ
tcp_request_id = 0x401

-- The loop of `read_varint`: `extra` bytes more.
unfoldable pub read_more : ℕ → ℕ → List ℕ → Result StreamError (ℕ × List ℕ)
read_more zero val r = ok (val, r)
read_more (suc extra) val [] = err unexpected_eof
read_more (suc extra) val (b ∷ r) = read_more extra (bit_or (val * 2 ^ 8 % 2 ^ 64) b) r

unfoldable pub read_varint : List ℕ → Result StreamError (ℕ × List ℕ)
read_varint [] = err unexpected_eof
read_varint (first ∷ r) = read_more (extra_of (first / 2 ^ 6)) (bit_and first 0x3f) r

unfoldable pub encode_tcp_request : Str → List ℕ
encode_tcp_request addr =
    put_varint tcp_request_id ++ (put_varint (length addr) ++ (addr ++ put_varint 0))

pub record TcpResponse : Type 0 where
  pub is_ok : Bool
  pub message : Str

unfoldable pub read_exact : ℕ → List ℕ → Result StreamError (List ℕ × List ℕ)
read_exact n r = if ltb (length r) n then err unexpected_eof else ok (take n r, drop n r)

unfoldable pub read_bounded_string : ℕ → List ℕ → Result StreamError (Str × List ℕ)
read_bounded_string len r =
    if ltb 4096 len
    then err long_message
    else (do (buf, r) ← read_exact len r; ok (from_utf8_lossy buf, r))

-- The padding is read in pieces of 1024 bytes, which together are `n` bytes.
unfoldable pub skip : ℕ → List ℕ → Result StreamError (List ℕ)
skip n r = if ltb (2 ^ 20) n then err long_padding else (do (_, r) ← read_exact n r; ok r)

-- Behind the status byte.
unfoldable pub read_response_rest : ℕ → List ℕ → Result StreamError (TcpResponse × List ℕ)
read_response_rest status r = do
  (msg_len, r) ← read_varint r
  (msg, r) ← read_bounded_string msg_len r
  (pad_len, r) ← read_varint r
  r ← skip pad_len r
  ok (record { is_ok = status == 0; message = msg }, r)

unfoldable pub read_tcp_response : List ℕ → Result StreamError (TcpResponse × List ℕ)
read_tcp_response [] = err unexpected_eof
read_tcp_response (status ∷ r) = read_response_rest status r

read_more_lem :
    (extra val : ℕ) (r : List ℕ)
    → read_more extra val r ≡ (
        if ltb (length r) extra
        then err unexpected_eof
        else ok (read_octets val (take extra r), drop extra r))
unfolding read_more read_octets
read_more_lem zero val r = ground arith
read_more_lem (suc extra) val [] = ground arith
read_more_lem (suc extra) val (b ∷ r) =
    ground (arith, read_more_lem extra (bit_or (val * 2 ^ 8 % 2 ^ 64) b) r)

one_more : (n : ℕ) → 1 + n ≡ suc n
one_more n = omega arith

drop_next : (n b : ℕ) (r : List ℕ) → drop (1 + n) (b ∷ r) ≡ drop n r
drop_next n b r = ap (λ m. drop m (b ∷ r)) (one_more n)

-- On a stream and in a buffer the integers are the same, of the same number of bytes: where the
-- buffer's reader has nothing, the stream ends too early.
pub read_varint-read_varint_buf :
    (r : List ℕ)
    → read_varint r
      ≡ elim (read_varint_buf r) [ none ↦ err unexpected_eof | some (v, n) ↦ ok (v, drop n r) ]
unfolding read_varint read_varint_buf
read_varint-read_varint_buf [] = refl
read_varint-read_varint_buf (first ∷ r) =
    let extra = extra_of (first / 2 ^ 6) in
    elim (Bool-cases (ltb (length r) extra)) [
      | inl short ↦ rw (read_more_lem extra (bit_and first 0x3f) r, short)
      | inr enough ↦
          rw (read_more_lem extra (bit_and first 0x3f) r, enough)
            (ap (λ rest. ok (read_octets (bit_and first 0x3f) (take extra r), rest))
              (sym (drop_next extra first r)))
    ]
