-- ===== src/WireGuard/Obfs/Messages.antt =====
-- Wrapping and unwrapping a whole message, between two sides with the same settings.
use mathlib.Core.Path.{subst}
use jamm_vpn.Base.{
  ℕ, ◌+◌, ◌^◌, ◌<◌, ◌≤◌, ◌≡◌, ◌≢◌, ◌⊎◌, refl, sym, ◌∙◌, ap, inl, inr, true, false, some, List, [],
  ◌∷◌, ◌++◌, ltb, ◌==◌, ◌&&◌, ◌||◌, if◌then◌else◌, arith, length, take, length-append, take_front,
  drop_front,
}
use jamm_vpn.Base.Octets.{to_le, from_le, length-to_le, from_le-to_le}
use jamm_vpn.WireGuard.Obfs.{
  Blake2s, Rng, AwgObfuscation, AwgObfs, t_init, t_resp, t_cookie, t_data, len_init, len_resp,
  len_cookie, mac1_key, h_for, s_for, junk, dress, undress, recognised, wrap, unwrap,
}
use jamm_vpn.WireGuard.Obfs.RoundTrip.{
  IsObfuscation, IsRng, handshake, recognised_fixed, recognised_least, undress-pad, dress-wire,
  undress-wire, wire, assoc, length-rest, length-pad,
}

empty_of : (bs : List ℕ) → length bs ≡ 0 → bs ≡ []
empty_of [] e = refl
empty_of (b ∷ bs) e = absurd (omega (arith, e))

module _ (B : Blake2s) (R : Rng) (a : AwgObfuscation) (s : AwgObfs) (t : ℕ) (rest : List ℕ)
    (with_a : s.params ≡ some a) (small : t < 2 ^ 32) where
  abbrev pad : List ℕ
  pad = R.fill a.jc (s_for a t)

  -- The packets before the message.
  abbrev before : List (List ℕ)
  before = if t == t_init && ltb 0 a.jc then junk R a a.jc else []

  wrap_typed :
      wrap B R s (to_le 4 t ++ rest)
      ≡ before ++ (dress B a s.peer_public pad (to_le 4 t ++ rest) t ∷ [])
  unfolding wrap
  wrap_typed =
      let long : ltb (length (to_le 4 t ++ rest)) 4 ≡ false =
        ground (arith, length-append (to_le 4 t) rest, length-to_le 4 t) in
      let typed : from_le (take 4 (to_le 4 t ++ rest)) ≡ t =
        ap from_le (take_front 4 (to_le 4 t) rest (length-to_le 4 t))
        ∙ from_le-to_le 4 t (omega (arith, small)) in
      rw (with_a, long, typed) refl

init_fits : (a : AwgObfuscation) → IsObfuscation a → (h_for a 1 < 2 ^ 32) × (h_for a 2 < 2 ^ 32)
unfolding h_for
init_fits a (h1, h2, h3, h4) = (h1, h2)

transport_fits :
    (a : AwgObfuscation) → IsObfuscation a → (h_for a 3 < 2 ^ 32) × (h_for a 4 < 2 ^ 32)
unfolding h_for
transport_fits a (h1, h2, h3, h4) = (h3, h4)

unwrap_resp_size :
    (a : AwgObfuscation) (dg : List ℕ)
    → length dg ≢ a.s1 + len_init
    → recognised a dg (t_init, len_init, false) ≡ false
unfolding recognised s_for
unwrap_resp_size a dg apart = ground (arith, apart)

module _ (B : Blake2s) (R : Rng) (a : AwgObfuscation) (s : AwgObfs) (t : ℕ) (body mac2 : List ℕ)
    (tagged : (k m : List ℕ) → length (B.mac k m) ≡ 16) (drawn : IsRng R)
    (fits : h_for a t < 2 ^ 32) (size : (length body ≡ 112) ⊎ (length body ≡ 56))
    (m2 : length mac2 ≡ 16) (hand : (t == t_init || t == t_resp) ≡ true) (small : t < 2 ^ 32) where
  abbrev key : List ℕ
  key = s.peer_public

  abbrev datagram : List ℕ
  datagram =
      wire B tagged a key (R.fill a.jc (s_for a t)) t fits (drawn a.jc (s_for a t)) body mac2 size
        m2 hand

  sent_handshake :
      s.params ≡ some a
      → (first : List (List ℕ)) × (wrap B R s (handshake B key t body mac2)
          ≡ first ++ (datagram ∷ []))
  sent_handshake with_a =
      let padded = drawn a.jc (s_for a t) in
      let pad = R.fill a.jc (s_for a t) in
      let parts = assoc B tagged a key pad t fits padded body mac2 size m2 hand t in
      let behind = body ++ (B.mac (mac1_key B key) (to_le 4 t ++ body) ++ mac2) in
      (
        before B R a s t behind with_a small,
        ap (wrap B R s) parts
            ∙ wrap_typed B R a s t behind with_a small
            ∙ ap (λ p. before B R a s t behind with_a small ++ (dress B a key pad p t ∷ []))
                (sym parts)
            ∙ ap (λ d. before B R a s t behind with_a small ++ (d ∷ []))
                (dress-wire B tagged a key pad t fits padded body mac2 size m2 hand),
      )

  undressed : undress B a key datagram t ≡ handshake B key t body mac2
  undressed =
      undress-wire B tagged a key (R.fill a.jc (s_for a t)) t fits (drawn a.jc (s_for a t)) body
        mac2 size m2 hand

  behind_length :
      length (body ++ (B.mac (mac1_key B key) (to_le 4 (h_for a t) ++ body) ++ mac2))
      ≡ length body + 32
  behind_length =
      length-rest B tagged a key (R.fill a.jc (s_for a t)) t fits (drawn a.jc (s_for a t)) body mac2
        size m2 hand

  recognised-datagram :
      (fixed : ℕ) → length body + 36 ≡ fixed → recognised a datagram (t, fixed, false) ≡ true
  recognised-datagram fixed e =
      recognised_fixed B a key (R.fill a.jc (s_for a t)) t fits (drawn a.jc (s_for a t))
        (body ++ (B.mac (mac1_key B key) (to_le 4 (h_for a t) ++ body) ++ mac2)) fixed
        (omega (arith, e, behind_length))

  length-datagram : length datagram ≡ s_for a t + length body + 36
  length-datagram = omega (
    arith,
    behind_length,
    length-pad B a key (R.fill a.jc (s_for a t)) t fits (drawn a.jc (s_for a t))
        (body ++ (B.mac (mac1_key B key) (to_le 4 (h_for a t) ++ body) ++ mac2)),
  )

-- The last datagram that the sender makes of a handshake message comes back as that message.
abbrev Returns : Blake2s → Rng → AwgObfuscation → AwgObfs → AwgObfs → ℕ → List ℕ → List ℕ → Type 0
Returns B R a sender receiver t body mac2 =
    (first : List (List ℕ)) × (dg : List ℕ) × (wrap B R sender
        (handshake B sender.peer_public t body mac2)
      ≡ first ++ (dg ∷ []))
    × (unwrap B receiver dg ≡ some (handshake B sender.peer_public t body mac2))

module _ (B : Blake2s) (R : Rng) (a : AwgObfuscation) (sender receiver : AwgObfs)
    (body mac2 : List ℕ) (tagged : (k m : List ℕ) → length (B.mac k m) ≡ 16) (drawn : IsRng R)
    (headers : IsObfuscation a) (sends : sender.params ≡ some a)
    (receives : receiver.params ≡ some a) (keys : receiver.our_public ≡ sender.peer_public)
    (m2 : length mac2 ≡ 16) where
  init_Returns : length body ≡ 112 → Returns B R a sender receiver 1 body mac2
  unfolding unwrap
  init_Returns long =
      let fits = (init_fits a headers).0 in
      let small : 1 < 2 ^ 32 = omega arith in
      let (before, sent) =
        sent_handshake B R a sender 1 body mac2 tagged drawn fits (inl long) m2 refl small sends in
      let known =
        recognised-datagram B R a sender 1 body mac2 tagged drawn fits (inl long) m2 refl small 148
          (omega (arith, long)) in
      (
        before,
        datagram B R a sender 1 body mac2 tagged drawn fits (inl long) m2 refl small,
        sent,
        rw (receives, keys, known)
            (ap some
              (undressed B R a sender 1 body mac2 tagged drawn fits (inl long) m2 refl small)),
      )

  resp_Returns :
      length body ≡ 56 → a.s1 + 148 ≢ a.s2 + 92 → Returns B R a sender receiver 2 body mac2
  unfolding unwrap s_for
  resp_Returns short apart =
      let fits = (init_fits a headers).1 in
      let small : 2 < 2 ^ 32 = omega arith in
      let (before, sent) =
        sent_handshake B R a sender 2 body mac2 tagged drawn fits (inr short) m2 refl small sends in
      let dg = datagram B R a sender 2 body mac2 tagged drawn fits (inr short) m2 refl small in
      let len =
        length-datagram B R a sender 2 body mac2 tagged drawn fits (inr short) m2 refl small in
      let other = unwrap_resp_size a dg (λ e. apart (omega (arith, e, len, short))) in
      let known =
        recognised-datagram B R a sender 2 body mac2 tagged drawn fits (inr short) m2 refl small 92
          (omega (arith, short)) in
      (
        before,
        dg,
        sent,
        rw (receives, keys, other, known)
            (ap some
              (undressed B R a sender 2 body mac2 tagged drawn fits (inr short) m2 refl small)),
      )

-- Two sides that share the settings, the receiver's key being the one that the sender names: a
-- handshake message of either type, with a MAC1 for the receiver, comes back from the last datagram
-- that the sender makes of it, provided that the two types differ in the length of their datagrams.
pub unwrap-wrap-handshake :
    (B : Blake2s) (R : Rng) (a : AwgObfuscation) (sender receiver : AwgObfs) (t : ℕ)
    (body mac2 : List ℕ)
    → ((k m : List ℕ) → length (B.mac k m) ≡ 16)
    → IsRng R
    → IsObfuscation a
    → sender.params ≡ some a
    → receiver.params ≡ some a
    → receiver.our_public ≡ sender.peer_public
    → ((t ≡ 1) × (length body ≡ 112)) ⊎ ((t ≡ 2) × (length body ≡ 56))
    → length mac2 ≡ 16
    → a.s1 + 148 ≢ a.s2 + 92
    → (first : List (List ℕ)) × (dg : List ℕ) × (wrap B R sender
          (handshake B sender.peer_public t body mac2)
        ≡ first ++ (dg ∷ []))
      × (unwrap B receiver dg ≡ some (handshake B sender.peer_public t body mac2))
unwrap-wrap-handshake B R a sender receiver t body mac2 tagged drawn headers sends receives keys
      kind m2 apart =
    elim kind [
      | inl (first, long) ↦
          subst (λ n. Returns B R a sender receiver n body mac2) (sym first)
            (init_Returns B R a sender receiver body mac2 tagged drawn headers sends receives keys
              m2 long)
      | inr (second, short) ↦
          subst (λ n. Returns B R a sender receiver n body mac2) (sym second)
            (resp_Returns B R a sender receiver body mac2 tagged drawn headers sends receives keys
              m2 short apart)
    ]

-- Two sides that share the settings: a packet of data is sent as one datagram, and comes back from
-- it unless the datagram looks like a message of an earlier type, in length and in header.
pub unwrap-wrap_data :
    (B : Blake2s) (R : Rng) (a : AwgObfuscation) (sender receiver : AwgObfs) (rest : List ℕ)
    → IsRng R
    → IsObfuscation a
    → sender.params ≡ some a
    → receiver.params ≡ some a
    → 28 ≤ length rest
    → recognised a (to_le 4 a.h4 ++ rest) (t_init, len_init, false) ≡ false
    → recognised a (to_le 4 a.h4 ++ rest) (t_resp, len_resp, false) ≡ false
    → recognised a (to_le 4 a.h4 ++ rest) (t_cookie, len_cookie, false) ≡ false
    → (dg : List ℕ) × (wrap B R sender (to_le 4 t_data ++ rest) ≡ dg ∷ [])
      × (unwrap B receiver dg ≡ some (to_le 4 t_data ++ rest))
unfolding unwrap dress h_for s_for
unwrap-wrap_data B R a sender receiver rest drawn headers sends receives long first second third =
    let padded = drawn a.jc 0 in
    let bare : R.fill a.jc 0 ≡ [] = empty_of (R.fill a.jc 0) padded in
    let fits = (transport_fits a headers).1 in
    let known =
      recognised_least B a sender.peer_public [] 4 fits refl rest 32 (omega (arith, long)) in
    let dressed : dress B a sender.peer_public (R.fill a.jc 0) (to_le 4 4 ++ rest) 4
        ≡ to_le 4 a.h4 ++ rest =
      rw (bare, drop_front 4 (to_le 4 4) rest (length-to_le 4 4)) refl in
    (
      to_le 4 a.h4 ++ rest,
      wrap_typed B R a sender 4 rest sends (omega arith) ∙ ap (λ d. d ∷ []) dressed,
      rw (receives, first, second, third, known)
          (ap some (undress-pad B a receiver.our_public [] 4 fits refl rest)),
    )
