-- ===== src/WireGuard/Obfs/Canonical.antt =====
-- What `wrap` and `unwrap` give for any settings, packet and datagram.
use mathlib.Core.Path.{subst}
use mathlib.Core.Option.{none-ne-some, some-injective}
use jamm_vpn.Base.{
  ℕ, zero, suc, ◌+◌, ◌-◌, ◌≤◌, ◌≡◌, ◌⊎◌, refl, sym, ◌∙◌, ap, inl, inr, Bool, true, false, not, none,
  some, Option, List, [], ◌∷◌, ◌++◌, ltb, leb, ◌==◌, ◌&&◌, ◌||◌, if◌then◌else◌, arith, length, take,
  drop, All, Bool-cases, length-append, length-take, length-drop, take_front, contradiction, nth,
}
use jamm_vpn.Base.Octets.{to_le, length-to_le}
use jamm_vpn.WireGuard.Obfs.{
  Blake2s, Rng, AwgObfuscation, AwgObfs, t_init, t_resp, len_init, len_resp, mac1_key, fix_mac1,
  s_for, undress, recognised, unwrap, unwrap_kinds, kinds, Kind, junk, junk_size, is_identity, new,
  wrap,
}

-- The packet starts with the kind's type and has its size.
abbrev pub IsCanonical : List ℕ → Kind → Type 0
IsCanonical pkt (t, fixed, is_transport) =
    (take 4 pkt ≡ to_le 4 t)
    × ((if is_transport then leb fixed (length pkt) else length pkt == fixed) ≡ true)

take_within :
    (k n : ℕ) (xs ys : List ℕ) → k ≤ n → n ≤ length xs → take k (take n xs ++ ys) ≡ take k xs
take_within zero n xs ys small fits = refl
take_within (suc k) zero xs ys small fits = absurd (omega (arith, small))
take_within (suc k) (suc n) [] ys small fits = absurd (omega (arith, fits))
take_within (suc k) (suc n) (x ∷ xs) ys small fits =
    ap (λ t. x ∷ t) (take_within k n xs ys (omega (arith, small)) (omega (arith, fits)))

hand_size : (n : ℕ) → (not (n == len_init) && not (n == len_resp)) ≡ false → 92 ≤ n
hand_size n h = ground (arith, h)

module _ (B : Blake2s) (tagged : (k m : List ℕ) → length (B.mac k m) ≡ 16) (key : List ℕ) where
  fix_mac1-length : (msg : List ℕ) → length (fix_mac1 B key msg) ≡ length msg
  unfolding fix_mac1
  fix_mac1-length msg =
      elim (Bool-cases (not (length msg == len_init) && not (length msg == len_resp))) [
        | inl other ↦ rw other refl
        | inr hand ↦
            let big = hand_size (length msg) hand in
            let off = length msg - 32 in
            let tag = B.mac (mac1_key B key) (take off msg) in
            rw hand (
              omega (
                arith,
                big,
                length-append (take off msg) (tag ++ drop (off + 16) msg),
                length-append tag (drop (off + 16) msg),
                length-take off msg,
                length-drop (off + 16) msg,
                tagged (mac1_key B key) (take off msg),
              ))
      ]

  fix_mac1-type : (msg : List ℕ) → take 4 (fix_mac1 B key msg) ≡ take 4 msg
  unfolding fix_mac1
  fix_mac1-type msg =
      elim (Bool-cases (not (length msg == len_init) && not (length msg == len_resp))) [
        | inl other ↦ rw other refl
        | inr hand ↦
            let big = hand_size (length msg) hand in
            let off = length msg - 32 in
            rw hand (
              take_within 4 off msg (B.mac (mac1_key B key) (take off msg) ++ drop (off + 16) msg)
                (omega (arith, big)) (omega arith))
      ]

  module _ (a : AwgObfuscation) (dg : List ℕ) (t : ℕ) (enough : s_for a t + 4 ≤ length dg) where
    abbrev bare : List ℕ
    bare = to_le 4 t ++ drop 4 (drop (s_for a t) dg)

    length-bare : length bare ≡ length dg - s_for a t
    length-bare = omega (
      arith,
      enough,
      length-append (to_le 4 t) (drop 4 (drop (s_for a t) dg)),
      length-to_le 4 t,
      length-drop 4 (drop (s_for a t) dg),
      length-drop (s_for a t) dg,
    )

    bare_type : take 4 bare ≡ to_le 4 t
    bare_type = take_front 4 (to_le 4 t) (drop 4 (drop (s_for a t) dg)) (length-to_le 4 t)

    undress_both :
        (take 4 (undress B a key dg t) ≡ to_le 4 t)
        × (length (undress B a key dg t) ≡ length dg - s_for a t)
    unfolding undress
    undress_both = elim (Bool-cases (t == t_init || t == t_resp)) [
      | inl hand ↦ rw hand (fix_mac1-type bare ∙ bare_type, fix_mac1-length bare ∙ length-bare)
      | inr plain ↦ rw plain (bare_type, length-bare)
    ]

  -- What the tests of a kind say of the datagram.
  recognised_size :
      (a : AwgObfuscation) (dg : List ℕ) (t fixed : ℕ) (is_transport : Bool)
      → recognised a dg (t, fixed, is_transport) ≡ true
      → (s_for a t + 4 ≤ length dg)
        × ((if is_transport
              then leb (s_for a t + fixed) (length dg)
              else (length dg == s_for a t + fixed))
            ≡ true)
  unfolding recognised
  recognised_size a dg t fixed is_transport h =
      elim (Bool-cases (ltb (length dg) (s_for a t + 4))) [
        | inl short ↦ contradiction (sym (rw short at h))
        | inr enough ↦
            elim (Bool-cases (
              if is_transport
              then leb (s_for a t + fixed) (length dg)
              else (length dg == s_for a t + fixed))) [
                | inl fits ↦ (ground (arith, enough), fits)
                | inr differs ↦ contradiction (sym (rw (enough, differs) at h))
              ]
      ]

  undress-IsCanonical :
      (a : AwgObfuscation) (dg : List ℕ) (t fixed : ℕ) (is_transport : Bool)
      → recognised a dg (t, fixed, is_transport) ≡ true
      → IsCanonical (undress B a key dg t) (t, fixed, is_transport)
  undress-IsCanonical a dg t fixed true h =
      let (enough, fits) = recognised_size a dg t fixed true h in
      let (type, len) = undress_both a dg t enough in (type, ground (arith, len, fits))
  undress-IsCanonical a dg t fixed false h =
      let (enough, fits) = recognised_size a dg t fixed false h in
      let (type, len) = undress_both a dg t enough in (type, ground (arith, len, fits, enough))

  unwrap_kinds-IsCanonical :
      (a : AwgObfuscation) (dg pkt : List ℕ) (ks : List Kind)
      → unwrap_kinds B a key dg ks ≡ some pkt
      → (i : ℕ) × (k : Kind) × (nth i ks ≡ some k) × IsCanonical pkt k
  unwrap_kinds-IsCanonical a dg pkt [] h = absurd (none-ne-some pkt h)
  unwrap_kinds-IsCanonical a dg pkt ((t, fixed, is_transport) ∷ ks) h =
      elim (Bool-cases (recognised a dg (t, fixed, is_transport))) [
        | inl known ↦ (
          0,
          (t, fixed, is_transport),
          refl,
          subst (λ p. IsCanonical p (t, fixed, is_transport))
              (some-injective (undress B a key dg t) pkt (rw known at h))
              (undress-IsCanonical a dg t fixed is_transport known),
        )
        | inr other ↦
            let (i, k, at_i, canonical) = unwrap_kinds-IsCanonical a dg pkt ks (rw other at h) in
            (suc i, k, at_i, canonical)
      ]

-- With settings that are not plain WireGuard's, every datagram is dropped or gives a packet of one
-- of the four types: the type stands in its first bytes, and the packet has the type's size, or at
-- least its least size, whatever the datagram held.
pub unwrap-IsCanonical :
    (B : Blake2s) (a : AwgObfuscation) (o : AwgObfs) (dg pkt : List ℕ)
    → ((k m : List ℕ) → length (B.mac k m) ≡ 16)
    → o.params ≡ some a
    → unwrap B o dg ≡ some pkt
    → (i : ℕ) × (k : Kind) × (nth i kinds ≡ some k) × IsCanonical pkt k
unfolding unwrap
unwrap-IsCanonical B a o dg pkt tagged set h =
    unwrap_kinds-IsCanonical B tagged o.our_public a dg pkt kinds (rw set at h)

-- Settings that are plain WireGuard's, or none, send every packet as the one datagram that it is,
-- and take every datagram for the packet that it is.
pub wrap_plain :
    (B : Blake2s) (R : Rng) (params : Option AwgObfuscation) (ours peers : List ℕ)
    (packet dg : List ℕ)
    → (params ≡ none) ⊎ ((a : AwgObfuscation) × (params ≡ some a) × (is_identity a ≡ true))
    → (wrap B R (new params ours peers) packet ≡ packet ∷ [])
      × (unwrap B (new params ours peers) dg ≡ some dg)
unfolding wrap unwrap new
wrap_plain B R params ours peers packet dg plain = elim plain [
  | inl nothing ↦ rw nothing (refl, refl)
  | inr (a, given, same) ↦ rw (given, same) (refl, refl)
]

module _ (R : Rng) (a : AwgObfuscation)
    (ranges : (k lo hi : ℕ) → lo ≤ hi → (lo ≤ R.range k lo hi) × (R.range k lo hi ≤ hi)) where
  abbrev IsJunk : List ℕ → Type 0
  IsJunk p = (a.jmin ≤ length p) × ((length p ≤ a.jmin) ⊎ (length p ≤ a.jmax))

  junk_size_within :
      (k : ℕ)
      → (a.jmin ≤ junk_size R a k) × ((junk_size R a k ≤ a.jmin) ⊎ (junk_size R a k ≤ a.jmax))
  junk_size_within k = elim (Bool-cases (leb a.jmax a.jmin)) [
    | inl narrow ↦
        let none_between : ltb a.jmin a.jmin ≡ false = ground arith in
        rw (narrow, none_between) (omega arith, inl (omega arith))
    | inr wide ↦
        let between : ltb a.jmin a.jmax ≡ true = ground (arith, wide) in
        let (low, high) = ranges k a.jmin a.jmax (ground (arith, wide)) in
        rw (wide, between) (low, inr high)
  ]

  junk-IsJunk :
      (n : ℕ)
      → ((k n : ℕ) → length (R.fill k n) ≡ n)
      → (length (junk R a n) ≡ n) × All IsJunk (junk R a n)
  junk-IsJunk zero fills = (refl, tt)
  junk-IsJunk (suc k) fills =
      let (count, rest) = junk-IsJunk k fills in
      (
        omega (arith, count),
        (
          subst (λ m. (a.jmin ≤ m) × ((m ≤ a.jmin) ⊎ (m ≤ a.jmax)))
              (sym (fills k (junk_size R a k))) (junk_size_within k),
          rest,
        ),
      )
