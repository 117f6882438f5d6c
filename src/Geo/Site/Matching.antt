-- ===== src/Geo/Site/Matching.antt =====
-- What a geosite category accepts, in terms of the normalised host.
use jamm_vpn.Base.{
  ◌≡◌, refl, ap, ◌⊎◌, inl, inr, ◌↔◌, true, not, ◌&&◌, ◌||◌, List, [], ◌∷◌, ◌++◌, arith, Bool-cases,
  any, is_empty,
}
use jamm_vpn.Base.Text.{Str, to_ascii_lowercase, trim_end_matches, contains}
use jamm_vpn.Routing.Domain.{normal_host}
use jamm_vpn.Geo.Site.{DomainSet, has, parent_in, set_matches}

-- The host is `d` or lies below it.
abbrev pub Below : Str → Str → Type 0
Below h d = (h ≡ d) ⊎ ((sub : Str) × (h ≡ sub ++ (b'.' ∷ d)))

parent_in→below :
    (set : List Str) (h : Str)
    → parent_in set h ≡ true
    → (sub : Str) × (d : Str) × (has set d ≡ true) × (h ≡ sub ++ (b'.' ∷ d))
unfolding parent_in
parent_in→below set [] e = cc
parent_in→below set (c ∷ h) e = elim (Bool-cases (parent_in set h)) [
  | inl t ↦
      let (sub, d, m, q) = parent_in→below set h t in (c ∷ sub, d, m, ap (λ (r : Str). c ∷ r) q)
  | inr f ↦ ([], h, ground arith, ground arith)
]

below→parent_in :
    (set : List Str) (sub d : Str) → has set d ≡ true → parent_in set (sub ++ (b'.' ∷ d)) ≡ true
unfolding parent_in
below→parent_in set [] d m = ground (arith, m)
below→parent_in set (c ∷ sub) d m = ground (arith, below→parent_in set sub d m)

has_nil : (d : Str) → ¬ (has [] d ≡ true)
unfolding has
has_nil d e = cc

-- The test of the suffixes, as the code makes it.
suffix_iff :
    (set : List Str) (h : Str)
    → ((not (is_empty set) && (has set h || parent_in set h)) ≡ true)
      ↔ ((d : Str) × (has set d ≡ true) × Below h d)
suffix_iff [] h = (λ e. cc, λ (d, m, b). absurd (has_nil d m))
suffix_iff (x ∷ set) h = (
  λ e. elim (Bool-cases (has (x ∷ set) h)) [
    | inl t ↦ (h, t, inl refl)
    | inr f ↦
        let (sub, d, m, q) = parent_in→below (x ∷ set) h (ground arith) in (d, m, inr (sub, q))
  ],
  λ (d, m, b). elim b [
    | inl q ↦ ground (arith, q, m)
    | inr (sub, q) ↦ ground (arith, q, below→parent_in (x ∷ set) sub d m)
  ],
)

-- Some element of a list has the property.
abbrev pub Exists : (Str → Type 0) → List Str → Type 0
Exists P [] = ⊥
Exists P (k ∷ ks) = P k ⊎ Exists P ks

keyword_iff :
    (h : Str) (ks : List Str)
    → (any (λ k. contains h k) ks ≡ true) ↔ Exists (λ k. contains h k ≡ true) ks
keyword_iff h [] = (λ e. cc, λ d. absurd d)
keyword_iff h (k ∷ ks) =
    let (to, from) = keyword_iff h ks in (λ e. ground (arith, to), λ d. ground (arith, from))

-- A category accepts exactly the hosts whose normal form is one of its full names, lies at or below
-- one of its domains, or contains one of its keywords.
pub set_matches_iff :
    (s : DomainSet) (host : Str)
    → (set_matches s host ≡ true) ↔ (
        (has s.full (normal_host host) ≡ true)
        ⊎ ((d : Str) × (has s.suffix d ≡ true) × Below (normal_host host) d)
        ⊎ Exists (λ k. contains (normal_host host) k ≡ true) s.keyword)
unfolding set_matches normal_host
set_matches_iff s host =
    let h = to_ascii_lowercase (trim_end_matches b'.' host) in
    let (below→, below←) = suffix_iff s.suffix h in
    let (key→, key←) = keyword_iff h s.keyword in
    (
      λ e. elim (Bool-cases (has s.full h)) [
        | inl t ↦ inl t
        | inr f ↦
            elim (Bool-cases
              (not (is_empty s.suffix) && (has s.suffix h || parent_in s.suffix h))) [
                | inl t ↦ inr (inl (below→ t))
                | inr g ↦ inr (inr (key→ (ground arith)))
              ]
      ],
      λ d. elim d [
        | inl t ↦ ground arith
        | inr (inl b) ↦ ground (arith, below← b)
        | inr (inr k) ↦ ground (arith, key← k)
      ],
    )
