-- ===== src/Routing/Domain/Suffix.antt =====
-- What a domain rule accepts, in terms of the normalised host.
use jamm_vpn.Base.{
  ℕ, ◌≡◌, refl, ap, ◌∙◌, ◌⊎◌, inl, inr, ◌↔◌, true, [], ◌∷◌, ◌++◌, arith, Bool-cases, map, ◌&&◌,
  ◌==◌, if◌then◌else◌, is_empty,
}
use jamm_vpn.Base.Text.{
  Str, lower_byte, str_eq, str_eq_iff, str_eq_self, to_ascii_lowercase, starts_with, ends_with,
  contains, trim_start_matches, trim_end_matches,
}
use jamm_vpn.Routing.Domain.{DomainRule, full, suffix, keyword, normal_host, matches}
use jamm_vpn.Split.Config.Case.{lowercase_idem}

ends_with→split : (s t : Str) → ends_with s t ≡ true → (p : Str) × (s ≡ p ++ t)
unfolding ends_with
ends_with→split [] t e = ([], (str_eq_iff [] t).0 e)
ends_with→split (c ∷ s) t e = elim (Bool-cases (str_eq (c ∷ s) t)) [
  | inl h ↦ ([], (str_eq_iff (c ∷ s) t).0 h)
  | inr h ↦ let (p, q) = ends_with→split s t (rw h at e) in (c ∷ p, ap (λ (r : Str). c ∷ r) q)
]

ends_with_self : (t : Str) → ends_with t t ≡ true
unfolding ends_with
ends_with_self [] = str_eq_self []
ends_with_self (c ∷ t) = rw (str_eq_self (c ∷ t))

split→ends_with : (p t : Str) → ends_with (p ++ t) t ≡ true
unfolding ends_with
split→ends_with [] t = ends_with_self t
split→ends_with (c ∷ p) t = ground (arith, split→ends_with p t)

starts_with→split : (s t : Str) → starts_with s t ≡ true → (q : Str) × (s ≡ t ++ q)
unfolding starts_with
starts_with→split s [] e = (s, refl)
starts_with→split [] (y ∷ t) e = cc
starts_with→split (x ∷ s) (y ∷ t) e = elim (Bool-cases (starts_with s t)) [
  | inl h ↦ let (q, r) = starts_with→split s t h in (q, ground arith)
  | inr h ↦ absurd (ground arith)
]

starts_with_nil : (q : Str) → starts_with q [] ≡ true
unfolding starts_with
starts_with_nil [] = refl
starts_with_nil (x ∷ q) = refl

split→starts_with : (t q : Str) → starts_with (t ++ q) t ≡ true
unfolding starts_with
split→starts_with [] q = starts_with_nil q
split→starts_with (x ∷ t) q = ground (arith, split→starts_with t q)

contains→split : (s t : Str) → contains s t ≡ true → (p : Str) × (q : Str) × (s ≡ p ++ (t ++ q))
unfolding contains
contains→split [] t e = let (q, r) = starts_with→split [] t e in ([], q, r)
contains→split (x ∷ s) t e = elim (Bool-cases (starts_with (x ∷ s) t)) [
  | inl h ↦ let (q, r) = starts_with→split (x ∷ s) t h in ([], q, r)
  | inr h ↦ let (p, q, r) = contains→split s t (rw h at e) in (x ∷ p, q, ap (λ (u : Str). x ∷ u) r)
]

contains_here : (t q : Str) → contains (t ++ q) t ≡ true
unfolding contains
contains_here [] [] = starts_with_nil []
contains_here [] (y ∷ q) = rw (starts_with_nil (y ∷ q))
contains_here (x ∷ t) q = rw (split→starts_with (x ∷ t) q)

split→contains : (p t q : Str) → contains (p ++ (t ++ q)) t ≡ true
unfolding contains
split→contains [] t q = contains_here t q
split→contains (x ∷ p) t q = ground (arith, split→contains p t q)

-- The host is the rule's name; or is it or a subdomain of it; or has it as a part.
abbrev pub Accepts : DomainRule → Str → Type 0
Accepts (full d) h = h ≡ to_ascii_lowercase d
Accepts (suffix d) h =
    let name = to_ascii_lowercase (trim_start_matches b'.' d) in
    (h ≡ name) ⊎ ((sub : Str) × (h ≡ sub ++ (b'.' ∷ name)))
Accepts (keyword k) h = (p : Str) × (q : Str) × (h ≡ p ++ (to_ascii_lowercase k ++ q))

-- A rule matches exactly the hosts whose normal form it accepts.
pub domain_matches_iff :
    (r : DomainRule) (host : Str) → (matches r host ≡ true) ↔ Accepts r (normal_host host)
unfolding matches
domain_matches_iff (full d) host = str_eq_iff (normal_host host) (to_ascii_lowercase d)
domain_matches_iff (suffix d) host =
    let name : Str = to_ascii_lowercase (trim_start_matches b'.' d) in
    let h = normal_host host in
    (
      λ e. elim (Bool-cases (str_eq h name)) [
        | inl t ↦ inl ((str_eq_iff h name).0 t)
        | inr f ↦ inr (ends_with→split h (b'.' ∷ name) (rw f at e))
      ],
      λ d. elim d [
        | inl e ↦ rw ((str_eq_iff h name).1 e)
        | inr (sub, e) ↦ ground (arith, e, split→ends_with sub (b'.' ∷ name))
      ],
    )
domain_matches_iff (keyword k) host = (
  contains→split (normal_host host) (to_ascii_lowercase k),
  λ (p, q, e). rw e (split→contains p (to_ascii_lowercase k) q),
)

trim_end-dot : (s : Str) → trim_end_matches b'.' (s ++ (b'.' ∷ [])) ≡ trim_end_matches b'.' s
unfolding trim_end_matches
trim_end-dot [] = refl
trim_end-dot (c ∷ s) = ground (arith, trim_end-dot s)

dot-lower : (c : ℕ) → (lower_byte c == b'.') ≡ (c == b'.')
unfolding lower_byte
dot-lower c = ground arith

trim_step-lower :
    (c : ℕ) (r : Str)
    → (if lower_byte c == b'.' && is_empty (map lower_byte r)
        then []
        else lower_byte c ∷ map lower_byte r)
      ≡ map lower_byte (if c == b'.' && is_empty r then [] else c ∷ r)
trim_step-lower c [] = ground (arith, dot-lower c)
trim_step-lower c (x ∷ r) = ground (arith, dot-lower c)

trim_end-lower :
    (s : Str)
    → trim_end_matches b'.' (to_ascii_lowercase s) ≡ to_ascii_lowercase (trim_end_matches b'.' s)
unfolding trim_end_matches to_ascii_lowercase
trim_end-lower [] = refl
trim_end-lower (c ∷ s) = rw (trim_end-lower s) (trim_step-lower c (trim_end_matches b'.' s))

normal-lower : (host : Str) → normal_host (to_ascii_lowercase host) ≡ normal_host host
unfolding normal_host
normal-lower host = ap to_ascii_lowercase (trim_end-lower host) ∙ lowercase_idem _

normal-dot : (host : Str) → normal_host (host ++ (b'.' ∷ [])) ≡ normal_host host
unfolding normal_host
normal-dot host = ap to_ascii_lowercase (trim_end-dot host)

matches_by_normal :
    (r : DomainRule) (g h : Str) → normal_host g ≡ normal_host h → matches r g ≡ matches r h
unfolding matches
matches_by_normal (full d) g h e = rw e
matches_by_normal (suffix d) g h e = rw e
matches_by_normal (keyword k) g h e = rw e

-- The case of a host's letters and a dot behind it make no difference to any rule.
pub matches_normal :
    (r : DomainRule) (host : Str)
    → (matches r (to_ascii_lowercase host) ≡ matches r host)
      × (matches r (host ++ (b'.' ∷ [])) ≡ matches r host)
matches_normal r host =
    (matches_by_normal r _ host (normal-lower host), matches_by_normal r _ host (normal-dot host))
