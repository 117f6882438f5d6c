-- ===== src/Error.antt =====
-- crates/core/src/error.rs: the errors of the parsers.
use jamm_vpn.Base.{◌≡◌, ◌⊎◌, inl, inr, refl}
use jamm_vpn.Base.Text.{Str}

pub data ParseError : Type 0 where
  empty_input missing_host missing_port utf8 : ParseError
  malformed_url unknown_scheme invalid_port missing_field base64 invalid_cidr json :
      Str → ParseError

pub data Result {ℓ} (E : Type 0) (A : Type ℓ) : Type ℓ where
  ok : A → Result E A
  err : E → Result E A

infixl 5 ◌>>=◌
abbrev pub ◌>>=◌ {ℓ κ} :
    {E : Type 0} {A : Type ℓ} {B : Type κ} → Result E A → (A → Result E B) → Result E B
ok a >>= f = f a
err e >>= f = err e

pub ok-injective {ℓ} :
    {E : Type 0} {A : Type ℓ} {a b : A} → ◌≡◌ {A = Result E A} (ok a) (ok b) → a ≡ b
ok-injective e = cc

pub ok≢err {ℓ} : {E : Type 0} {A : Type ℓ} {a : A} {x : E} → ¬ (◌≡◌ {A = Result E A} (err x) (ok a))
ok≢err e = cc

-- A chain that ends well went through its first step.
pub bind_ok {ℓ κ} :
    {E : Type 0} {A : Type ℓ} {B : Type κ} (x : Result E A) (f : A → Result E B) {b : B}
    → ◌≡◌ {A = Result E B} (x >>= f) (ok b)
    → (a : A) × (◌≡◌ {A = Result E A} x (ok a)) × (◌≡◌ {A = Result E B} (f a) (ok b))
bind_ok (ok a) f e = (a, refl, e)
bind_ok (err y) f e = absurd (ok≢err e)

-- To split on a computed result and keep the equation.
pub Result-cases {ℓ} :
    {E : Type 0} {A : Type ℓ} (r : Result E A)
    → ((a : A) × (◌≡◌ {A = Result E A} r (ok a))) ⊎ ((e : E) × (◌≡◌ {A = Result E A} r (err e)))
Result-cases (ok a) = inl (a, refl)
Result-cases (err e) = inr (e, refl)
