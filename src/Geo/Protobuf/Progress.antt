-- ===== src/Geo/Protobuf/Progress.antt =====
-- The readers of crates/core/src/geo/protobuf.rs go forward, so the loops over messages end.
use Prim.Native.Nat.{bit_and, bit_or}
use jamm_vpn.Base.{
  ℕ, zero, suc, ◌+◌, ◌*◌, ◌/◌, ◌%◌, ◌^◌, ◌≤◌, ◌≢◌, Bool, true, false, [], ◌∷◌, length, length-drop,
  arith, ltb, leb, ◌==◌, if◌then◌else◌,
}
use jamm_vpn.Error.{Result, ok, err, ◌>>=◌}
use jamm_vpn.Geo.Protobuf.{
  GeoError, truncated, malformed, out_of_fuel, Reader, varint_from, read_varint, read_tag, split_at,
  read_bytes, read_string, advance, skip, each_field, each,
}

-- A successful result leaves no more than `n` bytes; a failure is one of the program's.
abbrev pub Leaves {ℓ} : {A : Type ℓ} → ℕ → Result GeoError (A × Reader) → Type 0
Leaves n (ok (a, rest)) = length rest ≤ n
Leaves n (err e) = e ≢ out_of_fuel

-- The same of a reader that returns nothing but its new position.
abbrev pub LeavesOnly : ℕ → Result GeoError Reader → Type 0
LeavesOnly n (ok rest) = length rest ≤ n
LeavesOnly n (err e) = e ≢ out_of_fuel

module _ {ℓ} {A : Type ℓ} where
  pub Leaves-if :
      (b : Bool) (n : ℕ) (x y : Result GeoError (A × Reader))
      → Leaves n x
      → Leaves n y
      → Leaves n (if b then x else y)
  Leaves-if true n x y hx hy = hx
  Leaves-if false n x y hx hy = hy

  pub Leaves-mono : (m n : ℕ) (x : Result GeoError (A × Reader)) → m ≤ n → Leaves m x → Leaves n x
  Leaves-mono m n (ok (a, r)) h k = omega arith
  Leaves-mono m n (err e) h k = k

  pub Leaves-bind {κ} :
      {B : Type κ} (m n : ℕ) (x : Result GeoError (B × Reader))
      (f : B × Reader → Result GeoError (A × Reader))
      → Leaves m x
      → ((b : B) (r : Reader) → length r ≤ m → Leaves n (f (b, r)))
      → Leaves n (x >>= f)
  Leaves-bind m n (ok (b, r)) f h k = k b r h
  Leaves-bind m n (err e) f h k = h

  pub Leaves-bind_only :
      (m n : ℕ) (x : Result GeoError Reader) (f : Reader → Result GeoError (A × Reader))
      → LeavesOnly m x
      → ((r : Reader) → length r ≤ m → Leaves n (f r))
      → Leaves n (x >>= f)
  Leaves-bind_only m n (ok r) f h k = k r h
  Leaves-bind_only m n (err e) f h k = h

-- A nested message is read apart, and leaves the position alone.
pub Leaves-pure {ℓ κ} :
    {A : Type ℓ} {B : Type κ} (n : ℕ) (x : Result GeoError B) (f : B → Result GeoError (A × Reader))
    → x ≢ err out_of_fuel
    → ((b : B) → Leaves n (f b))
    → Leaves n (x >>= f)
Leaves-pure n (ok b) f h k = k b
Leaves-pure n (err e) f h k = λ p. h (cc)

Only-if :
    (b : Bool) (n : ℕ) (x y : Result GeoError Reader)
    → LeavesOnly n x
    → LeavesOnly n y
    → LeavesOnly n (if b then x else y)
Only-if true n x y hx hy = hx
Only-if false n x y hx hy = hy

Only-value {ℓ} :
    {A : Type ℓ} (n : ℕ) (x : Result GeoError (A × Reader))
    → Leaves n x
    → LeavesOnly n (x >>= λ (v, r). ok r)
Only-value n (ok (v, r)) h = h
Only-value n (err e) h = h

abbrev Tagged : ℕ → Result GeoError (ℕ × ℕ × Reader) → Type 0
Tagged n (ok (field, wire, rest)) = length rest ≤ n
Tagged n (err e) = e ≢ out_of_fuel

truncated≢ : truncated ≢ out_of_fuel
truncated≢ e = cc

malformed≢ : malformed ≢ out_of_fuel
malformed≢ e = cc

varint_from-Leaves :
    (result shift : ℕ) (r : Reader) → Leaves (length r) (varint_from result shift r)
unfolding varint_from
varint_from-Leaves result shift [] = truncated≢
varint_from-Leaves result shift (b ∷ r) =
    let result' = bit_or result (bit_and b 0x7f * 2 ^ shift % 2 ^ 64) in
    Leaves-if (leb 64 shift) (suc (length r)) _ _ malformed≢ (
      Leaves-if (bit_and b 0x80 == 0) (suc (length r)) _ _ (omega arith) (
        Leaves-mono (length r) (suc (length r)) _ (omega arith)
          (varint_from-Leaves result' (shift + 7) r)))

read_varint-Leaves : (b : ℕ) (r : Reader) → Leaves (length r) (read_varint (b ∷ r))
unfolding read_varint varint_from
read_varint-Leaves b r =
    Leaves-if (bit_and b 0x80 == 0) (length r) _ _ (omega arith) (varint_from-Leaves _ 7 r)

pub varint-Leaves : (r : Reader) → Leaves (length r) (read_varint r)
unfolding read_varint
varint-Leaves r = varint_from-Leaves 0 0 r

split_at-Leaves : (n : ℕ) (r : Reader) → Leaves (length r) (split_at n r)
unfolding split_at
split_at-Leaves n r =
    Leaves-if (ltb (length r) n) (length r) _ _ truncated≢ (omega (arith, length-drop n r))

pub bytes-Leaves : (r : Reader) → Leaves (length r) (read_bytes r)
unfolding read_bytes
bytes-Leaves r =
    Leaves-bind (length r) (length r) (read_varint r) _ (varint-Leaves r)
      (λ len q h. Leaves-mono (length q) (length r) _ h (split_at-Leaves len q))

pub string-Leaves : (r : Reader) → Leaves (length r) (read_string r)
unfolding read_string
string-Leaves r = Leaves-bind (length r) (length r) (read_bytes r) _ (bytes-Leaves r) (λ b q h. h)

advance-LeavesOnly : (n : ℕ) (r : Reader) → LeavesOnly (length r) (advance n r)
unfolding advance
advance-LeavesOnly n r =
    Only-if (ltb (length r) n) (length r) _ _ truncated≢ (omega (arith, length-drop n r))

pub skip-LeavesOnly : (wire : ℕ) (r : Reader) → LeavesOnly (length r) (skip wire r)
unfolding skip
skip-LeavesOnly wire r =
    let n = length r in
    Only-if (wire == 0) n _ _ (Only-value n (read_varint r) (varint-Leaves r)) (
      Only-if (wire == 1) n _ _ (advance-LeavesOnly 8 r) (
        Only-if (wire == 2) n _ _ (Only-value n (read_bytes r) (bytes-Leaves r))
          (Only-if (wire == 5) n _ _ (advance-LeavesOnly 4 r) malformed≢)))

tagged :
    (n : ℕ) (x : Result GeoError (ℕ × Reader))
    → Leaves n x
    → Tagged n (
        x >>= λ (key, r).
        if key / 2 ^ 3 == 0 then err malformed else ok (key / 2 ^ 3, bit_and key 0x07, r))
tagged n (ok (key, r)) h = ground (arith, malformed≢)
tagged n (err e) h = h

tag-Tagged : (b : ℕ) (r : Reader) → Tagged (length r) (read_tag (b ∷ r))
unfolding read_tag
tag-Tagged b r = tagged (length r) (read_varint (b ∷ r)) (read_varint-Leaves b r)

-- A step of a message's loop that goes forward, or fails as the program does.
abbrev pub Forward {ℓ} : {S : Type ℓ} → (S → ℕ → ℕ → Reader → Result GeoError (S × Reader)) → Type ℓ
Forward {S} step = (s : S) (field wire : ℕ) (r : Reader) → Leaves (length r) (step s field wire r)

-- One round: the tag, then the step, then whatever follows on no more bytes.
after_step {ℓ} :
    {S : Type ℓ} (n : ℕ) (y : Result GeoError (S × Reader)) (next : S × Reader → Result GeoError S)
    → Leaves n y
    → ((s : S) (r : Reader) → length r ≤ n → next (s, r) ≢ err out_of_fuel)
    → (y >>= next) ≢ err out_of_fuel
after_step n (ok (s, r)) next h k = k s r h
after_step n (err e) next h k = λ p. h (cc)

after_tag {ℓ} :
    {S : Type ℓ} (n : ℕ) (x : Result GeoError (ℕ × ℕ × Reader))
    (next : ℕ × ℕ × Reader → Result GeoError S)
    → Tagged n x
    → ((field wire : ℕ) (r : Reader) → length r ≤ n → next (field, wire, r) ≢ err out_of_fuel)
    → (x >>= next) ≢ err out_of_fuel
after_tag n (ok (field, wire, r)) next h k = k field wire r h
after_tag n (err e) next h k = λ p. h (cc)

-- The loop over a message never runs out of fuel.
each-ne-out_of_fuel {ℓ} :
    {S : Type ℓ} (step : S → ℕ → ℕ → Reader → Result GeoError (S × Reader))
    → Forward step
    → (fuel : ℕ) (s : S) (r : Reader) → length r ≤ fuel
    → each_field step fuel s r ≢ err out_of_fuel
unfolding each_field
each-ne-out_of_fuel step fwd zero s [] h = λ e. cc
each-ne-out_of_fuel step fwd (suc fuel) s [] h = λ e. cc
each-ne-out_of_fuel step fwd zero s (b ∷ r) h = absurd (omega arith)
each-ne-out_of_fuel step fwd (suc fuel) s (b ∷ r) h =
    after_tag (length r) (read_tag (b ∷ r)) _ (tag-Tagged b r) λ field wire q hq.
      after_step (length q) (step s field wire q) _ (fwd s field wire q)
        λ t p hp. each-ne-out_of_fuel step fwd fuel t p (omega arith)

-- A failure of a loop over a message is one of the program's.
pub each_fails {ℓ} :
    {S : Type ℓ} (step : S → ℕ → ℕ → Reader → Result GeoError (S × Reader))
    → Forward step
    → (s : S) (r : Reader) → each step s r ≢ err out_of_fuel
each_fails step fwd s r = each-ne-out_of_fuel step fwd (length r) s r (omega arith)
