-- ===== src/Shadowsocks/Stream/Fill.antt =====
-- `fill` gathers the bytes below, however they are cut into arrivals.
use mathlib.Core.List.{append_assoc, append-nil}
use mathlib.Core.Path.{subst}
use jamm_vpn.Base.{
  ℕ, zero, suc, ◌+◌, ◌-◌, ◌<◌, ◌≤◌, ◌≡◌, ◌⊎◌, refl, sym, ◌∙◌, ap, inl, inr, Bool, true, false, List,
  [], ◌∷◌, ◌++◌, ltb, arith, if◌then◌else◌, length, take, drop, min, All, Bool-cases, length-append,
  length-take, length-drop, take-append-drop, contradiction,
}
use jamm_vpn.Error.{ok}
use jamm_vpn.Shadowsocks.Stream.{
  Arrival, chunk, wait, broken, pending, ready, poll_inner, Filled, fill_round, fill,
}

-- All bytes that arrive, and how often the stream asks to wait.
abbrev pub join : List Arrival → List ℕ
join [] = []
join (chunk bs ∷ inner) = bs ++ join inner
join (wait ∷ inner) = join inner
join (broken ∷ inner) = join inner

abbrev pub waits : List Arrival → ℕ
waits [] = 0
waits (chunk bs ∷ inner) = waits inner
waits (wait ∷ inner) = suc (waits inner)
waits (broken ∷ inner) = waits inner

abbrev pub is_good : Arrival → Bool
is_good (chunk bs) = ltb 0 (length bs)
is_good wait = true
is_good broken = false

-- No arrival is a failure or has no bytes.
abbrev pub IsGood : List Arrival → Type 0
IsGood inner = All (λ a. is_good a ≡ true) inner

-- The bytes that are read and those that still arrive are the same as before.
pub record Kept (rtmp : List ℕ) (inner : List Arrival) (rtmp' : List ℕ) (inner' : List Arrival)
    : Type 0 where
  pub same : rtmp' ++ join inner' ≡ rtmp ++ join inner
  pub good : IsGood inner'

pub record Waiting (need : ℕ) (rtmp : List ℕ) (inner : List Arrival) (f : Filled) : Type 0 where
  pub rtmp' : List ℕ
  pub inner' : List Arrival
  pub result : f ≡ (pending, rtmp', inner')
  pub kept : Kept rtmp inner rtmp' inner'
  pub short : length rtmp' < need
  pub fewer : waits inner' < waits inner

pub record Full (need : ℕ) (rtmp : List ℕ) (inner : List Arrival) (f : Filled) : Type 0 where
  pub rtmp' : List ℕ
  pub inner' : List Arrival
  pub result : f ≡ (ready (ok true), rtmp', inner')
  pub kept : Kept rtmp inner rtmp' inner'
  pub exact : length rtmp' ≡ need
  pub fewer : waits inner' ≤ waits inner

pub record Ended (need : ℕ) (rtmp : List ℕ) (inner : List Arrival) (f : Filled) : Type 0 where
  pub short : length (rtmp ++ join inner) < need
  pub result :
      ((rtmp ++ join inner ≡ []) × (f ≡ (ready (ok false), [], [])))
      ⊎ (1 ≤ length (rtmp ++ join inner))

abbrev pub Outcome : ℕ → List ℕ → List Arrival → Filled → Type 0
Outcome need rtmp inner f =
    Waiting need rtmp inner f ⊎ (Full need rtmp inner f ⊎ Ended need rtmp inner f)

-- What stays behind the bytes that were taken of a chunk.
abbrev left : ℕ → List ℕ → List Arrival → List Arrival
left want bs inner = if ltb want (length bs) then chunk (drop want bs) ∷ inner else inner

take_nothing : (n : ℕ) → ◌≡◌ {A = List ℕ} (take n []) []
take_nothing zero = refl
take_nothing (suc n) = refl

pub take_everything : (n : ℕ) (xs : List ℕ) → length xs ≤ n → take n xs ≡ xs
take_everything n [] h = take_nothing n
take_everything zero (x ∷ xs) h = absurd (omega (arith, h))
take_everything (suc n) (x ∷ xs) h = ap (λ t. x ∷ t) (take_everything n xs (omega (arith, h)))

left-Kept :
    (want : ℕ) (bs : List ℕ) (inner : List Arrival)
    → IsGood inner
    → (take want bs ++ join (left want bs inner) ≡ bs ++ join inner)
      × IsGood (left want bs inner)
      × (waits (left want bs inner) ≡ waits inner)
left-Kept want bs inner good = elim (Bool-cases (ltb want (length bs))) [
  | inl more ↦
      let some_left : ltb 0 (length (drop want bs)) ≡ true =
        ground (arith, more, length-drop want bs) in
      rw more (
        sym (append_assoc (take want bs) (drop want bs) (join inner))
            ∙ ap (λ t. t ++ join inner) (take-append-drop want bs),
        (some_left, good),
        refl,
      )
  | inr all ↦
      rw all (ap (λ t. t ++ join inner) (take_everything want bs (ground (arith, all))), good, refl)
]

-- An outcome behind more bytes that were read is one from the start.
module _ (need : ℕ) (rtmp : List ℕ) (inner : List Arrival) (rtmp1 : List ℕ) (inner1 : List Arrival)
    (same : rtmp1 ++ join inner1 ≡ rtmp ++ join inner) (fewer : waits inner1 ≤ waits inner) where
  Outcome-moved : (f : Filled) → Outcome need rtmp1 inner1 f → Outcome need rtmp inner f
  Outcome-moved f (inl w) = inl (record {
    rtmp' = w.rtmp';
    inner' = w.inner';
    result = w.result;
    kept = record { same = w.kept.same ∙ same; good = w.kept.good };
    short = w.short;
    fewer = omega (arith, w.fewer, fewer);
  })
  Outcome-moved f (inr (inl w)) = inr (
      inl (record {
        rtmp' = w.rtmp';
        inner' = w.inner';
        result = w.result;
        kept = record { same = w.kept.same ∙ same; good = w.kept.good };
        exact = w.exact;
        fewer = omega (arith, w.fewer, fewer);
      }))
  Outcome-moved f (inr (inr w)) = inr (
      inr (record {
        short = subst (λ t. length t < need) same w.short;
        result =
            subst (λ t. ((t ≡ []) × (f ≡ (ready (ok false), [], []))) ⊎ (1 ≤ length t)) same
              w.result;
      }))

module _ (again : List ℕ → List Arrival → Filled) (need : ℕ) (rtmp : List ℕ)
    (short : length rtmp < need)
    (rounds : (rtmp' : List ℕ) (inner' : List Arrival)
      → length rtmp < length rtmp'
      → length rtmp' ≤ need
      → IsGood inner'
      → Outcome need rtmp' inner' (again rtmp' inner')) where
  nothing-Outcome :
      (r : List ℕ) → length r < need → Outcome need r [] (fill_round again r (ready (ok []), []))
  nothing-Outcome [] h = inr (inr (record { short = h; result = inl (refl, refl) }))
  nothing-Outcome (b ∷ r) h =
      let whole : length ((b ∷ r) ++ []) ≡ length (b ∷ r) = ap length (append-nil (b ∷ r)) in
      inr (inr (record { short = omega (arith, h, whole); result = inr (omega (arith, whole)) }))

  fill_round-Outcome :
      (want : ℕ) (inner : List Arrival)
      → 1 ≤ want
      → want ≤ need - length rtmp
      → IsGood inner
      → Outcome need rtmp inner (fill_round again rtmp (poll_inner want inner))
  fill_round-Outcome want [] least room good = nothing-Outcome rtmp short
  fill_round-Outcome want (wait ∷ inner) least room (_, good) = inl (record {
    rtmp' = rtmp;
    inner' = inner;
    result = refl;
    kept = record { same = refl; good = good };
    short = short;
    fewer = omega arith;
  })
  fill_round-Outcome want (broken ∷ inner) least room (bad, good) = contradiction (sym bad)
  fill_round-Outcome want (chunk [] ∷ inner) least room (bad, good) = contradiction (sym bad)
  fill_round-Outcome zero (chunk (b ∷ bs) ∷ inner) least room good = absurd (omega (arith, least))
  fill_round-Outcome (suc w) (chunk (b ∷ bs) ∷ inner) least room (_, good) =
      let (same, good', waits') = left-Kept (suc w) (b ∷ bs) inner good in
      let rtmp1 = rtmp ++ (b ∷ take w bs) in
      let inner1 = left (suc w) (b ∷ bs) inner in
      let len : length rtmp1 ≡ length rtmp + suc (length (take w bs)) =
        length-append rtmp (b ∷ take w bs) in
      let kept : rtmp1 ++ join inner1 ≡ rtmp ++ ((b ∷ bs) ++ join inner) =
        append_assoc rtmp (b ∷ take w bs) (join inner1) ∙ ap (λ t. rtmp ++ t) same in
      Outcome-moved need rtmp (chunk (b ∷ bs) ∷ inner) rtmp1 inner1 kept (omega (arith, waits'))
        (again rtmp1 inner1)
        (rounds rtmp1 inner1 (omega (arith, len))
          (omega (arith, len, room, length-take w bs, short)) good')

pub fill-Outcome :
    (fuel need : ℕ) (rtmp : List ℕ) (inner : List Arrival)
    → need ≤ length rtmp + fuel
    → length rtmp ≤ need
    → IsGood inner
    → Outcome need rtmp inner (fill fuel need rtmp inner)
unfolding fill
fill-Outcome zero need rtmp inner enough fits good = inr (
    inl (record {
      rtmp' = rtmp;
      inner' = inner;
      result = refl;
      kept = record { same = refl; good = good };
      exact = omega (arith, enough, fits);
      fewer = omega arith;
    }))
fill-Outcome (suc fuel) need rtmp inner enough fits good =
    elim (Bool-cases (ltb (length rtmp) need)) [
      | inr full ↦ rw full (
          inr (
            inl (record {
              rtmp' = rtmp;
              inner' = inner;
              result = refl;
              kept = record { same = refl; good = good };
              exact = ground (arith, full, fits);
              fewer = omega arith;
            })))
      | inl short ↦ rw short (
          fill_round-Outcome (λ rtmp inner. fill fuel need rtmp inner) need rtmp
            (ground (arith, short))
            (λ rtmp' inner' longer fits' good'.
              fill-Outcome fuel need rtmp' inner' (omega (arith, enough, longer)) fits' good')
            (min (need - length rtmp) 4096) inner (ground (arith, short)) (omega arith) good)
    ]
