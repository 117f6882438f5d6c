-- ===== src/Shadowsocks/Stream/Writer/Delivered.antt =====
-- What one side was told to have written, the other side reads.
use mathlib.Core.List.{append-nil}
use mathlib.Core.Path.{subst}
use mathlib.Core.Option.{none-ne-some, some-injective}
use jamm_vpn.Base.{
  ℕ, ◌+◌, ◌<◌, ◌≤◌, ◌≡◌, refl, sym, ◌∙◌, ap, inl, inr, Option, none, some, List, [], ◌∷◌, ◌++◌,
  arith, length, take, All, ◌==◌, if◌then◌else◌, false,
}
use jamm_vpn.Error.{ok, err}
use jamm_vpn.Shadowsocks.Crypto.{Primitives, Method}
use jamm_vpn.Shadowsocks.Crypto.Laws.{IsPrimitives}
use jamm_vpn.Shadowsocks.Stream.{Arrival, Poll, pending, ready, new_reader}
use jamm_vpn.Shadowsocks.Stream.Fill.{join, waits, IsGood}
use jamm_vpn.Shadowsocks.Stream.Standing.{concat}
use jamm_vpn.Shadowsocks.Stream.Drain.{drain, drain-seal_chunks}
use jamm_vpn.Shadowsocks.Stream.Writer.{Answer, Writer, new_writer, poll_write}
use jamm_vpn.Shadowsocks.Stream.Steps.{drop_everything}
use jamm_vpn.Shadowsocks.Stream.Writer.Piped.{IsSalt, Piped, Flushed-Piped, Wrote-Piped}
use jamm_vpn.Shadowsocks.Stream.Writer.Sent.{sent, poll_write-WriteStep}

-- The writer and the bytes that its calls took, each call's as one chunk.
abbrev pub Written : Type 0
Written = Writer × List (List ℕ)

abbrev after_call :
    (Writer → List (List ℕ) → Option Written)
    → List ℕ
    → List (List ℕ)
    → Poll ℕ × Writer
    → Option Written
after_call again buf taken (pending, w) = again w taken
after_call again buf taken (ready (err e), w) = none
after_call again buf taken (ready (ok n), w) =
    again w (if n == 0 then taken else taken ++ (take n buf ∷ []))

-- Calls of `poll_write` with what the generator would give and a buffer each; none when one fails.
unfoldable pub write_all :
    Primitives → List (Option (List ℕ) × List ℕ) → Writer → List (List ℕ) → Option Written
write_all P [] w taken = some (w, taken)
write_all P ((salt, buf) ∷ calls) w taken =
    after_call (λ w taken. write_all P calls w taken) buf taken (poll_write P salt buf w)

module _ (P : Primitives) (m : Method) (master : List ℕ) where
  write_all-Piped :
      (calls : List (Option (List ℕ) × List ℕ)) (w v : Writer) (taken all : List (List ℕ))
      → All (λ call. IsSalt m call.0) calls
      → Piped P m master w taken
      → write_all P calls w taken ≡ some (v, all)
      → Piped P m master v all
  unfolding write_all
  write_all-Piped [] w v taken all salts s e =
      subst (λ (x : Written). Piped P m master x.0 x.1) (some-injective (w, taken) (v, all) e) s
  write_all-Piped ((salt, buf) ∷ calls) w v taken all (sized, salts) s e =
      let polled = poll_write P salt buf w in
      let again : Writer → List (List ℕ) → Option Written = λ w taken. write_all P calls w taken in
      elim (poll_write-WriteStep P salt buf w s.within) [
        | inl (waits_here, f) ↦
            write_all-Piped calls polled.1 v taken all salts
              (Flushed-Piped P m master w polled.1 taken s f)
              (sym (ap (λ p. after_call again buf taken (p, polled.1)) waits_here) ∙ e)
        | inr (inl (x, failed)) ↦ absurd (
            none-ne-some (v, all)
              (sym (ap (λ p. after_call again buf taken (p, polled.1)) failed) ∙ e))
        | inr (inr (inl (empty, done, f))) ↦
            write_all-Piped calls polled.1 v taken all salts
              (Flushed-Piped P m master w polled.1 taken s f)
              (sym (ap (λ p. after_call again buf taken (p, polled.1)) done) ∙ e)
        | inr (inr (inr (n, done, q))) ↦
            let some_bytes : (n == 0) ≡ false = ground (arith, q.count, q.least) in
            let more : (if n == 0 then taken else taken ++ (take n buf ∷ []))
                ≡ taken ++ (take n buf ∷ []) =
              rw some_bytes refl in
            write_all-Piped calls polled.1 v (taken ++ (take n buf ∷ [])) all salts
              (Wrote-Piped P m master salt buf w polled.1 n taken sized s q)
              (sym (
                  ap (λ p. after_call again buf taken (p, polled.1)) done
                  ∙ ap (again polled.1) more)
                ∙ e)
      ]

-- Calls of `poll_write` none of which fails, over a stream below that takes the bytes in any
-- pieces: if at least one took bytes and none of them waits any more, then the other side, to which
-- the bytes come cut in any way, reads to the end all that the calls took, in order.
pub drain-write_all :
    (P : Primitives) (m : Method) (master : List ℕ) (below : List Answer)
    (calls : List (Option (List ℕ) × List ℕ)) (w : Writer) (taken : List (List ℕ))
    (inner : List Arrival) (room fuel : ℕ)
    → IsPrimitives P
    → All (λ call. IsSalt m call.0) calls
    → write_all P calls (new_writer below m master) [] ≡ some (w, taken)
    → 1 ≤ length taken
    → length w.wbuf ≤ w.wpos
    → join inner ≡ w.written
    → IsGood inner
    → 1 ≤ room
    → length (concat taken) + waits inner < fuel
    → drain P room fuel (new_reader inner m master) ≡ some (ok (concat taken))
unfolding new_writer
drain-write_all P m master below calls w taken inner room fuel laws salts ran some_taken flushed cut
      good least enough =
    let piped =
      write_all-Piped P m master calls (new_writer below m master) w [] taken salts
        (record {
          within = omega arith;
          method = refl;
          master_key = refl;
          chunks = tt;
          bytes = inl (refl, refl, refl);
        })
        ran in
    let all_below : sent w ≡ w.written =
      ap (λ t. w.written ++ t) (drop_everything w.wpos w.wbuf flushed) ∙ append-nil w.written in
    elim piped.bytes [
      | inl (idle, nothing, unsent) ↦ absurd (omega (arith, some_taken, ap length nothing))
      | inr q ↦
          drain-seal_chunks P m master q.salt q.start q.next taken q.frames inner room fuel laws
            q.sized q.made piped.chunks q.sealed (cut ∙ sym all_below ∙ q.all) good least enough
    ]
