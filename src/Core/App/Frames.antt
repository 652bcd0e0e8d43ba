-- ===== src/Core/App/Frames.antt =====
-- crates/notch-core/src/app_core.rs: the frames that the core sends.
use llm_notch.Prelude.{
  ℕ, suc, ◌+◌, ◌^◌, ◌<◌, ◌≡◌, refl, sym, ap, ◌∙◌, subst, true, List, [], ◌∷◌, ◌++◌, arith, inl, inr,
  Bool-cases, length, length-append,
}
use llm_notch.Prelude.Int.{ℤ}
use llm_notch.Protocol.{StreamFrame, StreamPayload}
use llm_notch.Core.Registry.{next_u64}
use llm_notch.Core.Stream.{drain, StreamCoalescer, is_empty}
use llm_notch.Core.Stream.Replay.{CountsFrom}
use llm_notch.Core.App.{AppCoreInner, queue_payload, frames_from, flush_pending}

-- What the core has drained and what it has sent: it starts with no frame, queues payloads, flushes
-- them, and between these changes any other part of its state.
pub data Sends : AppCoreInner → List StreamPayload → List StreamFrame → Type 0 where
  opened : (i : AppCoreInner) → i.stream_sequence ≡ 0 → Sends i [] []
  works :
      {i : AppCoreInner} {drained : List StreamPayload} {sent : List StreamFrame} (j : AppCoreInner)
      → j.stream_sequence ≡ i.stream_sequence
      → j.coalescer ≡ i.coalescer
      → Sends i drained sent
      → Sends j drained sent
  queues :
      {i : AppCoreInner} {drained : List StreamPayload} {sent : List StreamFrame}
      (payload : StreamPayload)
      → Sends i drained sent
      → Sends (queue_payload i payload) drained sent
  flushes :
      {i : AppCoreInner} {drained : List StreamPayload} {sent : List StreamFrame} (now : ℤ)
      → Sends i drained sent
      → Sends
          (flush_pending i now).1
          (drained ++ (drain i.coalescer).0)
          (sent ++ (flush_pending i now).0)

-- The payloads of a run of frames.
unfoldable pub payloads_of : List StreamFrame → List StreamPayload
payloads_of [] = []
payloads_of (f ∷ fs) = f.payload ∷ payloads_of fs

payloads_of-append :
    (xs ys : List StreamFrame) → payloads_of (xs ++ ys) ≡ payloads_of xs ++ payloads_of ys
unfolding payloads_of
payloads_of-append [] ys = refl
payloads_of-append (x ∷ xs) ys = ap (◌∷◌ x.payload) (payloads_of-append xs ys)

payloads_of-frames_from :
    (n : ℕ) (now : ℤ) (payloads : List StreamPayload)
    → payloads_of (frames_from n now payloads).0 ≡ payloads
unfolding payloads_of frames_from
payloads_of-frames_from n now [] = refl
payloads_of-frames_from n now (p ∷ payloads) =
    ap (◌∷◌ p) (payloads_of-frames_from (next_u64 n) now payloads)

drained_if_empty : (c : StreamCoalescer) → is_empty c ≡ true → (drain c).0 ≡ []
unfolding is_empty drain
drained_if_empty c h = ground arith

payloads_of-flush_pending :
    (i : AppCoreInner) (now : ℤ) → payloads_of (flush_pending i now).0 ≡ (drain i.coalescer).0
unfolding flush_pending payloads_of
payloads_of-flush_pending i now = elim (Bool-cases (is_empty i.coalescer)) [
  | inl idle ↦ rw (idle, flush_pending) (sym (drained_if_empty i.coalescer idle))
  | inr busy ↦
      rw (busy, flush_pending) (payloads_of-frames_from i.stream_sequence now (drain i.coalescer).0)
]

CountsFrom-append :
    (n : ℕ) (xs ys : List StreamFrame)
    → CountsFrom n xs
    → CountsFrom (n + length xs) ys
    → CountsFrom n (xs ++ ys)
CountsFrom-append n [] ys h k = let e : n + 0 ≡ n = omega arith in subst (λ m. CountsFrom m ys) e k
CountsFrom-append n (x ∷ xs) ys h k =
    let e : n + suc (length xs) ≡ suc n + length xs = omega arith in
    (h.0, CountsFrom-append (suc n) xs ys h.1 (subst (λ m. CountsFrom m ys) e k))

frames_from-CountsFrom :
    (n : ℕ) (now : ℤ) (payloads : List StreamPayload)
    → n + length (frames_from n now payloads).0 < 2 ^ 64
    → CountsFrom (suc n) (frames_from n now payloads).0
      × ((frames_from n now payloads).1 ≡ n + length (frames_from n now payloads).0)
unfolding frames_from
frames_from-CountsFrom n now [] h = (tt, omega arith)
frames_from-CountsFrom n now (p ∷ payloads) h =
    let e : next_u64 n ≡ suc n = omega arith in
    let r =
      frames_from-CountsFrom (suc n) now payloads
        (subst (λ m. suc n + length (frames_from m now payloads).0 < 2 ^ 64) e (omega arith)) in
    subst
      (λ m.
        ((m ≡ suc n) × CountsFrom (suc (suc n)) (frames_from m now payloads).0)
        × ((frames_from m now payloads).1 ≡ n + suc (length (frames_from m now payloads).0)))
      (sym e) ((refl, r.0), omega (arith, r.1))

flush_pending_counts :
    (i : AppCoreInner) (now : ℤ)
    → i.stream_sequence + length (flush_pending i now).0 < 2 ^ 64
    → CountsFrom (suc i.stream_sequence) (flush_pending i now).0
      × ((flush_pending i now).1.stream_sequence
          ≡ i.stream_sequence + length (flush_pending i now).0)
unfolding flush_pending
flush_pending_counts i now h = elim (Bool-cases (is_empty i.coalescer)) [
  | inl idle ↦ rw (idle, flush_pending) (tt, omega arith)
  | inr busy ↦
      let same : flush_pending i now ≡ (
        (frames_from i.stream_sequence now (drain i.coalescer).0).0,
        record i {
          stream_sequence = (frames_from i.stream_sequence now (drain i.coalescer).0).1;
          coalescer = (drain i.coalescer).1;
        },
      ) =
        rw (busy, flush_pending) refl in
      subst
        (λ x.
          CountsFrom (suc i.stream_sequence) x.0
          × (x.1.stream_sequence ≡ i.stream_sequence + length x.0))
        (sym same)
        (frames_from-CountsFrom i.stream_sequence now (drain i.coalescer).0
          (subst (λ x. i.stream_sequence + length x.0 < 2 ^ 64) same h))
]

Sends-payloads_of :
    {i : AppCoreInner} {drained : List StreamPayload} {sent : List StreamFrame}
    → Sends i drained sent
    → payloads_of sent ≡ drained
unfolding payloads_of
Sends-payloads_of (opened i zeroed) = refl
Sends-payloads_of (works j same kept s) = Sends-payloads_of s
Sends-payloads_of (queues payload s) = Sends-payloads_of s
Sends-payloads_of (flushes {i = i} {drained = drained} {sent = sent} now s) =
    payloads_of-append sent (flush_pending i now).0
    ∙ ap (λ ps. ps ++ payloads_of (flush_pending i now).0) (Sends-payloads_of s)
    ∙ ap (◌++◌ drained) (payloads_of-flush_pending i now)

Sends-counts :
    {i : AppCoreInner} {drained : List StreamPayload} {sent : List StreamFrame}
    → Sends i drained sent
    → length sent < 2 ^ 64
    → CountsFrom 1 sent × (i.stream_sequence ≡ length sent)
unfolding queue_payload
Sends-counts (opened i zeroed) h = (tt, zeroed)
Sends-counts (works j same kept s) h = let (counted, at) = Sends-counts s h in (counted, same ∙ at)
Sends-counts (queues payload s) h = Sends-counts s h
Sends-counts (flushes {i = i} {sent = sent} now s) h =
    let sum = length-append sent (flush_pending i now).0 in
    let (counted, at) = Sends-counts s (omega (arith, sum, h)) in
    let (more, after) = flush_pending_counts i now (omega (arith, sum, h, at)) in
    let from_next : suc i.stream_sequence ≡ 1 + length sent = omega (arith, at) in
    (
      CountsFrom-append 1 sent (flush_pending i now).0 counted
          (subst (λ m. CountsFrom m (flush_pending i now).0) from_next more),
      omega (arith, sum, at, after),
    )

-- Whatever the core queues and flushes, as long as it has sent fewer than 2 ^ 64 frames: the frames
-- carry the payloads that it drained, one each and in their order, they are numbered from 1 without
-- a gap, and the core's sequence is their number. Between these the core may change the rest of its
-- state in any way.
pub Sends-CountsFrom :
    {i : AppCoreInner} {drained : List StreamPayload} {sent : List StreamFrame}
    → Sends i drained sent
    → length sent < 2 ^ 64
    → (payloads_of sent ≡ drained) × CountsFrom 1 sent × (i.stream_sequence ≡ length sent)
Sends-CountsFrom s h = let (counted, at) = Sends-counts s h in (Sends-payloads_of s, counted, at)
