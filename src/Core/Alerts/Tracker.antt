-- ===== src/Core/Alerts/Tracker.antt =====
-- When a threshold that is exceeded for some time is reported.
use llm_notch.Prelude.{
  ℕ, ◌-◌, ◌^◌, ◌≤◌, ◌≡◌, refl, ◌∙◌, Bool, true, false, ◌&&◌, ◌||◌, List, [], ◌∷◌, Option, none,
  some, arith, inl, inr, Bool-cases, subst, sym, if◌then◌else◌,
}
use llm_notch.Prelude.Int.{ℤ, pos, ◌+ℤ◌, ◌≤ℤ◌, leb_ℤ, saturating_sub-le_iff}
use llm_notch.Core.Alerts.{ThresholdTracker, idle, observe, or_now}

pub record Observation : Type 0 where
  pub now_ms : ℤ
  pub above : Bool

-- The tracker after a history, the newest observation first.
pub track : ℕ → List Observation → ThresholdTracker
unfolding observe
track required [] = idle
track required (o ∷ older) = (observe (track required older) o.now_ms o.above required).1

-- Going back through observations above the threshold only, one is met that is at least the required
-- time older than `now`.
pub lasted : ℕ → ℤ → List Observation → Bool
lasted required now [] = false
lasted required now (o ∷ older) =
    o.above && (leb_ℤ (o.now_ms +ℤ pos required) now || lasted required now older)

-- No observation is later than the one after it.
abbrev pub InOrder : List Observation → Type 0
InOrder [] = Unit
InOrder (o ∷ []) = Unit
InOrder (o ∷ p ∷ older) = (p.now_ms ≤ℤ o.now_ms) × InOrder (p ∷ older)

-- The start of the run that the tracker remembers.
abbrev Explains : ℕ → ℤ → List Observation → Option ℤ → Type 0
Explains required now history none = lasted required now history ≡ false
Explains required now history (some since) =
    lasted required now history ≡ leb_ℤ (since +ℤ pos required) now

abbrev NotAfter : Option ℤ → ℤ → Type 0
NotAfter none t = Unit
NotAfter (some since) t = since ≤ℤ t

InOrder-tail : (o : Observation) (older : List Observation) → InOrder (o ∷ older) → InOrder older
InOrder-tail o [] h = tt
InOrder-tail o (p ∷ older) h = h.1

abbrev start_after : Option ℤ → Observation → Option ℤ
start_after start o = if o.above then some (or_now start o.now_ms) else none

track_start :
    (required : ℕ) (o : Observation) (older : List Observation)
    → (track required (o ∷ older)).above_since_ms
      ≡ start_after (track required older).above_since_ms o
unfolding track
track_start required o older = ground arith

NotAfter-start :
    (start : Option ℤ) (o : Observation) (later : ℤ)
    → NotAfter start o.now_ms
    → o.now_ms ≤ℤ later
    → NotAfter (start_after start o) later
NotAfter-start none o later a h =
    elim o.above as (λ b. NotAfter (if b then some o.now_ms else none) later) [
      | true ↦ h
      | false ↦ tt
    ]
NotAfter-start (some since) o later a h =
    elim o.above as (λ b. NotAfter (if b then some since else none) later) [
      | true ↦ omega arith
      | false ↦ tt
    ]

start-NotAfter :
    (required : ℕ) (o : Observation) (older : List Observation)
    → InOrder (o ∷ older)
    → NotAfter (track required older).above_since_ms o.now_ms
unfolding track
start-NotAfter required o [] h = tt
start-NotAfter required o (p ∷ older) h =
    subst (λ start. NotAfter start o.now_ms) (sym (track_start required p older))
      (NotAfter-start (track required older).above_since_ms p o.now_ms
        (start-NotAfter required p older h.1) h.0)

Explains-start :
    (required : ℕ) (now : ℤ) (o : Observation) (older : List Observation) (start : Option ℤ)
    → NotAfter start o.now_ms
    → Explains required now older start
    → Explains required now (o ∷ older) (start_after start o)
unfolding lasted ◌+ℤ◌
Explains-start required now o older none a e = ground arith
Explains-start required now o older (some since) a e = ground arith

explained :
    (required : ℕ) (now : ℤ) (history : List Observation)
    → InOrder history
    → Explains required now history (track required history).above_since_ms
unfolding track lasted
explained required now [] h = refl
explained required now (o ∷ older) h =
    subst (Explains required now (o ∷ older)) (sym (track_start required o older)) (
      Explains-start required now o older (track required older).above_since_ms
        (start-NotAfter required o older h) (explained required now older (InOrder-tail o older h)))

observe_fires :
    (t : ThresholdTracker) (now : ℤ) (above : Bool) (required : ℕ)
    → required ≤ 2 ^ 63 - 1
    → (observe t now above required).0
      ≡ (if above then leb_ℤ (or_now t.above_since_ms now +ℤ pos required) now else false)
unfolding observe
observe_fires t now true required small =
    saturating_sub-le_iff now (or_now t.above_since_ms now) required small
observe_fires t now false required small = refl

reported :
    (required : ℕ) (o : Observation) (older : List Observation) (start : Option ℤ)
    → Explains required o.now_ms (o ∷ older) (start_after start o)
    → lasted required o.now_ms (o ∷ older)
      ≡ (if o.above then leb_ℤ (or_now start o.now_ms +ℤ pos required) o.now_ms else false)
reported required o older start e = elim (Bool-cases o.above) [
  | inl up ↦ rw up (rw up at e)
  | inr down ↦ rw down (rw down at e)
]

-- The tracker reports an observation exactly when the value has been above the threshold in every
-- observation for the required time; one observation below it starts the time anew. The times must
-- not run backwards.
pub observe-lasted :
    (required : ℕ) (o : Observation) (older : List Observation)
    → required ≤ 2 ^ 63 - 1
    → InOrder (o ∷ older)
    → (observe (track required older) o.now_ms o.above required).0
      ≡ lasted required o.now_ms (o ∷ older)
observe-lasted required o older small h =
    let start = (track required older).above_since_ms in
    observe_fires (track required older) o.now_ms o.above required small
    ∙ sym (
        reported required o older start (
          Explains-start required o.now_ms o older start (start-NotAfter required o older h)
            (explained required o.now_ms older (InOrder-tail o older h))))
