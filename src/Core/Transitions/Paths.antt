-- ===== src/Core/Transitions/Paths.antt =====
-- The statuses that a session can pass through, by valid changes of status.
use llm_notch.Prelude.{◌≡◌, refl, ◌⊎◌, inl, true, arith}
use llm_notch.Protocol.{SessionStatus}
use llm_notch.Protocol.SessionStatus.{stale}
use llm_notch.Core.Error.{ok}
use llm_notch.Core.Transitions.{validate_transition, is_terminal}

pub data History (s : SessionStatus) : SessionStatus → Type 0 where
  here : History s s
  next : {t u : SessionStatus} → History s t → validate_transition t u ≡ ok tt → History s u

after_end_step :
    (s t u : SessionStatus)
    → is_terminal s ≡ true
    → (t ≡ s) ⊎ (t ≡ stale)
    → validate_transition t u ≡ ok tt
    → (u ≡ s) ⊎ (u ≡ stale)
unfolding is_terminal validate_transition
after_end_step s t u e h v = ground arith

-- Once a session is completed, failed or stale, every later status is that same one or stale.
pub History-after_end :
    {s t : SessionStatus} → is_terminal s ≡ true → History s t → (t ≡ s) ⊎ (t ≡ stale)
History-after_end e here = inl refl
History-after_end {s} e (next {t = t} {u = u} h v) =
    after_end_step s t u e (History-after_end e h) v
