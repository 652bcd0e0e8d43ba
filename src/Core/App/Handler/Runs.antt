-- ===== src/Core/App/Handler/Runs.antt =====
-- What a run of each effect gives, for a proof that follows one path of a handler.
use llm_notch.Prelude.{String, ◌≡◌, refl, ap, ◌∙◌, Bool, true, Option, none, some, text_key}
use llm_notch.HashMap
use llm_notch.Protocol.{AgentSession}
use llm_notch.Core.Error.{CoreError, CoreResult, ok, err}
use llm_notch.Core.Registry.{update_session}
use llm_notch.Core.Repository.{SessionRepository}
use llm_notch.Core.App.{AppCoreInner}
use llm_notch.Core.App.Handler.{
  Handler, proceed, ◌>>=◌, lift, asks, calls, guard, given, pure, expect_session, write_session,
  save_session,
}

module _ {R A B : Type 0} (m : Handler R A) (f : A → Handler R B) {i i' : AppCoreInner}
    {s s' : R} where
  -- A step that succeeds, and one that fails.
  pub go : {a : A} → m i s ≡ some (ok a, i', s') → (m >>= f) i s ≡ f a i' s'
  unfolding ◌>>=◌ proceed
  go e = ap (λ o. proceed o f) e

  pub stop : {x : CoreError} → m i s ≡ some (err x, i', s') → (m >>= f) i s ≡ some (err x, i', s')
  unfolding ◌>>=◌ proceed
  stop e = ap (λ o. proceed o f) e

module _ {R : Type 0} (i : AppCoreInner) (s : R) where
  pub lifts : {A : Type 0} {r r' : CoreResult A} → r ≡ r' → lift r i s ≡ some (r', i, s)
  unfolding lift
  lifts e = ap (λ x. some (x, i, s)) e

  pub asks_run :
      {A : Type 0} (f : AppCoreInner → CoreResult A) {r : CoreResult A}
      → f i ≡ r
      → asks f i s ≡ some (r, i, s)
  unfolding asks
  asks_run f e = ap (λ x. some (x, i, s)) e

  pub calls_run :
      {A : Type 0} (f : R → CoreResult A × R) {r : CoreResult A} {s' : R}
      → f s ≡ (r, s')
      → calls f i s ≡ some (r, i, s')
  unfolding calls
  calls_run f e = ap (λ x. some (x.0, i, x.1)) e

  pub guard_run : {b : Bool} (e : CoreError) → b ≡ true → guard b e i s ≡ some (ok tt, i, s)
  unfolding guard
  guard_run e h = ap (λ b. guard b e i s) h

  pub given-none :
      {A : Type 0} {o : Option A} (f : A → Handler R (Unit {0}))
      → o ≡ none
      → given o f i s ≡ some (ok tt, i, s)
  unfolding given pure
  given-none f e = ap (λ o. given o f i s) e

  pub given-some :
      {A : Type 0} {o : Option A} {a : A} (f : A → Handler R (Unit {0}))
      → o ≡ some a
      → given o f i s ≡ f a i s
  unfolding given
  given-some f e = ap (λ o. given o f i s) e

  pub expect_run :
      {t : AgentSession} (id : String)
      → HashMap.get i.registry.sessions id ≡ some t
      → expect_session id i s ≡ some (ok t, i, s)
  unfolding expect_session
  expect_run id e = ap (λ o. elim o [ none ↦ none | some x ↦ some (ok x, i, s) ]) e

  pub write_run :
      (id : String) (f : AgentSession → AgentSession)
      → write_session id f i s
        ≡ some (ok tt, record i { registry = update_session i.registry id f }, s)
  unfolding write_session
  write_run id f = refl

  pub save_run :
      (repository : SessionRepository R) {s' : R} {t : AgentSession} (id : String)
      → HashMap.get i.registry.sessions id ≡ some t
      → repository.upsert_session s t ≡ (ok tt, s')
      → save_session repository id i s ≡ some (ok t, i, s')
  unfolding save_session
  save_run repository id there saved =
      go _ _ (expect_run id there) ∙ go _ _ (calls_run _ saved) ∙ unfold pure in refl
