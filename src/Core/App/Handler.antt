-- ===== src/Core/App/Handler.antt =====
-- crates/notch-core/src/app_core.rs: the effects of a handler on the locked state and the
-- repository. What was written stays written where a handler then fails; `none` is a panic.
pub mod Outcome
pub mod Runs
use llm_notch.Prelude.{String, Bool, true, false, Option, none, some, text_key}
use llm_notch.HashMap
use llm_notch.Protocol.{AgentSession, SessionEvent, StreamPayload}
use llm_notch.Core.Error.{CoreError, CoreResult, ok, err, ok_or}
use llm_notch.Core.Registry.{SessionRegistry, update_session}
use llm_notch.Core.Repository.{SessionRepository}
use llm_notch.Core.App.{AppCoreInner, EventParts, queue_payload, record_event}

abbrev pub Outcome : Type 0 → Type 0 → Type 0
Outcome R A = Option (CoreResult A × AppCoreInner × R)

abbrev pub Handler : Type 0 → Type 0 → Type 0
Handler R A = AppCoreInner → R → Outcome R A

module _ {R A : Type 0} where
  unfoldable pub pure : A → Handler R A
  pure a inner store = some (ok a, inner, store)

  unfoldable pub throw : CoreError → Handler R A
  throw e inner store = some (err e, inner, store)

  -- A check that neither reads nor writes.
  unfoldable pub lift : CoreResult A → Handler R A
  lift r inner store = some (r, inner, store)

  unfoldable pub gets : (AppCoreInner → A) → Handler R A
  gets f inner store = some (ok (f inner), inner, store)

  unfoldable pub asks : (AppCoreInner → CoreResult A) → Handler R A
  asks f inner store = some (f inner, inner, store)

  -- A call of the repository.
  unfoldable pub calls : (R → CoreResult A × R) → Handler R A
  calls f inner store = some ((f store).0, inner, (f store).1)

  -- A method of the registry.
  unfoldable pub on_registry : (SessionRegistry → CoreResult A × SessionRegistry) → Handler R A
  on_registry f inner store =
      some ((f inner.registry).0, record inner { registry = (f inner.registry).1 }, store)

module _ {R : Type 0} where
  unfoldable pub proceed : {A B : Type 0} → Outcome R A → (A → Handler R B) → Outcome R B
  proceed none f = none
  proceed (some (ok a, inner, store)) f = f a inner store
  proceed (some (err e, inner, store)) f = some (err e, inner, store)

  infixl 5 ◌>>=◌ ◌>>◌
  unfoldable pub ◌>>=◌ : {A B : Type 0} → Handler R A → (A → Handler R B) → Handler R B
  unfolding proceed
  ◌>>=◌ m f inner store = proceed (m inner store) f

  abbrev pub ◌>>◌ : {B : Type 0} → Handler R (Unit {0}) → Handler R B → Handler R B
  m >> k = m >>= λ _. k

  unfoldable pub guard : Bool → CoreError → Handler R (Unit {0})
  unfolding pure throw
  guard true e = pure tt
  guard false e = throw e

  -- A check of a field that a command may leave out.
  unfoldable pub given : {A : Type 0} → Option A → (A → Handler R (Unit {0})) → Handler R (Unit {0})
  unfolding pure
  given none f = pure tt
  given (some a) f = f a

  -- `get_mut(id).expect("resolved session")`
  unfoldable pub expect_session : String → Handler R AgentSession
  expect_session id inner store = elim (HashMap.get inner.registry.sessions id) [
    | none ↦ none
    | some session ↦ some (ok session, inner, store)
  ]

  -- `get_mut(id).ok_or_else(…)`
  unfoldable pub find_session : String → CoreError → Handler R AgentSession
  find_session id e inner store =
      some (ok_or (HashMap.get inner.registry.sessions id) e, inner, store)

  -- A write through the reference that `get_mut` returned.
  unfoldable pub write_session : String → (AgentSession → AgentSession) → Handler R (Unit {0})
  unfolding update_session
  write_session id f inner store =
      some (ok tt, record inner { registry = update_session inner.registry id f }, store)

  unfoldable pub queue : StreamPayload → Handler R (Unit {0})
  unfolding queue_payload
  queue payload inner store = some (ok tt, queue_payload inner payload, store)

module _ {R : Type 0} (repository : SessionRepository R) where
  unfoldable pub append : String → EventParts → Handler R SessionEvent
  unfolding record_event
  append id parts inner store = some (record_event repository inner store id parts)

  -- The session as it now is in the registry goes to the repository. `none` cannot be: the
  -- reference is still held.
  unfoldable pub save_session : String → Handler R AgentSession
  unfolding expect_session
  save_session id = do
    session ← expect_session id
    calls (λ r. repository.upsert_session r session)
    pure session
