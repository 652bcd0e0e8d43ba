-- ===== src/Core/App/Steps.antt =====
-- Each effect of a handler takes the registry by the registry's own steps.
pub mod KnownSession
pub mod NewSession
pub mod Serving
pub mod Upkeep
use llm_notch.Prelude.{
  String, ◌≡◌, refl, ◌∙◌, sym, ap, subst, Bool, true, false, Option, none, some, arith, inl, inr,
  Option-cases, text_key,
}
use llm_notch.HashMap
use llm_notch.HashMap.Laws.{contains_key-modify, contains_key_of_get}
use llm_notch.Protocol.{AgentSource, AgentSession, SessionEvent, StreamPayload}
use llm_notch.Core.Error.{CoreError, CoreResult, ok, err, ok_or, CoreResult-cases}
use llm_notch.Core.Registry.{
  SessionRegistry, external_key, resolve_external, update_session, append_event,
}
use llm_notch.Core.Registry.Invariant.{IsWellFormed}
use llm_notch.Core.Registry.Invariant.Reachable.{Step, Reach, Reach-keeps}
use llm_notch.Core.Registry.Invariant.Updates.{SameIdentity}
use llm_notch.Core.Repository.{SessionRepository}
use llm_notch.Core.App.{
  AppCoreInner, EventParts, record_event, appended_event, saved_event, event_of, queue_payload,
  resolve_session_id, id_of,
}
use llm_notch.Core.App.Handler.{
  Handler, lift, asks, gets, pure, guard, given, expect_session, find_session, write_session,
  save_session, queue, append, calls,
}
use llm_notch.Core.App.Handler.Outcome.{Ends, Triple, after, either_way, pure_lem}
use llm_notch.Core.App.Handler.Outcome.Ends.{succeeds, fails}
use llm_notch.Core.App.Events.{resolve}

abbrev pub Anything : SessionRegistry → Type 0
Anything r = Unit {0}

abbrev pub Has : String → SessionRegistry → Type 0
Has id r = HashMap.contains_key r.sessions id ≡ true

module _ (session_id_for : AgentSource → String → String) (start : SessionRegistry) where
  -- The registry is one that the steps lead to, and `K` holds of it.
  pub record At {R : Type 0} (K : SessionRegistry → Type 0) (i : AppCoreInner) (s : R)
      : Type 0 where
    pub goes : Reach session_id_for start i.registry
    pub holds : K i.registry

  abbrev pub Goes : {R : Type 0} → AppCoreInner → R → Type 0
  Goes i s = Reach session_id_for start i.registry

  -- A handler, from a registry of which `K` holds to one of which `L` holds if it succeeds.
  abbrev pub Takes :
      {R A : Type 0}
      → (SessionRegistry → Type 0)
      → Handler R A
      → (A → SessionRegistry → Type 0)
      → Type 0
  Takes K m L = Triple Goes (At K) m (λ a. At (L a))

module _ {R : Type 0} {session_id_for : AgentSource → String → String}
    {start : SessionRegistry} where
  pub lift_lem :
      {A : Type 0} {K : SessionRegistry → Type 0} (r : CoreResult A)
      → Takes session_id_for start {R = R} K (lift r) (λ _. K)
  unfolding lift
  lift_lem r = record { run = λ i s p. either_way r p.goes (λ _. p) }

  pub asks_lem :
      {A : Type 0} {K : SessionRegistry → Type 0} (f : AppCoreInner → CoreResult A)
      → Takes session_id_for start {R = R} K (asks f) (λ _. K)
  unfolding asks
  asks_lem f = record { run = λ i s p. either_way (f i) p.goes (λ _. p) }

  pub gets_lem :
      {A : Type 0} {K : SessionRegistry → Type 0} (f : AppCoreInner → A)
      → Takes session_id_for start {R = R} K (gets f) (λ _. K)
  unfolding gets
  gets_lem f = record { run = λ i s p. succeeds p }

  pub calls_lem :
      {A : Type 0} {K : SessionRegistry → Type 0} (f : R → CoreResult A × R)
      → Takes session_id_for start {R = R} K (calls f) (λ _. K)
  unfolding calls
  calls_lem f = record {
    run = λ i s p. either_way (f s).0 p.goes (λ _. record { goes = p.goes; holds = p.holds });
  }

  pub guard_lem :
      {K : SessionRegistry → Type 0} (b : Bool) (e : CoreError)
      → Takes session_id_for start {R = R} K (guard b e) (λ _. K)
  unfolding guard
  guard_lem true e = record { run = λ i s p. succeeds p }
  guard_lem false e = record { run = λ i s p. fails p.goes }

  pub given_lem :
      {A : Type 0} {K : SessionRegistry → Type 0} (o : Option A) (f : A → Handler R (Unit {0}))
      → ((a : A) → Takes session_id_for start K (f a) (λ _. K))
      → Takes session_id_for start {R = R} K (given o f) (λ _. K)
  unfolding given
  given_lem none f h = record { run = λ i s p. succeeds p }
  given_lem (some a) f h = h a

  pub bool_lem :
      {A : Type 0} {K : SessionRegistry → Type 0} {L : A → SessionRegistry → Type 0}
      {m n : Handler R A} (b : Bool)
      → Takes session_id_for start K m L
      → Takes session_id_for start K n L
      → Takes session_id_for start K (elim b [ true ↦ m | false ↦ n ]) L
  bool_lem true h k = h
  bool_lem false h k = k

  pub option_lem :
      {A B : Type 0} {K : SessionRegistry → Type 0} {L : A → SessionRegistry → Type 0}
      {m : Handler R A} {f : B → Handler R A} (o : Option B)
      → Takes session_id_for start K m L
      → ((b : B) → Takes session_id_for start K (f b) L)
      → Takes session_id_for start K (elim o [ none ↦ m | some b ↦ f b ]) L
  option_lem none h k = h
  option_lem (some b) h k = k b

  pub returns_lem :
      {A : Type 0} {K : SessionRegistry → Type 0} (a : A)
      → Takes session_id_for start {R = R} K (pure a) (λ _. K)
  returns_lem a = pure_lem a (λ i s p. p)

  pub forget_lem :
      {A : Type 0} {K : SessionRegistry → Type 0} (a : A)
      → Takes session_id_for start {R = R} K (pure a) (λ _. Anything)
  forget_lem a = pure_lem a (λ i s p. record { goes = p.goes; holds = tt })

  pub queue_lem :
      {K : SessionRegistry → Type 0} (payload : StreamPayload)
      → Takes session_id_for start {R = R} K (queue payload) (λ _. K)
  unfolding queue
  queue_lem payload = record { run = λ i s p. succeeds (record { goes = p.goes; holds = p.holds }) }

  pub write_session_lem :
      (id : String) (f : AgentSession → AgentSession)
      → ((t : AgentSession) → SameIdentity (f t) t)
      → Takes session_id_for start {R = R} (Has id) (write_session id f) (λ _. Has id)
  unfolding write_session
  write_session_lem id f same = record {
    run = λ i s p. succeeds (record {
      goes = Reach.next p.goes (Step.updates i.registry id f same);
      holds = contains_key-modify i.registry.sessions id f id ∙ p.holds;
    });
  }

  pub write_lem :
      {K : SessionRegistry → Type 0} (id : String) (f : AgentSession → AgentSession)
      → ((t : AgentSession) → SameIdentity (f t) t)
      → Takes session_id_for start {R = R} K (write_session id f) (λ _. Anything)
  unfolding write_session
  write_lem id f same = record {
    run = λ i s p.
        succeeds
          (record { goes = Reach.next p.goes (Step.updates i.registry id f same); holds = tt });
  }

  pub expect_session_lem :
      (id : String) → Takes session_id_for start {R = R} (Has id) (expect_session id) (λ _. Has id)
  unfolding expect_session
  expect_session_lem id = record {
    run = λ i s p. elim (Option-cases (HashMap.get i.registry.sessions id)) [
      | inl absent ↦ absurd (unfold HashMap.contains_key in ground (arith, p.holds))
      | inr (t, there) ↦ rw (there, expect_session) (succeeds p)
    ];
  }

module _ {R : Type 0} {session_id_for : AgentSource → String → String}
    {start : SessionRegistry} where
  pub find_session_lem :
      {K : SessionRegistry → Type 0} (id : String) (e : CoreError)
      → Takes session_id_for start {R = R} K (find_session id e) (λ _. Has id)
  unfolding find_session
  find_session_lem id e = record {
    run = λ i s p. elim (Option-cases (HashMap.get i.registry.sessions id)) [
      | inl absent ↦ rw (absent, find_session) (fails p.goes)
      | inr (t, there) ↦
          rw (there, find_session)
            (succeeds (record {
              goes = p.goes;
              holds = contains_key_of_get i.registry.sessions id t there;
            }))
    ];
  }

-- Whatever the answers, the event goes to the registry and nothing else does.
pub appended_event-registry :
    {R : Type 0} (repository : SessionRepository R) (inner : AppCoreInner) (store : R)
    (event : SessionEvent) (r : CoreResult (Unit {0}))
    → (appended_event repository inner store event r).1.registry ≡ inner.registry
unfolding appended_event queue_payload
appended_event-registry repository inner store event (err e) = refl
appended_event-registry repository inner store event (ok _) =
    elim (CoreResult-cases (repository.append_event store event).0) [
      | inl (_, saved) ↦ rw (saved, saved_event) refl
      | inr (_, refused) ↦ rw (refused, saved_event) refl
    ]

resolved-Has :
    (r : SessionRegistry) (source : AgentSource) (external id : String) (e : CoreError)
    → IsWellFormed r
    → ok_or (id_of (resolve_external r source external)) e ≡ ok id
    → Has id r
unfolding resolve_external HashMap.contains_key
resolved-Has r source external id e h found =
    elim (Option-cases (HashMap.get r.external_index (external_key source external))) [
      | inl absent ↦ ground arith
      | inr (j, indexed) ↦ elim (Option-cases (HashMap.get r.sessions j)) [
        | inl lost ↦ ground arith
        | inr (t, there) ↦ ground (arith, h.own_id j t there)
      ]
    ]

module _ {R : Type 0} (repository : SessionRepository R)
    {session_id_for : AgentSource → String → String} {start : SessionRegistry} where
  pub save_session_lem :
      (id : String) → Takes session_id_for start (Has id) (save_session repository id) (λ _. Has id)
  unfolding save_session
  save_session_lem id =
      after (expect_session_lem id)
        λ t. after (calls_lem (λ r. repository.upsert_session r t)) λ _. returns_lem t

  -- What an event leaves alone holds after it too.
  pub append_keeps :
      {K : SessionRegistry → Type 0} (id : String) (parts : EventParts)
      → ((r : SessionRegistry) (e : SessionEvent) → K r → K (append_event r e).1)
      → Takes session_id_for start K (append repository id parts) (λ _. K)
  unfolding append
  append_keeps {K = K} id parts keeps = record {
    run = λ i s p.
        let event = event_of i id parts in
        let next = record i { registry = (append_event i.registry event).1 } in
        let same =
          appended_event-registry repository next s event (append_event i.registry event).0 in
        let goes =
          subst (Reach session_id_for start) (sym same)
            (Reach.next p.goes (Step.appends i.registry event)) in
        either_way (record_event repository i s id parts).0 goes (λ _. record {
          goes = goes;
          holds = subst K (sym same) (keeps i.registry event p.holds);
        });
  }

  pub append_lem :
      {K : SessionRegistry → Type 0} (id : String) (parts : EventParts)
      → Takes session_id_for start K (append repository id parts) (λ _. Anything)
  append_lem id parts = record {
    run = λ i s p.
        (append_keeps {K = Anything} id parts (λ r e _. tt)).run i s
          (record { goes = p.goes; holds = tt });
  }

module _ {R : Type 0} {session_id_for : AgentSource → String → String} {start : SessionRegistry}
    (h : IsWellFormed start) where
  pub resolve_lem :
      {K : SessionRegistry → Type 0} (source : AgentSource) (external : String)
      → Takes session_id_for start {R = R} K (resolve source external) Has
  unfolding resolve asks resolve_session_id
  resolve_lem source external = record {
    run = λ i s p. elim (CoreResult-cases (resolve_session_id i source external)) [
      | inl (id, found) ↦
          rw (found, resolve)
            (succeeds (record {
              goes = p.goes;
              holds = resolved-Has i.registry source external id _ (Reach-keeps h p.goes) found;
            }))
      | inr (e, lost) ↦ rw (lost, resolve) (fails p.goes)
    ];
  }
