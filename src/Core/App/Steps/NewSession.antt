-- ===== src/Core/App/Steps/NewSession.antt =====
-- `session_start` by the registry's steps. It does not panic, and a new session does not take the
-- place of another, if no session of another external key has the id that the hash gives.
use llm_notch.Prelude.{
  ℕ, String, ◌≡◌, refl, ◌∙◌, sym, ap, Bool, true, none, some, arith, inl, inr, Option-cases,
  text_key,
}
use llm_notch.HashMap
use llm_notch.HashMap.Laws.{get-insert, get-remove, beq_refl}
use llm_notch.Protocol.{AgentSource, AgentSession, SessionEvent, StreamPayload}
use llm_notch.Core.Error.{ok}
use llm_notch.Core.Registry
use llm_notch.Core.Registry.{
  SessionRegistry, external_key, put_session, record_idempotency, remove_session,
  insert_new_session, append_event, push_event,
}
use llm_notch.Core.Registry.Invariant.{IsWellFormed, key_of}
use llm_notch.Core.Registry.Invariant.Operations.{insert_new_session-IsWellFormed}
use llm_notch.Core.Registry.Invariant.Reachable.{Step, Reach, Reach-keeps}
use llm_notch.Core.Repository.{SessionRepository}
use llm_notch.Core.App.Commands.{SessionStartCommand}
use llm_notch.Core.App.Handler.{on_registry}
use llm_notch.Core.App.Handler.Outcome.{after, either_way, by_result}
use llm_notch.Core.App.Handler.Outcome.Ends.{succeeds}
use llm_notch.Core.App.Start.{
  replay_of, started, remember, known, insert_session, is_used, replay_by_key, evict, make_room,
  announce, start_new, start_unless_known, session_start,
}
use llm_notch.Core.App.Steps.{
  Takes, Anything, bool_lem, option_lem, lift_lem, asks_lem, gets_lem, calls_lem, given_lem,
  returns_lem, forget_lem, queue_lem, append_keeps,
}
use llm_notch.Core.App.Steps.KnownSession.{require_events_lem}

module _ (session_id_for : AgentSource → String → String) (cmd : SessionStartCommand) where
  -- A session with the id of the command has its external key.
  abbrev pub OwnsId : SessionRegistry → Type 0
  OwnsId r =
      (t : AgentSession)
      → HashMap.get r.sessions (session_id_for cmd.source cmd.external_session_id) ≡ some t
      → key_of t ≡ external_key cmd.source cmd.external_session_id

  remove_session-OwnsId :
      (r : SessionRegistry) (id : String) → OwnsId r → OwnsId (remove_session r id).1
  unfolding remove_session
  remove_session-OwnsId r id h t there = elim (Option-cases (HashMap.get r.sessions id)) [
    | inl absent ↦ h t (ground arith)
    | inr (gone, found) ↦ h t (
        ground
          (arith, get-remove r.sessions id (session_id_for cmd.source cmd.external_session_id)))
  ]

  free_id :
      (r : SessionRegistry)
      → IsWellFormed r
      → OwnsId r
      → HashMap.get r.external_index (external_key cmd.source cmd.external_session_id) ≡ none
      → HashMap.get r.sessions (session_id_for cmd.source cmd.external_session_id) ≡ none
  free_id r g owns free =
      let id = session_id_for cmd.source cmd.external_session_id in
      elim (Option-cases (HashMap.get r.sessions id)) [
        | inl absent ↦ absent
        | inr (t, there) ↦ absurd (
            cc (
              sym free
              ∙ ap (HashMap.get r.external_index) (sym (owns t there))
              ∙ g.indexed id t there))
      ]

abbrev Stored : AgentSession → SessionRegistry → Type 0
Stored session r = HashMap.get r.sessions session.id ≡ some session

pub append_event-sessions :
    (r : SessionRegistry) (e : SessionEvent) → (append_event r e).1.sessions ≡ r.sessions
unfolding append_event push_event
append_event-sessions r e = ground arith

insert_new_session-Stored :
    (session_id_for : AgentSource → String → String) (r r' : SessionRegistry) (source : AgentSource)
    (external : String) (build : String → AgentSession) (s : AgentSession) (replay : Bool)
    → IsWellFormed r
    → insert_new_session session_id_for r source external build ≡ some (ok (s, replay), r')
    → Stored s r'
unfolding insert_new_session Registry.upsert_session put_session
insert_new_session-Stored f r r' source external build s replay h e =
    elim (Option-cases (HashMap.get r.external_index (external_key source external))) [
      | inr (id, known) ↦ elim (Option-cases (HashMap.get r.sessions id)) [
        | inl lost ↦ ground arith
        | inr (t, there) ↦ ground (arith, h.own_id id t there)
      ]
      | inl free ↦ ground (
        arith,
        get-insert r.sessions (build (f source external)).id (build (f source external))
            (build (f source external)).id,
        beq_refl (build (f source external)).id,
      )
    ]

module _ {R : Type 0} {session_id_for : AgentSource → String → String} {start : SessionRegistry}
    (cmd : SessionStartCommand) where
  known_lem :
      {K : SessionRegistry → Type 0} → Takes session_id_for start {R = R} K (known cmd) (λ _. K)
  unfolding known
  known_lem = gets_lem _

  remember_lem :
      (key : String)
      → Takes session_id_for start {R = R}
          (OwnsId session_id_for cmd)
          (remember key)
          (λ _. OwnsId session_id_for cmd)
  unfolding remember on_registry record_idempotency
  remember_lem key = record {
    run = λ i s p.
        succeeds
          (record { goes = Reach.next p.goes (Step.records i.registry key); holds = p.holds });
  }

  remove_lem :
      (id : String)
      → Takes session_id_for start {R = R}
          (OwnsId session_id_for cmd)
          (on_registry (λ r. remove_session r id))
          (λ _. OwnsId session_id_for cmd)
  unfolding on_registry
  remove_lem id = record {
    run = λ i s p.
        let goes = Reach.next p.goes (Step.removes i.registry id) in
        either_way (remove_session i.registry id).0 goes (λ _. record {
          goes = goes;
          holds = remove_session-OwnsId session_id_for cmd i.registry id p.holds;
        });
  }

  upsert_lem :
      (session t : AgentSession)
      → t.id ≡ session.id
      → key_of t ≡ key_of session
      → Takes session_id_for start {R = R}
          (Stored session)
          (on_registry (λ r. Registry.upsert_session r t))
          (λ _. Anything)
  unfolding on_registry
  upsert_lem session t same_id same_key = record {
    run = λ i s p.
        let there = ap (HashMap.get i.registry.sessions) same_id ∙ p.holds in
        let goes = Reach.next p.goes (Step.upserts i.registry t session there same_key) in
        either_way (Registry.upsert_session i.registry t).0 goes
          (λ _. record { goes = goes; holds = tt });
  }

  module _ (h : IsWellFormed start) where
    insert_session_lem :
        Takes session_id_for start {R = R}
          (OwnsId session_id_for cmd)
          (insert_session session_id_for cmd)
          (λ x. Stored x.0)
    unfolding insert_session
    insert_session_lem = record {
      run = λ i s p.
          let g = Reach-keeps h p.goes in
          let free = free_id session_id_for cmd i.registry g p.holds in
          let (x, e, _) =
            insert_new_session-IsWellFormed session_id_for i.registry cmd.source
              cmd.external_session_id (started cmd) g (λ id. (refl, refl)) free in
          let goes = Reach.next p.goes (
            Step.inserts i.registry cmd.source cmd.external_session_id (started cmd) x.0 x.1
              (λ id. (refl, refl)) free e) in
          rw (e, insert_session)
            (by_result x.0 goes (λ made fine. record {
              goes = goes;
              holds =
                  insert_new_session-Stored session_id_for i.registry x.1 cmd.source
                    cmd.external_session_id (started cmd) made.0 made.1 g
                    (e ∙ ap (λ r. some (r, x.1)) fine);
            }));
    }

module _ {R : Type 0} (repository : SessionRepository R)
    {session_id_for : AgentSource → String → String} {start : SessionRegistry}
    (cmd : SessionStartCommand) where
  is_used_lem :
      (key : String)
      → Takes session_id_for start
          (OwnsId session_id_for cmd)
          (is_used repository key cmd)
          (λ _. OwnsId session_id_for cmd)
  unfolding is_used
  is_used_lem key = after (gets_lem _) λ seen. bool_lem seen (returns_lem true) (calls_lem _)

  replay_by_key_lem :
      (key : String)
      → Takes session_id_for start
          (OwnsId session_id_for cmd)
          (replay_by_key repository cmd key)
          (λ _. OwnsId session_id_for cmd)
  unfolding replay_by_key
  replay_by_key_lem key = after (is_used_lem key) λ used.
      after (bool_lem used (known_lem cmd) (returns_lem none)) λ found.
        option_lem found (after (remember_lem cmd key) λ _. returns_lem none)
          λ session. returns_lem (some session)

  evict_lem :
      (id : String)
      → Takes session_id_for start
          (OwnsId session_id_for cmd)
          (evict repository id)
          (λ _. OwnsId session_id_for cmd)
  unfolding evict
  evict_lem id =
      after (calls_lem _)
        λ _. after (remove_lem cmd id) λ _. queue_lem (StreamPayload.session_remove id)

  make_room_lem :
      Takes session_id_for start
        (OwnsId session_id_for cmd)
        (make_room repository)
        (λ _. OwnsId session_id_for cmd)
  unfolding make_room
  make_room_lem = after (asks_lem _) λ candidate. given_lem candidate _ (λ id. evict_lem id)

  module _ (event_id : ℕ) where
    announce_lem :
        (session : AgentSession)
        → Takes session_id_for start
            (Stored session)
            (announce repository session_id_for event_id cmd session)
            (λ _. Anything)
    unfolding announce
    announce_lem session =
        let session' = record session { last_event_at_ms = cmd.occurred_at_ms } in
        after (calls_lem _) λ _.
          after
            (append_keeps repository session.id _
              (λ r e p. ap (λ m. HashMap.get m session.id) (append_event-sessions r e) ∙ p))
            λ event. after (upsert_lem cmd session session' refl refl) λ _.
              after (calls_lem _)
                λ _. after (queue_lem (StreamPayload.session_upsert session')) λ _. returns_lem _

    module _ (h : IsWellFormed start) where
      start_new_lem :
          Takes session_id_for start
            (OwnsId session_id_for cmd)
            (start_new repository session_id_for event_id cmd)
            (λ _. Anything)
      unfolding start_new
      start_new_lem = after make_room_lem λ _.
          after (insert_session_lem cmd h)
            λ x. bool_lem x.1 (forget_lem (replay_of x.0)) (announce_lem x.0)

      start_unless_known_lem :
          Takes session_id_for start
            (OwnsId session_id_for cmd)
            (start_unless_known repository session_id_for event_id cmd)
            (λ _. Anything)
      unfolding start_unless_known
      start_unless_known_lem = after (require_events_lem cmd.source) λ _. after (lift_lem _) λ _.
          after (known_lem cmd)
            λ existing. option_lem existing start_new_lem λ session. forget_lem (replay_of session)

      pub session_start_lem :
          Takes session_id_for start
            (OwnsId session_id_for cmd)
            (session_start repository session_id_for event_id cmd)
            (λ _. Anything)
      unfolding session_start
      session_start_lem = after (lift_lem _) λ _. after (lift_lem _) λ _.
          after (given_lem cmd.workspace_label _ (λ label. lift_lem _)) λ _.
            after (option_lem cmd.idempotency_key (returns_lem none) (λ key. replay_by_key_lem key))
              λ replayed.
                option_lem replayed start_unless_known_lem λ session. forget_lem (replay_of session)
