-- ===== src/Core/App/Partial.antt =====
-- crates/notch-core/src/app_core.rs: commands that fail after a part of their work.
use llm_notch.Prelude.{ℕ, String, ◌≡◌, refl, ap, true, Option, none, some, arith, text_key, ◌∙◌}
use llm_notch.HashMap
use llm_notch.HashMap.Laws.{get-modify, beq_refl}
use llm_notch.Protocol.{AgentSource, AgentSession, AdapterCapabilities, SessionStatus}
use llm_notch.Core.Error.{CoreError, ok, err}
use llm_notch.Core.Validation.{
  validate_external_session_id, validate_event_summary, validate_session_label,
  validate_workspace_label,
}
use llm_notch.Core.Transitions.{validate_transition}
use llm_notch.Core.Registry.{SessionRegistry, update_session}
use llm_notch.Core.Repository.{SessionRepository}
use llm_notch.Core.App.{AppCoreInner, resolve_session_id, capabilities_for}
use llm_notch.Core.App.Commands.{SessionEndCommand, SessionUpdateCommand}
use llm_notch.Core.App.Handler.{proceed, ◌>>=◌, asks, guard, given, pure}
use llm_notch.Core.App.Handler.Runs.{
  go, stop, lifts, given-none, given-some, asks_run, guard_run, expect_run, write_run, save_run,
}
use llm_notch.Core.App.Events.{
  require_events, update_label, update_workspace, update_status, is_end, end_session, end_summary,
  session_end, session_update,
}

-- A command about a session that the core knows and may hear of.
pub record Concerns (inner : AppCoreInner) (source : AgentSource) (external id : String)
    (session : AgentSession) : Type 0 where
  pub valid : validate_external_session_id external ≡ ok tt
  pub capabilities : AdapterCapabilities
  pub registered : capabilities_for inner source ≡ ok capabilities
  pub has_events : capabilities.events ≡ true
  pub resolved : resolve_session_id inner source external ≡ ok id
  pub stored : HashMap.get inner.registry.sessions id ≡ some session

module _ {R : Type 0} (inner : AppCoreInner) (store : R) where
  pub require_events_ok :
      (source : AgentSource) (c : AdapterCapabilities)
      → capabilities_for inner source ≡ ok c
      → c.events ≡ true
      → require_events source inner store ≡ some (ok tt, inner, store)
  unfolding require_events ◌>>=◌ proceed asks guard pure
  require_events_ok source c registered has_events = rw registered (rw has_events refl)

-- The session under its key, after a write to it.
pub updated :
    (r : SessionRegistry) (id : String) (f : AgentSession → AgentSession) (t : AgentSession)
    → HashMap.get r.sessions id ≡ some t
    → HashMap.get (update_session r id f).sessions id ≡ some (f t)
unfolding update_session
updated r id f t there = ground (arith, get-modify r.sessions id f id, beq_refl id)

-- The state with one session written.
abbrev pub written : AppCoreInner → String → (AgentSession → AgentSession) → AppCoreInner
written inner id f = record inner { registry = update_session inner.registry id f }

module _ {R : Type 0} (repository : SessionRepository R) (event_id : ℕ) (inner : AppCoreInner)
    (store store' : R) (id : String) (session : AgentSession) (e : CoreError) where
  -- The summary of an end is checked last. If it is not valid the command fails, but the session
  -- has ended, in the registry and in the repository; it has no event of its end, and nothing is
  -- queued for the stream.
  pub session_end_invalid_summary :
      (cmd : SessionEndCommand)
      → Concerns inner cmd.source cmd.external_session_id id session
      → is_end cmd.status ≡ true
      → validate_transition session.status cmd.status ≡ ok tt
      → repository.upsert_session store (end_session cmd.status cmd.occurred_at_ms session)
        ≡ (ok tt, store')
      → validate_event_summary (end_summary cmd.summary) ≡ err e
      → session_end repository event_id cmd inner store
        ≡ some (err e, written inner id (end_session cmd.status cmd.occurred_at_ms), store')
  unfolding session_end
  session_end_invalid_summary cmd c ends moves saved invalid =
      go _ _ (lifts inner store c.valid)
      ∙ go _ _ (require_events_ok inner store cmd.source c.capabilities c.registered c.has_events)
      ∙ go _ _ (asks_run inner store _ c.resolved)
      ∙ go _ _ (expect_run inner store id c.stored)
      ∙ go _ _ (guard_run inner store _ ends)
      ∙ go _ _ (lifts inner store moves)
      ∙ go _ _ (write_run inner store id _)
      ∙ go _ _ (
          save_run (written inner id (end_session cmd.status cmd.occurred_at_ms)) store repository
            id
            (updated inner.registry id (end_session cmd.status cmd.occurred_at_ms) session c.stored)
            saved)
      ∙ stop _ _
          (lifts (written inner id (end_session cmd.status cmd.occurred_at_ms)) store' invalid)

-- The session, and the state, with the labels that an update names.
abbrev pub with_label : Option String → AgentSession → AgentSession
with_label none s = s
with_label (some label) s = record s { label = label }

abbrev pub with_workspace : Option String → AgentSession → AgentSession
with_workspace none s = s
with_workspace (some workspace) s = record s { workspace_label = some workspace }

abbrev pub labelled : AppCoreInner → String → Option String → AppCoreInner
labelled inner id none = inner
labelled inner id (some label) = written inner id (with_label (some label))

abbrev pub placed : AppCoreInner → String → Option String → AppCoreInner
placed inner id none = inner
placed inner id (some workspace) = written inner id (with_workspace (some workspace))

-- Each is valid, if it is there.
abbrev pub IsValidLabel : Option String → Type 0
IsValidLabel none = Unit
IsValidLabel (some label) = validate_session_label label ≡ ok tt

abbrev pub IsValidWorkspace : Option String → Type 0
IsValidWorkspace none = Unit
IsValidWorkspace (some workspace) = validate_workspace_label workspace ≡ ok tt

get-labelled :
    (inner : AppCoreInner) (id : String) (o : Option String) (t : AgentSession)
    → HashMap.get inner.registry.sessions id ≡ some t
    → HashMap.get (labelled inner id o).registry.sessions id ≡ some (with_label o t)
get-labelled inner id none t there = there
get-labelled inner id (some label) t there =
    updated inner.registry id (with_label (some label)) t there

get-placed :
    (inner : AppCoreInner) (id : String) (o : Option String) (t : AgentSession)
    → HashMap.get inner.registry.sessions id ≡ some t
    → HashMap.get (placed inner id o).registry.sessions id ≡ some (with_workspace o t)
get-placed inner id none t there = there
get-placed inner id (some workspace) t there =
    updated inner.registry id (with_workspace (some workspace)) t there

status_kept :
    (o w : Option String) (t : AgentSession) → (with_workspace w (with_label o t)).status ≡ t.status
status_kept none none t = refl
status_kept none (some _) t = refl
status_kept (some _) none t = refl
status_kept (some _) (some _) t = refl

module _ {R : Type 0} (inner : AppCoreInner) (store : R) (id : String) where
  label_run :
      (o : Option String)
      → IsValidLabel o
      → given o (update_label id) inner store ≡ some (ok tt, labelled inner id o, store)
  unfolding update_label
  label_run none valid = given-none inner store (update_label id) refl
  label_run (some label) valid =
      given-some inner store (update_label id) refl
      ∙ go _ _ (lifts inner store valid)
      ∙ write_run inner store id _

  workspace_run :
      (o : Option String)
      → IsValidWorkspace o
      → given o (update_workspace id) inner store ≡ some (ok tt, placed inner id o, store)
  unfolding update_workspace
  workspace_run none valid = given-none inner store (update_workspace id) refl
  workspace_run (some workspace) valid =
      given-some inner store (update_workspace id) refl
      ∙ go _ _ (lifts inner store valid)
      ∙ write_run inner store id _

  status_run :
      (status : SessionStatus) (t : AgentSession) (e : CoreError)
      → HashMap.get inner.registry.sessions id ≡ some t
      → validate_transition t.status status ≡ err e
      → update_status id status inner store ≡ some (err e, inner, store)
  unfolding update_status
  status_run status t e there illegal =
      go _ _ (expect_run inner store id there) ∙ stop _ _ (lifts inner store illegal)

-- An update writes its labels before it checks its status. If the status may not follow that of the
-- session, and each label that the update names is valid, the command fails, but the registry keeps
-- the new label and the new workspace; neither goes to the repository or to the stream.
pub session_update_invalid_status :
    {R : Type 0} (repository : SessionRepository R) (event_id : ℕ) (inner : AppCoreInner)
    (store : R) (id : String) (session : AgentSession) (e : CoreError) (cmd : SessionUpdateCommand)
    (status : SessionStatus)
    → Concerns inner cmd.source cmd.external_session_id id session
    → IsValidLabel cmd.label
    → IsValidWorkspace cmd.workspace_label
    → cmd.status ≡ some status
    → validate_transition session.status status ≡ err e
    → session_update repository event_id cmd inner store
      ≡ some (err e, placed (labelled inner id cmd.label) id cmd.workspace_label, store)
unfolding session_update
session_update_invalid_status repository event_id inner store id session e cmd status c label_valid
      workspace_valid moves illegal =
    let named = labelled inner id cmd.label in
    let after = placed named id cmd.workspace_label in
    let t = with_workspace cmd.workspace_label (with_label cmd.label session) in
    let there : HashMap.get after.registry.sessions id ≡ some t =
      get-placed named id cmd.workspace_label (with_label cmd.label session)
        (get-labelled inner id cmd.label session c.stored) in
    let barred : validate_transition t.status status ≡ err e =
      ap (λ s. validate_transition s status) (status_kept cmd.label cmd.workspace_label session)
      ∙ illegal in
    go _ _ (lifts inner store c.valid)
    ∙ go _ _ (require_events_ok inner store cmd.source c.capabilities c.registered c.has_events)
    ∙ go _ _ (asks_run inner store _ c.resolved)
    ∙ go _ _ (expect_run inner store id c.stored)
    ∙ go _ _ (label_run inner store id cmd.label label_valid)
    ∙ go _ _ (workspace_run named store id cmd.workspace_label workspace_valid)
    ∙ stop _ _ (
        given-some after store (update_status id) moves
        ∙ status_run after store id status t e there barred)
