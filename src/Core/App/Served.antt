-- ===== src/Core/App/Served.antt =====
-- crates/notch-core/src/app_core.rs as a whole: what the core is asked, one call after another.
use llm_notch.Prelude.{ℕ, String, ◌≡◌, sym, ap, ◌∙◌, subst, Bool, none, some, List}
use llm_notch.Prelude.Int.{ℤ}
use llm_notch.Protocol.{
  AgentSource, PublicSettings, MetricsFrame, StreamFrame, VerifiedTerminalContext,
}
use llm_notch.Core.Error.{CoreResult}
use llm_notch.Core.Registry.{SessionRegistry}
use llm_notch.Core.Registry.Invariant.{IsWellFormed}
use llm_notch.Core.Registry.Invariant.Reachable.{Reach, Reach-keeps}
use llm_notch.Core.Repository.{SessionRepository, PurgeReport}
use llm_notch.Core.App.{AppCoreInner}
use llm_notch.Core.App.Commands.{IngestCommand, IngestResult}
use llm_notch.Core.App.Handler.{Handler}
use llm_notch.Core.App.Handler.Outcome.{Ends, mono, settled}
use llm_notch.Core.App.Ingest.{
  update_settings, remove_session, clear_process_root, set_verified_terminal, ingest,
}
use llm_notch.Core.App.Records.{record_metrics, purge_history, purge_scoped}
use llm_notch.Core.App.Staleness.{tick}
use llm_notch.Core.App.Steps.{Takes, Goes, Anything}
use llm_notch.Core.App.Steps.Serving.{
  Admits, ingest_lem, update_settings_lem, remove_session_lem, clear_process_root_lem,
  set_verified_terminal_lem,
}
use llm_notch.Core.App.Steps.Upkeep.{
  record_metrics_lem, purge_history_lem, purge_scoped_lem, tick_goes,
}

module _ {R : Type 0} (repository : SessionRepository R)
    (session_id_for : AgentSource → String → String) where
  -- A call that returned, with any result, and the state that it left.
  pub data Serves (i : AppCoreInner) (s : R) (i' : AppCoreInner) (s' : R) : Type 0 where
    ingests :
        (event_id : ℕ) (command : IngestCommand) (now : ℤ)
        (result : CoreResult (IngestResult × List StreamFrame))
        → Admits session_id_for command i.registry
        → ingest repository session_id_for event_id command now i s ≡ some (result, i', s')
        → Serves i s i' s'
    sets :
        (settings : PublicSettings) (now : ℤ) (result : CoreResult (List StreamFrame))
        → update_settings repository settings now i s ≡ some (result, i', s')
        → Serves i s i' s'
    removes :
        (id : String) (now : ℤ) (result : CoreResult (List StreamFrame))
        → remove_session repository id now i s ≡ some (result, i', s')
        → Serves i s i' s'
    clears :
        (id : String) (now : ℤ) (result : CoreResult (List StreamFrame))
        → clear_process_root repository id now i s ≡ some (result, i', s')
        → Serves i s i' s'
    verifies :
        (id : String) (terminal : VerifiedTerminalContext) (now : ℤ)
        (result : CoreResult (List StreamFrame))
        → set_verified_terminal repository id terminal now i s ≡ some (result, i', s')
        → Serves i s i' s'
    measures :
        (frame : MetricsFrame) (now flushed_at : ℤ) (result : CoreResult (List StreamFrame))
        → record_metrics repository frame now flushed_at i s ≡ some (result, i', s')
        → Serves i s i' s'
    ticks :
        (now flushed_at : ℤ) (result : CoreResult (List StreamFrame))
        → tick repository now i s flushed_at ≡ some (result, i', s')
        → Serves i s i' s'
    prunes :
        (now : ℤ) (result : CoreResult PurgeReport)
        → purge_history repository now i s ≡ some (result, i', s')
        → Serves i s i' s'
    purges :
        (history session_events : Bool) (result : CoreResult (ℕ × ℕ))
        → purge_scoped repository history session_events i s ≡ some (result, i', s')
        → Serves i s i' s'

  pub data Runs (i : AppCoreInner) (s : R) : AppCoreInner → R → Type 0 where
    rests : Runs i s i s
    calls : {j k : AppCoreInner} {t u : R} → Runs i s j t → Serves j t k u → Runs i s k u

module _ {R A : Type 0} {session_id_for : AgentSource → String → String} {i : AppCoreInner} {s : R}
    {K : SessionRegistry → Type 0} {m : Handler R A} where
  both_ways :
      Takes session_id_for i.registry K m (λ _. Anything)
      → K i.registry
      → Ends (λ _. Goes session_id_for i.registry) (Goes session_id_for i.registry) (m i s)
  both_ways h k = mono (h.run i s (record { goes = Reach.here; holds = k })) (λ a j t p. p.goes)

  reached :
      {result : CoreResult A} {i' : AppCoreInner} {s' : R}
      → Takes session_id_for i.registry K m (λ _. Anything)
      → K i.registry
      → m i s ≡ some (result, i', s')
      → Reach session_id_for i.registry i'.registry
  reached h k ran =
      let (x, found, goes) = settled (both_ways h k) in
      subst (Reach session_id_for i.registry)
        (ap (λ o. elim o [ none ↦ x.1.registry | some y ↦ y.1.registry ]) (sym found ∙ ran)) goes

module _ {R : Type 0} {repository : SessionRepository R}
    {session_id_for : AgentSource → String → String} where
  Serves-Reach :
      {i j : AppCoreInner} {s t : R}
      → Serves repository session_id_for i s j t
      → IsWellFormed i.registry
      → Reach session_id_for i.registry j.registry
  Serves-Reach (ingests event_id command now result admits ran) h =
      reached (ingest_lem repository event_id h command now) admits ran
  Serves-Reach (sets settings now result ran) h =
      reached (update_settings_lem repository now settings) tt ran
  Serves-Reach (removes id now result ran) h = reached (remove_session_lem repository now id) tt ran
  Serves-Reach (clears id now result ran) h =
      reached (clear_process_root_lem repository now id) tt ran
  Serves-Reach (verifies id terminal now result ran) h =
      reached (set_verified_terminal_lem repository now id terminal) tt ran
  Serves-Reach (measures frame now flushed_at result ran) h =
      reached (record_metrics_lem repository frame now flushed_at) tt ran
  Serves-Reach (ticks now flushed_at result ran) h =
      tick_goes repository now _ _ _ _ flushed_at result ran
  Serves-Reach (prunes now result ran) h = reached (purge_history_lem repository now) tt ran
  Serves-Reach (purges history session_events result ran) h =
      reached (purge_scoped_lem repository history session_events) tt ran

  -- Whatever the core has served, one call after another, with a repository that answers as it
  -- likes: from a well-formed registry it has come to a well-formed registry, provided that a
  -- session is never started under the id of a session with another external key.
  pub Runs-IsWellFormed :
      {i : AppCoreInner} {s : R} {j : AppCoreInner} {t : R}
      → Runs repository session_id_for i s j t
      → IsWellFormed i.registry
      → IsWellFormed j.registry
  Runs-IsWellFormed rests h = h
  Runs-IsWellFormed (calls earlier call) h =
      let before = Runs-IsWellFormed earlier h in Reach-keeps before (Serves-Reach call before)

-- A command never panics on a well-formed registry, and what it does to the registry, also where it
-- fails half way, is a sequence of the registry's own calls, provided that a session that it starts
-- does not get the id of a session with another external key.
pub ingest_total :
    {R : Type 0} (repository : SessionRepository R) (session_id_for : AgentSource → String → String)
    (event_id : ℕ) (command : IngestCommand) (now : ℤ) (inner : AppCoreInner) (store : R)
    → IsWellFormed inner.registry
    → Admits session_id_for command inner.registry
    → (x : CoreResult (IngestResult × List StreamFrame) × AppCoreInner × R) × (ingest repository
          session_id_for event_id command now inner store
        ≡ some x)
      × Reach session_id_for inner.registry x.1.registry
ingest_total repository session_id_for event_id command now inner store h admits =
    settled (both_ways (ingest_lem repository event_id h command now) admits)
