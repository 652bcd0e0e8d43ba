-- ===== src/Core/Stream/Coalesce.antt =====
-- What the coalescer lets through of a run of payloads.
use mathlib.Core.List.{append-nil, append_assoc}
use llm_notch.Prelude.{
  String, ◌≡◌, refl, sym, ap, ◌∙◌, Bool, true, false, List, [], ◌∷◌, ◌++◌, Option, none, some,
  arith, if◌then◌else◌, ◌==◌, text_key, retain, retain-append, any_of,
}
use llm_notch.HashMap
use llm_notch.HashMap.Laws.{get-insert, Distinct-insert, beq_refl}
use llm_notch.Protocol.{AgentSession, MetricsFrame, StreamPayload}
use llm_notch.Core.Stream.{StreamCoalescer, new, push, drain, is_empty, metrics_last}

pub push_all : StreamCoalescer → List StreamPayload → StreamCoalescer
unfolding push
push_all c [] = c
push_all c (p ∷ ps) = push_all (push c p) ps

-- The latest upsert of the session among the payloads, or what was there before.
abbrev upsert_or : String → Option StreamPayload → StreamPayload → Option StreamPayload
upsert_or k before (StreamPayload.session_upsert s) =
    if s.id == k then some (StreamPayload.session_upsert s) else before
upsert_or k before other = before

pub latest_upsert : String → Option StreamPayload → List StreamPayload → Option StreamPayload
latest_upsert k before [] = before
latest_upsert k before (p ∷ ps) = latest_upsert k (upsert_or k before p) ps

abbrev metrics_or : Option MetricsFrame → StreamPayload → Option MetricsFrame
metrics_or before (StreamPayload.metrics frame) = some frame
metrics_or before other = before

pub latest_metrics : Option MetricsFrame → List StreamPayload → Option MetricsFrame
latest_metrics before [] = before
latest_metrics before (p ∷ ps) = latest_metrics (metrics_or before p) ps

-- Neither an upsert nor metrics.
abbrev pub is_other : StreamPayload → Bool
is_other (StreamPayload.session_upsert s) = false
is_other (StreamPayload.metrics frame) = false
is_other _ = true

pub record Coalesces (c : StreamCoalescer) (ps : List StreamPayload) (d : StreamCoalescer)
    : Type 0 where
  pub others : d.pending_other ≡ c.pending_other ++ retain is_other ps
  pub metrics : d.pending_metrics ≡ latest_metrics c.pending_metrics ps
  pub upserts :
      (k : String)
      → HashMap.get d.pending_session_upserts k
        ≡ latest_upsert k (HashMap.get c.pending_session_upserts k) ps
  pub distinct :
      HashMap.Distinct c.pending_session_upserts → HashMap.Distinct d.pending_session_upserts

push-Coalesces : (c : StreamCoalescer) (p : StreamPayload) → Coalesces c (p ∷ []) (push c p)
unfolding push latest_upsert latest_metrics
push-Coalesces c (StreamPayload.session_upsert s) = record {
  others = sym (append-nil c.pending_other);
  metrics = refl;
  upserts = get-insert c.pending_session_upserts s.id (StreamPayload.session_upsert s);
  distinct = Distinct-insert c.pending_session_upserts s.id (StreamPayload.session_upsert s);
}
push-Coalesces c (StreamPayload.metrics frame) = record {
  others = sym (append-nil c.pending_other);
  metrics = refl;
  upserts = λ k. refl;
  distinct = λ d. d;
}
push-Coalesces c p = record {
  others = refl;
  metrics = refl;
  upserts = λ k. refl;
  distinct = λ d. d;
}

push_all-Coalesces :
    (c : StreamCoalescer) (ps : List StreamPayload) → Coalesces c ps (push_all c ps)
unfolding push_all latest_upsert latest_metrics
push_all-Coalesces c [] = record {
  others = sym (append-nil c.pending_other);
  metrics = refl;
  upserts = λ k. refl;
  distinct = λ d. d;
}
push_all-Coalesces c (p ∷ ps) =
    let one = push-Coalesces c p in
    let rest = push_all-Coalesces (push c p) ps in
    record {
      others =
          rest.others
          ∙ ap (λ xs. xs ++ retain is_other ps) one.others
          ∙ append_assoc c.pending_other (retain is_other (p ∷ [])) (retain is_other ps)
          ∙ ap (◌++◌ c.pending_other) (sym (retain-append is_other (p ∷ []) ps));
      metrics = rest.metrics ∙ ap (λ b. latest_metrics b ps) one.metrics;
      upserts = λ k. rest.upserts k ∙ ap (λ b. latest_upsert k b ps) (one.upserts k);
      distinct = λ d. rest.distinct (one.distinct d);
    }

-- One flush of any run of payloads emits, in this order: every payload that is neither an upsert nor
-- metrics, all of them and in their order; then one upsert for each session that had one, the latest;
-- then the latest metrics. The coalescer is empty after it.
pub drain-push_all :
    (ps : List StreamPayload)
    → ((drain (push_all new ps)).0
        ≡ retain is_other ps
          ++ (HashMap.values (push_all new ps).pending_session_upserts
              ++ metrics_last (latest_metrics none ps)))
      × ((k : String)
          → HashMap.get (push_all new ps).pending_session_upserts k ≡ latest_upsert k none ps)
      × HashMap.Distinct (push_all new ps).pending_session_upserts
      × (is_empty (drain (push_all new ps)).1 ≡ true)
unfolding drain is_empty HashMap.get
drain-push_all ps =
    let c = push_all-Coalesces new ps in
    (rw (c.others, c.metrics) refl, c.upserts, c.distinct tt, refl)

pub is_upsert_of : String → StreamPayload → Bool
is_upsert_of k (StreamPayload.session_upsert s) = s.id == k
is_upsert_of k other = false

any_of-values :
    (p : StreamPayload → Bool) (m : HashMap.HashMap String StreamPayload) (k : String)
    (v : StreamPayload) (rest : List StreamPayload)
    → HashMap.get m k ≡ some v
    → p v ≡ true
    → any_of p (HashMap.values m ++ rest) ≡ true
unfolding any_of HashMap.get
any_of-values p [] k v rest e t = cc
any_of-values p ((j, w) ∷ m) k v rest e t = ground (arith, any_of-values p m k v rest)

-- A removal overtakes an upsert of the same session that was queued before it: whatever else is
-- pending, the flush emits an upsert of the session after its removal.
pub drain_reorders :
    (c : StreamCoalescer) (s : AgentSession)
    → (before : List StreamPayload) × (after : List StreamPayload) × ((drain
          (push (push c (StreamPayload.session_upsert s)) (StreamPayload.session_remove s.id))).0
        ≡ before ++ StreamPayload.session_remove s.id ∷ after)
      × (any_of (is_upsert_of s.id) after ≡ true)
unfolding drain push is_upsert_of
drain_reorders c s =
    let m : HashMap.HashMap String StreamPayload =
      HashMap.insert c.pending_session_upserts s.id (StreamPayload.session_upsert s) in
    (
      c.pending_other,
      HashMap.values m ++ metrics_last c.pending_metrics,
      append_assoc c.pending_other (StreamPayload.session_remove s.id ∷ []) _,
      any_of-values (is_upsert_of s.id) m s.id (StreamPayload.session_upsert s)
          (metrics_last c.pending_metrics)
          (get-insert c.pending_session_upserts s.id (StreamPayload.session_upsert s) s.id
            ∙ rw (beq_refl s.id) refl)
          (beq_refl s.id),
    )
