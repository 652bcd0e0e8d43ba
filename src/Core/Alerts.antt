-- ===== src/Core/Alerts.antt =====
-- crates/notch-core/src/alerts.rs: alerts for attention, and for load that lasts.
pub mod Tracker
pub mod Active
pub mod Lasting
use Prim.Native.String.{◌++◌ as str_append}
use llm_notch.Prelude.{
  ℕ, String, Bool, true, false, not, ◌&&◌, List, [], ◌∷◌, ◌++◌, Option, none, some, if◌then◌else◌,
  ◌==◌, text_key, min, ltb, leb, retain,
}
use llm_notch.Prelude.Int.{ℤ, pos, leb_ℤ, saturating_sub}
use llm_notch.Prelude.Decimal.{show_u64}
use llm_notch.HashMap
use llm_notch.HashMap.{HashSet}
use llm_notch.Protocol.{
  F64, ge, quarter_as_u64, AttentionKind, HostMetricSample, MetricSample, ResourceAlert,
  ResourceAlertKind, cpu_warn_threshold, cpu_critical_threshold, cpu_warn_duration_ms,
  cpu_critical_duration_ms, rss_alert_bytes, rss_alert_duration_ms,
}

pub data AlertKind : Type 0 where
  new_attention cpu_warn cpu_critical memory_high : AlertKind

pub record ActiveAlert : Type 0 where
  pub kind : AlertKind
  pub session_id : Option String
  pub attention : Option AttentionKind
  pub message : String
  pub raised_at_ms : ℤ

pub record ThresholdTracker : Type 0 where
  pub above_since_ms : Option ℤ

abbrev or_now : Option ℤ → ℤ → ℤ
or_now none now_ms = now_ms
or_now (some since) now_ms = since

unfoldable pub observe : ThresholdTracker → ℤ → Bool → ℕ → Bool × ThresholdTracker
observe t now_ms above required_ms =
    if above
    then (let since = or_now t.above_since_ms now_ms in
        (
          leb_ℤ (pos required_ms) (saturating_sub now_ms since),
          record { above_since_ms = some since },
        ))
    else (false, record { above_since_ms = none })

pub record AlertEvaluator : Type 0 where
  pub cpu_warn : ThresholdTracker
  pub cpu_critical : ThresholdTracker
  pub rss : ThresholdTracker
  pub known_attention : HashSet String
  pub active : List ActiveAlert
  pub disk_alerts_enabled : Bool

abbrev idle : ThresholdTracker
idle = record { above_since_ms = none }

abbrev pub new : AlertEvaluator
new = record {
  cpu_warn = idle;
  cpu_critical = idle;
  rss = idle;
  known_attention = [];
  active = [];
  disk_alerts_enabled = false;
}

unfoldable pub with_disk_alerts : AlertEvaluator → Bool → AlertEvaluator
with_disk_alerts e enabled = record e { disk_alerts_enabled = enabled }

unfoldable pub same_session : Option String → Option String → Bool
same_session none none = true
same_session (some a) (some b) = a == b
same_session _ _ = false

unfoldable pub clear_local_acknowledgement : AlertEvaluator → String → AlertEvaluator
unfolding same_session
clear_local_acknowledgement e session_id = record e {
  known_attention = HashMap.remove e.known_attention session_id;
  active = retain (λ a. not (same_session a.session_id (some session_id))) e.active;
}

attention_name : AttentionKind → String
attention_name AttentionKind.absent = "None"
attention_name AttentionKind.approval = "Approval"
attention_name AttentionKind.question = "Question"
attention_name AttentionKind.permission = "Permission"
attention_name AttentionKind.error = "Error"

unfoldable pub attention_alert : String → AttentionKind → ℤ → ActiveAlert
unfolding attention_name
attention_alert session_id attention now_ms = record {
  kind = AlertKind.new_attention;
  session_id = some session_id;
  attention = some attention;
  message = str_append "Session requires attention: " (attention_name attention);
  raised_at_ms = now_ms;
}

abbrev raise_attention :
    AlertEvaluator → String → AttentionKind → ℤ → Option ActiveAlert × AlertEvaluator
raise_attention e session_id attention now_ms =
    if HashMap.contains_key e.known_attention session_id
    then (none, e)
    else (let alert = attention_alert session_id attention now_ms in
        (
          some alert,
          record e {
            known_attention = HashMap.insert e.known_attention session_id tt;
            active = e.active ++ alert ∷ [];
          },
        ))

unfoldable pub evaluate_attention :
    AlertEvaluator → String → AttentionKind → ℤ → Option ActiveAlert × AlertEvaluator
evaluate_attention e session_id AttentionKind.absent now_ms =
    (none, record e { known_attention = HashMap.remove e.known_attention session_id })
evaluate_attention e session_id attention now_ms = raise_attention e session_id attention now_ms

abbrev kind_beq : AlertKind → AlertKind → Bool
kind_beq AlertKind.new_attention AlertKind.new_attention = true
kind_beq AlertKind.cpu_warn AlertKind.cpu_warn = true
kind_beq AlertKind.cpu_critical AlertKind.cpu_critical = true
kind_beq AlertKind.memory_high AlertKind.memory_high = true
kind_beq _ _ = false

-- The alert takes the place of the first of its kind and session, or is added.
unfoldable pub upsert_alert : List ActiveAlert → ActiveAlert → List ActiveAlert
unfolding same_session
upsert_alert [] alert = alert ∷ []
upsert_alert (a ∷ as_) alert =
    if kind_beq a.kind alert.kind && same_session a.session_id alert.session_id
    then alert ∷ as_
    else a ∷ upsert_alert as_ alert

unfoldable pub host_alert : AlertKind → String → ℤ → ActiveAlert
host_alert kind message now_ms = record {
  kind = kind;
  session_id = none;
  attention = none;
  message = message;
  raised_at_ms = now_ms;
}

-- An alert that was raised, among the raised ones and the active ones.
abbrev pub raise :
    AlertEvaluator → ActiveAlert → List ActiveAlert → List ActiveAlert × AlertEvaluator
raise e alert raised = (raised ++ alert ∷ [], record e { active = upsert_alert e.active alert })

unfoldable pub evaluate_warn :
    AlertEvaluator → HostMetricSample → ℤ → List ActiveAlert × AlertEvaluator
unfolding observe upsert_alert host_alert
evaluate_warn e host now_ms =
    let (fires, tracker) =
      observe e.cpu_warn now_ms (ge host.cpu_host_percent cpu_warn_threshold)
        cpu_warn_duration_ms in
    let e' = record e { cpu_warn = tracker } in
    if fires
    then raise e' (host_alert AlertKind.cpu_warn "Host CPU sustained above 70%" now_ms) []
    else ([], e')

-- The warning is looked at only where the critical alert does not fire.
unfoldable pub evaluate_cpu :
    AlertEvaluator → HostMetricSample → ℤ → List ActiveAlert × AlertEvaluator
unfolding observe upsert_alert host_alert evaluate_warn
evaluate_cpu e host now_ms =
    let (fires, tracker) =
      observe e.cpu_critical now_ms (ge host.cpu_host_percent cpu_critical_threshold)
        cpu_critical_duration_ms in
    let e' = record e { cpu_critical = tracker } in
    if fires
    then raise e' (host_alert AlertKind.cpu_critical "Host CPU sustained above 90%" now_ms) []
    else evaluate_warn e' host now_ms

abbrev rss_threshold : HostMetricSample → ℕ
rss_threshold host = min rss_alert_bytes (quarter_as_u64 host.total_memory_bytes)

rss_message : ℕ → String
rss_message threshold =
    str_append "Aggregate RSS sustained above " (str_append (show_u64 threshold) " bytes")

unfoldable pub evaluate_rss :
    AlertEvaluator
    → HostMetricSample
    → MetricSample
    → ℤ
    → List ActiveAlert
    → List ActiveAlert × AlertEvaluator
unfolding observe upsert_alert host_alert rss_message
evaluate_rss e host aggregate now_ms raised =
    let threshold = rss_threshold host in
    let (fires, tracker) =
      observe e.rss now_ms (leb threshold aggregate.rss_bytes) rss_alert_duration_ms in
    let e' = record e { rss = tracker } in
    if fires
    then raise e' (host_alert AlertKind.memory_high (rss_message threshold) now_ms) raised
    else (raised, e')

unfoldable pub evaluate_host_metrics :
    AlertEvaluator → HostMetricSample → MetricSample → ℤ → List ActiveAlert × AlertEvaluator
unfolding evaluate_cpu evaluate_rss
evaluate_host_metrics e host aggregate now_ms =
    let (raised, e') = evaluate_cpu e host now_ms in evaluate_rss e' host aggregate now_ms raised

abbrev resource_kind : AlertKind → Option ResourceAlertKind
resource_kind AlertKind.cpu_warn = some ResourceAlertKind.cpu_warn
resource_kind AlertKind.cpu_critical = some ResourceAlertKind.cpu_critical
resource_kind AlertKind.memory_high = some ResourceAlertKind.memory_high
resource_kind AlertKind.new_attention = none

unfoldable pub resource_alerts_from_active : List ActiveAlert → List ResourceAlert
resource_alerts_from_active [] = []
resource_alerts_from_active (a ∷ as_) =
    let rest = resource_alerts_from_active as_ in
    elim (resource_kind a.kind) [
      | none ↦ rest
      | some kind ↦
          record {
            kind = kind;
            message = a.message;
            session_id = a.session_id;
            raised_at_ms = a.raised_at_ms;
          }
          ∷ rest
    ]
