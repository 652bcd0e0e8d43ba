-- ===== src/Core/Alerts/Lasting.antt =====
-- Alerts on the host, once raised.
use llm_notch.Prelude.{
  ℕ, suc, ◌+◌, ◌≤◌, String, ◌≡◌, refl, sym, subst, Bool, true, false, not, List, [], ◌∷◌, ◌++◌,
  some, arith, inl, inr, Bool-cases, if◌then◌else◌, text_key, retain, length, All, All-append,
  All-retain,
}
use llm_notch.Prelude.Int.{ℤ}
use llm_notch.HashMap
use llm_notch.Protocol.{
  AttentionKind, HostMetricSample, MetricSample, ResourceAlert, ResourceAlertKind,
}
use llm_notch.Core.Alerts.{
  AlertKind, ActiveAlert, AlertEvaluator, new, upsert_alert, host_alert, evaluate_warn,
  evaluate_cpu, evaluate_rss, evaluate_host_metrics, evaluate_attention, attention_alert, raise,
  clear_local_acknowledgement, resource_alerts_from_active, same_session,
}
use llm_notch.Core.Alerts.Active.{
  count_kind, is_host, IsGlobal, IsKept, count-upsert_alert, IsGlobal-upsert_alert,
}

-- From lists that are kept, one goes on to lists that are, and no kind of host alert is lost.
pub record Evolves (before after : List ActiveAlert) : Type 0 where
  pub kept : IsKept before → IsKept after
  pub stays :
      IsKept before → (k : AlertKind) → is_host k ≡ true → count_kind k before ≤ count_kind k after

Evolves-refl : (xs : List ActiveAlert) → Evolves xs xs
Evolves-refl xs = record { kept = λ h. h; stays = λ h k host. omega arith }

Evolves-trans : {xs ys zs : List ActiveAlert} → Evolves xs ys → Evolves ys zs → Evolves xs zs
Evolves-trans f g = record {
  kept = λ h. g.kept (f.kept h);
  stays = λ h k host. omega (arith, f.stays h k host, g.stays (f.kept h) k host);
}

upsert-Evolves :
    (xs : List ActiveAlert) (j : AlertKind) (message : String) (now : ℤ)
    → is_host j ≡ true
    → Evolves xs (upsert_alert xs (host_alert j message now))
upsert-Evolves xs j message now hj = record {
  kept = λ h. record {
    one_each = λ k host.
        ground (arith, count-upsert_alert k j message now xs hj h.global, h.one_each k host);
    global = IsGlobal-upsert_alert j message now xs h.global;
  };
  stays = λ h k host. ground (arith, count-upsert_alert k j message now xs hj h.global);
}

raise-Evolves :
    (fires : Bool) (e : AlertEvaluator) (j : AlertKind) (message : String) (now : ℤ)
    (raised : List ActiveAlert)
    → is_host j ≡ true
    → Evolves e.active
        (if◌then◌else◌ {A = List ActiveAlert × AlertEvaluator} fires
          (raise e (host_alert j message now) raised)
          (raised, e)).1.active
raise-Evolves true e j message now raised hj = upsert-Evolves e.active j message now hj
raise-Evolves false e j message now raised hj = Evolves-refl e.active

evaluate_warn-Evolves :
    (e : AlertEvaluator) (host : HostMetricSample) (now : ℤ)
    → Evolves e.active (evaluate_warn e host now).1.active
unfolding evaluate_warn
evaluate_warn-Evolves e host now = raise-Evolves _ _ AlertKind.cpu_warn _ now [] refl

or_warn-Evolves :
    (fires : Bool) (e : AlertEvaluator) (host : HostMetricSample) (message : String) (now : ℤ)
    → Evolves e.active
        (if◌then◌else◌ {A = List ActiveAlert × AlertEvaluator} fires
          (raise e (host_alert AlertKind.cpu_critical message now) [])
          (evaluate_warn e host now)).1.active
or_warn-Evolves true e host message now =
    upsert-Evolves e.active AlertKind.cpu_critical message now refl
or_warn-Evolves false e host message now = evaluate_warn-Evolves e host now

evaluate_cpu-Evolves :
    (e : AlertEvaluator) (host : HostMetricSample) (now : ℤ)
    → Evolves e.active (evaluate_cpu e host now).1.active
unfolding evaluate_cpu
evaluate_cpu-Evolves e host now = or_warn-Evolves _ _ host _ now

evaluate_rss-Evolves :
    (e : AlertEvaluator) (host : HostMetricSample) (aggregate : MetricSample) (now : ℤ)
    (raised : List ActiveAlert)
    → Evolves e.active (evaluate_rss e host aggregate now raised).1.active
unfolding evaluate_rss
evaluate_rss-Evolves e host aggregate now raised =
    raise-Evolves _ _ AlertKind.memory_high _ now raised refl

evaluate_host_metrics-Evolves :
    (e : AlertEvaluator) (host : HostMetricSample) (aggregate : MetricSample) (now : ℤ)
    → Evolves e.active (evaluate_host_metrics e host aggregate now).1.active
unfolding evaluate_host_metrics
evaluate_host_metrics-Evolves e host aggregate now =
    Evolves-trans (evaluate_cpu-Evolves e host now) (
      evaluate_rss-Evolves (evaluate_cpu e host now).1 host aggregate now
        (evaluate_cpu e host now).0)

count-attention :
    (k : AlertKind) (xs : List ActiveAlert) (session_id : String) (attention : AttentionKind)
    (now : ℤ)
    → is_host k ≡ true
    → count_kind k (xs ++ attention_alert session_id attention now ∷ []) ≡ count_kind k xs
unfolding count_kind attention_alert
count-attention k [] session_id attention now host = ground arith
count-attention k (x ∷ xs) session_id attention now host =
    ground (arith, count-attention k xs session_id attention now host)

raise_attention-Evolves :
    (xs : List ActiveAlert) (session_id : String) (attention : AttentionKind) (now : ℤ)
    → Evolves xs (xs ++ attention_alert session_id attention now ∷ [])
unfolding attention_alert
raise_attention-Evolves xs session_id attention now = record {
  kept = λ h. record {
    one_each = λ k host.
        subst (λ n. n ≤ 1) (sym (count-attention k xs session_id attention now host))
          (h.one_each k host);
    global = All-append IsGlobal xs _ h.global ((λ e. cc), tt);
  };
  stays = λ h k host. omega (arith, count-attention k xs session_id attention now host);
}

evaluate_attention-Evolves :
    (e : AlertEvaluator) (session_id : String) (attention : AttentionKind) (now : ℤ)
    → Evolves e.active (evaluate_attention e session_id attention now).1.active
unfolding evaluate_attention
evaluate_attention-Evolves e session_id AttentionKind.absent now = Evolves-refl e.active
evaluate_attention-Evolves e session_id attention now =
    elim (Bool-cases (HashMap.contains_key e.known_attention session_id)) [
      | inl known ↦ rw (known, evaluate_attention) (Evolves-refl e.active)
      | inr new_one ↦
          rw (new_one, evaluate_attention)
            (raise_attention-Evolves e.active session_id attention now)
    ]

abbrev elsewhere : String → ActiveAlert → Bool
elsewhere session_id a = not (same_session a.session_id (some session_id))

count-retain :
    (k : AlertKind) (session_id : String) (xs : List ActiveAlert)
    → is_host k ≡ true
    → All IsGlobal xs
    → count_kind k (retain (elsewhere session_id) xs) ≡ count_kind k xs
unfolding count_kind same_session
count-retain k session_id [] host g = refl
count-retain k session_id (x ∷ xs) host g =
    ground (arith, g.0, count-retain k session_id xs host g.1)

clear-Evolves :
    (e : AlertEvaluator) (session_id : String)
    → Evolves e.active (clear_local_acknowledgement e session_id).active
unfolding clear_local_acknowledgement
clear-Evolves e session_id = record {
  kept = λ h. record {
    one_each = λ k host.
        subst (λ n. n ≤ 1) (sym (count-retain k session_id e.active host h.global))
          (h.one_each k host);
    global = All-retain IsGlobal (elsewhere session_id) e.active h.global;
  };
  stays = λ h k host. omega (arith, count-retain k session_id e.active host h.global);
}

pub data Step (e : AlertEvaluator) : AlertEvaluator → Type 0 where
  measures :
      (host : HostMetricSample) (aggregate : MetricSample) (now : ℤ)
      → Step e (evaluate_host_metrics e host aggregate now).1
  attends :
      (session_id : String) (attention : AttentionKind) (now : ℤ)
      → Step e (evaluate_attention e session_id attention now).1
  acknowledges : (session_id : String) → Step e (clear_local_acknowledgement e session_id)

pub data Reach (e : AlertEvaluator) : AlertEvaluator → Type 0 where
  here : Reach e e
  next : {f g : AlertEvaluator} → Reach e f → Step f g → Reach e g

Step-Evolves : {e f : AlertEvaluator} → Step e f → Evolves e.active f.active
Step-Evolves {e} (measures host aggregate now) = evaluate_host_metrics-Evolves e host aggregate now
Step-Evolves {e} (attends session_id attention now) =
    evaluate_attention-Evolves e session_id attention now
Step-Evolves {e} (acknowledges session_id) = clear-Evolves e session_id

Reach-Evolves : {e f : AlertEvaluator} → Reach e f → Evolves e.active f.active
Reach-Evolves {e} here = Evolves-refl e.active
Reach-Evolves (next steps step) = Evolves-trans (Reach-Evolves steps) (Step-Evolves step)

new-IsKept : IsKept new.active
unfolding count_kind
new-IsKept = record { one_each = λ k host. omega arith; global = tt }

-- The host alert that a snapshot shows under a kind of resource.
abbrev shows : ResourceAlertKind → AlertKind
shows ResourceAlertKind.cpu_warn = AlertKind.cpu_warn
shows ResourceAlertKind.cpu_critical = AlertKind.cpu_critical
shows ResourceAlertKind.memory_high = AlertKind.memory_high

shows-is_host : (k : ResourceAlertKind) → is_host (shows k) ≡ true
shows-is_host k = ground arith

abbrev resource_beq : ResourceAlertKind → ResourceAlertKind → Bool
resource_beq ResourceAlertKind.cpu_warn ResourceAlertKind.cpu_warn = true
resource_beq ResourceAlertKind.cpu_critical ResourceAlertKind.cpu_critical = true
resource_beq ResourceAlertKind.memory_high ResourceAlertKind.memory_high = true
resource_beq _ _ = false

-- How many resource alerts of a kind there are.
unfoldable pub count_resource : ResourceAlertKind → List ResourceAlert → ℕ
count_resource k [] = 0
count_resource k (a ∷ as_) =
    let rest = count_resource k as_ in if resource_beq a.kind k then suc rest else rest

-- What a snapshot shows: the host alerts, by kind.
count-resource_alerts :
    (k : ResourceAlertKind) (xs : List ActiveAlert)
    → count_resource k (resource_alerts_from_active xs) ≡ count_kind (shows k) xs
unfolding resource_alerts_from_active count_kind count_resource
count-resource_alerts k [] = refl
count-resource_alerts k (x ∷ xs) = ground (arith, count-resource_alerts k xs)

length-count_resource :
    (as_ : List ResourceAlert)
    → length as_
      ≡ count_resource ResourceAlertKind.cpu_warn as_
        + count_resource ResourceAlertKind.cpu_critical as_
        + count_resource ResourceAlertKind.memory_high as_
unfolding count_resource
length-count_resource [] = omega arith
length-count_resource (a ∷ as_) = ground (arith, length-count_resource as_)

-- However the evaluator is used, the resource alerts of a snapshot have at most one of each kind,
-- and so are at most three; attention alerts, of which there may be many, are not among them.
pub resource_alerts_bound :
    {e : AlertEvaluator}
    → Reach new e
    → ((k : ResourceAlertKind) → count_resource k (resource_alerts_from_active e.active) ≤ 1)
      × (length (resource_alerts_from_active e.active) ≤ 3)
resource_alerts_bound {e} steps =
    let h : IsKept e.active = (Reach-Evolves steps).kept new-IsKept in
    let shown = resource_alerts_from_active e.active in
    let one : (k : ResourceAlertKind) → count_resource k shown ≤ 1 = λ k.
      omega (arith, count-resource_alerts k e.active, h.one_each (shows k) (shows-is_host k)) in
    (
      one,
      omega (
        arith,
        length-count_resource shown,
        one ResourceAlertKind.cpu_warn,
        one ResourceAlertKind.cpu_critical,
        one ResourceAlertKind.memory_high,
      ),
    )

-- A host alert, once raised, stays active for good: no operation withdraws it, whatever is measured
-- later.
pub host_alerts_stay :
    {e f : AlertEvaluator} (k : AlertKind)
    → Reach new e
    → Reach e f
    → is_host k ≡ true
    → count_kind k e.active ≡ 1
    → count_kind k f.active ≡ 1
host_alerts_stay {e} {f} k start later host one =
    let h : IsKept e.active = (Reach-Evolves start).kept new-IsKept in
    let g : Evolves e.active f.active = Reach-Evolves later in
    omega (arith, g.stays h k host, (g.kept h).one_each k host)
