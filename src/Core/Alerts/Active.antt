-- ===== src/Core/Alerts/Active.antt =====
-- The list of active alerts, over any run of the evaluator's operations.
use mathlib.Core.List.{append-nil}
use llm_notch.Prelude.{
  ℕ, suc, ◌≤◌, String, ◌≡◌, refl, Bool, true, false, not, ◌&&◌, List, [], ◌∷◌, ◌++◌, Option, none,
  some, arith, if◌then◌else◌, ◌==◌, text_key, number_key, eq_iff, All, max,
}
use llm_notch.Prelude.Int.{ℤ}
use llm_notch.HashMap
use llm_notch.HashMap.Laws.{contains_key-insert, contains_key-remove}
use llm_notch.Protocol.{AttentionKind}
use llm_notch.Core.Alerts.{
  AlertKind, ActiveAlert, AlertEvaluator, kind_beq, upsert_alert, host_alert, evaluate_attention,
  attention_alert,
}

abbrev pub asks : AttentionKind → Bool
asks AttentionKind.absent = false
asks _ = true

abbrev pub to_list {ℓ} : {A : Type ℓ} → Option A → List A
to_list none = []
to_list (some a) = a ∷ []

-- A session raises an alert when it begins to ask for attention, and not again until it has stopped
-- asking or was acknowledged. Other sessions are not affected.
pub evaluate_attention_lem :
    (e : AlertEvaluator) (session_id : String) (attention : AttentionKind) (now_ms : ℤ)
    → ((evaluate_attention e session_id attention now_ms).0 ≡ (
        if asks attention && not (HashMap.contains_key e.known_attention session_id)
        then some (attention_alert session_id attention now_ms)
        else none))
      × ((j : String)
          → HashMap.contains_key
              (evaluate_attention e session_id attention now_ms).1.known_attention
              j
            ≡ (if session_id == j
                then asks attention
                else HashMap.contains_key e.known_attention j))
      × ((evaluate_attention e session_id attention now_ms).1.active
          ≡ e.active ++ to_list (evaluate_attention e session_id attention now_ms).0)
unfolding evaluate_attention
evaluate_attention_lem e session_id attention now_ms = (
  ground arith,
  λ j. ground (
    arith,
    contains_key-insert e.known_attention session_id tt j,
    contains_key-remove e.known_attention session_id j,
    eq_iff session_id j,
  ),
  ground (arith, append-nil e.active),
)

-- How many alerts of a kind there are.
unfoldable pub count_kind : AlertKind → List ActiveAlert → ℕ
count_kind k [] = 0
count_kind k (a ∷ as_) = let rest = count_kind k as_ in if kind_beq a.kind k then suc rest else rest

abbrev pub is_host : AlertKind → Bool
is_host AlertKind.new_attention = false
is_host _ = true

-- An alert on the host belongs to no session.
abbrev pub IsGlobal : ActiveAlert → Type 0
IsGlobal a = is_host a.kind ≡ true → a.session_id ≡ none

pub record IsKept (alerts : List ActiveAlert) : Type 0 where
  pub one_each : (k : AlertKind) → is_host k ≡ true → count_kind k alerts ≤ 1
  pub global : All IsGlobal alerts

pub count-upsert_alert :
    (k j : AlertKind) (message : String) (now : ℤ) (alerts : List ActiveAlert)
    → is_host j ≡ true
    → All IsGlobal alerts
    → count_kind k (upsert_alert alerts (host_alert j message now))
      ≡ (if kind_beq j k then max 1 (count_kind k alerts) else count_kind k alerts)
unfolding count_kind upsert_alert host_alert
count-upsert_alert k j message now [] hj g = ground arith
count-upsert_alert k j message now (a ∷ as_) hj g =
    ground (arith, g.0, count-upsert_alert k j message now as_ hj g.1)

pub IsGlobal-upsert_alert :
    (j : AlertKind) (message : String) (now : ℤ) (alerts : List ActiveAlert)
    → All IsGlobal alerts
    → All IsGlobal (upsert_alert alerts (host_alert j message now))
unfolding upsert_alert host_alert
IsGlobal-upsert_alert j message now [] g = ((λ _. refl), tt)
IsGlobal-upsert_alert j message now (a ∷ as_) g =
    ground (arith, IsGlobal-upsert_alert j message now as_ g.1)
