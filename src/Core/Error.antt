-- ===== src/Core/Error.antt =====
-- crates/notch-core/src/error.rs. A message that the source formats is kept as the data in it.
use llm_notch.Prelude.{ℕ, String, ◌≡◌, refl, Option, none, some, ◌⊎◌, inl, inr}
use llm_notch.Protocol.{AgentSource, SessionStatus}

pub data IngestFault : Type 0 where
  -- the expected and the given sequence
  wrong_sequence : ℕ → ℕ → IngestFault
  wrong_first_sequence : ℕ → IngestFault

pub data ValidationFault : Type 0 where
  empty_field : String → ValidationFault
  too_long : String → ℕ → ValidationFault
  end_status : ValidationFault
  page_limit : ValidationFault
  zero_before_sequence : ValidationFault

pub data UnsupportedFault : Type 0 where
  no_events no_attention no_process_attribution : UnsupportedFault
  no_integration : AgentSource → UnsupportedFault

pub data CoreError : Type 0 where
  session_not_found : String → CoreError
  repository_unavailable : CoreError
  ingest_rejected : IngestFault → CoreError
  unsupported_capability : UnsupportedFault → CoreError
  invalid_transition : SessionStatus → SessionStatus → CoreError
  session_capacity : ℕ → CoreError
  validation : ValidationFault → CoreError
  other : String → CoreError

pub data CoreResult {ℓ} (A : Type ℓ) : Type ℓ where
  ok : A → CoreResult A
  err : CoreError → CoreResult A

infixl 5 ◌>>=◌ ◌>>◌
abbrev pub ◌>>=◌ {ℓ κ} :
    {A : Type ℓ} {B : Type κ} → CoreResult A → (A → CoreResult B) → CoreResult B
ok a >>= f = f a
err e >>= f = err e

abbrev pub ◌>>◌ {ℓ} : {B : Type ℓ} → CoreResult (Unit {0}) → CoreResult B → CoreResult B
m >> k = m >>= λ _. k

abbrev pub ok_or {ℓ} : {A : Type ℓ} → Option A → CoreError → CoreResult A
ok_or none e = err e
ok_or (some a) e = ok a

pub CoreResult-cases {ℓ} :
    {A : Type ℓ} (r : CoreResult A) → ((a : A) × (r ≡ ok a)) ⊎ ((e : CoreError) × (r ≡ err e))
CoreResult-cases (ok a) = inl (a, refl)
CoreResult-cases (err e) = inr (e, refl)
