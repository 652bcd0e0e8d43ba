-- ===== src/Core/App/Handler/Outcome.antt =====
-- What holds after a handler, by how it ended; it never holds of a panic.
use llm_notch.Prelude.{some, ◌≡◌, refl}
use llm_notch.Core.Error.{CoreError, CoreResult, ok, err}
use llm_notch.Core.App.{AppCoreInner}
use llm_notch.Core.App.Handler.{Handler, Outcome, proceed, ◌>>=◌, pure}

-- `Q` holds after a success, `E` after an error.
pub data Ends {R A : Type 0} (Q : A → AppCoreInner → R → Type 0) (E : AppCoreInner → R → Type 0)
    : Outcome R A → Type 0 where
  succeeds : {a : A} {i : AppCoreInner} {s : R} → Q a i s → Ends Q E (some (ok a, i, s))
  fails : {e : CoreError} {i : AppCoreInner} {s : R} → E i s → Ends Q E (some (err e, i, s))

-- From a state where `P` holds.
pub record Triple {R A : Type 0} (E : AppCoreInner → R → Type 0) (P : AppCoreInner → R → Type 0)
    (m : Handler R A) (Q : A → AppCoreInner → R → Type 0) : Type 0 where
  pub run : (i : AppCoreInner) (s : R) → P i s → Ends Q E (m i s)

module _ {R A : Type 0} {E : AppCoreInner → R → Type 0} where
  bind :
      {B : Type 0} {P : A → AppCoreInner → R → Type 0} {Q : B → AppCoreInner → R → Type 0}
      {o : Outcome R A} {f : A → Handler R B}
      → Ends P E o
      → ((a : A) → Triple E (P a) (f a) Q)
      → Ends Q E (proceed o f)
  unfolding proceed
  bind (succeeds p) k = (k _).run _ _ p
  bind (fails e) k = fails e

  -- A result of either kind.
  pub by_result :
      {P : A → AppCoreInner → R → Type 0} (r : CoreResult A) {i : AppCoreInner} {s : R}
      → E i s
      → ((a : A) → r ≡ ok a → P a i s)
      → Ends P E (some (r, i, s))
  by_result (ok a) e p = succeeds (p a refl)
  by_result (err x) e p = fails e

  pub either_way :
      {P : A → AppCoreInner → R → Type 0} (r : CoreResult A) {i : AppCoreInner} {s : R}
      → E i s
      → ((a : A) → P a i s)
      → Ends P E (some (r, i, s))
  either_way r e p = by_result r e (λ a _. p a)

  pub mono :
      {P Q : A → AppCoreInner → R → Type 0} {o : Outcome R A}
      → Ends P E o
      → ((a : A) (i : AppCoreInner) (s : R) → P a i s → Q a i s)
      → Ends Q E o
  mono (succeeds p) k = succeeds (k _ _ _ p)
  mono (fails e) k = fails e

  pub after :
      {B : Type 0} {P : AppCoreInner → R → Type 0} {M : A → AppCoreInner → R → Type 0}
      {Q : B → AppCoreInner → R → Type 0} {m : Handler R A} {f : A → Handler R B}
      → Triple E P m M
      → ((a : A) → Triple E (M a) (f a) Q)
      → Triple E P (m >>= f) Q
  unfolding ◌>>=◌
  after h k = record { run = λ i s p. bind (h.run i s p) k }

  pub pure_lem :
      {P : AppCoreInner → R → Type 0} {Q : A → AppCoreInner → R → Type 0} (a : A)
      → ((i : AppCoreInner) (s : R) → P i s → Q a i s)
      → Triple E P (pure a) Q
  unfolding pure
  pure_lem a k = record { run = λ i s p. succeeds (k i s p) }

-- What holds either way, with the result written out.
pub settled :
    {R A : Type 0} {P : AppCoreInner → R → Type 0} {o : Outcome R A}
    → Ends (λ _. P) P o
    → (x : CoreResult A × AppCoreInner × R) × (o ≡ some x) × P x.1 x.2
settled (succeeds p) = (_, refl, p)
settled (fails p) = (_, refl, p)
