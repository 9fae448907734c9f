-- ===== src/Base/Outcome.antt =====
-- `Result<A, E>` where the error is a type of the program's own.
pub data Outcome {ℓ} (E : Type 0) (A : Type ℓ) : Type ℓ where
  success : A → Outcome E A
  failure : E → Outcome E A

infixl 5 ◌>>=◌
abbrev pub ◌>>=◌ {ℓ κ} :
    {E : Type 0} {A : Type ℓ} {B : Type κ} → Outcome E A → (A → Outcome E B) → Outcome E B
success a >>= f = f a
failure e >>= f = failure e
