-- ===== src/Base/Results.antt =====
-- A result that carries no state: an exception leaves the caller with what it had.
pub data Attempt (E : Type 0) (A : Type 0) : Type 0 where
  ok : A → Attempt E A
  err : E → Attempt E A

infixl 5 ◌>>=◌ ◌>>◌
abbrev pub ◌>>=◌ : {E A B : Type 0} → Attempt E A → (A → Attempt E B) → Attempt E B
ok a >>= f = f a
err e >>= f = err e

abbrev pub ◌>>◌ : {E B : Type 0} → Attempt E (Unit {0}) → Attempt E B → Attempt E B
m >> k = m >>= λ _. k
