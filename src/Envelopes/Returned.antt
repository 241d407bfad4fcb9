-- ===== src/Envelopes/Returned.antt =====
-- What holds of the answer of an action that returns.
use job_hound.Base.{◌≡◌, refl, subst}
use job_hound.Outbox.Rows.{Db}
use job_hound.Outbox.Monad.{Result, ok, err, Action, pure, ◌>>=◌}

pub record Returns {A : Type 0} (P : A → Type 0) (m : Action A) : Type 0 where
  pub returns : (db : Db) (a : A) → (m db).0 ≡ ok a → P a

ok-injective : {A : Type 0} (a b : A) → ok a ≡ ok b → a ≡ b
ok-injective a b e = cc

module _ {A B : Type 0} (P : A → Type 0) (Q : B → Type 0) where
  pub Returns-bind :
      (m : Action A) (k : A → Action B)
      → Returns P m
      → ((a : A) → P a → Returns Q (k a))
      → Returns Q (m >>= k)
  unfolding ◌>>=◌
  Returns-bind m k hm hk = record { returns = λ db. go (m db).0 (m db).1 (hm.returns db) }
    where
      go :
          (r : Result A) (db' : Db)
          → ((a : A) → r ≡ ok a → P a)
          → (b : B)
          → (let y : Result B × Db = elim r [ ok a ↦ k a db' | err e ↦ (err e, db') ] in y).0 ≡ ok b
          → Q b
      go (ok a) db' h b e = (hk a (h a refl)).returns db' b e
      go (err x) db' h b e = cc

-- Nothing is asked of the first action.
pub Returns-then :
    {A B : Type 0} (Q : B → Type 0) (m : Action A) (k : A → Action B)
    → ((a : A) → Returns Q (k a))
    → Returns Q (m >>= k)
Returns-then {A} Q m k h =
    Returns-bind (λ a. Unit {0}) Q m k (record { returns = λ db a e. tt }) (λ a p. h a)

pub Returns-pure : {A : Type 0} (P : A → Type 0) (a : A) → P a → Returns P (pure a)
unfolding pure
Returns-pure P a p = record { returns = λ db b e. subst P (ok-injective a b e) p }
