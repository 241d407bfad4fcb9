-- ===== src/Outbox/Keeps.antt =====
-- What a method keeps of the revisions, subjects and intents, however it ends: what was written before
-- an exception is in the state that the caller sees, unless a transaction rolled it back.
use job_hound.Base.{Bool, true, false, if◌then◌else◌}
use job_hound.Outbox.Rows.{Db}
use job_hound.Outbox.Monad.{
  Result, ok, err, Action, pure, gets, ◌>>=◌, raise, raise_if, transaction, Error,
}
use job_hound.Outbox.Triples.{Core, On, Triple, transaction_keeps}

pub record Keeps {A : Type 0} (R : Core) (m : Action A) : Type 0 where
  pub run : (db : Db) → On R db → On R (m db).1

module _ {A B : Type 0} {R : Core} where
  pub Keeps-bind :
      {m : Action A} {k : A → Action B} → Keeps R m → ((a : A) → Keeps R (k a)) → Keeps R (m >>= k)
  unfolding ◌>>=◌
  Keeps-bind {m} {k} hm hk = record { run = λ db h. go (m db).0 (m db).1 (hm.run db h) }
    where
      go :
          (r : Result A) (db' : Db)
          → On R db'
          → On R (let y : Result B × Db = elim r [ ok a ↦ k a db' | err e ↦ (err e, db') ] in y).1
      go (ok a) db' q = (hk a).run db' q
      go (err e) db' q = q

module _ {A : Type 0} {R : Core} where
  pub Keeps-pure : (a : A) → Keeps R (pure a)
  unfolding pure
  Keeps-pure a = record { run = λ db h. h }

  pub Keeps-raise : (e : Error) → Keeps R (raise {A = A} e)
  unfolding raise
  Keeps-raise e = record { run = λ db h. h }

  pub Keeps-gets : (f : Db → A) → Keeps R (gets f)
  unfolding gets
  Keeps-gets f = record { run = λ db h. h }

  pub Keeps-transaction : (m : Action A) → Triple (On R) m (λ _. On R) → Keeps R (transaction m)
  Keeps-transaction m h = record { run = transaction_keeps R m h }

  pub Keeps-if : (c : Bool) {m n : Action A} → Keeps R m → Keeps R n → Keeps R (if c then m else n)
  Keeps-if true h k = h
  Keeps-if false h k = k

pub Keeps-raise_if : {R : Core} (c : Bool) (e : Error) → Keeps R (raise_if c e)
unfolding raise_if
Keeps-raise_if c e = record { run = λ db h. h }

pub ruleset keeping = (Keeps-bind, Keeps-pure, Keeps-raise, Keeps-gets, Keeps-if, Keeps-raise_if)
