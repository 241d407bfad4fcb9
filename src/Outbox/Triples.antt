-- ===== src/Outbox/Triples.antt =====
-- How the methods of the outbox are reasoned about: a precondition, a call and what holds if it
-- returns; and what a transaction keeps whether it commits or rolls back.
use job_hound.Base.{ℕ, Bool, true, false, List, Option, none, some, ◌≡◌, refl, if◌then◌else◌}
use job_hound.Outbox.Rows.{Owner, Revision, Subject, Intent, Db}
use job_hound.Outbox.Monad.{
  Result, ok, err, Action, ⊤, pure, gets, ◌>>=◌, ◌>>◌, raise, raise_if, or_raise, modify,
  transaction, Error,
}
use job_hound.Outbox.Queries.{OwnedRow, find_owned, owned}

-- What holds of a call that returned; nothing is said of one that raised.
abbrev pub Ensures : {A : Type 0} → (A → Db → Type 0) → Result A × Db → Type 0
Ensures Q (ok a, db) = Q a db
Ensures Q (err e, db) = Unit

pub record Triple {A : Type 0} (P : Db → Type 0) (m : Action A) (Q : A → Db → Type 0) : Type 0 where
  pub run : (db : Db) → P db → Ensures Q (m db)

module _ {A B : Type 0} {P : Db → Type 0} {R : B → Db → Type 0} where
  -- A call, then its continuation on what it returned.
  pub bind_lem :
      {m : Action A} {k : A → Action B} (Q : A → Db → Type 0)
      → Triple P m Q
      → ((a : A) → Triple (Q a) (k a) R)
      → Triple P (m >>= k) R
  unfolding ◌>>=◌
  bind_lem {m} {k} Q hm hk = record { run = λ db h. go (m db).0 (m db).1 (hm.run db h) }
    where
      go :
          (r : Result A) (db' : Db)
          → Ensures Q (r, db')
          → Ensures R (elim r [ ok a ↦ k a db' | err e ↦ (err e, db') ])
      go (ok a) db' q = (hk a).run db' q
      go (err e) db' q = tt

  -- A call that keeps the precondition.
  pub keep_then :
      {m : Action A} {k : A → Action B}
      → Triple P m (λ _. P)
      → ((a : A) → Triple P (k a) R)
      → Triple P (m >>= k) R
  keep_then hm hk = bind_lem (λ _. P) hm hk

  pub gets_then :
      {f : Db → A} {k : A → Action B}
      → ((a : A) → Triple (λ db. P db × (f db ≡ a)) (k a) R)
      → Triple P (gets f >>= k) R
  unfolding gets
  gets_then {f} hk = bind_lem (λ a db. P db × (f db ≡ a)) (record { run = λ db h. (h, refl) }) hk

  pub or_raise_then :
      {o : Option A} (e : Error) {k : A → Action B}
      → ((a : A) → o ≡ some a → Triple P (k a) R)
      → Triple P (or_raise o e >>= k) R
  unfolding or_raise ◌>>=◌
  or_raise_then {o = none} e hk = record { run = λ db h. tt }
  or_raise_then {o = some a} e hk = record { run = λ db h. (hk a refl).run db h }

module _ {B : Type 0} {P : Db → Type 0} {R : B → Db → Type 0} where
  pub check_then :
      (c : Bool) (e : Error) {k : Action B}
      → (c ≡ false → Triple P k R)
      → Triple P (raise_if c e >> k) R
  unfolding raise_if ◌>>=◌
  check_then true e hk = record { run = λ db h. tt }
  check_then false e hk = record { run = λ db h. (hk refl).run db h }

  pub owned_then :
      (o : Owner) (id : ℕ) {k : OwnedRow → Action B}
      → ((row : OwnedRow) → Triple (λ db. P db × (find_owned o id db ≡ some row)) (k row) R)
      → Triple P (owned o id >>= k) R
  unfolding owned or_raise
  owned_then o id hk =
      bind_lem (λ row db. P db × (find_owned o id db ≡ some row))
        (record { run = λ db h. go db h (find_owned o id db) refl }) hk
    where
      go :
          (db : Db)
          → P db
          → (x : Option OwnedRow) → find_owned o id db ≡ x
          → Ensures
              (λ row db'. P db' × (find_owned o id db' ≡ some row))
              (or_raise x Error.outside_owner db)
      go db h none e = tt
      go db h (some row) e = (h, e)

  pub modify_then :
      (P' : Db → Type 0) {f : Db → Db} {k : Action B}
      → ((db : Db) → P db → P' (f db))
      → Triple P' k R
      → Triple P (modify f >> k) R
  unfolding modify
  modify_then P' hf hk = bind_lem (λ _. P') (record { run = λ db h. hf db h }) (λ _. hk)

  pub pure_lem : (b : B) → ((db : Db) → P db → R b db) → Triple P (pure b) R
  unfolding pure
  pure_lem b h = record { run = λ db p. h db p }

  pub gets_lem : (f : Db → B) → ((db : Db) → P db → R (f db) db) → Triple P (gets f) R
  unfolding gets
  gets_lem f h = record { run = λ db p. h db p }

  pub raise_lem : (e : Error) → Triple P (raise e) R
  unfolding raise
  raise_lem e = record { run = λ db p. tt }

  pub if_lem :
      {c : Bool} {m n : Action B}
      → (c ≡ true → Triple P m R)
      → (c ≡ false → Triple P n R)
      → Triple P (if c then m else n) R
  if_lem {c = true} hm hn = hm refl
  if_lem {c = false} hm hn = hn refl

  pub strengthen :
      (Q : B → Db → Type 0) {m : Action B}
      → ((b : B) (db : Db) → Q b db → R b db)
      → Triple P m Q
      → Triple P m R
  strengthen Q {m} h t = record { run = λ db p. go (m db).0 (m db).1 (t.run db p) }
    where
      go : (r : Result B) (db' : Db) → Ensures Q (r, db') → Ensures R (r, db')
      go (ok b) db' q = h b db' q
      go (err e) db' q = tt

  pub weaken :
      (P' : Db → Type 0) {m : Action B} → ((db : Db) → P db → P' db) → Triple P' m R → Triple P m R
  weaken P' h t = record { run = λ db p. t.run db (h db p) }

pub modify_lem :
    {P : Db → Type 0} {R : ⊤ → Db → Type 0} (f : Db → Db)
    → ((db : Db) → P db → R tt (f db))
    → Triple P (modify f) R
unfolding modify
modify_lem f h = record { run = λ db p. h db p }

pub raise_if_lem :
    {P : Db → Type 0} {R : ⊤ → Db → Type 0} (c : Bool) (e : Error)
    → (c ≡ false → (db : Db) → P db → R tt db)
    → Triple P (raise_if c e) R
unfolding raise_if
raise_if_lem true e h = record { run = λ db p. tt }
raise_if_lem false e h = record { run = λ db p. h refl db p }

-- A statement on the revisions, the subjects and the intents.
abbrev pub Core : Type 1
Core = List Revision → List Subject → List Intent → Type 0

abbrev pub On : Core → Db → Type 0
On R db = R db.revisions db.subjects db.intents

-- A transaction keeps what its body keeps, whether it commits or is rolled back.
pub transaction_keeps :
    {A : Type 0} (R : Core) (m : Action A)
    → Triple (On R) m (λ _. On R)
    → (db : Db) → On R db
    → On R (transaction m db).1
unfolding transaction
transaction_keeps {A} R m h db r =
    let opened = record db { in_transaction = true } in
    go db.writable (m opened).0 (m opened).1 (h.run opened r)
  where
    go :
        (w : Bool) (x : Result A) (db' : Db)
        → Ensures (λ _. On R) (x, db')
        → On R
            (if◌then◌else◌ {A = Result A × Db} w
              (elim x [
                | ok a ↦ (ok a, record db' { in_transaction = db.in_transaction })
                | err e ↦ (err e, db)
              ])
              (err Error.review_forbids, db)).1
    go true (ok a) db' q = q
    go true (err e) db' q = r
    go false x db' q = r
