-- ===== src/Envelopes/Quiet.antt =====
-- Actions that change no part of an envelope and record nothing about one.
use job_hound.Base.{
  ℕ, String, Bool, true, false, List, [], ◌∷◌, Option, none, some, ◌≡◌, refl, ◌∙◌, if◌then◌else◌,
}
use job_hound.Outbox.Rows.{
  Owner, EventName, Intent, Status, EnvelopeStatus, Envelope, Part, PartEvent, Notification,
  Revision, Db,
}
use job_hound.Outbox.Monad.{
  Result, ok, err, Action, pure, gets, ◌>>=◌, raise, raise_if, or_raise, modify, Error,
}
use job_hound.Outbox.Queries.{OwnedRow, owned}
use job_hound.Outbox.Revise.{record_event, update_intent}
use job_hound.Outbox.Settle.{
  Outcome, settle, accept_if, accept, record_rollback_receipt, record_receipts, run_id_of,
}
use job_hound.Outbox.Triples.{Ensures, Triple}
use job_hound.Envelopes.Reads.{owned_envelope, owned_each, members}
use job_hound.Envelopes.Writes.{update_envelope, set_state, set_each, set_intents}

pub record Quiet {A : Type 0} (m : Action A) : Type 0 where
  pub parts : (db : Db) → (m db).1.parts ≡ db.parts
  pub events : (db : Db) → (m db).1.part_events ≡ db.part_events

module _ {A B : Type 0} where
  pub Quiet-bind :
      {m : Action A} {k : A → Action B} → Quiet m → ((a : A) → Quiet (k a)) → Quiet (m >>= k)
  unfolding ◌>>=◌
  Quiet-bind {m} {k} hm hk = record {
    parts = λ db. go_parts (m db).0 (m db).1 ∙ hm.parts db;
    events = λ db. go_events (m db).0 (m db).1 ∙ hm.events db;
  }
    where
      go_parts :
          (r : Result A) (db' : Db)
          → (let y : Result B × Db = elim r [ ok a ↦ k a db' | err e ↦ (err e, db') ] in y).1.parts
            ≡ db'.parts
      go_parts (ok a) db' = (hk a).parts db'
      go_parts (err e) db' = refl

      go_events :
          (r : Result A) (db' : Db)
          → (let y : Result B × Db = elim r [ ok a ↦ k a db' | err e ↦ (err e, db') ] in
              y).1.part_events
            ≡ db'.part_events
      go_events (ok a) db' = (hk a).events db'
      go_events (err e) db' = refl

module _ {A : Type 0} where
  pub Quiet-pure : (a : A) → Quiet (pure a)
  unfolding pure
  Quiet-pure a = record { parts = λ db. refl; events = λ db. refl }

  pub Quiet-raise : (e : Error) → Quiet (raise {A = A} e)
  unfolding raise
  Quiet-raise e = record { parts = λ db. refl; events = λ db. refl }

  pub Quiet-gets : (f : Db → A) → Quiet (gets f)
  unfolding gets
  Quiet-gets f = record { parts = λ db. refl; events = λ db. refl }

  pub Quiet-or_raise : (o : Option A) (e : Error) → Quiet (or_raise o e)
  unfolding or_raise
  Quiet-or_raise none e = record { parts = λ db. refl; events = λ db. refl }
  Quiet-or_raise (some a) e = record { parts = λ db. refl; events = λ db. refl }

  pub Quiet-if : (c : Bool) {m n : Action A} → Quiet m → Quiet n → Quiet (if c then m else n)
  Quiet-if true h k = h
  Quiet-if false h k = k

pub Quiet-raise_if : (c : Bool) (e : Error) → Quiet (raise_if c e)
unfolding raise_if
Quiet-raise_if c e = record { parts = λ db. refl; events = λ db. refl }

pub Quiet-owned : (o : Owner) (id : ℕ) → Quiet (owned o id)
unfolding owned
Quiet-owned o id = record {
  parts = λ db. (Quiet-or_raise _ _).parts db;
  events = λ db. (Quiet-or_raise _ _).events db;
}

pub Quiet-update_intent : (id : ℕ) (f : Intent → Intent) → Quiet (update_intent id f)
unfolding modify
Quiet-update_intent id f = record { parts = λ db. refl; events = λ db. refl }

pub Quiet-update_envelope : (env : String) (f : Envelope → Envelope) → Quiet (update_envelope env f)
unfolding update_envelope modify
Quiet-update_envelope env f = record { parts = λ db. refl; events = λ db. refl }

pub Quiet-record_event :
    (o : Owner) (id : ℕ) (name : EventName) (evidence : String) (now : ℕ)
    → Quiet (record_event o id name evidence now)
unfolding record_event modify
Quiet-record_event o id name evidence now =
    Quiet-bind (Quiet-owned o id) (λ row. record { parts = λ db. refl; events = λ db. refl })

pub ruleset quieting = (
  Quiet-bind, Quiet-pure, Quiet-raise, Quiet-gets, Quiet-or_raise, Quiet-if, Quiet-raise_if,
  Quiet-owned, Quiet-update_intent, Quiet-update_envelope, Quiet-record_event,
)

pub Quiet-owned_envelope : (o : Owner) (env : String) → Quiet (owned_envelope o env)
unfolding owned_envelope
Quiet-owned_envelope o env = search quieting

pub Quiet-owned_each : (o : Owner) (ids : List ℕ) → Quiet (owned_each o ids)
unfolding owned_each
Quiet-owned_each o [] = search quieting
Quiet-owned_each o (id ∷ ids) =
    Quiet-bind (Quiet-owned o id) (λ row. search (quieting, Quiet-owned_each o ids))

pub Quiet-members : (o : Owner) (env : String) → Quiet (members o env)
unfolding members
Quiet-members o env = search (quieting, Quiet-owned_each)

pub Quiet-set_state : (env : String) (s : EnvelopeStatus) → Quiet (set_state env s)
unfolding set_state
Quiet-set_state env s = search quieting

Quiet-set_each :
    (o : Owner) (env : String) (s : Status) (now : ℕ) (rows : List OwnedRow)
    → Quiet (set_each o env s now rows)
unfolding set_each
Quiet-set_each o env s now [] = search quieting
Quiet-set_each o env s now (row ∷ rows) =
    Quiet-bind (search quieting) (λ _. Quiet-set_each o env s now rows)

pub Quiet-set_intents :
    (o : Owner) (env : String) (s : Status) (now : ℕ) → Quiet (set_intents o env s now)
unfolding set_intents
Quiet-set_intents o env s now = search (quieting, Quiet-members, Quiet-set_each)

Quiet-run_id_of : (r : Option Revision) → Quiet (run_id_of r)
unfolding run_id_of
Quiet-run_id_of none = search quieting
Quiet-run_id_of (some r) = search quieting

Quiet-receipts :
    (o : Owner) (row : OwnedRow) (ns : Option (List Notification))
    → Quiet (record_receipts o row ns)
unfolding record_receipts
Quiet-receipts o row none = search quieting
Quiet-receipts o row (some ns) = Quiet-bind (Quiet-gets _) (λ r.
    Quiet-bind (Quiet-run_id_of r)
      (λ id. Quiet-bind (record { parts = λ db. refl; events = λ db. refl }) (λ _. Quiet-pure _)))

Quiet-accept_if : (o : Owner) (row : OwnedRow) (outcome : Outcome) → Quiet (accept_if o row outcome)
unfolding accept_if accept record_rollback_receipt modify
Quiet-accept_if o row Outcome.accepted =
    Quiet-bind (record { parts = λ db. refl; events = λ db. refl })
      (λ _. Quiet-bind (Quiet-gets _) (λ ns. Quiet-if _ (Quiet-pure _) (Quiet-receipts o row ns)))
Quiet-accept_if o row Outcome.not_sent = search quieting
Quiet-accept_if o row Outcome.uncertain = search quieting
Quiet-accept_if o row Outcome.permanent_failure = search quieting

pub Quiet-settle :
    (o : Owner) (row : OwnedRow) (outcome : Outcome) (evidence : String) (now : ℕ)
    → Quiet (settle o row outcome evidence now)
unfolding settle
Quiet-settle o row outcome evidence now = search (quieting, Quiet-accept_if)

-- A statement on the parts and on what is recorded about them.
abbrev pub OnParts : (List Part → List PartEvent → Type 0) → Db → Type 0
OnParts R db = R db.parts db.part_events

-- A quiet action keeps it.
pub quiet_lem :
    {A : Type 0} {m : Action A} (R : List Part → List PartEvent → Type 0)
    → Quiet m
    → Triple (OnParts R) m (λ _. OnParts R)
quiet_lem {A} {m} R q = record {
  run = λ db h. go db h (m db).0 (m db).1 (q.parts db) (q.events db);
}
  where
    go :
        (db : Db)
        → OnParts R db
        → (r : Result A) (db' : Db) → db'.parts ≡ db.parts
        → db'.part_events ≡ db.part_events
        → Ensures (λ _. OnParts R) (r, db')
    go db h (ok a) db' e e' = rw (e, e') h
    go db h (err x) db' e e' = tt
