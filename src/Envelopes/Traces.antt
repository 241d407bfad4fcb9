-- ===== src/Envelopes/Traces.antt =====
-- Every sequence of the methods of `DigestTransport`, of any owners and arguments, whether a method
-- returned or raised, between which the rest of the program leaves the parts alone.
use job_hound.Base.{ℕ, ◌+◌, ◌≤◌, ◌≡◌, String, Bool, Option, some, List, [], if◌then◌else◌}
use job_hound.Outbox.Rows.{Owner, Destination, Part, Db}
use job_hound.Outbox.Monad.{Result, ok, err, Action, raise_if, ◌>>=◌, Error}
use job_hound.Outbox.Queries.{OwnedRow}
use job_hound.Outbox.Identity.{identifier}
use job_hound.Outbox.Settle.{Outcome}
use job_hound.Envelopes.Reads.{is_waiting, find_part}
use job_hound.Envelopes.Claims.{expire_leases, claim, begin_part}
use job_hound.Envelopes.Settling.{Receipt, finish_part, reconcile_part, abandon}
use job_hound.Envelopes.Summaries.{Summary}
use job_hound.Envelopes.Drafts.{Digest, prepare}
use job_hound.Envelopes.Reissue.{reissue_unsent}
use job_hound.Envelopes.Quiet.{OnParts}
use job_hound.Envelopes.Keys.{found-Both}
use job_hound.Envelopes.Sends.{IsAccounted, IsCovered, refusals}
use job_hound.Envelopes.Methods.{
  expire_envelope-Sound, claim_body-Sound, begin_part_body-Sound, expire_all-Sound,
}
use job_hound.Envelopes.Settled.{settle_sent-Sound, settle_doubted-Sound, abandon_body-Sound}
use job_hound.Envelopes.Drafted.{prepare_body-Sound, reissue_body-Sound, transaction_keeps_parts}

-- A method call of the transport.
pub data Call : Type 0 where
  prepares : Destination → List ℕ → (List OwnedRow → Digest) → Option Summary → String → ℕ → Call
  expires : Destination → ℕ → Call
  claims : String → Destination → String → ℕ → ℕ → Call
  begins : String → String → ℕ → Call
  finishes : String → String → ℕ → Receipt → ℕ → Call
  reviews : String → ℕ → Outcome → Bool → String → ℕ → Call
  abandons : String → Bool → String → ℕ → Call
  reissues : List String → List ℕ → Bool → String → ℕ → Call

-- The state after a call, whether it returned or raised.
unfoldable pub after : (ℕ → Bool) → Owner → Call → Db → Db
after alnum o (Call.prepares d ids render summary env now) db =
    (prepare o d ids render summary env now db).1
after alnum o (Call.expires d now) db = (expire_leases o d now db).1
after alnum o (Call.claims env d token now lease) db = (claim o env d token now lease db).1
after alnum o (Call.begins env token now) db = (begin_part o env token now db).1
after alnum o (Call.finishes env token ordinal r now) db =
    (finish_part o env token ordinal r now db).1
after alnum o (Call.reviews env ordinal outcome reviewed evidence now) db =
    (reconcile_part alnum o env ordinal outcome reviewed evidence now db).1
after alnum o (Call.abandons env reviewed evidence now) db =
    (abandon alnum o env reviewed evidence now db).1
after alnum o (Call.reissues envs ids reviewed evidence now) db =
    (reissue_unsent alnum o envs ids reviewed evidence now db).1

-- The states that the calls lead to.
pub data Reached (alnum : ℕ → Bool) : Db → Type 0 where
  fresh : {db : Db} → db.parts ≡ [] → db.part_events ≡ [] → Reached alnum db
  called :
      {db : Db} → Reached alnum db → (o : Owner) → (c : Call) → Reached alnum (after alnum o c db)
  elsewhere :
      {db db' : Db}
      → Reached alnum db
      → db'.parts ≡ db.parts
      → db'.part_events ≡ db.part_events
      → Reached alnum db'

-- What is kept by a call, returned or not.
record Kept {A : Type 0} (m : Action A) : Type 0 where
  kept : (db : Db) → OnParts IsAccounted db → OnParts IsAccounted (m db).1

module _ {A B : Type 0} where
  Kept-bind : {m : Action A} {k : A → Action B} → Kept m → ((a : A) → Kept (k a)) → Kept (m >>= k)
  unfolding ◌>>=◌
  Kept-bind {m} {k} hm hk = record { kept = λ db h. go (m db).0 (m db).1 (hm.kept db h) }
    where
      go :
          (r : Result A) (db' : Db)
          → OnParts IsAccounted db'
          → OnParts IsAccounted
              (let y : Result B × Db = elim r [ ok a ↦ k a db' | err e ↦ (err e, db') ] in y).1
      go (ok a) db' h = (hk a).kept db' h
      go (err e) db' h = h

Kept-raise_if : (c : Bool) (e : Error) → Kept (raise_if c e)
unfolding raise_if
Kept-raise_if c e = record { kept = λ db h. h }

Kept-identifier : (a : String) → Kept (identifier a)
unfolding raise_if
Kept-identifier a = record { kept = λ db h. h }

after-IsAccounted :
    (alnum : ℕ → Bool) (o : Owner) (c : Call) (db : Db)
    → OnParts IsAccounted db
    → OnParts IsAccounted (after alnum o c db)
unfolding after prepare expire_leases claim begin_part finish_part reconcile_part abandon
    reissue_unsent
after-IsAccounted alnum o (Call.prepares d ids render summary env now) db h =
    (Kept-bind (Kept-raise_if _ _) (λ _. record {
      kept = transaction_keeps_parts _ (prepare_body-Sound o d ids render summary env now);
    })).kept
      db h
after-IsAccounted alnum o (Call.expires d now) db h =
    transaction_keeps_parts _ (expire_all-Sound o d now) db h
after-IsAccounted alnum o (Call.claims env d token now lease) db h =
    (Kept-bind (Kept-raise_if _ _) (λ _. record {
      kept = transaction_keeps_parts _ (claim_body-Sound o env d token now (now + lease));
    })).kept
      db h
after-IsAccounted alnum o (Call.begins env token now) db h =
    transaction_keeps_parts _ (begin_part_body-Sound o env token now) db h
after-IsAccounted alnum o (Call.finishes env token ordinal r now) db h =
    (Kept-bind (record { kept = transaction_keeps_parts _ (expire_envelope-Sound o env now) })
        (λ _. record {
          kept = transaction_keeps_parts _ (settle_sent-Sound o env token ordinal r now);
        })).kept
      db h
after-IsAccounted alnum o (Call.reviews env ordinal outcome reviewed evidence now) db h =
    (Kept-bind (Kept-raise_if _ _) (λ _. Kept-bind (Kept-raise_if _ _) (λ _. record {
      kept = transaction_keeps_parts _ (settle_doubted-Sound o env ordinal _ now);
    }))).kept
      db h
after-IsAccounted alnum o (Call.abandons env reviewed evidence now) db h =
    (Kept-bind (Kept-raise_if _ _) (λ _. Kept-bind (Kept-raise_if _ _) (λ _. record {
      kept = transaction_keeps_parts _ (abandon_body-Sound o env evidence now);
    }))).kept
      db h
after-IsAccounted alnum o (Call.reissues envs ids reviewed evidence now) db h =
    (Kept-bind (Kept-raise_if _ _) (λ _. Kept-bind (Kept-identifier evidence) (λ _.
        Kept-bind (Kept-raise_if _ _) (λ _. record {
          kept = transaction_keeps_parts _ (reissue_body-Sound alnum o envs ids evidence now);
        })))).kept
      db h

pub reached-IsAccounted : (alnum : ℕ → Bool) (db : Db) → Reached alnum db → OnParts IsAccounted db
reached-IsAccounted alnum db (Reached.fresh p e) = rw (p, e) (record { unique = tt; covered = tt })
reached-IsAccounted alnum db (Reached.called {db = before} r o c) =
    after-IsAccounted alnum o c before (reached-IsAccounted alnum before r)
reached-IsAccounted alnum db (Reached.elsewhere {db = before} r p e) =
    rw (p, e) (reached-IsAccounted alnum before r)

-- After any calls of the transport on a database without parts, between which nothing else writes a
-- part or its evidence, each part of an envelope was sent at most once more than it is recorded as
-- surely not sent, and no more than that while it waits to be sent again.
pub reached_no_blind_retry :
    (alnum : ℕ → Bool) (db : Db)
    → Reached alnum db
    → (env : String) (ordinal : ℕ) (p : Part) → find_part env ordinal db.parts ≡ some p
    → p.attempts
      ≤ refusals p.envelope p.ordinal db.part_events + (if is_waiting p.status then 0 else 1)
reached_no_blind_retry alnum db r env ordinal p e =
    let h = reached-IsAccounted alnum db r in
    (found-Both env _ (IsCovered db.part_events) db.parts p e h.covered).0
