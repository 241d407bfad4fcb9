-- ===== src/Outbox/Soundness/Settle.antt =====
-- `_settle`, `finish` and `reconcile` keep the outbox sound.
use job_hound.Base.{
  ℕ, ◌≡◌, refl, ap, Bool, true, false, List, Option, none, some, String, arith, str_eq_iff,
}
use job_hound.Outbox.Rows.{Owner, Status, Revision, Subject, Intent, Notification}
use job_hound.Outbox.Queries.{OwnedRow, current_revision, set_intent}
use job_hound.Outbox.Settle.{
  Outcome, accept, accept_if, settle, settled_status, settle_intent, is_revision,
  record_rollback_receipt, record_receipts, run_id_of, retry_at, settle_lease, settle_reviewed,
  finish, reconcile, check_reconcilable,
}
use job_hound.Outbox.Triples.{
  Core, On, Triple, keep_then, modify_then, modify_lem, gets_then, if_lem, pure_lem, weaken,
  bind_lem, raise_lem, owned_then,
}
use job_hound.Outbox.Keeps.{Keeps, Keeps-bind, Keeps-gets, Keeps-raise_if, Keeps-transaction}
use job_hound.Outbox.Leases.{single_only}
use job_hound.Outbox.Events.{record_event-On}
use job_hound.Outbox.Intents.{IsOwned, owned_lem}
use job_hound.Outbox.Soundness.Leases.{lease-IsSoundAt, expire-IsSound}
use job_hound.Outbox.Soundness.Writes.{row-IsWellFormed, IsSound-set_row_id}
use job_hound.Outbox.Soundness.{IsWellFormed, IsOpenCurrent, IsSound, IsSoundAt}

run_id_of-On : (R : Core) (r : Option Revision) → Triple (On R) (run_id_of r) (λ _. On R)
unfolding run_id_of
run_id_of-On R none = raise_lem _
run_id_of-On R (some r) = pure_lem _ (λ db h. h)

record_receipts-On :
    (R : Core) (o : Owner) (row : OwnedRow) (ns : Option (List Notification))
    → Triple (On R) (record_receipts o row ns) (λ _. On R)
unfolding record_receipts
record_receipts-On R o row none = pure_lem _ (λ db h. h)
record_receipts-On R o row (some ns) = gets_then (λ found.
    weaken (On R) (λ db h. h.0)
      (keep_then (run_id_of-On R found)
        (λ id. keep_then (record { run = λ db h. h }) (λ _. pure_lem _ (λ db h. h)))))

-- Acceptance writes the baselines and the V4.2 history only.
accept-On : (R : Core) (o : Owner) (row : OwnedRow) → Triple (On R) (accept o row) (λ _. On R)
unfolding accept record_rollback_receipt
accept-On R o row =
    modify_then (On R) (λ db h. h)
      (gets_then (λ ns.
        weaken (On R) (λ db h. h.0)
          (if_lem (λ _. pure_lem _ (λ db h. h)) (λ _. record_receipts-On R o row ns))))

accept_if-On :
    (R : Core) (o : Owner) (row : OwnedRow) (outcome : Outcome)
    → Triple (On R) (accept_if o row outcome) (λ _. On R)
unfolding accept_if
accept_if-On R o row Outcome.accepted = accept-On R o row
accept_if-On R o row _ = pure_lem _ (λ db h. h)

-- The settled intent is well formed.
settle_intent-IsWellFormed :
    (outcome : Outcome) (current : Bool) (now : ℕ) (i : Intent)
    → IsWellFormed i
    → let s = settled_status outcome current i in
      IsWellFormed (settle_intent s (retry_at s i.attempts now) i)
settle_intent-IsWellFormed outcome current now i h = ground arith

is_revision→eq : (id : String) (r : Option String) → is_revision id r ≡ true → r ≡ some id
is_revision→eq id none h = cc
is_revision→eq id (some r) h = ap some ((str_eq_iff r id).0 h)

-- It is open again only if its revision is the current one.
settle_intent-IsOpenCurrent :
    (o : Owner) (id : ℕ) (row : OwnedRow) (revs : List Revision) (subs : List Subject)
    (is : List Intent) (outcome : Outcome) (current : Bool) (now : ℕ)
    → IsOwned o id row revs is
    → is_revision row.intent.revision (current_revision o row.revision.subject subs) ≡ current
    → let s = settled_status outcome current row.intent in
      IsOpenCurrent revs subs (settle_intent s (retry_at s row.intent.attempts now) row.intent)
settle_intent-IsOpenCurrent o id row revs subs is Outcome.accepted current now h e p = cc
settle_intent-IsOpenCurrent o id row revs subs is Outcome.uncertain current now h e p = cc
settle_intent-IsOpenCurrent o id row revs subs is Outcome.permanent_failure current now h e p = cc
settle_intent-IsOpenCurrent o id row revs subs is Outcome.not_sent false now h e p = cc
settle_intent-IsOpenCurrent o id row revs subs is Outcome.not_sent true now h e p = record {
  revision = row.revision;
  found = h.joined;
  current = rw h.owner (is_revision→eq _ _ e);
}

settled-IsSound :
    (o : Owner) (id : ℕ) (row : OwnedRow) (outcome : Outcome) (current : Bool) (now : ℕ)
    {revs : List Revision} {subs : List Subject} {is : List Intent}
    → IsSoundAt o id row revs subs is
    → is_revision row.intent.revision (current_revision o row.revision.subject subs) ≡ current
    → let s = settled_status outcome current row.intent in
      IsSound revs subs
        (set_intent row.intent.id (settle_intent s (retry_at s row.intent.attempts now)) is)
settled-IsSound o id row outcome current now {revs} {subs} {is} h e =
    (IsSound-set_row_id _ h.sound h.owned.found _ (λ i. refl)
      (settle_intent-IsWellFormed outcome current now row.intent
        (row-IsWellFormed _ h.sound h.owned.found))
      (settle_intent-IsOpenCurrent o id row revs subs is outcome current now h.owned e))

pub settle-IsSound :
    (o : Owner) (id : ℕ) (row : OwnedRow) (outcome : Outcome) (evidence : String) (now : ℕ)
    → Triple (On (IsSoundAt o id row)) (settle o row outcome evidence now) (λ _. On IsSound)
unfolding settle
settle-IsSound o id row outcome evidence now = keep_then (accept_if-On _ o row outcome) (λ _.
    gets_then (λ current.
      let R : Core = λ revs subs is.
        IsSoundAt o id row revs subs is
        × (is_revision row.intent.revision (current_revision o row.revision.subject subs)
            ≡ current) in
      weaken (On R) (λ db h. h)
        (keep_then (record_event-On R o _ _ _ _)
          (λ _. modify_lem _ (λ db h. settled-IsSound o id row outcome current now h.0 h.1)))))

settle_lease-IsSound :
    (o : Owner) (id : ℕ) (token : String) (outcome : Outcome) (evidence : String) (now : ℕ)
    → Triple (On IsSound) (settle_lease o id token outcome evidence now) (λ _. On IsSound)
unfolding settle_lease
settle_lease-IsSound o id token outcome evidence now =
    bind_lem _ (lease-IsSoundAt o id token _ now) (λ row.
      weaken (On (IsSoundAt o id row)) (λ db h. h.0) (settle-IsSound o id row outcome evidence now))

check_reconcilable-On : (R : Core) (s : Status) → Triple (On R) (check_reconcilable s) (λ _. On R)
unfolding check_reconcilable
check_reconcilable-On R Status.uncertain = pure_lem _ (λ db h. h)
check_reconcilable-On R Status.legacy_hold = raise_lem _
check_reconcilable-On R _ = raise_lem _

settle_reviewed-IsSound :
    (o : Owner) (id : ℕ) (outcome : Outcome) (evidence : String) (now : ℕ)
    → Triple (On IsSound) (settle_reviewed o id outcome evidence now) (λ _. On IsSound)
unfolding settle_reviewed
settle_reviewed-IsSound o id outcome evidence now = owned_then _ _ (λ row.
    weaken (On (IsSoundAt o id row))
      (λ db h. record { sound = h.0; owned = owned_lem o id row db h.1 })
      (keep_then (check_reconcilable-On _ row.intent.status)
        (λ _. settle-IsSound o id row outcome evidence now)))

-- `finish` keeps the outbox sound, also where it raises after the expiry is committed.
pub finish-IsSound :
    (o : Owner) (id : ℕ) (token : String) (outcome : Outcome) (evidence : String) (now : ℕ)
    → Keeps IsSound (finish o id token outcome evidence now)
unfolding finish single_only
finish-IsSound o id token outcome evidence now =
    Keeps-bind (Keeps-bind (Keeps-gets _) (λ _. Keeps-raise_if _ _)) (λ _.
      Keeps-bind (Keeps-raise_if _ _) (λ _.
        Keeps-bind (Keeps-transaction _ (expire-IsSound o now))
          (λ _. Keeps-transaction _ (settle_lease-IsSound o id token outcome evidence now))))

pub reconcile-IsSound :
    (o : Owner) (id : ℕ) (outcome : Outcome) (evidence : String) (reviewed : Bool) (now : ℕ)
    → Keeps IsSound (reconcile o id outcome evidence reviewed now)
unfolding reconcile single_only
reconcile-IsSound o id outcome evidence reviewed now =
    Keeps-bind (Keeps-bind (Keeps-gets _) (λ _. Keeps-raise_if _ _)) (λ _.
      Keeps-bind (Keeps-raise_if _ _) (λ _.
        Keeps-bind (Keeps-raise_if _ _)
          (λ _. Keeps-transaction _ (settle_reviewed-IsSound o id outcome evidence now))))
