-- ===== src/Outbox/Soundness/Leases.antt =====
-- `_expire`, `claim_next`, `_lease` and `begin_send` keep the outbox sound.
use job_hound.Base.{
  ℕ, ◌≡◌, refl, Bool, true, List, [], ◌∷◌, Option, none, some, String, All, arith, find?,
  All-filter_test, All-find?,
}
use job_hound.Outbox.Rows.{
  Owner, Destination, Status, Revision, Subject, Intent, Db, is_leased, is_pending,
}
use job_hound.Outbox.Queries.{OwnedRow, find_intent, set_intent}
use job_hound.Outbox.Revise.{set_status}
use job_hound.Outbox.Leases.{
  expire, expire_rows, expire_one, expiry_status, is_expired, lease, check_until, claim_next,
  claim_row, claim_next_body, begin_send, begin_send_body, single_only, is_claimable, set_lease,
  start_sending, is_leased_or_sending,
}
use job_hound.Outbox.Triples.{
  Core, On, Triple, keep_then, modify_then, modify_lem, gets_then, if_lem, pure_lem, weaken,
  bind_lem, raise_lem, check_then, owned_then, raise_if_lem,
}
use job_hound.Outbox.Keeps.{Keeps, Keeps-bind, Keeps-transaction, Keeps-raise_if}
use job_hound.Outbox.Events.{record_event-On}
use job_hound.Outbox.Intents.{owned_lem}
use job_hound.Outbox.Snapshots.{
  IsSnapshot, IsSnapshot-set_intent, IsSnapshot-tail, All-find_intent, filter-IsSnapshot,
}
use job_hound.Outbox.Soundness.{IsWellFormed, IsOpenCurrent, IsSound, IsSoundAt}
use job_hound.Outbox.Soundness.Writes.{row-IsWellFormed, row-IsOpenCurrent, IsSound-set_row}

-- Rows ahead of the loop of `_expire`: as they were selected, and leased or sending.
record IsExpiring (rows : List Intent) (revs : List Revision) (subs : List Subject)
    (is : List Intent) : Type 0 where
  sound : IsSound revs subs is
  snapshot : IsSnapshot rows is
  held : All (λ j. is_leased_or_sending j.status ≡ true) rows

expired-IsWellFormed :
    (i : Intent)
    → is_leased_or_sending i.status ≡ true
    → IsWellFormed i
    → IsWellFormed (set_status (expiry_status i.status) i)
expired-IsWellFormed i e h = ground arith

expired-IsOpenCurrent :
    (revs : List Revision) (subs : List Subject) (i : Intent)
    → is_leased_or_sending i.status ≡ true
    → IsOpenCurrent revs subs i
    → IsOpenCurrent revs subs (set_status (expiry_status i.status) i)
expired-IsOpenCurrent revs subs i e h p =
    let c = h (ground arith) in
    record { revision = c.revision; found = c.found; current = c.current }

expire_one-IsExpiring :
    (o : Owner) (now : ℕ) (i : Intent) (rows : List Intent)
    → Triple (On (IsExpiring (i ∷ rows))) (expire_one o now i) (λ _. On (IsExpiring rows))
unfolding expire_one
expire_one-IsExpiring o now i rows =
    keep_then (record_event-On (IsExpiring (i ∷ rows)) o _ _ _ _) (λ _. modify_lem _ (λ db h.
      record {
        sound =
            IsSound-set_row _ h.sound h.snapshot.found.0 _ (λ _. refl)
              (expired-IsWellFormed i h.held.0 (row-IsWellFormed _ h.sound h.snapshot.found.0))
              (expired-IsOpenCurrent _ _ i h.held.0
                (row-IsOpenCurrent _ h.sound h.snapshot.found.0));
        snapshot = IsSnapshot-set_intent _ i rows _ (λ _. refl) h.snapshot;
        held = h.held.1;
      }))

expire_rows-IsSound :
    (o : Owner) (now : ℕ) (rows : List Intent)
    → Triple (On (IsExpiring rows)) (expire_rows o now rows) (λ _. On IsSound)
unfolding expire_rows
expire_rows-IsSound o now [] = pure_lem _ (λ db h. h.sound)
expire_rows-IsSound o now (i ∷ rows) = gets_then (λ held.
    weaken (On (IsExpiring (i ∷ rows))) (λ db h. h.0)
      (bind_lem (λ _. On (IsExpiring rows))
        (if_lem
          (λ _. pure_lem _ (λ db h. record {
            sound = h.sound;
            snapshot = IsSnapshot-tail h.snapshot;
            held = h.held.1;
          }))
          (λ _. expire_one-IsExpiring o now i rows))
        (λ _. expire_rows-IsSound o now rows)))

pub expire-IsSound : (o : Owner) (now : ℕ) → Triple (On IsSound) (expire o now) (λ _. On IsSound)
unfolding expire
expire-IsSound o now = gets_then (λ rows.
    weaken (On (IsExpiring rows))
      (λ db h. rw (← h.1) (record {
        sound = h.0;
        snapshot = filter-IsSnapshot _ db.intents h.0.ascend;
        held = All-filter_test (is_expired o db.revisions now) db.intents (λ i e. ground arith);
      }))
      (expire_rows-IsSound o now rows))

check_until-On : (R : Core) (now : ℕ) (t : Option ℕ) → Triple (On R) (check_until now t) (λ _. On R)
unfolding check_until
check_until-On R now none = raise_lem _
check_until-On R now (some t) = raise_if_lem _ _ (λ _ db h. h)

pub lease-IsSoundAt :
    (o : Owner) (id : ℕ) (token : String) (wanted : Status → Bool) (now : ℕ)
    → Triple
        (On IsSound)
        (lease o id token wanted now)
        (λ row db. On (IsSoundAt o id row) db × (wanted row.intent.status ≡ true))
unfolding lease
lease-IsSoundAt o id token wanted now = owned_then _ _ (λ row. check_then _ _ (λ e.
    weaken (On (IsSoundAt o id row))
      (λ db h. record { sound = h.0; owned = owned_lem o id row db h.1 })
      (keep_then (check_until-On _ now _) (λ _. pure_lem _ (λ db h. (h, ground arith))))))

-- The row that `claim_next` chose.
record IsClaiming (i : Intent) (revs : List Revision) (subs : List Subject) (is : List Intent)
    : Type 0 where
  sound : IsSound revs subs is
  found : find_intent i.id is ≡ some i
  pending : is_pending i.status ≡ true

is_claimable-IsClaiming :
    (o : Owner) (d : Destination) (now : ℕ) (i : Intent) (db : Db)
    → On IsSound db
    → find? (is_claimable o d now db) db.intents ≡ some i
    → On (IsClaiming i) db
unfolding is_claimable
is_claimable-IsClaiming o d now i db h e =
    let (found, test) =
      All-find? (λ j. find_intent j.id db.intents ≡ some j) (is_claimable o d now db) db.intents i
        (All-find_intent db.intents h.ascend) e in
    record { sound = h; found = found; pending = ground arith }

set_lease-IsWellFormed :
    (token : String) (until : ℕ) (i : Intent)
    → is_pending i.status ≡ true
    → IsWellFormed i
    → IsWellFormed (set_lease token until i)
set_lease-IsWellFormed token until i e h = ground arith

claimed-IsSound :
    (token : String) (until : ℕ) (i : Intent) (revs : List Revision) (subs : List Subject)
    (is : List Intent)
    → IsClaiming i revs subs is
    → IsSound revs subs (set_intent i.id (set_lease token until) is)
claimed-IsSound token until i revs subs is h =
    IsSound-set_row _ h.sound h.found _ (λ _. refl)
      (set_lease-IsWellFormed token until i h.pending (row-IsWellFormed _ h.sound h.found))
      (λ _.
        let c = row-IsOpenCurrent _ h.sound h.found (ground arith) in
        record { revision = c.revision; found = c.found; current = c.current })

claim_row-IsSound :
    (o : Owner) (token : String) (now until : ℕ) (i : Intent)
    → Triple (On (IsClaiming i)) (claim_row o token now until (some i)) (λ _. On IsSound)
unfolding claim_row
claim_row-IsSound o token now until i =
    modify_then (On IsSound) (λ db h. claimed-IsSound token until i _ _ _ h)
      (keep_then (record_event-On IsSound o _ _ _ _)
        (λ _. owned_then _ _ (λ row. pure_lem _ (λ db h. h.0))))

claim_found-IsSound :
    (o : Owner) (d : Destination) (token : String) (now until : ℕ) (row : Option Intent)
    → Triple
        (λ db. On IsSound db × (find? (is_claimable o d now db) db.intents ≡ row))
        (claim_row o token now until row)
        (λ _. On IsSound)
unfolding claim_row
claim_found-IsSound o d token now until none = pure_lem _ (λ db h. h.0)
claim_found-IsSound o d token now until (some i) =
    weaken (On (IsClaiming i)) (λ db h. is_claimable-IsClaiming o d now i db h.0 h.1)
      (claim_row-IsSound o token now until i)

pub claim_next-IsSound :
    (o : Owner) (d : Destination) (token : String) (now lease_seconds : ℕ)
    → Keeps IsSound (claim_next o d token now lease_seconds)
unfolding claim_next claim_next_body
claim_next-IsSound o d token now lease_seconds = Keeps-bind (Keeps-raise_if _ _) (λ _.
    Keeps-transaction _ (
      keep_then (expire-IsSound o now)
        (λ _. gets_then (λ row. claim_found-IsSound o d token now _ row))))

start_sending-IsWellFormed :
    (i : Intent) → is_leased i.status ≡ true → IsWellFormed i → IsWellFormed (start_sending i)
start_sending-IsWellFormed i e h = ground arith

single_only-On : (R : Core) (id : ℕ) → Triple (On R) (single_only id) (λ _. On R)
unfolding single_only
single_only-On R id = gets_then (λ held. raise_if_lem _ _ (λ _ db h. h.0))

begun-IsSound :
    (o : Owner) (id : ℕ) (row : OwnedRow) {revs : List Revision} {subs : List Subject}
    {is : List Intent}
    → IsSoundAt o id row revs subs is
    → is_leased row.intent.status ≡ true
    → IsSound revs subs (set_intent id start_sending is)
begun-IsSound o id row h e =
    IsSound-set_row _ h.sound h.owned.found _ (λ _. refl)
      (start_sending-IsWellFormed row.intent e (row-IsWellFormed _ h.sound h.owned.found)) (λ q. cc)

pub begin_send-IsSound :
    (o : Owner) (id : ℕ) (token : String) (now : ℕ) → Keeps IsSound (begin_send o id token now)
unfolding begin_send begin_send_body
begin_send-IsSound o id token now = Keeps-transaction _ (
    keep_then (single_only-On IsSound id) (λ _.
      bind_lem _ (lease-IsSoundAt o id token is_leased now) (λ row.
        modify_then (On IsSound) (λ db h. begun-IsSound o id row h.0 h.1)
          (record_event-On IsSound o _ _ _ _))))
