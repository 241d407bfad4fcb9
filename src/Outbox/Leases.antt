-- ===== src/Outbox/Leases.antt =====
-- `_expire`, `claim_next`, `_lease` and `begin_send` of jobhound/delivery_outbox.py. A lease token
-- is the caller's argument, which stands for `uuid4().hex`.
use job_hound.Base.{
  ℕ, ◌+◌, String, Bool, true, false, not, ◌&&◌, ◌||◌, Option, none, some, List, [], ◌∷◌, ltb, leb,
  str_eq, find?, any, filter, if◌then◌else◌,
}
use job_hound.Outbox.Rows.{
  Owner, same_owner, Revision, Destination, same_destination, Intent, Status, is_pending, is_leased,
  EventName, Db,
}
use job_hound.Outbox.Monad.{Action, ⊤, pure, raise, gets, ◌>>=◌, ◌>>◌, raise_if, transaction, Error}
use job_hound.Outbox.Queries.{
  OwnedRow, find_revision, joins_owner, joins_subject, owned, reserved, subject_reserved,
}
use job_hound.Outbox.Revise.{record_event, update_intent, set_status}

-- `lease_until<=?`, which NULL does not meet.
abbrev pub lapsed : ℕ → Option ℕ → Bool
lapsed now none = false
lapsed now (some t) = leb t now

-- `i.status IN ('leased','sending')`
abbrev pub is_leased_or_sending : Status → Bool
is_leased_or_sending Status.leased = true
is_leased_or_sending Status.sending = true
is_leased_or_sending _ = false

abbrev pub is_expired : Owner → List Revision → ℕ → Intent → Bool
is_expired o revs now i =
    joins_owner o (find_revision i.revision revs)
    && is_leased_or_sending i.status
    && lapsed now i.lease_until

-- A claim that was never sent goes back; a send that may have left becomes uncertain.
abbrev pub expiry_status : Status → Status
expiry_status Status.leased = Status.pending
expiry_status _ = Status.uncertain

abbrev pub expiry_event : Status → EventName
expiry_event Status.leased = EventName.lease_expired_pending
expiry_event _ = EventName.lease_expired_uncertain

unfoldable pub expire_one : Owner → ℕ → Intent → Action ⊤
unfolding record_event
expire_one o now i = do
  record_event o i.id (expiry_event i.status) "" now
  update_intent i.id (set_status (expiry_status i.status))

unfoldable pub expire_rows : Owner → ℕ → List Intent → Action ⊤
unfolding expire_one reserved
expire_rows o now [] = pure tt
expire_rows o now (i ∷ is) = do
  held ← gets (reserved i.id)
  if held then pure tt else expire_one o now i
  expire_rows o now is

-- `_expire`
unfoldable pub expire : Owner → ℕ → Action ⊤
unfolding expire_rows
expire o now = do
  rows ← gets (λ db. filter (is_expired o db.revisions now) db.intents)
  expire_rows o now rows

-- `b.status IN ('leased','sending','uncertain','legacy_hold')`
abbrev pub blocks_claim : Status → Bool
blocks_claim Status.leased = true
blocks_claim Status.sending = true
blocks_claim Status.uncertain = true
blocks_claim Status.legacy_hold = true
blocks_claim _ = false

-- Another card of the same subject and destination is in the way.
abbrev pub is_blocker : Owner → String → Destination → List Revision → Intent → Bool
is_blocker o name d revs b =
    joins_subject o name (find_revision b.revision revs)
    && same_destination b.destination d
    && blocks_claim b.status

unfoldable pub is_free : Owner → Destination → Db → Intent → Option Revision → Bool
unfolding subject_reserved
is_free o d db i none = false
is_free o d db i (some r) =
    same_owner r.owner o
    && not (any (is_blocker o r.subject d db.revisions) db.intents)
    && not (subject_reserved o (record { intent = i; revision = r }) "" db)

-- The WHERE clause of `claim_next` and the test on the rows that it yields.
unfoldable pub is_claimable : Owner → Destination → ℕ → Db → Intent → Bool
unfolding is_free reserved
is_claimable o d now db i =
    same_destination i.destination d
    && is_pending i.status
    && leb i.available now
    && ltb i.attempts i.max_attempts
    && not (reserved i.id db)
    && is_free o d db i (find_revision i.revision db.revisions)

abbrev pub set_lease : String → ℕ → Intent → Intent
set_lease token until i = record i {
  status = Status.leased;
  token = some token;
  lease_until = some until;
}

unfoldable pub claim_row : Owner → String → ℕ → ℕ → Option Intent → Action (Option OwnedRow)
unfolding record_event owned
claim_row o token now until none = pure none
claim_row o token now until (some i) = do
  update_intent i.id (set_lease token until)
  record_event o i.id EventName.claimed "" now
  row ← owned o i.id
  pure (some row)

unfoldable pub claim_next_body : Owner → Destination → String → ℕ → ℕ → Action (Option OwnedRow)
unfolding expire is_claimable claim_row
claim_next_body o d token now lease_seconds = do
  expire o now
  row ← gets (λ db. find? (is_claimable o d now db) db.intents)
  claim_row o token now (now + lease_seconds) row

-- `claim_next`
unfoldable pub claim_next : Owner → Destination → String → ℕ → ℕ → Action (Option OwnedRow)
unfolding claim_next_body
claim_next o d token now lease_seconds = do
  raise_if (not (ltb 0 lease_seconds && leb lease_seconds 3600)) Error.invalid_lease
  transaction (claim_next_body o d token now lease_seconds)

abbrev pub has_token : String → Option String → Bool
has_token token none = false
has_token token (some t) = str_eq t token

-- Comparing a missing lease with a number is a TypeError.
unfoldable pub check_until : ℕ → Option ℕ → Action ⊤
check_until now none = raise Error.type_error
check_until now (some t) = raise_if (leb t now) Error.stale_lease

-- `_lease`, for the two statuses that it is called with
unfoldable pub lease : Owner → ℕ → String → (Status → Bool) → ℕ → Action OwnedRow
unfolding owned check_until
lease o id token wanted now = do
  row ← owned o id
  raise_if (not (has_token token row.intent.token) || not (wanted row.intent.status))
      Error.stale_lease
  check_until now row.intent.lease_until
  pure row

-- `_single_only`
unfoldable pub single_only : ℕ → Action ⊤
unfolding reserved
single_only id = do raise_if (← gets (reserved id)) Error.envelope_owns_intent

abbrev pub start_sending : Intent → Intent
start_sending i = record i { status = Status.sending; attempts = i.attempts + 1 }

unfoldable pub begin_send_body : Owner → ℕ → String → ℕ → Action ⊤
unfolding single_only lease record_event
begin_send_body o id token now = do
  single_only id
  lease o id token is_leased now
  update_intent id start_sending
  record_event o id EventName.send_started "" now

-- `begin_send`
unfoldable pub begin_send : Owner → ℕ → String → ℕ → Action ⊤
unfolding begin_send_body
begin_send o id token now = transaction (begin_send_body o id token now)
