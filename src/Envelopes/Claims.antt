-- ===== src/Envelopes/Claims.antt =====
-- `_stale`, `expire_leases`, `ready_envelopes`, `claim` and `begin_part` of
-- jobhound/delivery_transport.py. A token is the caller's argument, which stands for `uuid4().hex`.
use job_hound.Base.{
  ℕ, zero, suc, ◌+◌, String, Bool, true, false, not, ◌&&◌, ◌||◌, Option, none, some, List, [], ◌∷◌,
  ltb, leb, any, filter, if◌then◌else◌,
}
use job_hound.Outbox.Rows.{
  Owner, same_owner, Destination, same_destination, Status, EventName, EnvelopeStatus, Envelope,
  PartStatus, Part, PartEventName,
}
use job_hound.Outbox.Monad.{
  Action, ⊤, pure, gets, or_raise, ◌>>=◌, ◌>>◌, raise_if, transaction, Error,
}
use job_hound.Outbox.Queries.{OwnedRow, subject_reserved}
use job_hound.Outbox.Revise.{record_event, update_intent, set_status}
use job_hound.Outbox.Leases.{lapsed, set_lease, has_token, start_sending}
use job_hound.Envelopes.Reads.{
  owned_envelope, members, parts_of, maybe_delivered, next_part, is_current_row, all_current,
  attempt_limit, is_waiting,
}
use job_hound.Envelopes.Writes.{
  record_part_event, update_part, update_envelope, set_state, set_intents, is_leased_envelope,
  expire_envelope,
}

-- An obsolete draft of which no part can have left: its current cards are free again.
unfoldable pub release_each : Owner → String → ℕ → List OwnedRow → Action ⊤
unfolding record_event is_current_row
release_each o env now [] = pure tt
release_each o env now (row ∷ rows) = do
  current ← gets (λ db. is_current_row o db row)
  update_intent row.intent.id (set_status (if current then Status.pending else Status.superseded))
  record_event o row.intent.id EventName.envelope_cancelled env now
  release_each o env now rows

unfoldable pub retire : Owner → String → ℕ → Action Bool
unfolding set_state set_intents members release_each
retire o env now = do
  partial ← gets (λ db. any (λ p. maybe_delivered p.status) (parts_of env db.parts))
  set_state env (if partial then EnvelopeStatus.uncertain else EnvelopeStatus.cancelled)
  if partial
      then set_intents o env Status.uncertain now
      else (do rows ← members o env; release_each o env now rows)
  pure true

-- `_stale`
unfoldable pub is_stale : Owner → String → ℕ → Action Bool
unfolding members retire all_current
is_stale o env now = do
  rows ← members o env
  current ← gets (all_current o rows)
  if current then pure false else retire o env now

abbrev pub has_lapsed : Owner → Destination → ℕ → Envelope → Bool
has_lapsed o d now e =
    same_owner e.owner o
    && same_destination e.destination d
    && is_leased_envelope e.status
    && lapsed now e.lease_until

unfoldable pub expire_each : Owner → ℕ → List Envelope → Action ⊤
unfolding expire_envelope
expire_each o now [] = pure tt
expire_each o now (e ∷ es) = do expire_envelope o e.id now; expire_each o now es

unfoldable pub expire_all : Owner → Destination → ℕ → Action ⊤
unfolding expire_each
expire_all o d now = do
  rows ← gets (λ db. filter (has_lapsed o d now) db.envelopes)
  expire_each o now rows

-- `expire_leases`
unfoldable pub expire_leases : Owner → Destination → ℕ → Action ⊤
unfolding expire_all
expire_leases o d now = transaction (expire_all o d now)

abbrev pub is_pending_envelope : EnvelopeStatus → Bool
is_pending_envelope EnvelopeStatus.pending = true
is_pending_envelope _ = false

unfoldable pub lease_each : String → ℕ → List OwnedRow → Action ⊤
lease_each token until [] = pure tt
lease_each token until (row ∷ rows) = do
  update_intent row.intent.id (set_lease token until)
  lease_each token until rows

abbrev pub set_envelope_lease : String → ℕ → Envelope → Envelope
set_envelope_lease token until e = record e {
  status = EnvelopeStatus.leased;
  token = some token;
  lease_until = some until;
}

-- `part is None or part['available'] > now`
abbrev pub is_due : ℕ → Option Part → Bool
is_due now none = false
is_due now (some p) = leb p.available now

unfoldable pub lease_envelope : Owner → String → String → ℕ → Action (Option String)
unfolding members update_envelope lease_each
lease_envelope o env token until = do
  update_envelope env (set_envelope_lease token until)
  rows ← members o env
  lease_each token until rows
  pure (some token)

-- The checks of `claim` behind the envelope's freshness.
unfoldable pub claim_fresh : Owner → String → String → ℕ → ℕ → Action (Option String)
unfolding members lease_envelope subject_reserved
claim_fresh o env token now until = do
  rows ← members o env
  taken ← gets (λ db. any (λ row. subject_reserved o row env db) rows)
  due ← gets (λ db. is_due now (next_part env db.parts))
  if taken || not due then pure none else lease_envelope o env token until

unfoldable pub claim_pending : Owner → String → String → ℕ → ℕ → Action (Option String)
unfolding is_stale claim_fresh
claim_pending o env token now until = do
  stale ← is_stale o env now
  if stale then pure none else claim_fresh o env token now until

unfoldable pub claim_body : Owner → String → Destination → String → ℕ → ℕ → Action (Option String)
unfolding expire_envelope owned_envelope claim_pending
claim_body o env d token now until = do
  expire_envelope o env now
  row ← owned_envelope o env
  raise_if (not (same_destination row.destination d)) Error.destination_mismatch
  if is_pending_envelope row.status then claim_pending o env token now until else pure none

-- `claim`
unfoldable pub claim : Owner → String → Destination → String → ℕ → ℕ → Action (Option String)
unfolding claim_body
claim o env d token now lease_seconds = do
  raise_if (not (leb 1 lease_seconds && leb lease_seconds 3600)) Error.invalid_lease
  transaction (claim_body o env d token now (now + lease_seconds))

unfoldable pub send_each : List OwnedRow → Action ⊤
send_each [] = pure tt
send_each (row ∷ rows) = do update_intent row.intent.id start_sending; send_each rows

abbrev pub start_part : Part → Part
start_part p = record p { status = PartStatus.sending; attempts = p.attempts + 1 }

unfoldable pub nth : {A : Type 0} → ℕ → List A → Option A
nth n [] = none
nth zero (x ∷ xs) = some x
nth (suc n) (x ∷ xs) = nth n xs

unfoldable pub start_sending_part : Owner → String → Part → ℕ → Action (Option Part)
unfolding members update_part send_each record_part_event nth
start_sending_part o env p now = do
  update_part env p.ordinal start_part
  rows ← members o env
  send_each rows
  found ← gets (λ db. nth p.ordinal (parts_of env db.parts))
  q ← or_raise found Error.index_error
  record_part_event q PartEventName.send_started "transport" now
  pure (some q)

unfoldable pub fail_envelope : Owner → String → ℕ → Action (Option Part)
unfolding set_state set_intents
fail_envelope o env now = do
  set_state env EnvelopeStatus.failed
  set_intents o env Status.failed now
  pure none

unfoldable pub begin_next : Owner → String → ℕ → Option Part → Action (Option Part)
unfolding members start_sending_part fail_envelope attempt_limit
begin_next o env now none = pure none
begin_next o env now (some p) =
    if not (is_waiting p.status) || ltb now p.available then pure none else (do
      rows ← members o env
      limit ← or_raise (attempt_limit rows) Error.no_members
      if leb limit p.attempts then fail_envelope o env now else start_sending_part o env p now)

unfoldable pub begin_leased : Owner → String → ℕ → Action (Option Part)
unfolding is_stale begin_next
begin_leased o env now = do
  stale ← is_stale o env now
  part ← gets (λ db. next_part env db.parts)
  if stale then pure none else begin_next o env now part

unfoldable pub begin_part_body : Owner → String → String → ℕ → Action (Option Part)
unfolding expire_envelope owned_envelope begin_leased
begin_part_body o env token now = do
  expire_envelope o env now
  row ← owned_envelope o env
  if is_leased_envelope row.status && has_token token row.token
      then begin_leased o env now
      else pure none

-- `begin_part`
unfoldable pub begin_part : Owner → String → String → ℕ → Action (Option Part)
unfolding begin_part_body
begin_part o env token now = transaction (begin_part_body o env token now)
