-- ===== src/Envelopes/Writes.antt =====
-- The writes of `DigestTransport` in jobhound/delivery_transport.py.
use job_hound.Base.{
  ℕ, String, Bool, true, false, ◌&&◌, none, List, [], ◌∷◌, ◌++◌, ◌==◌, str_eq, filter,
  if◌then◌else◌, update_where,
}
use job_hound.Outbox.Rows.{
  Owner, Status, EventName, EnvelopeStatus, Envelope, PartStatus, Part, PartEventName,
}
use job_hound.Outbox.Monad.{Action, ⊤, pure, gets, ◌>>=◌, ◌>>◌, modify}
use job_hound.Outbox.Queries.{OwnedRow}
use job_hound.Outbox.Revise.{record_event, update_intent, set_status}
use job_hound.Outbox.Leases.{lapsed}
use job_hound.Envelopes.Reads.{owned_envelope, members, parts_of, is_sending}

-- `_event`, with the part's attempt as it was read
unfoldable pub record_part_event : Part → PartEventName → String → ℕ → Action ⊤
record_part_event p name evidence now = modify λ db. record db {
  part_events =
      db.part_events
      ++ record {
        envelope = p.envelope;
        ordinal = p.ordinal;
        attempt = p.attempts;
        event = name;
        evidence = evidence;
        created = now;
      }
        ∷ [];
}

-- `WHERE envelope=? AND ordinal=?`
abbrev pub is_part : String → ℕ → Part → Bool
is_part env ordinal p = str_eq p.envelope env && p.ordinal == ordinal

unfoldable pub update_part : String → ℕ → (Part → Part) → Action ⊤
update_part env ordinal f =
    modify λ db. record db { parts = update_where (is_part env ordinal) f db.parts }

abbrev pub set_part_status : PartStatus → Part → Part
set_part_status s p = record p { status = s }

unfoldable pub update_envelope : String → (Envelope → Envelope) → Action ⊤
update_envelope env f =
    modify λ db. record db { envelopes = update_where (λ e. str_eq e.id env) f db.envelopes }

-- `_state`
unfoldable pub set_state : String → EnvelopeStatus → Action ⊤
unfolding update_envelope
set_state env s =
    update_envelope env (λ e. record e { status = s; token = none; lease_until = none })

-- `item['status'] in {'superseded', 'accepted'}`
abbrev pub is_settled : Status → Bool
is_settled Status.superseded = true
is_settled Status.accepted = true
is_settled _ = false

unfoldable pub set_each : Owner → String → Status → ℕ → List OwnedRow → Action ⊤
unfolding record_event
set_each o env s now [] = pure tt
set_each o env s now (row ∷ rows) = do
  if is_settled row.intent.status then pure tt else (do
    record_event o row.intent.id (EventName.envelope_set s) env now
    update_intent row.intent.id (set_status s))
  set_each o env s now rows

-- `_set_intents`
unfoldable pub set_intents : Owner → String → Status → ℕ → Action ⊤
unfolding members set_each
set_intents o env s now = do rows ← members o env; set_each o env s now rows

abbrev pub is_leased_envelope : EnvelopeStatus → Bool
is_leased_envelope EnvelopeStatus.leased = true
is_leased_envelope _ = false

-- The parts that were being sent when the lease ran out.
unfoldable pub doubt_parts : ℕ → List Part → Action ⊤
unfolding update_part record_part_event
doubt_parts now [] = pure tt
doubt_parts now (p ∷ ps) = do
  update_part p.envelope p.ordinal (set_part_status PartStatus.uncertain)
  record_part_event p PartEventName.uncertain "lease_expired" now
  doubt_parts now ps

abbrev pub is_none : List Part → Bool
is_none [] = true
is_none (p ∷ ps) = false

unfoldable pub expire_leased : Owner → String → ℕ → Action ⊤
unfolding doubt_parts set_state set_intents
expire_leased o env now = do
  sending ← gets (λ db. filter (λ p. is_sending p.status) (parts_of env db.parts))
  doubt_parts now sending
  set_state env (if is_none sending then EnvelopeStatus.pending else EnvelopeStatus.uncertain)
  set_intents o env (if is_none sending then Status.pending else Status.uncertain) now

-- `_expire`
unfoldable pub expire_envelope : Owner → String → ℕ → Action ⊤
unfolding owned_envelope expire_leased
expire_envelope o env now = do
  row ← owned_envelope o env
  if is_leased_envelope row.status && lapsed now row.lease_until
      then expire_leased o env now
      else pure tt
