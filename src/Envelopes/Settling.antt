-- ===== src/Envelopes/Settling.antt =====
-- `_settle_part`, `finish_part`, `reconcile_part` and `abandon` of jobhound/delivery_transport.py.
use job_hound.Base.{
  ℕ, ◌+◌, String, Bool, true, false, not, ◌&&◌, ◌||◌, List, [], ◌∷◌, leb, ◌==◌, all, max, length,
  codes, if◌then◌else◌,
}
use Prim.Native.String.{◌++◌ as ◌+++◌}
use job_hound.Outbox.Rows.{Owner, Status, EnvelopeStatus, Envelope, PartStatus, Part, PartEventName}
use job_hound.Outbox.Monad.{
  Action, ⊤, pure, gets, or_raise, ◌>>=◌, ◌>>◌, raise_if, transaction, Error,
}
use job_hound.Outbox.Queries.{OwnedRow}
use job_hound.Outbox.Leases.{has_token}
use job_hound.Outbox.Settle.{Outcome, settle, backoff, is_reviewable}
use job_hound.Envelopes.Reads.{
  owned_envelope, members, parts_of, find_part, attempt_limit, is_accepted, is_sending,
  is_uncertain,
}
use job_hound.Envelopes.Writes.{
  record_part_event, update_part, set_state, set_intents, is_leased_envelope, expire_envelope,
}

-- `DeliveryReceipt`, as its constructor admits it
pub record Receipt : Type 0 where
  pub outcome : Outcome
  pub evidence : String
  pub retry_after : ℕ

-- The state of a part after an outcome, by its attempts and the limit.
abbrev pub part_status : Outcome → ℕ → ℕ → PartStatus
part_status Outcome.accepted attempts limit = PartStatus.accepted
part_status Outcome.not_sent attempts limit =
    if leb limit attempts then PartStatus.failed else PartStatus.pending
part_status Outcome.uncertain attempts limit = PartStatus.uncertain
part_status Outcome.permanent_failure attempts limit = PartStatus.failed

abbrev pub part_event : Outcome → PartEventName
part_event Outcome.accepted = PartEventName.accepted
part_event Outcome.not_sent = PartEventName.not_sent
part_event Outcome.uncertain = PartEventName.uncertain
part_event Outcome.permanent_failure = PartEventName.permanent_failure

abbrev pub retry_delay : PartStatus → ℕ → ℕ → ℕ
retry_delay PartStatus.pending attempts retry_after = max retry_after (backoff attempts)
retry_delay _ attempts retry_after = 0

abbrev pub settled_part : PartStatus → ℕ → Part → Part
settled_part s available p = record p { status = s; available = available }

-- `state if state in {'uncertain','failed'} else 'pending'`
abbrev pub envelope_status : PartStatus → EnvelopeStatus
envelope_status PartStatus.uncertain = EnvelopeStatus.uncertain
envelope_status PartStatus.failed = EnvelopeStatus.failed
envelope_status _ = EnvelopeStatus.pending

abbrev pub intent_status : PartStatus → Status
intent_status PartStatus.uncertain = Status.uncertain
intent_status PartStatus.failed = Status.failed
intent_status _ = Status.pending

unfoldable pub accept_each : Owner → String → ℕ → List OwnedRow → Action ⊤
unfolding settle
accept_each o env now [] = pure tt
accept_each o env now (row ∷ rows) = do
  settle o row Outcome.accepted ("envelope:" +++ env) now
  accept_each o env now rows

-- Every part of the digest was accepted: its cards are delivered.
unfoldable pub accept_envelope : Owner → String → ℕ → Action ⊤
unfolding set_state members accept_each
accept_envelope o env now = do
  set_state env EnvelopeStatus.accepted
  rows ← members o env
  accept_each o env now rows

unfoldable pub set_outcome : Owner → String → PartStatus → ℕ → Action ⊤
unfolding set_state set_intents accept_envelope
set_outcome o env s now = do
  done ← gets (λ db. all (λ p. is_accepted p.status) (parts_of env db.parts))
  if done
      then accept_envelope o env now
      else (do set_state env (envelope_status s); set_intents o env (intent_status s) now)

-- `_settle_part`
unfoldable pub settle_part : Owner → String → Part → Receipt → ℕ → Action ⊤
unfolding members attempt_limit update_part record_part_event set_outcome
settle_part o env p r now = do
  rows ← members o env
  limit ← or_raise (attempt_limit rows) Error.no_members
  let s = part_status r.outcome p.attempts limit
  update_part env p.ordinal (settled_part s (now + retry_delay s p.attempts r.retry_after))
  record_part_event p (part_event r.outcome) r.evidence now
  set_outcome o env s now

-- The part that a receipt is for, in the state that it must be in.
unfoldable pub expect_part :
    Owner → String → ℕ → (Envelope → Bool) → (PartStatus → Bool) → Error → Action Part
unfolding owned_envelope
expect_part o env ordinal wanted state e = do
  row ← owned_envelope o env
  found ← gets (λ db. find_part env ordinal db.parts)
  p ← or_raise found e
  raise_if (not (wanted row) || not (state p.status)) e
  pure p

abbrev pub holds_lease : String → Envelope → Bool
holds_lease token e = is_leased_envelope e.status && has_token token e.token

unfoldable pub settle_sent : Owner → String → String → ℕ → Receipt → ℕ → Action ⊤
unfolding expect_part settle_part
settle_sent o env token ordinal r now = do
  p ← expect_part o env ordinal (holds_lease token) is_sending Error.stale_receipt
  settle_part o env p r now

-- `finish_part`: the expiry is committed even where the receipt comes too late.
unfoldable pub finish_part : Owner → String → String → ℕ → Receipt → ℕ → Action ⊤
unfolding expire_envelope settle_sent
finish_part o env token ordinal r now = do
  transaction (expire_envelope o env now)
  transaction (settle_sent o env token ordinal r now)

abbrev pub is_doubted : EnvelopeStatus → Bool
is_doubted EnvelopeStatus.uncertain = true
is_doubted _ = false

unfoldable pub settle_doubted : Owner → String → ℕ → Receipt → ℕ → Action ⊤
unfolding expect_part settle_part
settle_doubted o env ordinal r now = do
  p ← expect_part o env ordinal (λ e. is_doubted e.status) is_uncertain Error.part_not_uncertain
  settle_part o env p r now

-- The evidence that the constructor of `DeliveryReceipt` admits; `str.isalnum` of a character is the
-- first argument.
unfoldable pub is_opaque : (ℕ → Bool) → String → Bool
is_opaque alnum evidence =
    let cs = codes evidence in
    not (length cs == 0)
    && leb (length cs) 256
    && all (λ c. alnum c || c == 58 || c == 95 || c == 45 || c == 46 || c == 124) cs

-- `reconcile_part`
unfoldable pub reconcile_part :
    (ℕ → Bool) → Owner → String → ℕ → Outcome → Bool → String → ℕ → Action ⊤
unfolding settle_doubted is_opaque
reconcile_part alnum o env ordinal outcome reviewed evidence now = do
  raise_if (not reviewed || not (is_reviewable outcome)) Error.review_required
  raise_if (not (is_opaque alnum evidence)) Error.invalid_receipt
  transaction (
      settle_doubted o env ordinal
        (record { outcome = outcome; evidence = evidence; retry_after = 0 }) now)

-- `row['status'] not in {'pending','uncertain','failed','cancelled'}`
abbrev pub is_stoppable : EnvelopeStatus → Bool
is_stoppable EnvelopeStatus.pending = true
is_stoppable EnvelopeStatus.uncertain = true
is_stoppable EnvelopeStatus.failed = true
is_stoppable EnvelopeStatus.cancelled = true
is_stoppable _ = false

unfoldable pub abandon_each : String → ℕ → List Part → Action ⊤
unfolding record_part_event
abandon_each evidence now [] = pure tt
abandon_each evidence now (p ∷ ps) = do
  record_part_event p PartEventName.abandoned evidence now
  abandon_each evidence now ps

unfoldable pub abandon_body : Owner → String → String → ℕ → Action ⊤
unfolding owned_envelope set_state set_intents abandon_each
abandon_body o env evidence now = do
  row ← owned_envelope o env
  raise_if (not (is_stoppable row.status)) Error.active_or_completed
  set_state env EnvelopeStatus.abandoned
  set_intents o env Status.failed now
  parts ← gets (λ db. parts_of env db.parts)
  abandon_each evidence now parts

-- `abandon`
unfoldable pub abandon : (ℕ → Bool) → Owner → String → Bool → String → ℕ → Action ⊤
unfolding abandon_body is_opaque
abandon alnum o env reviewed evidence now = do
  raise_if (not reviewed) Error.review_required
  raise_if (not (is_opaque alnum evidence)) Error.invalid_receipt
  transaction (abandon_body o env evidence now)
