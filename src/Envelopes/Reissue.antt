-- ===== src/Envelopes/Reissue.antt =====
-- `prove_unsent_draft` and `reissue_unsent` of jobhound/delivery_transport.py.
use job_hound.Base.{
  ℕ, ◌+◌, String, Bool, true, false, not, ◌&&◌, ◌||◌, Option, none, some, List, [], ◌∷◌, ◌++◌, ltb,
  leb, ◌==◌, str_eq, any, all, all_distinct, length, if◌then◌else◌,
}
use job_hound.Outbox.Rows.{
  Owner, same_destination, Status, Intent, EventName, EnvelopeStatus, Part, PartEventName,
  PartEvent, Db,
}
use job_hound.Outbox.Monad.{
  Action, ⊤, pure, gets, ◌>>=◌, ◌>>◌, raise_if, modify, transaction, Error,
}
use job_hound.Outbox.Queries.{OwnedRow, next_intent_id}
use job_hound.Outbox.Identity.{identifier}
use job_hound.Outbox.Revise.{record_event, update_intent, set_status}
use job_hound.Outbox.Leases.{is_blocker}
use job_hound.Outbox.Settle.{is_baseline}
use job_hound.Envelopes.Reads.{
  owned_envelope, owned_each, members, parts_of, is_waiting, is_current_row,
}
use job_hound.Envelopes.Settling.{abandon}
use job_hound.Envelopes.Drafts.{is_selection}

-- The statuses of a draft that may be recovered.
abbrev pub is_draft : EnvelopeStatus → Bool
is_draft EnvelopeStatus.pending = true
is_draft EnvelopeStatus.abandoned = true
is_draft EnvelopeStatus.cancelled = true
is_draft _ = false

abbrev pub is_abandonment : PartEventName → Bool
is_abandonment PartEventName.abandoned = true
is_abandonment _ = false

-- `event IN ('send_started','accepted','uncertain','not_sent','permanent_failure')`
abbrev pub is_provider_event : EventName → Bool
is_provider_event EventName.send_started = true
is_provider_event EventName.settled_accepted = true
is_provider_event EventName.settled_uncertain = true
is_provider_event EventName.settled_not_sent = true
is_provider_event EventName.settled_permanent_failure = true
is_provider_event _ = false

unfoldable pub has_receipt : ℕ → Db → Bool
has_receipt id db =
    any (λ e. e.intent == id && (ltb 0 e.attempt || is_provider_event e.event)) db.events

unfoldable pub has_baseline : Owner → OwnedRow → Db → Bool
has_baseline o row db =
    any
      (λ b.
        is_baseline o row.revision.subject row.intent.destination b
        && str_eq b.revision row.intent.revision)
      db.baselines

-- `item['status'] in {'leased','sending','accepted','uncertain','legacy_hold'}`
abbrev pub is_engaged : Status → Bool
is_engaged Status.leased = true
is_engaged Status.sending = true
is_engaged Status.accepted = true
is_engaged Status.uncertain = true
is_engaged Status.legacy_hold = true
is_engaged _ = false

unfoldable pub is_unsent_member : Owner → Db → OwnedRow → Bool
unfolding has_receipt has_baseline
is_unsent_member o db row =
    row.intent.attempts == 0
    && not (is_engaged row.intent.status)
    && not (has_receipt row.intent.id db)
    && not (has_baseline o row db)

abbrev pub is_unsent_part : Part → Bool
is_unsent_part p = p.attempts == 0 && is_waiting p.status

abbrev pub is_provider_evidence : String → PartEvent → Bool
is_provider_evidence env e =
    str_eq e.envelope env && (not (e.attempt == 0) || not (is_abandonment e.event))

-- `prove_unsent_draft`
unfoldable pub prove_unsent_draft : Owner → String → Action (List OwnedRow)
unfolding owned_envelope members is_unsent_member
prove_unsent_draft o env = do
  row ← owned_envelope o env
  rows ← members o env
  parts ← gets (λ db. parts_of env db.parts)
  raise_if (not (is_draft row.status) || length parts == 0 || length rows == 0)
      Error.not_provably_unsent
  raise_if (not (all is_unsent_part parts)) Error.not_provably_unsent
  raise_if (← gets (λ db. any (is_provider_evidence env) db.part_events)) Error.not_provably_unsent
  raise_if (not (← gets (λ db. all (is_unsent_member o db) rows))) Error.not_provably_unsent
  pure rows

unfoldable pub prove_each : Owner → List String → Action (List OwnedRow)
unfolding prove_unsent_draft
prove_each o [] = pure []
prove_each o (env ∷ envs) = do
  rows ← prove_unsent_draft o env
  rest ← prove_each o envs
  pure (rows ++ rest)

-- The newest generation of a card: the last intent with the largest one.
unfoldable pub latest : Intent → List Intent → Option Intent
latest i [] = none
latest i (j ∷ js) =
    let rest = latest i js in
    if str_eq j.revision i.revision && same_destination j.destination i.destination
    then elim rest [
      | none ↦ some j
      | some k ↦ if ltb j.generation k.generation then some k else some j
    ]
    else rest

abbrev pub is_latest : Intent → Option Intent → Bool
is_latest i none = false
is_latest i (some j) = j.id == i.id

-- `row['status'] not in {'pending','failed'}`
abbrev pub is_reissuable : Status → Bool
is_reissuable Status.pending = true
is_reissuable Status.failed = true
is_reissuable _ = false

unfoldable pub is_recoverable : Owner → Db → OwnedRow → Bool
unfolding is_current_row latest has_receipt has_baseline
is_recoverable o db row =
    is_current_row o db row
    && is_latest row.intent (latest row.intent db.intents)
    && row.intent.attempts == 0
    && is_reissuable row.intent.status
    && not (has_receipt row.intent.id db)
    && not (has_baseline o row db)
    && not (any (is_blocker o row.revision.subject row.intent.destination db.revisions) db.intents)

abbrev pub is_abandoned : EnvelopeStatus → Bool
is_abandoned EnvelopeStatus.abandoned = true
is_abandoned _ = false

unfoldable pub abandon_drafts : (ℕ → Bool) → Owner → List String → String → ℕ → Action ⊤
unfolding owned_envelope abandon
abandon_drafts alnum o [] evidence now = pure tt
abandon_drafts alnum o (env ∷ envs) evidence now = do
  row ← owned_envelope o env
  if is_abandoned row.status then pure tt else abandon alnum o env true evidence now
  abandon_drafts alnum o envs evidence now

-- The next generation of a card.
abbrev pub replacement : Intent → ℕ → ℕ → Intent
replacement i id now = record {
  id = id;
  revision = i.revision;
  destination = i.destination;
  status = Status.pending;
  payload = i.payload;
  attempts = 0;
  max_attempts = i.max_attempts;
  available = now;
  token = none;
  lease_until = none;
  generation = i.generation + 1;
}

unfoldable pub reissue_each : Owner → List OwnedRow → String → ℕ → Action (List ℕ)
unfolding record_event next_intent_id
reissue_each o [] evidence now = pure []
reissue_each o (row ∷ rows) evidence now = do
  record_event o row.intent.id EventName.reviewed_unsent_reissue evidence now
  update_intent row.intent.id (set_status Status.superseded)
  id ← gets (λ db. next_intent_id db.intents)
  modify λ db. record db { intents = db.intents ++ replacement row.intent id now ∷ [] }
  record_event o id EventName.reviewed_unsent_replacement evidence now
  rest ← reissue_each o rows evidence now
  pure (id ∷ rest)

unfoldable pub reissue_body :
    (ℕ → Bool) → Owner → List String → List ℕ → String → ℕ → Action (List ℕ)
unfolding prove_each owned_each is_recoverable abandon_drafts reissue_each
reissue_body alnum o envs ids evidence now = do
  drafted ← prove_each o envs
  raise_if (not (all (λ id. any (λ row. row.intent.id == id) drafted) ids)) Error.outside_drafts
  rows ← owned_each o ids
  raise_if (not (← gets (λ db. all (is_recoverable o db) rows))) Error.not_reissuable
  abandon_drafts alnum o envs evidence now
  reissue_each o rows evidence now

-- `reissue_unsent`, of a database at the version that numbers generations
unfoldable pub reissue_unsent :
    (ℕ → Bool) → Owner → List String → List ℕ → Bool → String → ℕ → Action (List ℕ)
unfolding is_selection reissue_body
reissue_unsent alnum o envs ids reviewed evidence now = do
  raise_if (not reviewed) Error.review_required
  identifier evidence
  raise_if
      (not (leb 1 (length envs) && leb (length envs) 10 && all_distinct envs && is_selection ids))
      Error.invalid_selection
  transaction (reissue_body alnum o envs ids evidence now)
