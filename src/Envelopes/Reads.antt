-- ===== src/Envelopes/Reads.antt =====
-- The reads of `DigestTransport` in jobhound/delivery_transport.py.
use job_hound.Base.{
  ℕ, zero, suc, String, Bool, true, false, not, ◌&&◌, Option, none, some, List, [], ◌∷◌, leb, ◌==◌,
  str_eq, find?, any, all, filter, map, min, if◌then◌else◌,
}
use job_hound.Outbox.Rows.{
  Owner, same_owner, Destination, same_destination, Envelope, PartStatus, Part, Db, is_pending,
}
use job_hound.Outbox.Monad.{Action, pure, gets, or_raise, ◌>>=◌, ◌>>◌, raise_if, Error}
use job_hound.Outbox.Queries.{
  OwnedRow, find_revision, joins_owner, owned, reserved, subject_reserved, current_revision,
}
use job_hound.Outbox.Leases.{is_blocker}
use job_hound.Outbox.Settle.{is_revision}

abbrev pub find_envelope : Owner → String → List Envelope → Option Envelope
find_envelope o id = find? (λ e. str_eq e.id id && same_owner e.owner o)

-- `_owned`
unfoldable pub owned_envelope : Owner → String → Action Envelope
owned_envelope o id = do
  found ← gets (λ db. find_envelope o id db.envelopes)
  or_raise found Error.envelope_outside_owner

-- The intents of an envelope, in their order; the table is in the order of its key.
abbrev pub member_ids : String → Db → List ℕ
member_ids env db = map (λ m. m.intent) (filter (λ m. str_eq m.envelope env) db.envelope_items)

unfoldable pub owned_each : Owner → List ℕ → Action (List OwnedRow)
unfolding owned
owned_each o [] = pure []
owned_each o (id ∷ ids) = do row ← owned o id; rows ← owned_each o ids; pure (row ∷ rows)

-- `_items`
unfoldable pub members : Owner → String → Action (List OwnedRow)
unfolding owned_each
members o env = do ids ← gets (member_ids env); owned_each o ids

-- `_parts`; the parts of an envelope are inserted in the order of their ordinals.
abbrev pub parts_of : String → List Part → List Part
parts_of env = filter (λ p. str_eq p.envelope env)

abbrev pub is_sending : PartStatus → Bool
is_sending PartStatus.sending = true
is_sending _ = false

abbrev pub is_waiting : PartStatus → Bool
is_waiting PartStatus.pending = true
is_waiting _ = false

abbrev pub is_accepted : PartStatus → Bool
is_accepted PartStatus.accepted = true
is_accepted _ = false

abbrev pub is_uncertain : PartStatus → Bool
is_uncertain PartStatus.uncertain = true
is_uncertain _ = false

-- `p['status'] in {'accepted','sending','uncertain'}`
abbrev pub maybe_delivered : PartStatus → Bool
maybe_delivered PartStatus.accepted = true
maybe_delivered PartStatus.sending = true
maybe_delivered PartStatus.uncertain = true
maybe_delivered _ = false

-- The part that is next: the first that is not accepted.
abbrev pub next_part : String → List Part → Option Part
next_part env ps = find? (λ p. not (is_accepted p.status)) (parts_of env ps)

abbrev pub find_part : String → ℕ → List Part → Option Part
find_part env ordinal ps = find? (λ p. p.ordinal == ordinal) (parts_of env ps)

unfoldable pub is_current_row : Owner → Db → OwnedRow → Bool
unfolding current_revision
is_current_row o db row =
    is_revision row.intent.revision (current_revision o row.revision.subject db.subjects)

-- `_current`
unfoldable pub all_current : Owner → List OwnedRow → Db → Bool
unfolding is_current_row
all_current o rows db = all (is_current_row o db) rows

-- `_preparable`: the one rule by which an intent is taken into an envelope.
unfoldable pub is_preparable : Owner → Destination → ℕ → OwnedRow → Db → Bool
unfolding is_current_row subject_reserved reserved
is_preparable o d now row db =
    same_destination row.intent.destination d
    && is_pending row.intent.status
    && is_current_row o db row
    && leb row.intent.available now
    && not (any (is_blocker o row.revision.subject d db.revisions) db.intents)
    && not (subject_reserved o row "" db)
    && not (reserved row.intent.id db)

-- The loop of `deliverable_intents`, which stops at the limit.
unfoldable pub collect_ready : Owner → Destination → ℕ → List ℕ → ℕ → Action (List ℕ)
unfolding owned is_preparable
collect_ready o d now [] room = pure []
collect_ready o d now (id ∷ ids) zero = pure []
collect_ready o d now (id ∷ ids) (suc room) = do
  row ← owned o id
  ready ← gets (is_preparable o d now row)
  if ready
      then (do rest ← collect_ready o d now ids room; pure (id ∷ rest))
      else collect_ready o d now ids (suc room)

-- `deliverable_intents`
unfoldable pub deliverable_intents : Owner → Destination → ℕ → ℕ → Action (List ℕ)
unfolding collect_ready
deliverable_intents o d now limit = do
  raise_if (not (leb 1 limit && leb limit 100)) Error.invalid_selection
  ids ← gets (λ db.
      map (λ i. i.id)
        (filter
          (λ i.
            joins_owner o (find_revision i.revision db.revisions)
            && same_destination i.destination d
            && is_pending i.status)
          db.intents))
  collect_ready o d now ids limit

-- `min(item['max_attempts'] for item in ...)`, which no item leaves without a value
unfoldable pub attempt_limit : List OwnedRow → Option ℕ
attempt_limit [] = none
attempt_limit (r ∷ rs) = elim (attempt_limit rs) [
  | none ↦ some r.intent.max_attempts
  | some m ↦ some (min r.intent.max_attempts m)
]
