-- ===== src/Outbox/Settle.antt =====
-- `_accept`, the rollback receipts, `_settle`, `finish` and `reconcile` of
-- jobhound/delivery_outbox.py.
use job_hound.Base.{
  ℕ, ◌+◌, ◌*◌, ◌^◌, String, Bool, true, false, not, ◌&&◌, ◌||◌, Option, none, some, List, [], ◌∷◌,
  ◌++◌, ltb, leb, min, str_eq, any, filter, map, if◌then◌else◌,
}
use text.Mathlib.Text.{starts_with}
use job_hound.Outbox.Rows.{
  Owner, same_owner, Revision, Destination, same_destination, Intent, Status, Baseline, EventName,
  Notification, Db,
}
use job_hound.Outbox.Monad.{
  Action, ⊤, ok, pure, raise, gets, ◌>>=◌, ◌>>◌, raise_if, modify, transaction, Error,
}
use job_hound.Outbox.Queries.{OwnedRow, find_revision, owned, current_revision}
use job_hound.Outbox.Identity.{identifier}
use job_hound.Outbox.Revise.{record_event, update_intent}
use job_hound.Outbox.Leases.{expire, lease, single_only}

-- What a sender reports.
pub data Outcome : Type 0 where
  accepted not_sent uncertain permanent_failure : Outcome

abbrev pub is_baseline : Owner → String → Destination → Baseline → Bool
is_baseline o name d b =
    same_owner b.owner o && str_eq b.subject name && same_destination b.destination d

-- `(SELECT sequence ... new) > (SELECT sequence ... old)`, which NULL does not meet.
abbrev pub is_later : Option Revision → Option Revision → Bool
is_later (some new) (some old) = ltb old.sequence new.sequence
is_later _ _ = false

-- ON CONFLICT DO UPDATE SET revision WHERE the new sequence is larger
unfoldable pub upsert_baseline : List Revision → Baseline → List Baseline → List Baseline
upsert_baseline revs n [] = n ∷ []
upsert_baseline revs n (b ∷ bs) =
    if is_baseline n.owner n.subject n.destination b
    then (if is_later (find_revision n.revision revs) (find_revision b.revision revs) then n else b)
      ∷ bs
    else b ∷ upsert_baseline revs n bs

-- V6_RECEIPT_TRANSITION rows are told by the flag.
abbrev pub is_receipt : String → String → String → Notification → Bool
is_receipt run_id id channel n =
    str_eq n.run_id run_id && str_eq n.canonical_id id && str_eq n.channel channel && n.is_v6

abbrev pub receipt : String → String → String → Notification
receipt run_id channel id = record {
  run_id = run_id;
  canonical_id = id;
  is_v6 = true;
  channel = channel;
  success = true;
}

-- The loop over the ids: the rows, and how many were written.
unfoldable pub add_receipts :
    String → String → List String → List Notification → List Notification × ℕ
add_receipts run_id channel [] ns = (ns, 0)
add_receipts run_id channel (id ∷ ids) ns =
    let known = any (is_receipt run_id id channel) ns in
    let (ns', written) =
      add_receipts run_id channel ids
        (if known then ns else ns ++ receipt run_id channel id ∷ []) in
    (ns', if known then written else written + 1)

-- The stream and every alias of it.
abbrev pub receipt_ids : Owner → String → Db → List String
receipt_ids o name db =
    name
    ∷ map (λ a. a.alias) (filter (λ a. same_owner a.owner o && str_eq a.subject name) db.aliases)

-- `_write_rollback_receipt` on a table that is there
abbrev pub write_receipts : Owner → String → String → String → List Notification → Action ℕ
write_receipts o run_id name channel ns db =
    let (ns', written) = add_receipts run_id channel (receipt_ids o name db) ns in
    (ok written, record db { notifications = some ns' })

unfoldable pub is_coverage : String → Bool
is_coverage name = starts_with "coverage:" name

unfoldable pub run_id_of : Option Revision → Action String
run_id_of none = raise Error.type_error
run_id_of (some r) = pure r.run_id

unfoldable pub record_receipts : Owner → OwnedRow → Option (List Notification) → Action ⊤
unfolding run_id_of add_receipts
record_receipts o row none = pure tt
record_receipts o row (some ns) = do
  found ← gets (λ db. find_revision row.intent.revision db.revisions)
  run_id ← run_id_of found
  write_receipts o run_id row.revision.subject row.intent.destination.channel ns
  pure tt

-- `_record_rollback_receipt`
unfoldable pub record_rollback_receipt : Owner → OwnedRow → Action ⊤
unfolding record_receipts is_coverage
record_rollback_receipt o row = do
  ns ← gets (λ db. db.notifications)
  if is_coverage row.revision.subject then pure tt else record_receipts o row ns

-- `_accept`
unfoldable pub accept : Owner → OwnedRow → Action ⊤
unfolding upsert_baseline record_rollback_receipt
accept o row = do
  modify λ db. record db {
    baselines =
        upsert_baseline db.revisions
          (record {
            owner = o;
            subject = row.revision.subject;
            destination = row.intent.destination;
            revision = row.intent.revision;
          })
          db.baselines;
  }
  record_rollback_receipt o row

abbrev pub settled_event : Outcome → EventName
settled_event Outcome.accepted = EventName.settled_accepted
settled_event Outcome.not_sent = EventName.settled_not_sent
settled_event Outcome.uncertain = EventName.settled_uncertain
settled_event Outcome.permanent_failure = EventName.settled_permanent_failure

abbrev pub is_revision : String → Option String → Bool
is_revision id none = false
is_revision id (some r) = str_eq r id

-- The state of an intent that was surely not sent.
abbrev pub not_sent_status : Bool → Intent → Status
not_sent_status current i =
    if not current
    then Status.superseded
    else if leb i.max_attempts i.attempts
    then Status.failed
    else Status.pending

abbrev pub settled_status : Outcome → Bool → Intent → Status
settled_status Outcome.accepted current i = Status.accepted
settled_status Outcome.uncertain current i = Status.uncertain
settled_status Outcome.permanent_failure current i = Status.failed
settled_status Outcome.not_sent current i = not_sent_status current i

-- `min(3600,30*2**min(attempts,7))`
unfoldable pub backoff : ℕ → ℕ
backoff attempts = min 3600 (30 * 2 ^ min attempts 7)

abbrev pub settle_intent : Status → ℕ → Intent → Intent
settle_intent state available i = record i {
  status = state;
  available = available;
  token = none;
  lease_until = none;
}

unfoldable pub accept_if : Owner → OwnedRow → Outcome → Action ⊤
unfolding accept
accept_if o row Outcome.accepted = accept o row
accept_if o row _ = pure tt

abbrev pub retry_at : Status → ℕ → ℕ → ℕ
retry_at Status.pending attempts now = now + backoff attempts
retry_at _ attempts now = now

-- `_settle`
unfoldable pub settle : Owner → OwnedRow → Outcome → String → ℕ → Action ⊤
unfolding accept_if record_event current_revision
settle o row outcome evidence now = do
  accept_if o row outcome
  current ←
      gets (λ db.
        is_revision row.intent.revision (current_revision o row.revision.subject db.subjects))
  let state = settled_status outcome current row.intent
  record_event o row.intent.id (settled_event outcome) evidence now
  update_intent row.intent.id (settle_intent state (retry_at state row.intent.attempts now))

abbrev pub is_sending : Status → Bool
is_sending Status.sending = true
is_sending _ = false

unfoldable pub settle_lease : Owner → ℕ → String → Outcome → String → ℕ → Action ⊤
unfolding lease settle
settle_lease o id token outcome evidence now = do
  row ← lease o id token is_sending now
  settle o row outcome evidence now

-- `finish`: the expiry is committed even where the late acknowledgement is refused.
unfoldable pub finish : Owner → ℕ → String → Outcome → String → ℕ → Action ⊤
unfolding settle_lease single_only expire
finish o id token outcome evidence now = do
  single_only id
  identifier evidence
  transaction (expire o now)
  transaction (settle_lease o id token outcome evidence now)

abbrev pub is_reviewable : Outcome → Bool
is_reviewable Outcome.accepted = true
is_reviewable Outcome.not_sent = true
is_reviewable _ = false

unfoldable pub check_reconcilable : Status → Action ⊤
check_reconcilable Status.uncertain = pure tt
check_reconcilable Status.legacy_hold = raise Error.legacy_mapping_required
check_reconcilable _ = raise Error.nothing_to_reconcile

unfoldable pub settle_reviewed : Owner → ℕ → Outcome → String → ℕ → Action ⊤
unfolding owned settle check_reconcilable
settle_reviewed o id outcome evidence now = do
  row ← owned o id
  check_reconcilable row.intent.status
  settle o row outcome evidence now

-- `reconcile`
unfoldable pub reconcile : Owner → ℕ → Outcome → String → Bool → ℕ → Action ⊤
unfolding settle_reviewed single_only
reconcile o id outcome evidence reviewed now = do
  single_only id
  raise_if (not reviewed || not (is_reviewable outcome)) Error.review_required
  identifier evidence
  transaction (settle_reviewed o id outcome evidence now)
