-- ===== src/Outbox/Revise.antt =====
-- `revise` of jobhound/delivery_outbox.py. JSON arrives in its canonical text; the
-- new revision's id is the caller's argument, which stands for `uuid4().hex`.
use job_hound.Base.{
  ℕ, ◌+◌, String, Bool, true, false, not, ◌&&◌, ◌||◌, Option, none, some, List, [], ◌∷◌, ◌++◌, ◌==◌,
  ltb, str_eq, any, filter, if◌then◌else◌,
}
use job_hound.Outbox.Rows.{
  Owner, same_owner, Subject, Revision, Cause, Intent, Status, EventName, Db,
}
use job_hound.Outbox.Monad.{Action, ⊤, pure, gets, ◌>>=◌, ◌>>◌, raise_if, modify, Error}
use job_hound.Outbox.Queries.{
  find_revision, find_subject, is_subject, joins_subject, owned, set_intent,
}
use job_hound.Outbox.Identity.{subject}

-- `_event`: append-only evidence, with the intent's attempt and token as they stand.
unfoldable pub record_event : Owner → ℕ → EventName → String → ℕ → Action ⊤
unfolding owned
record_event o id name evidence now = do
  row ← owned o id
  modify λ db. record db {
    events =
        db.events
        ++ record {
          intent = id;
          attempt = row.intent.attempts;
          event = name;
          token = row.intent.token;
          evidence = evidence;
          created = now;
        }
          ∷ [];
  }

abbrev pub set_status : Status → Intent → Intent
set_status s i = record i { status = s; token = none; lease_until = none }

abbrev pub update_intent : ℕ → (Intent → Intent) → Action ⊤
update_intent id f = modify λ db. record db { intents = set_intent id f db.intents }

-- `i.status IN ('pending','leased','failed','legacy_hold')`
abbrev pub is_unsent : Status → Bool
is_unsent Status.pending = true
is_unsent Status.leased = true
is_unsent Status.failed = true
is_unsent Status.legacy_hold = true
is_unsent _ = false

-- The unsent cards of a subject.
abbrev pub is_unsent_card : Owner → String → List Revision → Intent → Bool
is_unsent_card o name revs i =
    joins_subject o name (find_revision i.revision revs) && is_unsent i.status

-- The loop that supersedes them, over the ids that were selected.
unfoldable pub supersede : Owner → ℕ → List Intent → Action ⊤
unfolding record_event
supersede o now [] = pure tt
supersede o now (i ∷ is) = do
  record_event o i.id EventName.revision_superseded "" now
  update_intent i.id (set_status Status.superseded)
  supersede o now is

-- The row of the subject joined to its revision.
pub record Previous : Type 0 where
  pub subject : Subject
  pub revision : Revision

unfoldable pub previous_of : Option Subject → List Revision → Option Previous
previous_of none revs = none
previous_of (some s) revs = elim (find_revision s.revision revs) [
  | none ↦ none
  | some r ↦ some (record { subject = s; revision = r })
]

unfoldable pub find_previous : Owner → String → Db → Option Previous
unfolding previous_of
find_previous o name db = previous_of (find_subject o name db.subjects) db.revisions

-- ON CONFLICT(workspace,profile,subject) DO UPDATE
unfoldable pub upsert_subject : Subject → List Subject → List Subject
upsert_subject s [] = s ∷ []
upsert_subject s (t ∷ ts) = if is_subject s.owner s.name t then s ∷ ts else t ∷ upsert_subject s ts

-- INSERT INTO delivery_revisions: the id is the primary key, and the sequence is unique.
unfoldable pub insert_revision : Revision → Action ⊤
insert_revision r = do
  raise_if
      (← gets (λ db.
        any
          (λ q.
            str_eq q.id r.id
            || (same_owner q.owner r.owner
                && str_eq q.subject r.subject
                && q.sequence == r.sequence))
          db.revisions))
      Error.integrity_error
  modify λ db. record db { revisions = db.revisions ++ r ∷ [] }

-- What the caller of `revise` passes for one snapshot of a subject.
pub record Snapshot : Type 0 where
  pub fresh : String
  pub material : String
  pub policy : String
  pub run_id : String
  pub as_of : ℕ
  pub now : ℕ

abbrev pub revision_of_snapshot : Owner → String → ℕ → Cause → Snapshot → Revision
revision_of_snapshot o name sequence cause s = record {
  id = s.fresh;
  owner = o;
  subject = name;
  sequence = sequence;
  run_id = s.run_id;
  material = s.material;
  cause = cause;
  created = s.now;
}

abbrev pub subject_row : Owner → String → String → Snapshot → Subject
subject_row o name revision s = record {
  owner = o;
  name = name;
  revision = revision;
  policy = s.policy;
  last_as_of = s.as_of;
}

-- The writes of a new revision, up to the superseding of the older cards.
unfoldable pub write_revision : Owner → String → ℕ → Cause → Snapshot → Action ⊤
unfolding insert_revision upsert_subject
write_revision o name sequence cause s = do
  insert_revision (revision_of_snapshot o name sequence cause s)
  modify λ db. record db { subjects = upsert_subject (subject_row o name s.fresh s) db.subjects }

unfoldable pub supersede_subject : Owner → String → ℕ → Action ⊤
unfolding supersede
supersede_subject o name now = do
  rows ← gets (λ db. filter (is_unsent_card o name db.revisions) db.intents)
  supersede o now rows

abbrev pub change_cause : String → String → Cause
change_cause old_policy policy =
    if str_eq old_policy policy then Cause.material_change else Cause.policy_review

-- `revise` behind the look-up of the subject and its previous revision.
unfoldable pub revise_from : Owner → String → Snapshot → Option Previous → Action String
unfolding write_revision supersede_subject
revise_from o name s none = do write_revision o name 1 Cause.new s; pure s.fresh
revise_from o name s (some p) = do
  raise_if (ltb s.as_of p.subject.last_as_of) Error.out_of_order
  if str_eq p.revision.material s.material
      then (do
        modify λ db. record db {
          subjects = upsert_subject (subject_row o name p.subject.revision s) db.subjects;
        }
        pure p.subject.revision)
      else (do
        write_revision o name (p.revision.sequence + 1) (change_cause p.subject.policy s.policy) s
        supersede_subject o name s.now
        pure s.fresh)

-- `revise`
unfoldable pub revise : Owner → String → Snapshot → Action String
unfolding revise_from subject find_previous
revise o canonical_id s = do
  raise_if (not (← gets (λ db. db.in_transaction))) Error.outside_transaction
  name ← subject o canonical_id
  previous ← gets (find_previous o name)
  revise_from o name s previous
