-- ===== src/Outbox/Adoption.antt =====
-- `import_legacy`, `adopt_legacy_baselines` and `backfill_rollback_receipts` of
-- jobhound/delivery_outbox.py. SELECT DISTINCT is read without DISTINCT: each write ignores a row
-- that is there already.
use job_hound.Base.{
  ℕ, suc, ◌+◌, String, Bool, true, false, not, ◌&&◌, Option, none, some, List, [], ◌∷◌, ◌++◌, ◌==◌,
  leb, str_eq, codes, any, filter, is_some, if◌then◌else◌,
}
use job_hound.Outbox.Rows.{
  Owner, same_owner, Revision, Destination, same_destination, Intent, Status, is_legacy_hold,
  is_accepted, Baseline, EventName, Legacy, Notification, Db,
}
use job_hound.Outbox.Monad.{
  Action, ⊤, pure, gets, or_raise, ◌>>=◌, ◌>>◌, modify, transaction, Error,
}
use job_hound.Outbox.Queries.{find_revision}
use job_hound.Outbox.Identity.{identifier, subject, is_legacy_of, insert_legacy}
use job_hound.Outbox.Revise.{record_event, update_intent, set_status}
use job_hound.Outbox.Settle.{is_baseline, write_receipts}

abbrev pub has_channel_baseline : Owner → String → String → Db → Bool
has_channel_baseline o name channel db =
    any (λ b. same_owner b.owner o && str_eq b.subject name && str_eq b.destination.channel channel)
      db.baselines

unfoldable pub import_rows : Owner → String → List Notification → Action ⊤
unfolding subject insert_legacy
import_rows o evidence [] = pure tt
import_rows o evidence (n ∷ ns) = do
  name ← subject o n.canonical_id
  adopted ← gets (has_channel_baseline o name n.channel)
  modify λ db.
      if adopted
      then db
      else record db { legacy = insert_legacy o name n.channel evidence db.legacy }
  import_rows o evidence ns

unfoldable pub import_legacy_body : Owner → String → Action ⊤
unfolding import_rows
import_legacy_body o evidence = do
  found ← gets (λ db. db.notifications)
  ns ← or_raise found Error.missing_table
  import_rows o evidence (filter (λ n. n.success && not n.is_v6) ns)

-- `import_legacy`
unfoldable pub import_legacy : Owner → String → Action ⊤
unfolding import_legacy_body
import_legacy o evidence = do identifier evidence; transaction (import_legacy_body o evidence)

abbrev pub held_by_legacy : Owner → String → Option Revision → Db → Bool
held_by_legacy o channel none db = false
held_by_legacy o channel (some r) db =
    same_owner r.owner o
    && any (λ l. is_legacy_of o r.subject l && str_eq l.channel channel) db.legacy

-- The rows that one destination adopts.
abbrev pub is_adoptable : Owner → Destination → Db → Intent → Bool
is_adoptable o d db i =
    same_destination i.destination d
    && is_legacy_hold i.status
    && held_by_legacy o i.destination.channel (find_revision i.revision db.revisions) db

-- INSERT OR IGNORE INTO delivery_baselines
unfoldable pub insert_baseline : Baseline → List Baseline → List Baseline
insert_baseline n bs =
    if any (is_baseline n.owner n.subject n.destination) bs then bs else bs ++ n ∷ []

unfoldable pub subject_or : String → Option Revision → String
subject_or d none = d
subject_or d (some r) = r.subject

-- A subject and channel whose hold is released.
pub record Released : Type 0 where
  pub subject : String
  pub channel : String

unfoldable pub adopt_row : Owner → String → ℕ → Intent → Action Released
unfolding record_event insert_baseline subject_or
adopt_row o evidence now i = do
  name ← gets (λ db. subject_or "" (find_revision i.revision db.revisions))
  modify λ db. record db {
    baselines =
        insert_baseline
          (record { owner = o; subject = name; destination = i.destination; revision = i.revision })
          db.baselines;
  }
  record_event o i.id EventName.legacy_baseline_adopted evidence now
  update_intent i.id (set_status Status.accepted)
  pure (record { subject = name; channel = i.destination.channel })

unfoldable pub adopt_rows : Owner → String → ℕ → List Intent → Action (List Released)
unfolding adopt_row
adopt_rows o evidence now [] = pure []
adopt_rows o evidence now (i ∷ is) = do
  r ← adopt_row o evidence now i
  rs ← adopt_rows o evidence now is
  pure (r ∷ rs)

unfoldable pub adopt_targets : Owner → String → ℕ → List Destination → Action (List Released)
unfolding adopt_rows
adopt_targets o evidence now [] = pure []
adopt_targets o evidence now (d ∷ ds) = do
  rows ← gets (λ db. filter (is_adoptable o d db) db.intents)
  rs ← adopt_rows o evidence now rows
  more ← adopt_targets o evidence now ds
  pure (rs ++ more)

abbrev pub is_released : Owner → List Released → Legacy → Bool
is_released o rs l = any (λ r. is_legacy_of o r.subject l && str_eq l.channel r.channel) rs

unfoldable pub count_released : List Released → ℕ
count_released [] = 0
count_released (r ∷ rs) = suc (count_released rs)

-- `adopt_legacy_baselines`: the holds go only after every destination has adopted.
unfoldable pub adopt_legacy_baselines : Owner → List Destination → String → ℕ → Action ℕ
unfolding adopt_targets count_released
adopt_legacy_baselines o targets evidence now = do
  identifier evidence
  rs ← adopt_targets o evidence now targets
  modify λ db. record db { legacy = filter (λ l. not (is_released o rs l)) db.legacy }
  pure (count_released rs)

unfoldable pub lower : ℕ → ℕ
lower c = if leb b'A' c && leb c b'Z' then c + 32 else c

unfoldable pub begins_like : List ℕ → List ℕ → Bool
unfolding lower
begins_like [] cs = true
begins_like (p ∷ ps) [] = false
begins_like (p ∷ ps) (c ∷ cs) = p == lower c && begins_like ps cs

-- `LIKE 'coverage:%'`, in which SQLite compares letters without their case
abbrev pub is_like_coverage : String → Bool
is_like_coverage name = begins_like (codes "coverage:") (codes name)

unfoldable pub backfill_row : Owner → String → Option Revision → Action ℕ
unfolding begins_like
backfill_row o channel none = pure 0
backfill_row o channel (some r) =
    if same_owner r.owner o && not (is_like_coverage r.subject)
    then (do
      found ← gets (λ db. db.notifications)
      ns ← or_raise found Error.missing_table
      write_receipts o r.run_id r.subject channel ns)
    else pure 0

unfoldable pub backfill_rows : Owner → List Intent → Action ℕ
unfolding backfill_row
backfill_rows o [] = pure 0
backfill_rows o (i ∷ is) = do
  found ← gets (λ db. find_revision i.revision db.revisions)
  written ← backfill_row o i.destination.channel found
  more ← backfill_rows o is
  pure (written + more)

-- `backfill_rollback_receipts`
unfoldable pub backfill_rollback_receipts : Owner → Action ℕ
unfolding backfill_rows
backfill_rollback_receipts o = do
  found ← gets (λ db. db.notifications)
  if not (is_some found)
      then pure 0
      else transaction (do
        rows ← gets (λ db. filter (λ i. is_accepted i.status) db.intents)
        backfill_rows o rows)
