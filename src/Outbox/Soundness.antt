-- ===== src/Outbox/Soundness.antt =====
-- What every method of the outbox keeps: ids ascend, each intent is well formed, and a card that can
-- still be claimed or sent belongs to the current revision of its subject.
pub mod Writes
pub mod Leases
pub mod Settle
pub mod Enqueue
pub mod Superseding
pub mod Revise
pub mod Adoption
pub mod Dispatch
use job_hound.Base.{ℕ, ◌≤◌, ◌<◌, ◌≡◌, Bool, true, false, List, some, All, is_some}
use job_hound.Outbox.Rows.{Owner, Status, Revision, Subject, Intent}
use job_hound.Outbox.Queries.{OwnedRow, find_revision, current_revision}
use job_hound.Outbox.Leases.{is_leased_or_sending}
use job_hound.Outbox.Intents.{IdsAscend, IsOwned}

-- Not sent yet, and free to be.
abbrev pub is_open : Status → Bool
is_open Status.pending = true
is_open Status.leased = true
is_open _ = false

pub record IsWellFormed (i : Intent) : Type 0 where
  -- An open card has an attempt left.
  pub below : is_open i.status ≡ true → i.attempts < i.max_attempts
  pub within : i.attempts ≤ i.max_attempts
  pub capped : i.max_attempts ≤ 10
  -- A lease is held exactly while the card is leased or sending.
  pub has_token : is_some i.token ≡ is_leased_or_sending i.status
  pub has_until : is_some i.lease_until ≡ is_leased_or_sending i.status

-- The revision of the card is there, and is the current one of its subject.
pub record IsCurrentCard (revs : List Revision) (subs : List Subject) (i : Intent) : Type 0 where
  pub revision : Revision
  pub found : find_revision i.revision revs ≡ some revision
  pub current : current_revision revision.owner revision.subject subs ≡ some i.revision

abbrev pub IsOpenCurrent : List Revision → List Subject → Intent → Type 0
IsOpenCurrent revs subs i = is_open i.status ≡ true → IsCurrentCard revs subs i

pub record IsSound (revs : List Revision) (subs : List Subject) (is : List Intent) : Type 0 where
  pub ascend : IdsAscend is
  pub formed : All IsWellFormed is
  pub current : All (IsOpenCurrent revs subs) is

-- A sound state of which `row` was selected.
pub record IsSoundAt (o : Owner) (id : ℕ) (row : OwnedRow) (revs : List Revision)
    (subs : List Subject) (is : List Intent) : Type 0 where
  pub sound : IsSound revs subs is
  pub owned : IsOwned o id row revs is
