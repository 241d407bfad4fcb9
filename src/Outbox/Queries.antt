-- ===== src/Outbox/Queries.antt =====
-- The joins and the small reads that the statements of jobhound/delivery_outbox.py share.
use job_hound.Base.{
  ℕ, ◌+◌, String, Bool, true, false, not, ◌&&◌, Option, none, some, List, [], ◌∷◌, ◌==◌, str_eq,
  find?, any, max, if◌then◌else◌,
}
use job_hound.Outbox.Rows.{
  Owner, same_owner, Subject, Revision, Alias, Destination, same_destination, Intent,
  EnvelopeStatus, Envelope, Db,
}
use job_hound.Outbox.Monad.{Action, or_raise, Error}

abbrev pub find_revision : String → List Revision → Option Revision
find_revision id = find? (λ r. str_eq r.id id)

abbrev pub find_intent : ℕ → List Intent → Option Intent
find_intent id = find? (λ i. i.id == id)

-- `JOIN delivery_revisions r ON r.id=i.revision WHERE r.workspace=? AND r.profile=? AND r.subject=?`
abbrev pub joins_subject : Owner → String → Option Revision → Bool
joins_subject o s none = false
joins_subject o s (some r) = same_owner r.owner o && str_eq r.subject s

abbrev pub joins_owner : Owner → Option Revision → Bool
joins_owner o none = false
joins_owner o (some r) = same_owner r.owner o

abbrev pub is_subject : Owner → String → Subject → Bool
is_subject o name s = same_owner s.owner o && str_eq s.name name

abbrev pub find_subject : Owner → String → List Subject → Option Subject
find_subject o name = find? (is_subject o name)

-- `current_revision`
unfoldable pub current_revision : Owner → String → List Subject → Option String
current_revision o name subs = elim (find_subject o name subs) [
  | none ↦ none
  | some s ↦ some s.revision
]

abbrev pub is_alias : Owner → String → Alias → Bool
is_alias o name a = same_owner a.owner o && str_eq a.alias name

-- The row that `_owned` selects: an intent with its revision.
pub record OwnedRow : Type 0 where
  pub intent : Intent
  pub revision : Revision

unfoldable pub owned_revision : Owner → Intent → Option Revision → Option OwnedRow
owned_revision o i none = none
owned_revision o i (some r) =
    if same_owner r.owner o then some (record { intent = i; revision = r }) else none

unfoldable pub owned_intent : Owner → List Revision → Option Intent → Option OwnedRow
unfolding owned_revision
owned_intent o revs none = none
owned_intent o revs (some i) = owned_revision o i (find_revision i.revision revs)

unfoldable pub find_owned : Owner → ℕ → Db → Option OwnedRow
unfolding owned_intent
find_owned o id db = owned_intent o db.revisions (find_intent id db.intents)

-- `_owned`
unfoldable pub owned : Owner → ℕ → Action OwnedRow
unfolding find_owned
owned o id db = or_raise (find_owned o id db) Error.outside_owner db

-- `_reserved`
unfoldable pub reserved : ℕ → Db → Bool
reserved id db = any (λ m. m.intent == id) db.envelope_items

-- `e.status IN ('pending','leased','uncertain')`
abbrev pub holds_subject : EnvelopeStatus → Bool
holds_subject EnvelopeStatus.pending = true
holds_subject EnvelopeStatus.leased = true
holds_subject EnvelopeStatus.uncertain = true
holds_subject _ = false

unfoldable pub item_envelope_holds : String → Option Envelope → Bool
item_envelope_holds except none = false
item_envelope_holds except (some e) = not (str_eq e.id except) && holds_subject e.status

unfoldable pub item_intent_matches :
    Owner → String → Destination → List Revision → Option Intent → Bool
item_intent_matches o s d revs none = false
item_intent_matches o s d revs (some i) =
    joins_subject o s (find_revision i.revision revs) && same_destination i.destination d

-- `_subject_reserved`
unfoldable pub subject_reserved : Owner → OwnedRow → String → Db → Bool
unfolding item_envelope_holds item_intent_matches
subject_reserved o row except db =
    any
      (λ m.
        item_envelope_holds except (find? (λ e. str_eq e.id m.envelope) db.envelopes)
        && item_intent_matches o row.revision.subject row.intent.destination db.revisions
            (find_intent m.intent db.intents))
      db.envelope_items

-- The rowid that SQLite gives to a new intent: one more than the largest in use.
unfoldable pub next_intent_id : List Intent → ℕ
next_intent_id [] = 1
next_intent_id (i ∷ is) = max (i.id + 1) (next_intent_id is)

-- A write to the one intent of that id.
abbrev pub set_intent : ℕ → (Intent → Intent) → List Intent → List Intent
set_intent id f [] = []
set_intent id f (i ∷ is) = (if i.id == id then f i else i) ∷ set_intent id f is
