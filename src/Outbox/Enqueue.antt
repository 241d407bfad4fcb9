-- ===== src/Outbox/Enqueue.antt =====
-- `enqueue` of jobhound/delivery_outbox.py: a pending card for the current revision of a subject.
use job_hound.Base.{
  ℕ, ◌+◌, String, Bool, false, not, ◌&&◌, ◌||◌, Option, none, some, List, [], ◌∷◌, ◌++◌, ◌==◌, ltb,
  leb, str_eq, codes, length, any, all, if◌then◌else◌,
}
use job_hound.Outbox.Rows.{
  Owner, same_owner, Revision, Destination, same_destination, Intent, Status, Db,
}
use job_hound.Outbox.Monad.{Action, pure, gets, or_raise, ◌>>=◌, ◌>>◌, raise_if, modify, Error}
use job_hound.Outbox.Queries.{find_revision, current_revision, next_intent_id}
use job_hound.Outbox.Identity.{is_legacy_of}

unfoldable pub is_hex : ℕ → Bool
is_hex c = (leb b'0' c && leb c b'9') || (leb b'a' c && leb c b'f')

unfoldable pub supported_channel : String → Bool
supported_channel c = str_eq c "email" || str_eq c "telegram"

unfoldable pub hashed_key : String → Bool
unfolding is_hex
hashed_key k = length (codes k) == 64 && all is_hex (codes k)

-- `SELECT * FROM delivery_revisions WHERE id=? AND workspace=? AND profile=?`
abbrev pub owned_revision_row : Owner → Option Revision → Option Revision
owned_revision_row o none = none
owned_revision_row o (some r) = if same_owner r.owner o then some r else none

abbrev pub is_current : Owner → Revision → Db → Bool
is_current o r db = elim (current_revision o r.subject db.subjects) [
  | none ↦ false
  | some id ↦ str_eq id r.id
]

-- The newest intent of a revision and destination: `ORDER BY id DESC LIMIT 1`.
unfoldable pub last_status : (Intent → Bool) → List Intent → Option Status
last_status p [] = none
last_status p (i ∷ is) =
    let rest = last_status p is in
    elim rest [ some s ↦ some s | none ↦ if p i then some i.status else none ]

abbrev pub is_intent_for : String → Destination → Intent → Bool
is_intent_for revision d i = str_eq i.revision revision && same_destination i.destination d

abbrev pub new_intent : ℕ → String → Destination → Status → String → ℕ → ℕ → Intent
new_intent id revision d status payload max_attempts now = record {
  id = id;
  revision = revision;
  destination = d;
  status = status;
  payload = payload;
  attempts = 0;
  max_attempts = max_attempts;
  available = now;
  token = none;
  lease_until = none;
  generation = 0;
}

unfoldable pub insert_intent : Destination → String → Status → String → ℕ → ℕ → Action Status
insert_intent d revision status payload max_attempts now = do
  modify λ db. record db {
    intents =
        db.intents
        ++ new_intent (next_intent_id db.intents) revision d status payload max_attempts now ∷ [];
  }
  pure status

unfoldable pub enqueue_new :
    Owner → Revision → Destination → String → ℕ → ℕ → Option Status → Action Status
unfolding insert_intent next_intent_id
enqueue_new o r d payload max_attempts now (some status) = pure status
enqueue_new o r d payload max_attempts now none = do
  held ← gets (λ db. any (λ l. is_legacy_of o r.subject l && str_eq l.channel d.channel) db.legacy)
  insert_intent d r.id (if held then Status.legacy_hold else Status.pending) payload max_attempts
      now

-- The bytes of a character in UTF-8.
unfoldable pub utf8_width : ℕ → ℕ
utf8_width c = if ltb c 128 then 1 else if ltb c 2048 then 2 else if ltb c 65536 then 3 else 4

unfoldable pub utf8_length : List ℕ → ℕ
unfolding utf8_width
utf8_length [] = 0
utf8_length (c ∷ cs) = utf8_width c + utf8_length cs

-- `enqueue`; a payload is its canonical JSON.
unfoldable pub enqueue : Owner → String → Destination → String → ℕ → ℕ → Action Status
unfolding enqueue_new last_status current_revision supported_channel hashed_key utf8_length
enqueue o revision d payload now max_attempts = do
  raise_if (not (← gets (λ db. db.in_transaction))) Error.outside_transaction
  raise_if (not (supported_channel d.channel)) Error.unsupported_destination
  raise_if (not (hashed_key d.key)) Error.unhashed_destination
  raise_if (not (leb 1 max_attempts && leb max_attempts 10)) Error.invalid_max_attempts
  found ← gets (λ db. owned_revision_row o (find_revision revision db.revisions))
  r ← or_raise found Error.outside_owner
  raise_if (not (← gets (is_current o r))) Error.stale_revision
  raise_if (ltb 1048576 (utf8_length (codes payload))) Error.payload_too_large
  existing ← gets (λ db. last_status (is_intent_for revision d) db.intents)
  enqueue_new o r d payload max_attempts now existing
