-- ===== src/Envelopes/Drafts.antt =====
-- `prepare` of jobhound/delivery_transport.py. The body of a digest (with the summary's text, where there
-- is one) arrives as its rendered text with its hash, and cut into the texts of its parts.
use job_hound.Base.{
  ℕ, ◌+◌, String, Bool, true, false, not, ◌&&◌, ◌||◌, none, Option, List, [], ◌∷◌, ◌++◌, ltb, leb,
  ◌==◌, str_eq, any, all, length, codes, if◌then◌else◌,
}
use job_hound.Outbox.Rows.{Owner, Destination, EnvelopeStatus, Envelope, EnvelopeItem, PartStatus}
use job_hound.Outbox.Monad.{
  Action, ⊤, pure, gets, ◌>>=◌, ◌>>◌, raise_if, modify, transaction, Error,
}
use job_hound.Outbox.Queries.{OwnedRow}
use job_hound.Outbox.Enqueue.{utf8_length}
use job_hound.Envelopes.Reads.{owned_each, is_preparable}
use job_hound.Envelopes.Summaries.{Summary, check_summary}

abbrev pub contains_id : ℕ → List ℕ → Bool
contains_id a [] = false
contains_id a (x ∷ xs) = x == a || contains_id a xs

abbrev pub distinct_ids : List ℕ → Bool
distinct_ids [] = true
distinct_ids (x ∷ xs) = not (contains_id x xs) && distinct_ids xs

-- The intent IDs of a selection are positive, distinct and at most a hundred.
unfoldable pub is_selection : List ℕ → Bool
is_selection ids =
    leb 1 (length ids) && leb (length ids) 100 && distinct_ids ids && all (λ i. leb 1 i) ids

unfoldable pub check_each : Owner → Destination → ℕ → List OwnedRow → Action ⊤
unfolding is_preparable
check_each o d now [] = pure tt
check_each o d now (row ∷ rows) = do
  raise_if (not (← gets (is_preparable o d now row))) Error.unpreparable_intent
  check_each o d now rows

-- A row of the mapping, in the order of its key.
unfoldable pub insert_item : EnvelopeItem → List EnvelopeItem → List EnvelopeItem
insert_item n [] = n ∷ []
insert_item n (m ∷ ms) = if ltb n.intent m.intent then n ∷ m ∷ ms else m ∷ insert_item n ms

-- INSERT INTO delivery_envelope_items, whose key is the intent
unfoldable pub add_items : String → List ℕ → Action ⊤
unfolding insert_item
add_items env [] = pure tt
add_items env (id ∷ ids) = do
  raise_if (← gets (λ db. any (λ m. m.intent == id) db.envelope_items)) Error.integrity_error
  modify λ db. record db {
    envelope_items = insert_item (record { envelope = env; intent = id }) db.envelope_items;
  }
  add_items env ids

-- INSERT INTO delivery_parts, whose key is the envelope with the ordinal
unfoldable pub add_parts : String → ℕ → ℕ → List String → Action ⊤
add_parts env now ordinal [] = pure tt
add_parts env now ordinal (body ∷ bodies) = do
  raise_if (← gets (λ db. any (λ p. str_eq p.envelope env && p.ordinal == ordinal) db.parts))
      Error.integrity_error
  modify λ db. record db {
    parts =
        db.parts
        ++ record {
          envelope = env;
          ordinal = ordinal;
          body = body;
          status = PartStatus.pending;
          attempts = 0;
          available = now;
        }
          ∷ [];
  }
  add_parts env now (ordinal + 1) bodies

-- A rendered digest
pub record Digest : Type 0 where
  pub body : String
  pub body_hash : String
  pub parts : List String

abbrev pub new_envelope : Owner → Destination → Digest → String → ℕ → Envelope
new_envelope o d digest env now = record {
  id = env;
  owner = o;
  destination = d;
  body = digest.body;
  body_hash = digest.body_hash;
  status = EnvelopeStatus.pending;
  token = none;
  lease_until = none;
  created = now;
}

-- The three inserts of `prepare`.
unfoldable pub freeze : Owner → Destination → Digest → String → List ℕ → ℕ → Action String
unfolding add_items add_parts
freeze o d digest env ids now = do
  raise_if (← gets (λ db. any (λ e. str_eq e.id env) db.envelopes)) Error.integrity_error
  modify λ db. record db { envelopes = db.envelopes ++ new_envelope o d digest env now ∷ [] }
  add_items env ids
  add_parts env now 0 digest.parts
  pure env

abbrev pub has_channel : String → Bool
has_channel channel = str_eq channel "telegram" || str_eq channel "email"

unfoldable pub prepare_body :
    Owner
    → Destination
    → List ℕ
    → (List OwnedRow → Digest)
    → Option Summary
    → String
    → ℕ
    → Action String
unfolding owned_each check_each freeze utf8_length check_summary
prepare_body o d ids render summary env now = do
  rows ← owned_each o ids
  check_each o d now rows
  let digest = render rows
  check_summary d summary
  raise_if (ltb 131072 (utf8_length (codes digest.body))) Error.digest_too_large
  raise_if (not (has_channel d.channel)) Error.unsupported_destination
  raise_if (ltb 32 (length digest.parts)) Error.too_many_parts
  freeze o d digest env ids now

-- `prepare`
unfoldable pub prepare :
    Owner
    → Destination
    → List ℕ
    → (List OwnedRow → Digest)
    → Option Summary
    → String
    → ℕ
    → Action String
unfolding is_selection prepare_body
prepare o d ids render summary env now = do
  raise_if (not (is_selection ids)) Error.invalid_selection
  transaction (prepare_body o d ids render summary env now)
