-- ===== src/Outbox/Rows.antt =====
-- The tables of jobhound/delivery_outbox.py and of jobhound/delivery_transport.py, a row to a record
-- and a table to a list in rowid order. Times are whole seconds; a NULL is `none`.
use job_hound.Base.{ℕ, String, Bool, true, false, ◌&&◌, Option, List, str_eq}

-- `workspace` and `profile`, by which every statement filters its rows.
pub record Owner : Type 0 where
  pub workspace : String
  pub profile : String

abbrev pub same_owner : Owner → Owner → Bool
same_owner a b = str_eq a.workspace b.workspace && str_eq a.profile b.profile

-- The CHECK on `delivery_intents.status`.
pub data Status : Type 0 where
  pending leased sending accepted uncertain failed superseded legacy_hold : Status

pub data Cause : Type 0 where
  new policy_review material_change : Cause

-- delivery_subjects
pub record Subject : Type 0 where
  pub owner : Owner
  pub name : String
  pub revision : String
  pub policy : String
  pub last_as_of : ℕ

-- delivery_revisions
pub record Revision : Type 0 where
  pub id : String
  pub owner : Owner
  pub subject : String
  pub sequence : ℕ
  pub run_id : String
  pub material : String
  pub cause : Cause
  pub created : ℕ

-- delivery_aliases
pub record Alias : Type 0 where
  pub owner : Owner
  pub alias : String
  pub subject : String
  pub evidence : String

-- A channel and the hash of an address.
pub record Destination : Type 0 where
  pub channel : String
  pub key : String

abbrev pub same_destination : Destination → Destination → Bool
same_destination a b = str_eq a.channel b.channel && str_eq a.key b.key

-- delivery_intents
pub record Intent : Type 0 where
  pub id : ℕ
  pub revision : String
  pub destination : Destination
  pub status : Status
  pub payload : String
  pub attempts : ℕ
  pub max_attempts : ℕ
  pub available : ℕ
  pub token : Option String
  pub lease_until : Option ℕ
  pub generation : ℕ

-- The `event` column of delivery_attempt_events.
pub data EventName : Type 0 where
  claimed send_started lease_expired_pending lease_expired_uncertain : EventName
  settled_accepted settled_not_sent settled_uncertain settled_permanent_failure : EventName
  revision_superseded legacy_baseline_adopted : EventName
  envelope_cancelled reviewed_unsent_reissue reviewed_unsent_replacement : EventName
  envelope_set : Status → EventName

-- delivery_attempt_events
pub record Event : Type 0 where
  pub intent : ℕ
  pub attempt : ℕ
  pub event : EventName
  pub token : Option String
  pub evidence : String
  pub created : ℕ

-- delivery_baselines
pub record Baseline : Type 0 where
  pub owner : Owner
  pub subject : String
  pub destination : Destination
  pub revision : String

-- delivery_legacy
pub record Legacy : Type 0 where
  pub owner : Owner
  pub subject : String
  pub channel : String
  pub evidence : String

-- notification_events, the V4.2 history, without its timestamp
pub record Notification : Type 0 where
  pub run_id : String
  pub canonical_id : String
  pub is_v6 : Bool
  pub channel : String
  pub success : Bool

-- The status of a row of delivery_envelopes.
pub data EnvelopeStatus : Type 0 where
  pending leased accepted uncertain failed cancelled abandoned : EnvelopeStatus

-- delivery_envelopes
pub record Envelope : Type 0 where
  pub id : String
  pub owner : Owner
  pub destination : Destination
  pub body : String
  pub body_hash : String
  pub status : EnvelopeStatus
  pub token : Option String
  pub lease_until : Option ℕ
  pub created : ℕ

-- The status of a row of delivery_parts.
pub data PartStatus : Type 0 where
  pending sending accepted uncertain failed : PartStatus

-- delivery_parts
pub record Part : Type 0 where
  pub envelope : String
  pub ordinal : ℕ
  pub body : String
  pub status : PartStatus
  pub attempts : ℕ
  pub available : ℕ

-- The `event` column of delivery_part_events.
pub data PartEventName : Type 0 where
  send_started accepted not_sent uncertain permanent_failure abandoned : PartEventName

-- delivery_part_events
pub record PartEvent : Type 0 where
  pub envelope : String
  pub ordinal : ℕ
  pub attempt : ℕ
  pub event : PartEventName
  pub evidence : String
  pub created : ℕ

-- delivery_envelope_items
pub record EnvelopeItem : Type 0 where
  pub envelope : String
  pub intent : ℕ

-- The connection: its tables, whether a transaction is open, and whether the run may write. An
-- envelope table that was never created holds no row; `notifications` is `none` where it was not.
pub record Db : Type 0 where
  pub subjects : List Subject
  pub revisions : List Revision
  pub aliases : List Alias
  pub intents : List Intent
  pub events : List Event
  pub baselines : List Baseline
  pub legacy : List Legacy
  pub notifications : Option (List Notification)
  pub envelopes : List Envelope
  pub envelope_items : List EnvelopeItem
  pub parts : List Part
  pub part_events : List PartEvent
  pub in_transaction : Bool
  pub writable : Bool

abbrev pub is_pending : Status → Bool
is_pending pending = true
is_pending _ = false

abbrev pub is_leased : Status → Bool
is_leased leased = true
is_leased _ = false

abbrev pub is_legacy_hold : Status → Bool
is_legacy_hold legacy_hold = true
is_legacy_hold _ = false

abbrev pub is_accepted : Status → Bool
is_accepted accepted = true
is_accepted _ = false

-- Sent, or possibly being sent: the statuses whose card may have reached its reader.
abbrev pub maybe_sent : Status → Bool
maybe_sent sending = true
maybe_sent uncertain = true
maybe_sent accepted = true
maybe_sent _ = false
