-- ===== src/Outbox/History.antt =====
-- Every sequence of calls of `DeliveryOutbox`: any owners, any arguments, any outcome of each call. The
-- envelope tables may change between them, which the calls only read. The calls of `DigestTransport` on
-- intents are not among them: they write the same intents by rules of their own.
-- What staging runs (`revise`, `enqueue`, the crosswalk and the adoption) runs in a transaction of the
-- caller.
use job_hound.Base.{ℕ, String, Bool, false, true, ◌≡◌, List, [], ◌∷◌, Option, some, All-find?}
use job_hound.Outbox.Rows.{Owner, Destination, Intent, Notification, Envelope, EnvelopeItem, Db}
use job_hound.Outbox.Monad.{transaction}
use job_hound.Outbox.Queries.{find_intent}
use job_hound.Outbox.Identity.{register_alias, register_legacy_crosswalk}
use job_hound.Outbox.Revise.{Snapshot, revise}
use job_hound.Outbox.Enqueue.{enqueue}
use job_hound.Outbox.Leases.{claim_next, begin_send}
use job_hound.Outbox.Settle.{Outcome, finish, reconcile}
use job_hound.Outbox.Adoption.{import_legacy, adopt_legacy_baselines, backfill_rollback_receipts}
use job_hound.Outbox.Dispatch.{Receipt, dispatch_fake}
use job_hound.Outbox.Triples.{On}
use job_hound.Outbox.Keeps.{Keeps-transaction}
use job_hound.Outbox.Soundness.{is_open, IsSound, IsWellFormed, IsCurrentCard}
use job_hound.Outbox.Soundness.Leases.{claim_next-IsSound, begin_send-IsSound}
use job_hound.Outbox.Soundness.Settle.{finish-IsSound, reconcile-IsSound}
use job_hound.Outbox.Soundness.Enqueue.{enqueue-IsSound}
use job_hound.Outbox.Soundness.Revise.{revise-IsSound}
use job_hound.Outbox.Soundness.Adoption.{
  register_alias-Keeps, register_legacy_crosswalk-On, import_legacy-Keeps,
  adopt_legacy_baselines-IsSound, backfill-Keeps,
}
use job_hound.Outbox.Soundness.Dispatch.{dispatch_fake-IsSound}

-- A method call of the outbox, or a change of the envelope tables, which the outbox itself never writes.
pub data Call : Type 0 where
  alias : String → String → String → Call
  crosswalk : String → String → String → Call
  stage_revision : String → Snapshot → Call
  stage_intent : String → Destination → String → ℕ → ℕ → Call
  claim : Destination → String → ℕ → ℕ → Call
  start : ℕ → String → ℕ → Call
  settle_sent : ℕ → String → Outcome → String → ℕ → Call
  review : ℕ → Outcome → String → Bool → ℕ → Call
  import : String → Call
  adopt : List Destination → String → ℕ → Call
  backfill : Call
  dispatch : Destination → (String → Receipt) → String → ℕ → ℕ → ℕ → Call
  envelopes_change : List Envelope → List EnvelopeItem → Call

-- The state after a call, whether it returned or raised.
unfoldable pub after : Owner → Call → Db → Db
after o (Call.alias old_id new_id evidence) db = (register_alias o old_id new_id evidence db).1
after o (Call.crosswalk old_id new_id evidence) db =
    (transaction (register_legacy_crosswalk o old_id new_id evidence) db).1
after o (Call.stage_revision id s) db = (transaction (revise o id s) db).1
after o (Call.stage_intent r d payload now m) db = (transaction (enqueue o r d payload now m) db).1
after o (Call.claim d token now lease) db = (claim_next o d token now lease db).1
after o (Call.start id token now) db = (begin_send o id token now db).1
after o (Call.settle_sent id token outcome evidence now) db =
    (finish o id token outcome evidence now db).1
after o (Call.review id outcome evidence reviewed now) db =
    (reconcile o id outcome evidence reviewed now db).1
after o (Call.import evidence) db = (import_legacy o evidence db).1
after o (Call.adopt ds evidence now) db =
    (transaction (adopt_legacy_baselines o ds evidence now) db).1
after o Call.backfill db = (backfill_rollback_receipts o db).1
after o (Call.dispatch d sender token at_claim at_send at_finish) db =
    (dispatch_fake o d sender token at_claim at_send at_finish db).1
after o (Call.envelopes_change es items) db = record db { envelopes = es; envelope_items = items }

-- The calls of every owner, in the order in which they commit.
abbrev pub Trace : Type 0
Trace = List (Owner × Call)

unfoldable pub run : Trace → Db → Db
run [] db = db
run ((o, c) ∷ cs) db = run cs (after o c db)

-- What a new outbox finds: the V4.2 history, the envelopes, and whether the run may write.
pub record Setting : Type 0 where
  pub notifications : Option (List Notification)
  pub envelopes : List Envelope
  pub envelope_items : List EnvelopeItem
  pub writable : Bool

abbrev pub fresh_db : Setting → Db
fresh_db s = record {
  subjects = [];
  revisions = [];
  aliases = [];
  intents = [];
  events = [];
  baselines = [];
  legacy = [];
  notifications = s.notifications;
  envelopes = s.envelopes;
  envelope_items = s.envelope_items;
  parts = [];
  part_events = [];
  in_transaction = false;
  writable = s.writable;
}

-- The state that the calls lead to from a new outbox.
abbrev pub reached : Setting → Trace → Db
reached s cs = run cs (fresh_db s)

pub after-IsSound : (o : Owner) (c : Call) (db : Db) → On IsSound db → On IsSound (after o c db)
unfolding after
after-IsSound o (Call.alias a b e) db h = (register_alias-Keeps IsSound o a b e).run db h
after-IsSound o (Call.crosswalk a b e) db h =
    (Keeps-transaction _ (register_legacy_crosswalk-On IsSound o a b e)).run db h
after-IsSound o (Call.stage_revision id s) db h =
    (Keeps-transaction _ (revise-IsSound o id s)).run db h
after-IsSound o (Call.stage_intent r d p now m) db h =
    (Keeps-transaction _ (enqueue-IsSound o r d p now m)).run db h
after-IsSound o (Call.claim d t now l) db h = (claim_next-IsSound o d t now l).run db h
after-IsSound o (Call.start id t now) db h = (begin_send-IsSound o id t now).run db h
after-IsSound o (Call.settle_sent id t x e now) db h = (finish-IsSound o id t x e now).run db h
after-IsSound o (Call.review id x e r now) db h = (reconcile-IsSound o id x e r now).run db h
after-IsSound o (Call.import e) db h = (import_legacy-Keeps IsSound o e).run db h
after-IsSound o (Call.adopt ds e now) db h =
    (Keeps-transaction _ (adopt_legacy_baselines-IsSound o ds e now)).run db h
after-IsSound o Call.backfill db h = (backfill-Keeps IsSound o).run db h
after-IsSound o (Call.dispatch d s t a b c) db h = (dispatch_fake-IsSound o d s t a b c).run db h
after-IsSound o (Call.envelopes_change es items) db h = record {
  ascend = h.ascend;
  formed = h.formed;
  current = h.current;
}

pub run-IsSound : (cs : Trace) (db : Db) → On IsSound db → On IsSound (run cs db)
unfolding run
run-IsSound [] db h = h
run-IsSound ((o, c) ∷ cs) db h = run-IsSound cs (after o c db) (after-IsSound o c db h)

pub reached-IsSound : (s : Setting) (cs : Trace) → On IsSound (reached s cs)
reached-IsSound s cs =
    run-IsSound cs (fresh_db s) (record { ascend = tt; formed = tt; current = tt })

-- After any calls of the outbox on a new one, between which the envelope tables may change but nothing
-- else writes an intent, a revision or a subject (so no call of the digest transport comes between), an intent that is
-- pending or leased has its revision in the table, and that is the current revision of its subject: a
-- stale card can be neither claimed nor sent.
pub reached_no_stale_card :
    (s : Setting) (cs : Trace) (id : ℕ) (i : Intent)
    → find_intent id (reached s cs).intents ≡ some i
    → is_open i.status ≡ true
    → IsCurrentCard (reached s cs).revisions (reached s cs).subjects i
reached_no_stale_card s cs id i e open_card =
    (All-find? _ _ _ i (reached-IsSound s cs).current e).0 open_card

-- After any calls of the outbox on a new one, between which the envelope tables may change but nothing
-- else writes an intent, a revision or a subject (so no call of the digest transport comes between), every intent has
-- made at most its `max_attempts`, at most ten, sends and has one left while it is pending or leased; it
-- holds a token and a lease exactly while it is leased or sending.
pub reached-IsWellFormed :
    (s : Setting) (cs : Trace) (id : ℕ) (i : Intent)
    → find_intent id (reached s cs).intents ≡ some i
    → IsWellFormed i
reached-IsWellFormed s cs id i e = (All-find? _ _ _ i (reached-IsSound s cs).formed e).0
