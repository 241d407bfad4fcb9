-- ===== src/Envelopes/Examples.antt =====
-- Runs of the transport on small inputs.
use job_hound.Base.{
  ℕ, ◌+◌, ◌≤◌, String, ◌≡◌, refl, [], ◌∷◌, ◌++◌, length, max, contains, count, All, arith, none,
  some, List, Option, ◌⊎◌, true, false, Bool, ◌&&◌, ◌||◌, leb,
}
use job_hound.Outbox.Rows.{EnvelopeStatus, Owner, Destination, Status, Cause, PartStatus, Part, Db}
use job_hound.Outbox.Monad.{ok, transaction, pure, raise, gets, or_raise, raise_if, modify, ◌>>=◌}
use job_hound.Outbox.Identity.{is_identifier}
use job_hound.Outbox.Queries.{OwnedRow}
use job_hound.Outbox.Settle.{Outcome, backoff}
use job_hound.Envelopes.Reads.{find_part}
use job_hound.Envelopes.Drafts.{Digest, prepare}
use job_hound.Envelopes.Summaries.{Coverage, Summary}
use job_hound.Envelopes.Claims.{claim, begin_part}
use job_hound.Envelopes.Settling.{finish_part}
use job_hound.Envelopes.Sends.{refusals}
use job_hound.Envelopes.Runs.{
  Run, deliver_destination, plan_dispatch, Reply, Turn, dispatch_envelope,
}
use job_hound.Envelopes.Delivered.{deliver_destination_within_limit}
use job_hound.Envelopes.Plans.{plan_dispatch-slot}
use job_hound.Envelopes.Listed.{is_job, is_job_of, overflow_lines_bounds}
use job_hound.Envelopes.Dispatched.{IsVerified, dispatch_envelope-IsVerified}
use job_hound.Envelopes.Chunks.{chunk, cut_each, cut_char, telegram_parts}
use job_hound.Envelopes.Cutting.{units_of, join, join-chunk, telegram_parts-IsSendable}
use job_hound.Envelopes.Overflow.{Entry, overflow_lines}
use job_hound.Envelopes.Counted.{jobs, overflow_lines-jobs}
use job_hound.Envelopes.Traces.{Call, Reached, after, reached_no_blind_retry}

abbrev owner : Owner
owner = record { workspace = "w"; profile = "p" }

abbrev destination : Destination
destination = record { channel = "email"; key = "k" }

abbrev staged_db : Db
staged_db = record {
  subjects =
      record { owner = owner; name = "job"; revision = "r1"; policy = "{}"; last_as_of = 1 } ∷ [];
  revisions =
      record {
        id = "r1";
        owner = owner;
        subject = "job";
        sequence = 1;
        run_id = "run";
        material = "A";
        cause = Cause.new;
        created = 1;
      }
      ∷ [];
  aliases = [];
  intents =
      record {
        id = 1;
        revision = "r1";
        destination = destination;
        status = Status.pending;
        payload = "{}";
        attempts = 0;
        max_attempts = 3;
        available = 1;
        token = none;
        lease_until = none;
        generation = 0;
      }
      ∷ [];
  events = [];
  baselines = [];
  legacy = [];
  notifications = none;
  envelopes = [];
  envelope_items = [];
  parts = [];
  part_events = [];
  in_transaction = false;
  writable = true;
}

abbrev ascii_alnum : ℕ → Bool
ascii_alnum c = (leb 48 c && leb c 57) || (leb 65 c && leb c 90) || (leb 97 c && leb c 122)

abbrev one_part : List OwnedRow → Digest
one_part rows = record { body = "text"; body_hash = "h"; parts = "text" ∷ [] }

abbrev coverage : Coverage
coverage = record {
  total = some 4;
  unchanged_or_healthy = some 1;
  already_recorded = some 1;
  selected = some 2;
  overflow = some 0;
  policy_review = some 0;
}

abbrev staged_run : Summary
staged_run = record {
  run_id = "run";
  report = some (record { channel = "email"; destination = "k"; coverage = coverage } ∷ []);
}

abbrev summary : Option Summary
summary = some staged_run

abbrev sent_db : Db
sent_db = after ascii_alnum owner (Call.begins "e" "t" 3) (
    after ascii_alnum owner (Call.claims "e" destination "t" 2 60) (
      after ascii_alnum owner (Call.prepares destination (1 ∷ []) one_part summary "e" 1)
        staged_db))

-- The provider takes it once, refuses it, and gets it again.
abbrev resent_db : Db
resent_db = after ascii_alnum owner (Call.begins "e" "u" 900) (
    after ascii_alnum owner (Call.claims "e" destination "u" 800 600) (
      after ascii_alnum owner
        (Call.finishes "e" "t" 0
          (record { outcome = Outcome.not_sent; evidence = "refused"; retry_after = 0 }) 4)
        sent_db))

resent-Reached : Reached ascii_alnum resent_db
resent-Reached =
    Reached.called
      (Reached.called
        (Reached.called
          (Reached.called
            (Reached.called (Reached.called (Reached.fresh {db = staged_db} refl refl) owner _)
              owner _)
            owner _)
          owner _)
        owner _)
      owner _

abbrev resent_part : Part
resent_part = record {
  envelope = "e";
  ordinal = 0;
  body = "text";
  status = PartStatus.sending;
  attempts = 2;
  available = 64;
}

resent_finds : find_part "e" 0 resent_db.parts ≡ some resent_part
unfolding after prepare claim begin_part finish_part transaction pure raise gets or_raise raise_if
    modify ◌>>=◌ backoff is_identifier
resent_finds = refl

reached_no_blind_retry_example : 2 ≤ refusals "e" 0 resent_db.part_events + 1
reached_no_blind_retry_example =
    reached_no_blind_retry ascii_alnum resent_db resent-Reached "e" 0 resent_part resent_finds

plan_dispatch-slot_example :
    (length (plan_dispatch ("a" ∷ "b" ∷ []) (some "b") 2) ≤ max 1 2)
    × ((older : List String) × (plan_dispatch ("a" ∷ "b" ∷ []) (some "b") 2 ≡ older ++ "b" ∷ [])
        × (contains "b" older ≡ false))
plan_dispatch-slot_example = plan_dispatch-slot ("a" ∷ "b" ∷ []) "b" 2

abbrev same_hash : String → String
same_hash body = "h"

abbrev accepts : Part → Reply
accepts p =
    Reply.receipt (record { outcome = Outcome.accepted; evidence = "accepted"; retry_after = 0 })

abbrev refuses : Part → Reply
refuses p =
    Reply.receipt (record { outcome = Outcome.not_sent; evidence = "refused"; retry_after = 0 })

abbrev first_turn : Turn
first_turn = record {
  destination = destination;
  token = "t";
  at_claim = 5;
  at_begin = 6;
  at_finish = 7;
}

abbrev second_turn : Turn
second_turn = record {
  destination = destination;
  token = "u";
  at_claim = 8;
  at_begin = 9;
  at_finish = 10;
}

dispatch_envelope-IsVerified_example :
    ((dispatch_envelope same_hash owner "e" accepts "k" "h" (first_turn ∷ []) sent_db).1 ≡ sent_db)
    ⊎ IsVerified same_hash owner "e" "k" "h" sent_db
dispatch_envelope-IsVerified_example =
    dispatch_envelope-IsVerified same_hash owner "e" accepts "k" "h" (first_turn ∷ []) sent_db

abbrev one_turn : String → List Turn
one_turn env = first_turn ∷ []

abbrev one_run : Run
one_run = record {
  at_expire = 1;
  at_ready = 2;
  at_select = 3;
  at_prepare = 4;
  render = one_part;
  summary = staged_run;
  new_envelope = "e";
  turns = one_turn;
}

one_run_delivers :
    (deliver_destination same_hash owner destination accepts one_run 4 100 staged_db).0
    ≡ ok (("e", EnvelopeStatus.accepted) ∷ [])
unfolding deliver_destination after prepare claim begin_part finish_part transaction pure raise gets
    or_raise raise_if modify ◌>>=◌ backoff is_identifier
one_run_delivers = refl

deliver_destination_within_limit_example : 1 ≤ max 4 1
deliver_destination_within_limit_example =
    deliver_destination_within_limit same_hash owner destination accepts one_run 4 100 staged_db
      (("e", EnvelopeStatus.accepted) ∷ []) one_run_delivers

join-chunk_example : join (chunk (97 ∷ 128512 ∷ [])) ≡ 97 ∷ 128512 ∷ []
join-chunk_example = join-chunk (97 ∷ 128512 ∷ [])

telegram_parts-IsSendable_example : All (λ c. units_of c ≤ 4096) (telegram_parts (97 ∷ 128512 ∷ []))
unfolding telegram_parts chunk cut_each cut_char
telegram_parts-IsSendable_example = telegram_parts-IsSendable (97 ∷ 128512 ∷ []) (omega arith)

abbrev offer : String → Entry
offer title = record {
  title = title;
  company = some "Acme";
  host = none;
  source = none;
  url = none;
  band = none;
}

abbrev offers : List Entry
offers = offer "a" ∷ offer "b" ∷ offer "c" ∷ offer "d" ∷ offer "e" ∷ offer "f" ∷ offer "g" ∷ []

overflow_lines-jobs_example : jobs (overflow_lines 9 offers) ≡ 9
overflow_lines-jobs_example = overflow_lines-jobs 9 offers (omega arith) (omega arith)

overflow_lines_bounds_example :
    (count is_job (overflow_lines 9 offers) ≤ 40)
    × (count (is_job_of "Acme") (overflow_lines 9 offers) ≤ 5)
overflow_lines_bounds_example = overflow_lines_bounds 9 offers "Acme"
