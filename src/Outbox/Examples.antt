-- ===== src/Outbox/Examples.antt =====
-- Runs of the outbox on small inputs.
use job_hound.Base.{ℕ, String, true, ◌≡◌, refl, [], ◌∷◌, none, some}
use job_hound.Outbox.Rows.{Owner, Destination, Status, Intent}
use job_hound.Outbox.Monad.{transaction, pure, raise, gets, or_raise, raise_if, modify, ◌>>=◌}
use job_hound.Outbox.Queries.{find_intent}
use job_hound.Outbox.Identity.{is_identifier}
use job_hound.Outbox.Revise.{Snapshot, revise}
use job_hound.Outbox.Enqueue.{enqueue}
use job_hound.Outbox.History.{
  Call, Trace, Setting, run, after, reached, reached_no_stale_card, reached-IsWellFormed,
}
use job_hound.Outbox.Soundness.{IsCurrentCard, IsWellFormed}

abbrev owner : Owner
owner = record { workspace = "w"; profile = "p" }

abbrev destination : Destination
destination = record {
  channel = "email";
  key = "0123456789abcdef0123456789abcdef0123456789abcdef0123456789abcdef";
}

abbrev card : String → String → ℕ → Snapshot
card id material at = record {
  fresh = id;
  material = material;
  policy = "{}";
  run_id = "run";
  as_of = at;
  now = at;
}

abbrev setting : Setting
setting = record { notifications = none; envelopes = []; envelope_items = []; writable = true }

abbrev staged : Trace
staged =
    (owner, Call.stage_revision "job" (card "r1" "A" 10))
    ∷ (owner, Call.stage_intent "r1" destination "{}" 10 3)
    ∷ []

abbrev staged_intent : Intent
staged_intent = record {
  id = 1;
  revision = "r1";
  destination = destination;
  status = Status.pending;
  payload = "{}";
  attempts = 0;
  max_attempts = 3;
  available = 10;
  token = none;
  lease_until = none;
  generation = 0;
}

staged_finds : find_intent 1 (reached setting staged).intents ≡ some staged_intent
unfolding run after revise enqueue transaction pure raise gets or_raise raise_if modify ◌>>=◌
    is_identifier
staged_finds = refl

reached_no_stale_card_example :
    IsCurrentCard (reached setting staged).revisions (reached setting staged).subjects staged_intent
reached_no_stale_card_example =
    reached_no_stale_card setting staged 1 staged_intent staged_finds refl

reached-IsWellFormed_example : IsWellFormed staged_intent
reached-IsWellFormed_example = reached-IsWellFormed setting staged 1 staged_intent staged_finds
