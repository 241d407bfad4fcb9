-- ===== src/Outbox/Dispatch.antt =====
-- `dispatch_fake` of jobhound/delivery_outbox.py: one claim, one send and its settlement. The sender
-- is a parameter, and so are the three readings of the clock.
use job_hound.Base.{ℕ, String, Option, none, some, if◌then◌else◌}
use job_hound.Outbox.Rows.{Owner, Destination}
use job_hound.Outbox.Monad.{Action, pure, raise, ◌>>=◌, ◌>>◌, Error}
use job_hound.Outbox.Queries.{OwnedRow}
use job_hound.Outbox.Identity.{is_identifier}
use job_hound.Outbox.Leases.{claim_next, begin_send}
use job_hound.Outbox.Settle.{Outcome, finish}

-- What the awaited sender does: it raises, returns what is no known outcome, or returns a receipt.
pub data Receipt : Type 0 where
  raised invalid : Receipt
  receipt : Outcome → String → Receipt

-- The outcome and evidence that are settled.
pub record Verdict : Type 0 where
  pub outcome : Outcome
  pub evidence : String

abbrev pub uncertain_verdict : Verdict
uncertain_verdict = record { outcome = Outcome.uncertain; evidence = "sender_exception" }

unfoldable pub verdict : Receipt → Verdict
verdict (Receipt.receipt outcome evidence) =
    if is_identifier evidence
    then record { outcome = outcome; evidence = evidence }
    else uncertain_verdict
verdict _ = uncertain_verdict

unfoldable pub send_claimed :
    Owner → (String → Receipt) → ℕ → ℕ → OwnedRow → Option String → Action (Option Outcome)
unfolding begin_send finish verdict
send_claimed o sender at_send at_finish row none = raise Error.type_error
send_claimed o sender at_send at_finish row (some token) = do
  begin_send o row.intent.id token at_send
  let v = verdict (sender row.intent.payload)
  finish o row.intent.id token v.outcome v.evidence at_finish
  pure (some v.outcome)

unfoldable pub dispatch_row :
    Owner → (String → Receipt) → ℕ → ℕ → Option OwnedRow → Action (Option Outcome)
unfolding send_claimed
dispatch_row o sender at_send at_finish none = pure none
dispatch_row o sender at_send at_finish (some row) =
    send_claimed o sender at_send at_finish row row.intent.token

-- `dispatch_fake`
unfoldable pub dispatch_fake :
    Owner → Destination → (String → Receipt) → String → ℕ → ℕ → ℕ → Action (Option Outcome)
unfolding dispatch_row claim_next
dispatch_fake o d sender token at_claim at_send at_finish = do
  row ← claim_next o d token at_claim 60
  dispatch_row o sender at_send at_finish row
