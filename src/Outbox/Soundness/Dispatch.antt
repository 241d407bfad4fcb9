-- ===== src/Outbox/Soundness/Dispatch.antt =====
-- `dispatch_fake` keeps the outbox sound, whatever the sender does.
use job_hound.Base.{ℕ, String, Option, none, some}
use job_hound.Outbox.Rows.{Owner, Destination}
use job_hound.Outbox.Queries.{OwnedRow}
use job_hound.Outbox.Dispatch.{Receipt, dispatch_fake, dispatch_row, send_claimed}
use job_hound.Outbox.Keeps.{Keeps, Keeps-bind, Keeps-pure, Keeps-raise}
use job_hound.Outbox.Soundness.{IsSound}
use job_hound.Outbox.Soundness.Leases.{claim_next-IsSound, begin_send-IsSound}
use job_hound.Outbox.Soundness.Settle.{finish-IsSound}

send_claimed-IsSound :
    (o : Owner) (sender : String → Receipt) (at_send at_finish : ℕ) (row : OwnedRow)
    (token : Option String)
    → Keeps IsSound (send_claimed o sender at_send at_finish row token)
unfolding send_claimed
send_claimed-IsSound o sender at_send at_finish row none = Keeps-raise _
send_claimed-IsSound o sender at_send at_finish row (some token) =
    Keeps-bind (begin_send-IsSound o row.intent.id token at_send)
      (λ _. Keeps-bind (finish-IsSound o row.intent.id token _ _ at_finish) (λ _. Keeps-pure _))

dispatch_row-IsSound :
    (o : Owner) (sender : String → Receipt) (at_send at_finish : ℕ) (row : Option OwnedRow)
    → Keeps IsSound (dispatch_row o sender at_send at_finish row)
unfolding dispatch_row
dispatch_row-IsSound o sender at_send at_finish none = Keeps-pure _
dispatch_row-IsSound o sender at_send at_finish (some row) =
    send_claimed-IsSound o sender at_send at_finish row row.intent.token

pub dispatch_fake-IsSound :
    (o : Owner) (d : Destination) (sender : String → Receipt) (token : String)
    (at_claim at_send at_finish : ℕ)
    → Keeps IsSound (dispatch_fake o d sender token at_claim at_send at_finish)
unfolding dispatch_fake
dispatch_fake-IsSound o d sender token at_claim at_send at_finish =
    Keeps-bind (claim_next-IsSound o d token at_claim 60)
      (λ row. dispatch_row-IsSound o sender at_send at_finish row)
