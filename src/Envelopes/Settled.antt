-- ===== src/Envelopes/Settled.antt =====
-- The methods of `DigestTransport` that settle or abandon parts keep the account of sends.
use job_hound.Base.{ℕ, ◌≡◌, refl, ◌∙◌, String, Bool, true, List, [], ◌∷◌, ◌++◌}
use job_hound.Outbox.Rows.{Owner, Envelope, PartStatus, Part, PartEvent}
use job_hound.Outbox.Monad.{Error}
use job_hound.Outbox.Queries.{OwnedRow}
use job_hound.Outbox.Settle.{Outcome}
use job_hound.Outbox.Triples.{
  Triple, bind_lem, keep_then, gets_then, or_raise_then, check_then, modify_then, pure_lem,
}
use job_hound.Envelopes.Reads.{is_waiting, is_sending, is_uncertain}
use job_hound.Envelopes.Writes.{record_part_event, update_part}
use job_hound.Envelopes.Settling.{
  Receipt, part_status, part_event, accept_each, accept_envelope, set_outcome, settle_part,
  expect_part, settle_sent, settle_doubted, abandon_each, abandon_body, holds_lease, is_doubted,
}
use job_hound.Envelopes.Quiet.{
  Quiet, OnParts, Quiet-bind, Quiet-pure, Quiet-gets, Quiet-if, Quiet-owned_envelope, Quiet-members,
  Quiet-set_state, Quiet-set_intents, Quiet-settle,
}
use job_hound.Envelopes.Keys.{found-home}
use job_hound.Envelopes.Sends.{IsAccounted, settle-IsAccounted, is_refusal}
use job_hound.Envelopes.Methods.{Sound, Quiet-Sound, record_part_event-Sound}

Quiet-accept_each :
    (o : Owner) (env : String) (now : ℕ) (rows : List OwnedRow) → Quiet (accept_each o env now rows)
unfolding accept_each
Quiet-accept_each o env now [] = Quiet-pure tt
Quiet-accept_each o env now (row ∷ rows) =
    Quiet-bind (Quiet-settle o row Outcome.accepted _ now) (λ _. Quiet-accept_each o env now rows)

Quiet-accept_envelope : (o : Owner) (env : String) (now : ℕ) → Quiet (accept_envelope o env now)
unfolding accept_envelope
Quiet-accept_envelope o env now =
    Quiet-bind (Quiet-set_state env _)
      (λ _. Quiet-bind (Quiet-members o env) (λ rows. Quiet-accept_each o env now rows))

Quiet-set_outcome :
    (o : Owner) (env : String) (s : PartStatus) (now : ℕ) → Quiet (set_outcome o env s now)
unfolding set_outcome
Quiet-set_outcome o env s now = Quiet-bind (Quiet-gets _) (λ done.
    Quiet-if done (Quiet-accept_envelope o env now)
      (Quiet-bind (Quiet-set_state env _) (λ _. Quiet-set_intents o env _ now)))

-- Only a refusal lets a part wait again.
part_status-waits :
    (outcome : Outcome) (attempts limit : ℕ)
    → is_waiting (part_status outcome attempts limit) ≡ true
    → is_refusal (part_event outcome) ≡ true
part_status-waits Outcome.accepted attempts limit h = cc
part_status-waits Outcome.not_sent attempts limit h = refl
part_status-waits Outcome.uncertain attempts limit h = cc
part_status-waits Outcome.permanent_failure attempts limit h = cc

settle_part-Sound :
    (o : Owner) (env : String) (p : Part) (r : Receipt) (now : ℕ)
    → p.envelope ≡ env
    → Sound (settle_part o env p r now)
unfolding settle_part update_part record_part_event
settle_part-Sound o env p r now own = keep_then (Quiet-Sound (Quiet-members o env)) (λ rows.
    or_raise_then _ (λ limit _.
      modify_then (OnParts (λ ps es. IsAccounted ps (es ++ settled_event ∷ [])))
        (λ db h.
          settle-IsAccounted env p.ordinal _ _ db.parts db.part_events settled_event own refl
            (part_status-waits r.outcome p.attempts limit) h)
        (modify_then (OnParts IsAccounted) (λ db h. h)
          (Quiet-Sound (Quiet-set_outcome o env _ now)))))
  where
    settled_event : PartEvent
    settled_event = record {
      envelope = p.envelope;
      ordinal = p.ordinal;
      attempt = p.attempts;
      event = part_event r.outcome;
      evidence = r.evidence;
      created = now;
    }

-- The part that a receipt names is the envelope's.
expect_part-Sound :
    (o : Owner) (env : String) (ordinal : ℕ) (wanted : Envelope → Bool) (state : PartStatus → Bool)
    (e : Error)
    → Triple
        (OnParts IsAccounted)
        (expect_part o env ordinal wanted state e)
        (λ p db. OnParts IsAccounted db × (p.envelope ≡ env))
unfolding expect_part
expect_part-Sound o env ordinal wanted state e =
    keep_then (Quiet-Sound (Quiet-owned_envelope o env)) (λ row. gets_then (λ found.
      or_raise_then e (λ p at.
        check_then _ e (λ _. pure_lem p (λ db h. (h.0, found-home env _ db.parts p (h.1 ∙ at)))))))

settle_expected-Sound :
    (o : Owner) (env : String) (p : Part) (r : Receipt) (now : ℕ)
    → Triple
        (λ db. OnParts IsAccounted db × (p.envelope ≡ env))
        (settle_part o env p r now)
        (λ _. OnParts IsAccounted)
settle_expected-Sound o env p r now = record {
  run = λ db h. (settle_part-Sound o env p r now h.1).run db h.0;
}

pub settle_sent-Sound :
    (o : Owner) (env token : String) (ordinal : ℕ) (r : Receipt) (now : ℕ)
    → Sound (settle_sent o env token ordinal r now)
unfolding settle_sent
settle_sent-Sound o env token ordinal r now =
    bind_lem _ (expect_part-Sound o env ordinal (holds_lease token) is_sending _)
      (λ p. settle_expected-Sound o env p r now)

pub settle_doubted-Sound :
    (o : Owner) (env : String) (ordinal : ℕ) (r : Receipt) (now : ℕ)
    → Sound (settle_doubted o env ordinal r now)
unfolding settle_doubted
settle_doubted-Sound o env ordinal r now =
    bind_lem _ (expect_part-Sound o env ordinal (λ e. is_doubted e.status) is_uncertain _)
      (λ p. settle_expected-Sound o env p r now)

abandon_each-Sound :
    (evidence : String) (now : ℕ) (ps : List Part) → Sound (abandon_each evidence now ps)
unfolding abandon_each
abandon_each-Sound evidence now [] = Quiet-Sound (Quiet-pure tt)
abandon_each-Sound evidence now (p ∷ ps) =
    keep_then (record_part_event-Sound p _ evidence now) (λ _. abandon_each-Sound evidence now ps)

pub abandon_body-Sound :
    (o : Owner) (env evidence : String) (now : ℕ) → Sound (abandon_body o env evidence now)
unfolding abandon_body
abandon_body-Sound o env evidence now = keep_then (Quiet-Sound (Quiet-owned_envelope o env)) (λ row.
    check_then _ _ (λ _. keep_then (Quiet-Sound (Quiet-set_state env _)) (λ _.
      keep_then (Quiet-Sound (Quiet-set_intents o env _ now)) (λ _.
        keep_then (Quiet-Sound (Quiet-gets _)) (λ parts. abandon_each-Sound evidence now parts)))))
