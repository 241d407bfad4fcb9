-- ===== src/Envelopes/Runs.antt =====
-- `inspect`, `ready_envelopes`, `plan_dispatch`, `dispatch_envelope` and `deliver_destination` of
-- jobhound/delivery_transport.py. The sender, the hash of a text, the tokens and the readings of the
-- clock are arguments.
use job_hound.Base.{
  ℕ, ◌-◌, String, Bool, true, false, not, ◌&&◌, ◌||◌, Option, none, some, List, [], ◌∷◌, ◌++◌, ltb,
  leb, ◌==◌, str_eq, text_before, codes_before, codes, any, filter, map, take, length, is_some,
  if◌then◌else◌,
}
use job_hound.Outbox.Rows.{
  Owner, same_owner, Destination, same_destination, EnvelopeStatus, Envelope, Part,
}
use job_hound.Outbox.Monad.{Action, ⊤, pure, gets, ◌>>=◌, ◌>>◌, raise_if, Error}
use job_hound.Outbox.Queries.{OwnedRow}
use job_hound.Outbox.Settle.{Outcome}
use job_hound.Envelopes.Reads.{owned_envelope, members, parts_of, deliverable_intents, is_waiting}
use job_hound.Envelopes.Claims.{is_pending_envelope, expire_leases, claim, begin_part}
use job_hound.Envelopes.Settling.{Receipt, finish_part}
use job_hound.Envelopes.Summaries.{Summary}
use job_hound.Envelopes.Drafts.{Digest, prepare}
use job_hound.Envelopes.Chunks.{telegram_parts}

-- `inspect`
pub record View : Type 0 where
  pub envelope : Envelope
  pub parts : List Part
  pub intents : List ℕ

unfoldable pub inspect : Owner → String → Action View
unfolding owned_envelope members
inspect o env = do
  row ← owned_envelope o env
  parts ← gets (λ db. parts_of env db.parts)
  rows ← members o env
  pure (record { envelope = row; parts = parts; intents = map (λ r. r.intent.id) rows })

-- `ORDER BY e.created,e.id`
abbrev pub is_earlier : Envelope → Envelope → Bool
is_earlier a b = ltb a.created b.created || a.created == b.created && text_before a.id b.id

unfoldable pub insert_envelope : Envelope → List Envelope → List Envelope
insert_envelope e [] = e ∷ []
insert_envelope e (f ∷ fs) =
    let rest = insert_envelope e fs in if is_earlier e f then e ∷ f ∷ fs else f ∷ rest

unfoldable pub in_order : List Envelope → List Envelope
unfolding insert_envelope
in_order [] = []
in_order (e ∷ es) = insert_envelope e (in_order es)

abbrev pub is_ready_part : ℕ → String → Part → Bool
is_ready_part now env p = str_eq p.envelope env && is_waiting p.status && leb p.available now

abbrev pub is_ready : Owner → Destination → ℕ → List Part → Envelope → Bool
is_ready o d now parts e =
    same_owner e.owner o
    && same_destination e.destination d
    && is_pending_envelope e.status
    && any (is_ready_part now e.id) parts

-- `ready_envelopes`
unfoldable pub ready_envelopes : Owner → Destination → ℕ → ℕ → Action (List String)
unfolding in_order
ready_envelopes o d now limit = do
  raise_if (not (leb 1 limit && leb limit 16)) Error.invalid_limit
  gets (λ db.
      map (λ e. e.id) (take limit (in_order (filter (is_ready o d now db.parts) db.envelopes))))

abbrev pub is_other : Option String → String → Bool
is_other none e = true
is_other (some c) e = not (str_eq e c)

-- `plan_dispatch`
unfoldable pub plan_dispatch : List String → Option String → ℕ → List String
plan_dispatch ready none limit = take limit (filter (is_other none) ready)
plan_dispatch ready (some c) limit = take (limit - 1) (filter (is_other (some c)) ready) ++ c ∷ []

-- What the awaited sender does.
pub data Reply : Type 0 where
  raised invalid : Reply
  receipt : Receipt → Reply

unfoldable pub receipt_of : Reply → Receipt
receipt_of (Reply.receipt r) = r
receipt_of Reply.invalid = record {
  outcome = Outcome.uncertain;
  evidence = "invalid_sender_receipt";
  retry_after = 0;
}
receipt_of Reply.raised = record {
  outcome = Outcome.uncertain;
  evidence = "sender_exception";
  retry_after = 0;
}

abbrev pub is_acceptance : Outcome → Bool
is_acceptance Outcome.accepted = true
is_acceptance _ = false

-- What one turn of the loop reads: the notifier's destination, a token and the clock.
pub record Turn : Type 0 where
  pub destination : Destination
  pub token : String
  pub at_claim : ℕ
  pub at_begin : ℕ
  pub at_finish : ℕ

unfoldable pub send_part : Owner → String → (Part → Reply) → Turn → Option Part → Action Bool
unfolding finish_part receipt_of
send_part o env sender t none = pure false
send_part o env sender t (some p) = do
  let r = receipt_of (sender p)
  finish_part o env t.token p.ordinal r t.at_finish
  pure (is_acceptance r.outcome)

-- One turn: whether the loop goes on.
unfoldable pub take_turn : Owner → String → (Part → Reply) → Turn → Action Bool
unfolding claim begin_part send_part
take_turn o env sender t = do
  token ← claim o env t.destination t.token t.at_claim 180
  if is_some token
      then (do part ← begin_part o env t.token t.at_begin; send_part o env sender t part)
      else pure false

unfoldable pub take_turns : Owner → String → (Part → Reply) → List Turn → Action ⊤
unfolding take_turn
take_turns o env sender [] = pure tt
take_turns o env sender (t ∷ ts) = do
  more ← take_turn o env sender t
  if more then take_turns o env sender ts else pure tt

unfoldable pub same_texts : List (List ℕ) → List (List ℕ) → Bool
same_texts [] [] = true
same_texts (a ∷ xs) (b ∷ bs) = not (codes_before a b) && not (codes_before b a) && same_texts xs bs
same_texts _ _ = false

-- The parts that the frozen body should have.
abbrev pub expected_parts : Envelope → List (List ℕ)
expected_parts e =
    if str_eq e.destination.channel "telegram"
    then telegram_parts (codes e.body)
    else codes e.body ∷ []

-- `dispatch_envelope`, for as many turns as `max_parts`
unfoldable pub dispatch_envelope :
    (String → String)
    → Owner
    → String
    → (Part → Reply)
    → String
    → String
    → List Turn
    → Action EnvelopeStatus
unfolding inspect take_turns same_texts telegram_parts
dispatch_envelope hash o env sender confirm_target confirm_body turns = do
  raise_if (not (← gets (λ db. db.writable))) Error.review_forbids
  raise_if (not (leb 1 (length turns) && leb (length turns) 32)) Error.invalid_limit
  initial ← inspect o env
  raise_if
      (not (str_eq confirm_target initial.envelope.destination.key)
        || not (str_eq confirm_body initial.envelope.body_hash))
      Error.unconfirmed_dispatch
  raise_if (not (str_eq (hash initial.envelope.body) confirm_body)) Error.frozen_integrity_failure
  raise_if
      (not (same_texts (map (λ p. codes p.body) initial.parts) (expected_parts initial.envelope)))
      Error.frozen_integrity_failure
  take_turns o env sender turns
  final ← inspect o env
  pure final.envelope.status

-- The inner `send` of `deliver_destination`
unfoldable pub send_previewed :
    (String → String)
    → Owner
    → (Part → Reply)
    → (String → List Turn)
    → String
    → Action EnvelopeStatus
unfolding inspect dispatch_envelope
send_previewed hash o sender turns env = do
  preview ← inspect o env
  dispatch_envelope hash o env sender preview.envelope.destination.key preview.envelope.body_hash
      (turns env)

unfoldable pub send_all :
    (String → String)
    → Owner
    → (Part → Reply)
    → (String → List Turn)
    → List String
    → Action (List (String × EnvelopeStatus))
unfolding send_previewed
send_all hash o sender turns [] = pure []
send_all hash o sender turns (env ∷ envs) = do
  status ← send_previewed hash o sender turns env
  rest ← send_all hash o sender turns envs
  pure ((env, status) ∷ rest)

-- The readings of the clock by a run, its summary, and what is new to it.
pub record Run : Type 0 where
  pub at_expire : ℕ
  pub at_ready : ℕ
  pub at_select : ℕ
  pub at_prepare : ℕ
  pub render : List OwnedRow → Digest
  pub summary : Summary
  pub new_envelope : String
  pub turns : String → List Turn

unfoldable pub send_new :
    (String → String)
    → Owner
    → Destination
    → (Part → Reply)
    → Run
    → List ℕ
    → Action (List (String × EnvelopeStatus))
unfolding prepare send_all
send_new hash o d sender run [] = pure []
send_new hash o d sender run (id ∷ ids) = do
  env ← prepare o d (id ∷ ids) run.render (some run.summary) run.new_envelope run.at_prepare
  send_all hash o sender run.turns (env ∷ [])

-- `deliver_destination`
unfoldable pub deliver_destination :
    (String → String)
    → Owner
    → Destination
    → (Part → Reply)
    → Run
    → ℕ
    → ℕ
    → Action (List (String × EnvelopeStatus))
unfolding expire_leases ready_envelopes plan_dispatch send_all deliverable_intents send_new
deliver_destination hash o d sender run limit max_intents = do
  expire_leases o d run.at_expire
  retries ← ready_envelopes o d run.at_ready 16
  sent ← send_all hash o sender run.turns (plan_dispatch retries none (limit - 1))
  intents ← deliverable_intents o d run.at_select max_intents
  new ← send_new hash o d sender run intents
  pure (sent ++ new)
