-- ===== src/Envelopes/Methods.antt =====
-- What expires, claims and begins an envelope keeps the account of sends.
use job_hound.Base.{
  ℕ, ◌≡◌, refl, String, true, not, ◌&&◌, ◌||◌, Option, none, some, List, [], ◌∷◌, leb, ltb,
  not-false, or-false,
}
use job_hound.Outbox.Rows.{Owner, Destination, Envelope, PartStatus, Part, PartEventName, PartEvent}
use job_hound.Outbox.Monad.{Action}
use job_hound.Outbox.Queries.{OwnedRow}
use job_hound.Outbox.Triples.{
  Triple, keep_then, gets_then, or_raise_then, check_then, modify_then, modify_lem, pure_lem,
  if_lem, weaken,
}
use job_hound.Envelopes.Reads.{next_part, is_waiting}
use job_hound.Envelopes.Writes.{
  record_part_event, update_part, doubt_parts, expire_leased, expire_envelope, is_leased_envelope,
}
use job_hound.Envelopes.Claims.{
  release_each, retire, is_stale, expire_each, expire_all, lease_each, lease_envelope, claim_fresh,
  claim_pending, claim_body, send_each, is_pending_envelope, start_sending_part, fail_envelope,
  begin_next, begin_leased, begin_part_body,
}
use job_hound.Outbox.Leases.{lapsed, has_token}
use job_hound.Envelopes.Quiet.{
  Quiet, quieting, OnParts, quiet_lem, Quiet-bind, Quiet-pure, Quiet-gets, Quiet-if,
  Quiet-owned_envelope, Quiet-members, Quiet-set_state, Quiet-set_intents, Quiet-update_intent,
  Quiet-update_envelope, Quiet-record_event,
}
use job_hound.Envelopes.Sends.{IsAccounted, IsAccounted-event, doubt-IsAccounted, start-IsAccounted}

abbrev pub Sound : {A : Type 0} → Action A → Type 0
Sound m = Triple (OnParts IsAccounted) m (λ _. OnParts IsAccounted)

pub Quiet-Sound : {A : Type 0} {m : Action A} → Quiet m → Sound m
Quiet-Sound q = quiet_lem IsAccounted q

pub record_part_event-Sound :
    (p : Part) (name : PartEventName) (evidence : String) (now : ℕ)
    → Sound (record_part_event p name evidence now)
unfolding record_part_event
record_part_event-Sound p name evidence now =
    modify_lem _ (λ db h. IsAccounted-event db.parts db.part_events _ h)

doubt_parts-Sound : (now : ℕ) (ps : List Part) → Sound (doubt_parts now ps)
unfolding doubt_parts update_part
doubt_parts-Sound now [] = Quiet-Sound (Quiet-pure _)
doubt_parts-Sound now (p ∷ ps) =
    modify_then (OnParts IsAccounted)
      (λ db h.
        doubt-IsAccounted p.envelope p.ordinal PartStatus.uncertain db.parts db.part_events refl h)
      (keep_then (record_part_event-Sound p _ _ now) (λ _. doubt_parts-Sound now ps))

expire_leased-Sound : (o : Owner) (env : String) (now : ℕ) → Sound (expire_leased o env now)
unfolding expire_leased
expire_leased-Sound o env now = keep_then (Quiet-Sound (Quiet-gets _)) (λ sending.
    keep_then (doubt_parts-Sound now sending) (λ _.
      keep_then (Quiet-Sound (Quiet-set_state env _))
        (λ _. Quiet-Sound (Quiet-set_intents o env _ now))))

pub expire_envelope-Sound : (o : Owner) (env : String) (now : ℕ) → Sound (expire_envelope o env now)
unfolding expire_envelope
expire_envelope-Sound o env now = keep_then (Quiet-Sound (Quiet-owned_envelope o env)) (λ row.
    if_lem {c = is_leased_envelope row.status && lapsed now row.lease_until}
      (λ _. expire_leased-Sound o env now) (λ _. Quiet-Sound (Quiet-pure tt)))

Quiet-release_each :
    (o : Owner) (env : String) (now : ℕ) (rows : List OwnedRow)
    → Quiet (release_each o env now rows)
unfolding release_each
Quiet-release_each o env now [] = search quieting
Quiet-release_each o env now (row ∷ rows) = Quiet-bind (Quiet-gets _) (λ current.
    Quiet-bind (Quiet-update_intent _ _)
      (λ _. Quiet-bind (Quiet-record_event o _ _ _ _) (λ _. Quiet-release_each o env now rows)))

Quiet-is_stale : (o : Owner) (env : String) (now : ℕ) → Quiet (is_stale o env now)
unfolding is_stale retire
Quiet-is_stale o env now = Quiet-bind (Quiet-members o env) (λ rows.
    Quiet-bind (Quiet-gets _) (λ current. Quiet-if current (Quiet-pure _) (
      Quiet-bind (Quiet-gets _) (λ partial. Quiet-bind (Quiet-set_state env _) (λ _.
        Quiet-bind
          (Quiet-if partial (Quiet-set_intents o env _ now)
            (Quiet-bind (Quiet-members o env) (λ rows. Quiet-release_each o env now rows)))
          (λ _. Quiet-pure _))))))

Quiet-lease_each :
    (token : String) (until : ℕ) (rows : List OwnedRow) → Quiet (lease_each token until rows)
unfolding lease_each
Quiet-lease_each token until [] = search quieting
Quiet-lease_each token until (row ∷ rows) =
    Quiet-bind (Quiet-update_intent _ _) (λ _. Quiet-lease_each token until rows)

Quiet-claim_pending :
    (o : Owner) (env token : String) (now until : ℕ) → Quiet (claim_pending o env token now until)
unfolding claim_pending claim_fresh lease_envelope
Quiet-claim_pending o env token now until = Quiet-bind (Quiet-is_stale o env now) (λ stale.
    Quiet-if stale (Quiet-pure _) (
      Quiet-bind (Quiet-members o env) (λ rows. Quiet-bind (Quiet-gets _) (λ taken.
        Quiet-bind (Quiet-gets _) (λ due. Quiet-if (taken || not due) (Quiet-pure _) (
          Quiet-bind (Quiet-update_envelope env _) (λ _.
            Quiet-bind (Quiet-members o env)
              (λ rows. Quiet-bind (Quiet-lease_each token until rows) (λ _. Quiet-pure _)))))))))

pub claim_body-Sound :
    (o : Owner) (env : String) (d : Destination) (token : String) (now until : ℕ)
    → Sound (claim_body o env d token now until)
unfolding claim_body
claim_body-Sound o env d token now until = keep_then (expire_envelope-Sound o env now) (λ _.
    keep_then (Quiet-Sound (Quiet-owned_envelope o env)) (λ row. check_then _ _ (λ _.
      if_lem {c = is_pending_envelope row.status}
        (λ _. Quiet-Sound (Quiet-claim_pending o env token now until))
        (λ _. Quiet-Sound (Quiet-pure none)))))

Quiet-send_each : (rows : List OwnedRow) → Quiet (send_each rows)
unfolding send_each
Quiet-send_each [] = search quieting
Quiet-send_each (row ∷ rows) = Quiet-bind (Quiet-update_intent _ _) (λ _. Quiet-send_each rows)

-- The part that is next, and waiting.
abbrev IsNext : String → Part → List Part → List PartEvent → Type 0
IsNext env p ps es = IsAccounted ps es × (next_part env ps ≡ some p)

start_sending_part-Sound :
    (o : Owner) (env : String) (p : Part) (now : ℕ)
    → is_waiting p.status ≡ true
    → Triple (OnParts (IsNext env p)) (start_sending_part o env p now) (λ _. OnParts IsAccounted)
unfolding start_sending_part update_part
start_sending_part-Sound o env p now w =
    modify_then (OnParts IsAccounted)
      (λ db h. start-IsAccounted env _ db.parts p db.part_events h.1 w h.0)
      (keep_then (Quiet-Sound (Quiet-members o env)) (λ rows.
        keep_then (Quiet-Sound (Quiet-send_each rows)) (λ _.
          keep_then (Quiet-Sound (Quiet-gets _)) (λ found. or_raise_then _ (λ q _.
            keep_then (record_part_event-Sound q _ _ now) (λ _. Quiet-Sound (Quiet-pure _)))))))

Quiet-fail_envelope : (o : Owner) (env : String) (now : ℕ) → Quiet (fail_envelope o env now)
unfolding fail_envelope
Quiet-fail_envelope o env now =
    Quiet-bind (Quiet-set_state env _)
      (λ _. Quiet-bind (Quiet-set_intents o env _ now) (λ _. Quiet-pure none))

begin_next-Sound :
    (o : Owner) (env : String) (now : ℕ) (p : Part)
    → Triple (OnParts (IsNext env p)) (begin_next o env now (some p)) (λ _. OnParts IsAccounted)
unfolding begin_next
begin_next-Sound o env now p =
    if_lem {c = not (is_waiting p.status) || ltb now p.available} (λ _. pure_lem none (λ db h. h.0))
      (λ w. keep_then (quiet_lem (IsNext env p) (Quiet-members o env)) (λ rows.
        or_raise_then _ (λ limit _.
          if_lem {c = leb limit p.attempts}
            (λ _.
              weaken (OnParts IsAccounted) (λ db h. h.0)
                (Quiet-Sound (Quiet-fail_envelope o env now)))
            (λ _.
              start_sending_part-Sound o env p now
                (not-false _ (or-false _ (ltb now p.available) w).0)))))

begin_found-Sound :
    (o : Owner) (env : String) (now : ℕ) (part : Option Part)
    → Triple
        (λ db. OnParts IsAccounted db × (next_part env db.parts ≡ part))
        (begin_next o env now part)
        (λ _. OnParts IsAccounted)
unfolding begin_next
begin_found-Sound o env now none = pure_lem none (λ db h. h.0)
begin_found-Sound o env now (some p) = begin_next-Sound o env now p

begin_leased-Sound : (o : Owner) (env : String) (now : ℕ) → Sound (begin_leased o env now)
unfolding begin_leased
begin_leased-Sound o env now = keep_then (Quiet-Sound (Quiet-is_stale o env now)) (λ stale.
    gets_then (λ part.
      if_lem {c = stale} (λ _. pure_lem none (λ db h. h.0))
        (λ _. begin_found-Sound o env now part)))

pub begin_part_body-Sound :
    (o : Owner) (env token : String) (now : ℕ) → Sound (begin_part_body o env token now)
unfolding begin_part_body
begin_part_body-Sound o env token now = keep_then (expire_envelope-Sound o env now) (λ _.
    keep_then (Quiet-Sound (Quiet-owned_envelope o env)) (λ row.
      if_lem {c = is_leased_envelope row.status && has_token token row.token}
        (λ _. begin_leased-Sound o env now) (λ _. Quiet-Sound (Quiet-pure none))))

expire_each-Sound : (o : Owner) (now : ℕ) (es : List Envelope) → Sound (expire_each o now es)
unfolding expire_each
expire_each-Sound o now [] = Quiet-Sound (Quiet-pure tt)
expire_each-Sound o now (e ∷ es) =
    keep_then (expire_envelope-Sound o e.id now) (λ _. expire_each-Sound o now es)

pub expire_all-Sound : (o : Owner) (d : Destination) (now : ℕ) → Sound (expire_all o d now)
unfolding expire_all
expire_all-Sound o d now =
    keep_then (Quiet-Sound (Quiet-gets _)) (λ rows. expire_each-Sound o now rows)
