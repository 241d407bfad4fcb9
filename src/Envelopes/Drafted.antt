-- ===== src/Envelopes/Drafted.antt =====
-- `prepare` and `reissue_unsent` keep the account of sends, and so does a transaction.
use job_hound.Base.{
  ℕ, ◌+◌, refl, ◌∙◌, String, Bool, true, false, Option, none, some, List, [], ◌∷◌, if◌then◌else◌,
}
use job_hound.Outbox.Rows.{Owner, Destination, Db}
use job_hound.Outbox.Monad.{Result, ok, err, Action, modify, transaction, Error}
use job_hound.Outbox.Queries.{OwnedRow}
use job_hound.Outbox.Triples.{Ensures, keep_then, gets_then, check_then, modify_then, if_lem}
use job_hound.Envelopes.Settling.{abandon}
use job_hound.Envelopes.Drafts.{Digest, check_each, add_items, add_parts, freeze, prepare_body}
use job_hound.Envelopes.Summaries.{Summary, check_summary}
use job_hound.Envelopes.Reissue.{
  prove_unsent_draft, prove_each, is_abandoned, abandon_drafts, reissue_each, reissue_body,
}
use job_hound.Envelopes.Quiet.{
  Quiet, OnParts, Quiet-bind, Quiet-pure, Quiet-gets, Quiet-raise_if, Quiet-or_raise,
  Quiet-owned_envelope, Quiet-owned_each, Quiet-members, Quiet-update_intent, Quiet-record_event,
}
use job_hound.Envelopes.Sends.{IsAccounted, IsAccounted-part}
use job_hound.Envelopes.Methods.{Sound, Quiet-Sound}
use job_hound.Envelopes.Settled.{abandon_body-Sound}

Quiet-check_each :
    (o : Owner) (d : Destination) (now : ℕ) (rows : List OwnedRow) → Quiet (check_each o d now rows)
unfolding check_each
Quiet-check_each o d now [] = Quiet-pure tt
Quiet-check_each o d now (row ∷ rows) =
    Quiet-bind (Quiet-gets _)
      (λ ready. Quiet-bind (Quiet-raise_if _ _) (λ _. Quiet-check_each o d now rows))

Quiet-add_items : (env : String) (ids : List ℕ) → Quiet (add_items env ids)
unfolding add_items modify
Quiet-add_items env [] = Quiet-pure tt
Quiet-add_items env (id ∷ ids) = Quiet-bind (Quiet-gets _) (λ taken.
    Quiet-bind (Quiet-raise_if _ _) (λ _.
      Quiet-bind (record { parts = λ db. refl; events = λ db. refl })
        (λ _. Quiet-add_items env ids)))

-- A new part is waiting, was never sent, and has a key of its own.
add_parts-Sound :
    (env : String) (now ordinal : ℕ) (bodies : List String)
    → Sound (add_parts env now ordinal bodies)
unfolding add_parts
add_parts-Sound env now ordinal [] = Quiet-Sound (Quiet-pure tt)
add_parts-Sound env now ordinal (body ∷ bodies) = gets_then (λ taken. check_then taken _ (λ free.
    modify_then (OnParts IsAccounted)
      (λ db h. IsAccounted-part _ db.parts db.part_events refl (h.1 ∙ free) h.0)
      (add_parts-Sound env now (ordinal + 1) bodies)))

freeze-Sound :
    (o : Owner) (d : Destination) (digest : Digest) (env : String) (ids : List ℕ) (now : ℕ)
    → Sound (freeze o d digest env ids now)
unfolding freeze
freeze-Sound o d digest env ids now = keep_then (Quiet-Sound (Quiet-gets _)) (λ taken.
    check_then taken _ (λ _.
      modify_then (OnParts IsAccounted) (λ db h. h)
        (keep_then (Quiet-Sound (Quiet-add_items env ids)) (λ _.
          keep_then (add_parts-Sound env now 0 digest.parts) (λ _. Quiet-Sound (Quiet-pure env))))))

Quiet-check_summary : (d : Destination) (summary : Option Summary) → Quiet (check_summary d summary)
unfolding check_summary
Quiet-check_summary d none = Quiet-pure tt
Quiet-check_summary d (some s) = Quiet-bind (Quiet-raise_if _ _) (λ _.
    Quiet-bind (Quiet-or_raise _ _)
      (λ rows. Quiet-bind (Quiet-or_raise _ _) (λ ledger. Quiet-raise_if _ _)))

pub prepare_body-Sound :
    (o : Owner) (d : Destination) (ids : List ℕ) (render : List OwnedRow → Digest)
    (summary : Option Summary) (env : String) (now : ℕ)
    → Sound (prepare_body o d ids render summary env now)
unfolding prepare_body
prepare_body-Sound o d ids render summary env now =
    keep_then (Quiet-Sound (Quiet-owned_each o ids)) (λ rows.
      keep_then (Quiet-Sound (Quiet-check_each o d now rows)) (λ _.
        keep_then (Quiet-Sound (Quiet-check_summary d summary)) (λ _. check_then _ _ (λ _.
          check_then _ _ (λ _. check_then _ _ (λ _. freeze-Sound o d (render rows) env ids now))))))

Quiet-prove_unsent_draft : (o : Owner) (env : String) → Quiet (prove_unsent_draft o env)
unfolding prove_unsent_draft
Quiet-prove_unsent_draft o env = Quiet-bind (Quiet-owned_envelope o env) (λ row.
    Quiet-bind (Quiet-members o env) (λ rows. Quiet-bind (Quiet-gets _) (λ parts.
      Quiet-bind (Quiet-raise_if _ _) (λ _. Quiet-bind (Quiet-raise_if _ _) (λ _.
        Quiet-bind (Quiet-gets _) (λ sent. Quiet-bind (Quiet-raise_if _ _) (λ _.
          Quiet-bind (Quiet-gets _)
            (λ unsent. Quiet-bind (Quiet-raise_if _ _) (λ _. Quiet-pure rows)))))))))

Quiet-prove_each : (o : Owner) (envs : List String) → Quiet (prove_each o envs)
unfolding prove_each
Quiet-prove_each o [] = Quiet-pure []
Quiet-prove_each o (env ∷ envs) =
    Quiet-bind (Quiet-prove_unsent_draft o env)
      (λ rows. Quiet-bind (Quiet-prove_each o envs) (λ rest. Quiet-pure _))

-- A transaction keeps what its body keeps, whether it commits or is rolled back.
pub transaction_keeps_parts :
    {A : Type 0} (m : Action A)
    → Sound m
    → (db : Db) → OnParts IsAccounted db
    → OnParts IsAccounted (transaction m db).1
unfolding transaction
transaction_keeps_parts {A} m t db h =
    let opened = record db { in_transaction = true } in
    go db.writable (m opened).0 (m opened).1 (t.run opened h)
  where
    go :
        (w : Bool) (x : Result A) (db' : Db)
        → Ensures (λ _. OnParts IsAccounted) (x, db')
        → OnParts IsAccounted
            (if◌then◌else◌ {A = Result A × Db} w
              (elim x [
                | ok a ↦ (ok a, record db' { in_transaction = db.in_transaction })
                | err e ↦ (err e, db)
              ])
              (err Error.review_forbids, db)).1
    go true (ok a) db' q = q
    go true (err e) db' q = h
    go false x db' q = h

-- What a call leaves, returned or not, says more than what it leaves when it returns.
leaves_Sound :
    {A : Type 0} {m : Action A}
    → ((db : Db) → OnParts IsAccounted db → OnParts IsAccounted (m db).1)
    → Sound m
leaves_Sound {A} {m} h = record { run = λ db p. go (m db).0 (m db).1 (h db p) }
  where
    go :
        (r : Result A) (db' : Db)
        → OnParts IsAccounted db'
        → Ensures (λ _. OnParts IsAccounted) (r, db')
    go (ok a) db' q = q
    go (err e) db' q = tt

abandon-Sound :
    (alnum : ℕ → Bool) (o : Owner) (env : String) (reviewed : Bool) (evidence : String) (now : ℕ)
    → Sound (abandon alnum o env reviewed evidence now)
unfolding abandon
abandon-Sound alnum o env reviewed evidence now = check_then _ _ (λ _.
    check_then _ _
      (λ _. leaves_Sound (transaction_keeps_parts _ (abandon_body-Sound o env evidence now))))

abandon_drafts-Sound :
    (alnum : ℕ → Bool) (o : Owner) (envs : List String) (evidence : String) (now : ℕ)
    → Sound (abandon_drafts alnum o envs evidence now)
unfolding abandon_drafts
abandon_drafts-Sound alnum o [] evidence now = Quiet-Sound (Quiet-pure tt)
abandon_drafts-Sound alnum o (env ∷ envs) evidence now =
    keep_then (Quiet-Sound (Quiet-owned_envelope o env)) (λ row.
      keep_then
        (if_lem {c = is_abandoned row.status} (λ _. Quiet-Sound (Quiet-pure tt))
          (λ _. abandon-Sound alnum o env true evidence now))
        (λ _. abandon_drafts-Sound alnum o envs evidence now))

Quiet-reissue_each :
    (o : Owner) (rows : List OwnedRow) (evidence : String) (now : ℕ)
    → Quiet (reissue_each o rows evidence now)
unfolding reissue_each modify
Quiet-reissue_each o [] evidence now = Quiet-pure []
Quiet-reissue_each o (row ∷ rows) evidence now = Quiet-bind (Quiet-record_event o _ _ _ _) (λ _.
    Quiet-bind (Quiet-update_intent _ _) (λ _. Quiet-bind (Quiet-gets _) (λ id.
      Quiet-bind (record { parts = λ db. refl; events = λ db. refl })
        (λ _.
          Quiet-bind (Quiet-record_event o _ _ _ _)
            (λ _. Quiet-bind (Quiet-reissue_each o rows evidence now) (λ rest. Quiet-pure _))))))

pub reissue_body-Sound :
    (alnum : ℕ → Bool) (o : Owner) (envs : List String) (ids : List ℕ) (evidence : String) (now : ℕ)
    → Sound (reissue_body alnum o envs ids evidence now)
unfolding reissue_body
reissue_body-Sound alnum o envs ids evidence now =
    keep_then (Quiet-Sound (Quiet-prove_each o envs)) (λ drafted. check_then _ _ (λ _.
      keep_then (Quiet-Sound (Quiet-owned_each o ids)) (λ rows.
        keep_then (Quiet-Sound (Quiet-gets _)) (λ fit. check_then _ _ (λ _.
          keep_then (abandon_drafts-Sound alnum o envs evidence now)
            (λ _. Quiet-Sound (Quiet-reissue_each o rows evidence now)))))))
