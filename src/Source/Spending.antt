-- ===== src/Source/Spending.antt =====
-- Whatever the budgets of a workspace do, every run stays within its request budget.
use job_hound.Base.{
  ℕ, ◌+◌, ◌<◌, ◌≤◌, ◌≡◌, refl, subst, inl, inr, String, Option, some, none, Bool, true, false, not,
  List, [], ◌∷◌, ◌++◌, ◌==◌, leb, str_eq, any, find?, update_where, Bool-cases,
}
use job_hound.Base.Results.{Attempt, ok, err, ◌>>=◌, ◌>>◌}
use job_hound.Source.Rows.{
  Run, HttpAttempt, AttemptState, Ledger, RunBudget, SourceInspection, Request, Deferred,
}
use job_hound.Source.Requests.{
  is_run, use_one, insert_run, open_run, has_future_decision, exceeds_requests, remaining,
  is_cooling, cap_of, check_http, Checked, sent, new_attempt, next_attempt_id, book, reserve,
  finish_attempt, cooldown, RetryAfter, cools, scope,
}
use job_hound.Source.Work.{defer_if, or_defer}
use job_hound.Source.Ceilings.{defer_if-ok, leb-false}
use job_hound.Source.Bounded.{ok-injective}
use job_hound.Source.Metering.{attempts_of, Agree, IsMetered, insert_run-IsMetered, book-IsMetered}

-- What is metered of the tables.
OnLedger : Ledger → Type 0
OnLedger s = IsMetered s.runs s.attempts

sent-runs :
    (id : ℕ) (c : Option Checked) (s : Ledger)
    → ((sent id c s).runs ≡ s.runs) × ((sent id c s).attempts ≡ s.attempts)
unfolding sent
sent-runs id none s = (refl, refl)
sent-runs id (some c) s = (refl, refl)

-- What a reservation that succeeds has found.
pub reserve_lem :
    {C A : Type 0} (c c' : Bool) (e e' e'' e3 : Deferred) (x : Option Run)
    (checked : Attempt Deferred C) (k : C → A) (out : A)
    → (defer_if c e
        >> (defer_if c' e'
            >> (or_defer x e'' >>= λ row.
                defer_if (leb row.cap row.used) e3 >> (checked >>= λ a. ok (k a)))))
      ≡ ok out
    → (r : Run) × (x ≡ some r) × (r.used < r.cap) × (a : C) × (k a ≡ out)
reserve_lem true c' e e' e'' e3 x checked k out h = cc
reserve_lem false true e e' e'' e3 x checked k out h = cc
reserve_lem false false e e' e'' e3 none checked k out h = cc
reserve_lem false false e e' e'' e3 (some r) (err z) k out h =
    let (_, g) = defer_if-ok (leb r.cap r.used) e3 (err z) out h in cc
reserve_lem false false e e' e'' e3 (some r) (ok a) k out h =
    let (room, g) = defer_if-ok (leb r.cap r.used) e3 (ok (k a)) out h in
    (r, refl, leb-false _ _ room, a, ok-injective _ _ g)

reserve-IsMetered :
    (digest : String → String) (b : RunBudget) (sc : Option SourceInspection) (req : Request)
    (wall mono : ℕ) (out : ℕ × Ledger) (s : Ledger)
    → reserve digest b sc req wall mono s ≡ ok out
    → OnLedger s
    → OnLedger out.1
unfolding reserve book OnLedger
reserve-IsMetered digest b sc req wall mono out s e h =
    let (r, found, room, checked, same) =
      reserve_lem (remaining b wall mono == 0)
        (any (is_cooling (scope digest req false) (scope digest req true) wall) s.cooldowns)
        Deferred.time_budget_exhausted Deferred.host_or_account_cooldown Deferred.missing_row
        Deferred.request_budget_exhausted (find? (is_run b.run_id) s.runs) (check_http b sc req s)
        (λ c. book b (scope digest req false) c s) out e in
    let a = new_attempt b (next_attempt_id s.attempts) (scope digest req false) in
    let runs = update_where (is_run b.run_id) use_one s.runs in
    let booked = book-IsMetered b.run_id r a s.runs s.attempts refl found room h in
    let wrote =
      sent-runs (next_attempt_id s.attempts) checked
        (record s { runs = runs; attempts = s.attempts ++ a ∷ [] }) in
    subst (λ (o : ℕ × Ledger). IsMetered o.1.runs o.1.attempts) same (rw (wrote.0, wrote.1) booked)

-- What opening a run that succeeds has found.
pub open_lem :
    {A : Type 0} (c c' : Bool) (e e' e'' e3 : Deferred) (x : Option Run) (q : Run → Bool)
    (k : Run → A) (out : A)
    → (defer_if c e
        >> (defer_if c' e' >> (or_defer x e'' >>= λ row. defer_if (q row) e3 >> ok (k row))))
      ≡ ok out
    → (r : Run) × (k r ≡ out)
open_lem true c' e e' e'' e3 x q k out h = cc
open_lem false true e e' e'' e3 x q k out h = cc
open_lem false false e e' e'' e3 none q k out h = cc
open_lem false false e e' e'' e3 (some r) q k out h =
    let (_, g) = defer_if-ok (q r) e3 (ok (k r)) out h in (r, ok-injective _ _ g)

open_run-IsMetered :
    (b : RunBudget) (signature : String) (wall : ℕ) (out : RunBudget × Ledger) (s : Ledger)
    → open_run b signature wall s ≡ ok out
    → OnLedger s
    → OnLedger out.1
unfolding open_run OnLedger
open_run-IsMetered b signature wall out s e h =
    let first : Run = record {
      id = b.run_id;
      fingerprint = signature;
      used = 0;
      deadline = wall + b.limits.seconds;
      cap = cap_of b;
    } in
    let runs = insert_run first s.runs in
    let (r, same) =
      open_lem (has_future_decision b.as_of b.sources)
        (exceeds_requests b.limits.requests b.sources) Deferred.future_source_policy_decision
        Deferred.plan_exceeds_request_ceiling Deferred.missing_row Deferred.run_identity_reused
        (find? (is_run b.run_id) runs) (λ r. not (str_eq r.fingerprint signature))
        (λ r. (record b { deadline = r.deadline }, record s { runs = runs })) out e in
    subst (λ (o : RunBudget × Ledger). IsMetered o.1.runs o.1.attempts) same
      (insert_run-IsMetered first s.runs s.attempts refl h)

update_attempts :
    (id : ℕ) (f : HttpAttempt → HttpAttempt) (run : String) (rows : List HttpAttempt)
    → ((a : HttpAttempt) → (f a).run_id ≡ a.run_id)
    → attempts_of run (update_where (λ a. a.id == id) f rows) ≡ attempts_of run rows
update_attempts id f run [] same = refl
update_attempts id f run (a ∷ rows) same = elim (Bool-cases (a.id == id)) [
  | inl e ↦ rw (e, same a, update_attempts id f run rows same) refl
  | inr e ↦ rw (e, update_attempts id f run rows same) refl
]

finish_attempt-IsMetered :
    (id : ℕ) (state : AttemptState) (code : Option String) (s : Ledger)
    → OnLedger s
    → OnLedger (finish_attempt id state code s)
unfolding finish_attempt OnLedger
finish_attempt-IsMetered id state code s h = record {
  agree = λ run.
      rw
        (update_attempts id (λ a. record a { state = state; code = code }) run s.attempts
          (λ a. refl))
        (h.agree run);
}

cooldown-IsMetered :
    (digest : String → String) (req : Request) (status wall : ℕ) (retry : RetryAfter) (s : Ledger)
    → OnLedger s
    → OnLedger (cooldown digest req status retry wall s)
unfolding cooldown OnLedger
cooldown-IsMetered digest req status wall retry s h = elim (Bool-cases (cools status)) [
  | inl e ↦ rw e h
  | inr e ↦ rw e h
]

-- The ledgers that the budgets of any runs lead to from an empty one; the tables of the sources may
-- change between.
pub data Spent : Ledger → Type 0 where
  empty : (s : Ledger) → s.runs ≡ [] → s.attempts ≡ [] → Spent s
  opened :
      (b : RunBudget) (signature : String) (wall : ℕ) (out : RunBudget × Ledger) (s : Ledger)
      → Spent s
      → open_run b signature wall s ≡ ok out
      → Spent out.1
  sending :
      (digest : String → String) (b : RunBudget) (sc : Option SourceInspection) (req : Request)
      (wall mono : ℕ) (out : ℕ × Ledger) (s : Ledger)
      → Spent s
      → reserve digest b sc req wall mono s ≡ ok out
      → Spent out.1
  finishing :
      (id : ℕ) (state : AttemptState) (code : Option String) (s : Ledger)
      → Spent s
      → Spent (finish_attempt id state code s)
  cooling :
      (digest : String → String) (req : Request) (status wall : ℕ) (retry : RetryAfter) (s : Ledger)
      → Spent s
      → Spent (cooldown digest req status retry wall s)
  elsewhere : (s s' : Ledger) → Spent s → s'.runs ≡ s.runs → s'.attempts ≡ s.attempts → Spent s'

spent-IsMetered : (s : Ledger) → Spent s → OnLedger s
unfolding OnLedger Agree
spent-IsMetered _ (Spent.empty s e e') = record { agree = λ id. rw (e, e') refl }
spent-IsMetered _ (Spent.opened b signature wall out s p e) =
    open_run-IsMetered b signature wall out s e (spent-IsMetered s p)
spent-IsMetered _ (Spent.sending digest b sc req wall mono out s p e) =
    reserve-IsMetered digest b sc req wall mono out s e (spent-IsMetered s p)
spent-IsMetered _ (Spent.finishing id state code s p) =
    finish_attempt-IsMetered id state code s (spent-IsMetered s p)
spent-IsMetered _ (Spent.cooling digest req status wall retry s p) =
    cooldown-IsMetered digest req status wall retry s (spent-IsMetered s p)
spent-IsMetered _ (Spent.elsewhere s s' p e e') = record {
  agree = λ id. rw (e, e') ((spent-IsMetered s p).agree id);
}

-- Whatever runs are opened, requests reserved and finished and hosts cooled down, in any order, a run
-- that has a row has as many attempts as the row says are used, and no more than its cap.
pub spent_within_cap :
    (s : Ledger) (id : String) (r : Run)
    → Spent s
    → find? (is_run id) s.runs ≡ some r
    → (attempts_of id s.attempts ≡ r.used) × (r.used ≤ r.cap)
unfolding Agree OnLedger
spent_within_cap s id r p e =
    subst (Agree (attempts_of id s.attempts)) e ((spent-IsMetered s p).agree id)
