-- ===== src/Source/Cooling.antt =====
-- What a refused or throttled response does to later requests.
use job_hound.Base.{
  ℕ, ◌+◌, ◌<◌, ◌≤◌, ◌≡◌, refl, sym, subst, ◌⊎◌, inl, inr, String, Option, some, none, or_true, Bool,
  true, false, not, List, [], ◌∷◌, ◌++◌, arith, ◌==◌, str_eq, str_eq_iff, any, find?, update_where,
  Bool-cases, ◌||◌,
}
use job_hound.Base.Results.{ok, err}
use job_hound.Source.Rows.{
  Run, AttemptState, Cooldown, Ledger, RunBudget, SourceInspection, Request, Deferred,
}
use job_hound.Source.Requests.{
  scope, remaining, reserve, cooldown, delay, RetryAfter, cools, upsert_cooldown, is_cooling,
  is_run, use_one, insert_run, open_run, has_future_decision, exceeds_requests, cap_of, check_http,
  Checked, sent, new_attempt, next_attempt_id, book, finish_attempt,
}
use job_hound.Source.Spending.{reserve_lem, open_lem}

-- A scope that is cooling stays so under any other cooldown.
upsert_cooldown-is_cooling :
    (host account : String) (wall : ℕ) (n : Cooldown) (cs : List Cooldown)
    → (any (is_cooling host account wall) cs || is_cooling host account wall n) ≡ true
    → any (is_cooling host account wall) (upsert_cooldown n cs) ≡ true
unfolding upsert_cooldown
upsert_cooldown-is_cooling host account wall n [] h = ground arith
upsert_cooldown-is_cooling host account wall n (c ∷ cs) h =
    ground (arith, str_eq_iff c.scope n.scope, upsert_cooldown-is_cooling host account wall n cs)

reserve_cooling :
    (digest : String → String) (b : RunBudget) (sc : Option SourceInspection) (req : Request)
    (wall mono : ℕ) (s : Ledger)
    → any (is_cooling (scope digest req false) (scope digest req true) wall) s.cooldowns ≡ true
    → (reserve digest b sc req wall mono s ≡ err Deferred.time_budget_exhausted)
      ⊎ (reserve digest b sc req wall mono s ≡ err Deferred.host_or_account_cooldown)
unfolding reserve
reserve_cooling digest b sc req wall mono s h = elim (Bool-cases (remaining b wall mono == 0)) [
  | inl e ↦ inl (rw e)
  | inr e ↦ inr (rw (e, h))
]

-- Which of a request's two scopes a response cools: that of its credentials, or its host's.
abbrev pub is_personal : ℕ → Bool
is_personal status = status == 401 || status == 403 || status == 429

Covers : (sc host account : String) → Type 0
Covers sc host account = (str_eq sc host || str_eq sc account) ≡ true

scope-Covers :
    (digest : String → String) (sc : String) (req : Request) (flag : Bool)
    → scope digest req flag ≡ sc
    → Covers sc (scope digest req false) (scope digest req true)
unfolding Covers
scope-Covers digest sc req true e =
    (let k = (str_eq_iff sc (scope digest req true)).1 (sym e) in rw (k, or_true _) refl)
scope-Covers digest sc req false e =
    (let k = (str_eq_iff sc (scope digest req false)).1 (sym e) in rw k refl)

cooldown-is_cooling :
    (digest : String → String) (req : Request) (host account : String) (status wall wall' : ℕ)
    (retry : RetryAfter) (s : Ledger)
    → cools status ≡ true
    → wall' < wall + delay status wall retry
    → Covers (scope digest req (is_personal status)) host account
    → any (is_cooling host account wall') (cooldown digest req status retry wall s).cooldowns ≡ true
unfolding cooldown Covers
cooldown-is_cooling digest req host account status wall wall' retry s h lt c =
    let n : Cooldown = record {
      scope = scope digest req (is_personal status);
      until = wall + delay status wall retry;
      code = status;
    } in
    let own : is_cooling host account wall' n ≡ true = ground (arith, c, lt) in
    rw h (upsert_cooldown-is_cooling host account wall' n s.cooldowns (rw own (or_true _)))

module _ (host account : String) (wall : ℕ) where
  IsCool : Ledger → Type 0
  IsCool s = any (is_cooling host account wall) s.cooldowns ≡ true

  sent-IsCool : (id : ℕ) (c : Option Checked) (s : Ledger) → IsCool s → IsCool (sent id c s)
  unfolding IsCool sent
  sent-IsCool id none s h = h
  sent-IsCool id (some c) s h = h

  reserve-IsCool :
      (digest : String → String) (b : RunBudget) (sc : Option SourceInspection) (req : Request)
      (at mono : ℕ) (out : ℕ × Ledger) (s : Ledger)
      → reserve digest b sc req at mono s ≡ ok out
      → IsCool s
      → IsCool out.1
  unfolding reserve book IsCool
  reserve-IsCool digest b sc req at mono out s e h =
      let (r, found, room, checked, same) =
        reserve_lem (remaining b at mono == 0)
          (any (is_cooling (scope digest req false) (scope digest req true) at) s.cooldowns)
          Deferred.time_budget_exhausted Deferred.host_or_account_cooldown Deferred.missing_row
          Deferred.request_budget_exhausted (find? (is_run b.run_id) s.runs) (check_http b sc req s)
          (λ c. book b (scope digest req false) c s) out e in
      let a = new_attempt b (next_attempt_id s.attempts) (scope digest req false) in
      let runs = update_where (is_run b.run_id) use_one s.runs in
      subst (λ (o : ℕ × Ledger). IsCool o.1) same
        (sent-IsCool (next_attempt_id s.attempts) checked
          (record s { runs = runs; attempts = s.attempts ++ a ∷ [] }) h)

  open_run-IsCool :
      (b : RunBudget) (signature : String) (at : ℕ) (out : RunBudget × Ledger) (s : Ledger)
      → open_run b signature at s ≡ ok out
      → IsCool s
      → IsCool out.1
  unfolding open_run IsCool
  open_run-IsCool b signature at out s e h =
      let first : Run = record {
        id = b.run_id;
        fingerprint = signature;
        used = 0;
        deadline = at + b.limits.seconds;
        cap = cap_of b;
      } in
      let runs = insert_run first s.runs in
      let (r, same) =
        open_lem (has_future_decision b.as_of b.sources)
          (exceeds_requests b.limits.requests b.sources) Deferred.future_source_policy_decision
          Deferred.plan_exceeds_request_ceiling Deferred.missing_row Deferred.run_identity_reused
          (find? (is_run b.run_id) runs) (λ r. not (str_eq r.fingerprint signature))
          (λ r. (record b { deadline = r.deadline }, record s { runs = runs })) out e in
      subst (λ (o : RunBudget × Ledger). IsCool o.1) same h

  cooldown-keeps :
      (digest : String → String) (req : Request) (status at : ℕ) (retry : RetryAfter) (s : Ledger)
      → IsCool s
      → IsCool (cooldown digest req status retry at s)
  unfolding cooldown IsCool
  cooldown-keeps digest req status at retry s h = elim (Bool-cases (cools status)) [
    | inl e ↦ rw e (upsert_cooldown-is_cooling host account wall _ s.cooldowns (rw h refl))
    | inr e ↦ rw e h
  ]

-- The ledgers that follow a given one, by any calls of any run's budget and any changes of the tables
-- other than that of the cooldowns.
pub data Later (s : Ledger) : Ledger → Type 0 where
  now : Later s s
  opened :
      (b : RunBudget) (signature : String) (wall : ℕ) (out : RunBudget × Ledger) (t : Ledger)
      → Later s t
      → open_run b signature wall t ≡ ok out
      → Later s out.1
  sending :
      (digest : String → String) (b : RunBudget) (sc : Option SourceInspection) (req : Request)
      (wall mono : ℕ) (out : ℕ × Ledger) (t : Ledger)
      → Later s t
      → reserve digest b sc req wall mono t ≡ ok out
      → Later s out.1
  finishing :
      (id : ℕ) (state : AttemptState) (code : Option String) (t : Ledger)
      → Later s t
      → Later s (finish_attempt id state code t)
  cooling :
      (digest : String → String) (req : Request) (status wall : ℕ) (retry : RetryAfter) (t : Ledger)
      → Later s t
      → Later s (cooldown digest req status retry wall t)
  elsewhere : (t t' : Ledger) → Later s t → t'.cooldowns ≡ t.cooldowns → Later s t'

Later-IsCool :
    (host account : String) (wall : ℕ) (s t : Ledger)
    → Later s t
    → IsCool host account wall s
    → IsCool host account wall t
unfolding IsCool finish_attempt
Later-IsCool host account wall s t Later.now h = h
Later-IsCool host account wall s _ (Later.opened b signature at out t p e) h =
    open_run-IsCool host account wall b signature at out t e
      (Later-IsCool host account wall s t p h)
Later-IsCool host account wall s _ (Later.sending digest b sc req at mono out t p e) h =
    reserve-IsCool host account wall digest b sc req at mono out t e
      (Later-IsCool host account wall s t p h)
Later-IsCool host account wall s _ (Later.finishing id state code t p) h =
    Later-IsCool host account wall s t p h
Later-IsCool host account wall s _ (Later.cooling digest req status at retry t p) h =
    cooldown-keeps host account wall digest req status at retry t
      (Later-IsCool host account wall s t p h)
Later-IsCool host account wall s _ (Later.elsewhere t t' p e) h =
    rw e (Later-IsCool host account wall s t p h)

-- After a response with status 401, 403, 429 or 503, and whatever runs are then opened, requests
-- reserved and finished and scopes cooled down again, no budget reserves a request of the cooled scope
-- before the delay is over: of the same host and credentials, after a 503 of the same host. The delay is
-- one unit to one day.
pub cooldown_defers :
    (digest : String → String) (req req' : Request) (status wall wall' mono : ℕ)
    (retry : RetryAfter) (b : RunBudget) (sc : Option SourceInspection) (s t : Ledger)
    → cools status ≡ true
    → Later (cooldown digest req status retry wall s) t
    → scope digest req' (is_personal status) ≡ scope digest req (is_personal status)
    → wall' < wall + delay status wall retry
    → (1 ≤ delay status wall retry)
      × (delay status wall retry ≤ 86400)
      × ((reserve digest b sc req' wall' mono t ≡ err Deferred.time_budget_exhausted)
          ⊎ (reserve digest b sc req' wall' mono t ≡ err Deferred.host_or_account_cooldown))
unfolding delay IsCool
cooldown_defers digest req req' status wall wall' mono retry b sc s t h later same lt = (
  ground arith,
  ground arith,
  reserve_cooling digest b sc req' wall' mono t (
      Later-IsCool (scope digest req' false) (scope digest req' true) wall' _ t later (
        cooldown-is_cooling digest req (scope digest req' false) (scope digest req' true) status
          wall wall' retry s h lt
          (scope-Covers digest (scope digest req (is_personal status)) req' (is_personal status)
            same))),
)
