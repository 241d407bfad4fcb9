-- ===== src/Source/Requests.antt =====
-- `RunBudget` of jobhound/bounded_transport.py with the HTTP half of `SourceBudget`: opening a run,
-- reserving a request, finishing an attempt and cooling a host or an account down. SHA-256 is a
-- parameter. A transaction that raises leaves the tables as they were.
use Prim.Native.String.{◌++◌ as ◌+++◌}
use job_hound.Base.{
  ℕ, ◌+◌, ◌-◌, String, Bool, true, false, not, ◌&&◌, ◌||◌, Option, none, some, List, [], ◌∷◌, ◌++◌,
  ltb, leb, ◌==◌, str_eq, find?, any, filter, count, map, contains, min, max, if◌then◌else◌,
  update_where,
}
use job_hound.Base.Results.{Attempt, ok, ◌>>=◌, ◌>>◌}
use job_hound.Source.Plan.{SourceRoute, SourcePlan, find_category}
use job_hound.Source.Rows.{
  Run, Cooldown, AttemptState, HttpAttempt, WorkKind, WorkState, SourceAttempt, Ledger, RunBudget,
  SourceInspection, Field, Request, Deferred,
}
use job_hound.Source.Work.{defer_if, or_defer, usable_route, in_scope, is_work, set_state, holds}

-- `RunBudget.remaining`, of which only the sign and a positive value are read: 0 stands for any value
-- that is not positive.
unfoldable pub remaining : RunBudget → ℕ → ℕ → ℕ
remaining b wall mono = min (b.deadline - wall) (b.limits.seconds - (mono - b.started))

join : List String → String
join [] = ""
join (s ∷ []) = s
join (s ∷ t ∷ ts) = s +++ "|" +++ join (t ∷ ts)

values_of : List String → List Field → List String
values_of names fs = map (λ f. f.value) (filter (λ f. contains f.name names) fs)

-- `RunBudget.scope`
unfoldable pub scope : (String → String) → Request → Bool → String
unfolding join values_of
scope digest r account =
    let credentials =
      join (values_of ("authorization" ∷ "x-api-key" ∷ "x-rapidapi-key" ∷ []) r.headers)
      +++ join (values_of ("app_key" ∷ "app_id" ∷ "api_key" ∷ "key" ∷ "token" ∷ []) r.params) in
    digest (r.host +++ (if account then "|account|" +++ credentials else "|host"))

abbrev pub cap_of : RunBudget → ℕ
cap_of b = elim b.sources [
  | none ↦ b.limits.requests
  | some p ↦ min b.limits.requests p.ceilings.requests
]

abbrev pub exceeds_requests : ℕ → Option SourcePlan → Bool
exceeds_requests n none = false
exceeds_requests n (some p) = ltb n p.ceilings.requests

-- `any(d.observed_at>as_of for d in plan.policy_decisions)` of `SourceBudget.__init__`
unfoldable pub has_future_decision : ℕ → Option SourcePlan → Bool
has_future_decision as_of none = false
has_future_decision as_of (some p) = any (λ d. ltb as_of d.observed_at) p.policy_decisions

abbrev pub is_run : String → Run → Bool
is_run id r = str_eq r.id id

-- INSERT OR IGNORE INTO runs
unfoldable pub insert_run : Run → List Run → List Run
insert_run r rs = if any (is_run r.id) rs then rs else rs ++ r ∷ []

-- `RunBudget.__init__` on the tables: the run's row, once, and its deadline. The signature is the
-- text of the context, the limits and the plan.
unfoldable pub open_run : RunBudget → String → ℕ → Ledger → Attempt Deferred (RunBudget × Ledger)
unfolding insert_run has_future_decision
open_run b signature wall s = do
  defer_if (has_future_decision b.as_of b.sources) Deferred.future_source_policy_decision
  defer_if (exceeds_requests b.limits.requests b.sources) Deferred.plan_exceeds_request_ceiling
  let runs =
      insert_run
        (record {
          id = b.run_id;
          fingerprint = signature;
          used = 0;
          deadline = wall + b.limits.seconds;
          cap = cap_of b;
        })
        s.runs
  row ← or_defer (find? (is_run b.run_id) runs) Deferred.missing_row
  defer_if (not (str_eq row.fingerprint signature)) Deferred.run_identity_reused
  ok (record b { deadline = row.deadline }, record s { runs = runs })

-- What `check_http` hands to `sent`.
pub record Checked : Type 0 where
  pub scope : SourceInspection
  pub route : SourceRoute

has_field : List String → List Field → Bool
has_field names fs = any (λ f. contains f.name names) fs

-- The public request that a source route demands.
unfoldable pub is_public : Request → Bool
unfolding has_field
is_public r =
    str_eq r.scheme "https"
    && not r.has_userinfo
    && not (has_field ("authorization" ∷ "cookie" ∷ "x-api-key" ∷ "x-rapidapi-key" ∷ []) r.headers)
    && not (has_field ("token" ∷ "key" ∷ "api_key" ∷ "app_key" ∷ "app_id" ∷ []) r.params)

unfoldable pub used_requests : String → (SourceAttempt → Bool) → List SourceAttempt → ℕ
used_requests run_id condition rows = count (λ a. str_eq a.run_id run_id && condition a) rows

-- `check_http` inside a source scope
unfoldable pub check_scoped :
    RunBudget → SourcePlan → SourceInspection → Request → Ledger → Attempt Deferred Checked
unfolding usable_route is_public used_requests
check_scoped b plan sc req s = do
  defer_if (not (in_scope b sc)) Deferred.source_run_mismatch
  route ← usable_route b plan sc.source_id
  defer_if (not (contains req.host route.hosts)) Deferred.source_host_mismatch
  defer_if (not (is_public req)) Deferred.source_route_requires_public_request
  defer_if (not (holds (find? (is_work sc.run_id sc.source_id WorkKind.inspection sc.key) s.works)))
      Deferred.source_inspection_not_reserved
  defer_if
      (leb route.limits.requests
        (used_requests sc.run_id (λ a. str_eq a.source_id sc.source_id) s.source_attempts))
      Deferred.source_request_ceiling
  category ← or_defer (find_category route.category plan) Deferred.missing_row
  defer_if
      (leb category.limits.requests
        (used_requests sc.run_id (λ a. str_eq a.category route.category) s.source_attempts))
      Deferred.category_request_ceiling
  ok (record { scope = sc; route = route })

-- `check_http`, of a budget with or without sources, in a task with or without a scope
unfoldable pub check_http :
    RunBudget → Option SourceInspection → Request → Ledger → Attempt Deferred (Option Checked)
unfolding check_scoped
check_http b none req s = ok none
check_http b (some sc) req s = elim b.sources [
  | none ↦ ok none
  | some plan ↦ check_scoped b plan sc req s >>= (λ c. ok (some c))
]

-- `sent`
unfoldable pub sent : ℕ → Option Checked → Ledger → Ledger
sent attempt none s = s
sent attempt (some c) s = record s {
  source_attempts =
      s.source_attempts
      ++ record {
        attempt_id = attempt;
        run_id = c.scope.run_id;
        source_id = c.scope.source_id;
        category = c.route.category;
        document_key = c.scope.key;
      }
        ∷ [];
  works =
      update_where (is_work c.scope.run_id c.scope.source_id WorkKind.inspection c.scope.key)
        (set_state WorkState.sent_unknown) s.works;
}

unfoldable pub next_attempt_id : List HttpAttempt → ℕ
next_attempt_id [] = 1
next_attempt_id (a ∷ as') = max (a.id + 1) (next_attempt_id as')

abbrev pub use_one : Run → Run
use_one r = record r { used = r.used + 1 }

abbrev pub is_cooling : String → String → ℕ → Cooldown → Bool
is_cooling host account wall c = (str_eq c.scope host || str_eq c.scope account) && ltb wall c.until

abbrev pub new_attempt : RunBudget → ℕ → String → HttpAttempt
new_attempt b id host = record {
  id = id;
  run_id = b.run_id;
  scope = host;
  state = AttemptState.reserved_unknown;
  code = none;
}

-- The writes of a reservation.
unfoldable pub book : RunBudget → String → Option Checked → Ledger → ℕ × Ledger
unfolding next_attempt_id sent
book b host checked s =
    let id = next_attempt_id s.attempts in
    (
      id,
      sent id checked (record s {
        runs = update_where (is_run b.run_id) use_one s.runs;
        attempts = s.attempts ++ new_attempt b id host ∷ [];
      }),
    )

-- `RunBudget.reserve`
unfoldable pub reserve :
    (String → String)
    → RunBudget
    → Option SourceInspection
    → Request
    → ℕ
    → ℕ
    → Ledger
    → Attempt Deferred (ℕ × Ledger)
unfolding remaining scope check_http book
reserve digest b sc req wall mono s = do
  defer_if (remaining b wall mono == 0) Deferred.time_budget_exhausted
  let host = scope digest req false
  let account = scope digest req true
  defer_if (any (is_cooling host account wall) s.cooldowns) Deferred.host_or_account_cooldown
  row ← or_defer (find? (is_run b.run_id) s.runs) Deferred.missing_row
  defer_if (leb row.cap row.used) Deferred.request_budget_exhausted
  checked ← check_http b sc req s
  ok (book b host checked s)

-- `RunBudget.finish`
unfoldable pub finish_attempt : ℕ → AttemptState → Option String → Ledger → Ledger
finish_attempt id state code s = record s {
  attempts =
      update_where (λ a. a.id == id) (λ a. record a { state = state; code = code }) s.attempts;
}

-- What the Retry-After header was read as.
pub data RetryAfter : Type 0 where
  unreadable not_finite negative : RetryAfter
  seconds at_time : ℕ → RetryAfter

-- `status not in {401, 403, 429, 503}`
abbrev pub cools : ℕ → Bool
cools status = status == 401 || status == 403 || status == 429 || status == 503

raw_delay : ℕ → ℕ → RetryAfter → ℕ
raw_delay status wall RetryAfter.unreadable = if status == 401 || status == 403 then 3600 else 60
raw_delay status wall RetryAfter.not_finite = 60
raw_delay status wall RetryAfter.negative = 0
raw_delay status wall (RetryAfter.seconds n) = n
raw_delay status wall (RetryAfter.at_time t) = t - wall

-- `min(86400, max(1, delay))`
unfoldable pub delay : ℕ → ℕ → RetryAfter → ℕ
unfolding raw_delay
delay status wall r = min 86400 (max 1 (raw_delay status wall r))

-- ON CONFLICT(scope) DO UPDATE SET until=max(until,excluded.until), code=excluded.code
unfoldable pub upsert_cooldown : Cooldown → List Cooldown → List Cooldown
upsert_cooldown n [] = n ∷ []
upsert_cooldown n (c ∷ cs) =
    if str_eq c.scope n.scope
    then record c { until = max c.until n.until; code = n.code } ∷ cs
    else c ∷ upsert_cooldown n cs

-- `RunBudget.cooldown`
unfoldable pub cooldown : (String → String) → Request → ℕ → RetryAfter → ℕ → Ledger → Ledger
unfolding delay scope upsert_cooldown
cooldown digest req status retry wall s = if not (cools status) then s else record s {
  cooldowns =
      upsert_cooldown
        (record {
          scope = scope digest req (status == 401 || status == 403 || status == 429);
          until = wall + delay status wall retry;
          code = status;
        })
        s.cooldowns;
}
