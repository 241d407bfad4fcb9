-- ===== src/Source/Rows.antt =====
-- The tables that jobhound/bounded_transport.py and jobhound/source_budget.py share, and what a run
-- and a request are to them. Times are whole units of one clock; a host is in its folded spelling.
use job_hound.Base.{ℕ, String, Bool, Option, List, ltb, ◌&&◌}
use job_hound.Source.Plan.{Mode, SourcePlan}

-- `RequestLimits`, of nonnegative integers
pub record RequestLimits : Type 0 where
  pub requests : ℕ
  pub seconds : ℕ
  pub request_seconds : ℕ
  pub wire_bytes : ℕ
  pub decoded_bytes : ℕ
  pub concurrency : ℕ

-- `RequestLimits.__post_init__`
unfoldable pub are_valid_limits : RequestLimits → Bool
are_valid_limits l =
    ltb 0 l.concurrency
    && ltb 0 l.seconds
    && ltb 0 l.request_seconds
    && ltb 0 l.wire_bytes
    && ltb 0 l.decoded_bytes

-- runs
pub record Run : Type 0 where
  pub id : String
  pub fingerprint : String
  pub used : ℕ
  pub deadline : ℕ
  pub cap : ℕ

-- cooldowns
pub record Cooldown : Type 0 where
  pub scope : String
  pub until : ℕ
  pub code : ℕ

pub data AttemptState : Type 0 where
  reserved_unknown complete interrupted : AttemptState

-- attempts
pub record HttpAttempt : Type 0 where
  pub id : ℕ
  pub run_id : String
  pub scope : String
  pub state : AttemptState
  pub code : Option String

pub data WorkKind : Type 0 where
  inspection search : WorkKind

pub data WorkState : Type 0 where
  reserved inspected inspected_cache sent_unknown cancelled : WorkState

-- source_work
pub record Work : Type 0 where
  pub run_id : String
  pub source_id : String
  pub category : String
  pub mode : Mode
  pub kind : WorkKind
  pub key : String
  pub state : WorkState
  pub holders : ℕ

-- source_attempts
pub record SourceAttempt : Type 0 where
  pub attempt_id : ℕ
  pub run_id : String
  pub source_id : String
  pub category : String
  pub document_key : String

pub record Ledger : Type 0 where
  pub runs : List Run
  pub cooldowns : List Cooldown
  pub attempts : List HttpAttempt
  pub works : List Work
  pub source_attempts : List SourceAttempt

-- `RunBudget`: the run that draws, and its plan of sources if it has one.
pub record RunBudget : Type 0 where
  pub run_id : String
  pub owner_key : String
  pub as_of : ℕ
  pub limits : RequestLimits
  pub started : ℕ
  pub deadline : ℕ
  pub sources : Option SourcePlan

-- `SourceInspection`, the scope that a context variable carries
pub record SourceInspection : Type 0 where
  pub run_id : String
  pub owner_key : String
  pub source_id : String
  pub key : String

pub record Field : Type 0 where
  pub name : String
  pub value : String

-- What of an HTTP request the budget reads; the names of headers and parameters are in lower case.
pub record Request : Type 0 where
  pub scheme : String
  pub has_userinfo : Bool
  pub host : String
  pub headers : List Field
  pub params : List Field

-- The codes of `RequestDeferred`, and the refusals when a budget is built.
pub data Deferred : Type 0 where
  time_budget_exhausted host_or_account_cooldown request_budget_exhausted : Deferred
  unknown_source_route watch_route_audit_only source_cadence_not_due : Deferred
  source_ceiling exploration_ceiling route_ceiling category_ceiling : WorkKind → Deferred
  missing_source_inspection source_run_mismatch source_host_mismatch : Deferred
  source_route_requires_public_request source_inspection_not_reserved : Deferred
  source_request_ceiling category_request_ceiling : Deferred
  future_source_policy_decision : Deferred
  plan_exceeds_request_ceiling run_identity_reused missing_row : Deferred
