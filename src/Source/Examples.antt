-- ===== src/Source/Examples.antt =====
-- A plan of one pilot route, and what a run may do under it.
use job_hound.Base.{String, false, ◌≡◌, ◌≤◌, ◌⊎◌, refl, [], ◌∷◌, none, some, arith}
use job_hound.Base.Results.{ok, err}
use job_hound.Source.Plan.{
  Limits, Mode, ParserState, SourceRoute, Disposition, SourcePolicyDecision, SourcePlan, check_plan,
  check_bounds, bounded_admission, pilot_families, check_routes, check_route, check_admission,
  find_route, find_category,
}
use job_hound.Source.Admission.{IsUsable, check_plan-IsUsable}
use job_hound.Source.Rows.{
  Run, AttemptState, Work, WorkKind, WorkState, Ledger, RunBudget, Request, Deferred,
}
use job_hound.Source.Work.{reserve_work, usable_route, check_ceilings, upsert_work, used}
use job_hound.Source.Requests.{open_run, RetryAfter, reserve, cooldown, delay}
use job_hound.Source.Cooling.{Later, cooldown_defers}
use job_hound.Source.Metering.{attempts_of}
use job_hound.Source.Spending.{Spent, spent_within_cap}
use job_hound.Source.Bounded.{IsBounded}
use job_hound.Source.Reached.{Reached, reached-IsBounded}

abbrev ceilings : Limits
ceilings = record { requests = 40; inspections = 10; searches = 10 }

abbrev route : SourceRoute
route = record {
  source_id = "board";
  family = "boards";
  category = "jobs";
  limits = record { requests = 5; inspections = 2; searches = 1 };
  mode = Mode.pilot;
  parser_state = ParserState.admitted;
  hosts = "board.example" ∷ [];
  admission_ref = some "decision";
  next_check_at = some 90;
}

abbrev decision : SourcePolicyDecision
decision = record {
  decision_id = "decision";
  source_id = "board";
  observed_at = 80;
  disposition = Disposition.reduce_cadence;
}

abbrev plan : SourcePlan
plan = record {
  ceilings = ceilings;
  routes = route ∷ [];
  categories = record { category = "jobs"; limits = ceilings } ∷ [];
  policy_decisions = decision ∷ [];
}

check_plan-IsUsable_example : IsUsable plan route
unfolding check_plan check_bounds bounded_admission pilot_families check_routes check_route
    check_admission find_route
check_plan-IsUsable_example = check_plan-IsUsable plan "board" route refl refl

abbrev budget : RunBudget
budget = record {
  run_id = "run";
  owner_key = "owner";
  as_of = 100;
  limits = record {
    requests = 40;
    seconds = 600;
    request_seconds = 20;
    wire_bytes = 1000;
    decoded_bytes = 1000;
    concurrency = 2;
  };
  started = 0;
  deadline = 700;
  sources = some plan;
}

abbrev empty : Ledger
empty = record { runs = []; cooldowns = []; attempts = []; works = []; source_attempts = [] }

abbrev inspected : Work
inspected = record {
  run_id = "run";
  source_id = "board";
  category = "jobs";
  mode = Mode.pilot;
  kind = WorkKind.inspection;
  key = "d1";
  state = WorkState.reserved;
  holders = 1;
}

abbrev second : Work
second = record inspected { key = "d2" }

abbrev first_ledger : Ledger
first_ledger = record empty { works = inspected ∷ [] }

abbrev second_ledger : Ledger
second_ledger = record empty { works = inspected ∷ second ∷ [] }

first_inspection : reserve_work budget plan "board" WorkKind.inspection "d1" empty ≡ ok first_ledger
unfolding reserve_work usable_route check_ceilings upsert_work used find_route find_category
first_inspection = refl

second_inspection :
    reserve_work budget plan "board" WorkKind.inspection "d2" first_ledger ≡ ok second_ledger
unfolding reserve_work usable_route check_ceilings upsert_work used find_route find_category
second_inspection = refl

-- The route is full: a third one is refused by the pilots' fifth.
third_inspection :
    reserve_work budget plan "board" WorkKind.inspection "d3" second_ledger
    ≡ err (Deferred.exploration_ceiling WorkKind.inspection)
unfolding reserve_work usable_route check_ceilings upsert_work used find_route find_category
third_inspection = refl

reached-IsBounded_example : IsBounded "run" plan second_ledger.works
reached-IsBounded_example = reached-IsBounded budget plan second_ledger (
    Reached.reserved "board" WorkKind.inspection "d2" first_ledger second_ledger
      (Reached.reserved "board" WorkKind.inspection "d1" empty first_ledger
        (Reached.fresh empty refl) first_inspection)
      second_inspection)

abbrev request : Request
request = record {
  scheme = "https";
  has_userinfo = false;
  host = "board.example";
  headers = [];
  params = [];
}

abbrev plain : String → String
plain text = text

-- A throttled request, and a refused one of the same scope with a shorter delay.
abbrev throttled : Ledger
throttled = cooldown plain request 429 (RetryAfter.seconds 30) 50 empty

abbrev throttled_again : Ledger
throttled_again = cooldown plain request 403 (RetryAfter.seconds 2) 52 throttled

cooldown_defers_example :
    (1 ≤ delay 429 50 (RetryAfter.seconds 30))
    × (delay 429 50 (RetryAfter.seconds 30) ≤ 86400)
    × ((reserve plain budget none request 70 20 throttled_again
          ≡ err Deferred.time_budget_exhausted)
        ⊎ (reserve plain budget none request 70 20 throttled_again
            ≡ err Deferred.host_or_account_cooldown))
unfolding delay
cooldown_defers_example =
    cooldown_defers plain request request 429 50 70 20 (RetryAfter.seconds 30) budget none empty
      throttled_again refl
      (Later.cooling plain request 403 52 (RetryAfter.seconds 2) throttled Later.now) refl
      (omega arith)

abbrev opened_budget : RunBudget
opened_budget = record budget { sources = none; deadline = 650 }

abbrev opened_ledger : Ledger
opened_ledger = record empty {
  runs = record { id = "run"; fingerprint = "inputs"; used = 0; deadline = 650; cap = 40 } ∷ [];
}

abbrev used_once : Run
used_once = record { id = "run"; fingerprint = "inputs"; used = 1; deadline = 650; cap = 40 }

abbrev sent_ledger : Ledger
sent_ledger = record empty {
  runs = used_once ∷ [];
  attempts =
      record {
        id = 1;
        run_id = "run";
        scope = "board.example|host";
        state = AttemptState.reserved_unknown;
        code = none;
      }
      ∷ [];
}

opening :
    open_run (record budget { sources = none }) "inputs" 50 empty
    ≡ ok (opened_budget, opened_ledger)
unfolding open_run
opening = refl

sending_one : reserve plain opened_budget none request 70 20 opened_ledger ≡ ok (1, sent_ledger)
unfolding reserve
sending_one = refl

spent_within_cap_example : (attempts_of "run" sent_ledger.attempts ≡ 1) × (1 ≤ 40)
spent_within_cap_example =
    spent_within_cap sent_ledger "run" used_once
      (Spent.sending plain opened_budget none request 70 20 (1, sent_ledger) opened_ledger
        (Spent.opened (record budget { sources = none }) "inputs" 50 (opened_budget, opened_ledger)
          empty (Spent.empty empty refl refl) opening)
        sending_one)
      refl
