-- ===== src/Source/Work.antt =====
-- `SourceBudget` of jobhound/source_budget.py: the inspections and searches of a run, reserved against
-- the ceilings of its plan. A key is the digest of the reviewed identity.
use job_hound.Base.{
  ℕ, ◌+◌, ◌-◌, ◌/◌, String, Bool, true, false, not, ◌&&◌, Option, none, some, List, [], ◌∷◌, ltb,
  leb, ◌==◌, str_eq, find?, count, if◌then◌else◌, update_where,
}
use job_hound.Base.Results.{Attempt, ok, err, ◌>>=◌, ◌>>◌}
use job_hound.Source.Plan.{
  Limits, SourceRoute, SourcePlan, is_pilot, is_watch, find_route, find_category,
}
use job_hound.Source.Rows.{Work, WorkKind, WorkState, Ledger, RunBudget, SourceInspection, Deferred}

abbrev pub defer_if : Bool → Deferred → Attempt Deferred (Unit {0})
defer_if true e = err e
defer_if false e = ok tt

abbrev pub or_defer : {A : Type 0} → Option A → Deferred → Attempt Deferred A
or_defer none e = err e
or_defer (some a) e = ok a

-- `as_of < next_check_at`
abbrev pub is_before_check : ℕ → Option ℕ → Bool
is_before_check as_of none = false
is_before_check as_of (some t) = ltb as_of t

-- `SourceBudget.route`
unfoldable pub usable_route : RunBudget → SourcePlan → String → Attempt Deferred SourceRoute
usable_route b plan source_id = do
  route ← or_defer (find_route source_id plan) Deferred.unknown_source_route
  defer_if (is_watch route.mode) Deferred.watch_route_audit_only
  defer_if (is_before_check b.as_of route.next_check_at) Deferred.source_cadence_not_due
  ok route

abbrev pub same_kind : WorkKind → WorkKind → Bool
same_kind WorkKind.inspection WorkKind.inspection = true
same_kind WorkKind.search WorkKind.search = true
same_kind _ _ = false

abbrev pub is_inspection : WorkKind → Bool
is_inspection WorkKind.inspection = true
is_inspection WorkKind.search = false

abbrev pub is_cancelled : WorkState → Bool
is_cancelled WorkState.cancelled = true
is_cancelled _ = false

abbrev pub is_reserved : WorkState → Bool
is_reserved WorkState.reserved = true
is_reserved _ = false

abbrev pub limit_of : WorkKind → Limits → ℕ
limit_of WorkKind.inspection l = l.inspections
limit_of WorkKind.search l = l.searches

-- The primary key of source_work.
abbrev pub is_work : String → String → WorkKind → String → Work → Bool
is_work run_id source_id kind key w =
    str_eq w.run_id run_id
    && str_eq w.source_id source_id
    && same_kind w.kind kind
    && str_eq w.key key

-- `run_id=? AND kind=? AND state!='cancelled'`
abbrev pub counts : String → WorkKind → Work → Bool
counts run_id kind w = str_eq w.run_id run_id && same_kind w.kind kind && not (is_cancelled w.state)

unfoldable pub used : String → WorkKind → (Work → Bool) → List Work → ℕ
used run_id kind condition works = count (λ w. counts run_id kind w && condition w) works

-- INSERT ... ON CONFLICT DO UPDATE SET state, holders
unfoldable pub upsert_work : Work → List Work → List Work
upsert_work n [] = n ∷ []
upsert_work n (w ∷ ws) =
    if is_work n.run_id n.source_id n.kind n.key w
    then record w { state = n.state; holders = n.holders } ∷ ws
    else w ∷ upsert_work n ws

abbrev pub new_work : RunBudget → SourceRoute → WorkKind → String → Work
new_work b route kind key = record {
  run_id = b.run_id;
  source_id = route.source_id;
  category = route.category;
  mode = route.mode;
  kind = kind;
  key = key;
  state = if is_inspection kind then WorkState.reserved else WorkState.inspected;
  holders = if is_inspection kind then 1 else 0;
}

-- The four ceilings that a new reservation must stay below.
unfoldable pub check_ceilings :
    RunBudget → SourcePlan → SourceRoute → WorkKind → List Work → Attempt Deferred (Unit {0})
unfolding used
check_ceilings b plan route kind works = do
  let limit = limit_of kind plan.ceilings
  let used_by = λ (condition : Work → Bool). used b.run_id kind condition works
  defer_if (leb limit (used_by (λ _. true))) (Deferred.source_ceiling kind)
  defer_if (is_pilot route.mode && leb (limit / 5) (used_by (λ w. is_pilot w.mode)))
      (Deferred.exploration_ceiling kind)
  defer_if (leb (limit_of kind route.limits) (used_by (λ w. str_eq w.source_id route.source_id)))
      (Deferred.route_ceiling kind)
  category ← or_defer (find_category route.category plan) Deferred.missing_row
  defer_if (leb (limit_of kind category.limits) (used_by (λ w. str_eq w.category route.category)))
      (Deferred.category_ceiling kind)

abbrev pub holds : Option Work → Bool
holds none = false
holds (some w) = not (is_cancelled w.state)

abbrev pub add_holder : Work → Work
add_holder w = record w { holders = w.holders + 1 }

-- `reserve_work`
unfoldable pub reserve_work :
    RunBudget → SourcePlan → String → WorkKind → String → Ledger → Attempt Deferred Ledger
unfolding usable_route check_ceilings upsert_work
reserve_work b plan source_id kind key s = do
  route ← usable_route b plan source_id
  let mine = is_work b.run_id source_id kind key
  if holds (find? mine s.works)
      then (ok (
          if is_inspection kind
          then record s { works = update_where mine add_holder s.works }
          else s))
      else (do
        check_ceilings b plan route kind s.works
        ok (record s { works = upsert_work (new_work b route kind key) s.works }))

-- `max(0,holders-1)`
abbrev pub drop_holder : Work → Work
drop_holder w = record w { holders = w.holders - 1 }

abbrev pub is_unused : Work → Bool
is_unused w = is_reserved w.state && w.holders == 0

abbrev pub set_state : WorkState → Work → Work
set_state s w = record w { state = s }

-- The end of an inspection: only a reservation that nobody holds and nothing used is returned.
unfoldable pub release_inspection : SourceInspection → Ledger → Ledger
release_inspection scope s =
    let mine = is_work scope.run_id scope.source_id WorkKind.inspection scope.key in
    record s {
      works =
          update_where (λ w. mine w && is_unused w) (set_state WorkState.cancelled)
            (update_where mine drop_holder s.works);
    }

abbrev pub in_scope : RunBudget → SourceInspection → Bool
in_scope b scope = str_eq scope.run_id b.run_id && str_eq scope.owner_key b.owner_key

-- `cached_inspection`
unfoldable pub cached_inspection :
    RunBudget → Option SourceInspection → Ledger → Attempt Deferred Ledger
cached_inspection b none s = err Deferred.missing_source_inspection
cached_inspection b (some scope) s = do
  defer_if (not (in_scope b scope)) Deferred.missing_source_inspection
  ok (record s {
    works =
        update_where
          (λ w.
            is_work scope.run_id scope.source_id WorkKind.inspection scope.key w
            && is_reserved w.state)
          (set_state WorkState.inspected_cache) s.works;
  })
