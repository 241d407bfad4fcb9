-- ===== src/Source/Plan.antt =====
-- The source plan of jobhound/source_policy.py: its routes, categories and logged decisions, and the
-- validator that a plan passes before any budget is drawn from it. The pattern and range of a single
-- field are pydantic's.
use job_hound.Base.{
  ℕ, String, Bool, true, false, not, ◌&&◌, ◌||◌, Option, none, some, List, [], ◌∷◌, ltb, leb,
  str_eq, map, find?, any, filter, length, is_some, distinct, all_distinct, if◌then◌else◌,
}

pub record Limits : Type 0 where
  pub requests : ℕ
  pub inspections : ℕ
  pub searches : ℕ

pub record CategoryLimit : Type 0 where
  pub category : String
  pub limits : Limits

pub data Mode : Type 0 where
  core pilot watch : Mode

pub data ParserState : Type 0 where
  capture_only admitted unsupported : ParserState

pub record SourceRoute : Type 0 where
  pub source_id : String
  pub family : String
  pub category : String
  pub limits : Limits
  pub mode : Mode
  pub parser_state : ParserState
  pub hosts : List String
  pub admission_ref : Option String
  pub next_check_at : Option ℕ

pub data Disposition : Type 0 where
  continue reduce_cadence pause promote resume : Disposition

pub record SourcePolicyDecision : Type 0 where
  pub decision_id : String
  pub source_id : String
  pub observed_at : ℕ
  pub disposition : Disposition

pub record SourcePlan : Type 0 where
  pub ceilings : Limits
  pub routes : List SourceRoute
  pub categories : List CategoryLimit
  pub policy_decisions : List SourcePolicyDecision

pub data PlanError : Type 0 where
  active_route_requires_logged_admission duplicate_hosts duplicate_source_id : PlanError
  duplicate_category at_most_two_pilot_families : PlanError
  route_or_category_exceeds_shared_ceiling unknown_category : PlanError
  active_route_requires_matching_policy_decision reduced_cadence_requires_next_check : PlanError
  paused_route_requires_later_resume duplicate_policy_decision : PlanError

abbrev pub is_watch : Mode → Bool
is_watch Mode.watch = true
is_watch _ = false

abbrev pub is_pilot : Mode → Bool
is_pilot Mode.pilot = true
is_pilot _ = false

-- The first of two checks to fail.
infixl 20 ◌or_else◌
abbrev pub ◌or_else◌ : Option PlanError → Option PlanError → Option PlanError
none or_else e = e
some e or_else _ = some e

abbrev pub fail_if : Bool → PlanError → Option PlanError
fail_if c e = if c then some e else none

-- `bounded_admission`
unfoldable pub bounded_admission : SourceRoute → Option PlanError
bounded_admission r =
    fail_if (not (is_watch r.mode) && not (is_some r.admission_ref))
      PlanError.active_route_requires_logged_admission
    or_else fail_if (not (all_distinct r.hosts)) PlanError.duplicate_hosts

abbrev pub exceeds : Limits → Limits → Bool
exceeds l c =
    ltb c.requests l.requests || ltb c.inspections l.inspections || ltb c.searches l.searches

-- `disposition in {'continue','promote','resume','reduce_cadence'}`
abbrev pub admits : Disposition → Bool
admits Disposition.pause = false
admits _ = true

abbrev pub reduces : Disposition → Bool
reduces Disposition.reduce_cadence = true
reduces _ = false

abbrev pub pauses : Disposition → Bool
pauses Disposition.pause = true
pauses _ = false

abbrev pub is_ref : Option String → SourcePolicyDecision → Bool
is_ref none d = false
is_ref (some ref) d = str_eq d.decision_id ref

-- `route.next_check_at is None or route.next_check_at<=admission.observed_at`
abbrev pub no_later_check : Option ℕ → ℕ → Bool
no_later_check none at = true
no_later_check (some t) at = leb t at

-- A pause of the source that no later decision lifted.
abbrev pub is_later_pause : SourceRoute → SourcePolicyDecision → SourcePolicyDecision → Bool
is_later_pause r a d =
    str_eq d.source_id r.source_id
    && not (str_eq d.decision_id a.decision_id)
    && leb a.observed_at d.observed_at
    && pauses d.disposition

unfoldable pub check_admission :
    SourceRoute → List SourcePolicyDecision → Option SourcePolicyDecision → Option PlanError
check_admission r ds none = some PlanError.active_route_requires_matching_policy_decision
check_admission r ds (some a) =
    fail_if (not (str_eq a.source_id r.source_id) || not (admits a.disposition))
      PlanError.active_route_requires_matching_policy_decision
    or_else fail_if (reduces a.disposition && no_later_check r.next_check_at a.observed_at)
        PlanError.reduced_cadence_requires_next_check
    or_else fail_if (any (is_later_pause r a) ds) PlanError.paused_route_requires_later_resume

unfoldable pub check_route :
    List CategoryLimit → List SourcePolicyDecision → SourceRoute → Option PlanError
unfolding check_admission
check_route cats ds r =
    fail_if (not (any (λ c. str_eq c.category r.category) cats)) PlanError.unknown_category
    or_else (if is_watch r.mode
        then none
        else check_admission r ds (find? (is_ref r.admission_ref) ds))

unfoldable pub check_routes :
    List CategoryLimit → List SourcePolicyDecision → List SourceRoute → Option PlanError
unfolding check_route
check_routes cats ds [] = none
check_routes cats ds (r ∷ rs) = check_route cats ds r or_else check_routes cats ds rs

unfoldable pub check_bounds : List SourceRoute → Option PlanError
unfolding bounded_admission
check_bounds [] = none
check_bounds (r ∷ rs) = bounded_admission r or_else check_bounds rs

unfoldable pub pilot_families : SourcePlan → List String
pilot_families p = distinct (map (λ r. r.family) (filter (λ r. is_pilot r.mode) p.routes))

-- `limits`, behind the validators of the routes: the first error, in the order of the source.
unfoldable pub check_plan : SourcePlan → Option PlanError
unfolding check_bounds check_routes
check_plan p =
    check_bounds p.routes
    or_else fail_if (not (all_distinct (map (λ r. r.source_id) p.routes)))
        PlanError.duplicate_source_id
    or_else fail_if (not (all_distinct (map (λ c. c.category) p.categories)))
        PlanError.duplicate_category
    or_else fail_if (ltb 2 (length (pilot_families p))) PlanError.at_most_two_pilot_families
    or_else fail_if
        (any (λ r. exceeds r.limits p.ceilings) p.routes
          || any (λ c. exceeds c.limits p.ceilings) p.categories)
        PlanError.route_or_category_exceeds_shared_ceiling
    or_else check_routes p.categories p.policy_decisions p.routes
    or_else fail_if (not (all_distinct (map (λ d. d.decision_id) p.policy_decisions)))
        PlanError.duplicate_policy_decision

-- `SourcePlan.route`
unfoldable pub find_route : String → SourcePlan → Option SourceRoute
find_route source_id p = find? (λ r. str_eq r.source_id source_id) p.routes

-- `SourcePlan.category`, which raises where there is none
unfoldable pub find_category : String → SourcePlan → Option CategoryLimit
find_category category p = find? (λ c. str_eq c.category category) p.categories
