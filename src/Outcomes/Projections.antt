-- ===== src/Outcomes/Projections.antt =====
-- `project` of jobhound/v41/outcomes.py.
use job_hound.Base.{
  ℕ, String, Bool, true, false, not, ◌&&◌, ◌||◌, Option, none, some, List, [], ◌∷◌, ◌++◌, ltb,
  str_eq, any, filter, map, length, contains, distinct, is_some, if◌then◌else◌,
}
use Prim.Native.String.{◌++◌ as ◌+++◌}
use job_hound.Outcomes.Events.{
  Scope, same_scope, ChecklistState, Value, Actor, SourceKind, OutcomeEvent, setup_identity,
  predicate_key,
}
use job_hound.Outcomes.Kinds.{is_text, is_user, is_provider, is_buyer}
use job_hound.Outcomes.Supported.{is_one_of}
use job_hound.Outcomes.Grouped.{Group, members_of, append_to, sort_by}

abbrev pub state_text : ChecklistState → String
state_text ChecklistState.pending = "pending"
state_text ChecklistState.completed = "completed"

-- `json.dumps(value, sort_keys=True)`
unfoldable pub value_json : (String → String) → Value → String
value_json quote (Value.text t) = quote t
value_json quote (Value.checklist i s) =
    "{\"checklist_id\": "
    +++ quote i.checklist_id
    +++ ", \"revision\": "
    +++ quote i.revision
    +++ ", \"state\": "
    +++ quote (state_text s)
    +++ "}"
value_json quote (Value.setup i) =
    "{\"checklist_id\": "
    +++ quote i.checklist_id
    +++ ", \"revision\": "
    +++ quote i.revision
    +++ "}"
value_json quote (Value.assessment i) =
    "{\"revision\": " +++ quote i.revision +++ ", \"step_id\": " +++ quote i.step_id +++ "}"
value_json quote (Value.work i) =
    "{\"allocation_id\": "
    +++ quote i.allocation_id
    +++ ", \"project_id\": "
    +++ quote i.project_id
    +++ ", \"revision\": "
    +++ quote i.revision
    +++ "}"
value_json quote (Value.model m t) = t

-- The key that an event is grouped under.
unfoldable pub event_key : (String → String) → OutcomeEvent → String
unfolding predicate_key setup_identity
event_key quote e = predicate_key quote e.predicate e.assessment e.work e.outbound (
    if is_one_of e ("setup_checklist" ∷ "setup_details_changed" ∷ [])
    then setup_identity e.value
    else none)

abbrev pub same_actor : Actor → Actor → Bool
same_actor Actor.user b = is_user b
same_actor Actor.provider b = is_provider b
same_actor Actor.buyer b = is_buyer b

unfoldable pub same_source : SourceKind → SourceKind → Bool
same_source SourceKind.user_report SourceKind.user_report = true
same_source SourceKind.mail SourceKind.mail = true
same_source SourceKind.community SourceKind.community = true
same_source SourceKind.reviewed_seed SourceKind.reviewed_seed = true
same_source _ _ = false

-- `new.event_at > old.event_at`, where both are known
abbrev pub happened_later : Option ℕ → Option ℕ → Bool
happened_later (some old) (some new) = ltb old new
happened_later _ _ = false

abbrev pub is_completed : Value → Bool
is_completed (Value.checklist i ChecklistState.completed) = true
is_completed _ = false

-- `terminal`: what no later fact overtakes by its time alone
unfoldable pub is_terminal : OutcomeEvent → Bool
is_terminal e =
    is_one_of e ("assessment_deadline" ∷ "work_deadline" ∷ [])
    || (is_one_of e ("setup_checklist" ∷ []) && is_completed e.value)
    || (is_one_of e ("outbound_state" ∷ []) && is_text "bounced" e.value)
    || (is_one_of e ("application_state" ∷ [])
        && (is_text "rejected" e.value || is_text "withdrawn" e.value))
    || (is_some e.assessment
        && is_one_of e ("assessment_state" ∷ [])
        && (is_text "completed" e.value || is_text "passed" e.value))
    || (is_some e.work
        && (is_one_of e ("work_state" ∷ "invoice" ∷ "collected_payment" ∷ [])
            || (is_one_of e ("allocation_state" ∷ [])
                && (is_text "revoked" e.value || is_text "finished" e.value))))

unfoldable pub overtakes : OutcomeEvent → OutcomeEvent → Bool
unfolding is_terminal same_source
overtakes old new =
    same_actor old.actor new.actor
    && same_source old.source_kind new.source_kind
    && happened_later old.event_at new.event_at
    && not (is_terminal old)
    && not (contains old.event_id new.supersedes)

unfoldable pub superseded_by_name : List OutcomeEvent → List String
superseded_by_name [] = []
superseded_by_name (e ∷ es) = e.supersedes ++ superseded_by_name es

-- `removed`
unfoldable pub removed : List OutcomeEvent → List String
unfolding superseded_by_name overtakes
removed facts =
    superseded_by_name facts
    ++ map (λ e. e.event_id) (filter (λ old. any (overtakes old) facts) facts)

unfoldable pub active : List OutcomeEvent → List OutcomeEvent
unfolding removed
active facts = let gone = removed facts in filter (λ e. not (contains e.event_id gone)) facts

unfoldable pub is_conflict : (String → String) → List OutcomeEvent → Bool
unfolding active value_json
is_conflict quote facts =
    ltb 1 (length (distinct (map (λ e. value_json quote e.value) (active facts))))

pub data Disposition : Type 0 where
  superseded conflict current : Disposition

-- A dictionary, its entries in the order of their keys' arrival.
unfoldable pub set_entry : {A : Type 0} → String → A → List (String × A) → List (String × A)
set_entry k x [] = (k, x) ∷ []
set_entry k x ((j, y) ∷ es) =
    let rest = set_entry k x es in if str_eq j k then (j, x) ∷ es else (j, y) ∷ rest

unfoldable pub entry : {A : Type 0} → String → List (String × A) → Option A
entry k [] = none
entry k ((j, x) ∷ es) = let rest = entry k es in if str_eq j k then some x else rest

pub record OutcomeProjection : Type 0 where
  pub scope : Scope
  pub events : List OutcomeEvent
  pub current : List (String × List String)
  pub conflicts : List String
  pub dispositions : List (String × Disposition)

unfoldable pub dispose_each :
    List String
    → Bool
    → List OutcomeEvent
    → List (String × Disposition)
    → List (String × Disposition)
unfolding set_entry
dispose_each gone clash [] ds = ds
dispose_each gone clash (e ∷ es) ds = dispose_each gone clash es (
    set_entry e.event_id
      (if contains e.event_id gone
        then Disposition.superseded
        else if clash
        then Disposition.conflict
        else Disposition.current)
      ds)

unfoldable pub project_group :
    (String → String) → Group OutcomeEvent → OutcomeProjection → OutcomeProjection
unfolding is_conflict active dispose_each removed set_entry
project_group quote g p =
    let facts = members_of g in
    let clash = is_conflict quote facts in
    record p {
      current = set_entry g.key (map (λ e. e.event_id) (active facts)) p.current;
      conflicts = if clash then p.conflicts ++ g.key ∷ [] else p.conflicts;
      dispositions = dispose_each (removed facts) clash facts p.dispositions;
    }

unfoldable pub project_groups :
    (String → String) → List (Group OutcomeEvent) → OutcomeProjection → OutcomeProjection
unfolding project_group
project_groups quote [] p = p
project_groups quote (g ∷ gs) p = project_groups quote gs (project_group quote g p)

unfoldable pub group_each :
    (String → String) → List OutcomeEvent → List (Group OutcomeEvent) → List (Group OutcomeEvent)
unfolding append_to event_key
group_each quote [] gs = gs
group_each quote (e ∷ es) gs = group_each quote es (append_to (event_key quote e) e gs)

-- `project`
unfoldable pub project : (String → String) → List OutcomeEvent → Scope → OutcomeProjection
unfolding project_groups group_each sort_by
project quote events scope =
    let rows = sort_by (λ e. e.event_id) (filter (λ e. same_scope e.scope scope) events) in
    project_groups quote (sort_by (λ g. g.key) (group_each quote rows []))
      (record { scope = scope; events = rows; current = []; conflicts = []; dispositions = [] })
