-- ===== src/Outcomes/Intakes.antt =====
-- How `import_events` of jobhound/v41/outcomes.py takes its records in. A record arrives as the event that
-- its fields parse to, or as none; how an event is encoded is an argument.
use job_hound.Base.{
  ℕ, suc, ◌+◌, String, Bool, false, not, ◌||◌, Option, none, some, List, [], ◌∷◌, ◌++◌, ltb, str_eq,
  any, map, length, find?, contains, distinct, is_some, if◌then◌else◌,
}
use job_hound.Outcomes.Events.{Scope, same_scope, OutcomeEvent}
use job_hound.Outcomes.Supported.{supported_fact}
use job_hound.Outcomes.Kinds.{is_after}
use job_hound.Outcomes.Grouped.{Group, members_of, append_to}

abbrev pub max_journal_events : ℕ
max_journal_events = 5000

-- Why a record is set aside.
pub data Code : Type 0 where
  invalid_event_schema unmatched_scope future_evidence event_id_collision : Code
  invalid_supersession : Code

pub record Rejected : Type 0 where
  pub line : ℕ
  pub code : Code

-- A record of the batch with its line.
abbrev pub Filed : Type 0
Filed = ℕ × OutcomeEvent

pub record Intake : Type 0 where
  pub batch : List (Group Filed)
  pub quarantine : List Rejected

abbrev pub reject : ℕ → Code → List Rejected → List Rejected
reject line code qs = qs ++ record { line = line; code = code } ∷ []

abbrev pub is_future : ℕ → OutcomeEvent → Bool
is_future as_of e = ltb as_of e.observed_at || is_after e.event_at as_of

unfoldable pub take_event : List Scope → ℕ → ℕ → OutcomeEvent → Intake → Intake
unfolding append_to
take_event scopes as_of line e s =
    if not (any (same_scope e.scope) scopes)
    then record s { quarantine = reject line Code.unmatched_scope s.quarantine }
    else if is_future as_of e
    then record s { quarantine = reject line Code.future_evidence s.quarantine }
    else record s { batch = append_to e.event_id (line, e) s.batch }

-- `OutcomeEvent.model_validate` of a record whose fields are parsed
unfoldable pub validate : (ℕ → Bool) → (String → Bool) → Option OutcomeEvent → Option OutcomeEvent
unfolding supported_fact
validate word public none = none
validate word public (some e) = if is_some (supported_fact word public e) then none else some e

unfoldable pub take_record : List Scope → ℕ → ℕ → Option OutcomeEvent → Intake → Intake
unfolding take_event
take_record scopes as_of line none s = record s {
  quarantine = reject line Code.invalid_event_schema s.quarantine;
}
take_record scopes as_of line (some e) s = take_event scopes as_of line e s

-- The loop over the records, counted from one.
unfoldable pub take_records :
    (ℕ → Bool) → (String → Bool) → List Scope → ℕ → ℕ → List (Option OutcomeEvent) → Intake → Intake
unfolding validate take_record
take_records word public scopes as_of line [] s = s
take_records word public scopes as_of line (r ∷ rs) s =
    take_records word public scopes as_of (suc line) rs
      (take_record scopes as_of line (validate word public r) s)

unfoldable pub reject_each : Code → List Filed → List Rejected → List Rejected
reject_each code [] qs = qs
reject_each code ((line, e) ∷ fs) qs = reject_each code fs (reject line code qs)

abbrev pub find_event : String → List OutcomeEvent → Option OutcomeEvent
find_event id = find? (λ e. str_eq e.event_id id)

-- `prior and _encoded(prior) not in signatures`
unfoldable pub differs : (OutcomeEvent → String) → Option OutcomeEvent → List String → Bool
differs encode none signatures = false
differs encode (some prior) signatures = not (contains (encode prior) signatures)

pub record Triage : Type 0 where
  pub candidates : List (Group Filed)
  pub duplicates : ℕ
  pub set_aside : List Rejected

unfoldable pub triage_group :
    (OutcomeEvent → String) → List OutcomeEvent → Triage → Group Filed → Triage
unfolding differs reject_each
triage_group encode known t g =
    let signatures = map (λ f. encode f.1) (members_of g) in
    let prior = find_event g.key known in
    if ltb 1 (length (distinct signatures)) || differs encode prior signatures
    then record t { set_aside = reject_each Code.event_id_collision (members_of g) t.set_aside }
    else if is_some prior
    then record t { duplicates = t.duplicates + length (members_of g) }
    else record t { candidates = t.candidates ++ g ∷ [] }

unfoldable pub triage :
    (OutcomeEvent → String) → List OutcomeEvent → List (Group Filed) → Triage → Triage
unfolding triage_group
triage encode known [] t = t
triage encode known (g ∷ gs) t = triage encode known gs (triage_group encode known t g)
