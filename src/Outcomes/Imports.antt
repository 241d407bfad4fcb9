-- ===== src/Outcomes/Imports.antt =====
-- `import_events` of jobhound/v41/outcomes.py. A record arrives as the event that its fields parse to,
-- or as none; how an event is encoded is an argument.
use job_hound.Base.{
  ℕ, ◌+◌, String, Bool, true, not, ◌&&◌, Option, some, List, [], ◌∷◌, ◌++◌, ltb, ◌==◌, str_eq, any,
  map, length, if◌then◌else◌,
}
use job_hound.Base.Results.{Attempt, ok, err, ◌>>=◌}
use job_hound.Outcomes.Events.{Scope, same_scope, OutcomeEvent}
use job_hound.Outcomes.Grouped.{Group, sort_by}
use job_hound.Outcomes.Intakes.{max_journal_events, Rejected, Filed, Intake, take_records, triage}
use job_hound.Outcomes.Cascades.{pending_event, cascade}

unfoldable pub extra_copies : List (Group Filed) → ℕ
extra_copies [] = 0
extra_copies (g ∷ gs) = length g.rest + extra_copies gs

-- `sorted(quarantine, key=lambda q: q['line'])`
unfoldable pub insert_line : Rejected → List Rejected → List Rejected
insert_line q [] = q ∷ []
insert_line q (r ∷ rs) =
    let rest = insert_line q rs in if ltb r.line q.line then r ∷ rest else q ∷ r ∷ rs

unfoldable pub sort_lines : List Rejected → List Rejected
unfolding insert_line
sort_lines [] = []
sort_lines (q ∷ qs) = insert_line q (sort_lines qs)

pub data ImportError : Type 0 where
  duplicate_binding_scope invalid_previous_journal duplicate_previous_event_id : ImportError
  outcome_journal_limit : ImportError

-- The result, without its projections.
pub record Imported : Type 0 where
  pub events : List OutcomeEvent
  pub quarantine : List Rejected
  pub input_count : ℕ
  pub quarantined_count : ℕ
  pub accepted_count : ℕ
  pub duplicate_count : ℕ

unfoldable pub distinct_scopes : List Scope → Bool
distinct_scopes [] = true
distinct_scopes (s ∷ ss) = not (any (same_scope s) ss) && distinct_scopes ss

abbrev pub no_intake : Intake
no_intake = record { batch = []; quarantine = [] }

-- The body of `import_events` behind the checks of the previous journal.
unfoldable pub import_batch :
    (ℕ → Bool)
    → (String → Bool)
    → (OutcomeEvent → String)
    → List (Option OutcomeEvent)
    → List Scope
    → ℕ
    → List OutcomeEvent
    → Attempt ImportError Imported
unfolding take_records triage cascade extra_copies sort_by sort_lines
import_batch word public encode records scopes as_of known =
    let taken = take_records word public scopes as_of 1 records no_intake in
    let t =
      triage encode known (sort_by (λ g. g.key) taken.batch)
        (record { candidates = []; duplicates = 0; set_aside = taken.quarantine }) in
    let c =
      cascade (length t.candidates) known
        (record { pending = t.candidates; quarantined = t.set_aside }) in
    let journal = sort_by (λ e. e.event_id) (known ++ map pending_event c.pending) in
    if ltb max_journal_events (length journal)
    then err ImportError.outcome_journal_limit
    else ok (record {
      events = journal;
      quarantine = sort_lines c.quarantined;
      input_count = length records;
      quarantined_count = length c.quarantined;
      accepted_count = length c.pending;
      duplicate_count = t.duplicates + extra_copies c.pending;
    })

-- `checked['counts']['quarantined'] or checked['counts']['duplicate']`
abbrev pub is_clean : Imported → Bool
is_clean r = r.quarantined_count == 0 && r.duplicate_count == 0

unfoldable pub distinct_events : List OutcomeEvent → Bool
distinct_events [] = true
distinct_events (e ∷ es) = not (any (λ f. str_eq f.event_id e.event_id) es) && distinct_events es

abbrev pub refuse : Bool → ImportError → Attempt ImportError (Unit {0})
refuse c e = if c then err e else ok tt

-- The check of the journal that is passed in: it is imported anew, on its own.
unfoldable pub check_previous :
    (ℕ → Bool)
    → (String → Bool)
    → (OutcomeEvent → String)
    → List OutcomeEvent
    → List Scope
    → ℕ
    → Attempt ImportError (Unit {0})
unfolding import_batch distinct_events
check_previous word public encode [] scopes as_of = ok tt
check_previous word public encode (e ∷ es) scopes as_of =
    import_batch word public encode (map (λ e. some e) (e ∷ es)) scopes as_of [] >>= λ checked.
    refuse (not (is_clean checked)) ImportError.invalid_previous_journal

-- `import_events`, for the scopes of the bindings
unfoldable pub import_events :
    (ℕ → Bool)
    → (String → Bool)
    → (OutcomeEvent → String)
    → List (Option OutcomeEvent)
    → List Scope
    → ℕ
    → List OutcomeEvent
    → Attempt ImportError Imported
unfolding import_batch check_previous distinct_scopes distinct_events
import_events word public encode records scopes as_of previous =
    refuse (not (distinct_scopes scopes)) ImportError.duplicate_binding_scope >>= λ _.
    check_previous word public encode previous scopes as_of >>= λ _.
    refuse (not (distinct_events previous)) ImportError.duplicate_previous_event_id >>= λ _.
    import_batch word public encode records scopes as_of previous
