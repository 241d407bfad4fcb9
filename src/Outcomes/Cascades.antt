-- ===== src/Outcomes/Cascades.antt =====
-- How `import_events` of jobhound/v41/outcomes.py drops the events whose links do not hold.
use job_hound.Base.{
  ℕ, zero, suc, String, Bool, true, false, not, ◌&&◌, ◌||◌, Option, none, some, List, [], ◌∷◌, leb,
  ◌==◌, str_eq, any, filter, length, find?, if◌then◌else◌,
}
use job_hound.Outcomes.Events.{
  same_scope, same_option, same_setup, same_assessment, same_work, same_outbound, SourceKind,
  OutcomeEvent, setup_identity,
}
use job_hound.Outcomes.Supported.{is_one_of}
use job_hound.Outcomes.Grouped.{Group, members_of}
use job_hound.Outcomes.Intakes.{Code, Rejected, Filed, reject_each, find_event}

-- The event that is pending under a candidate's id.
abbrev pub pending_event : Group Filed → OutcomeEvent
pending_event g = g.first.1

-- `{**known, **pending}.get(id)`
unfoldable pub available : List OutcomeEvent → List (Group Filed) → String → Option OutcomeEvent
available known pending id = elim (find? (λ g. str_eq g.key id) pending) [
  | some g ↦ some (pending_event g)
  | none ↦ find_event id known
]

abbrev pub is_seed : SourceKind → Bool
is_seed SourceKind.reviewed_seed = true
is_seed _ = false

-- `old.event_at and event.event_at and event.event_at <= old.event_at`
abbrev pub is_not_later : Option ℕ → Option ℕ → Bool
is_not_later (some old) (some new) = leb new old
is_not_later _ _ = false

-- What an event must share with an event that it supersedes.
unfoldable pub may_supersede : OutcomeEvent → OutcomeEvent → Bool
unfolding setup_identity
may_supersede e old =
    same_scope old.scope e.scope
    && str_eq old.predicate e.predicate
    && same_option same_assessment old.assessment e.assessment
    && same_option same_work old.work e.work
    && same_option same_outbound old.outbound e.outbound
    && not (
        is_one_of e ("setup_checklist" ∷ "setup_details_changed" ∷ [])
        && not (same_option same_setup (setup_identity e.value) (setup_identity old.value)))
    && not (leb e.observed_at old.observed_at)
    && not (is_not_later old.event_at e.event_at)
    && not (is_seed e.source_kind && not (is_seed old.source_kind))

unfoldable pub is_bad_link : List OutcomeEvent → List (Group Filed) → Group Filed → String → Bool
unfolding available may_supersede
is_bad_link known pending g old_id = elim (available known pending old_id) [
  | none ↦ true
  | some old ↦ str_eq old_id g.key || not (may_supersede (pending_event g) old)
]

unfoldable pub is_invalid : List OutcomeEvent → List (Group Filed) → Group Filed → Bool
unfolding is_bad_link
is_invalid known pending g = any (is_bad_link known pending g) (pending_event g).supersedes

unfoldable pub reject_groups : List (Group Filed) → List Rejected → List Rejected
unfolding reject_each
reject_groups [] qs = qs
reject_groups (g ∷ gs) qs =
    reject_groups gs (reject_each Code.invalid_supersession (members_of g) qs)

pub record Cascade : Type 0 where
  pub pending : List (Group Filed)
  pub quarantined : List Rejected

-- The loop that drops invalid events until none is left; it has as much fuel as there are events.
unfoldable pub cascade : ℕ → List OutcomeEvent → Cascade → Cascade
unfolding is_invalid reject_groups
cascade zero known s = s
cascade (suc fuel) known s =
    let invalid = filter (is_invalid known s.pending) s.pending in
    let rest = cascade fuel known (record {
      pending = filter (λ g. not (is_invalid known s.pending g)) s.pending;
      quarantined = reject_groups invalid s.quarantined;
    }) in
    if length invalid == 0 then s else rest
