-- ===== src/Outcomes/Queries.antt =====
-- The queries of `OutcomeProjection` and `compatibility_state` of jobhound/v41/outcomes.py.
use job_hound.Base.{
  ℕ, String, Bool, true, false, not, ◌&&◌, ◌||◌, Option, none, some, List, [], ◌∷◌, ◌++◌, ◌==◌,
  str_eq, codes, any, filter, map, contains, is_some, if◌then◌else◌,
}
use job_hound.Outcomes.Events.{
  SetupIdentity, AssessmentIdentity, WorkIdentity, same_option, same_assessment, same_work, Value,
  OutcomeEvent, setup_identity, predicate_key, setup_predicates, assessment_predicates,
  outbound_predicates,
}
use job_hound.Outcomes.Kinds.{is_text}
use job_hound.Outcomes.Supported.{is_one_of}
use job_hound.Outcomes.Projections.{entry, OutcomeProjection}

-- `has_action_facts`
unfoldable pub has_action_facts : OutcomeProjection → Bool
has_action_facts p = any (λ e. not (is_one_of e outbound_predicates)) p.events

abbrev pub or_empty : Option (List String) → List String
or_empty none = []
or_empty (some ids) = ids

-- `facts`, by the key of a predicate
unfoldable pub facts : OutcomeProjection → String → List OutcomeEvent
unfolding entry
facts p key =
    let ids = or_empty (entry key p.current) in filter (λ e. contains e.event_id ids) p.events

abbrev pub first_value : List OutcomeEvent → Option Value
first_value [] = none
first_value (e ∷ es) = some e.value

-- `value`, by the key of a predicate
unfoldable pub value : OutcomeProjection → String → Option Value
unfolding facts
value p key = if contains key p.conflicts then none else first_value (facts p key)

unfoldable pub starts_with : List ℕ → List ℕ → Bool
starts_with [] cs = true
starts_with (a ∷ xs) [] = false
starts_with (a ∷ xs) (c ∷ cs) = a == c && starts_with xs cs

abbrev pub has_prefix : String → String → Bool
has_prefix prefix key = starts_with (codes prefix) (codes key)

abbrev pub is_value : String → Option Value → Bool
is_value s none = false
is_value s (some v) = is_text s v

abbrev pub chosen_setup : Option Value → Option SetupIdentity
chosen_setup none = none
chosen_setup (some v) = setup_identity v

abbrev pub chosen_work : Option Value → Option WorkIdentity
chosen_work (some (Value.work w)) = some w
chosen_work _ = none

abbrev pub chosen_step : Option Value → Option AssessmentIdentity
chosen_step (some (Value.assessment a)) = some a
chosen_step _ = none

abbrev pub is_setup_key : String → Bool
is_setup_key key = has_prefix "setup:" key

-- The conflicts that an ended application or another checklist leaves.
unfoldable pub setup_conflicts : (String → String) → OutcomeProjection → List String → List String
unfolding value predicate_key starts_with setup_identity
setup_conflicts quote p keys =
    let ended =
      is_value "rejected" (value p "application_state")
      || is_value "withdrawn" (value p "application_state")
      || is_value "blocked" (value p "project_access") in
    let open_keys =
      if ended
      then filter (λ k. not (is_setup_key k) && not (str_eq k "setup_selection")) keys
      else keys in
    elim (chosen_setup (value p "setup_selection")) [
      | none ↦ open_keys
      | some i ↦
          filter
            (λ k.
              not (is_setup_key k)
              || str_eq k (predicate_key quote "setup_checklist" none none none (some i)))
            open_keys
    ]

abbrev pub is_nil : List OutcomeEvent → Bool
is_nil [] = true
is_nil (e ∷ es) = false

-- The keys that matter to the work that is selected.
unfoldable pub work_keys : (String → String) → OutcomeProjection → WorkIdentity → List String
unfolding facts predicate_key
work_keys quote p w =
    let key = λ (predicate : String). predicate_key quote predicate none (some w) none none in
    let keys =
      map (λ e. predicate_key quote e.predicate e.assessment e.work none none)
        (filter
          (λ e.
            same_option same_work e.work (some w)
            || is_one_of e ("work_selection" ∷ "application_state" ∷ "project_access" ∷ []))
          p.events) in
    let under_way =
      not (is_nil (facts p (key "work_state")))
      || not (is_nil (facts p (key "invoice")))
      || not (is_nil (facts p (key "collected_payment"))) in
    if under_way then filter (λ k. not (str_eq k (key "work_deadline"))) keys else keys

-- The keys that matter to the assessment step that is selected.
unfoldable pub step_keys : (String → String) → OutcomeProjection → AssessmentIdentity → List String
unfolding value predicate_key
step_keys quote p a =
    let key = λ (predicate : String). predicate_key quote predicate (some a) none none none in
    let keys =
      map (λ e. predicate_key quote e.predicate e.assessment none none none)
        (filter
          (λ e.
            same_option same_assessment e.assessment (some a)
            || (not (is_some e.assessment)
                && not (is_one_of e (assessment_predicates ++ setup_predicates))))
          p.events) in
    let state = value p (key "assessment_state") in
    if is_value "completed" state || is_value "passed" state
    then filter (λ k. not (str_eq k (key "assessment_deadline"))) keys
    else keys

-- `action_conflicts`
unfoldable pub action_conflicts : (String → String) → OutcomeProjection → List String
unfolding setup_conflicts work_keys step_keys value starts_with
action_conflicts quote p =
    let keys = setup_conflicts quote p (filter (λ k. not (has_prefix "outbound:" k)) p.conflicts) in
    elim (chosen_work (value p "work_selection")) [
      | some w ↦ filter (λ k. contains k (work_keys quote p w)) keys
      | none ↦ elim (chosen_step (value p "assessment_step")) [
        | some a ↦ filter (λ k. contains k (step_keys quote p a)) keys
        | none ↦ keys
      ]
    ]

-- `mapping`, whose targets are its sources
abbrev pub legacy_predicates : List String
legacy_predicates =
    "application_state" ∷ "assessment_state" ∷ "project_access" ∷ "assessment_route" ∷ []

abbrev pub legacy_value : String → Value → Value
legacy_value key v =
    if str_eq key "application_state" && is_text "submitted" v then Value.text "applied" else v

unfoldable pub legacy_entries : OutcomeProjection → List String → List (String × Value)
unfolding value
legacy_entries p [] = []
legacy_entries p (k ∷ ks) =
    let rest = legacy_entries p ks in
    elim (value p k) [ none ↦ rest | some v ↦ (k, legacy_value k v) ∷ rest ]

-- `compatibility_state`
unfoldable pub compatibility_state : OutcomeProjection → List (String × Value)
unfolding legacy_entries facts
compatibility_state p =
    let by_step =
      not (is_nil (facts p "assessment_step")) || any (λ e. is_some e.assessment) p.events in
    legacy_entries p (
      if by_step
      then filter (λ k. not (contains k assessment_predicates)) legacy_predicates
      else legacy_predicates)
