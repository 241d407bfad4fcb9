-- ===== src/Outcomes/Supported.antt =====
-- `OutcomeEvent.supported_fact` of jobhound/v41/outcomes.py. Whether a character is one of a word, and
-- whether a text is a public route, are arguments.
use job_hound.Base.{
  ℕ, String, Bool, not, ◌&&◌, ◌||◌, Option, List, [], ◌∷◌, ◌++◌, ◌==◌, contains, is_some,
  if◌then◌else◌,
}
use job_hound.Outcomes.Events.{
  OutcomeEvent, setup_predicates, assessment_predicates, work_enums, work_predicates,
  outbound_enums, outbound_predicates, enums,
}
use job_hound.Outcomes.Kinds.{
  FactError, first_error, enum_of, is_user, is_provider, is_buyer, is_user_report, is_community,
  is_private, is_text, is_any_text, is_checklist, is_setup, outside_enum, expected_of, expected,
  wrong_type, is_revision_text, is_after, expires_early, is_unsafe_route,
}

-- `_PREDICATES`
abbrev pub predicates : List String
predicates =
    ("application_state" ∷ "assessment_state" ∷ "project_access" ∷ "buyer_reply" ∷ [])
    ++ work_predicates
    ++ ("scope_revision" ∷ "agreed_scope_revision" ∷ [])
    ++ assessment_predicates
    ++ ("assessment_step" ∷ "work_selection" ∷ [])
    ++ outbound_predicates
    ++ setup_predicates

abbrev pub is_one_of : OutcomeEvent → List String → Bool
is_one_of e ps = contains e.predicate ps

-- The actor that a source of a set-up fact speaks for
abbrev pub speaks : OutcomeEvent → Bool
speaks e = if is_user_report e.source_kind then is_user e.actor else is_provider e.actor

abbrev pub is_work : OutcomeEvent → Bool
is_work e = is_one_of e work_predicates || is_one_of e ("work_selection" ∷ [])

unfoldable pub setup_checks : OutcomeEvent → List (Bool × FactError)
setup_checks e =
    let of_setup = is_one_of e setup_predicates in
    (
      of_setup
          && (not (e.schema_version == 5)
              || is_some e.assessment
              || is_some e.work
              || is_some e.outbound),
      FactError.setup_requires_version_5_and_application_scope,
    )
    ∷ (of_setup && not (is_private e), FactError.setup_requires_reviewed_private_source)
    ∷ (of_setup && not (speaks e), FactError.setup_actor_source_mismatch)
    ∷ (
      of_setup
          && not (
              if is_one_of e ("setup_checklist" ∷ [])
              then is_checklist e.value
              else is_setup e.value),
      FactError.invalid_setup_value,
    )
    ∷ (not of_setup && e.schema_version == 5, FactError.version_5_is_setup_only)
    ∷ []

unfoldable pub outbound_checks : OutcomeEvent → List (Bool × FactError)
outbound_checks e =
    let of_outbound = is_one_of e outbound_predicates in
    (
      of_outbound && (not (e.schema_version == 4) || not (is_some e.outbound)),
      FactError.outbound_identity_requires_version_4,
    )
    ∷ (of_outbound && not (is_private e), FactError.outbound_reviewed_observation_required)
    ∷ (
      is_one_of e ("outbound_state" ∷ [])
          && not (if is_text "sent" e.value then is_user e.actor else is_provider e.actor),
      FactError.outbound_actor_mismatch,
    )
    ∷ (
      is_one_of e ("contact_origin" ∷ []) && is_text "generated" e.value && not (is_user e.actor),
      FactError.generated_contact_requires_user,
    )
    ∷ (
      not of_outbound && (e.schema_version == 4 || is_some e.outbound),
      FactError.version_4_is_outbound_only,
    )
    ∷ []

unfoldable pub identity_checks : OutcomeEvent → List (Bool × FactError)
identity_checks e =
    let of_work = is_one_of e work_predicates in
    let of_assessment = is_one_of e assessment_predicates in
    (
      is_one_of e ("assessment_deadline" ∷ [])
          && (not (e.schema_version == 2) || not (is_some e.assessment)),
      FactError.assessment_deadline_requires_exact_step,
    )
    ∷ (
      (is_some e.assessment || is_one_of e ("assessment_step" ∷ [])) && not (e.schema_version == 2),
      FactError.assessment_identity_requires_version_2,
    )
    ∷ (
      (is_some e.work || is_work e) && not (e.schema_version == 3),
      FactError.work_identity_requires_version_3,
    )
    ∷ (of_work && not (is_some e.work), FactError.work_identity_required)
    ∷ (is_some e.work && not of_work, FactError.work_identity_not_applicable)
    ∷ (e.schema_version == 3 && not (is_work e), FactError.version_3_is_work_only)
    ∷ (
      e.schema_version == 2 && of_assessment && not (is_some e.assessment),
      FactError.assessment_identity_required,
    )
    ∷ (is_some e.assessment && not of_assessment, FactError.assessment_identity_not_applicable)
    ∷ []

unfoldable pub value_checks : (ℕ → Bool) → (String → Bool) → OutcomeEvent → List (Bool × FactError)
unfolding outside_enum enum_of wrong_type expected_of is_revision_text is_unsafe_route
value_checks word public e =
    let of_route = is_one_of e ("assessment_route" ∷ "work_route" ∷ []) in
    (
      outside_enum (enum_of e.predicate (enums ++ work_enums ++ outbound_enums)) e.value,
      FactError.unsupported_value,
    )
    ∷ (wrong_type (expected_of e.predicate expected) e.value, FactError.wrong_value_type)
    ∷ (
      is_one_of e ("scope_revision" ∷ "agreed_scope_revision" ∷ [])
          && not (is_revision_text word e.value),
      FactError.invalid_scope_revision,
    )
    ∷ (of_route && not (is_any_text e.value), FactError.invalid_route)
    ∷ (of_route && is_unsafe_route public e.value, FactError.private_or_unsafe_route)
    ∷ (is_after e.event_at e.observed_at, FactError.event_after_observation)
    ∷ (expires_early e, FactError.invalid_expiry)
    ∷ []

unfoldable pub authority_checks : OutcomeEvent → List (Bool × FactError)
authority_checks e =
    (is_user_report e.source_kind && not (is_user e.actor), FactError.actor_source_mismatch)
    ∷ (
      is_community e.source_kind
          && (not (is_buyer e.actor)
              || not
                  (is_one_of e ("buyer_reply" ∷ "scope_revision" ∷ "agreed_scope_revision" ∷ []))),
      FactError.community_cannot_establish_account_state,
    )
    ∷ (
      is_one_of e ("buyer_reply" ∷ "scope_revision" ∷ []) && not (is_buyer e.actor),
      FactError.buyer_fact_requires_buyer,
    )
    ∷ (
      is_one_of e ("assessment_route" ∷ "assessment_step" ∷ "assessment_deadline" ∷ [])
          && not (is_provider e.actor),
      FactError.provider_route_required,
    )
    ∷ (
      is_one_of e ("action_checks" ∷ []) && not (is_user e.actor),
      FactError.checks_require_user_review,
    )
    ∷ (
      is_one_of e ("work_selection" ∷ "work_checks" ∷ "collected_payment" ∷ [])
          && (not (is_user e.actor) || not (is_user_report e.source_kind)),
      FactError.work_user_review_required,
    )
    ∷ (
      (is_one_of e (
              "allocation_state" ∷ "payable_approval" ∷ "work_terms" ∷ "work_route" ∷ "invoice"
              ∷ "work_deadline" ∷ [])
            || is_one_of e ("work_state" ∷ []) && is_text "accepted" e.value)
          && is_user e.actor,
      FactError.work_counterparty_authority_required,
    )
    ∷ []

-- `supported_fact`: the first rule that an event breaks
unfoldable pub supported_fact : (ℕ → Bool) → (String → Bool) → OutcomeEvent → Option FactError
unfolding first_error setup_checks outbound_checks identity_checks value_checks authority_checks
supported_fact word public e = first_error (
    (not (is_one_of e predicates), FactError.unsupported_predicate) ∷ setup_checks e
    ++ outbound_checks e
    ++ identity_checks e
    ++ value_checks word public e
    ++ authority_checks e)
