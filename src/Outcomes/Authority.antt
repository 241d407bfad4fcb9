-- ===== src/Outcomes/Authority.antt =====
-- What an event promises that breaks no rule.
use job_hound.Base.{
  ℕ, ◌≡◌, String, Bool, true, false, not, ◌&&◌, List, [], ◌∷◌, ◌++◌, All, is_some, ◌==◌,
  if◌then◌else◌,
}
use job_hound.Outcomes.Events.{
  OutcomeEvent, setup_predicates, assessment_predicates, work_predicates, outbound_predicates,
  enums, work_enums, outbound_enums,
}
use job_hound.Outcomes.Kinds.{
  FactError, is_user, is_provider, is_buyer, is_private, outside_enum, enum_of, wrong_type,
  expected_of, expected, expires_early, is_user_report, is_community, is_text, is_after,
  is_checklist, is_setup, is_any_text, is_revision_text, is_unsafe_route,
}
use job_hound.Outcomes.Supported.{
  is_one_of, is_work, speaks, predicates, setup_checks, outbound_checks, identity_checks,
  value_checks, authority_checks,
}

abbrev Holds : List (Bool × FactError) → Type 0
Holds = All (λ c. c.0 ≡ false)

record Passed (word : ℕ → Bool) (public : String → Bool) (e : OutcomeEvent) : Type 0 where
  known_holds : not (is_one_of e predicates) ≡ false
  setup_holds : Holds (setup_checks e)
  outbound_holds : Holds (outbound_checks e)
  identity_holds : Holds (identity_checks e)
  value_holds : Holds (value_checks word public e)
  authority_holds : Holds (authority_checks e)

-- The family of an event tells its version and its identities, and its actor has the authority.
pub record IsSupported (word : ℕ → Bool) (public : String → Bool) (e : OutcomeEvent) : Type 0 where
  pub known : not (is_one_of e predicates) ≡ false
  pub setup_version : (e.schema_version == 5) ≡ is_one_of e setup_predicates
  pub outbound_version : (e.schema_version == 4) ≡ is_one_of e outbound_predicates
  pub work_version : (e.schema_version == 3) ≡ is_work e
  pub work_identity : is_some e.work ≡ is_one_of e work_predicates
  pub outbound_identity : is_some e.outbound ≡ is_one_of e outbound_predicates
  pub assessment_identity :
      is_some e.assessment ≡ true
      → ((e.schema_version == 2) ≡ true) × (is_one_of e assessment_predicates ≡ true)
  pub assessment_step : is_one_of e ("assessment_step" ∷ []) ≡ true → (e.schema_version == 2) ≡ true
  pub deadline_identity :
      is_one_of e ("assessment_deadline" ∷ []) ≡ true → is_some e.assessment ≡ true
  pub versioned_assessment :
      ((e.schema_version == 2) && is_one_of e assessment_predicates) ≡ true
      → is_some e.assessment ≡ true
  pub setup_alone :
      is_one_of e setup_predicates ≡ true
      → (is_some e.assessment ≡ false) × (is_some e.work ≡ false) × (is_some e.outbound ≡ false)
  pub setup_private : is_one_of e setup_predicates ≡ true → is_private e ≡ true
  pub setup_speaker : is_one_of e setup_predicates ≡ true → speaks e ≡ true
  pub outbound_private : is_one_of e outbound_predicates ≡ true → is_private e ≡ true
  pub sent_by_user :
      is_one_of e ("outbound_state" ∷ []) ≡ true
      → (if is_text "sent" e.value then is_user e.actor else is_provider e.actor) ≡ true
  pub generated_by_user :
      (is_one_of e ("contact_origin" ∷ []) && is_text "generated" e.value) ≡ true
      → is_user e.actor ≡ true
  pub reported : is_user_report e.source_kind ≡ true → is_user e.actor ≡ true
  pub community :
      is_community e.source_kind ≡ true
      → (is_buyer e.actor ≡ true)
        × (is_one_of e ("buyer_reply" ∷ "scope_revision" ∷ "agreed_scope_revision" ∷ []) ≡ true)
  pub buyer_fact :
      is_one_of e ("buyer_reply" ∷ "scope_revision" ∷ []) ≡ true → is_buyer e.actor ≡ true
  pub provider_fact :
      is_one_of e ("assessment_route" ∷ "assessment_step" ∷ "assessment_deadline" ∷ []) ≡ true
      → is_provider e.actor ≡ true
  pub checked_by_user : is_one_of e ("action_checks" ∷ []) ≡ true → is_user e.actor ≡ true
  pub collected :
      is_one_of e ("work_selection" ∷ "work_checks" ∷ "collected_payment" ∷ []) ≡ true
      → (is_user e.actor ≡ true) × (is_user_report e.source_kind ≡ true)
  pub counterparty :
      is_one_of e (
          "allocation_state" ∷ "payable_approval" ∷ "work_terms" ∷ "work_route" ∷ "invoice"
          ∷ "work_deadline" ∷ [])
        ≡ true
      → is_user e.actor ≡ false
  pub accepted :
      is_one_of e ("work_state" ∷ []) && is_text "accepted" e.value ≡ true → is_user e.actor ≡ false
  pub setup_value :
      is_one_of e setup_predicates ≡ true
      → (if is_one_of e ("setup_checklist" ∷ []) then is_checklist e.value else is_setup e.value)
        ≡ true
  pub revision_text :
      is_one_of e ("scope_revision" ∷ "agreed_scope_revision" ∷ []) ≡ true
      → is_revision_text word e.value ≡ true
  pub route_text :
      is_one_of e ("assessment_route" ∷ "work_route" ∷ []) ≡ true → is_any_text e.value ≡ true
  pub public_route :
      is_one_of e ("assessment_route" ∷ "work_route" ∷ []) ≡ true
      → is_unsafe_route public e.value ≡ false
  pub in_enum :
      outside_enum (enum_of e.predicate (enums ++ work_enums ++ outbound_enums)) e.value ≡ false
  pub typed : wrong_type (expected_of e.predicate expected) e.value ≡ false
  pub unexpired : expires_early e ≡ false
  pub observed : is_after e.event_at e.observed_at ≡ false
