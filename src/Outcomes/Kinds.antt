-- ===== src/Outcomes/Kinds.antt =====
-- What `supported_fact` of jobhound/v41/outcomes.py asks of a value, an actor or a source. Whether a
-- character is one of a word, and whether a text is a public route, are arguments.
use job_hound.Base.{
  ℕ, String, Bool, true, false, not, ◌&&◌, ◌||◌, Option, none, some, List, [], ◌∷◌, ltb, leb, ◌==◌,
  str_eq, contains, codes, all, length, if◌then◌else◌,
}
use job_hound.Outcomes.Events.{Value, Model, Actor, SourceKind, OutcomeEvent, Enums}

pub data FactError : Type 0 where
  unsupported_predicate setup_requires_version_5_and_application_scope : FactError
  setup_requires_reviewed_private_source setup_actor_source_mismatch invalid_setup_value : FactError
  version_5_is_setup_only outbound_identity_requires_version_4 : FactError
  outbound_reviewed_observation_required outbound_actor_mismatch : FactError
  generated_contact_requires_user version_4_is_outbound_only : FactError
  assessment_deadline_requires_exact_step assessment_identity_requires_version_2 : FactError
  work_identity_requires_version_3 work_identity_required work_identity_not_applicable : FactError
  version_3_is_work_only assessment_identity_required assessment_identity_not_applicable : FactError
  unsupported_value wrong_value_type invalid_scope_revision invalid_route : FactError
  private_or_unsafe_route event_after_observation invalid_expiry actor_source_mismatch : FactError
  community_cannot_establish_account_state buyer_fact_requires_buyer : FactError
  provider_route_required checks_require_user_review work_user_review_required : FactError
  work_counterparty_authority_required : FactError

-- The first error of which the condition holds.
unfoldable pub first_error : List (Bool × FactError) → Option FactError
first_error [] = none
first_error ((c, e) ∷ cs) = let rest = first_error cs in if c then some e else rest

unfoldable pub enum_of : String → Enums → Option (List String)
enum_of p [] = none
enum_of p ((q, vs) ∷ es) = let rest = enum_of p es in if str_eq q p then some vs else rest

abbrev pub is_user : Actor → Bool
is_user Actor.user = true
is_user _ = false

abbrev pub is_provider : Actor → Bool
is_provider Actor.provider = true
is_provider _ = false

abbrev pub is_buyer : Actor → Bool
is_buyer Actor.buyer = true
is_buyer _ = false

abbrev pub is_user_report : SourceKind → Bool
is_user_report SourceKind.user_report = true
is_user_report _ = false

abbrev pub is_community : SourceKind → Bool
is_community SourceKind.community = true
is_community _ = false

-- `source_kind not in {'mail', 'user_report'} or actor not in {'user', 'provider'}`
abbrev pub is_private : OutcomeEvent → Bool
is_private e = elim e.source_kind [
  | SourceKind.mail ↦ not (is_buyer e.actor)
  | SourceKind.user_report ↦ not (is_buyer e.actor)
  | SourceKind.community ↦ false
  | SourceKind.reviewed_seed ↦ false
]

abbrev pub is_text : String → Value → Bool
is_text s (Value.text t) = str_eq t s
is_text s _ = false

abbrev pub is_any_text : Value → Bool
is_any_text (Value.text t) = true
is_any_text _ = false

-- `isinstance(value, SetupChecklist)` and `isinstance(value, SetupIdentity)`, its parent
abbrev pub is_checklist : Value → Bool
is_checklist (Value.checklist i s) = true
is_checklist _ = false

abbrev pub is_setup : Value → Bool
is_setup (Value.checklist i s) = true
is_setup (Value.setup i) = true
is_setup _ = false

-- `self.value not in enums[self.predicate]`
unfoldable pub outside_enum : Option (List String) → Value → Bool
outside_enum none v = false
outside_enum (some vs) (Value.text t) = not (contains t vs)
outside_enum (some vs) _ = true

-- The models that a model is an instance of
unfoldable pub is_instance : Model → Model → Bool
is_instance Model.action_checks Model.action_checks = true
is_instance Model.action_checks Model.work_checks = true
is_instance Model.action_cost Model.action_cost = true
is_instance Model.work_terms Model.work_terms = true
is_instance Model.work_checks Model.work_checks = true
is_instance Model.work_cost Model.work_cost = true
is_instance Model.money_claim Model.money_claim = true
is_instance Model.money_claim Model.work_terms = true
is_instance Model.action_deadline Model.action_deadline = true
is_instance _ _ = false

-- The type that a predicate expects
pub data Expected : Type 0 where
  a_model : Model → Expected
  an_assessment a_work : Expected

unfoldable pub expected_of : String → List (String × Expected) → Option Expected
expected_of p [] = none
expected_of p ((q, x) ∷ xs) = let rest = expected_of p xs in if str_eq q p then some x else rest

abbrev pub expected : List (String × Expected)
expected =
    ("action_checks", Expected.a_model Model.action_checks)
    ∷ ("action_cost", Expected.a_model Model.action_cost)
    ∷ ("assessment_step", Expected.an_assessment)
    ∷ ("work_selection", Expected.a_work)
    ∷ ("work_terms", Expected.a_model Model.work_terms)
    ∷ ("work_checks", Expected.a_model Model.work_checks)
    ∷ ("work_cost", Expected.a_model Model.work_cost)
    ∷ ("invoice", Expected.a_model Model.money_claim)
    ∷ ("collected_payment", Expected.a_model Model.money_claim)
    ∷ ("assessment_deadline", Expected.a_model Model.action_deadline)
    ∷ ("work_deadline", Expected.a_model Model.action_deadline)
    ∷ []

unfoldable pub wrong_type : Option Expected → Value → Bool
unfolding is_instance
wrong_type none v = false
wrong_type (some (Expected.a_model m)) (Value.model n t) = not (is_instance m n)
wrong_type (some Expected.an_assessment) (Value.assessment i) = false
wrong_type (some Expected.a_work) (Value.work i) = false
wrong_type (some _) _ = true

-- `re.fullmatch(r'[\w.-]{1,80}', value)`
unfoldable pub is_revision_text : (ℕ → Bool) → Value → Bool
is_revision_text word (Value.text t) =
    let cs = codes t in
    leb 1 (length cs) && leb (length cs) 80 && all (λ c. word c || c == 46 || c == 45) cs
is_revision_text word _ = false

abbrev pub is_after : Option ℕ → ℕ → Bool
is_after none t = false
is_after (some s) t = ltb t s

-- `self.expires_at and self.expires_at <= (self.event_at or self.observed_at)`
abbrev pub expires_early : OutcomeEvent → Bool
expires_early e = elim e.expires_at [
  | none ↦ false
  | some x ↦ elim e.event_at [ none ↦ leb x e.observed_at | some at ↦ leb x at ]
]

unfoldable pub is_unsafe_route : (String → Bool) → Value → Bool
is_unsafe_route public (Value.text t) = not (public t)
is_unsafe_route public _ = false
