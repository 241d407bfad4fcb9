-- ===== src/Outcomes/Events.antt =====
-- The events of jobhound/v41/outcomes.py and their keys. Times are whole units of one clock. How JSON
-- writes a text is an argument, `quote`.
use job_hound.Base.{ℕ, String, Bool, true, false, ◌&&◌, Option, none, some, List, [], ◌∷◌, str_eq}
use Prim.Native.String.{◌++◌ as ◌+++◌}

-- `OutcomeScope`
pub record Scope : Type 0 where
  pub provider : String
  pub portal : String
  pub role : String
  pub account : String
  pub attempt : String

-- Scopes with one key: `json.dumps` writes different fields differently.
abbrev pub same_scope : Scope → Scope → Bool
same_scope a b =
    str_eq a.provider b.provider
    && str_eq a.portal b.portal
    && str_eq a.role b.role
    && str_eq a.account b.account
    && str_eq a.attempt b.attempt

-- `SetupIdentity`
pub record SetupIdentity : Type 0 where
  pub checklist_id : String
  pub revision : String

-- `AssessmentIdentity`
pub record AssessmentIdentity : Type 0 where
  pub step_id : String
  pub revision : String

-- `WorkIdentity`
pub record WorkIdentity : Type 0 where
  pub project_id : String
  pub allocation_id : String
  pub revision : String

-- `OutboundIdentity`
pub record OutboundIdentity : Type 0 where
  pub message_id : String
  pub contact_id : String

abbrev pub same_option : {A : Type 0} → (A → A → Bool) → Option A → Option A → Bool
same_option eq none none = true
same_option eq (some a) (some b) = eq a b
same_option eq _ _ = false

abbrev pub same_setup : SetupIdentity → SetupIdentity → Bool
same_setup a b = str_eq a.checklist_id b.checklist_id && str_eq a.revision b.revision

abbrev pub same_assessment : AssessmentIdentity → AssessmentIdentity → Bool
same_assessment a b = str_eq a.step_id b.step_id && str_eq a.revision b.revision

abbrev pub same_work : WorkIdentity → WorkIdentity → Bool
same_work a b =
    str_eq a.project_id b.project_id
    && str_eq a.allocation_id b.allocation_id
    && str_eq a.revision b.revision

abbrev pub same_outbound : OutboundIdentity → OutboundIdentity → Bool
same_outbound a b = str_eq a.message_id b.message_id && str_eq a.contact_id b.contact_id

pub data ChecklistState : Type 0 where
  pending completed : ChecklistState

-- The models whose fields are read by no rule here; each value of them is its JSON text.
pub data Model : Type 0 where
  action_checks action_cost work_terms work_checks work_cost money_claim action_deadline : Model

-- A `value` of an event
pub data Value : Type 0 where
  text : String → Value
  checklist : SetupIdentity → ChecklistState → Value
  setup : SetupIdentity → Value
  assessment : AssessmentIdentity → Value
  work : WorkIdentity → Value
  model : Model → String → Value

pub data Actor : Type 0 where
  user provider buyer : Actor

pub data SourceKind : Type 0 where
  user_report mail community reviewed_seed : SourceKind

-- `OutcomeEvent`, whose confidentiality and review are fixed
pub record OutcomeEvent : Type 0 where
  pub schema_version : ℕ
  pub event_id : String
  pub scope : Scope
  pub predicate : String
  pub value : Value
  pub assessment : Option AssessmentIdentity
  pub work : Option WorkIdentity
  pub outbound : Option OutboundIdentity
  pub actor : Actor
  pub source_kind : SourceKind
  pub evidence_ref : String
  pub support_path : String
  pub support_sha256 : String
  pub event_at : Option ℕ
  pub observed_at : ℕ
  pub expires_at : Option ℕ
  pub extraction_version : String
  pub supersedes : List String

-- `setup_identity`
unfoldable pub setup_identity : Value → Option SetupIdentity
setup_identity (Value.checklist i s) = some i
setup_identity (Value.setup i) = some i
setup_identity _ = none

-- `json.dumps` of a model's fields, its keys in order
unfoldable pub setup_json : (String → String) → SetupIdentity → String
setup_json quote i =
    "{\"checklist_id\":" +++ quote i.checklist_id +++ ",\"revision\":" +++ quote i.revision +++ "}"

unfoldable pub assessment_json : (String → String) → AssessmentIdentity → String
assessment_json quote i =
    "{\"revision\":" +++ quote i.revision +++ ",\"step_id\":" +++ quote i.step_id +++ "}"

unfoldable pub work_json : (String → String) → WorkIdentity → String
work_json quote i =
    "{\"allocation_id\":"
    +++ quote i.allocation_id
    +++ ",\"project_id\":"
    +++ quote i.project_id
    +++ ",\"revision\":"
    +++ quote i.revision
    +++ "}"

unfoldable pub outbound_json : (String → String) → OutboundIdentity → String
outbound_json quote i =
    "{\"contact_id\":" +++ quote i.contact_id +++ ",\"message_id\":" +++ quote i.message_id +++ "}"

-- `predicate_key`
unfoldable pub predicate_key :
    (String → String)
    → String
    → Option AssessmentIdentity
    → Option WorkIdentity
    → Option OutboundIdentity
    → Option SetupIdentity
    → String
unfolding setup_json assessment_json work_json outbound_json
predicate_key quote predicate a w o (some s) = "setup:" +++ setup_json quote s +++ ":" +++ predicate
predicate_key quote predicate a w (some o) none =
    "outbound:" +++ outbound_json quote o +++ ":" +++ predicate
predicate_key quote predicate a (some w) none none =
    "work:" +++ work_json quote w +++ ":" +++ predicate
predicate_key quote predicate none none none none = predicate
predicate_key quote predicate (some a) none none none =
    "assessment:" +++ assessment_json quote a +++ ":" +++ predicate

abbrev pub setup_predicates : List String
setup_predicates = "setup_checklist" ∷ "setup_details_changed" ∷ "setup_selection" ∷ []

abbrev pub assessment_predicates : List String
assessment_predicates =
    "assessment_state" ∷ "assessment_route" ∷ "action_checks" ∷ "action_cost"
    ∷ "assessment_deadline" ∷ []

-- `WORK_ENUMS`, `OUTBOUND_ENUMS` and `_ENUMS`
abbrev pub Enums : Type 0
Enums = List (String × List String)

abbrev pub work_enums : Enums
work_enums =
    ("allocation_state", "allocated" ∷ "revoked" ∷ "finished" ∷ [])
    ∷ ("work_access", "accessible" ∷ "blocked" ∷ [])
    ∷ ("payment_setup", "verified" ∷ "blocked" ∷ "pending" ∷ [])
    ∷ ("payable_approval", "approved" ∷ "pending" ∷ "denied" ∷ [])
    ∷ ("work_state", "submitted" ∷ "accepted" ∷ [])
    ∷ []

abbrev pub work_predicates : List String
work_predicates =
    "allocation_state" ∷ "work_access" ∷ "payment_setup" ∷ "payable_approval" ∷ "work_state"
    ∷ "work_terms" ∷ "work_checks" ∷ "work_cost" ∷ "work_route" ∷ "invoice" ∷ "collected_payment"
    ∷ "work_deadline" ∷ []

abbrev pub outbound_enums : Enums
outbound_enums =
    ("outbound_state", "sent" ∷ "provider_accepted" ∷ "bounced" ∷ [])
    ∷ ("contact_origin", "generated" ∷ "observed" ∷ [])
    ∷ []

abbrev pub outbound_predicates : List String
outbound_predicates = "outbound_state" ∷ "contact_origin" ∷ []

abbrev pub enums : Enums
enums =
    ("application_state", "submitted" ∷ "rejected" ∷ "withdrawn" ∷ "reopened" ∷ [])
    ∷ ("assessment_state", "invited" ∷ "completed" ∷ "passed" ∷ [])
    ∷ ("project_access", "blocked" ∷ "accessible" ∷ [])
    ∷ ("buyer_reply", "substantive" ∷ "scope_changed" ∷ [])
    ∷ []
