-- ===== src/Outcomes/Examples.antt =====
-- Runs on small journals.
use job_hound.Base.{
  ℕ, ◌≡◌, ◌↔◌, refl, String, Bool, true, false, ◌&&◌, ◌||◌, Option, none, some, List, [], ◌∷◌, leb,
  any, contains, str_eq, str_eq_iff, All, arith,
}
use Prim.Native.String.{◌++◌ as ◌+++◌}
use job_hound.Outcomes.Events.{Scope, Value, Actor, SourceKind, OutcomeEvent}
use job_hound.Outcomes.Projections.{project, entry, removed, is_terminal}
use job_hound.Outcomes.Projections.{is_conflict}
use job_hound.Outcomes.Agreement.{stands, IsUnanimous, is_conflict-IsUnanimous}
use job_hound.Outcomes.Standing.{terminal_stands}
use job_hound.Outcomes.Disposed.{disposition, project-IsDisposed}
use job_hound.Outcomes.Cascades.{Cascade, cascade, is_invalid}
use job_hound.Outcomes.Intakes.{Code, Filed}
use job_hound.Outcomes.Imports.{Imported, import_events}
use job_hound.Outcomes.Grouped.{Group}
use job_hound.Outcomes.Accounted.{IsAccounted, import_events-IsAccounted, cascade_settles}

abbrev scope : Scope
scope = record {
  provider = "acme";
  portal = "portal";
  role = "role";
  account = "account";
  attempt = "one";
}

abbrev state_event : String → String → ℕ → List String → OutcomeEvent
state_event id state at olds = record {
  schema_version = 1;
  event_id = id;
  scope = scope;
  predicate = "application_state";
  value = Value.text state;
  assessment = none;
  work = none;
  outbound = none;
  actor = Actor.provider;
  source_kind = SourceKind.mail;
  evidence_ref = "ref";
  support_path = "path";
  support_sha256 = "hash";
  event_at = some at;
  observed_at = at;
  expires_at = none;
  extraction_version = "1";
  supersedes = olds;
}

abbrev rejection : OutcomeEvent
rejection = state_event "a" "rejected" 10 []

abbrev reopening : OutcomeEvent
reopening = state_event "b" "reopened" 20 ("a" ∷ [])

abbrev quote : String → String
quote s = "'" +++ s +++ "'"

abbrev encode : OutcomeEvent → String
encode e = e.event_id +++ ":" +++ e.predicate

abbrev word : ℕ → Bool
word c = (leb 48 c && leb c 57) || (leb 97 c && leb c 122)

abbrev public : String → Bool
public s = true

apart : reopening.event_id ≡ rejection.event_id → reopening ≡ rejection
apart h = (let k : str_eq "b" "a" ≡ true = (str_eq_iff "b" "a").1 h in cc)

terminal_stands_example : any (λ f. contains "a" f.supersedes) (rejection ∷ reopening ∷ []) ≡ true
unfolding is_terminal removed
terminal_stands_example =
    terminal_stands rejection (rejection ∷ reopening ∷ []) refl ((λ h. refl), (apart, tt)) refl

is_conflict-IsUnanimous_example :
    (is_conflict quote (rejection ∷ reopening ∷ []) ≡ false)
    ↔ IsUnanimous quote (stands (rejection ∷ reopening ∷ [])) (rejection ∷ reopening ∷ [])
is_conflict-IsUnanimous_example = is_conflict-IsUnanimous quote (rejection ∷ reopening ∷ [])

apart_back : rejection.event_id ≡ reopening.event_id → rejection ≡ reopening
apart_back h = (let k : str_eq "a" "b" ≡ true = (str_eq_iff "a" "b").1 h in cc)

project-IsDisposed_example :
    All
      (λ e.
        entry e.event_id (project quote (rejection ∷ reopening ∷ []) scope).dispositions
        ≡ some (disposition quote (project quote (rejection ∷ reopening ∷ []) scope).events e))
      (project quote (rejection ∷ reopening ∷ []) scope).events
project-IsDisposed_example =
    project-IsDisposed quote (rejection ∷ reopening ∷ []) scope
      (((λ h. refl), (apart, tt)), ((apart_back, ((λ h. refl), tt)), tt))

abbrev records : List (Option OutcomeEvent)
records = some rejection ∷ none ∷ some reopening ∷ some rejection ∷ []

abbrev imported : Imported
imported = record {
  events = rejection ∷ reopening ∷ [];
  quarantine = record { line = 2; code = Code.invalid_event_schema } ∷ [];
  input_count = 4;
  quarantined_count = 1;
  accepted_count = 2;
  duplicate_count = 1;
}

import_events-IsAccounted_example : IsAccounted [] 4 imported
unfolding import_events
import_events-IsAccounted_example =
    import_events-IsAccounted word public encode records (scope ∷ []) 100 [] imported refl

abbrev lone : Group Filed
lone = record { key = "b"; first = (1, reopening); rest = [] }

abbrev orphaned : Cascade
orphaned = record { pending = lone ∷ []; quarantined = [] }

cascade_settles_example :
    All
      (λ g. is_invalid [] (cascade 1 [] orphaned).pending g ≡ false)
      (cascade 1 [] orphaned).pending
cascade_settles_example = cascade_settles 1 [] orphaned (omega arith)
