-- ===== src/Envelopes/Summaries.antt =====
-- The run's summary of a digest (the start of `summary_run_id` in `prepare` of
-- jobhound/delivery_transport.py): what must hold of the staged run before its coverage is printed.
use job_hound.Base.{
  ℕ, ◌+◌, ◌==◌, String, Bool, false, not, ◌&&◌, Option, none, some, List, [], ◌∷◌, str_eq, find?,
}
use job_hound.Outbox.Rows.{Destination}
use job_hound.Outbox.Monad.{Action, ⊤, pure, ◌>>=◌, ◌>>◌, or_raise, raise_if, Error}
use job_hound.Outbox.Identity.{identifier}

-- `coverage`: a count that is missing, not an int or negative is none.
pub record Coverage : Type 0 where
  pub total : Option ℕ
  pub unchanged_or_healthy : Option ℕ
  pub already_recorded : Option ℕ
  pub selected : Option ℕ
  pub overflow : Option ℕ
  pub policy_review : Option ℕ

-- An entry of a report's `destinations`
pub record LedgerRow : Type 0 where
  pub channel : String
  pub destination : String
  pub coverage : Coverage

-- A run's id with the destinations of its report, where delivery_runs has one in this namespace.
pub record Summary : Type 0 where
  pub run_id : String
  pub report : Option (List LedgerRow)

unfoldable pub total_of : List (Option ℕ) → Option ℕ
total_of [] = some 0
total_of (none ∷ ns) = none
total_of (some n ∷ ns) = let rest = total_of ns in elim rest [ none ↦ none | some k ↦ some (n + k) ]

unfoldable pub same_count : Option ℕ → Option ℕ → Bool
same_count (some a) (some b) = a == b
same_count _ _ = false

-- The five counts and the total are there, and they agree.
unfoldable pub reconciles : Coverage → Bool
unfolding total_of same_count
reconciles c = same_count c.total (
    total_of (
      c.unchanged_or_healthy ∷ c.already_recorded ∷ c.selected ∷ c.overflow ∷ c.policy_review ∷ []))

abbrev pub is_ledger : Destination → LedgerRow → Bool
is_ledger d row = str_eq row.channel d.channel && str_eq row.destination d.key

-- The checks of a summary, where one is asked for.
unfoldable pub check_summary : Destination → Option Summary → Action ⊤
unfolding reconciles
check_summary d none = pure tt
check_summary d (some s) = do
  identifier s.run_id
  rows ← or_raise s.report Error.summary_without_run
  ledger ← or_raise (find? (is_ledger d) rows) Error.summary_destination_mismatch
  raise_if (not (reconciles ledger.coverage)) Error.summary_not_reconciled
