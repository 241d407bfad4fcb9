-- ===== src/Outbox/Monad.antt =====
-- A method call: state and exceptions. What a call wrote before it raised is still there, until
-- `transaction` rolls it back.
use job_hound.Base.{Bool, true, Option, none, some, if◌then◌else◌}
use job_hound.Outbox.Rows.{Db}

pub data Error : Type 0 where
  review_forbids invalid_identifier outside_transaction self_or_cyclic_alias : Error
  ambiguous_identity out_of_order unsupported_destination unhashed_destination
        invalid_max_attempts :
      Error
  outside_owner stale_revision payload_too_large envelope_owns_intent invalid_lease : Error
  stale_lease review_required nothing_to_reconcile legacy_mapping_required : Error
  integrity_error type_error missing_table : Error
  invalid_selection envelope_outside_owner unpreparable_intent digest_too_large too_many_parts :
      Error
  invalid_limit invalid_receipt unconfirmed_dispatch frozen_integrity_failure : Error
  destination_mismatch no_members index_error stale_receipt part_not_uncertain : Error
  active_or_completed not_provably_unsent generation_required outside_drafts not_reissuable : Error
  summary_without_run summary_destination_mismatch summary_not_reconciled : Error

pub data Result (A : Type 0) : Type 0 where
  ok : A → Result A
  err : Error → Result A

abbrev pub ⊤ : Type 0
⊤ = Unit {0}

abbrev pub Action : Type 0 → Type 0
Action A = Db → Result A × Db

module _ {A : Type 0} where
  unfoldable pub pure : A → Action A
  pure a db = (ok a, db)

  unfoldable pub raise : Error → Action A
  raise e db = (err e, db)

  unfoldable pub gets : (Db → A) → Action A
  gets f db = (ok (f db), db)

  unfoldable pub or_raise : Option A → Error → Action A
  or_raise none e db = (err e, db)
  or_raise (some a) _ db = (ok a, db)

infixl 5 ◌>>=◌ ◌>>◌
unfoldable pub ◌>>=◌ : {A B : Type 0} → Action A → (A → Action B) → Action B
◌>>=◌ m f db = let (r, db') = m db in elim r [ ok a ↦ f a db' | err e ↦ (err e, db') ]

abbrev pub ◌>>◌ : {A B : Type 0} → Action A → Action B → Action B
m >> k = m >>= λ _. k

unfoldable pub raise_if : Bool → Error → Action ⊤
raise_if c e db = (if c then err e else ok tt, db)

unfoldable pub modify : (Db → Db) → Action ⊤
modify f db = (ok tt, f db)

-- `transaction`: BEGIN or SAVEPOINT, and back to the state before it on any exception. A review run
-- without the capability to write is refused.
unfoldable pub transaction : {A : Type 0} → Action A → Action A
transaction m db =
    if db.writable
    then (let (r, db') = m (record db { in_transaction = true }) in
        elim r [
          | ok a ↦ (ok a, record db' { in_transaction = db.in_transaction })
          | err e ↦ (err e, db)
        ])
    else (err Error.review_forbids, db)
