-- ===== src/Outbox/Soundness/Adoption.antt =====
-- `import_legacy`, `adopt_legacy_baselines`, `backfill_rollback_receipts` and the two registrations of
-- identities keep the outbox sound.
use job_hound.Base.{
  ℕ, refl, Bool, true, false, List, [], ◌∷◌, Option, none, some, String, arith, if◌then◌else◌, ◌&&◌,
  not,
}
use job_hound.Outbox.Rows.{Owner, same_owner, Destination, Intent, Revision, Notification, Db}
use job_hound.Outbox.Identity.{
  subject, register_alias, register_alias_body, register_legacy_crosswalk, insert_alias,
}
use job_hound.Outbox.Adoption.{
  import_legacy, import_legacy_body, import_rows, adopt_legacy_baselines, adopt_targets, adopt_rows,
  adopt_row, backfill_rollback_receipts, backfill_rows, backfill_row, is_like_coverage,
}
use job_hound.Outbox.Triples.{
  Core, On, Triple, keep_then, modify_then, modify_lem, gets_then, gets_lem, if_lem, pure_lem,
  weaken, check_then, or_raise_then,
}
use job_hound.Outbox.Keeps.{
  Keeps, Keeps-bind, Keeps-gets, Keeps-raise_if, Keeps-transaction, Keeps-pure, Keeps-if,
}
use job_hound.Outbox.Events.{record_event-On}
use job_hound.Outbox.Soundness.{IsSound}
use job_hound.Outbox.Soundness.Writes.{IsSound-set_intent}

subject-On : (R : Core) (o : Owner) (id : String) → Triple (On R) (subject o id) (λ _. On R)
unfolding subject
subject-On R o id = check_then _ _ (λ _. gets_lem _ (λ db h. h))

insert_alias-On :
    (R : Core) (o : Owner) (a t e : String) → Triple (On R) (insert_alias o a t e) (λ _. On R)
insert_alias-On R o a t e = gets_then (λ b. check_then _ _ (λ _. modify_lem _ (λ db h. h.0)))

register_alias_body-On :
    (R : Core) (o : Owner) (old_id new_id evidence : String)
    → Triple (On R) (register_alias_body o old_id new_id evidence) (λ _. On R)
unfolding register_alias_body
register_alias_body-On R o old_id new_id evidence = keep_then (subject-On R o old_id) (λ target.
    check_then _ _ (λ _. check_then _ _ (λ _. gets_then (λ a. gets_then (λ b.
      weaken (On R) (λ db h. h.0.0)
        (keep_then (subject-On R o new_id)
          (λ t. check_then _ _ (λ _. insert_alias-On R o _ _ _))))))))

pub register_alias-Keeps :
    (R : Core) (o : Owner) (old_id new_id evidence : String)
    → Keeps R (register_alias o old_id new_id evidence)
unfolding register_alias
register_alias-Keeps R o old_id new_id evidence =
    Keeps-bind (Keeps-raise_if _ _)
      (λ _. Keeps-transaction _ (register_alias_body-On R o old_id new_id evidence))

pub register_legacy_crosswalk-On :
    (R : Core) (o : Owner) (old_id new_id evidence : String)
    → Triple (On R) (register_legacy_crosswalk o old_id new_id evidence) (λ _. On R)
unfolding register_legacy_crosswalk
register_legacy_crosswalk-On R o old_id new_id evidence = check_then _ _ (λ _. check_then _ _ (λ _.
    check_then _ _ (λ _. gets_then (λ skipped.
      if_lem {c = skipped} (λ _. pure_lem _ (λ db h. h.0))
        (λ _.
          weaken (On R) (λ db h. h.0)
            (keep_then (insert_alias-On R o _ _ _)
              (λ _. modify_then (On R) (λ db h. h) (pure_lem _ (λ db h. h)))))))))

On-if : (R : Core) (b : Bool) (db db' : Db) → On R db → On R db' → On R (if b then db else db')
On-if R true db db' h k = h
On-if R false db db' h k = k

import_rows-On :
    (R : Core) (o : Owner) (evidence : String) (ns : List Notification)
    → Triple (On R) (import_rows o evidence ns) (λ _. On R)
unfolding import_rows
import_rows-On R o evidence [] = pure_lem _ (λ db h. h)
import_rows-On R o evidence (n ∷ ns) = keep_then (subject-On R o n.canonical_id) (λ name.
    gets_then (λ adopted.
      modify_then (On R) (λ db h. On-if R adopted db _ h.0 h.0) (import_rows-On R o evidence ns)))

pub import_legacy-Keeps :
    (R : Core) (o : Owner) (evidence : String) → Keeps R (import_legacy o evidence)
unfolding import_legacy import_legacy_body
import_legacy-Keeps R o evidence = Keeps-bind (Keeps-raise_if _ _) (λ _. Keeps-transaction _ (
    gets_then (λ found.
      or_raise_then _ (λ ns e. weaken (On R) (λ db h. h.0) (import_rows-On R o evidence _)))))

adopt_row-IsSound :
    (o : Owner) (evidence : String) (now : ℕ) (i : Intent)
    → Triple (On IsSound) (adopt_row o evidence now i) (λ _. On IsSound)
unfolding adopt_row
adopt_row-IsSound o evidence now i = gets_then (λ name.
    modify_then (On IsSound) (λ db h. h.0)
      (keep_then (record_event-On IsSound o _ _ _ _) (λ _.
        modify_then (On IsSound)
          (λ db h.
            IsSound-set_intent i.id _ _ _ db.intents (λ _. refl) (λ _ w. ground arith) (λ _ w e. cc)
              h)
          (pure_lem _ (λ db h. h)))))

adopt_rows-IsSound :
    (o : Owner) (evidence : String) (now : ℕ) (is : List Intent)
    → Triple (On IsSound) (adopt_rows o evidence now is) (λ _. On IsSound)
unfolding adopt_rows
adopt_rows-IsSound o evidence now [] = pure_lem _ (λ db h. h)
adopt_rows-IsSound o evidence now (i ∷ is) =
    keep_then (adopt_row-IsSound o evidence now i)
      (λ r. keep_then (adopt_rows-IsSound o evidence now is) (λ rs. pure_lem _ (λ db h. h)))

adopt_targets-IsSound :
    (o : Owner) (evidence : String) (now : ℕ) (ds : List Destination)
    → Triple (On IsSound) (adopt_targets o evidence now ds) (λ _. On IsSound)
unfolding adopt_targets
adopt_targets-IsSound o evidence now [] = pure_lem _ (λ db h. h)
adopt_targets-IsSound o evidence now (d ∷ ds) = gets_then (λ rows.
    weaken (On IsSound) (λ db h. h.0)
      (keep_then (adopt_rows-IsSound o evidence now rows) (λ rs.
        keep_then (adopt_targets-IsSound o evidence now ds) (λ more. pure_lem _ (λ db h. h)))))

pub adopt_legacy_baselines-IsSound :
    (o : Owner) (ds : List Destination) (evidence : String) (now : ℕ)
    → Triple (On IsSound) (adopt_legacy_baselines o ds evidence now) (λ _. On IsSound)
unfolding adopt_legacy_baselines
adopt_legacy_baselines-IsSound o ds evidence now = check_then _ _ (λ _.
    keep_then (adopt_targets-IsSound o evidence now ds)
      (λ rs. modify_then (On IsSound) (λ db h. h) (pure_lem _ (λ db h. h))))

backfill_row-On :
    (R : Core) (o : Owner) (channel : String) (r : Option Revision)
    → Triple (On R) (backfill_row o channel r) (λ _. On R)
unfolding backfill_row
backfill_row-On R o channel none = pure_lem _ (λ db h. h)
backfill_row-On R o channel (some r) =
    if_lem {c = same_owner r.owner o && not (is_like_coverage r.subject)}
      (λ _. gets_then (λ found.
        or_raise_then _ (λ ns e. weaken (On R) (λ db h. h.0) (record { run = λ db h. h }))))
      (λ _. pure_lem _ (λ db h. h))

backfill_rows-On :
    (R : Core) (o : Owner) (is : List Intent) → Triple (On R) (backfill_rows o is) (λ _. On R)
unfolding backfill_rows
backfill_rows-On R o [] = pure_lem _ (λ db h. h)
backfill_rows-On R o (i ∷ is) = gets_then (λ found.
    weaken (On R) (λ db h. h.0)
      (keep_then (backfill_row-On R o _ found)
        (λ n. keep_then (backfill_rows-On R o is) (λ m. pure_lem _ (λ db h. h)))))

pub backfill-Keeps : (R : Core) (o : Owner) → Keeps R (backfill_rollback_receipts o)
unfolding backfill_rollback_receipts
backfill-Keeps R o = Keeps-bind (Keeps-gets _) (λ found. Keeps-if _ (Keeps-pure _) (
    Keeps-transaction _
      (gets_then (λ rows. weaken (On R) (λ db h. h.0) (backfill_rows-On R o rows)))))
