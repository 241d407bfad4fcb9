-- ===== src/Outbox/Soundness/Writes.antt =====
-- A write to the intent that a look-up finds keeps the outbox sound where the written intent is sound.
use job_hound.Base.{ℕ, ◌≡◌, List, some, All-find?, sym, subst}
use job_hound.Outbox.Rows.{Revision, Subject, Intent}
use job_hound.Outbox.Queries.{find_intent, set_intent}
use job_hound.Outbox.Intents.{All-set_found, IdsAscend-set_intent, find_intent-id, All-set_intent}
use job_hound.Outbox.Soundness.{IsWellFormed, IsOpenCurrent, IsSound}

module _ (id : ℕ) {row : Intent} {revs : List Revision} {subs : List Subject} {is : List Intent}
    (sound : IsSound revs subs is) (found : find_intent id is ≡ some row) where
  pub row-IsWellFormed : IsWellFormed row
  row-IsWellFormed = (All-find? IsWellFormed _ is row sound.formed found).0

  pub row-IsOpenCurrent : IsOpenCurrent revs subs row
  row-IsOpenCurrent = (All-find? (IsOpenCurrent revs subs) _ is row sound.current found).0

  pub IsSound-set_row :
      (f : Intent → Intent)
      → ((i : Intent) → (f i).id ≡ i.id)
      → IsWellFormed (f row)
      → IsOpenCurrent revs subs (f row)
      → IsSound revs subs (set_intent id f is)
  IsSound-set_row f k p q = record {
    ascend = IdsAscend-set_intent id f is k sound.ascend;
    formed = All-set_found IsWellFormed id f is row sound.ascend found sound.formed p;
    current =
        All-set_found (IsOpenCurrent revs subs) id f is row sound.ascend found sound.current q;
  }

  -- The same, where the write names the id of the row.
  pub IsSound-set_row_id :
      (f : Intent → Intent)
      → ((i : Intent) → (f i).id ≡ i.id)
      → IsWellFormed (f row)
      → IsOpenCurrent revs subs (f row)
      → IsSound revs subs (set_intent row.id f is)
  IsSound-set_row_id f k p q =
      subst (λ n. IsSound revs subs (set_intent n f is)) (sym (find_intent-id id is row found))
        (IsSound-set_row f k p q)

-- A write to any intents of an id, where the write itself makes each sound.
pub IsSound-set_intent :
    (id : ℕ) (f : Intent → Intent) (revs : List Revision) (subs : List Subject) (is : List Intent)
    → ((i : Intent) → (f i).id ≡ i.id)
    → ((i : Intent) → IsWellFormed i → IsWellFormed (f i))
    → ((i : Intent) → IsOpenCurrent revs subs i → IsOpenCurrent revs subs (f i))
    → IsSound revs subs is
    → IsSound revs subs (set_intent id f is)
IsSound-set_intent id f revs subs is k p q h = record {
  ascend = IdsAscend-set_intent id f is k h.ascend;
  formed = All-set_intent IsWellFormed id f is h.formed (λ i _ w. p i w);
  current = All-set_intent (IsOpenCurrent revs subs) id f is h.current (λ i _ w. q i w);
}
