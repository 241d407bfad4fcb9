-- ===== src/Outbox/Snapshots.antt =====
-- The rows that a statement selected, while a loop writes to the table: those still ahead of the loop
-- are as they were selected.
use job_hound.Base.{
  ℕ, ◌<◌, ◌≡◌, refl, Bool, List, [], ◌∷◌, some, All, All-filter, filter, Bool-cases, inl, inr,
  arith, ==_refl,
}
use job_hound.Outbox.Rows.{Intent}
use job_hound.Outbox.Queries.{find_intent, set_intent}
use job_hound.Outbox.Intents.{IdsAscend}

pub record IsSnapshot (rows is : List Intent) : Type 0 where
  pub ascend : IdsAscend rows
  pub found : All (λ j. find_intent j.id is ≡ some j) rows

find_intent-set_ne :
    (id k : ℕ) (f : Intent → Intent) (is : List Intent)
    → ((i : Intent) → (f i).id ≡ i.id)
    → k < id
    → find_intent id (set_intent k f is) ≡ find_intent id is
find_intent-set_ne id k f [] h lt = refl
find_intent-set_ne id k f (i ∷ is) h lt = ground (arith, h i, find_intent-set_ne id k f is h lt)

-- After the write to the row in hand, the others are as they were.
pub IsSnapshot-set_intent :
    (f : Intent → Intent) (j : Intent) (rows is : List Intent)
    → ((i : Intent) → (f i).id ≡ i.id)
    → IsSnapshot (j ∷ rows) is
    → IsSnapshot rows (set_intent j.id f is)
IsSnapshot-set_intent f j rows is k h = record {
  ascend = h.ascend.1;
  found = still rows h.ascend.0 h.found.1;
}
  where
    still :
        (rs : List Intent)
        → All (λ i. j.id < i.id) rs
        → All (λ i. find_intent i.id is ≡ some i) rs
        → All (λ i. find_intent i.id (set_intent j.id f is) ≡ some i) rs
    still [] a e = tt
    still (r ∷ rs) a e = (rw (find_intent-set_ne r.id j.id f is k a.0) e.0, still rs a.1 e.1)

IdsAscend-filter : (p : Intent → Bool) (is : List Intent) → IdsAscend is → IdsAscend (filter p is)
IdsAscend-filter p [] h = tt
IdsAscend-filter p (i ∷ is) h = elim (Bool-cases (p i)) [
  | inl e ↦ rw e (All-filter _ p is h.0, IdsAscend-filter p is h.1)
  | inr e ↦ rw e (IdsAscend-filter p is h.1)
]

pub All-find_intent : (is : List Intent) → IdsAscend is → All (λ j. find_intent j.id is ≡ some j) is
All-find_intent [] h = tt
All-find_intent (i ∷ is) h = (rw (==_refl i.id), later is h.0 (All-find_intent is h.1))
  where
    later :
        (rs : List Intent)
        → All (λ j. i.id < j.id) rs
        → All (λ j. find_intent j.id is ≡ some j) rs
        → All (λ j. find_intent j.id (i ∷ is) ≡ some j) rs
    later [] a e = tt
    later (r ∷ rs) a e = (ground arith, later rs a.1 e.1)

pub filter-IsSnapshot :
    (p : Intent → Bool) (is : List Intent) → IdsAscend is → IsSnapshot (filter p is) is
filter-IsSnapshot p is h = record {
  ascend = IdsAscend-filter p is h;
  found = All-filter _ p is (All-find_intent is h);
}

-- The loop may pass a row over.
pub IsSnapshot-tail :
    {j : Intent} {rows is : List Intent} → IsSnapshot (j ∷ rows) is → IsSnapshot rows is
IsSnapshot-tail h = record { ascend = h.ascend.1; found = h.found.1 }
