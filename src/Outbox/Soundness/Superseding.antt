-- ===== src/Outbox/Soundness/Superseding.antt =====
-- The loop of `revise` that supersedes the unsent cards of a subject leaves none of them open.
use job_hound.Base.{
  ℕ, ◌≡◌, refl, Bool, true, false, List, [], ◌∷◌, String, All, All-map, arith, Bool-cases, inl, inr,
  if◌then◌else◌, any, filter, ◌==◌, ==_refl, or_true,
}
use job_hound.Outbox.Rows.{Owner, Status, Revision, Subject, Intent}
use job_hound.Outbox.Queries.{find_revision, joins_subject, set_intent}
use job_hound.Outbox.Revise.{set_status, is_unsent_card, supersede}
use job_hound.Outbox.Triples.{On, Triple, keep_then, modify_then, pure_lem}
use job_hound.Outbox.Events.{record_event-On}
use job_hound.Outbox.Intents.{IdsAscend, All-set_intent, IdsAscend-set_intent}
use job_hound.Outbox.Soundness.{is_open, IsWellFormed, IsCurrentCard, IsOpenCurrent, IsSound}

-- An unsent card of the subject is among the rows.
abbrev pub IsListed : Owner → String → List Revision → List Intent → Intent → Type 0
IsListed o name revs rows i =
    is_unsent_card o name revs i ≡ true → any (λ j. j.id == i.id) rows ≡ true

-- Cards of other subjects are current, while this subject's are being superseded.
abbrev pub IsOtherCurrent : Owner → String → List Revision → List Subject → Intent → Type 0
IsOtherCurrent o name revs subs i =
    is_open i.status ≡ true
    → joins_subject o name (find_revision i.revision revs) ≡ false
    → IsCurrentCard revs subs i

pub record IsSuperseding (o : Owner) (name : String) (rows : List Intent) (revs : List Revision)
    (subs : List Subject) (is : List Intent) : Type 0 where
  pub ascend : IdsAscend is
  pub formed : All IsWellFormed is
  pub other : All (IsOtherCurrent o name revs subs) is
  pub listed : All (IsListed o name revs rows) is

superseded-IsListed :
    (o : Owner) (name : String) (revs : List Revision) (j : Intent) (rows is : List Intent)
    → All (IsListed o name revs (j ∷ rows)) is
    → All (IsListed o name revs rows) (set_intent j.id (set_status Status.superseded) is)
superseded-IsListed o name revs j rows [] h = tt
superseded-IsListed o name revs j rows (i ∷ is) h = elim (Bool-cases (i.id == j.id)) [
  | inl e ↦ rw e ((λ p. ground arith), superseded-IsListed o name revs j rows is h.1)
  | inr e ↦
      rw e ((λ p. let q = h.0 p in ground arith), superseded-IsListed o name revs j rows is h.1)
]

pub supersede-IsSuperseding :
    (o : Owner) (name : String) (now : ℕ) (rows : List Intent)
    → Triple
        (On (IsSuperseding o name rows))
        (supersede o now rows)
        (λ _. On (IsSuperseding o name []))
unfolding supersede
supersede-IsSuperseding o name now [] = pure_lem _ (λ db h. h)
supersede-IsSuperseding o name now (j ∷ rows) =
    keep_then (record_event-On (IsSuperseding o name (j ∷ rows)) o _ _ _ _) (λ _.
      modify_then (On (IsSuperseding o name rows))
        (λ db h. record {
          ascend = IdsAscend-set_intent j.id _ db.intents (λ _. refl) h.ascend;
          formed = All-set_intent IsWellFormed j.id _ db.intents h.formed (λ i _ w. ground arith);
          other =
              All-set_intent (IsOtherCurrent o name db.revisions db.subjects) j.id _ db.intents
                h.other (λ i _ w p. cc);
          listed = superseded-IsListed o name db.revisions j rows db.intents h.listed;
        })
        (supersede-IsSuperseding o name now rows))

-- Once no unsent card of the subject is left, the outbox is sound.
pub IsSuperseding-IsSound :
    (o : Owner) (name : String) (revs : List Revision) (subs : List Subject) (is : List Intent)
    → IsSuperseding o name [] revs subs is
    → IsSound revs subs is
IsSuperseding-IsSound o name revs subs is h = record {
  ascend = h.ascend;
  formed = h.formed;
  current = both is h.other h.listed;
}
  where
    both :
        (rs : List Intent)
        → All (IsOtherCurrent o name revs subs) rs
        → All (IsListed o name revs []) rs
        → All (IsOpenCurrent revs subs) rs
    both [] a b = tt
    both (r ∷ rs) a b = (
      (λ p. a.0 p (elim (Bool-cases (joins_subject o name (find_revision r.revision revs))) [
        | inl e ↦ absurd (ground (arith, b.0 (ground arith)))
        | inr e ↦ e
      ])),
      both rs a.1 b.1,
    )

listed_later :
    (p : Intent → Bool) (j : Intent) (rows is : List Intent)
    → All (λ i. p i ≡ true → any (λ k. k.id == i.id) rows ≡ true) is
    → All (λ i. p i ≡ true → any (λ k. k.id == i.id) (j ∷ rows) ≡ true) is
listed_later p j rows is h = All-map _ _ is (λ i q e. rw (q e) (or_true _)) h

listed_if :
    (p : Intent → Bool) (j : Intent) (b : Bool) (rows is : List Intent)
    → All (λ i. p i ≡ true → any (λ k. k.id == i.id) rows ≡ true) is
    → All (λ i. p i ≡ true → any (λ k. k.id == i.id) (if b then j ∷ rows else rows) ≡ true) is
listed_if p j true rows is h = listed_later p j rows is h
listed_if p j false rows is h = h

-- A selection lists what it selects.
pub selection_listed :
    (p : Intent → Bool) (is : List Intent)
    → All (λ i. p i ≡ true → any (λ k. k.id == i.id) (filter p is) ≡ true) is
selection_listed p [] = tt
selection_listed p (i ∷ is) =
    ((λ e. rw e (rw (==_refl i.id))), listed_if p i (p i) (filter p is) is (selection_listed p is))
