-- ===== src/Outbox/Intents.antt =====
-- The table of intents as a list: its ids ascend, so a write by id reaches the one row that a look-up
-- by that id finds.
use job_hound.Base.{
  ℕ, ◌<◌, ◌≡◌, refl, sym, subst, true, ◌∙◌, List, [], ◌∷◌, ◌++◌, Option, none, some, ◌==◌, All,
  All-append, All-map, inl, inr, Bool-cases, arith, str_eq_iff, if◌then◌else◌, ap,
}
use job_hound.Outbox.Rows.{Owner, same_owner, Revision, Intent, Db}
use job_hound.Outbox.Queries.{
  OwnedRow, find_intent, find_revision, find_owned, owned_intent, owned_revision, set_intent,
  next_intent_id,
}

abbrev pub IdsAscend : List Intent → Type 0
IdsAscend [] = Unit
IdsAscend (i ∷ is) = All (λ j. i.id < j.id) is × IdsAscend is

module _ (P : Intent → Type 0) (id : ℕ) (f : Intent → Intent) where
  pub All-set_intent :
      (is : List Intent)
      → All P is
      → ((i : Intent) → i.id ≡ id → P i → P (f i))
      → All P (set_intent id f is)
  All-set_intent [] h k = tt
  All-set_intent (i ∷ is) h k = elim (Bool-cases (i.id == id)) [
    | inl e ↦ rw e (k i (ground arith) h.0, All-set_intent is h.1 k)
    | inr e ↦ rw e (h.0, All-set_intent is h.1 k)
  ]

  set_intent_absent : (is : List Intent) → All (λ j. id < j.id) is → set_intent id f is ≡ is
  set_intent_absent [] h = refl
  set_intent_absent (i ∷ is) h = ground (arith, set_intent_absent is h.1)

  -- A write to the row that the look-up finds.
  pub All-set_found :
      (is : List Intent) (r : Intent)
      → IdsAscend is
      → find_intent id is ≡ some r
      → All P is
      → P (f r)
      → All P (set_intent id f is)
  All-set_found [] r a e h p = cc
  All-set_found (i ∷ is) r a e h p = elim (Bool-cases (i.id == id)) [
    | inl b ↦
        let e' : some i ≡ some r = rw b at e in
        let q : i ≡ r = cc in
        let n : i.id ≡ id = ground arith in
        rw (b, set_intent_absent is (subst (λ k. All (λ j. k < j.id) is) n a.0))
          (subst (λ x. P (f x)) (sym q) p, h.1)
    | inr b ↦ rw b (h.0, All-set_found is r a.1 (rw b at e) h.1 p)
  ]

pub IdsAscend-set_intent :
    (id : ℕ) (f : Intent → Intent) (is : List Intent)
    → ((i : Intent) → (f i).id ≡ i.id)
    → IdsAscend is
    → IdsAscend (set_intent id f is)
IdsAscend-set_intent id f [] k h = tt
IdsAscend-set_intent id f (i ∷ is) k h =
    let same : (if i.id == id then f i else i).id ≡ i.id = ground (arith, k i) in
    (
      rw same (All-set_intent (λ j. i.id < j.id) id f is h.0 (λ j _ p. rw (k j) p)),
      IdsAscend-set_intent id f is k h.1,
    )

pub All-next_intent_id : (is : List Intent) → All (λ j. j.id < next_intent_id is) is
unfolding next_intent_id
All-next_intent_id [] = tt
All-next_intent_id (i ∷ is) =
    (omega arith, All-map _ _ is (λ j h. omega arith) (All-next_intent_id is))

pub IdsAscend-append :
    (is : List Intent) (n : Intent)
    → IdsAscend is
    → All (λ j. j.id < n.id) is
    → IdsAscend (is ++ n ∷ [])
IdsAscend-append [] n h k = (tt, tt)
IdsAscend-append (i ∷ is) n h k =
    (All-append _ is (n ∷ []) h.0 (k.0, tt), IdsAscend-append is n h.1 k.1)

pub find_intent-id :
    (id : ℕ) (is : List Intent) (r : Intent) → find_intent id is ≡ some r → r.id ≡ id
find_intent-id id [] r e = cc
find_intent-id id (i ∷ is) r e = ground (arith, find_intent-id id is r)

pub same_owner→eq : (a b : Owner) → same_owner a b ≡ true → a ≡ b
same_owner→eq a b h =
    ground (arith, str_eq_iff a.workspace b.workspace, str_eq_iff a.profile b.profile)

-- What a row of `_owned` is.
pub record IsOwned (o : Owner) (id : ℕ) (row : OwnedRow) (revs : List Revision) (is : List Intent)
    : Type 0 where
  pub found : find_intent id is ≡ some row.intent
  pub joined : find_revision row.intent.revision revs ≡ some row.revision
  pub owner : row.revision.owner ≡ o

owned_revision_lem :
    (o : Owner) (i : Intent) (x : Option Revision) (row : OwnedRow)
    → owned_revision o i x ≡ some row
    → (row.intent ≡ i) × (x ≡ some row.revision) × (same_owner row.revision.owner o ≡ true)
unfolding owned_revision
owned_revision_lem o i none row e = cc
owned_revision_lem o i (some r) row e = elim (Bool-cases (same_owner r.owner o)) [
  | inl b ↦
      let e' : some (let w : OwnedRow = record { intent = i; revision = r } in w) ≡ some row =
        rw b at e in
      (cc, cc, ground arith)
  | inr b ↦ cc (b, e)
]

owned_intent_lem :
    (o : Owner) (id : ℕ) (row : OwnedRow) (revs : List Revision) (is : List Intent)
    (x : Option Intent)
    → find_intent id is ≡ x
    → owned_intent o revs x ≡ some row
    → IsOwned o id row revs is
unfolding owned_intent
owned_intent_lem o id row revs is none q e = cc
owned_intent_lem o id row revs is (some i) q e =
    let (same, joined, owner) = owned_revision_lem o i (find_revision i.revision revs) row e in
    record {
      found = q ∙ ap some (sym same);
      joined =
          subst (λ (j : Intent). find_revision j.revision revs ≡ some row.revision) (sym same)
            joined;
      owner = same_owner→eq row.revision.owner o owner;
    }

pub owned_lem :
    (o : Owner) (id : ℕ) (row : OwnedRow) (db : Db)
    → find_owned o id db ≡ some row
    → IsOwned o id row db.revisions db.intents
unfolding find_owned
owned_lem o id row db e =
    owned_intent_lem o id row db.revisions db.intents (find_intent id db.intents) refl e
