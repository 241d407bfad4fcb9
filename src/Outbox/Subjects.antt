-- ===== src/Outbox/Subjects.antt =====
-- The subjects and revisions as tables: what an upsert and an insertion leave as it was.
use job_hound.Base.{
  ◌≡◌, sym, ap, ◌∙◌, true, false, List, [], ◌∷◌, ◌++◌, Option, none, some, String, arith,
  Bool-cases, inl, inr, str_eq_iff, str_eq_refl,
}
use job_hound.Outbox.Rows.{Owner, same_owner, Revision, Subject}
use job_hound.Outbox.Queries.{find_revision, find_subject, is_subject, current_revision}
use job_hound.Outbox.Revise.{upsert_subject}
use job_hound.Outbox.Intents.{same_owner→eq}

-- An insertion hides no revision.
pub find_revision-append :
    (id : String) (revs more : List Revision) (r : Revision)
    → find_revision id revs ≡ some r
    → find_revision id (revs ++ more) ≡ some r
find_revision-append id [] more r e = cc
find_revision-append id (q ∷ revs) more r e = ground (arith, find_revision-append id revs more r)

pub same_owner_refl : (o : Owner) → same_owner o o ≡ true
same_owner_refl o = ground (arith, str_eq_refl o.workspace, str_eq_refl o.profile)

pub is_subject→eq :
    (o : Owner) (name : String) (s : Subject)
    → is_subject o name s ≡ true
    → (s.owner ≡ o) × (s.name ≡ name)
is_subject→eq o name s h =
    (same_owner→eq s.owner o (ground arith), (str_eq_iff s.name name).0 (ground arith))

-- The key of an upsert is looked up to the new row.
pub current_revision-upsert_self :
    (s : Subject) (subs : List Subject)
    → current_revision s.owner s.name (upsert_subject s subs) ≡ some s.revision
unfolding current_revision upsert_subject
current_revision-upsert_self s [] = ground (arith, same_owner_refl s.owner, str_eq_refl s.name)
current_revision-upsert_self s (t ∷ subs) =
    ground (arith, same_owner_refl s.owner, str_eq_refl s.name, current_revision-upsert_self s subs)

is_subject_ne :
    (o : Owner) (name : String) (s t : Subject)
    → is_subject s.owner s.name t ≡ true
    → is_subject o name t ≡ is_subject o name s
is_subject_ne o name s t h = let (owner, key) = is_subject→eq s.owner s.name t h in rw (owner, key)

find_subject-upsert_ne :
    (o : Owner) (name : String) (s : Subject) (subs : List Subject)
    → is_subject o name s ≡ false
    → find_subject o name (upsert_subject s subs) ≡ find_subject o name subs
unfolding upsert_subject
find_subject-upsert_ne o name s [] h = rw h
find_subject-upsert_ne o name s (t ∷ subs) h = elim (Bool-cases (is_subject s.owner s.name t)) [
  | inl e ↦ rw (e, h, is_subject_ne o name s t e ∙ h)
  | inr e ↦ rw (e, find_subject-upsert_ne o name s subs h)
]

-- Other keys are looked up as before.
pub current_revision-upsert_ne :
    (o : Owner) (name : String) (s : Subject) (subs : List Subject)
    → is_subject o name s ≡ false
    → current_revision o name (upsert_subject s subs) ≡ current_revision o name subs
unfolding current_revision
current_revision-upsert_ne o name s subs h =
    ap (λ (x : Option Subject). elim x [ none ↦ none | some t ↦ some t.revision ])
      (find_subject-upsert_ne o name s subs h)

-- An upsert that keeps the revision of its subject changes no current revision.
pub current_revision-upsert_same :
    (o : Owner) (name : String) (s : Subject) (subs : List Subject)
    → current_revision s.owner s.name subs ≡ some s.revision
    → current_revision o name (upsert_subject s subs) ≡ current_revision o name subs
current_revision-upsert_same o name s subs h = elim (Bool-cases (is_subject o name s)) [
  | inl e ↦
      let (owner, key) = is_subject→eq o name s e in
      rw (← owner, ← key) (current_revision-upsert_self s subs ∙ sym h)
  | inr e ↦ current_revision-upsert_ne o name s subs e
]
