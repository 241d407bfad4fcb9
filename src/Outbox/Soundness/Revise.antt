-- ===== src/Outbox/Soundness/Revise.antt =====
-- `revise` keeps the outbox sound: a new revision makes every unsent card of its subject stale, and
-- supersedes it.
use job_hound.Base.{
  ℕ, ◌≡◌, refl, sym, ap, ◌∙◌, true, false, List, [], ◌∷◌, ◌++◌, Option, none, some, String, All,
  All-map, arith, Option-cases, Bool-cases, inl, inr, str_eq, str_eq_iff, str_eq_refl,
}
use job_hound.Outbox.Rows.{Owner, Revision, Cause, Subject, Intent}
use job_hound.Outbox.Queries.{
  find_revision, find_subject, is_subject, joins_subject, current_revision,
}
use job_hound.Outbox.Identity.{subject}
use job_hound.Outbox.Revise.{
  is_unsent_card, supersede_subject, upsert_subject, insert_revision, write_revision, revise,
  revise_from, Snapshot, Previous, find_previous, previous_of, revision_of_snapshot, subject_row,
}
use job_hound.Outbox.Triples.{
  Core, On, Triple, modify_then, modify_lem, gets_then, if_lem, pure_lem, gets_lem, weaken,
  strengthen, bind_lem, check_then,
}
use job_hound.Outbox.Intents.{IdsAscend, same_owner→eq}
use job_hound.Outbox.Subjects.{
  find_revision-append, is_subject→eq, same_owner_refl, current_revision-upsert_ne,
  current_revision-upsert_same,
}
use job_hound.Outbox.Soundness.Superseding.{
  IsOtherCurrent, IsSuperseding, supersede-IsSuperseding, IsSuperseding-IsSound, selection_listed,
}
use job_hound.Outbox.Soundness.{IsWellFormed, IsCurrentCard, IsOpenCurrent, IsSound}

-- After the writes of a new revision, before the superseding.
record IsWritten (o : Owner) (name : String) (revs : List Revision) (subs : List Subject)
    (is : List Intent) : Type 0 where
  ascend : IdsAscend is
  formed : All IsWellFormed is
  other : All (IsOtherCurrent o name revs subs) is

other_key :
    (o : Owner) (name : String) (r : Revision) (s : Subject)
    → s.owner ≡ o
    → s.name ≡ name
    → joins_subject o name (some r) ≡ false
    → is_subject r.owner r.subject s ≡ false
other_key o name r s a b h = elim (Bool-cases (is_subject r.owner r.subject s)) [
  | inr e ↦ e
  | inl e ↦
      let (owner, key) = is_subject→eq r.owner r.subject s e in
      let p : r.owner ≡ o = sym owner ∙ a in
      let q : r.subject ≡ name = sym key ∙ b in
      absurd (ground (arith, rw (p, q, same_owner_refl o, str_eq_refl name) at h))
]

written-IsOtherCurrent :
    (o : Owner) (name : String) (r : Revision) (s : Subject) (revs : List Revision)
    (subs : List Subject) (i : Intent)
    → s.owner ≡ o
    → s.name ≡ name
    → IsOpenCurrent revs subs i
    → IsOtherCurrent o name (revs ++ r ∷ []) (upsert_subject s subs) i
written-IsOtherCurrent o name r s revs subs i a b h e other =
    let c = h e in
    let found = find_revision-append i.revision revs (r ∷ []) c.revision c.found in
    record {
      revision = c.revision;
      found = found;
      current =
          current_revision-upsert_ne c.revision.owner c.revision.subject s subs
            (other_key o name c.revision s a b (ap (joins_subject o name) (sym found) ∙ other))
          ∙ c.current;
    }

-- The two writes of a new revision, on any statement.
write_revision_lem :
    (P R : Core) (o : Owner) (name : String) (sequence : ℕ) (cause : Cause) (s : Snapshot)
    → (let r = revision_of_snapshot o name sequence cause s in
        (revs : List Revision) (subs : List Subject) (is : List Intent)
        → P revs subs is
        → R (revs ++ r ∷ []) (upsert_subject (subject_row o name s.fresh s) subs) is)
    → Triple (On P) (write_revision o name sequence cause s) (λ _. On R)
unfolding write_revision insert_revision
write_revision_lem P R o name sequence cause s k =
    let r = revision_of_snapshot o name sequence cause s in
    bind_lem
      (λ _ db.
        (revs : List Revision) × (db.revisions ≡ revs ++ r ∷ []) × P revs db.subjects db.intents)
      (gets_then (λ known. check_then _ _ (λ _. modify_lem _ (λ db h. (db.revisions, refl, h.0)))))
      (λ _. modify_lem _ (λ db h. rw h.1 (k h.0 db.subjects db.intents h.2)))

write_revision-IsWritten :
    (o : Owner) (name : String) (sequence : ℕ) (cause : Cause) (s : Snapshot)
    → Triple (On IsSound) (write_revision o name sequence cause s) (λ _. On (IsWritten o name))
write_revision-IsWritten o name sequence cause s =
    write_revision_lem IsSound (IsWritten o name) o name sequence cause s (λ revs subs is h.
      record {
        ascend = h.ascend;
        formed = h.formed;
        other =
            All-map _ _ is
              (λ i k.
                written-IsOtherCurrent o name _ (subject_row o name s.fresh s) revs subs i refl refl
                  k)
              h.current;
      })

supersede_subject-IsSound :
    (o : Owner) (name : String) (now : ℕ)
    → Triple (On (IsWritten o name)) (supersede_subject o name now) (λ _. On IsSound)
unfolding supersede_subject
supersede_subject-IsSound o name now = gets_then (λ rows.
    weaken (On (IsSuperseding o name rows))
      (λ db h. rw (← h.1) (record {
        ascend = h.0.ascend;
        formed = h.0.formed;
        other = h.0.other;
        listed = selection_listed (is_unsent_card o name db.revisions) db.intents;
      }))
      (strengthen (λ _. On (IsSuperseding o name []))
        (λ _ db h. IsSuperseding-IsSound o name _ _ _ h) (supersede-IsSuperseding o name now rows)))

previous_of-some :
    (t : Subject) (revs : List Revision) (r : Revision)
    → find_revision t.revision revs ≡ some r
    → previous_of (some t) revs ≡ some (record { subject = t; revision = r })
unfolding previous_of
previous_of-some t revs r e = rw (e, previous_of)

previous_of_missing :
    (t : Subject) (revs : List Revision)
    → find_revision t.revision revs ≡ none
    → previous_of (some t) revs ≡ none
unfolding previous_of
previous_of_missing t revs e = rw (e, previous_of)

previous_of_lem :
    (x : Option Subject) (revs : List Revision) (p : Previous)
    → previous_of x revs ≡ some p
    → x ≡ some p.subject
unfolding previous_of
previous_of_lem none revs p e = cc
previous_of_lem (some t) revs p e = elim (Option-cases (find_revision t.revision revs)) [
  | inl a ↦ cc (e, previous_of_missing t revs a)
  | inr (r, a) ↦
      ap (λ (q : Option Previous). elim q [ none ↦ none | some w ↦ some w.subject ])
        (sym (previous_of-some t revs r a) ∙ e)
]

untracked_subject :
    (x : Option Subject) (revs : List Revision) (id : String) (r : Revision)
    → previous_of x revs ≡ none
    → (let y : Option String = elim x [ none ↦ none | some t ↦ some t.revision ] in y) ≡ some id
    → find_revision id revs ≡ some r
    → ⊥
unfolding previous_of
untracked_subject none revs id r e c f = cc
untracked_subject (some t) revs id r e c f =
    let q : t.revision ≡ id = cc in
    let g : find_revision t.revision revs ≡ some r = rw q f in cc (previous_of-some t revs r g, e)

-- Where the subject has no previous revision, no card of it is open.
untracked :
    (o : Owner) (name : String) (revs : List Revision) (subs : List Subject) (i : Intent)
    → previous_of (find_subject o name subs) revs ≡ none
    → IsCurrentCard revs subs i
    → joins_subject o name (find_revision i.revision revs) ≡ false
unfolding current_revision
untracked o name revs subs i e c =
    elim (Bool-cases (joins_subject o name (find_revision i.revision revs))) [
      | inr b ↦ b
      | inl b ↦
          let b' : joins_subject o name (some c.revision) ≡ true =
            ap (joins_subject o name) (sym c.found) ∙ b in
          let p : c.revision.owner ≡ o = same_owner→eq c.revision.owner o (ground arith) in
          let q : c.revision.subject ≡ name =
            (str_eq_iff c.revision.subject name).0 (ground arith) in
          absurd (
            untracked_subject (find_subject o name subs) revs i.revision c.revision e
              (rw (p, q) at c.current) c.found)
    ]

-- The first revision of a subject.
first-IsSound :
    (o : Owner) (name : String) (s : Snapshot) (revs : List Revision) (subs : List Subject)
    (is : List Intent)
    → IsSound revs subs is × (previous_of (find_subject o name subs) revs ≡ none)
    → IsSound
        (revs ++ revision_of_snapshot o name 1 Cause.new s ∷ [])
        (upsert_subject (subject_row o name s.fresh s) subs)
        is
first-IsSound o name s revs subs is h = record {
  ascend = h.0.ascend;
  formed = h.0.formed;
  current =
      All-map _ _ is
        (λ i k e.
          let c = k e in
          written-IsOtherCurrent o name _ (subject_row o name s.fresh s) revs subs i refl refl k e (
            ap (joins_subject o name)
              (find_revision-append i.revision revs _ c.revision c.found ∙ sym c.found)
            ∙ untracked o name revs subs i h.1 c))
        h.0.current;
}

-- An unchanged card only moves the policy and the time of its subject.
unchanged-IsSound :
    (o : Owner) (name : String) (p : Previous) (s : Snapshot) (revs : List Revision)
    (subs : List Subject) (is : List Intent)
    → IsSound revs subs is
    → previous_of (find_subject o name subs) revs ≡ some p
    → IsSound revs (upsert_subject (subject_row o name p.subject.revision s) subs) is
unfolding current_revision
unchanged-IsSound o name p s revs subs is h e =
    let tracked : current_revision o name subs ≡ some p.subject.revision =
      ap (λ (x : Option Subject). elim x [ none ↦ none | some t ↦ some t.revision ])
        (previous_of_lem _ revs p e) in
    record {
      ascend = h.ascend;
      formed = h.formed;
      current =
          All-map _ _ is
            (λ i k o'.
              let c = k o' in
              record {
                revision = c.revision;
                found = c.found;
                current =
                    current_revision-upsert_same c.revision.owner c.revision.subject
                      (subject_row o name p.subject.revision s) subs tracked
                    ∙ c.current;
              })
            h.current;
    }

revise_from-IsSound :
    (o : Owner) (name : String) (s : Snapshot) (previous : Option Previous)
    → Triple
        (λ db. On IsSound db × (find_previous o name db ≡ previous))
        (revise_from o name s previous)
        (λ _. On IsSound)
unfolding revise_from find_previous
revise_from-IsSound o name s none =
    weaken
      (On (λ revs subs is.
        IsSound revs subs is × (previous_of (find_subject o name subs) revs ≡ none)))
      (λ db h. h)
      (bind_lem (λ _. On IsSound)
        (write_revision_lem _ IsSound o name 1 Cause.new s (first-IsSound o name s))
        (λ _. pure_lem _ (λ db h. h)))
revise_from-IsSound o name s (some p) = check_then _ _ (λ _.
    if_lem {c = str_eq p.revision.material s.material}
      (λ _.
        modify_then (On IsSound) (λ db h. unchanged-IsSound o name p s _ _ _ h.0 h.1)
          (pure_lem _ (λ db h. h)))
      (λ _.
        weaken (On IsSound) (λ db h. h.0)
          (bind_lem (λ _. On (IsWritten o name)) (write_revision-IsWritten o name _ _ s)
            (λ _.
              bind_lem (λ _. On IsSound) (supersede_subject-IsSound o name s.now)
                (λ _. pure_lem _ (λ db h. h))))))

pub revise-IsSound :
    (o : Owner) (canonical_id : String) (s : Snapshot)
    → Triple (On IsSound) (revise o canonical_id s) (λ _. On IsSound)
unfolding revise subject
revise-IsSound o canonical_id s = gets_then (λ b. check_then _ _ (λ _.
    bind_lem (λ _. On IsSound) (check_then _ _ (λ _. gets_lem _ (λ db h. h.0)))
      (λ name. gets_then (λ previous. revise_from-IsSound o name s previous))))
