-- ===== src/Outbox/Soundness/Enqueue.antt =====
-- `enqueue` keeps the outbox sound.
use job_hound.Base.{
  ℕ, ◌≡◌, sym, ap, subst, ◌∙◌, Bool, true, false, ◌&&◌, List, [], ◌∷◌, ◌++◌, Option, none, some,
  String, All-append, arith, Bool-cases, inl, inr, str_eq, str_eq_iff, if◌then◌else◌, leb,
  All-find?, All-every, not-false,
}
use job_hound.Outbox.Rows.{Owner, same_owner, Destination, Status, Revision, Subject, Intent}
use job_hound.Outbox.Queries.{find_revision, current_revision, next_intent_id}
use job_hound.Outbox.Enqueue.{enqueue, enqueue_new, insert_intent, new_intent, owned_revision_row}
use job_hound.Outbox.Triples.{
  On, Triple, modify_then, gets_then, pure_lem, weaken, check_then, or_raise_then,
}
use job_hound.Outbox.Intents.{IdsAscend-append, All-next_intent_id, same_owner→eq}
use job_hound.Outbox.Soundness.{IsWellFormed, IsOpenCurrent, IsSound}

-- A sound state of which `r` is the current revision of its subject.
record IsEnqueueing (o : Owner) (r : Revision) (revs : List Revision) (subs : List Subject)
    (is : List Intent) : Type 0 where
  sound : IsSound revs subs is
  found : find_revision r.id revs ≡ some r
  owner : r.owner ≡ o
  current : current_revision o r.subject subs ≡ some r.id

owned_revision_row_lem :
    (o : Owner) (x : Option Revision) (r : Revision)
    → owned_revision_row o x ≡ some r
    → (x ≡ some r) × (r.owner ≡ o)
owned_revision_row_lem o none r e = cc
owned_revision_row_lem o (some q) r e = elim (Bool-cases (same_owner q.owner o)) [
  | inl b ↦
      let e' : some q ≡ some r = rw b at e in
      let s : q ≡ r = cc in (e', ap (λ (w : Revision). w.owner) (sym s) ∙ same_owner→eq q.owner o b)
  | inr b ↦ cc (b, e)
]

is_current→eq :
    (x : Option String) (id : String)
    → (let b : Bool = elim x [ none ↦ false | some c ↦ str_eq c id ] in b) ≡ true
    → x ≡ some id
is_current→eq none id e = cc
is_current→eq (some c) id e = ap some ((str_eq_iff c id).0 e)

selected-IsEnqueueing :
    (o : Owner) (revision : String) (r : Revision) (revs : List Revision) (subs : List Subject)
    (is : List Intent)
    → IsSound revs subs is
    → owned_revision_row o (find_revision revision revs) ≡ some r
    → current_revision o r.subject subs ≡ some r.id
    → IsEnqueueing o r revs subs is
selected-IsEnqueueing o revision r revs subs is h e c =
    let (found, owner) = owned_revision_row_lem o (find_revision revision revs) r e in
    let id : r.id ≡ revision =
      (str_eq_iff r.id revision).0
        (All-find? (λ q. Unit {0}) (λ q. str_eq q.id revision) revs r (All-every revs (λ _. tt))
          found).1 in
    record {
      sound = h;
      found = subst (λ k. find_revision k revs ≡ some r) (sym id) found;
      owner = owner;
      current = c;
    }

inserted-IsSound :
    (o : Owner) (r : Revision) (d : Destination) (held : Bool) (payload : String) (m now : ℕ)
    (revs : List Revision) (subs : List Subject) (is : List Intent)
    → (leb 1 m && leb m 10) ≡ true
    → IsEnqueueing o r revs subs is
    → IsSound revs subs (
        is
        ++ new_intent
            (next_intent_id is)
            r.id
            d
            (if held then Status.legacy_hold else Status.pending)
            payload
            m
            now
          ∷ [])
inserted-IsSound o r d held payload m now revs subs is bound h = record {
  ascend = IdsAscend-append is _ h.sound.ascend (All-next_intent_id is);
  formed = All-append IsWellFormed is _ h.sound.formed (ground arith, tt);
  current =
      All-append (IsOpenCurrent revs subs) is _ h.sound.current
        ((λ _. record { revision = r; found = h.found; current = rw h.owner h.current }), tt);
}

enqueue_new-IsSound :
    (o : Owner) (r : Revision) (d : Destination) (payload : String) (m now : ℕ)
    (existing : Option Status)
    → (leb 1 m && leb m 10) ≡ true
    → Triple (On (IsEnqueueing o r)) (enqueue_new o r d payload m now existing) (λ _. On IsSound)
unfolding enqueue_new insert_intent
enqueue_new-IsSound o r d payload m now none bound = gets_then (λ held.
    modify_then (On IsSound) (λ db h. inserted-IsSound o r d held payload m now _ _ _ bound h.0)
      (pure_lem _ (λ db h. h)))
enqueue_new-IsSound o r d payload m now (some s) bound = pure_lem _ (λ db h. h.sound)

pub enqueue-IsSound :
    (o : Owner) (revision : String) (d : Destination) (payload : String) (now m : ℕ)
    → Triple (On IsSound) (enqueue o revision d payload now m) (λ _. On IsSound)
unfolding enqueue
enqueue-IsSound o revision d payload now m = gets_then (λ b. check_then _ _ (λ _.
    check_then _ _ (λ _. check_then _ _ (λ _. check_then _ _ (λ bound. gets_then (λ found.
      or_raise_then _ (λ r e. gets_then (λ c. check_then _ _ (λ is_now. check_then _ _ (λ _.
        gets_then (λ existing.
          weaken (On (IsEnqueueing o r))
            (λ db h.
              selected-IsEnqueueing o revision r _ _ _ h.0.0.0.0 (h.0.0.1 ∙ e)
                (is_current→eq _ _ (h.0.1 ∙ not-false c is_now)))
            (enqueue_new-IsSound o r d payload m now existing (not-false _ bound)))))))))))))
