-- ===== src/Envelopes/Sends.antt =====
-- How often a part is sent: once more than the provider is known not to have taken it.
use job_hound.Base.{
  ℕ, ◌+◌, ◌≤◌, ◌≡◌, refl, sym, ap, ◌∙◌, inl, inr, String, Bool, true, false, ◌&&◌, some, List, [],
  ◌∷◌, ◌++◌, ◌==◌, arith, str_eq, str_eq_iff, find?, any, count, All, All-append, All-map,
  All-every, update_where, Bool-cases, if◌then◌else◌, and-true,
}
use job_hound.Outbox.Rows.{PartStatus, Part, PartEventName, PartEvent}
use job_hound.Envelopes.Reads.{is_waiting, parts_of}
use job_hound.Envelopes.Writes.{is_part, set_part_status}
use job_hound.Envelopes.Claims.{start_part}
use job_hound.Envelopes.Settling.{settled_part}
use job_hound.Envelopes.Keys.{HasUniqueKeys, HasUniqueKeys-update, found_unique, apart_from}

abbrev pub is_refusal : PartEventName → Bool
is_refusal PartEventName.not_sent = true
is_refusal _ = false

abbrev is_refusal_of : String → ℕ → PartEvent → Bool
is_refusal_of env ordinal e = str_eq e.envelope env && e.ordinal == ordinal && is_refusal e.event

-- The times that a part is recorded as surely not sent.
unfoldable pub refusals : String → ℕ → List PartEvent → ℕ
refusals env ordinal es = count (is_refusal_of env ordinal) es

-- A waiting part was sent at most as often as it was refused, any other at most once more.
abbrev pub IsCovered : List PartEvent → Part → Type 0
IsCovered es p =
    p.attempts ≤ refusals p.envelope p.ordinal es + (if is_waiting p.status then 0 else 1)

pub record IsAccounted (ps : List Part) (es : List PartEvent) : Type 0 where
  pub unique : HasUniqueKeys ps
  pub covered : All (IsCovered es) ps

refusals-append :
    (env : String) (ordinal : ℕ) (es : List PartEvent) (e : PartEvent)
    → refusals env ordinal (es ++ e ∷ [])
      ≡ refusals env ordinal es + (if is_refusal_of env ordinal e then 1 else 0)
unfolding refusals
refusals-append env ordinal [] e = ground arith
refusals-append env ordinal (f ∷ es) e = let h = refusals-append env ordinal es e in ground arith

-- What is recorded only adds to what covers a part.
pub IsAccounted-event :
    (ps : List Part) (es : List PartEvent) (e : PartEvent)
    → IsAccounted ps es
    → IsAccounted ps (es ++ e ∷ [])
IsAccounted-event ps es e h = record {
  unique = h.unique;
  covered =
      All-map _ _ ps (λ p c. rw (refusals-append p.envelope p.ordinal es e) (omega (arith, c)))
        h.covered;
}

-- A write that each row of its key admits.
pub update-IsAccounted :
    (env : String) (ordinal : ℕ) (f : Part → Part) (ps : List Part) (es es' : List PartEvent)
    → ((p : Part) → ((f p).envelope ≡ p.envelope) × ((f p).ordinal ≡ p.ordinal))
    → All (λ q. is_part env ordinal q ≡ true → IsCovered es q → IsCovered es' (f q)) ps
    → All (λ q. is_part env ordinal q ≡ false → IsCovered es q → IsCovered es' q) ps
    → IsAccounted ps es
    → IsAccounted (update_where (is_part env ordinal) f ps) es'
update-IsAccounted env ordinal f ps es es' same hit miss h = record {
  unique = HasUniqueKeys-update env ordinal f same ps h.unique;
  covered = go ps hit miss h.covered;
}
  where
    go :
        (ps : List Part)
        → All (λ q. is_part env ordinal q ≡ true → IsCovered es q → IsCovered es' (f q)) ps
        → All (λ q. is_part env ordinal q ≡ false → IsCovered es q → IsCovered es' q) ps
        → All (IsCovered es) ps
        → All (IsCovered es') (update_where (is_part env ordinal) f ps)
    go [] hit miss c = tt
    go (p ∷ ps) hit miss c = elim (Bool-cases (is_part env ordinal p)) [
      | inl e ↦ rw e (hit.0 e c.0, go ps hit.1 miss.1 c.1)
      | inr e ↦ rw e (miss.0 e c.0, go ps hit.1 miss.1 c.1)
    ]

-- A part that leaves waiting, or stays so, without being sent.
pub doubt-IsAccounted :
    (env : String) (ordinal : ℕ) (s : PartStatus) (ps : List Part) (es : List PartEvent)
    → is_waiting s ≡ false
    → IsAccounted ps es
    → IsAccounted (update_where (is_part env ordinal) (set_part_status s) ps) es
doubt-IsAccounted env ordinal s ps es w h =
    update-IsAccounted env ordinal (set_part_status s) ps es es (λ p. (refl, refl))
      (All-every ps (λ q _ c. rw w (ground arith))) (All-every ps (λ q _ c. c)) h

-- The next part is sent.
pub start-IsAccounted :
    (env : String) (t : Part → Bool) (ps : List Part) (p : Part) (es : List PartEvent)
    → find? t (parts_of env ps) ≡ some p
    → is_waiting p.status ≡ true
    → IsAccounted ps es
    → IsAccounted (update_where (is_part env p.ordinal) start_part ps) es
start-IsAccounted env t ps p es e w h =
    update-IsAccounted env p.ordinal start_part ps es es (λ p. (refl, refl))
      (All-map _ _ ps (λ q same b c. start_lem es q (ap (λ x. is_waiting x.status) (same b) ∙ w) c)
        (found_unique env t ps p h.unique e))
      (All-every ps (λ q _ c. c)) h
  where
    start_lem :
        (es : List PartEvent) (q : Part)
        → is_waiting q.status ≡ true
        → IsCovered es q
        → IsCovered es (start_part q)
    start_lem es q w c = ground arith

settle_lem :
    (env : String) (ordinal n attempts : ℕ) (s : PartStatus) (e : PartEvent) (q : Part)
    → e.envelope ≡ env
    → e.ordinal ≡ ordinal
    → (is_waiting s ≡ true → is_refusal e.event ≡ true)
    → is_part env ordinal q ≡ true
    → attempts ≤ n + (if is_waiting q.status then 0 else 1)
    → attempts
      ≤ n
        + (if is_refusal_of q.envelope q.ordinal e then 1 else 0)
        + (if is_waiting s then 0 else 1)
settle_lem env ordinal n attempts s e q own at refused b c =
    let (home, number) = and-true (str_eq q.envelope env) (q.ordinal == ordinal) b in
    let same =
      (str_eq_iff e.envelope q.envelope).1 (own ∙ sym ((str_eq_iff q.envelope env).0 home)) in
    elim (Bool-cases (is_waiting s)) [
      | inl w ↦ (let r = refused w in rw (same, w, r) (ground arith))
      | inr w ↦ rw w (ground arith)
    ]

-- A part is settled, and its outcome is recorded.
pub settle-IsAccounted :
    (env : String) (ordinal : ℕ) (s : PartStatus) (available : ℕ) (ps : List Part)
    (es : List PartEvent) (e : PartEvent)
    → e.envelope ≡ env
    → e.ordinal ≡ ordinal
    → (is_waiting s ≡ true → is_refusal e.event ≡ true)
    → IsAccounted ps es
    → IsAccounted (update_where (is_part env ordinal) (settled_part s available) ps) (es ++ e ∷ [])
settle-IsAccounted env ordinal s available ps es e own at refused h =
    update-IsAccounted env ordinal (settled_part s available) ps es (es ++ e ∷ [])
      (λ p. (refl, refl))
      (All-every ps (λ q b c.
        rw (refusals-append q.envelope q.ordinal es e)
          (settle_lem env ordinal _ _ s e q own at refused b c)))
      (All-every ps (λ q _ c. rw (refusals-append q.envelope q.ordinal es e) (omega (arith, c)))) h

-- A new part that waits and was never sent, under a key that is free.
pub IsAccounted-part :
    (n : Part) (ps : List Part) (es : List PartEvent)
    → n.attempts ≡ 0
    → any (λ p. str_eq p.envelope n.envelope && p.ordinal == n.ordinal) ps ≡ false
    → IsAccounted ps es
    → IsAccounted (ps ++ n ∷ []) es
IsAccounted-part n ps es fresh free h = record {
  unique = apart_from n ps free h.unique;
  covered = All-append _ ps (n ∷ []) h.covered (rw fresh (ground arith), tt);
}
