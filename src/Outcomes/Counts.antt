-- ===== src/Outcomes/Counts.antt =====
-- Where the steps of an import leave each of its records.
use job_hound.Base.{
  ℕ, zero, suc, ◌+◌, ◌≡◌, refl, String, Bool, not, ◌||◌, Option, none, some, List, [], ◌∷◌, ◌++◌,
  ltb, ◌==◌, any, filter, map, length, length-append, distinct, is_some, arith, Bool-cases, inl,
  inr,
}
use job_hound.Outcomes.Events.{Scope, same_scope, OutcomeEvent}
use job_hound.Outcomes.Grouped.{Group, members_of, held, held-append_to}
use job_hound.Outcomes.Intakes.{
  Code, Rejected, Filed, Intake, reject, is_future, take_event, validate, take_record, take_records,
  reject_each, find_event, differs, Triage, triage_group, triage,
}
use job_hound.Outcomes.Cascades.{is_invalid, reject_groups, Cascade, cascade}
use job_hound.Outcomes.Imports.{extra_copies}

length-reject :
    (line : ℕ) (c : Code) (qs : List Rejected) → length (reject line c qs) ≡ length qs + 1
length-reject line c qs = length-append qs _

take_event-filed :
    (scopes : List Scope) (as_of line : ℕ) (e : OutcomeEvent) (s : Intake)
    → length (take_event scopes as_of line e s).quarantine
        + held (take_event scopes as_of line e s).batch
      ≡ length s.quarantine + held s.batch + 1
unfolding take_event
take_event-filed scopes as_of line e s = elim (Bool-cases (not (any (same_scope e.scope) scopes))) [
  | inl a ↦
      (let h = length-reject line Code.unmatched_scope s.quarantine in rw a (omega (arith, h)))
  | inr a ↦ elim (Bool-cases (is_future as_of e)) [
    | inl b ↦
        (let h = length-reject line Code.future_evidence s.quarantine in
          rw (a, b) (omega (arith, h)))
    | inr b ↦ (let h = held-append_to e.event_id (line, e) s.batch in rw (a, b) (omega (arith, h)))
  ]
]

take_record-filed :
    (scopes : List Scope) (as_of line : ℕ) (r : Option OutcomeEvent) (s : Intake)
    → length (take_record scopes as_of line r s).quarantine
        + held (take_record scopes as_of line r s).batch
      ≡ length s.quarantine + held s.batch + 1
unfolding take_record
take_record-filed scopes as_of line none s =
    let h = length-reject line Code.invalid_event_schema s.quarantine in omega (arith, h)
take_record-filed scopes as_of line (some e) s = take_event-filed scopes as_of line e s

pub take_records-filed :
    (word : ℕ → Bool) (public : String → Bool) (scopes : List Scope) (as_of line : ℕ)
    (rs : List (Option OutcomeEvent)) (s : Intake)
    → length (take_records word public scopes as_of line rs s).quarantine
        + held (take_records word public scopes as_of line rs s).batch
      ≡ length s.quarantine + held s.batch + length rs
unfolding take_records
take_records-filed word public scopes as_of line [] s = omega arith
take_records-filed word public scopes as_of line (r ∷ rs) s =
    let a = take_record-filed scopes as_of line (validate word public r) s in
    let b =
      take_records-filed word public scopes as_of (suc line) rs
        (take_record scopes as_of line (validate word public r) s) in
    omega (arith, a, b)

length-reject_each :
    (c : Code) (fs : List Filed) (qs : List Rejected)
    → length (reject_each c fs qs) ≡ length qs + length fs
unfolding reject_each
length-reject_each c [] qs = omega arith
length-reject_each c ((line, e) ∷ fs) qs =
    let a = length-reject line c qs in
    let b = length-reject_each c fs (reject line c qs) in omega (arith, a, b)

-- Where the records of a batch went.
abbrev placed : Triage → ℕ
placed t = length t.set_aside + t.duplicates + held t.candidates

held-snoc :
    (gs : List (Group Filed)) (g : Group Filed)
    → held (gs ++ g ∷ []) ≡ held gs + length (members_of g)
unfolding held
held-snoc [] g = omega arith
held-snoc (h ∷ gs) g = let k = held-snoc gs g in omega (arith, k)

triage_group-placed :
    (encode : OutcomeEvent → String) (known : List OutcomeEvent) (t : Triage) (g : Group Filed)
    → placed (triage_group encode known t g) ≡ placed t + length (members_of g)
unfolding triage_group
triage_group-placed encode known t g =
    elim (Bool-cases (
      ltb 1 (length (distinct (map (λ f. encode f.1) (members_of g))))
      || differs encode (find_event g.key known) (map (λ f. encode f.1) (members_of g)))) [
        | inl a ↦
            (let h = length-reject_each Code.event_id_collision (members_of g) t.set_aside in
              rw a (omega (arith, h)))
        | inr a ↦ elim (Bool-cases (is_some (find_event g.key known))) [
          | inl b ↦ rw (a, b) (omega arith)
          | inr b ↦ (let h = held-snoc t.candidates g in rw (a, b) (omega (arith, h)))
        ]
      ]

pub triage-placed :
    (encode : OutcomeEvent → String) (known : List OutcomeEvent) (gs : List (Group Filed))
    (t : Triage)
    → placed (triage encode known gs t) ≡ placed t + held gs
unfolding triage held
triage-placed encode known [] t = omega arith
triage-placed encode known (g ∷ gs) t =
    let a = triage_group-placed encode known t g in
    let b = triage-placed encode known gs (triage_group encode known t g) in omega (arith, a, b)

length-reject_groups :
    (gs : List (Group Filed)) (qs : List Rejected)
    → length (reject_groups gs qs) ≡ length qs + held gs
unfolding reject_groups held
length-reject_groups [] qs = omega arith
length-reject_groups (g ∷ gs) qs =
    let a = length-reject_each Code.invalid_supersession (members_of g) qs in
    let b = length-reject_groups gs (reject_each Code.invalid_supersession (members_of g) qs) in
    omega (arith, a, b)

held-filter :
    (p : Group Filed → Bool) (gs : List (Group Filed))
    → held (filter (λ g. not (p g)) gs) + held (filter p gs) ≡ held gs
unfolding held
held-filter p [] = refl
held-filter p (g ∷ gs) =
    let h = held-filter p gs in
    elim (Bool-cases (p g)) [ inl e ↦ rw e (omega (arith, h)) | inr e ↦ rw e (omega (arith, h)) ]

pub cascade-held :
    (fuel : ℕ) (known : List OutcomeEvent) (s : Cascade)
    → length (cascade fuel known s).quarantined + held (cascade fuel known s).pending
      ≡ length s.quarantined + held s.pending
unfolding cascade
cascade-held zero known s = refl
cascade-held (suc fuel) known s =
    let bad = is_invalid known s.pending in
    let next : Cascade = record {
      pending = filter (λ g. not (bad g)) s.pending;
      quarantined = reject_groups (filter bad s.pending) s.quarantined;
    } in
    elim (Bool-cases (length (filter bad s.pending) == 0)) [
      | inl e ↦ rw e refl
      | inr e ↦
          let a = cascade-held fuel known next in
          let b = length-reject_groups (filter bad s.pending) s.quarantined in
          let c = held-filter bad s.pending in rw e (omega (arith, a, b, c))
    ]

pub held-copies : (gs : List (Group Filed)) → held gs ≡ length gs + extra_copies gs
unfolding held extra_copies
held-copies [] = refl
held-copies (g ∷ gs) = let h = held-copies gs in omega (arith, h)
