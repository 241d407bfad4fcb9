-- ===== src/Outcomes/Accounted.antt =====
-- What `import_events` returns: every record is accounted for, the journal only grows, and the links
-- between its events hold.
use job_hound.Base.{
  count-append, ℕ, zero, suc, ◌+◌, ◌≤◌, ◌≡◌, refl, subst, String, Bool, false, not, Option, List,
  [], ◌∷◌, ◌++◌, ltb, ◌==◌, filter, map, length, length-append, count, All, text_before, arith,
  Bool-cases, inl, inr,
}
use job_hound.Base.Results.{Attempt, ok, err, ◌>>=◌}
use job_hound.Outcomes.Events.{Scope, OutcomeEvent}
use job_hound.Outcomes.Grouped.{sort_by, insert_by, held, held-sort_by}
use job_hound.Outcomes.Intakes.{max_journal_events, take_records, triage, Triage}
use job_hound.Outcomes.Cascades.{pending_event, is_invalid, reject_groups, Cascade, cascade}
use job_hound.Outcomes.Imports.{
  ImportError, Imported, no_intake, import_batch, check_previous, distinct_scopes, distinct_events,
  import_events, refuse,
}
use job_hound.Outcomes.Counts.{take_records-filed, triage-placed, cascade-held, held-copies}

module _ {A : Type 0} (p : A → Bool) (f : A → String) where
  count-insert_by : (x : A) (xs : List A) → count p (insert_by f x xs) ≡ count p (x ∷ xs)
  unfolding insert_by
  count-insert_by x [] = refl
  count-insert_by x (y ∷ ys) =
      let h = count-insert_by x ys in
      elim (Bool-cases (text_before (f y) (f x))) [
        | inl e ↦ rw e (ground (arith, h))
        | inr e ↦ rw e refl
      ]

  count-sort_by : (xs : List A) → count p (sort_by f xs) ≡ count p xs
  unfolding sort_by
  count-sort_by [] = refl
  count-sort_by (x ∷ xs) =
      let a = count-insert_by x (sort_by f xs) in let b = count-sort_by xs in ground (arith, a, b)

module _ {A : Type 0} (f : A → String) where
  length-insert_by : (x : A) (xs : List A) → length (insert_by f x xs) ≡ length xs + 1
  unfolding insert_by
  length-insert_by x [] = omega arith
  length-insert_by x (y ∷ ys) =
      let h = length-insert_by x ys in
      elim (Bool-cases (text_before (f y) (f x))) [
        | inl e ↦ rw e (omega (arith, h))
        | inr e ↦ rw e (omega arith)
      ]

  length-sort_by : (xs : List A) → length (sort_by f xs) ≡ length xs
  unfolding sort_by
  length-sort_by [] = refl
  length-sort_by (x ∷ xs) =
      let a = length-insert_by x (sort_by f xs) in let b = length-sort_by xs in omega (arith, a, b)

length-map : {A B : Type 0} (f : A → B) (xs : List A) → length (map f xs) ≡ length xs
length-map f [] = refl
length-map f (x ∷ xs) = let h = length-map f xs in omega (arith, h)

-- What an import that returns says of its records and of the journal before.
pub record IsAccounted (previous : List OutcomeEvent) (records : ℕ) (r : Imported) : Type 0 where
  pub inputs : r.input_count ≡ records
  pub reconciled : r.accepted_count + r.duplicate_count + r.quarantined_count ≡ records
  pub grown : length r.events ≡ length previous + r.accepted_count
  pub bounded : length r.events ≤ 5000
  pub kept : (p : OutcomeEvent → Bool) → count p previous ≤ count p r.events

abbrev Returns : {A : Type 0} → (A → Type 0) → Attempt ImportError A → Type 0
Returns P (ok a) = P a
Returns P (err e) = Unit

Returns-then :
    {A B : Type 0} (P : B → Type 0) (m : Attempt ImportError A) (f : A → Attempt ImportError B)
    → ((a : A) → Returns P (f a))
    → Returns P (m >>= f)
Returns-then P (ok a) f h = h a
Returns-then P (err e) f h = tt

module _ (word : ℕ → Bool) (public : String → Bool) (encode : OutcomeEvent → String)
    (records : List (Option OutcomeEvent)) (scopes : List Scope) (as_of : ℕ)
    (known : List OutcomeEvent) where
  import_batch-IsAccounted :
      Returns
        (IsAccounted known (length records))
        (import_batch word public encode records scopes as_of known)
  unfolding import_batch held
  import_batch-IsAccounted =
      let taken = take_records word public scopes as_of 1 records no_intake in
      let begin : Triage = record {
        candidates = [];
        duplicates = 0;
        set_aside = taken.quarantine;
      } in
      let t = triage encode known (sort_by (λ g. g.key) taken.batch) begin in
      let start : Cascade = record { pending = t.candidates; quarantined = t.set_aside } in
      let c = cascade (length t.candidates) known start in
      let added = map pending_event c.pending in
      let filed = take_records-filed word public scopes as_of 1 records no_intake in
      let sorted = held-sort_by (λ g. g.key) taken.batch in
      let placed = triage-placed encode known (sort_by (λ g. g.key) taken.batch) begin in
      let kept_all = cascade-held (length t.candidates) known start in
      let copies = held-copies c.pending in
      let size = length-sort_by (λ e. e.event_id) (known ++ added) in
      let both = length-append known added in
      let same = length-map pending_event c.pending in
      elim (Bool-cases
        (ltb max_journal_events (length (sort_by (λ e. e.event_id) (known ++ added))))) [
          | inl e ↦ rw e tt
          | inr e ↦ rw e (record {
            inputs = refl;
            reconciled = omega (arith, filed, sorted, placed, kept_all, copies);
            grown = omega (arith, size, both, same);
            bounded = ground arith;
            kept = λ p.
                (let a = count-sort_by p (λ e. e.event_id) (known ++ added) in
                  let b = count-append p known added in omega (arith, a, b));
          })
        ]

-- An import that returns accounts for each of its records once, as accepted, as a duplicate or as
-- quarantined; its journal is as long as the one before with the accepted events, at most 5000; and
-- whatever is asked of an event, at least as many events of the journal pass it as before, so that none
-- was changed or dropped.
pub import_events-IsAccounted :
    (word : ℕ → Bool) (public : String → Bool) (encode : OutcomeEvent → String)
    (records : List (Option OutcomeEvent)) (scopes : List Scope) (as_of : ℕ)
    (previous : List OutcomeEvent) (r : Imported)
    → import_events word public encode records scopes as_of previous ≡ ok r
    → IsAccounted previous (length records) r
unfolding import_events
import_events-IsAccounted word public encode records scopes as_of previous r e =
    subst (Returns (IsAccounted previous (length records))) e (
      Returns-then _ (refuse (not (distinct_scopes scopes)) ImportError.duplicate_binding_scope) _
        (λ _. Returns-then _ (check_previous word public encode previous scopes as_of) _ (λ _.
          Returns-then _
            (refuse (not (distinct_events previous)) ImportError.duplicate_previous_event_id) _
            (λ _. import_batch-IsAccounted word public encode records scopes as_of previous))))

length-filter :
    {A : Type 0} (p : A → Bool) (xs : List A)
    → length (filter (λ x. not (p x)) xs) + length (filter p xs) ≡ length xs
length-filter p [] = refl
length-filter p (x ∷ xs) =
    let h = length-filter p xs in
    elim (Bool-cases (p x)) [ inl e ↦ rw e (omega (arith, h)) | inr e ↦ rw e (omega (arith, h)) ]

none_passes :
    {A : Type 0} (p : A → Bool) (xs : List A) → length (filter p xs) ≡ 0 → All (λ x. p x ≡ false) xs
none_passes p [] h = tt
none_passes p (x ∷ xs) h = elim (Bool-cases (p x)) [
  | inl e ↦ (let k : length (x ∷ filter p xs) ≡ 0 = rw e at h in absurd (omega (arith, k)))
  | inr e ↦ (e, none_passes p xs (rw e at h))
]

no_element : {A : Type 0} (P : A → Type 0) (xs : List A) → length xs ≤ 0 → All P xs
no_element P [] h = tt
no_element P (x ∷ xs) h = absurd (omega (arith, h))

-- With as much fuel as there are events, the cascade ends: no event that is left links to one that is
-- missing or that it may not supersede.
pub cascade_settles :
    (fuel : ℕ) (known : List OutcomeEvent) (s : Cascade)
    → length s.pending ≤ fuel
    → All
        (λ g. is_invalid known (cascade fuel known s).pending g ≡ false)
        (cascade fuel known s).pending
unfolding cascade
cascade_settles zero known s h = no_element _ s.pending h
cascade_settles (suc fuel) known s h =
    let bad = is_invalid known s.pending in
    let next : Cascade = record {
      pending = filter (λ g. not (bad g)) s.pending;
      quarantined = reject_groups (filter bad s.pending) s.quarantined;
    } in
    let parted = length-filter bad s.pending in
    elim (Bool-cases (length (filter bad s.pending) == 0)) [
      | inl e ↦ rw e (none_passes bad s.pending (ground arith))
      | inr e ↦ rw e (cascade_settles fuel known next (ground (arith, parted)))
    ]
