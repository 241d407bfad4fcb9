-- ===== src/Source/Streak.antt =====
-- What a streak of checks without a yield consists of.
mod Uninterrupted
mod Examples
use job_hound.Base.{
  ℕ, suc, ◌+◌, ◌≤◌, ◌≡◌, refl, sym, ap, ◌∙◌, String, Bool, true, false, not, ◌&&◌, ◌||◌, Option,
  none, some, List, [], ◌∷◌, ◌++◌, leb, map, length, if◌then◌else◌, All, Bool-cases, inl, inr, ◌⊎◌,
  arith,
}
use job_hound.Source.Checks.{
  SourceCheck, is_adequate, has_novel, Tally, start, is_apart, count_zero, tally_check, tally,
  comes_before, insert, sort, review_cohort,
}
use job_hound.Source.Streak.Uninterrupted.{since_novel, apart_from, tally-start}

-- Checks of a kind, each adequate and without a yield, each window after the one before: and the end of
-- the last.
pub data ZeroRun (P : SourceCheck → Type 0) : List SourceCheck → Option ℕ → Type 0 where
  nothing : ZeroRun P [] none
  then :
      (zs : List SourceCheck) (e : Option ℕ) (c : SourceCheck)
      → ZeroRun P zs e
      → P c
      → is_adequate c ≡ true
      → has_novel c ≡ false
      → is_apart e c.window_start ≡ true
      → ZeroRun P (zs ++ c ∷ []) (some c.window_end)

-- The run that a tally counts.
pub record IsCounted (P : SourceCheck → Type 0) (t : Tally) : Type 0 where
  pub checks : List SourceCheck
  pub zero_run : ZeroRun P checks t.zero_end
  pub ids : map (λ c. c.check_id) checks ≡ t.zero_checks
  pub streak : length checks ≡ t.streak

map-snoc :
    (zs : List SourceCheck) (c : SourceCheck)
    → map (λ d. d.check_id) (zs ++ c ∷ []) ≡ map (λ d. d.check_id) zs ++ c.check_id ∷ []
map-snoc [] c = refl
map-snoc (z ∷ zs) c = ap (λ ids. z.check_id ∷ ids) (map-snoc zs c)

length-snoc : (zs : List SourceCheck) (c : SourceCheck) → length (zs ++ c ∷ []) ≡ length zs + 1
length-snoc [] c = refl
length-snoc (z ∷ zs) c = let h = length-snoc zs c in omega (arith, h)

count_zero-IsCounted :
    (P : SourceCheck → Type 0) (c : SourceCheck) (t : Tally)
    → P c
    → is_adequate c ≡ true
    → has_novel c ≡ false
    → IsCounted P t
    → IsCounted P (count_zero c t)
unfolding count_zero
count_zero-IsCounted P c t p a n h = elim (Bool-cases (is_apart t.zero_end c.window_start)) [
  | inl e ↦ rw e (record {
    checks = h.checks ++ c ∷ [];
    zero_run = ZeroRun.then h.checks t.zero_end c h.zero_run p a n e;
    ids = map-snoc h.checks c ∙ ap (λ ids. ids ++ c.check_id ∷ []) h.ids;
    streak = length-snoc h.checks c ∙ ap (λ k. k + 1) h.streak;
  })
  | inr e ↦
      rw e (record { checks = h.checks; zero_run = h.zero_run; ids = h.ids; streak = h.streak })
]

noted-IsCounted :
    (P : SourceCheck → Type 0) (b : Bool) (ids : List String) (t : Tally)
    → IsCounted P t
    → IsCounted P (if b then record t { adequate = ids } else t)
noted-IsCounted P true ids t h = record {
  checks = h.checks;
  zero_run = h.zero_run;
  ids = h.ids;
  streak = h.streak;
}
noted-IsCounted P false ids t h = h

tally_check-IsCounted :
    (P : SourceCheck → Type 0) (t : Tally) (c : SourceCheck)
    → P c
    → IsCounted P t
    → IsCounted P (tally_check t c)
unfolding tally_check
tally_check-IsCounted P t c p h =
    let noted = noted-IsCounted P (is_adequate c) (t.adequate ++ c.check_id ∷ []) t h in
    elim (Bool-cases (has_novel c)) [
      | inl e ↦ rw e (record { checks = []; zero_run = ZeroRun.nothing; ids = refl; streak = refl })
      | inr e ↦ elim (Bool-cases (is_adequate c)) [
        | inl a ↦ rw (e, a) (count_zero-IsCounted P c _ p a e (rw a at noted))
        | inr a ↦ rw (e, a) (rw a at noted)
      ]
    ]

tally-IsCounted :
    (P : SourceCheck → Type 0) (cs : List SourceCheck) (t : Tally)
    → All P cs
    → IsCounted P t
    → IsCounted P (tally t cs)
unfolding tally
tally-IsCounted P [] t ps h = h
tally-IsCounted P (c ∷ cs) t ps h =
    tally-IsCounted P cs (tally_check t c) ps.1 (tally_check-IsCounted P t c ps.0 h)

All-insert :
    (P : SourceCheck → Type 0) (c : SourceCheck) (cs : List SourceCheck)
    → P c
    → All P cs
    → All P (insert c cs)
unfolding insert
All-insert P c [] p ps = (p, tt)
All-insert P c (d ∷ ds) p ps = elim (Bool-cases (comes_before c d)) [
  | inl e ↦ rw e (p, ps)
  | inr e ↦ rw e (ps.0, All-insert P c ds p ps.1)
]

All-sort : (P : SourceCheck → Type 0) (cs : List SourceCheck) → All P cs → All P (sort cs)
unfolding sort
All-sort P [] ps = tt
All-sort P (c ∷ cs) ps = All-insert P c (sort cs) ps.0 (All-sort P cs ps.1)

-- A cohort's streak counts, in the order of their windows' ends, the checks after the last one that found
-- a novel action: those of them that are adequate and start no earlier than the one counted before has
-- ended. The row names their ids. They are checks of the cohort (whatever holds of all its checks holds of
-- them) without a novel action, and the cadence is to be reviewed exactly from five on.
pub review_cohort-IsCounted :
    (P : SourceCheck → Type 0) (cohort : List SourceCheck)
    → All P cohort
    → (run : IsCounted P (review_cohort cohort).0) × ((review_cohort cohort).0.zero_checks
        ≡ map (λ c. c.check_id) (apart_from none (since_novel (sort cohort))))
      × ((review_cohort cohort).0.streak ≡ length (apart_from none (since_novel (sort cohort))))
      × ((review_cohort cohort).1 ≡ leb 5 (length run.checks))
unfolding review_cohort
review_cohort-IsCounted P cohort ps =
    let run =
      tally-IsCounted P (sort cohort) start (All-sort P cohort ps)
        (record { checks = []; zero_run = ZeroRun.nothing; ids = refl; streak = refl }) in
    let (ids, streak) = tally-start (sort cohort) in
    (run, ids, streak, ap (λ k. leb 5 k) (sym run.streak))
