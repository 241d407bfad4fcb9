-- ===== src/Source/Streak/Examples.antt =====
-- A cohort of three empty checks, two of which overlap.
use job_hound.Base.{ℕ, ◌≡◌, refl, String, true, false, some, none, List, [], ◌∷◌, length, leb, map}
use job_hound.Source.Checks.{SourceCheck, RetrievalState, sort, review_cohort}
use job_hound.Source.Streak.Uninterrupted.{since_novel, apart_from}
use job_hound.Source.Streak.{IsCounted, review_cohort-IsCounted}

abbrev check : String → ℕ → ℕ → SourceCheck
check id from to = record {
  check_id = id;
  source_id = "board";
  query_family = "jobs";
  profile_hash = "0123456789abcdef";
  window_start = from;
  window_end = to;
  observed_at = to;
  allowed_pages = "p1" ∷ [];
  fetched_pages = "p1" ∷ [];
  bounded_set_complete = true;
  retrieval_state = RetrievalState.complete;
  omissions = [];
  novelty_evaluated = true;
  novel_action_ids = some [];
  original_opportunity_ids = none;
  transition_refs = none;
  has_external_cost = false;
  has_cost_currency = false;
}

abbrev cohort : List SourceCheck
cohort = check "c3" 20 30 ∷ check "c1" 0 10 ∷ check "c2" 5 15 ∷ []

counted : (review_cohort cohort).0.zero_checks ≡ "c1" ∷ "c3" ∷ []
unfolding review_cohort
counted = refl

-- One more check, the first by its window, that found something: the others are counted after it.
abbrev fruitful : SourceCheck
fruitful = record (check "c0" 0 5) { novel_action_ids = some ("job" ∷ []) }

-- And one that interrupts them.
abbrev interrupting : SourceCheck
interrupting = record (check "c4" 10 20) { novel_action_ids = some ("job" ∷ []) }

after_finding : (review_cohort (interrupting ∷ fruitful ∷ cohort)).0.zero_checks ≡ "c3" ∷ []
unfolding review_cohort
after_finding = refl

review_cohort-IsCounted_example :
    (run : IsCounted
      (λ c. c.bounded_set_complete ≡ true)
      (review_cohort (interrupting ∷ fruitful ∷ cohort)).0)
    × ((review_cohort (interrupting ∷ fruitful ∷ cohort)).0.zero_checks
        ≡ map
            (λ c. c.check_id)
            (apart_from none (since_novel (sort (interrupting ∷ fruitful ∷ cohort)))))
    × ((review_cohort (interrupting ∷ fruitful ∷ cohort)).0.streak
        ≡ length (apart_from none (since_novel (sort (interrupting ∷ fruitful ∷ cohort)))))
    × ((review_cohort (interrupting ∷ fruitful ∷ cohort)).1 ≡ leb 5 (length run.checks))
review_cohort-IsCounted_example =
    review_cohort-IsCounted (λ c. c.bounded_set_complete ≡ true) (interrupting ∷ fruitful ∷ cohort)
      (refl, (refl, (refl, (refl, (refl, tt)))))
