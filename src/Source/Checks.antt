-- ===== src/Source/Checks.antt =====
-- `SourceCheck` of jobhound/source_policy.py and the cohorts of `source_value_report`: when a source
-- has yielded nothing often enough for its cadence to be reviewed. Instants are naturals.
use job_hound.Base.{
  ℕ, ◌+◌, String, Bool, true, false, not, ◌&&◌, ◌||◌, Option, none, some, List, [], ◌∷◌, ◌++◌, ltb,
  leb, ◌==◌, codes, all, contains, all_distinct, is_some, if◌then◌else◌,
}

pub data RetrievalState : Type 0 where
  complete partial failed throttled unsupported : RetrievalState

pub record SourceCheck : Type 0 where
  pub check_id : String
  pub source_id : String
  pub query_family : String
  pub profile_hash : String
  pub window_start : ℕ
  pub window_end : ℕ
  pub observed_at : ℕ
  pub allowed_pages : List String
  pub fetched_pages : List String
  pub bounded_set_complete : Bool
  pub retrieval_state : RetrievalState
  pub omissions : List String
  pub novelty_evaluated : Bool
  pub novel_action_ids : Option (List String)
  pub original_opportunity_ids : Option (List String)
  pub transition_refs : Option (List String)
  pub has_external_cost : Bool
  pub has_cost_currency : Bool

pub data CheckError : Type 0 where
  invalid_check_window duplicate_check_identity fetched_page_outside_planned_set : CheckError
  explicit_cost_currency_required novelty_count_requires_review : CheckError

abbrev pub is_distinct : Option (List String) → Bool
is_distinct none = true
is_distinct (some ids) = all_distinct ids

abbrev pub is_subset : List String → List String → Bool
is_subset xs ys = all (λ x. contains x ys) xs

-- `consistent_check`: the first error
unfoldable pub consistent_check : SourceCheck → Option CheckError
consistent_check c =
    if leb c.window_end c.window_start || ltb c.observed_at c.window_end
    then some CheckError.invalid_check_window
    else if not (
        all_distinct c.allowed_pages
        && all_distinct c.fetched_pages
        && is_distinct c.novel_action_ids
        && is_distinct c.original_opportunity_ids
        && is_distinct c.transition_refs)
    then some CheckError.duplicate_check_identity
    else if not (is_subset c.fetched_pages c.allowed_pages)
    then some CheckError.fetched_page_outside_planned_set
    else if c.has_external_cost && not c.has_cost_currency
    then some CheckError.explicit_cost_currency_required
    else if is_some c.novel_action_ids && not c.novelty_evaluated
    then some CheckError.novelty_count_requires_review
    else none

abbrev pub is_retrieved : RetrievalState → Bool
is_retrieved RetrievalState.complete = true
is_retrieved _ = false

abbrev pub is_nil : List String → Bool
is_nil [] = true
is_nil (x ∷ xs) = false

-- `adequate`
unfoldable pub is_adequate : SourceCheck → Bool
is_adequate c =
    is_retrieved c.retrieval_state
    && c.bounded_set_complete
    && (is_subset c.fetched_pages c.allowed_pages && is_subset c.allowed_pages c.fetched_pages)
    && is_nil c.omissions
    && c.novelty_evaluated
    && is_some c.novel_action_ids

-- `if check.novel_action_ids`: none and the empty tuple are false
abbrev pub has_novel : SourceCheck → Bool
has_novel c = elim c.novel_action_ids [ none ↦ false | some ids ↦ not (is_nil ids) ]

-- What the loop over a cohort carries.
pub record Tally : Type 0 where
  pub streak : ℕ
  pub adequate : List String
  pub zero_end : Option ℕ
  pub zero_checks : List String
  pub overlapping : List String

abbrev pub start : Tally
start = record { streak = 0; adequate = []; zero_end = none; zero_checks = []; overlapping = [] }

-- `zero_end is None or check.window_start>=zero_end`
abbrev pub is_apart : Option ℕ → ℕ → Bool
is_apart none at = true
is_apart (some e) at = leb e at

-- An adequate check that found nothing.
unfoldable pub count_zero : SourceCheck → Tally → Tally
count_zero c t =
    if is_apart t.zero_end c.window_start
    then record t {
      streak = t.streak + 1;
      zero_end = some c.window_end;
      zero_checks = t.zero_checks ++ c.check_id ∷ [];
    }
    else record t { overlapping = t.overlapping ++ c.check_id ∷ [] }

-- One turn of the loop.
unfoldable pub tally_check : Tally → SourceCheck → Tally
unfolding is_adequate count_zero
tally_check t c =
    let t' = if is_adequate c then record t { adequate = t.adequate ++ c.check_id ∷ [] } else t in
    if has_novel c
    then record t' { streak = 0; zero_end = none; zero_checks = [] }
    else if is_adequate c
    then count_zero c t'
    else t'

unfoldable pub tally : Tally → List SourceCheck → Tally
unfolding tally_check
tally t [] = t
tally t (c ∷ cs) = tally (tally_check t c) cs

-- The order of texts by their code points.
unfoldable pub precedes : List ℕ → List ℕ → Bool
precedes [] ys = true
precedes (x ∷ xs) [] = false
precedes (x ∷ xs) (y ∷ ys) = ltb x y || (x == y && precedes xs ys)

-- The key `(window_end, bool(novel_action_ids), check_id)`
unfoldable pub comes_before : SourceCheck → SourceCheck → Bool
unfolding precedes
comes_before c d =
    ltb c.window_end d.window_end
    || (c.window_end == d.window_end
        && ((not (has_novel c) && has_novel d)
            || ((has_novel c || not (has_novel d))
                && (not (has_novel c) || has_novel d)
                && precedes (codes c.check_id) (codes d.check_id))))

unfoldable pub insert : SourceCheck → List SourceCheck → List SourceCheck
unfolding comes_before
insert c [] = c ∷ []
insert c (d ∷ ds) = if comes_before c d then c ∷ d ∷ ds else d ∷ insert c ds

-- `cohort.sort`
unfoldable pub sort : List SourceCheck → List SourceCheck
unfolding insert
sort [] = []
sort (c ∷ cs) = insert c (sort cs)

-- The part of a cohort's row that its cadence is reviewed by.
unfoldable pub review_cohort : List SourceCheck → Tally × Bool
unfolding sort tally
review_cohort cohort = let t = tally start (sort cohort) in (t, leb 5 t.streak)
