-- ===== src/Source/Admission.antt =====
-- What a plan that passed its validator promises of each of its routes.
use job_hound.Base.{
  ◌≤◌, ◌≡◌, refl, String, Bool, true, false, not, ◌&&◌, Option, none, some, List, [], ◌∷◌, str_eq,
  str_eq_iff, find?, any, All, All-find?, Bool-cases, inl, inr, arith, not-false, or-false,
}
use job_hound.Source.Plan.{
  Limits, SourceRoute, SourcePlan, SourcePolicyDecision, CategoryLimit, PlanError, is_watch, admits,
  reduces, is_ref, no_later_check, is_later_pause, check_admission, check_route, check_routes,
  check_plan, find_route, find_category, exceeds, ◌or_else◌, fail_if,
}

-- A logged decision of this very source lets the route run: it admits, a reduced cadence names a later
-- check, and no pause followed it.
pub record IsAdmitted (p : SourcePlan) (r : SourceRoute) : Type 0 where
  pub decision : SourcePolicyDecision
  pub logged : find? (is_ref r.admission_ref) p.policy_decisions ≡ some decision
  pub same_source : decision.source_id ≡ r.source_id
  pub admitted : admits decision.disposition ≡ true
  pub later_check :
      reduces decision.disposition ≡ true
      → no_later_check r.next_check_at decision.observed_at ≡ false
  pub not_paused : any (is_later_pause r decision) p.policy_decisions ≡ false

pub record IsUsable (p : SourcePlan) (r : SourceRoute) : Type 0 where
  pub category : CategoryLimit
  pub found : find_category r.category p ≡ some category
  pub requests : r.limits.requests ≤ p.ceilings.requests
  pub inspections : r.limits.inspections ≤ p.ceilings.inspections
  pub searches : r.limits.searches ≤ p.ceilings.searches
  pub active : is_watch r.mode ≡ false → IsAdmitted p r

or_else-none : (a b : Option PlanError) → (a or_else b) ≡ none → (a ≡ none) × (b ≡ none)
or_else-none none b h = (refl, h)
or_else-none (some e) b h = cc

fail_if-none : (c : Bool) (e : PlanError) → fail_if c e ≡ none → c ≡ false
fail_if-none true e h = cc
fail_if-none false e h = refl

cadence_lem : (a b : Bool) → a ≡ true → (a && b) ≡ false → b ≡ false
cadence_lem true b q h = h
cadence_lem false b q h = cc

check_admission-IsAdmitted :
    (p : SourcePlan) (r : SourceRoute) (x : Option SourcePolicyDecision)
    → find? (is_ref r.admission_ref) p.policy_decisions ≡ x
    → check_admission r p.policy_decisions x ≡ none
    → IsAdmitted p r
unfolding check_admission
check_admission-IsAdmitted p r none e h = cc
check_admission-IsAdmitted p r (some a) e h =
    let parts = or_else-none _ _ h in
    let firsts = or_else-none _ _ parts.0 in
    let named =
      or-false (not (str_eq a.source_id r.source_id)) (not (admits a.disposition))
        (fail_if-none _ _ firsts.0) in
    record {
      decision = a;
      logged = e;
      same_source = (str_eq_iff a.source_id r.source_id).0 (not-false _ named.0);
      admitted = not-false _ named.1;
      later_check = λ q.
          cadence_lem (reduces a.disposition) (no_later_check r.next_check_at a.observed_at) q
            (fail_if-none _ _ firsts.1);
      not_paused = fail_if-none _ _ parts.1;
    }

-- The two checks of one route.
check_route-none :
    (p : SourcePlan) (r : SourceRoute)
    → check_route p.categories p.policy_decisions r ≡ none
    → (any (λ c. str_eq c.category r.category) p.categories ≡ true)
      × (is_watch r.mode ≡ false → IsAdmitted p r)
unfolding check_route
check_route-none p r h =
    let parts = or_else-none _ _ h in
    (
      not-false _ (fail_if-none _ _ parts.0),
      λ active. check_admission-IsAdmitted p r _ refl (rw active at parts.1),
    )

check_routes-none :
    (p : SourcePlan) (rs : List SourceRoute)
    → check_routes p.categories p.policy_decisions rs ≡ none
    → All (λ r. check_route p.categories p.policy_decisions r ≡ none) rs
unfolding check_routes
check_routes-none p [] h = tt
check_routes-none p (r ∷ rs) h =
    let parts = or_else-none _ _ h in (parts.0, check_routes-none p rs parts.1)

All-any-false {ℓ} :
    {A : Type ℓ} (q : A → Bool) (xs : List A) → any q xs ≡ false → All (λ x. q x ≡ false) xs
All-any-false q [] h = tt
All-any-false q (x ∷ xs) h =
    let parts = or-false (q x) (any q xs) h in (parts.0, All-any-false q xs parts.1)

find?-any {ℓ} :
    {A : Type ℓ} (q : A → Bool) (xs : List A) → any q xs ≡ true → (x : A) × (find? q xs ≡ some x)
find?-any q [] h = cc
find?-any q (x ∷ xs) h = elim (Bool-cases (q x)) [
  | inl e ↦ (x, rw e)
  | inr e ↦ rw e (find?-any q xs (rw e at h))
]

exceeds-false :
    (l c : Limits)
    → exceeds l c ≡ false
    → (l.requests ≤ c.requests) × (l.inspections ≤ c.inspections) × (l.searches ≤ c.searches)
exceeds-false l c h = ground arith

-- A plan without an error promises of each route that it finds: the category is there, the route's
-- three limits stay within the shared ceilings, and unless it is watched a logged decision of the same
-- source admits it, with a later check where the cadence is reduced and no pause since.
pub check_plan-IsUsable :
    (p : SourcePlan) (source_id : String) (r : SourceRoute)
    → check_plan p ≡ none
    → find_route source_id p ≡ some r
    → IsUsable p r
unfolding check_plan find_route find_category
check_plan-IsUsable p source_id r h e =
    let distinct_decisions = or_else-none _ _ h in
    let routes = or_else-none _ _ distinct_decisions.0 in
    let bounds = or_else-none _ _ routes.0 in
    let within = or-false _ _ (fail_if-none _ _ bounds.1) in
    let checked = (All-find? _ _ p.routes r (check_routes-none p p.routes routes.1) e).0 in
    let limits =
      exceeds-false r.limits p.ceilings
        (All-find? _ _ p.routes r
          (All-any-false (λ q. exceeds q.limits p.ceilings) p.routes within.0) e).0 in
    let (known, active) = check_route-none p r checked in
    let (c, found) =
      find?-any (λ (c : CategoryLimit). str_eq c.category r.category) p.categories known in
    record {
      category = c;
      found = found;
      requests = limits.0;
      inspections = limits.1;
      searches = limits.2;
      active = active;
    }
